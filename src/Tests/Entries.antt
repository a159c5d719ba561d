-- ===== src/Tests/Entries.antt =====
-- An entry of the native table, and two threads that add a trace to it.
use cloud_profiler_python.Prelude.{ℕ, ◌*◌, ◌≤◌, ◌⊎◌, ◌<◌, ◌≡◌, refl, true, false, [], ◌∷◌, arith}
use cloud_profiler_python.Prelude.{nat_eq, list_eq}
use cloud_profiler_python.Prelude.Int.{pos}
use cloud_profiler_python.Native.Stack.{Stack, frame_eq}
use cloud_profiler_python.Native.Entry.{
  counted, locked, Cell, resting, Pc, idle, entered, loaded, reserved, writing, written, matched,
  reloaded, reload, Move, enter, load, reserve, step_back, write, publish, agree, System, adds,
  update, at_rest, Reach, begins, goes_on,
}
use cloud_profiler_python.Native.Entry.Local.{inspects, writes}
use cloud_profiler_python.Native.Entry.Drains.{Inner, goes, stays, then_goes, Reach-drains}
use cloud_profiler_python.Native.Entry.Safety.{Reach-separates}

abbrev pub trace : Stack
trace = record { lineno = pos 4; py_code = 500 } ∷ []

abbrev moved : System → ℕ → Cell → Pc → System
moved s i c p = record { cell = c; pcs = update s.pcs i p }

move :
    (i : ℕ) (s : System) (c : Cell) (p : Pc)
    → i < 2
    → Reach 2 s
    → Move s.cell (s.pcs i) c p
    → Reach 2 (moved s i c p)
move i s c p lt reach step = goes_on reach (adds i lt step)

-- Thread 0 adds the trace.
abbrev cell_0 : Cell
cell_0 = at_rest.cell

abbrev pub one_active : Cell
one_active = record cell_0 { active_updates = 1 }

abbrev pub one_locked : Cell
one_locked = record one_active { count = locked }

abbrev pub published : Cell
published = record cell_0 { count = counted 1; frames = trace; added = trace ∷ [] }

abbrev s1 : System
s1 = moved at_rest 0 one_active (entered trace)

abbrev s2 : System
s2 = moved s1 0 one_active (loaded trace (counted 0))

abbrev s3 : System
s3 = moved s2 0 one_locked (reserved trace)

abbrev s4 : System
s4 = moved s3 0 (record cell_0 { count = locked }) (writing trace)

abbrev s5 : System
s5 = moved s4 0 (record cell_0 { count = locked; frames = trace }) (written trace)

abbrev s6 : System
s6 = moved s5 0 published idle

Reach-s3 : Reach 2 s3
Reach-s3 =
    move 0 s2 _ _ (omega arith)
      (move 0 s1 _ _ (omega arith) (move 0 at_rest _ _ (omega arith) begins (enter _ trace))
        (load _ trace))
      (reserve _ trace refl)

Reach-s6 : Reach 2 s6
Reach-s6 =
    move 0 s5 _ _ (omega arith)
      (move 0 s4 _ _ (omega arith) (move 0 s3 _ _ (omega arith) Reach-s3 (step_back _ trace))
        (write _ trace))
      (publish _ trace)

-- Thread 1 adds the same trace, and has compared the frames.
abbrev two_active : Cell
two_active = record published { active_updates = 1 }

abbrev s7 : System
s7 = moved s6 1 two_active (entered trace)

abbrev s8 : System
s8 = moved s7 1 two_active (loaded trace (counted 1))

abbrev s9 : System
s9 = moved s8 1 two_active (matched trace)

Reach-s9 : Reach 2 s9
Reach-s9 =
    move 1 s8 _ _ (omega arith)
      (move 1 s7 _ _ (omega arith) (move 1 s6 _ _ (omega arith) Reach-s6 (enter _ trace))
        (load _ trace))
      (agree _ trace 0 refl)

Reach-separates_example :
    ((i j : ℕ) → inspects (s9.pcs i) ≡ true → writes (s9.pcs j) ≡ false)
    × ((i j : ℕ) → writes (s9.pcs i) ≡ true → writes (s9.pcs j) ≡ true → i ≡ j)
    × ((i : ℕ) → writes (s9.pcs i) ≡ true → s9.cell.reader ≡ resting)
Reach-separates_example = Reach-separates 2 s9 Reach-s9

-- One more step of thread 1, and none can follow but its own.
Reach-drains_example :
    (1 ≤ 2 * 5)
    × (((moved s9 1 two_active (reloaded trace (counted 1))).cell.active_updates ≡ 0)
        ⊎ ((u : System) × Inner 2 (moved s9 1 two_active (reloaded trace (counted 1))) u))
Reach-drains_example =
    Reach-drains 2 s9 (moved s9 1 two_active (reloaded trace (counted 1))) 1 Reach-s9
      (then_goes stays (goes 1 (omega arith) (λ e. absurd (cc e)) (reload _ trace)))
