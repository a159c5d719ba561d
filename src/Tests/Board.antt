-- ===== src/Tests/Board.antt =====
-- A call of `Handle` and one of `HarvestSamples` on the native table.
use cloud_profiler_python.Prelude.{ℕ, zero, suc, ◌+◌, ◌≤◌, ◌<◌, ◌≡◌, refl, false, [], ◌∷◌, arith}
use cloud_profiler_python.Prelude.{◌==◌, nat_eq, list_eq, length}
use cloud_profiler_python.Prelude.Dict
use mathlib.Core.Path.{subst}
use cloud_profiler_python.Native.Stack.{frame_eq, calculate_hash, mix_frames, mix}
use cloud_profiler_python.Native.Table.{max_stack_traces, absorb}
use cloud_profiler_python.Native.Profiler.Spec.{count_of}
use cloud_profiler_python.Native.Entry.{
  Cell, counted, locked, Pc, idle, entered, loaded, reserved, writing, written, enter, load,
  reserve, step_back, write, publish, looked, seen, holding, copied, released, look, see, exchange,
  copy, wait_ends, release,
}
use cloud_profiler_python.Native.Entry.Local.{is_positive}
use cloud_profiler_python.Native.Concurrent.{
  outside, adding, off, before, within, Board, new_board, slot, put, Turn, handles, moves, stores,
  begins, skips, looks, releases, ends, Reached, starts,
}
use cloud_profiler_python.Native.Frames.{py_313}
use cloud_profiler_python.Native.Concurrent.Serial.{Stands}
use cloud_profiler_python.Native.Concurrent.Rounds.{Turns}
use cloud_profiler_python.Native.Concurrent.Last.{Reached-flush}
use cloud_profiler_python.Native.Concurrent.Runs.{run-Reached}
use cloud_profiler_python.Tests.Native.{flushed_once, after_flush, run-flushed_once}
use cloud_profiler_python.Tests.Entries.{trace, one_active, one_locked, published}

-- Thread 0 handles a signal, and adds the trace to entry 636.
abbrev arrived : Board
arrived = record new_board {
  workers = put new_board.workers 0 (adding trace 0 idle);
  handled = trace ∷ [];
}

abbrev turned : Board → Cell → Pc → Board
turned s c p = record s { cells = put s.cells 636 c; workers = put s.workers 0 (adding trace 0 p) }

abbrev b1 : Board
b1 = turned arrived one_active (entered trace)

abbrev b2 : Board
b2 = turned b1 one_active (loaded trace (counted 0))

abbrev b3 : Board
b3 = turned b2 one_locked (reserved trace)

abbrev b4 : Board
b4 = turned b3 (record one_locked { active_updates = 0 }) (writing trace)

abbrev b5 : Board
b5 = turned b4 (record one_locked { active_updates = 0; frames = trace }) (written trace)

abbrev stored : Board
stored = record b5 { cells = put b5.cells 636 published; workers = put b5.workers 0 outside }

Reached-b2 : Reached 1 b2
unfolding slot calculate_hash mix_frames mix
Reached-b2 =
    Reached.goes_on
      (Reached.goes_on (Reached.goes_on starts (handles 0 trace (omega arith) refl))
        (moves 0 trace 0 idle (entered trace) one_active (omega arith) refl (enter _ trace) refl))
      (moves 0 trace 0 (entered trace) (loaded trace (counted 0)) one_active (omega arith) refl
        (load _ trace) refl)

Reached-b4 : Reached 1 b4
unfolding slot calculate_hash mix_frames mix
Reached-b4 =
    Reached.goes_on
      (Reached.goes_on Reached-b2 (
        moves 0 trace 0 (loaded trace (counted 0)) (reserved trace) one_locked (omega arith) refl
          (reserve _ trace refl) refl))
      (moves 0 trace 0 (reserved trace) (writing trace) (record one_locked { active_updates = 0 })
        (omega arith) refl (step_back _ trace) refl)

Reached-stored : Reached 1 stored
unfolding slot calculate_hash mix_frames mix
Reached-stored =
    Reached.goes_on
      (Reached.goes_on Reached-b4 (
        moves 0 trace 0 (writing trace) (written trace)
          (record one_locked { active_updates = 0; frames = trace }) (omega arith) refl
          (write _ trace) refl))
      (stores 0 trace 0 published (omega arith) refl (publish _ trace))

-- `HarvestSamples` passes d free entries.
skip_to :
    (s : Board) (d j : ℕ)
    → j + d ≤ max_stack_traces
    → ((k : ℕ) → j ≤ k → k < j + d → is_positive (s.cells k).count ≡ false)
    → Reached 1 (record s { harvester = before j })
    → Reached 1 (record s { harvester = before (j + d) })
skip_to s zero j room free reached =
    let e : j ≡ j + 0 = omega arith in
    subst (λ k. Reached 1 (record s { harvester = before k })) e reached
skip_to s (suc d) j room free reached =
    let e : suc j + d ≡ j + suc d = omega arith in
    subst (λ k. Reached 1 (record s { harvester = before k })) e
      (skip_to s d (suc j) (omega (arith, room))
        (λ k lo hi. free k (omega (arith, lo)) (omega (arith, hi)))
        (Reached.goes_on reached
          (skips j refl (omega (arith, room)) (free j (omega arith) (omega arith)))))

others_free : (k : ℕ) → (k == 636) ≡ false → is_positive (stored.cells k).count ≡ false
others_free k h = ground (arith, h)

abbrev reached_trace : Board
reached_trace = record stored { harvester = before 636 }

Reached-reached_trace : Reached 1 reached_trace
Reached-reached_trace =
    skip_to stored 636 0 (omega arith) (λ k lo hi. others_free k (ground (arith, hi)))
      (Reached.goes_on Reached-stored (begins refl))

-- Its `Extract` at entry 636
abbrev c1 : Cell
c1 = record published { reader = looked }

abbrev c2 : Cell
c2 = record published { reader = seen 1 }

abbrev c3 : Cell
c3 = record published { count = locked; reader = holding 1 1 }

abbrev c4 : Cell
c4 = record published { count = locked; reader = copied trace 1 }

abbrev c5 : Cell
c5 = record published { count = locked; reader = released trace 1 }

abbrev c6 : Cell
c6 = record published { count = counted 0; harvested = (trace, 1) ∷ [] }

abbrev puts : Board → Cell → Board
puts s c = record s { cells = put s.cells 636 c }

abbrev h1 : Board
h1 = record (puts reached_trace c1) { harvester = within 636 }

abbrev h5 : Board
h5 = puts (puts (puts (puts h1 c2) c3) c4) c5

Reached-h5 : Reached 1 h5
Reached-h5 =
    Reached.goes_on
      (Reached.goes_on
        (Reached.goes_on
          (Reached.goes_on
            (Reached.goes_on Reached-reached_trace
              (looks 636 c1 refl (omega arith) (look _ 0 refl refl) refl))
            (Turn.reads 636 c2 refl (see _ refl) refl))
          (Turn.reads 636 c3 refl (exchange _ 1 1 refl refl) refl))
        (Turn.reads 636 c4 refl (copy _ 1 1 refl) refl))
      (Turn.reads 636 c5 refl (wait_ends _ trace 1 refl refl) refl)

abbrev taken : Board
taken = record (puts h5 c6) { harvester = before 637; aggregated = (trace, 1) ∷ [] }

Reached-taken : Reached 1 taken
unfolding absorb Dict.tally Dict.get Dict.insert
Reached-taken =
    Reached.goes_on Reached-h5 (releases 636 c6 trace 1 refl refl (release _ trace 1 refl))

taken_free : (k : ℕ) → (k == 636) ≡ false → is_positive (taken.cells k).count ≡ false
taken_free k h = ground (arith, h)

abbrev harvested_board : Board
harvested_board = record taken { harvester = off }

Reached-harvested_board : Reached 1 harvested_board
Reached-harvested_board =
    Reached.goes_on
      (skip_to taken 1411 637 (omega arith) (λ k lo hi. taken_free k (ground (arith, lo)))
        Reached-taken)
      (ends 2048 refl (omega arith))

nobody : (i : ℕ) → harvested_board.workers i ≡ outside
nobody zero = refl
nobody (suc i) = ground arith

Reached-flush_example :
    (u : Board) × Turns 1 harvested_board u
    × (u.harvester ≡ off)
    × (u.handled ≡ trace ∷ [])
    × (u.missed ≡ [])
    × (count_of (λ t. t == trace) (trace ∷ [])
        ≡ Dict.total_of (λ t. t == trace) u.aggregated + count_of (λ t. t == trace) [])
    × (u.unknown ≡ length harvested_board.missed)
Reached-flush_example =
    Reached-flush (λ t. t == trace) 1 harvested_board refl Reached-harvested_board refl nobody

run-Reached_example : (s : Board) × Reached 1 s × (s.harvester ≡ off) × Stands after_flush s
run-Reached_example = run-Reached 1 py_313 flushed_once after_flush (omega arith) run-flushed_once
