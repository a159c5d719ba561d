-- ===== src/Native/Entry/Drains.antt =====
-- googlecloudprofiler/src/stacktraces.cc: the loop of `Extract` that waits for the threads in `Add`.
use cloud_profiler_python.Prelude.{
  ℕ, zero, suc, ◌+◌, ◌*◌, ◌≤◌, ◌<◌, ◌≡◌, ◌≢◌, refl, arith, inl, inr, ◌⊎◌,
}
use cloud_profiler_python.Prelude.{◌==◌, nat_eq, list_eq, Bool-cases}
use native.Mathlib.Decide.{dec_lt}
use cloud_profiler_python.Prelude.Sums.{sum_to, sum_to-positive, sum_to-bound}
use cloud_profiler_python.Native.Stack.{Stack, frame_eq}
use cloud_profiler_python.Native.Entry.{
  Count, locked, counted, Cell, Pc, idle, entered, loaded, reserved, writing, written, matched,
  reloaded, bumped, leaving, Move, enter, load, reserve, not_reserved, pass_locked, differ, agree,
  reload, bump, not_bumped, step_back, write, publish, leave_bumped, leave, System, adds, update,
  Reach,
}
use cloud_profiler_python.Native.Entry.Local.{is_active}
use cloud_profiler_python.Native.Entry.Invariant.{Reach-IsEntry, sum_to-update}

-- A step of a thread that is in `Add` already.
pub data Inner (n : ℕ) (s : System) : System → Type 0 where
  goes :
      (i : ℕ) {c : Cell} {p : Pc}
      → i < n
      → s.pcs i ≢ idle
      → Move s.cell (s.pcs i) c p
      → Inner n s (record { cell = c; pcs = update s.pcs i p })

-- That many of them.
pub data Inners (n : ℕ) (s : System) : ℕ → System → Type 0 where
  stays : Inners n s 0 s
  then_goes : {k : ℕ} {t u : System} → Inners n s k t → Inner n t u → Inners n s (suc k) u

-- At most so many steps are left of the round.
abbrev rank : Pc → ℕ
rank idle = 0
rank (entered t) = 5
rank (loaded t k) = 4
rank (reserved t) = 3
rank (writing t) = 2
rank (written t) = 1
rank (matched t) = 3
rank (reloaded t k) = 2
rank (bumped t) = 1
rank (leaving t) = 1

rank_bound : (p : Pc) → rank p ≤ 5
rank_bound idle = omega arith
rank_bound (entered t) = omega arith
rank_bound (loaded t k) = omega arith
rank_bound (reserved t) = omega arith
rank_bound (writing t) = omega arith
rank_bound (written t) = omega arith
rank_bound (matched t) = omega arith
rank_bound (reloaded t k) = omega arith
rank_bound (bumped t) = omega arith
rank_bound (leaving t) = omega arith

Move-rank : {c c' : Cell} {p p' : Pc} → Move c p c' p' → p ≢ idle → rank p' < rank p
Move-rank (enter c t) h = absurd (h refl)
Move-rank (load c t) h = omega arith
Move-rank (reserve c t e) h = omega arith
Move-rank (not_reserved c t) h = omega arith
Move-rank (pass_locked c t) h = omega arith
Move-rank (differ c t k e) h = omega arith
Move-rank (agree c t k e) h = omega arith
Move-rank (reload c t) h = omega arith
Move-rank (bump c t k e) h = omega arith
Move-rank (not_bumped c t k) h = omega arith
Move-rank (step_back c t) h = omega arith
Move-rank (write c t) h = omega arith
Move-rank (publish c t) h = omega arith
Move-rank (leave_bumped c t) h = omega arith
Move-rank (leave c t) h = omega arith

-- A thread that counts as an active update can go on, whatever the entry holds.
loaded-moves :
    (c : Cell) (t : Stack) (k : Count) → (c' : Cell) × (p : Pc) × Move c (loaded t k) c' p
loaded-moves c t locked = (_, _, pass_locked c t)
loaded-moves c t (counted zero) = (_, _, not_reserved c t)
loaded-moves c t (counted (suc k)) = elim (Bool-cases (t == c.frames)) [
  | inl same ↦ (_, _, agree c t k same)
  | inr other ↦ (_, _, differ c t k other)
]

active-moves :
    (c : Cell) (p : Pc) → is_active p ≡ 1 → (p ≢ idle) × ((c' : Cell) × (q : Pc) × Move c p c' q)
active-moves c idle h = absurd (omega (arith, h))
active-moves c (entered t) h = (λ e. absurd (cc e), (_, _, load c t))
active-moves c (loaded t k) h = (λ e. absurd (cc e), loaded-moves c t k)
active-moves c (reserved t) h = (λ e. absurd (cc e), (_, _, step_back c t))
active-moves c (writing t) h = absurd (omega (arith, h))
active-moves c (written t) h = absurd (omega (arith, h))
active-moves c (matched t) h = (λ e. absurd (cc e), (_, _, reload c t))
active-moves c (reloaded t k) h = (λ e. absurd (cc e), (_, _, not_bumped c t k))
active-moves c (bumped t) h = (λ e. absurd (cc e), (_, _, leave_bumped c t))
active-moves c (leaving t) h = (λ e. absurd (cc e), (_, _, leave c t))

total_rank : ℕ → System → ℕ
total_rank n s = sum_to n (λ i. rank (s.pcs i))

Inner-rank : (n : ℕ) (s t : System) → Inner n s t → total_rank n t < total_rank n s
unfolding total_rank
Inner-rank n s _ (goes i {c} {p} lt inside move) =
    omega (arith, sum_to-update rank n s.pcs i p lt, Move-rank move inside)

Inners-rank : (n : ℕ) (s t : System) (k : ℕ) → Inners n s k t → k + total_rank n t ≤ total_rank n s
Inners-rank n s _ _ stays = omega arith
Inners-rank n s u _ (then_goes {k} {t} steps step) =
    omega (arith, Inners-rank n s t k steps, Inner-rank n t u step)

Inners-Reach : (n : ℕ) (s t : System) (k : ℕ) → Inners n s k t → Reach n s → Reach n t
Inners-Reach n s _ _ stays reach = reach
Inners-Reach n s _ _ (then_goes {k} {t} steps (goes i lt inside move)) reach =
    Reach.goes_on (Inners-Reach n s t k steps reach) (adds i lt move)

is_active-positive : (p : Pc) → 0 < is_active p → is_active p ≡ 1
is_active-positive idle h = absurd (omega (arith, h))
is_active-positive (entered t) h = refl
is_active-positive (loaded t k) h = refl
is_active-positive (reserved t) h = refl
is_active-positive (writing t) h = absurd (omega (arith, h))
is_active-positive (written t) h = absurd (omega (arith, h))
is_active-positive (matched t) h = refl
is_active-positive (reloaded t k) h = refl
is_active-positive (bumped t) h = refl
is_active-positive (leaving t) h = refl

-- Where a thread counts as an active update, one can go on.
active-Inner :
    (n : ℕ) (s : System) → Reach n s → 0 < s.cell.active_updates → (t : System) × Inner n s t
active-Inner n s reach some_active =
    let v = Reach-IsEntry n s reach in
    let (i, lt, active) =
      sum_to-positive n (λ j. is_active (s.pcs j)) (omega (arith, v.active, some_active)) in
    let (inside, (c, p, move)) =
      active-moves s.cell (s.pcs i) (is_active-positive (s.pcs i) active) in
    (record { cell = c; pcs = update s.pcs i p }, goes i lt inside move)

-- Whatever the interleaving was, and whatever the n threads do at the entry from there: as long as none
-- enters `Add` at it anew, they take at most 5 n steps in all; and then no update is active, so that the
-- loop of `Extract` ends, or one of the threads can go on.
pub Reach-drains :
    (n : ℕ) (s t : System) (k : ℕ)
    → Reach n s
    → Inners n s k t
    → (k ≤ n * 5) × ((t.cell.active_updates ≡ 0) ⊎ ((u : System) × Inner n t u))
unfolding total_rank
Reach-drains n s t k reach steps = (
  omega (
    arith,
    Inners-rank n s t k steps,
    sum_to-bound n 5 (λ i. rank (s.pcs i)) (λ i. rank_bound (s.pcs i)),
  ),
  elim (dec_lt 0 t.cell.active_updates) [
    | yes some_active ↦ inr (active-Inner n t (Inners-Reach n s t k steps reach) some_active)
    | no none_active ↦ inl (omega arith)
  ],
)
