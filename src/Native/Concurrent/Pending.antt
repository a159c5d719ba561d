-- ===== src/Native/Concurrent/Pending.antt =====
-- googlecloudprofiler/src/stacktraces.cc and profiler.cc: what a step changes of the stacks that were added,
-- are still to be counted, or were harvested.
use cloud_profiler_python.Prelude.{
  ℕ, ◌+◌, ◌<◌, ◌≡◌, refl, sym, ap, ◌∙◌, Bool, false, some, [], ◌∷◌, arith,
}
use cloud_profiler_python.Prelude.{nat_eq, list_eq, if◌then◌else◌}
use cloud_profiler_python.Prelude.Dict
use cloud_profiler_python.Native.Stack.{Stack, frame_eq}
use cloud_profiler_python.Native.Table.{max_stack_traces, absorb}
use cloud_profiler_python.Native.Profiler.Spec.{count_of}
use cloud_profiler_python.Native.Entry.{
  Cell, Pc, idle, written, bumped, leaving, Move, enter, load, reserve, not_reserved, pass_locked,
  differ, agree, reload, bump, not_bumped, step_back, write, publish, leave_bumped, leave, resting,
  looked, released, Read, look, see, exchange, copy, wait_ends, release,
}
use cloud_profiler_python.Native.Concurrent.{
  Worker, outside, adding, failing, Board, slot, put, IsOf,
}
use cloud_profiler_python.Native.Concurrent.Project.{put-same, put-other}
use cloud_profiler_python.Prelude.Sums.{sum_to, sum_to-change}

-- A call for such a stack is still to be counted.
abbrev pub owes : (Stack → Bool) → Stack → Pc → ℕ
owes p t (bumped u) = 0
owes p t _ = if p t then 1 else 0

abbrev pub pending : (Stack → Bool) → Worker → ℕ
pending p outside = 0
pending p (adding t r pc) = owes p t pc
pending p (failing t) = if p t then 1 else 0

pub put_sum :
    {A : Type 0} (F : A → ℕ) (n : ℕ) (f : ℕ → A) (i : ℕ) (a : A)
    → i < n
    → sum_to n (λ j. F (put f i a j)) + F (f i) ≡ sum_to n (λ j. F (f j)) + F a
put_sum F n f i a lt =
    sum_to-change n (λ j. F (f j)) (λ j. F (put f i a j)) i lt
      (λ j h. ap F (sym (put-other f i a j h)))
    ∙ ap (λ x. sum_to n (λ j. F (f j)) + F x) (put-same f i a i (ground arith))

pub slot_bound : (t : Stack) (r : ℕ) → slot t r < max_stack_traces
unfolding slot
slot_bound t r = omega arith

module _ (p : Stack → Bool) where
  abbrev pub sum_added : (ℕ → Cell) → ℕ
  sum_added cells = sum_to max_stack_traces (λ k. count_of p (cells k).added)

  abbrev pub sum_pending : ℕ → (ℕ → Worker) → ℕ
  sum_pending n workers = sum_to n (λ i. pending p (workers i))

  abbrev pub sum_harvested : (ℕ → Cell) → ℕ
  sum_harvested cells = sum_to max_stack_traces (λ k. Dict.total_of p (cells k).harvested)

  -- Each step of a round moves what is still to be counted, or leaves it.
  pub Move-added :
      {c c' : Cell} {pc pc' : Pc} (t : Stack)
      → Move c pc c' pc'
      → IsOf t pc'
      → count_of p c'.added + owes p t pc' ≡ count_of p c.added + owes p t pc
  Move-added t (enter c u) h = refl
  Move-added t (load c u) h = refl
  Move-added t (reserve c u e) h = refl
  Move-added t (not_reserved c u) h = refl
  Move-added t (pass_locked c u) h = refl
  Move-added t (differ c u k e) h = refl
  Move-added t (agree c u k e) h = refl
  Move-added t (reload c u) h = refl
  Move-added t (bump c u k e) h = let same : p t ≡ p u = ap p h in ground (arith, same)
  Move-added t (not_bumped c u k) h = refl
  Move-added t (step_back c u) h = refl
  Move-added t (write c u) h = refl
  Move-added t (publish c u) h = elim h [ ]
  Move-added t (leave_bumped c u) h = elim h [ ]
  Move-added t (leave c u) h = elim h [ ]

pub publish_lem :
    (p : Stack → Bool) {c c' : Cell} (t : Stack)
    → Move c (written t) c' idle
    → count_of p c'.added ≡ count_of p c.added + (if p t then 1 else 0)
publish_lem p t (publish c _) = omega arith

pub leave_bumped_lem :
    (p : Stack → Bool) {c c' : Cell} (t : Stack)
    → Move c (bumped t) c' idle
    → count_of p c'.added ≡ count_of p c.added
leave_bumped_lem p t (leave_bumped c _) = refl

pub leave_lem :
    (p : Stack → Bool) {c c' : Cell} (t : Stack)
    → Move c (leaving t) c' idle
    → count_of p c'.added ≡ count_of p c.added
leave_lem p t (leave c _) = refl

pub Move-keeps :
    {c c' : Cell} {pc pc' : Pc}
    → Move c pc c' pc'
    → (c'.reader ≡ c.reader) × (c'.harvested ≡ c.harvested)
Move-keeps (enter c u) = (refl, refl)
Move-keeps (load c u) = (refl, refl)
Move-keeps (reserve c u e) = (refl, refl)
Move-keeps (not_reserved c u) = (refl, refl)
Move-keeps (pass_locked c u) = (refl, refl)
Move-keeps (differ c u k e) = (refl, refl)
Move-keeps (agree c u k e) = (refl, refl)
Move-keeps (reload c u) = (refl, refl)
Move-keeps (bump c u k e) = (refl, refl)
Move-keeps (not_bumped c u k) = (refl, refl)
Move-keeps (step_back c u) = (refl, refl)
Move-keeps (write c u) = (refl, refl)
Move-keeps (publish c u) = (refl, refl)
Move-keeps (leave_bumped c u) = (refl, refl)
Move-keeps (leave c u) = (refl, refl)

pub Read-added : {c c' : Cell} → Read c c' → c'.added ≡ c.added
Read-added (look c k e f) = refl
Read-added (see c e) = refl
Read-added (exchange c num k e f) = refl
Read-added (copy c num k e) = refl
Read-added (wait_ends c fs k e none_active) = refl
Read-added (release c fs k e) = refl

pub Read-looked : {c c' : Cell} → Read c c' → c'.reader ≡ looked → c'.harvested ≡ c.harvested
Read-looked (look c k e f) h = refl
Read-looked (see c e) h = refl
Read-looked (exchange c num k e f) h = refl
Read-looked (copy c num k e) h = refl
Read-looked (wait_ends c fs k e none_active) h = refl
Read-looked (release c fs k e) h = absurd (cc h)

pub Read-released :
    {c c' : Cell} (fs : Stack) (m : ℕ)
    → Read c c'
    → c.reader ≡ released fs m
    → (c'.reader ≡ resting) × (c'.harvested ≡ (fs, m) ∷ c.harvested)
Read-released fs m (look c k e f) h = absurd (cc (e, h))
Read-released fs m (see c e) h = absurd (cc (e, h))
Read-released fs m (exchange c num k e f) h = absurd (cc (e, h))
Read-released fs m (copy c num k e) h = absurd (cc (e, h))
Read-released fs m (wait_ends c gs k e none_active) h = absurd (cc (e, h))
Read-released fs m (release c gs k e) h = (refl, cc (e, h))

-- An empty trace is not absorbed, nor one with no count.
pub total_of-absorb :
    (p : Stack → Bool) (fs : Stack) (m : ℕ) (aggregated : Dict.Dict Stack ℕ)
    → p [] ≡ false
    → Dict.total_of p ((absorb (some (fs, m)) (aggregated, 0)).0)
      ≡ (if p fs then m else 0) + Dict.total_of p aggregated
unfolding absorb
total_of-absorb p [] m aggregated h = ground (arith, h)
total_of-absorb p (f ∷ fs) m aggregated h =
    ground (arith, Dict.total_of-tally p (f ∷ fs) m aggregated)

-- A thread does something that the count of the stacks shows in one entry.
pub worker_added :
    (p : Stack → Bool) (n : ℕ) (s : Board) (i j : ℕ) (w : Worker) (c : Cell)
    → i < n
    → j < max_stack_traces
    → count_of p c.added + pending p w ≡ count_of p (s.cells j).added + pending p (s.workers i)
    → sum_added p (put s.cells j c) + sum_pending p n (put s.workers i w)
      ≡ sum_added p s.cells + sum_pending p n s.workers
worker_added p n s i j w c lt inside same = omega (
  arith,
  same,
  put_sum (λ x. count_of p x.added) max_stack_traces s.cells j c inside,
  put_sum (pending p) n s.workers i w lt,
)
