-- ===== src/Native/Concurrent/Added.antt =====
-- googlecloudprofiler/src/stacktraces.cc and profiler.cc: the calls of `Handle` after a step.
use cloud_profiler_python.Prelude.{ℕ, suc, ◌+◌, ◌<◌, ◌≡◌, sym, ap, ◌∙◌, Bool, arith}
use cloud_profiler_python.Prelude.{nat_eq, list_eq}
use cloud_profiler_python.Native.Stack.{Stack, frame_eq}
use cloud_profiler_python.Native.Table.{max_stack_traces}
use cloud_profiler_python.Native.Profiler.Spec.{count_of}
use cloud_profiler_python.Native.Entry.{Cell, idle}
use cloud_profiler_python.Native.Concurrent.{
  outside, adding, failing, within, Board, slot, put, Turn, handles, moves, stores, counts,
  tries_next, fails, misses, begins, skips, looks, releases, ends,
}
use cloud_profiler_python.Native.Concurrent.Pending.{
  pending, sum_added, sum_pending, put_sum, slot_bound, Move-added, publish_lem, leave_bumped_lem,
  leave_lem, Read-added, worker_added,
}

-- Each call of `Handle` is in an entry's log, missed, or still to be counted.
abbrev pub IsAdded : (Stack → Bool) → ℕ → Board → Type 0
IsAdded p n s =
    count_of p s.handled ≡ sum_added p s.cells + count_of p s.missed + sum_pending p n s.workers

read_added :
    (p : Stack → Bool) (cells : ℕ → Cell) (k : ℕ) (c : Cell)
    → c.added ≡ (cells k).added
    → k < max_stack_traces
    → sum_added p (put cells k c) ≡ sum_added p cells
read_added p cells k c same inside = omega (
  arith,
  ap (count_of p) same,
  put_sum (λ x. count_of p x.added) max_stack_traces cells k c inside,
)

-- `HarvestSamples` is at an entry of the table.
abbrev pub IsInside : Board → Type 0
IsInside s = (k : ℕ) → s.harvester ≡ within k → k < max_stack_traces

pub Turn-IsInside : (n : ℕ) (s t : Board) → Turn n s t → IsInside s → IsInside t
Turn-IsInside n s _ (handles i t lt at) v k h = v k h
Turn-IsInside n s _ (moves i t r p q c lt at move same) v k h = v k h
Turn-IsInside n s _ (stores i t r c lt at move) v k h = v k h
Turn-IsInside n s _ (counts i t r c lt at move) v k h = v k h
Turn-IsInside n s _ (tries_next i t r c lt at move more) v k h = v k h
Turn-IsInside n s _ (fails i t r c lt at move last) v k h = v k h
Turn-IsInside n s _ (misses i t lt at) v k h = v k h
Turn-IsInside n s _ (begins at) v k h = absurd (cc h)
Turn-IsInside n s _ (skips j at lt free) v k h = absurd (cc h)
Turn-IsInside n s _ (looks j c at lt read looking) v k h =
    let e : j ≡ k = cc h in omega (arith, e, lt)
Turn-IsInside n s _ (Turn.reads j c at read same) v k h = v k h
Turn-IsInside n s _ (releases j c fs m at held read) v k h = absurd (cc h)
Turn-IsInside n s _ (ends j at done) v k h = absurd (cc h)

pub Turn-IsAdded :
    (p : Stack → Bool) (n : ℕ) (s t : Board)
    → Turn n s t
    → IsInside s
    → IsAdded p n s
    → IsAdded p n t
Turn-IsAdded p n s _ (handles i t lt at) v h =
    omega (arith, h, ap (pending p) at, put_sum (pending p) n s.workers i (adding t 0 idle) lt)
Turn-IsAdded p n s _ (moves i t r x q c lt at move same) v h = omega (
  arith,
  h,
  worker_added p n s i (slot t r) (adding t r q) c lt (slot_bound t r) (
      Move-added p t move same
      ∙ ap (λ o. count_of p (s.cells (slot t r)).added + o) (sym (ap (pending p) at))),
)
Turn-IsAdded p n s _ (stores i t r c lt at move) v h = omega (
  arith,
  h,
  worker_added p n s i (slot t r) outside c lt (slot_bound t r)
      (omega (arith, publish_lem p t move, ap (pending p) at)),
)
Turn-IsAdded p n s _ (counts i t r c lt at move) v h = omega (
  arith,
  h,
  worker_added p n s i (slot t r) outside c lt (slot_bound t r)
      (omega (arith, leave_bumped_lem p t move, ap (pending p) at)),
)
Turn-IsAdded p n s _ (tries_next i t r c lt at move more) v h = omega (
  arith,
  h,
  worker_added p n s i (slot t r) (adding t (suc r) idle) c lt (slot_bound t r)
      (omega (arith, leave_lem p t move, ap (pending p) at)),
)
Turn-IsAdded p n s _ (fails i t r c lt at move last) v h = omega (
  arith,
  h,
  worker_added p n s i (slot t r) (failing t) c lt (slot_bound t r)
      (omega (arith, leave_lem p t move, ap (pending p) at)),
)
Turn-IsAdded p n s _ (misses i t lt at) v h =
    omega (arith, h, ap (pending p) at, put_sum (pending p) n s.workers i outside lt)
Turn-IsAdded p n s _ (begins at) v h = h
Turn-IsAdded p n s _ (skips j at lt free) v h = h
Turn-IsAdded p n s _ (looks j c at lt read looking) v h =
    omega (arith, h, read_added p s.cells j c (Read-added read) lt)
Turn-IsAdded p n s _ (Turn.reads j c at read same) v h =
    omega (arith, h, read_added p s.cells j c (Read-added read) (v j at))
Turn-IsAdded p n s _ (releases j c fs m at held read) v h =
    omega (arith, h, read_added p s.cells j c (Read-added read) (v j at))
Turn-IsAdded p n s _ (ends j at done) v h = h
