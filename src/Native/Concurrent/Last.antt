-- ===== src/Native/Concurrent/Last.antt =====
-- googlecloudprofiler/src/profiler.cc: the last `Flush` of `Collect`, when no thread is in `Handle` any more.
use cloud_profiler_python.Prelude.{
  ℕ, zero, suc, ◌+◌, ◌<◌, ◌≡◌, refl, ap, ◌∙◌, Bool, false, [], arith, inl, inr, ◌⊎◌,
}
use cloud_profiler_python.Prelude.{nat_eq, list_eq, length}
use cloud_profiler_python.Prelude.Dict
use cloud_profiler_python.Prelude.Dict.{Dict}
use mathlib.Core.Path.{subst}
use native.Mathlib.Decide.{dec_lt}
use cloud_profiler_python.Native.Stack.{Stack, frame_eq}
use cloud_profiler_python.Native.Table.{max_stack_traces}
use cloud_profiler_python.Native.Entry.{Cell, counted}
use cloud_profiler_python.Native.Entry.Local.{is_positive}
use cloud_profiler_python.Native.Concurrent.{
  outside, off, before, Board, begins, skips, ends, Reached,
}
use cloud_profiler_python.Native.Concurrent.Rounds.{Turns, stays, turns, Turns-append}
use cloud_profiler_python.Native.Concurrent.Project.{pc_at, project, Reached-projects}
use cloud_profiler_python.Prelude.Sums.{sum_to-zero_below}
use cloud_profiler_python.Native.Profiler.Spec.{count_of}
use cloud_profiler_python.Native.Entry.Owners.{Reach-counted}
use cloud_profiler_python.Native.Concurrent.Accounts.{in_entry, Reached-accounts}
use cloud_profiler_python.Native.Concurrent.Extracts.{taken_from, extract_taken}
use cloud_profiler_python.Native.Concurrent.Flushes.{calm_cell}

-- `HarvestSamples` is in front of the location k, and the entries in front of it are free.
record Emptied (n k : ℕ) (o s : Board) : Type 0 where
  reached : Reached n s
  run : Turns n o s
  at : s.harvester ≡ before k
  free : (j : ℕ) → j < k → (s.cells j).count ≡ counted 0
  workers : s.workers ≡ o.workers
  handled : s.handled ≡ o.handled
  missed : s.missed ≡ o.missed

module _ (n k : ℕ) (lt : k < max_stack_traces) (o s : Board) (v : Emptied n k o s)
    (nobody : (i : ℕ) → o.workers i ≡ outside) where
  out : (i : ℕ) → s.workers i ≡ outside
  out i = ap (λ w. w i) v.workers ∙ nobody i

  counted_there : (m : ℕ) × ((s.cells k).count ≡ counted m)
  counted_there =
      Reach-counted n (project s k) (Reached-projects n s k v.reached)
        ((calm_cell n s k v.reached v.at out k).1) (λ i. ap (pc_at k) (out i))

  up_to : (j : ℕ) → j < suc k → (j ≡ k) ⊎ (j < k)
  up_to j below = elim (dec_lt j k) [
    | yes before_k ↦ inr before_k
    | no not_before ↦ inl (omega (arith, below))
  ]

  pass_free : (s.cells k).count ≡ counted 0 → (u : Board) × Emptied n (suc k) o u
  pass_free count_is = (
    record s { harvester = before (suc k) },
    record {
      reached = Reached.goes_on v.reached (skips k v.at lt (ap is_positive count_is));
      run = Turns-append n v.run (turns (skips k v.at lt (ap is_positive count_is)) (stays _));
      at = refl;
      free = λ j below. elim (up_to j below) [
        | inl here ↦ ap (λ l. (s.cells l).count) here ∙ count_is
        | inr earlier ↦ v.free j earlier
      ];
      workers = v.workers;
      handled = v.handled;
      missed = v.missed;
    },
  )

  empty_used : (m : ℕ) → (s.cells k).count ≡ counted (suc m) → (u : Board) × Emptied n (suc k) o u
  empty_used m count_is =
      let c = s.cells k in
      let (still, rests) = calm_cell n s k v.reached v.at out k in
      let whole : c ≡ taken_from n k c.frames c.added c.harvested (suc m) =
        ap (λ x. record c { count = x }) count_is
        ∙ ap (λ x. record c { count = counted (suc m); active_updates = x }) still
        ∙ ap (λ x. record c { count = counted (suc m); active_updates = 0; reader = x }) rests in
      let (u, h) = extract_taken n k c.frames c.added c.harvested m s v.reached v.at lt whole in
      (
        u,
        record {
          reached = h.reached;
          run = Turns-append n v.run h.run;
          at = h.at;
          free = λ j below. elim (up_to j below) [
            | inl here ↦ ap (λ l. (u.cells l).count) here ∙ ap (λ x. x.count) h.cell
            | inr earlier ↦
                ap (λ x. x.count) (h.others j (ground (arith, earlier))) ∙ v.free j earlier
          ];
          workers = h.workers ∙ v.workers;
          handled = h.handled ∙ v.handled;
          missed = h.missed ∙ v.missed;
        },
      )

  next_round : (u : Board) × Emptied n (suc k) o u
  next_round = of_count counted_there
    where
      of_count : ((m : ℕ) × ((s.cells k).count ≡ counted m)) → (u : Board) × Emptied n (suc k) o u
      of_count (zero, count_is) = pass_free count_is
      of_count (suc m, count_is) = empty_used m count_is

empties :
    (n rounds k : ℕ) (o s : Board)
    → k + rounds ≡ max_stack_traces
    → Emptied n k o s
    → ((i : ℕ) → o.workers i ≡ outside)
    → (u : Board) × Emptied n max_stack_traces o u
empties n zero k o s all v nobody =
    let here : k ≡ 2048 = omega (arith, all) in (s, subst (λ l. Emptied n l o s) here v)
empties n (suc rounds) k o s all v nobody =
    let (u, w) = next_round n k (omega (arith, all)) o s v nobody in
    empties n rounds (suc k) o u (omega (arith, all)) w nobody

in_entry-free : (p : Stack → Bool) (c : Cell) → c.count ≡ counted 0 → in_entry p c ≡ 0
in_entry-free p c h = ground (arith, h)

-- However the calls of `Handle` and of `HarvestSamples` were interleaved: from any board where no thread
-- is in `Handle` and `HarvestSamples` is not at work, there are steps without another call of `Handle`
-- after which `HarvestSamples` has ended, each stack with a frame was handled as often as the aggregated
-- profile and the missed stacks count it together, and the counter of unknown stacks is the number of the
-- missed ones.
pub Reached-flush :
    (p : Stack → Bool) (n : ℕ) (s : Board)
    → p [] ≡ false
    → Reached n s
    → s.harvester ≡ off
    → ((i : ℕ) → s.workers i ≡ outside)
    → (u : Board) × Turns n s u
      × (u.harvester ≡ off)
      × (u.handled ≡ s.handled)
      × (u.missed ≡ s.missed)
      × (count_of p s.handled ≡ Dict.total_of p u.aggregated + count_of p s.missed)
      × (u.unknown ≡ length s.missed)
Reached-flush p n s empty reached rests nobody =
    let begun = record s { harvester = before 0 } in
    let (e, w) =
      empties n 2048 0 begun begun refl
        (record {
          reached = Reached.goes_on reached (begins rests);
          run = stays begun;
          at = refl;
          free = λ j below. absurd (omega (arith, below));
          workers = refl;
          handled = refl;
          missed = refl;
        })
        nobody in
    let u = record e { harvester = off } in
    let ended = Reached.goes_on w.reached (ends max_stack_traces w.at (omega arith)) in
    let (balance, misses_are) =
      Reached-accounts p n u empty ended refl (λ i lt. ap (λ f. f i) w.workers ∙ nobody i) in
    let none_left =
      sum_to-zero_below max_stack_traces (λ k. in_entry p (u.cells k))
        (λ k lt. in_entry-free p (u.cells k) (w.free k lt)) in
    (
      u,
      turns (begins rests)
          (Turns-append n w.run (turns (ends max_stack_traces w.at (omega arith)) (stays u))),
      refl,
      w.handled,
      w.missed,
      omega (arith, balance, none_left, ap (count_of p) w.handled, ap (count_of p) w.missed),
      misses_are ∙ ap length w.missed,
    )
