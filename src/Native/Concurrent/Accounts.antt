-- ===== src/Native/Concurrent/Accounts.antt =====
-- googlecloudprofiler/src/stacktraces.cc and profiler.cc: where the calls of `Handle` end up.
use cloud_profiler_python.Prelude.{
  ℕ, ◌+◌, ◌<◌, ◌≡◌, refl, sym, ap, Bool, false, [], arith, inl, inr,
}
use cloud_profiler_python.Prelude.{nat_eq, list_eq, if◌then◌else◌, length}
use cloud_profiler_python.Prelude.Dict
use cloud_profiler_python.Native.Stack.{Stack, frame_eq}
use cloud_profiler_python.Native.Table.{max_stack_traces}
use cloud_profiler_python.Native.Profiler.Spec.{count_of}
use cloud_profiler_python.Native.Entry.{Cell, resting}
use cloud_profiler_python.Native.Entry.Local.{in_reader, in_count}
use cloud_profiler_python.Native.Entry.Invariant.{Reach-IsEntry}
use cloud_profiler_python.Native.Concurrent.{
  outside, off, within, Board, Turn, handles, moves, stores, counts, tries_next, fails, misses,
  begins, skips, looks, releases, ends, Reached, starts,
}
use cloud_profiler_python.Native.Concurrent.Project.{project, Reached-projects}
use cloud_profiler_python.Prelude.Sums.{sum_to, sum_to-zero, sum_to-zero_below, sum_to-add}
use cloud_profiler_python.Native.Concurrent.Pending.{pending}
use cloud_profiler_python.Native.Concurrent.Added.{IsInside, IsAdded, Turn-IsInside, Turn-IsAdded}
use cloud_profiler_python.Native.Concurrent.Harvested.{Rests, IsTallied, Turn-Rests, Turn-IsTallied}

Turn-missed :
    (n : ℕ) (s t : Board) → Turn n s t → s.unknown ≡ length s.missed → t.unknown ≡ length t.missed
Turn-missed n s _ (handles i t lt at) h = h
Turn-missed n s _ (moves i t r x q c lt at move same) h = h
Turn-missed n s _ (stores i t r c lt at move) h = h
Turn-missed n s _ (counts i t r c lt at move) h = h
Turn-missed n s _ (tries_next i t r c lt at move more) h = h
Turn-missed n s _ (fails i t r c lt at move last) h = h
Turn-missed n s _ (misses i t lt at) h = omega (arith, h)
Turn-missed n s _ (begins at) h = h
Turn-missed n s _ (skips j at lt free) h = h
Turn-missed n s _ (looks j c at lt read looking) h = h
Turn-missed n s _ (Turn.reads j c at read same) h = h
Turn-missed n s _ (releases j c fs m at held read) h = h
Turn-missed n s _ (ends j at done) h = h

record IsBoard (p : Stack → Bool) (n : ℕ) (s : Board) : Type 0 where
  inside : IsInside s
  accounted : IsAdded p n s
  rests : Rests s.cells s.harvester
  tallied : IsTallied p s
  missing : s.unknown ≡ length s.missed

Reached-IsBoard :
    (p : Stack → Bool) (n : ℕ) (s : Board) → p [] ≡ false → Reached n s → IsBoard p n s
Reached-IsBoard p n _ empty starts = record {
  inside = λ k h. absurd (cc h);
  accounted = omega (
    arith,
    sum_to-zero max_stack_traces (λ k. 0) (λ k. refl),
    sum_to-zero n (λ k. 0) (λ k. refl),
  );
  rests = λ k. inl refl;
  tallied = sym (sum_to-zero max_stack_traces (λ k. 0) (λ k. refl));
  missing = refl;
}
Reached-IsBoard p n t empty (Reached.goes_on {s} reached turn) =
    let v = Reached-IsBoard p n s empty reached in
    record {
      inside = Turn-IsInside n s t turn v.inside;
      accounted = Turn-IsAdded p n s t turn v.inside v.accounted;
      rests = Turn-Rests n s t turn v.rests;
      tallied = Turn-IsTallied p n s t empty turn v.inside v.tallied;
      missing = Turn-missed n s t turn v.missing;
    }

-- Where `HarvestSamples` is in no entry, none is being read.
pub Reached-resting :
    (n : ℕ) (s : Board)
    → Reached n s
    → ((k : ℕ) → ¬ (s.harvester ≡ within k))
    → (k : ℕ) → (s.cells k).reader ≡ resting
Reached-resting n s reached none_within k =
    elim ((Reached-IsBoard (λ t. false) n s refl reached).rests k) [
      | inl still ↦ still
      | inr at ↦ absurd (none_within k at)
    ]

-- What the entry counts of such stacks.
abbrev pub in_entry : (Stack → Bool) → Cell → ℕ
in_entry p c = if p c.frames then in_count c.count else 0

-- An entry that is not being read.
entry_balance :
    (p : Stack → Bool) (n : ℕ) (s : Board) (k : ℕ)
    → Reached n s
    → (s.cells k).reader ≡ resting
    → count_of p (s.cells k).added ≡ Dict.total_of p (s.cells k).harvested + in_entry p (s.cells k)
entry_balance p n s k reached rests =
    let v = Reach-IsEntry n (project s k) (Reached-projects n s k reached) in
    omega (arith, v.balances p, ap (in_reader p (s.cells k).frames) rests)

-- However the calls of `Handle` and of `HarvestSamples` are interleaved: where no thread is in `Handle`
-- or in `HarvestSamples`, each stack with a frame was handled as often as the aggregated profile, the
-- entries of the table and the missed ones count it together, and the counter of unknown stacks is the
-- number of the missed ones.
pub Reached-accounts :
    (p : Stack → Bool) (n : ℕ) (s : Board)
    → p [] ≡ false
    → Reached n s
    → s.harvester ≡ off
    → ((i : ℕ) → i < n → s.workers i ≡ outside)
    → (count_of p s.handled
        ≡ Dict.total_of p s.aggregated
          + sum_to max_stack_traces (λ k. in_entry p (s.cells k))
          + count_of p s.missed)
      × (s.unknown ≡ length s.missed)
Reached-accounts p n s empty reached rests out =
    let v = Reached-IsBoard p n s empty reached in
    let quiet = Reached-resting n s reached (λ k at. absurd (cc (rests, at))) in
    let entries =
      sum_to-add max_stack_traces (λ k. count_of p (s.cells k).added)
        (λ k. Dict.total_of p (s.cells k).harvested) (λ k. in_entry p (s.cells k))
        (λ k. entry_balance p n s k reached (quiet k)) in
    let done =
      sum_to-zero_below n (λ i. pending p (s.workers i)) (λ i lt. ap (pending p) (out i lt)) in
    (omega (arith, v.accounted, v.tallied, entries, done), v.missing)
