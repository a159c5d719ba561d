-- ===== src/Native/Concurrent/Flushes.antt =====
-- googlecloudprofiler/src/stacktraces.cc: `HarvestSamples` while no thread is in `Handle`.
use cloud_profiler_python.Prelude.{
  ℕ, zero, suc, ◌+◌, ◌≤◌, ◌<◌, ◌≡◌, refl, sym, ap, ◌∙◌, Option, none, some, arith,
}
use cloud_profiler_python.Prelude.{
  nat_eq, list_eq, get_elem?, set, length, take, take_all, All-get_elem?, get_elem?-lt,
}
use cloud_profiler_python.Prelude.Sums.{sum_to-zero}
use cloud_profiler_python.Prelude.Dict.{Dict}
use mathlib.Core.Path.{subst}
use cloud_profiler_python.Native.Stack.{Stack, frame_eq, max_frames_to_capture}
use cloud_profiler_python.Native.Table.{
  Table, extract, absorb, harvest_from, harvest_samples, max_stack_traces,
}
use cloud_profiler_python.Native.Table.Counts.{IsFit}
use cloud_profiler_python.Native.Table.Harvest.{IsTable, extract-IsTable}
use cloud_profiler_python.Native.Entry.{counted, resting}
use cloud_profiler_python.Native.Entry.Local.{is_active, is_positive}
use cloud_profiler_python.Native.Entry.Invariant.{Reach-IsEntry}
use cloud_profiler_python.Native.Concurrent.{outside, off, before, Board, begins, skips, Reached}
use cloud_profiler_python.Native.Concurrent.Project.{pc_at, project, Reached-projects}
use cloud_profiler_python.Native.Concurrent.Alone.{ShowsAt}
use cloud_profiler_python.Native.Concurrent.Adds.{Shows, set-Shows}
use cloud_profiler_python.Native.Concurrent.Accounts.{Reached-resting}
use cloud_profiler_python.Native.Concurrent.Extracts.{taken_from, extract_taken}

-- No thread is at the entry.
pub calm_cell :
    (n : ℕ) (o : Board) (k : ℕ)
    → Reached n o
    → o.harvester ≡ before k
    → ((i : ℕ) → o.workers i ≡ outside)
    → (j : ℕ) → ((o.cells j).active_updates ≡ 0) × ((o.cells j).reader ≡ resting)
calm_cell n o k reached at nobody j =
    let v = Reach-IsEntry n (project o j) (Reached-projects n o j reached) in
    (
      sym v.active
          ∙ sum_to-zero n (λ i. is_active (pc_at j (o.workers i)))
              (λ i. ap (λ w. is_active (pc_at j w)) (nobody i)),
      Reached-resting n o reached (λ l h. absurd (cc (at, h))) j,
    )

-- What `HarvestSamples` has done in front of the location k.
pub record Flushed (n k : ℕ) (table : Table) (aggregated : Dict Stack ℕ) (o s : Board)
    : Type 0 where
  pub reached : Reached n s
  pub at : s.harvester ≡ before k
  pub is_table : IsTable table
  pub shows : Shows table s.cells
  pub has : s.aggregated ≡ aggregated
  pub workers : s.workers ≡ o.workers
  pub unknown : s.unknown ≡ o.unknown

extract-free :
    (table : Table) (k : ℕ) (fs : Stack)
    → get_elem? table k ≡ some (record { frames = fs; count = 0 })
    → extract table k max_frames_to_capture ≡ (table, none)
unfolding extract
extract-free table k fs found = ground (arith, found)

extract-busy :
    (table : Table) (k m : ℕ) (fs : Stack)
    → get_elem? table k ≡ some (record { frames = fs; count = suc m })
    → length fs ≤ max_frames_to_capture
    → extract table k max_frames_to_capture
      ≡ (set table k (record { frames = fs; count = 0 }), some (fs, suc m))
unfolding extract
extract-busy table k m fs found short =
    let whole = take_all 128 fs short in ground (arith, found, whole)

absorb-dict :
    (found : Option (Stack × ℕ)) (d : Dict Stack ℕ) (n m : ℕ)
    → (absorb found (d, n)).0 ≡ (absorb found (d, m)).0
unfolding absorb
absorb-dict none d n m = refl
absorb-dict (some (fs, count)) d n m = ground arith

module _ (n k : ℕ) (lt : k < max_stack_traces) (table : Table) (o s : Board) (to : Dict Stack ℕ × ℕ)
    (v : Flushed n k table to.0 o s) (nobody : (i : ℕ) → o.workers i ≡ outside) where
  free_round :
      (fs : Stack)
      → get_elem? table k ≡ some (record { frames = fs; count = 0 })
      → (u : Board) × Flushed n (suc k) table (absorb none to).0 o u
  unfolding absorb
  free_round fs found =
      let (count_is, frames_are) = subst (ShowsAt (s.cells k)) found (v.shows k) in
      (
        record s { harvester = before (suc k) },
        record {
          reached = Reached.goes_on v.reached (skips k v.at lt (ap is_positive count_is));
          at = refl;
          is_table = v.is_table;
          shows = v.shows;
          has = v.has;
          workers = v.workers;
          unknown = v.unknown;
        },
      )

  nobody_in : (i : ℕ) → s.workers i ≡ outside
  nobody_in i = ap (λ w. w i) v.workers ∙ nobody i

  busy_cell :
      (m : ℕ) (fs : Stack)
      → ShowsAt (s.cells k) (some (record { frames = fs; count = suc m }))
      → s.cells k ≡ taken_from n k fs (s.cells k).added (s.cells k).harvested (suc m)
  busy_cell m fs (count_is, frames_are) =
      let c = s.cells k in
      let (still, rests) = calm_cell n s k v.reached v.at nobody_in k in
      ap (λ x. record c { count = x }) count_is
      ∙ ap (λ x. record c { count = counted (suc m); frames = x }) frames_are
      ∙ ap (λ x. record c { count = counted (suc m); frames = fs; active_updates = x }) still
      ∙ ap (λ x. record c { count = counted (suc m); frames = fs; active_updates = 0; reader = x })
          rests

  busy_round :
      (m : ℕ) (fs : Stack)
      → get_elem? table k ≡ some (record { frames = fs; count = suc m })
      → length fs ≤ max_frames_to_capture
      → (u : Board) × Flushed n
          (suc k)
          (set table k (record { frames = fs; count = 0 }))
          (absorb (some (fs, suc m)) to).0
          o
          u
  busy_round m fs found short =
      let c = s.cells k in
      let (u, h) =
        extract_taken n k fs c.added c.harvested m s v.reached v.at lt
          (busy_cell m fs (subst (ShowsAt c) found (v.shows k))) in
      let whole : take (length fs) fs ≡ fs = take_all (length fs) fs (omega arith) in
      (
        u,
        record {
          reached = h.reached;
          at = h.at;
          is_table =
              subst IsTable (ap (λ x. x.0) (extract-busy table k m fs found short))
                (extract-IsTable table k max_frames_to_capture v.is_table);
          shows =
              set-Shows k _ s.cells u.cells table (record { frames = fs; count = suc m }) found
                h.cell h.others (record { frames = fs; count = 0 }) (refl, refl) v.shows;
          has =
              h.has
              ∙ ap (λ x. (absorb (some (x, suc m)) (s.aggregated, 0)).0) whole
              ∙ ap (λ d. (absorb (some (fs, suc m)) (d, 0)).0) v.has
              ∙ absorb-dict (some (fs, suc m)) to.0 0 to.1;
          workers = h.workers ∙ v.workers;
          unknown = h.unknown ∙ v.unknown;
        },
      )

  entry_round :
      (c : ℕ) (fs : Stack)
      → get_elem? table k ≡ some (record { frames = fs; count = c })
      → (u : Board) × Flushed n
          (suc k)
          (extract table k max_frames_to_capture).0
          (absorb (extract table k max_frames_to_capture).1 to).0
          o
          u
  entry_round zero fs found =
      subst (λ x. (u : Board) × Flushed n (suc k) x.0 (absorb x.1 to).0 o u)
        (sym (extract-free table k fs found)) (free_round fs found)
  entry_round (suc m) fs found =
      let short = All-get_elem? IsFit table k v.is_table.fit found in
      subst (λ x. (u : Board) × Flushed n (suc k) x.0 (absorb x.1 to).0 o u)
        (sym (extract-busy table k m fs found short)) (busy_round m fs found short)

  extract_round :
      (u : Board) × Flushed n
        (suc k)
        (extract table k max_frames_to_capture).0
        (absorb (extract table k max_frames_to_capture).1 to).0
        o
        u
  extract_round =
      let (e, found) = get_elem?-lt table k (omega (arith, lt, v.is_table.size)) in
      entry_round e.count e.frames found

harvest_from-Flushed :
    (n rounds k : ℕ) (table : Table) (o s : Board) (to : Dict Stack ℕ × ℕ)
    → k + rounds ≡ max_stack_traces
    → Flushed n k table to.0 o s
    → ((i : ℕ) → o.workers i ≡ outside)
    → (u : Board) × Flushed n max_stack_traces
        (harvest_from rounds k table to).0
        (harvest_from rounds k table to).1
        o
        u
unfolding harvest_from
harvest_from-Flushed n zero k table o s to all v nobody =
    let here : k ≡ 2048 = omega (arith, all) in (s, subst (λ l. Flushed n l table to.0 o s) here v)
harvest_from-Flushed n (suc rounds) k table o s to all v nobody =
    let (u, w) = extract_round n k (omega (arith, all)) table o s to v nobody in
    let table' = (extract table k max_frames_to_capture).0 in
    let to' = absorb (extract table k max_frames_to_capture).1 to in
    let next : suc k ≡ k + 1 = omega arith in
    harvest_from-Flushed n rounds (k + 1) table' o u to' (omega (arith, all))
      (subst (λ l. Flushed n l table' to'.0 o u) next w) nobody

-- `HarvestSamples` while no thread is in `Handle`: the table and the dictionary of `harvest_samples`.
pub harvest_samples-Flushed :
    (n : ℕ) (table : Table) (o : Board)
    → Reached n o
    → o.harvester ≡ off
    → IsTable table
    → Shows table o.cells
    → ((i : ℕ) → o.workers i ≡ outside)
    → (u : Board) × Flushed n max_stack_traces
        (harvest_samples table o.aggregated).0
        (harvest_samples table o.aggregated).1
        (record o { harvester = before 0 })
        u
unfolding harvest_samples
harvest_samples-Flushed n table o reached rests is_table shows nobody =
    let s = record o { harvester = before 0 } in
    harvest_from-Flushed n 2048 0 table s s (o.aggregated, 0) refl
      (record {
        reached = Reached.goes_on reached (begins rests);
        at = refl;
        is_table = is_table;
        shows = shows;
        has = refl;
        workers = refl;
        unknown = refl;
      })
      nobody
