-- ===== src/Native/Concurrent/Adds.antt =====
-- googlecloudprofiler/src/stacktraces.cc and profiler.cc: `Add` on the table, by a thread that no other interrupts.
use cloud_profiler_python.Prelude.{
  ℕ, zero, suc, ◌+◌, ◌≤◌, ◌<◌, ◌≡◌, refl, sym, ◌∙◌, Bool, false, Option, none, some, arith, inl,
  inr,
}
use cloud_profiler_python.Prelude.{
  ◌==◌, nat_eq, list_eq, Bool-cases, Option-cases, get_elem?, set, length, get_elem?-set,
  get_elem?-set_other, get_elem?-lt,
}
use mathlib.Core.Path.{subst}
use cloud_profiler_python.Native.Stack.{Stack, frame_eq, calculate_hash}
use cloud_profiler_python.Native.Table.{
  Entry, Table, visit, visit_at, add_from, add, max_stack_traces,
}
use cloud_profiler_python.Native.Entry.{Cell, idle}
use cloud_profiler_python.Native.Concurrent.{Worker, outside, adding, failing, Board, slot}
use cloud_profiler_python.Native.Concurrent.Pending.{slot_bound}
use cloud_profiler_python.Native.Concurrent.Alone.{ShowsAt, Taken, Passed, Ends, cell-Ends}
use cloud_profiler_python.Native.Concurrent.Rounds.{
  Turns, Turns-append, Only, Taken-Reaches, Passed-Reaches, pass_last, fail_last,
}

-- The cells hold the table.
abbrev pub Shows : Table → (ℕ → Cell) → Type 0
Shows table cells = (k : ℕ) → ShowsAt (cells k) (get_elem? table k)

module _ (j : ℕ) (d : Cell) (cells cells' : ℕ → Cell) (table : Table) (old : Entry)
    (found : get_elem? table j ≡ some old) (cell : cells' j ≡ d)
    (others : (k : ℕ) → (k == j) ≡ false → cells' k ≡ cells k) where
  pub set-Shows :
      (new : Entry) → ShowsAt d (some new) → Shows table cells → Shows (set table j new) cells'
  set-Shows new shows v k = elim (Bool-cases (k == j)) [
    | inl same ↦
        let e : j ≡ k = ground (arith, same) in
        subst (λ l. ShowsAt (cells' l) (get_elem? (set table j new) l)) e
          (subst (ShowsAt (cells' j)) (sym (get_elem?-set table j new found))
            (subst (λ x. ShowsAt x (some new)) (sym cell) shows))
    | inr other ↦
        subst (ShowsAt (cells' k)) (sym (get_elem?-set_other table j k new (ground (arith, other))))
          (subst (λ x. ShowsAt x (get_elem? table k)) (sym (others k other)) (v k))
  ]

  kept-Shows : ShowsAt d (some old) → Shows table cells → Shows table cells'
  kept-Shows shows v k = elim (Bool-cases (k == j)) [
    | inl same ↦
        let e : j ≡ k = ground (arith, same) in
        subst (λ l. ShowsAt (cells' l) (get_elem? table l)) e
          (subst (ShowsAt (cells' j)) (sym found)
            (subst (λ x. ShowsAt x (some old)) (sym cell) shows))
    | inr other ↦ subst (λ x. ShowsAt x (get_elem? table k)) (sym (others k other)) (v k)
  ]

-- What `Add` leaves.
abbrev pub table_after : Table → Option Table → Table
table_after table none = table
table_after table (some table') = table'

abbrev pub place_after : Stack → Option Table → Worker
place_after t none = failing t
place_after t (some table') = outside

pub record Added (n i : ℕ) (t : Stack) (table : Table) (o : Option Table) (s : Board) : Type 0 where
  pub board : Board
  pub run : Turns n s board
  pub worker : board.workers i ≡ place_after t o
  pub beside : (j : ℕ) → (j == i) ≡ false → board.workers j ≡ s.workers j
  pub shows : Shows (table_after table o) board.cells
  pub harvester : board.harvester ≡ s.harvester
  pub aggregated : board.aggregated ≡ s.aggregated
  pub unknown : board.unknown ≡ s.unknown

module _ (n i : ℕ) (lt : i < n) (t : Stack) (fail_in : ℕ → Bool) where
  add_more :
      (j : ℕ) (d : Cell) (w : Worker) (s u : Board) (table : Table) (o : Option Table)
      → Turns n s u
      → Only i j d w s u
      → Added n i t table o u
      → Added n i t table o s
  add_more j d w s u table o more only v = record {
    board = v.board;
    run = Turns-append n more v.run;
    worker = v.worker;
    beside = λ k other. v.beside k other ∙ only.beside k other;
    shows = v.shows;
    harvester = v.harvester ∙ only.harvester;
    aggregated = v.aggregated ∙ only.aggregated;
    unknown = v.unknown ∙ only.unknown;
  }

  add-Taken :
      (r : ℕ) (s : Board) (table : Table) (old new : Entry)
      → get_elem? table (slot t r) ≡ some old
      → s.workers i ≡ adding t r idle
      → Shows table s.cells
      → Taken t (s.cells (slot t r)) new
      → Added n i t table (some (set table (slot t r) new)) s
  add-Taken r s table old new found at v taken =
      let (u, run, only) = Taken-Reaches n i lt t r s new at taken in
      record {
        board = u;
        run = run;
        worker = only.worker;
        beside = only.beside;
        shows =
            set-Shows (slot t r) taken.after s.cells u.cells table old found only.cell only.others
              new taken.shows v;
        harvester = only.harvester;
        aggregated = only.aggregated;
        unknown = only.unknown;
      }

  add_failed :
      (r : ℕ) (s : Board) (table : Table) (old : Entry)
      → max_stack_traces ≤ suc r
      → get_elem? table (slot t r) ≡ some old
      → s.workers i ≡ adding t r idle
      → Shows table s.cells
      → Passed t (s.cells (slot t r)) old
      → Added n i t table none s
  add_failed r s table old no_more found at v passed =
      let (u, run, only) =
        Passed-Reaches n i lt t r s old (failing t) at passed
          (fail_last n i lt t r passed.before passed.after passed.last no_more) in
      record {
        board = u;
        run = run;
        worker = only.worker;
        beside = only.beside;
        shows =
            kept-Shows (slot t r) passed.after s.cells u.cells table old found only.cell only.others
              passed.shows v;
        harvester = only.harvester;
        aggregated = only.aggregated;
        unknown = only.unknown;
      }

  add_from-taken :
      (m r : ℕ) (table : Table) (old new : Entry)
      → get_elem? table (slot t r) ≡ some old
      → visit (fail_in r) t old ≡ some new
      → add_from fail_in (suc m) r (calculate_hash t) t table ≡ some (set table (slot t r) new)
  unfolding add_from visit_at slot
  add_from-taken m r table old new found taken = ground (arith, found, taken)

  add_from-passed :
      (m r : ℕ) (table : Table) (old : Entry)
      → get_elem? table (slot t r) ≡ some old
      → visit (fail_in r) t old ≡ none
      → add_from fail_in (suc m) r (calculate_hash t) t table
        ≡ add_from fail_in m (suc r) (calculate_hash t) t table
  unfolding add_from visit_at slot
  add_from-passed m r table old found passed = ground (arith, found, passed)

  add_from-none_left :
      (r : ℕ) (table : Table) → add_from fail_in zero r (calculate_hash t) t table ≡ none
  unfolding add_from
  add_from-none_left r table = refl

  -- The first round, and what is behind it where it leaves the trace.
  add_round :
      (m r : ℕ) (s : Board) (table : Table)
      → length table ≡ max_stack_traces
      → s.workers i ≡ adding t r idle
      → Shows table s.cells
      → ((old : Entry)
          → get_elem? table (slot t r) ≡ some old
          → Passed t (s.cells (slot t r)) old
          → Added n i t table (add_from fail_in m (suc r) (calculate_hash t) t table) s)
      → Added n i t table (add_from fail_in (suc m) r (calculate_hash t) t table) s
  add_round m r s table size at v later =
      let (old, found) = get_elem?-lt table (slot t r) (omega (arith, size, slot_bound t r)) in
      let ends =
        cell-Ends (fail_in r) t (s.cells (slot t r)) old
          (subst (ShowsAt (s.cells (slot t r))) found (v (slot t r))) in
      elim (Option-cases (visit (fail_in r) t old)) [
        | inl passed ↦
            subst (λ o. Added n i t table o s) (sym (add_from-passed m r table old found passed))
              (later old found (subst (Ends t (s.cells (slot t r)) old) passed ends))
        | inr (new, taken) ↦
            subst (λ o. Added n i t table o s) (sym (add_from-taken m r table old new found taken))
              (add-Taken r s table old new found at v
                (subst (Ends t (s.cells (slot t r)) old) taken ends))
      ]

  add_from-Added :
      (m r : ℕ) (s : Board) (table : Table)
      → r + suc m ≡ max_stack_traces
      → length table ≡ max_stack_traces
      → s.workers i ≡ adding t r idle
      → Shows table s.cells
      → Added n i t table (add_from fail_in (suc m) r (calculate_hash t) t table) s
  add_from-Added zero r s table all size at v =
      add_round zero r s table size at v (λ old found passed.
        subst (λ o. Added n i t table o s) (sym (add_from-none_left (suc r) table))
          (add_failed r s table old (omega (arith, all)) found at v passed))
  add_from-Added (suc m) r s table all size at v =
      add_round (suc m) r s table size at v (λ old found passed.
        let (u, run, only) =
          Passed-Reaches n i lt t r s old (adding t (suc r) idle) at passed
            (pass_last n i lt t r passed.before passed.after passed.last (omega (arith, all))) in
        add_more (slot t r) passed.after (adding t (suc r) idle) s u table
          (add_from fail_in (suc m) (suc r) (calculate_hash t) t table) run only
          (add_from-Added m (suc r) u table (omega (arith, all)) size only.worker (
            kept-Shows (slot t r) passed.after s.cells u.cells table old found only.cell only.others
              passed.shows v)))

  pub add-Added :
      (s : Board) (table : Table)
      → length table ≡ max_stack_traces
      → s.workers i ≡ adding t 0 idle
      → Shows table s.cells
      → Added n i t table (add fail_in t table) s
  unfolding add
  add-Added s table size at v = add_from-Added 2047 0 s table refl size at v
