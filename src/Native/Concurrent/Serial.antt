-- ===== src/Native/Concurrent/Serial.antt =====
-- googlecloudprofiler/src/stacktraces.cc and profiler.cc: calls of `Handle` and of `Flush`, each of which ends before the next.
use cloud_profiler_python.Prelude.{
  ℕ, zero, suc, ◌+◌, ◌≤◌, ◌<◌, ◌≡◌, refl, sym, ap, ◌∙◌, Bool, false, Option, none, some, ◌∷◌, arith,
}
use cloud_profiler_python.Prelude.{◌==◌, nat_eq, list_eq, length}
use mathlib.Core.Path.{subst}
use cloud_profiler_python.Native.Stack.{Stack, frame_eq, max_frames_to_capture}
use cloud_profiler_python.Native.Table.{Table, add, harvest_samples, max_stack_traces}
use cloud_profiler_python.Native.Table.Harvest.{IsTable}
use cloud_profiler_python.Native.Table.Fit.{add-IsTable}
use cloud_profiler_python.Native.Profiler.{Profiler, record_stack, flush}
use cloud_profiler_python.Native.Entry.{idle}
use cloud_profiler_python.Native.Concurrent.{
  outside, adding, off, Board, put, handles, misses, ends, Reached,
}
use cloud_profiler_python.Native.Concurrent.Project.{put-same, put-other}
use cloud_profiler_python.Native.Concurrent.Rounds.{Turns, stays, turns}
use cloud_profiler_python.Native.Concurrent.Adds.{Shows, Added, add-Added}
use cloud_profiler_python.Native.Concurrent.Flushes.{harvest_samples-Flushed}

-- The board is that of a profiler with this table, this multiset and this counter, and no thread is at work.
pub record Stands (p : Profiler) (s : Board) : Type 0 where
  pub table : IsTable p.fixed_traces
  pub shows : Shows p.fixed_traces s.cells
  pub aggregated : s.aggregated ≡ p.aggregated_traces
  pub unknown : s.unknown ≡ p.unknown_stack_count
  pub nobody : (i : ℕ) → s.workers i ≡ outside

Turns-Reached : (n : ℕ) (s t : Board) → Reached n s → Turns n s t → Reached n t
Turns-Reached n s _ reached (stays _) = reached
Turns-Reached n s u reached (turns {t} turn more) =
    Turns-Reached n t u (Reached.goes_on reached turn) more

abbrev pub Serves : ℕ → Profiler → Type 0
Serves n p = (s : Board) × Reached n s × (s.harvester ≡ off) × Stands p s

module _ (n : ℕ) (some_thread : 0 < n) (frames : Stack)
    (short : length frames ≤ max_frames_to_capture) (fails : ℕ → Bool) where
  all_out :
      (s u : Board)
      → u.workers 0 ≡ outside
      → ((j : ℕ) → (j == 0) ≡ false → u.workers j ≡ s.workers j)
      → ((i : ℕ) → s.workers i ≡ outside)
      → (i : ℕ) → u.workers i ≡ outside
  all_out s u out same nobody zero = out
  all_out s u out same nobody (suc i) = same (suc i) (ground arith) ∙ nobody (suc i)

  abbrev called : Board → Board
  called s = record s {
    workers = put s.workers 0 (adding frames 0 idle);
    handled = frames ∷ s.handled;
  }

  called_beside : (s : Board) (j : ℕ) → (j == 0) ≡ false → (called s).workers j ≡ s.workers j
  called_beside s j other = put-other s.workers 0 (adding frames 0 idle) j other

  record_stack-some :
      (p : Profiler) (table : Table)
      → add fails frames p.fixed_traces ≡ some table
      → record_stack fails frames p ≡ (record p { fixed_traces = table })
  unfolding record_stack
  record_stack-some p table h = ground (arith, h)

  record_stack-none :
      (p : Profiler)
      → add fails frames p.fixed_traces ≡ none
      → record_stack fails frames p ≡ (record p { unknown_stack_count = p.unknown_stack_count + 1 })
  unfolding record_stack
  record_stack-none p h = ground (arith, h)

  Added-Serves :
      (p : Profiler) (s : Board) (o : Option Table)
      → Reached n (called s)
      → s.harvester ≡ off
      → Stands p s
      → add fails frames p.fixed_traces ≡ o
      → Added n 0 frames p.fixed_traces o (called s)
      → Serves n (record_stack fails frames p)
  Added-Serves p s (some table) reached rests v took added =
      subst (Serves n) (sym (record_stack-some p table took)) (
        added.board,
        Turns-Reached n (called s) added.board reached added.run,
        added.harvester ∙ rests,
        record {
          table = add-IsTable frames short fails p.fixed_traces took v.table;
          shows = added.shows;
          aggregated = added.aggregated ∙ v.aggregated;
          unknown = added.unknown ∙ v.unknown;
          nobody =
              all_out s added.board added.worker
                (λ j other. added.beside j other ∙ called_beside s j other) v.nobody;
        },
      )
  Added-Serves p s none reached rests v full added =
      let b = added.board in
      let u : Board = record b {
        workers = put b.workers 0 outside;
        unknown = b.unknown + 1;
        missed = frames ∷ b.missed;
      } in
      subst (Serves n) (sym (record_stack-none p full)) (
        u,
        Reached.goes_on (Turns-Reached n (called s) b reached added.run)
            (misses 0 frames some_thread added.worker),
        added.harvester ∙ rests,
        record {
          table = v.table;
          shows = added.shows;
          aggregated = added.aggregated ∙ v.aggregated;
          unknown = ap (λ k. k + 1) (added.unknown ∙ v.unknown);
          nobody =
              all_out s u (put-same b.workers 0 outside 0 refl)
                (λ j other.
                  put-other b.workers 0 outside j other
                  ∙ (added.beside j other ∙ called_beside s j other))
                v.nobody;
        },
      )

  pub record_stack-Serves : (p : Profiler) → Serves n p → Serves n (record_stack fails frames p)
  record_stack-Serves p (s, reached, rests, v) =
      Added-Serves p s (add fails frames p.fixed_traces)
        (Reached.goes_on reached (handles 0 frames some_thread (v.nobody 0))) rests v refl
        (add-Added n 0 some_thread frames fails (called s) p.fixed_traces v.table.size
          (put-same s.workers 0 (adding frames 0 idle) 0 refl) v.shows)

flush_lem :
    (p : Profiler)
    → (flush p).0 ≡ (record p {
      fixed_traces = (harvest_samples p.fixed_traces p.aggregated_traces).0;
      aggregated_traces = (harvest_samples p.fixed_traces p.aggregated_traces).1;
    })
unfolding flush
flush_lem p = refl

pub flush-Serves : (n : ℕ) (p : Profiler) → Serves n p → Serves n (flush p).0
flush-Serves n p (s, reached, rests, v) =
    let (u, w) =
      harvest_samples-Flushed n p.fixed_traces s reached rests v.table v.shows v.nobody in
    let same : harvest_samples p.fixed_traces s.aggregated
        ≡ harvest_samples p.fixed_traces p.aggregated_traces =
      ap (harvest_samples p.fixed_traces) v.aggregated in
    subst (Serves n) (sym (flush_lem p)) (
      record u { harvester = off },
      Reached.goes_on w.reached (ends max_stack_traces w.at (omega arith)),
      refl,
      record {
        table = subst IsTable (ap (λ x. x.0) same) w.is_table;
        shows = subst (λ x. Shows x.0 u.cells) same w.shows;
        aggregated = w.has ∙ ap (λ x. x.1) same;
        unknown = w.unknown ∙ v.unknown;
        nobody = λ i. ap (λ f. f i) w.workers ∙ v.nobody i;
      },
    )
