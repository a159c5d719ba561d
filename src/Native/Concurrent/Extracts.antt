-- ===== src/Native/Concurrent/Extracts.antt =====
-- googlecloudprofiler/src/stacktraces.cc: `Extract` in `HarvestSamples` while no thread is in `Handle`.
use cloud_profiler_python.Prelude.{
  ℕ, suc, ◌<◌, ◌≡◌, refl, sym, ap, ◌∙◌, false, some, List, ◌∷◌, arith,
}
use cloud_profiler_python.Prelude.{◌==◌, nat_eq, list_eq, length, take}
use cloud_profiler_python.Prelude.Dict.{Dict}
use mathlib.Core.Path.{subst}
use cloud_profiler_python.Native.Stack.{Stack, frame_eq}
use cloud_profiler_python.Native.Table.{absorb, max_stack_traces}
use cloud_profiler_python.Native.Entry.{
  Cell, counted, resting, looked, copied, released, locked, Read, look, see, exchange, copy,
  wait_ends, release,
}
use cloud_profiler_python.Native.Concurrent.{before, within, Board, Turn, looks, releases, Reached}
use cloud_profiler_python.Native.Concurrent.Rounds.{Turns, stays, turns, Turns-append}
use cloud_profiler_python.Native.Concurrent.Project.{put-same, put-other}

-- `Extract` is at the entry k, which holds c; else all is as before.
record Reading (n k : ℕ) (c : Cell) (o s : Board) : Type 0 where
  reached : Reached n s
  run : Turns n o s
  at : s.harvester ≡ within k
  cell : s.cells k ≡ c
  others : (j : ℕ) → (j == k) ≡ false → s.cells j ≡ o.cells j
  workers : s.workers ≡ o.workers
  aggregated : s.aggregated ≡ o.aggregated
  unknown : s.unknown ≡ o.unknown
  handled : s.handled ≡ o.handled
  missed : s.missed ≡ o.missed

-- `Extract` at the entry k has ended, and left c there.
pub record Harvested (n k : ℕ) (c : Cell) (aggregated : Dict Stack ℕ) (o s : Board) : Type 0 where
  pub reached : Reached n s
  pub run : Turns n o s
  pub at : s.harvester ≡ before (suc k)
  pub cell : s.cells k ≡ c
  pub others : (j : ℕ) → (j == k) ≡ false → s.cells j ≡ o.cells j
  pub workers : s.workers ≡ o.workers
  pub has : s.aggregated ≡ aggregated
  pub unknown : s.unknown ≡ o.unknown
  pub handled : s.handled ≡ o.handled
  pub missed : s.missed ≡ o.missed

module _ (n k : ℕ) where
  looks_in :
      (c d : Cell) (o : Board)
      → Reached n o
      → o.harvester ≡ before k
      → k < max_stack_traces
      → o.cells k ≡ c
      → Read c d
      → d.reader ≡ looked
      → (s : Board) × Reading n k d o s
  looks_in c d o reached at lt cell read looking = (
    _,
    record {
      reached =
          Reached.goes_on reached (looks k d at lt (subst (λ x. Read x d) (sym cell) read) looking);
      run = turns (looks k d at lt (subst (λ x. Read x d) (sym cell) read) looking) (stays _);
      at = refl;
      cell = put-same o.cells k d k (ground arith);
      others = λ j other. put-other o.cells k d j other;
      workers = refl;
      aggregated = refl;
      unknown = refl;
      handled = refl;
      missed = refl;
    },
  )

  reads_on :
      (c d : Cell) (o : Board)
      → Read c d
      → d.harvested ≡ c.harvested
      → (s : Board) × Reading n k c o s
      → (s : Board) × Reading n k d o s
  reads_on c d o read same (s, v) = (
    _,
    record {
      reached = Reached.goes_on v.reached (
          Turn.reads k d v.at (subst (λ x. Read x d) (sym v.cell) read)
            (same ∙ ap (λ x. x.harvested) (sym v.cell)));
      run = Turns-append n v.run (
          turns
            (Turn.reads k d v.at (subst (λ x. Read x d) (sym v.cell) read)
              (same ∙ ap (λ x. x.harvested) (sym v.cell)))
            (stays _));
      at = v.at;
      cell = put-same s.cells k d k (ground arith);
      others = λ j other. put-other s.cells k d j other ∙ v.others j other;
      workers = v.workers;
      aggregated = v.aggregated;
      unknown = v.unknown;
      handled = v.handled;
      missed = v.missed;
    },
  )

  releases_to :
      (c d : Cell) (o : Board) (fs : Stack) (m : ℕ)
      → Read c d
      → c.reader ≡ released fs m
      → (s : Board) × Reading n k c o s
      → (s : Board) × Harvested n k d (absorb (some (fs, m)) (o.aggregated, 0)).0 o s
  releases_to c d o fs m read held (s, v) = (
    _,
    record {
      reached = Reached.goes_on v.reached (
          releases k d fs m v.at (ap (λ x. x.reader) v.cell ∙ held)
            (subst (λ x. Read x d) (sym v.cell) read));
      run = Turns-append n v.run (
          turns
            (releases k d fs m v.at (ap (λ x. x.reader) v.cell ∙ held)
              (subst (λ x. Read x d) (sym v.cell) read))
            (stays _));
      at = refl;
      cell = put-same s.cells k d k (ground arith);
      others = λ j other. put-other s.cells k d j other ∙ v.others j other;
      workers = v.workers;
      has = ap (λ x. (absorb (some (fs, m)) (x, 0)).0) v.aggregated;
      unknown = v.unknown;
      handled = v.handled;
      missed = v.missed;
    },
  )

  module _ (fs : Stack) (added : List Stack) (harvested : List (Stack × ℕ)) where
    abbrev pub taken_from : ℕ → Cell
    taken_from m = record {
      count = counted m;
      frames = fs;
      active_updates = 0;
      reader = resting;
      added = added;
      harvested = harvested;
    }

    extract_copied :
        (m : ℕ) (o : Board)
        → Reached n o
        → o.harvester ≡ before k
        → k < max_stack_traces
        → o.cells k ≡ taken_from (suc m)
        → (s : Board) × Reading n k
            (record (taken_from (suc m)) {
              count = locked;
              reader = copied (take (length fs) fs) (suc m);
            })
            o
            s
    extract_copied m o reached at lt cell = reads_on _ _ o (copy _ (length fs) (suc m) refl) refl (
        reads_on _ _ o (exchange _ (length fs) (suc m) refl refl) refl (
          reads_on _ _ o (see _ refl) refl
            (looks_in _ _ o reached at lt cell (look _ m refl refl) refl)))

    pub extract_taken :
        (m : ℕ) (o : Board)
        → Reached n o
        → o.harvester ≡ before k
        → k < max_stack_traces
        → o.cells k ≡ taken_from (suc m)
        → (s : Board) × Harvested n k
            (record (taken_from 0) { harvested = (take (length fs) fs, suc m) ∷ harvested })
            (absorb (some (take (length fs) fs, suc m)) (o.aggregated, 0)).0
            o
            s
    extract_taken m o reached at lt cell =
        releases_to _ _ o (take (length fs) fs) (suc m)
          (release _ (take (length fs) fs) (suc m) refl) refl
          (reads_on _ _ o (wait_ends _ (take (length fs) fs) (suc m) refl refl) refl
            (extract_copied m o reached at lt cell))
