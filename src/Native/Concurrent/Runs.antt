-- ===== src/Native/Concurrent/Runs.antt =====
-- googlecloudprofiler/src/profiler.cc and profiler.h: runs in which each call ends before the next.
use cloud_profiler_python.Prelude.{ℕ, ◌<◌, ◌≡◌, refl, sym, some, List, [], ◌∷◌, arith, inl, inr}
use cloud_profiler_python.Prelude.{
  nat_eq, list_eq, Option-cases, get_elem?, replicate, get_elem?-replicate,
}
use mathlib.Core.Path.{subst}
use cloud_profiler_python.Native.Stack.{frame_eq}
use cloud_profiler_python.Native.Table.{Entry}
use cloud_profiler_python.Native.Table.Fit.{reset-IsTable}
use cloud_profiler_python.Native.Profiler.{Profiler, record_stack, new_profiler, flush}
use cloud_profiler_python.Native.Entry.{Cell}
use cloud_profiler_python.Native.Concurrent.{off, Board, new_board, Reached, starts}
use cloud_profiler_python.Native.Concurrent.Alone.{ShowsAt}
use cloud_profiler_python.Native.Frames.{Version, populate_frames}
use cloud_profiler_python.Native.Frames.Bounds.{populate_frames-length}
use cloud_profiler_python.Native.Profiler.{handle, Event, signal, flushed, deallocated, step, run}
use cloud_profiler_python.Native.Table.{reset}
use cloud_profiler_python.Native.Code.{code_dealloc}
use cloud_profiler_python.Native.Concurrent.Serial.{
  Stands, Serves, record_stack-Serves, flush-Serves,
}

step-Serves :
    (n : ℕ) (version : Version) (event : Event) (p p' : Profiler)
    → 0 < n
    → step version event p ≡ some p'
    → Serves n p
    → Serves n p'
unfolding step handle
step-Serves n version (signal mem fuel thread fails) p p' some_thread h v =
    elim (Option-cases (populate_frames mem version fuel thread)) [
      | inl endless ↦ absurd (ground (arith, endless, h))
      | inr (frames, ended) ↦
          let same : record_stack fails frames p ≡ p' = ground (arith, ended, h) in
          subst (Serves n) same (
            record_stack-Serves n some_thread frames
              (populate_frames-length mem version fuel thread ended) fails p v)
    ]
step-Serves n version flushed p p' some_thread h v =
    let same : (flush p).0 ≡ p' = ground (arith, h) in subst (Serves n) same (flush-Serves n p v)
step-Serves n version (deallocated interp code_object) p p' some_thread h (s, reached, rests, v) = (
  s,
  reached,
  rests,
  let same : (record p { deallocated_code = code_dealloc interp code_object p.deallocated_code })
          ≡ p' =
        ground (arith, h) in
      subst (λ x. Stands x s) same
        (record {
          table = v.table;
          shows = v.shows;
          aggregated = v.aggregated;
          unknown = v.unknown;
          nobody = v.nobody;
        }),
)

run-Serves :
    (n : ℕ) (version : Version) (events : List Event) (p p' : Profiler)
    → 0 < n
    → run version events p ≡ some p'
    → Serves n p
    → Serves n p'
unfolding run
run-Serves n version [] p p' some_thread h v =
    let same : p ≡ p' = ground (arith, h) in subst (Serves n) same v
run-Serves n version (event ∷ events) p p' some_thread h v =
    elim (Option-cases (step version event p)) [
      | inl endless ↦ absurd (ground (arith, endless, h))
      | inr (next, stepped) ↦
          run-Serves n version events next p' some_thread (ground (arith, stepped, h))
            (step-Serves n version event p next some_thread stepped v)
    ]

replicate-Shows :
    (c : Cell) (e : Entry) (m k : ℕ) → ShowsAt c (some e) → ShowsAt c (get_elem? (replicate m e) k)
replicate-Shows c e m k h = elim (get_elem?-replicate m k e) [
  | inl out ↦ subst (ShowsAt c) (sym out) tt
  | inr inside ↦ subst (ShowsAt c) (sym inside) h
]

new_profiler-Serves : (n : ℕ) → Serves n new_profiler
unfolding reset
new_profiler-Serves n = (
  new_board,
  starts,
  refl,
  record {
    table = reset-IsTable;
    shows = λ k.
        replicate-Shows (new_board.cells k) (record { frames = []; count = 0 }) 2048 k (refl, refl);
    aggregated = refl;
    unknown = refl;
    nobody = λ i. refl;
  },
)

-- With one thread at least: for every run of signals, flushes and deallocations, each of which ends before
-- the next one begins, and whichever attempts of `Add` fail, there are steps of the threads that end with
-- no thread in `Handle` or `HarvestSamples`, and with the table, the aggregated traces and the counter
-- of the run.
pub run-Reached :
    (n : ℕ) (version : Version) (events : List Event) (p : Profiler)
    → 0 < n
    → run version events new_profiler ≡ some p
    → (s : Board) × Reached n s × (s.harvester ≡ off) × Stands p s
run-Reached n version events p some_thread h =
    run-Serves n version events new_profiler p some_thread h (new_profiler-Serves n)
