-- ===== src/Native/Profiler/Refine.antt =====
-- googlecloudprofiler/src/profiler.cc: the tables of the profiler implement its specification.
use cloud_profiler_python.Prelude.{
  ℕ, ◌+◌, ◌≤◌, ◌≡◌, refl, ◌∙◌, sym, ap, Bool, false, Option, none, some, List, [], ◌∷◌, arith, inl,
  inr,
}
use cloud_profiler_python.Prelude.{◌==◌, nat_eq, list_eq, length, Option-cases}
use cloud_profiler_python.Prelude.Dict
use mathlib.Core.Path.{subst}
use cloud_profiler_python.Native.Stack.{Stack, frame_eq, max_frames_to_capture}
use cloud_profiler_python.Native.Table.{Table, add}
use cloud_profiler_python.Native.Table.Counts.{held, add-held}
use cloud_profiler_python.Native.Table.Harvest.{
  IsTable, has_frames, harvest_samples-IsTable, harvest_samples-tally, harvest_samples-total,
}
use cloud_profiler_python.Native.Table.Fit.{add-IsTable, reset-IsTable, held-reset}
use cloud_profiler_python.Native.Frames.{Version, populate_frames}
use cloud_profiler_python.Native.Frames.Bounds.{populate_frames-length}
use cloud_profiler_python.Native.Code.{code_dealloc}
use cloud_profiler_python.Native.Profiler.{
  Profiler, new_profiler, record_stack, handle, flush, Event, signal, flushed, deallocated, step,
  run,
}
use cloud_profiler_python.Native.Profiler.Spec.{
  Spec, Label, sampled, silent, Step, counted, missed, kept, Steps, done, more, count_of,
}

-- The state of the profiler stands for the recorded stacks: each that has a frame is in one of the tables
-- as often as it was recorded.
pub record Refines (p : Profiler) (s : Spec) : Type 0 where
  pub table : IsTable p.fixed_traces
  pub unknown : p.unknown_stack_count ≡ s.unknown
  pub each :
      (t : Stack)
      → (t == []) ≡ false
      → Dict.tally_of p.aggregated_traces t + held (λ k. t == k) p.fixed_traces
        ≡ count_of (λ k. t == k) s.recorded
  pub every :
      Dict.total p.aggregated_traces + held has_frames p.fixed_traces
      ≡ count_of has_frames s.recorded

pub new_profiler-Refines : Refines new_profiler (record { recorded = []; unknown = 0 })
unfolding Dict.get
new_profiler-Refines = record {
  table = reset-IsTable;
  unknown = refl;
  each = λ t real. omega (arith, held-reset (λ k. t == k));
  every = omega (arith, held-reset has_frames);
}

record_stack-full :
    (fails : ℕ → Bool) (frames : Stack) (p : Profiler)
    → add fails frames p.fixed_traces ≡ none
    → record_stack fails frames p ≡ record p { unknown_stack_count = p.unknown_stack_count + 1 }
unfolding record_stack
record_stack-full fails frames p full = rw (full, record_stack) refl

record_stack-added :
    (fails : ℕ → Bool) (frames : Stack) (p : Profiler) {table : Table}
    → add fails frames p.fixed_traces ≡ some table
    → record_stack fails frames p ≡ record p { fixed_traces = table }
unfolding record_stack
record_stack-added fails frames p added = rw (added, record_stack) refl

record_stack-Refines :
    (fails : ℕ → Bool) (frames : Stack) (p : Profiler) (s : Spec)
    → length frames ≤ max_frames_to_capture
    → Refines p s
    → (t : Spec) × Step s (sampled frames) t × Refines (record_stack fails frames p) t
unfolding record_stack
record_stack-Refines fails frames p s short r =
    elim (Option-cases (add fails frames p.fixed_traces)) [
      | inl full ↦ (
        record s { unknown = s.unknown + 1 },
        missed s frames,
        subst (λ q. Refines q (record s { unknown = s.unknown + 1 }))
            (sym (record_stack-full fails frames p full))
            (record {
              table = r.table;
              unknown = omega (arith, r.unknown);
              each = r.each;
              every = r.every;
            }),
      )
      | inr (after, added) ↦ (
        record s { recorded = frames ∷ s.recorded },
        counted s frames,
        subst (λ q. Refines q (record s { recorded = frames ∷ s.recorded }))
            (sym (record_stack-added fails frames p added))
            (record {
              table = add-IsTable frames short fails p.fixed_traces added r.table;
              unknown = r.unknown;
              each = λ t real.
                  omega (
                    arith,
                    add-held (λ k. t == k) fails frames p.fixed_traces added,
                    r.each t real,
                  );
              every = omega (arith, add-held has_frames fails frames p.fixed_traces added, r.every);
            }),
      )
    ]

pub flush-Refines : (p : Profiler) (s : Spec) → Refines p s → Refines (flush p).0 s
unfolding flush
flush-Refines p s r = record {
  table = harvest_samples-IsTable p.fixed_traces p.aggregated_traces r.table;
  unknown = r.unknown;
  each = λ t real.
      harvest_samples-tally p.fixed_traces p.aggregated_traces r.table t real ∙ r.each t real;
  every = harvest_samples-total p.fixed_traces p.aggregated_traces r.table ∙ r.every;
}

abbrev label_of_walk : Option Stack → Label
label_of_walk none = silent
label_of_walk (some frames) = sampled frames

-- What is seen of an event.
abbrev pub label_of : Version → Event → Label
label_of version (signal mem fuel thread fails) =
    label_of_walk (populate_frames mem version fuel thread)
label_of version flushed = silent
label_of version (deallocated interp code_object) = silent

abbrev pub labels_of : Version → List Event → List Label
labels_of version [] = []
labels_of version (event ∷ events) = label_of version event ∷ labels_of version events

step-Refines :
    (version : Version) (event : Event) (p p' : Profiler) (s : Spec)
    → step version event p ≡ some p'
    → Refines p s
    → (t : Spec) × Step s (label_of version event) t × Refines p' t
unfolding step handle
step-Refines version (signal mem fuel thread fails) p p' s h r =
    elim (Option-cases (populate_frames mem version fuel thread)) [
      | inl endless ↦ absurd (ground (arith, h, endless))
      | inr (frames, ends) ↦
          let same : record_stack fails frames p ≡ p' = ground (arith, h, ends) in
          let (t, next, r') =
            record_stack-Refines fails frames p s
              (populate_frames-length mem version fuel thread ends) r in
          let seen : sampled frames ≡ label_of_walk (populate_frames mem version fuel thread) =
            sym (ap label_of_walk ends) in
          (t, subst (λ l. Step s l t) seen next, subst (λ q. Refines q t) same r')
    ]
step-Refines version flushed p p' s h r =
    let same : (flush p).0 ≡ p' = ground (arith, h) in
    (s, kept s, rw (← same) (flush-Refines p s r))
step-Refines version (deallocated interp code_object) p p' s h r =
    let codes = code_dealloc interp code_object p.deallocated_code in
    let same : record p { deallocated_code = codes } ≡ p' = ground (arith, h) in
    (
      s,
      kept s,
      subst (λ q. Refines q s) same
          (record { table = r.table; unknown = r.unknown; each = r.each; every = r.every }),
    )

-- If the tables of a profiler stand for a state of its specification (each trace with a frame is in them as
-- often as it was recorded, and as many stacks are unknown), and a run of signals, flushes and
-- deallocations ends, in whatever order they come, then the specification has steps for the same samples
-- to a state that the tables stand for at the end of the run.
pub run-Refines :
    (version : Version) (events : List Event) (p p' : Profiler) (s : Spec)
    → run version events p ≡ some p'
    → Refines p s
    → (t : Spec) × Steps s (labels_of version events) t × Refines p' t
unfolding run
run-Refines version [] p p' s h r = let same : p ≡ p' = cc h in (s, done s, rw (← same) r)
run-Refines version (event ∷ events) p p' s h r = elim (Option-cases (step version event p)) [
  | inl stuck ↦ absurd (ground (arith, h, stuck))
  | inr (q, stepped) ↦
      let (t, first, r') = step-Refines version event p q s stepped r in
      let (u, rest, r'') = run-Refines version events q p' t (ground (arith, h, stepped)) r' in
      (u, more s (label_of version event) (labels_of version events) first rest, r'')
]
