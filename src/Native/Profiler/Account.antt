-- ===== src/Native/Profiler/Account.antt =====
-- googlecloudprofiler/src/profiler.cc: every signal shows in the tables after the last flush.
use cloud_profiler_python.Prelude.{
  ℕ, ◌+◌, ◌<◌, ◌≡◌, refl, Bool, true, false, Option, none, some, List, [], ◌∷◌, ◌++◌, arith, inl,
  inr, length,
}
use cloud_profiler_python.Prelude.{◌==◌, nat_eq, list_eq, All}
use cloud_profiler_python.Prelude.Dict
use mathlib.Core.Logic.{◌⊎◌}
use cloud_profiler_python.Native.Stack.{Stack, frame_eq, max_frames_to_capture}
use cloud_profiler_python.Native.Table.Harvest.{has_frames, harvest_samples-empty}
use cloud_profiler_python.Native.Frames.{
  Version, before_311, ThreadState, Memory, populate_frames, InterpreterFrame,
}
use cloud_profiler_python.Native.Frames.Walk.{
  Chain, first_frame, populate_frames-take, walk_objects-length,
}
use cloud_profiler_python.Native.Profiler.{
  Profiler, new_profiler, record_stack, handle, flush, Event, signal, flushed, deallocated, step,
  run,
}
use cloud_profiler_python.Native.Profiler.Spec.{
  Spec, Label, sampled, silent, counted, missed, kept, Steps, done, more, count_of, signals,
  Steps-signals,
}
use cloud_profiler_python.Native.Profiler.Refine.{
  Refines, new_profiler-Refines, flush-Refines, label_of, labels_of, run-Refines,
}

abbrev pub nothing_recorded : Spec
nothing_recorded = record { recorded = []; unknown = 0 }

-- After a flush the growable table holds what was recorded.
flush-collects :
    (p : Profiler) (s : Spec)
    → Refines p s
    → ((t : Stack)
        → (t == []) ≡ false
        → Dict.tally_of (flush p).0.aggregated_traces t ≡ count_of (λ k. t == k) s.recorded)
      × (Dict.total (flush p).0.aggregated_traces ≡ count_of has_frames s.recorded)
unfolding flush
flush-collects p s r =
    let r' = flush-Refines p s r in
    (
      λ t real. omega (
        arith,
        r'.each t real,
        harvest_samples-empty (λ k. t == k) p.fixed_traces p.aggregated_traces r.table,
      ),
      omega (
        arith,
        r'.every,
        harvest_samples-empty has_frames p.fixed_traces p.aggregated_traces r.table,
      ),
    )

-- Every stack that a signal finds has a frame.
abbrev pub HaveFrames : List Label → Type 0
HaveFrames [] = Unit
HaveFrames (sampled frames ∷ labels) = (has_frames frames ≡ true) × HaveFrames labels
HaveFrames (silent ∷ labels) = HaveFrames labels

Steps-HaveFrames :
    (s t : Spec) (labels : List Label)
    → Steps s labels t
    → HaveFrames labels
    → count_of has_frames s.recorded ≡ length s.recorded
    → count_of has_frames t.recorded ≡ length t.recorded
Steps-HaveFrames s _ _ (done _) all h = h
Steps-HaveFrames s u _ (more _ _ labels (counted _ frames) steps) (real, all) h =
    Steps-HaveFrames (record s { recorded = frames ∷ s.recorded }) u labels steps all
      (ground (arith, real, h))
Steps-HaveFrames s u _ (more _ _ labels (missed _ frames) steps) (real, all) h =
    Steps-HaveFrames (record s { unknown = s.unknown + 1 }) u labels steps all h
Steps-HaveFrames s u _ (more _ _ labels (kept _) steps) all h =
    Steps-HaveFrames s u labels steps all h

-- The walk of a signal ends: the thread has no state, the interpreter is older than 3.11, or the frames
-- are a finite chain, with a round of fuel for each and one more.
abbrev pub Ends : Version → Event → Type 0
Ends version (signal mem fuel none fails) = Unit
Ends version (signal mem fuel (some ts) fails) =
    (version ≡ before_311)
    ⊎ ((frs : List InterpreterFrame) × Chain mem (first_frame mem version ts) frs
        × (length frs < fuel))
Ends version flushed = Unit
Ends version (deallocated interp code_object) = Unit

populate_frames-Ends :
    (version : Version) (mem : Memory) (fuel : ℕ) (thread : Option ThreadState) (fails : ℕ → Bool)
    → Ends version (signal mem fuel thread fails)
    → (frames : Stack) × (populate_frames mem version fuel thread ≡ some frames)
unfolding populate_frames
populate_frames-Ends version mem fuel none fails ends = (_, refl)
populate_frames-Ends before_311 mem fuel (some ts) fails ends =
    let (frames, e, short) = walk_objects-length mem max_frames_to_capture ts.frame in (frames, e)
populate_frames-Ends version mem fuel (some ts) fails (inl old) = absurd (cc old)
populate_frames-Ends version mem fuel (some ts) fails (inr (frs, chain, enough)) =
    (_, populate_frames-take mem version fuel ts frs (λ old. cc old) chain enough)

step-Ends :
    (version : Version) (event : Event) (p : Profiler)
    → Ends version event
    → (p' : Profiler) × (step version event p ≡ some p')
unfolding step handle
step-Ends version (signal mem fuel thread fails) p ends =
    let (frames, e) = populate_frames-Ends version mem fuel thread fails ends in
    (record_stack fails frames p, ground (arith, e))
step-Ends version flushed p ends = (_, refl)
step-Ends version (deallocated interp code_object) p ends = (_, refl)

pub run-Ends :
    (version : Version) (events : List Event) (p : Profiler)
    → All (Ends version) events
    → (p' : Profiler) × (run version events p ≡ some p')
unfolding run
run-Ends version [] p ends = (p, refl)
run-Ends version (event ∷ events) p (here, rest) =
    let (q, stepped) = step-Ends version event p here in
    let (p', runs) = run-Ends version events q rest in (p', ground (arith, stepped, runs))

pub run-counts :
    (version : Version) (events : List Event) (p : Profiler)
    → run version events new_profiler ≡ some p
    → HaveFrames (labels_of version events)
    → Dict.total (flush p).0.aggregated_traces + p.unknown_stack_count
      ≡ signals (labels_of version events)
run-counts version events p h all =
    let (t, steps, r) =
      run-Refines version events new_profiler p nothing_recorded h new_profiler-Refines in
    omega (
      arith,
      (flush-collects p t r).1,
      Steps-signals nothing_recorded t (labels_of version events) steps,
      Steps-HaveFrames nothing_recorded t (labels_of version events) steps all refl,
      r.unknown,
    )

-- The walks of the signals end, each with a frame at least.
pub record IsSound (version : Version) (events : List Event) : Type 0 where
  pub ends : All (Ends version) events
  pub have_frames : HaveFrames (labels_of version events)

-- Whatever signals, flushes and deallocations a new profiler goes through, in whatever order: if the walk
-- of each signal ends, and with a frame at least, then after one more flush the counts of the growable
-- table and the number of unknown stacks add up to the number of signals.
pub run-counts_signals :
    (version : Version) (events : List Event)
    → IsSound version events
    → (p : Profiler) × (run version events new_profiler ≡ some p)
      × (Dict.total (flush p).0.aggregated_traces + p.unknown_stack_count
          ≡ signals (labels_of version events))
run-counts_signals version events sound =
    let (p, h) = run-Ends version events new_profiler sound.ends in
    (p, h, run-counts version events p h sound.have_frames)

HaveFrames-cons :
    (label : Label) (labels labels' : List Label)
    → (HaveFrames labels → HaveFrames labels')
    → HaveFrames (label ∷ labels)
    → HaveFrames (label ∷ labels')
HaveFrames-cons (sampled frames) labels labels' f (real, rest) = (real, f rest)
HaveFrames-cons silent labels labels' f rest = f rest

HaveFrames-append :
    (version : Version) (before after : List Event)
    → HaveFrames (labels_of version before)
    → HaveFrames (labels_of version after)
    → HaveFrames (labels_of version (before ++ after))
HaveFrames-append version [] after h k = k
HaveFrames-append version (event ∷ before) after h k =
    HaveFrames-cons (label_of version event) (labels_of version before)
      (labels_of version (before ++ after)) (λ rest. HaveFrames-append version before after rest k)
      h

Ends-append :
    (version : Version) (before after : List Event)
    → All (Ends version) before
    → All (Ends version) after
    → All (Ends version) (before ++ after)
Ends-append version [] after h k = k
Ends-append version (event ∷ before) after (here, rest) k =
    (here, Ends-append version before after rest k)

pub IsSound-append :
    (version : Version) (before after : List Event)
    → IsSound version before
    → IsSound version after
    → IsSound version (before ++ after)
IsSound-append version before after h k = record {
  ends = Ends-append version before after h.ends k.ends;
  have_frames = HaveFrames-append version before after h.have_frames k.have_frames;
}
