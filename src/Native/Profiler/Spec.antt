-- ===== src/Native/Profiler/Spec.antt =====
-- googlecloudprofiler/src/profiler.cc: what the profiler promises, without its tables. A signal either adds
-- its stack to the recorded ones or counts as unknown; nothing else changes either.
use cloud_profiler_python.Prelude.{ℕ, ◌+◌, ◌≡◌, List, [], ◌∷◌, arith, Bool}
use cloud_profiler_python.Prelude.{length, if◌then◌else◌}
use cloud_profiler_python.Native.Stack.{Stack}

pub record Spec : Type 0 where
  pub recorded : List Stack
  pub unknown : ℕ

-- What is seen of a step: the stack that a signal finds, or nothing.
pub data Label : Type 0 where
  sampled : Stack → Label
  silent : Label

pub data Step : Spec → Label → Spec → Type 0 where
  counted :
      (s : Spec) (frames : Stack)
      → Step s (sampled frames) (record s { recorded = frames ∷ s.recorded })
  missed :
      (s : Spec) (frames : Stack) → Step s (sampled frames) (record s { unknown = s.unknown + 1 })
  kept : (s : Spec) → Step s silent s

pub data Steps : Spec → List Label → Spec → Type 0 where
  done : (s : Spec) → Steps s [] s
  more :
      (s : Spec) {t u : Spec} (label : Label) (labels : List Label)
      → Step s label t
      → Steps t labels u
      → Steps s (label ∷ labels) u

-- The signals among the labels.
abbrev pub signals : List Label → ℕ
signals [] = 0
signals (sampled frames ∷ labels) = signals labels + 1
signals (silent ∷ labels) = signals labels

-- The stacks with a property.
abbrev pub count_of : (Stack → Bool) → List Stack → ℕ
count_of p [] = 0
count_of p (t ∷ ts) = (if p t then 1 else 0) + count_of p ts

Step-signals :
    (s t : Spec) (label : Label)
    → Step s label t
    → length t.recorded + t.unknown ≡ length s.recorded + s.unknown + signals (label ∷ [])
Step-signals s _ _ (counted _ frames) = omega arith
Step-signals s _ _ (missed _ frames) = omega arith
Step-signals s _ _ (kept _) = omega arith

-- Each signal is counted once.
pub Steps-signals :
    (s t : Spec) (labels : List Label)
    → Steps s labels t
    → length t.recorded + t.unknown ≡ length s.recorded + s.unknown + signals labels
Steps-signals s _ _ (done _) = omega arith
Steps-signals s u _ (more _ {t} (sampled frames) labels step steps) =
    omega (arith, Step-signals s t (sampled frames) step, Steps-signals t u labels steps)
Steps-signals s u _ (more _ {t} silent labels step steps) =
    omega (arith, Step-signals s t silent step, Steps-signals t u labels steps)
