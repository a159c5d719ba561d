-- ===== src/Native/Traces/Failures.antt =====
-- googlecloudprofiler/src/profiler.cc: `PythonTraces` where calls of Python's C API fail. Which calls fail
-- is a parameter. The interpreter's error indicator is a flag: `PyUnicode_AsUTF8` sets it where it gives
-- no text, and `GetFuncLoc` does not clear it.
use cloud_profiler_python.Prelude.{
  ℕ, ◌+◌, Bool, true, false, ◌||◌, Option, none, some, List, [], ◌∷◌, String,
}
use cloud_profiler_python.Prelude.{◌==◌, nat_eq, list_eq, if◌then◌else◌}
use cloud_profiler_python.Prelude.Dict
use cloud_profiler_python.Prelude.Dict.{Dict}
use cloud_profiler_python.Builder.{Frame, Trace, frame_eq as python_frame_eq}
use cloud_profiler_python.Native.Stack.{CallFrame, Stack}
use cloud_profiler_python.Native.Code.{CodeObject, Interpreter, DeallocatedCode, checked_code, find}
use cloud_profiler_python.Native.Profiler.{Profiler}
use cloud_profiler_python.Native.Traces.{python_frame, add_unknown}

-- The calls so far that may fail, and the error indicator.
pub record Calls : Type 0 where
  pub made : ℕ
  pub raised : Bool

-- `null` is a return of `nullptr`; `undefined` is a null value that `PyDict_SetItem` is called with.
pub data Attempt (A : Type 0) : Type 0 where
  went : A → Calls → Attempt A
  null undefined : Attempt A

abbrev pub Step : Type 0 → Type 0
Step A = Calls → Attempt A

infixl 10 ◌>>=◌
abbrev pub ◌>>=◌ : {A B : Type 0} → Step A → (A → Step B) → Step B
(m >>= f) c = elim (m c) [ went a c' ↦ f a c' | null ↦ null | undefined ↦ undefined ]

abbrev pub pure : {A : Type 0} → A → Step A
pure a c = went a c

abbrev is_none : Option String → Bool
is_none none = true
is_none (some s) = false

-- `GetFuncLoc` leaves the error indicator set.
abbrev pub code_raises : Option CodeObject → Bool
code_raises none = false
code_raises (some code) = is_none code.co_name || is_none code.co_filename

unfoldable pub frame_raises : Interpreter → DeallocatedCode → CallFrame → Bool
frame_raises interp deallocated frame =
    if frame.py_code == 0 then false else elim (find deallocated frame.py_code) [
      | some func_loc ↦ false
      | none ↦ code_raises (checked_code interp frame.py_code)
    ]

-- What a call leaves in the error indicator that it does not look at.
abbrev pub leave : Bool → Step (Unit {0})
leave raises c = went tt (record { made = c.made; raised = raises || c.raised })

-- `PyErr_Occurred`, where the trace has been in the dictionary before
abbrev pub check : Option ℕ → Step (Unit {0})
check none c = went tt c
check (some previous) c = if c.raised then null else went tt c

-- Whether the call of that number fails.
module _ (fails : ℕ → Bool) where
  -- A call whose failure is tested for.
  abbrev pub call : Step (Unit {0})
  call c = if fails c.made then null else went tt (record { made = c.made + 1; raised = c.raised })

  -- `PyLong_FromUnsignedLongLong`
  abbrev pub new_count : Step (Unit {0})
  new_count c =
      if fails c.made then undefined else went tt (record { made = c.made + 1; raised = c.raised })

  module _ (interp : Interpreter) (deallocated : DeallocatedCode) where
    -- The loop over the frames.
    unfoldable pub build_frames : Stack → Step (List Frame)
    build_frames [] = pure []
    build_frames (frame ∷ frames) = do
      _ ← leave (frame_raises interp deallocated frame)
      _ ← call
      rest ← build_frames frames
      pure (python_frame interp deallocated frame ∷ rest)

    -- The body of the loop over the traces.
    unfoldable pub build_trace : Stack → ℕ → Dict Trace ℕ → Step (Dict Trace ℕ)
    build_trace trace count py_traces = do
      _ ← call
      py_frames ← build_frames trace
      _ ← check (Dict.get py_traces py_frames)
      _ ← new_count
      _ ← call
      pure (Dict.tally py_frames count py_traces)

    unfoldable pub build_traces : Dict Stack ℕ → Dict Trace ℕ → Step (Dict Trace ℕ)
    build_traces [] py_traces = pure py_traces
    build_traces ((trace, count) ∷ traces) py_traces = do
      py_traces' ← build_trace trace count py_traces
      build_traces traces py_traces'

-- What the interpreter makes of the object that is returned, with the error indicator: a dictionary, the
-- exception that was raised, or `SystemError` for a result that comes with an exception.
pub data Answer : Type 0 where
  dict : Dict Trace ℕ → Answer
  raised_error system_error undefined_behaviour : Answer

abbrev pub answer : Attempt (Dict Trace ℕ) → Answer
answer (went py_traces c) = if c.raised then system_error else dict py_traces
answer null = raised_error
answer undefined = undefined_behaviour

-- `PythonTraces`, as the interpreter sees it that has called `profile_cpu`
unfoldable pub checked_traces :
    (ℕ → Bool) → (Dict Stack ℕ → Dict Stack ℕ) → Interpreter → Profiler → Answer
checked_traces fails order interp p =
    let p' = add_unknown p in
    let steps : Step (Dict Trace ℕ) = do
      _ ← call fails
      build_traces fails interp p'.deallocated_code (order p'.aggregated_traces) []
    in answer (steps (record { made = 0; raised = false }))
