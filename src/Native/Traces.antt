-- ===== src/Native/Traces.antt =====
-- googlecloudprofiler/src/profiler.cc: `PythonTraces`, the profile as a Python dictionary. The order of an
-- `unordered_map` is a parameter. Here no call of the C API fails; Traces/Failures has those that do.
pub mod Counts
pub mod Failures
pub mod Ends
pub mod Answers
use cloud_profiler_python.Prelude.{ℕ, ◌+◌, Bool, Option, none, some, List, [], ◌∷◌, String, map}
use cloud_profiler_python.Prelude.{◌==◌, nat_eq, list_eq, ltb, if◌then◌else◌}
use cloud_profiler_python.Prelude.Int.{ℤ, pos, int_eq}
use cloud_profiler_python.Prelude.Dict
use cloud_profiler_python.Prelude.Dict.{Dict}
use cloud_profiler_python.Builder
use cloud_profiler_python.Builder.{Frame, Trace, frame_eq as python_frame_eq}
use cloud_profiler_python.Native.Stack
use cloud_profiler_python.Native.Stack.{CallFrame, Stack, frame_eq, unknown_error, no_py_state}
use cloud_profiler_python.Native.Code.{
  Interpreter, DeallocatedCode, checked_code, get_func_loc, find,
}
use cloud_profiler_python.Native.Profiler.{Profiler}

unfoldable pub call_trace_error_to_name : ℤ → String
call_trace_error_to_name err =
    if err == no_py_state then "[Unknown - No Python thread state]" else "[Unknown]"

-- The body of the loop over the frames.
unfoldable pub python_frame : Interpreter → DeallocatedCode → CallFrame → Frame
python_frame interp deallocated frame =
    if frame.py_code == 0
    then (call_trace_error_to_name frame.lineno, "", frame.lineno)
    else elim (find deallocated frame.py_code) [
      | some func_loc ↦ (func_loc.name, func_loc.filename, pos 0)
      | none ↦
          let func_loc = get_func_loc interp frame.py_code in
          (
            func_loc.name,
            func_loc.filename,
            elim (checked_code interp frame.py_code) [
              | none ↦ pos 0
              | some code ↦ interp.addr_to_line frame.py_code frame.lineno
            ],
          )
    ]

-- The loop over the traces, into a Python dictionary.
unfoldable pub add_traces :
    Interpreter → DeallocatedCode → Dict Stack ℕ → Dict Trace ℕ → Dict Trace ℕ
add_traces interp deallocated [] py_traces = py_traces
add_traces interp deallocated ((trace, count) ∷ traces) py_traces =
    add_traces interp deallocated traces
      (Dict.tally (map (python_frame interp deallocated) trace) count py_traces)

-- The frame that stands for the stacks that found no room.
unfoldable pub add_unknown : Profiler → Profiler
add_unknown p =
    if ltb 0 p.unknown_stack_count
    then record p {
      aggregated_traces =
          Dict.tally (record { lineno = unknown_error; py_code = 0 } ∷ []) p.unknown_stack_count
            p.aggregated_traces;
    }
    else p

-- `PythonTraces`
unfoldable pub python_traces :
    (Dict Stack ℕ → Dict Stack ℕ) → Interpreter → Profiler → Profiler × Dict Trace ℕ
python_traces order interp p =
    let p' = add_unknown p in
    (p', add_traces interp p'.deallocated_code (order p'.aggregated_traces) [])
