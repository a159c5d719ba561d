-- ===== src/Native/Traces/Counts.antt =====
-- googlecloudprofiler/src/profiler.cc: the counts of the Python dictionary.
use cloud_profiler_python.Prelude.{ℕ, ◌+◌, ◌≡◌, refl, Bool, true, [], ◌∷◌, map, arith}
use cloud_profiler_python.Prelude.{◌==◌, nat_eq, list_eq, if◌then◌else◌}
use cloud_profiler_python.Prelude.Int.{pos}
use cloud_profiler_python.Prelude.Dict
use cloud_profiler_python.Prelude.Dict.{Dict}
use mathlib.Core.List.{Perm}
use cloud_profiler_python.Builder.{Trace, frame_eq as python_frame_eq}
use cloud_profiler_python.Native.Stack.{Stack, frame_eq, unknown_error}
use cloud_profiler_python.Native.Code.{Interpreter, DeallocatedCode}
use cloud_profiler_python.Native.Profiler.{Profiler}
use cloud_profiler_python.Native.Traces.{
  python_frame, add_traces, add_unknown, python_traces, call_trace_error_to_name,
}

module _ (interp : Interpreter) (deallocated : DeallocatedCode) where
  -- The samples of the native traces that are shown as this one.
  abbrev pub shown_as : Trace → Dict Stack ℕ → ℕ
  shown_as t traces = Dict.total_of (λ s. t == map (python_frame interp deallocated) s) traces

  tally_of-add_traces :
      (traces : Dict Stack ℕ) (py_traces : Dict Trace ℕ) (t : Trace)
      → Dict.tally_of (add_traces interp deallocated traces py_traces) t
        ≡ Dict.tally_of py_traces t + shown_as t traces
  unfolding add_traces
  tally_of-add_traces [] py_traces t = omega arith
  tally_of-add_traces ((trace, count) ∷ traces) py_traces t =
      let shown = map (python_frame interp deallocated) trace in
      ground (
        arith,
        tally_of-add_traces traces (Dict.tally shown count py_traces) t,
        Dict.tally_of-tally shown t count py_traces,
      )

  total-add_traces :
      (traces : Dict Stack ℕ) (py_traces : Dict Trace ℕ)
      → Dict.total (add_traces interp deallocated traces py_traces)
        ≡ Dict.total py_traces + Dict.total_of (λ s. true) traces
  unfolding add_traces
  total-add_traces [] py_traces = omega arith
  total-add_traces ((trace, count) ∷ traces) py_traces =
      let shown = map (python_frame interp deallocated) trace in
      omega (
        arith,
        total-add_traces traces (Dict.tally shown count py_traces),
        Dict.total-tally shown count py_traces,
      )

abbrev pub unknown_trace : Trace
unknown_trace = ("[Unknown]", "", pos 0) ∷ []

total_of-add_unknown :
    (q : Stack → Bool) (p : Profiler)
    → Dict.total_of q (add_unknown p).aggregated_traces
      ≡ Dict.total_of q p.aggregated_traces
        + (if q (record { lineno = unknown_error; py_code = 0 } ∷ [])
            then p.unknown_stack_count
            else 0)
unfolding add_unknown
total_of-add_unknown q p = ground (
  arith,
  Dict.total_of-tally q (record { lineno = unknown_error; py_code = 0 } ∷ []) p.unknown_stack_count
      p.aggregated_traces,
)

add_unknown-deallocated : (p : Profiler) → (add_unknown p).deallocated_code ≡ p.deallocated_code
unfolding add_unknown
add_unknown-deallocated p = ground arith

shown_unknown :
    (interp : Interpreter) (deallocated : DeallocatedCode)
    → map (python_frame interp deallocated) (record { lineno = unknown_error; py_code = 0 } ∷ [])
      ≡ unknown_trace
unfolding python_frame call_trace_error_to_name
shown_unknown interp deallocated = refl

total_of-all : {K : Type 0} (d : Dict K ℕ) → Dict.total_of (λ k. true) d ≡ Dict.total d
total_of-all [] = refl
total_of-all ((k, n) ∷ d) = omega (arith, total_of-all d)

module _ (order : Dict Stack ℕ → Dict Stack ℕ) (same_traces : (d : Dict Stack ℕ) → Perm (order d) d)
    (interp : Interpreter) (p : Profiler) where
  -- In whatever order the map gives its traces: `PythonTraces` counts a Python trace as often as the
  -- native traces that it shows as that one were counted, and the one of the frame `[Unknown]` also as
  -- often as a stack found no room.
  pub tally_of-python_traces :
      (t : Trace)
      → Dict.tally_of (python_traces order interp p).1 t
        ≡ shown_as interp p.deallocated_code t p.aggregated_traces
          + (if t == unknown_trace then p.unknown_stack_count else 0)
  unfolding python_traces Dict.get
  tally_of-python_traces t =
      let p' = add_unknown p in
      let shown : Stack → Bool = λ s. t == map (python_frame interp p.deallocated_code) s in
      ground (
        arith,
        tally_of-add_traces interp p.deallocated_code (order p'.aggregated_traces) [] t,
        Dict.total_of-Perm shown (same_traces p'.aggregated_traces),
        total_of-add_unknown shown p,
        shown_unknown interp p.deallocated_code,
        add_unknown-deallocated p,
      )

  -- The counts add up to those of the growable table and the stacks that found no room.
  pub total-python_traces :
      Dict.total (python_traces order interp p).1
      ≡ Dict.total p.aggregated_traces + p.unknown_stack_count
  unfolding python_traces
  total-python_traces =
      let p' = add_unknown p in
      omega (
        arith,
        total-add_traces interp p'.deallocated_code (order p'.aggregated_traces) [],
        Dict.total_of-Perm (λ s. true) (same_traces p'.aggregated_traces),
        total_of-add_unknown (λ s. true) p,
        total_of-all p.aggregated_traces,
      )
