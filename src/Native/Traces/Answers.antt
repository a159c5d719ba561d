-- ===== src/Native/Traces/Answers.antt =====
-- googlecloudprofiler/src/profiler.cc: what the interpreter is given where calls of Python's C API fail.
use cloud_profiler_python.Prelude.{
  ℕ, ◌+◌, ◌≡◌, refl, ap, ◌∙◌, sym, Bool, true, false, [], arith, inl, inr, ◌⊎◌,
}
use cloud_profiler_python.Prelude.{nat_eq, list_eq, Bool-cases}
use mathlib.Core.Path.{subst}
use cloud_profiler_python.Prelude.Dict.{Dict}
use cloud_profiler_python.Builder.{Trace, frame_eq as python_frame_eq}
use cloud_profiler_python.Native.Stack.{Stack}
use cloud_profiler_python.Native.Code.{Interpreter, DeallocatedCode}
use cloud_profiler_python.Native.Profiler.{Profiler}
use cloud_profiler_python.Native.Traces.{add_traces, add_unknown, python_traces}
use cloud_profiler_python.Native.Traces.Failures.{
  Calls, Attempt, went, null, undefined, Step, call, build_traces, Answer, dict, raised_error,
  system_error, undefined_behaviour, answer, checked_traces,
}
use cloud_profiler_python.Native.Traces.Ends.{
  calls_for, traces_raise, behind_traces, behind_traces_lem, IsBad, Fails, Ends, after, bind-Ends,
  call-Ends, build_traces-Ends,
}

abbrev pub IsNoDict : Answer → Type 0
IsNoDict (dict py_traces) = ⊥
IsNoDict raised_error = Unit
IsNoDict system_error = Unit
IsNoDict undefined_behaviour = Unit

-- Whether `PyUnicode_AsUTF8` gives no text for a name or file name of the profile.
abbrev pub has_unreadable : (Dict Stack ℕ → Dict Stack ℕ) → Interpreter → Profiler → Bool
has_unreadable order interp p =
    let p' = add_unknown p in traces_raise interp p'.deallocated_code (order p'.aggregated_traces)

no_dict : (m : Attempt (Dict Trace ℕ)) → IsBad m → IsNoDict (answer m)
no_dict null bad = tt
no_dict undefined bad = tt
no_dict (went py_traces c) bad = elim bad [ ]

-- The calls that `PythonTraces` makes where none fails.
abbrev pub call_count : (Dict Stack ℕ → Dict Stack ℕ) → Profiler → ℕ
call_count order p = 1 + calls_for (order (add_unknown p).aggregated_traces)

-- Whatever calls fail: `PythonTraces` gives the dictionary of `python_traces`, and then none of the calls
-- that it takes to build it fails, and no name is unreadable; or it gives none, and then one of those
-- calls fails, or a name is unreadable.
pub checked_traces_cases :
    (fails : ℕ → Bool) (order : Dict Stack ℕ → Dict Stack ℕ) (interp : Interpreter) (p : Profiler)
    → ((checked_traces fails order interp p ≡ dict (python_traces order interp p).1)
        × (¬ Fails fails 0 (call_count order p))
        × (has_unreadable order interp p ≡ false))
      ⊎ (IsNoDict (checked_traces fails order interp p)
          × (Fails fails 0 (call_count order p) ⊎ (has_unreadable order interp p ≡ true)))
unfolding checked_traces python_traces
checked_traces_cases fails order interp p =
    let p' : Profiler = add_unknown p in
    let traces : Dict Stack ℕ = order p'.aggregated_traces in
    let start : Calls = record { made = 0; raised = false } in
    let deallocated : DeallocatedCode = p'.deallocated_code in
    let n : ℕ = call_count order p in
    let flag : behind_traces interp deallocated traces false ≡ has_unreadable order interp p =
      ground (arith, behind_traces_lem interp deallocated traces false) in
    let result : Dict Trace ℕ = add_traces interp deallocated traces [] in
    let built : Unit {0} → Step (Dict Trace ℕ) =
      λ _. build_traces fails interp deallocated traces [] in
    let ends : Ends fails 0 n (after built (call fails start)) result
        (has_unreadable order interp p) =
      subst (Ends fails 0 n (after built (call fails start)) result) flag (
        bind-Ends fails built 0 1 n (omega arith) (omega arith) (call fails start)
          (call-Ends fails start)
          (build_traces-Ends fails interp deallocated traces []
            (record { made = 1; raised = false }) n refl)
          (λ h. absurd (cc h))) in
    elim ends [
      | inr (bad, cause) ↦ inr (no_dict (after built (call fails start)) bad, cause)
      | inl (clear, e) ↦ elim (Bool-cases (has_unreadable order interp p)) [
        | inl h ↦ inr (subst IsNoDict (sym (ap answer e)) (rw h tt), inr h)
        | inr h ↦ inl (ap answer e ∙ rw h refl, clear, h)
      ]
    ]
