-- ===== src/Native/Traces/Ends.antt =====
-- googlecloudprofiler/src/profiler.cc: how the steps of `PythonTraces` end where calls fail.
use cloud_profiler_python.Prelude.{
  ◌<◌, ◌≤◌, ℕ, ◌+◌, ◌≡◌, refl, ap, sym, Bool, true, false, ◌||◌, Option, none, some, List, [], ◌∷◌,
  map, arith, inl, inr, ◌⊎◌, ◌∙◌,
}
use cloud_profiler_python.Prelude.{nat_eq, list_eq, length, Bool-cases}
use mathlib.Core.Path.{subst}
use native.Mathlib.Decide.{dec_lt}
use cloud_profiler_python.Prelude.Dict
use cloud_profiler_python.Prelude.Dict.{Dict}
use cloud_profiler_python.Builder.{Frame, Trace, frame_eq as python_frame_eq}
use cloud_profiler_python.Native.Stack.{Stack}
use cloud_profiler_python.Native.Code.{Interpreter, DeallocatedCode}
use cloud_profiler_python.Native.Traces.{python_frame, add_traces}
use cloud_profiler_python.Native.Traces.Failures.{
  Calls, Attempt, went, null, undefined, Step, ◌>>=◌, pure, frame_raises, check, call, new_count,
  build_frames, build_trace, build_traces,
}

-- Whether a name in the profile cannot be read; and the error indicator behind a loop over it.
module _ (interp : Interpreter) (deallocated : DeallocatedCode) where
  abbrev pub stack_raises : Stack → Bool
  stack_raises [] = false
  stack_raises (frame ∷ frames) = frame_raises interp deallocated frame || stack_raises frames

  abbrev pub traces_raise : Dict Stack ℕ → Bool
  traces_raise [] = false
  traces_raise ((trace, count) ∷ traces) = stack_raises trace || traces_raise traces

  abbrev pub behind_stack : Stack → Bool → Bool
  behind_stack [] raised = raised
  behind_stack (frame ∷ frames) raised =
      behind_stack frames (frame_raises interp deallocated frame || raised)

  abbrev pub behind_traces : Dict Stack ℕ → Bool → Bool
  behind_traces [] raised = raised
  behind_traces ((trace, count) ∷ traces) raised = behind_traces traces (behind_stack trace raised)

  behind_stack_lem :
      (frames : Stack) (raised : Bool)
      → behind_stack frames raised ≡ (stack_raises frames || raised)
  behind_stack_lem [] raised = refl
  behind_stack_lem (frame ∷ frames) raised =
      ground (arith, behind_stack_lem frames (frame_raises interp deallocated frame || raised))

  pub behind_traces_lem :
      (traces : Dict Stack ℕ) (raised : Bool)
      → behind_traces traces raised ≡ (traces_raise traces || raised)
  behind_traces_lem [] raised = refl
  behind_traces_lem ((trace, count) ∷ traces) raised =
      ground
        (arith, behind_traces_lem traces (behind_stack trace raised), behind_stack_lem trace raised)

abbrev pub IsBad : {A : Type 0} → Attempt A → Type 0
IsBad (went a c) = ⊥
IsBad null = Unit
IsBad undefined = Unit

-- One of the calls from the number a to before the number n fails.
abbrev pub Fails : (ℕ → Bool) → ℕ → ℕ → Type 0
Fails fails a n = (k : ℕ) × (a ≤ k) × (k < n) × (fails k ≡ true)

-- The calls that a profile takes where none fails, behind that of `PyDict_New`.
abbrev pub calls_for : Dict Stack ℕ → ℕ
calls_for [] = 0
calls_for ((trace, count) ∷ traces) = length trace + 3 + calls_for traces

module _ {A B : Type 0} (f : A → Step B) where
  abbrev pub after : Attempt A → Attempt B
  after m = elim m [ went a c ↦ f a c | null ↦ null | undefined ↦ undefined ]

module _ (fails : ℕ → Bool) where
  -- A step that makes the calls from a to before n, of which none fails, and goes on with this value and
  -- this error indicator; or that stops for a cause.
  abbrev pub Ends : {A : Type 0} → ℕ → ℕ → Attempt A → A → Bool → Type 0
  Ends a n m x raised =
      ((¬ Fails fails a n) × (m ≡ went x (record { made = n; raised = raised })))
      ⊎ (IsBad m × (Fails fails a n ⊎ (raised ≡ true)))

  wider : {a b k n : ℕ} → a ≤ b → k ≤ n → Fails fails b k → Fails fails a n
  wider low high (i, late, early, failed) =
      (i, omega (arith, low, late), omega (arith, high, early), failed)

  none_between : {a k n : ℕ} → ¬ Fails fails a k → ¬ Fails fails k n → ¬ Fails fails a n
  none_between {a} {k} {n} first second (i, late, early, failed) = elim (dec_lt i k) [
    | yes before ↦ first (i, late, before, failed)
    | no behind ↦ second (i, omega arith, early, failed)
  ]

  nothing_between : (a : ℕ) → ¬ Fails fails a a
  nothing_between a (i, late, early, failed) = absurd (omega (arith, late, early))

  module _ {A B : Type 0} (f : A → Step B) (a k n : ℕ) (a≤k : a ≤ k) (k≤n : k ≤ n) {x : A} {y : B}
      {raised raised' : Bool} where
    pub bind-Ends :
        (m : Attempt A)
        → Ends a k m x raised
        → Ends k n (f x (record { made = k; raised = raised })) y raised'
        → (raised ≡ true → raised' ≡ true)
        → Ends a n (after f m) y raised'
    bind-Ends m (inl (clear, e)) (inl (clear', e')) grows =
        inl (none_between clear clear', ap (after f) e ∙ e')
    bind-Ends m (inl (clear, e)) (inr (bad, inl failed)) grows =
        inr (subst IsBad (sym (ap (after f) e)) bad, inl (wider a≤k (omega arith) failed))
    bind-Ends m (inl (clear, e)) (inr (bad, inr h)) grows =
        inr (subst IsBad (sym (ap (after f) e)) bad, inr h)
    bind-Ends (went z c) (inr (bad, _)) next grows = elim bad [ ]
    bind-Ends null (inr (bad, inl failed)) next grows =
        inr (tt, inl (wider (omega arith) k≤n failed))
    bind-Ends null (inr (bad, inr h)) next grows = inr (tt, inr (grows h))
    bind-Ends undefined (inr (bad, inl failed)) next grows =
        inr (tt, inl (wider (omega arith) k≤n failed))
    bind-Ends undefined (inr (bad, inr h)) next grows = inr (tt, inr (grows h))

  pure-Ends : {A : Type 0} (x : A) (c : Calls) → Ends c.made c.made (pure x c) x c.raised
  pure-Ends x c = inl (nothing_between c.made, refl)

  clear_call : (i : ℕ) → fails i ≡ false → ¬ Fails fails i (i + 1)
  clear_call i h (j, late, early, failed) =
      let same : j ≡ i = omega (arith, late, early) in absurd (cc (h, failed, ap fails same))

  pub call-Ends : (c : Calls) → Ends c.made (c.made + 1) (call fails c) tt c.raised
  call-Ends c = elim (Bool-cases (fails c.made)) [
    | inl h ↦ inr (rw h tt, inl (c.made, omega arith, omega arith, h))
    | inr h ↦ inl (clear_call c.made h, rw h refl)
  ]

  new_count-Ends : (c : Calls) → Ends c.made (c.made + 1) (new_count fails c) tt c.raised
  new_count-Ends c = elim (Bool-cases (fails c.made)) [
    | inl h ↦ inr (rw h tt, inl (c.made, omega arith, omega arith, h))
    | inr h ↦ inl (clear_call c.made h, rw h refl)
  ]

  check-Ends : (found : Option ℕ) (c : Calls) → Ends c.made c.made (check found c) tt c.raised
  check-Ends none c = inl (nothing_between c.made, refl)
  check-Ends (some previous) c = elim (Bool-cases c.raised) [
    | inl h ↦ inr (rw h tt, inr h)
    | inr h ↦ inl (nothing_between c.made, rw h refl)
  ]

  module _ (interp : Interpreter) (deallocated : DeallocatedCode) where
    build_frames-Ends :
        (frames : Stack) (c : Calls) (n : ℕ)
        → c.made + length frames ≡ n
        → Ends c.made n
            (build_frames fails interp deallocated frames c)
            (map (python_frame interp deallocated) frames)
            (behind_stack interp deallocated frames c.raised)
    unfolding build_frames
    build_frames-Ends [] c n all =
        let here : c.made ≡ n = omega (arith, all) in
        let none_yet : List Frame = [] in
        subst (λ l. Ends c.made l (pure none_yet c) none_yet c.raised) here (pure-Ends none_yet c)
    build_frames-Ends (frame ∷ frames) c n all =
        let raised : Bool = frame_raises interp deallocated frame || c.raised in
        let c1 : Calls = record { made = c.made; raised = raised } in
        let c2 : Calls = record { made = c.made + 1; raised = raised } in
        let behind : Bool = behind_stack interp deallocated frames raised in
        let grows : raised ≡ true → behind ≡ true =
          λ h. ground (arith, h, behind_stack_lem interp deallocated frames raised) in
        let join : List Frame → Step (List Frame) =
          λ rest. pure (python_frame interp deallocated frame ∷ rest) in
        let shown : List Frame = map (python_frame interp deallocated) frames in
        bind-Ends (λ _. build_frames fails interp deallocated frames >>= join) c.made (c.made + 1) n
          (omega arith) (omega (arith, all)) (call fails c1) (call-Ends c1)
          (bind-Ends join (c.made + 1) n n (omega (arith, all)) (omega arith)
            (build_frames fails interp deallocated frames c2)
            (build_frames-Ends frames c2 n (omega (arith, all)))
            (pure-Ends (python_frame interp deallocated frame ∷ shown)
              (record { made = n; raised = behind }))
            (λ h. h))
          grows

    build_trace-Ends :
        (trace : Stack) (count : ℕ) (py_traces : Dict Trace ℕ) (c : Calls)
        → Ends c.made
            (c.made + 1 + length trace + 1 + 1)
            (build_trace fails interp deallocated trace count py_traces c)
            (Dict.tally (map (python_frame interp deallocated) trace) count py_traces)
            (behind_stack interp deallocated trace c.raised)
    unfolding build_trace
    build_trace-Ends trace count py_traces c =
        let shown : Trace = map (python_frame interp deallocated) trace in
        let made_of : ℕ → Bool → Calls = λ made raised. record { made = made; raised = raised } in
        let raised : Bool = behind_stack interp deallocated trace c.raised in
        let m1 : ℕ = c.made + 1 in
        let m2 : ℕ = c.made + 1 + length trace in
        let m3 : ℕ = m2 + 1 in
        let n : ℕ = m3 + 1 in
        let store : Step (Dict Trace ℕ) = pure (Dict.tally shown count py_traces) in
        let last : Unit {0} → Step (Dict Trace ℕ) = λ _. call fails >>= (λ _. store) in
        let counted : Unit {0} → Step (Dict Trace ℕ) = λ _. new_count fails >>= last in
        let checked : List Frame → Step (Dict Trace ℕ) = λ frames. do
          _ ← check (Dict.get py_traces frames)
          _ ← new_count fails
          _ ← call fails
          pure (Dict.tally frames count py_traces)
        in let built : Unit {0} → Step (Dict Trace ℕ) =
            λ _. build_frames fails interp deallocated trace >>= checked in
          let grows : c.raised ≡ true → raised ≡ true =
            λ h. ground (arith, h, behind_stack_lem interp deallocated trace c.raised) in
          bind-Ends built c.made m1 n (omega arith) (omega arith) (call fails c) (call-Ends c)
            (bind-Ends checked m1 m2 n (omega arith) (omega arith)
              (build_frames fails interp deallocated trace (made_of m1 c.raised))
              (build_frames-Ends trace (made_of m1 c.raised) m2 refl)
              (bind-Ends counted m2 m2 n (omega arith) (omega arith)
                (check (Dict.get py_traces shown) (made_of m2 raised))
                (check-Ends (Dict.get py_traces shown) (made_of m2 raised))
                (bind-Ends last m2 m3 n (omega arith) (omega arith)
                  (new_count fails (made_of m2 raised)) (new_count-Ends (made_of m2 raised))
                  (bind-Ends (λ _. store) m3 n n (omega arith) (omega arith)
                    (call fails (made_of m3 raised)) (call-Ends (made_of m3 raised))
                    (pure-Ends (Dict.tally shown count py_traces) (made_of n raised)) (λ h. h))
                  (λ h. h))
                (λ h. h))
              (λ h. h))
            grows

    pub build_traces-Ends :
        (traces : Dict Stack ℕ) (py_traces : Dict Trace ℕ) (c : Calls) (n : ℕ)
        → c.made + calls_for traces ≡ n
        → Ends c.made n
            (build_traces fails interp deallocated traces py_traces c)
            (add_traces interp deallocated traces py_traces)
            (behind_traces interp deallocated traces c.raised)
    unfolding build_traces add_traces
    build_traces-Ends [] py_traces c n all =
        let here : c.made ≡ n = omega (arith, all) in
        subst (λ l. Ends c.made l (pure py_traces c) py_traces c.raised) here
          (pure-Ends py_traces c)
    build_traces-Ends ((trace, count) ∷ traces) py_traces c n all =
        let raised : Bool = behind_stack interp deallocated trace c.raised in
        let py_traces' : Dict Trace ℕ =
          Dict.tally (map (python_frame interp deallocated) trace) count py_traces in
        let m : ℕ = c.made + 1 + length trace + 1 + 1 in
        bind-Ends (λ d. build_traces fails interp deallocated traces d) c.made m n (omega arith)
          (omega (arith, all)) (build_trace fails interp deallocated trace count py_traces c)
          (build_trace-Ends trace count py_traces c)
          (build_traces-Ends traces py_traces' (record { made = m; raised = raised }) n
            (omega (arith, all)))
          (λ h. ground (arith, h, behind_traces_lem interp deallocated traces raised))
