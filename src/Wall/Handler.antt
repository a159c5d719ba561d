-- ===== src/Wall/Handler.antt =====
-- googlecloudprofiler/pythonprofiler.py: the signal handler.
use cloud_profiler_python.Prelude.{
  ℕ, zero, suc, none, ap, ◌∙◌, ◌+◌, ◌≤◌, ◌≡◌, some, List, arith, true, false, ◌⊎◌, inl, inr,
}
use cloud_profiler_python.Prelude.{◌==◌, nat_eq, string_eq, if◌then◌else◌}
use cloud_profiler_python.Prelude.Int.{ℤ, pos, negsuc}
use cloud_profiler_python.Prelude.Result.{ok, err, PyError, Result-cases}
use cloud_profiler_python.Prelude.Float.{Float}
use cloud_profiler_python.Prelude.{take}
use cloud_profiler_python.Prelude.Dict
use cloud_profiler_python.Prelude.Dict.{Dict, total, total-insert_new, total-insert_old}
use cloud_profiler_python.Builder.{Frame, Trace, frame_eq}
use cloud_profiler_python.Prelude.{list_eq}
use cloud_profiler_python.Wall.{WallProfiler, record_trace, at_least_one, ticks, handler}
use cloud_profiler_python.Wall.Depth.{record_trace-take}

-- Between two handlers the counter is the sum of the counts.
abbrev pub IsCounted : {F : Type 0} → WallProfiler F → Type 0
IsCounted w = total w.traces ≡ w.trace_count

module _ (fl : Float) where
  module _ (w : WallProfiler fl.F) (now : fl.F) (stack : List Frame) where
    abbrev pub entered : WallProfiler fl.F
    entered = record w { in_handler = true }

    pub handler_ignored :
        (w.started ≡ false) ⊎ (w.in_handler ≡ true) → handler fl w now stack ≡ (w, ok tt)
    unfolding handler
    handler_ignored h = ground arith

    module _ (started : w.started ≡ true) (idle : w.in_handler ≡ false) where
      pub handler_raised :
          (e : PyError) → ticks fl entered now ≡ err e → handler fl w now stack ≡ (entered, err e)
      unfolding handler
      handler_raised e h = ground arith

      pub handler_recorded :
          {n : ℕ} {last : fl.F}
          → ticks fl entered now ≡ ok (n, last)
          → handler fl w now stack ≡ (
            record entered {
              last_sample_time = some last;
              traces = Dict.tally (record_trace stack) n w.traces;
              trace_count = w.trace_count + n;
              in_handler = false;
            },
            ok tt,
          )
      unfolding handler
      handler_recorded h = ground arith

    pub handler_cases :
        ((w.started ≡ false) ⊎ (w.in_handler ≡ true))
        ⊎ ((w.started ≡ true) × (w.in_handler ≡ false))
    handler_cases = ground arith

  -- If the counter is the sum of the counts, it is so behind a handler too, on every path.
  pub handler-IsCounted :
      (w : WallProfiler fl.F) (now : fl.F) (stack : List Frame)
      → IsCounted w
      → IsCounted (handler fl w now stack).0
  handler-IsCounted w now stack h = elim (handler_cases w now stack) [
    | inl off ↦ rw (handler_ignored w now stack off) h
    | inr (on, idle) ↦ elim (Result-cases (ticks fl (entered w now stack) now)) [
      | inl ((n, last), ticked) ↦
          rw (handler_recorded w now stack on idle ticked)
            (omega (arith, Dict.total-tally (record_trace stack) n w.traces))
      | inr (e, raised) ↦ rw (handler_raised w now stack on idle e raised) h
    ]
  ]

  -- The periods from the last sample to now, of which the first sample counts as one; and the time of the
  -- sample behind it, by the ticks that are counted.
  pub data Elapsed (w : WallProfiler fl.F) (now : fl.F) : ℤ → (ℕ → fl.F) → Type 0 where
    first : w.last_sample_time ≡ none → Elapsed w now (pos 1) (λ n. now)
    later :
        (before quotient : fl.F) (periods : ℤ)
        → w.last_sample_time ≡ some before
        → fl.div (fl.sub now before) w.period_sec ≡ ok quotient
        → fl.int quotient ≡ ok periods
        → Elapsed w now periods (λ n. fl.add before (fl.mul w.period_sec (fl.of_ℤ (pos n))))

  -- n is the larger of 1 and the number of periods.
  abbrev pub IsLarger : ℕ → ℤ → Type 0
  IsLarger n (pos m) = (1 ≤ n) × (m ≤ n) × ((n ≡ 1) ⊎ (n ≡ m))
  IsLarger n (negsuc m) = n ≡ 1

  at_least_one-IsLarger : (periods : ℤ) → IsLarger (at_least_one periods) periods
  unfolding at_least_one
  at_least_one-IsLarger (pos zero) = ground arith
  at_least_one-IsLarger (pos (suc m)) = ground arith
  at_least_one-IsLarger (negsuc m) = ground arith

  ticks-Elapsed :
      (w : WallProfiler fl.F) (now : fl.F) (periods : ℤ) (time : ℕ → fl.F)
      → Elapsed w now periods time
      → (n : ℕ) × IsLarger n periods
        × (ticks fl (record w { in_handler = true }) now ≡ ok (n, time n))
  unfolding ticks
  ticks-Elapsed w now _ _ (first h) = (1, ground arith, ground (arith, h))
  ticks-Elapsed w now _ _ (later before quotient periods h e f) =
      (at_least_one periods, at_least_one-IsLarger periods, ground (arith, h, e, f))

  -- A signal that arrives while the profiler runs and no handler does, where the arithmetic on the
  -- sample times does not raise: the handler returns with its flag reset and the profiler still
  -- running. With n the larger of 1 and the number of periods since the last sample, the first 128
  -- frames of the stack are counted n more times, the counter grows by n, and the time of the last
  -- sample by n periods, or is now at the first sample; every other trace keeps its count.
  pub handler-count :
      (w : WallProfiler fl.F) (now : fl.F) (stack : List Frame) (periods : ℤ) (time : ℕ → fl.F)
      → w.started ≡ true
      → w.in_handler ≡ false
      → Elapsed w now periods time
      → (t : Trace)
      → (n : ℕ) × IsLarger n periods
        × ((handler fl w now stack).1 ≡ ok tt)
        × ((handler fl w now stack).0.in_handler ≡ false)
        × ((handler fl w now stack).0.started ≡ true)
        × ((handler fl w now stack).0.last_sample_time ≡ some (time n))
        × ((handler fl w now stack).0.trace_count ≡ w.trace_count + n)
        × (Dict.tally_of (handler fl w now stack).0.traces t ≡ (
            if t == take 128 stack then Dict.tally_of w.traces t + n else Dict.tally_of w.traces t))
  handler-count w now stack periods time on idle passed t =
      let (n, larger, ticked) = ticks-Elapsed w now periods time passed in
      let recorded = handler_recorded w now stack on idle ticked in
      (
        n,
        larger,
        ap (λ x. x.1) recorded,
        ap (λ x. x.0.in_handler) recorded,
        ap (λ x. x.0.started) recorded ∙ on,
        ap (λ x. x.0.last_sample_time) recorded,
        ap (λ x. x.0.trace_count) recorded,
        ap (λ x. Dict.tally_of x.0.traces t) recorded
            ∙ ap (λ trace. Dict.tally_of (Dict.tally trace n w.traces) t) (record_trace-take stack)
            ∙ Dict.tally_of-tally (take 128 stack) t n w.traces,
      )
