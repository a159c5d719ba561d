-- ===== src/Wall/Profile.antt =====
-- googlecloudprofiler/pythonprofiler.py: what the bytes that `profile` returns say.
use cloud_profiler_python.Prelude.{
  ℕ, ◌≡◌, refl, ap, ◌∙◌, Option, none, some, List, [], ◌∷◌, map, arith, true, false, String,
}
use cloud_profiler_python.Prelude.{list_beq_iff, ◌==◌, nat_eq, string_eq, if◌then◌else◌}
use cloud_profiler_python.Prelude.Int.{ℤ, pos, pos_part, ltb_ℤ, ◌*ℤ◌, ◌-ℤ◌}
use cloud_profiler_python.Prelude.Result.{ok}
use cloud_profiler_python.Prelude.Float.{Float}
use cloud_profiler_python.Prelude.Dict
use cloud_profiler_python.Prelude.Dict.{Dict, total, total-insert_new, total-insert_old}
use cloud_profiler_python.Builder
use cloud_profiler_python.Builder.{Frame, Trace, populate_profile, frame_eq}
use cloud_profiler_python.Prelude.{list_eq, list_beq_iff}
use cloud_profiler_python.Builder.Emit.{Codec, emit, IsLossless, read, read-emit}
use cloud_profiler_python.Builder.Decode.{Contents}
use cloud_profiler_python.Builder.Populate.{decode-populate_profile}
use cloud_profiler_python.Wall.{
  WallProfiler, nanos_per_sec, unknown_trace, reset, start_profiling, completed,
  serialize_and_clear_traces,
}
use Prim.Native.Nat.{max}
use mathlib.Core.Path.{subst}
use cloud_profiler_python.Wall.Session.{sampling, stop_profiling, profile}
use cloud_profiler_python.Wall.Runs.{
  AreKnown, AreQuiet, Ends, IsRunning, sampling-returns, deliver_stopped,
}

module _ (fl : Float) where
  -- The arithmetic of the period and the duration at the end of a run.
  pub record Measures (period : fl.F) (duration_ns period_ns expected : ℤ) : Type 0 where
    pub quotient : fl.F
    pub in_nanos : fl.int (fl.mul period (fl.of_ℤ nanos_per_sec)) ≡ ok period_ns
    pub divided : fl.true_div duration_ns period_ns ≡ ok quotient
    pub whole : fl.int quotient ≡ ok expected

  -- The traces and, where the ticks counted are fewer than expected, the rest as unknown.
  abbrev pub with_unknown : ℤ → WallProfiler fl.F → Dict Trace ℕ
  with_unknown expected w =
      if ltb_ℤ (pos 0) (expected -ℤ pos w.trace_count)
      then Dict.insert unknown_trace (pos_part (expected -ℤ pos w.trace_count)) w.traces
      else w.traces

  -- The entry of the unknown trace: the ticks that are missing, if any are.
  abbrev pub remaining : ℤ → ℕ → Option ℕ
  remaining expected counted =
      if ltb_ℤ (pos 0) (expected -ℤ pos counted)
      then some (pos_part (expected -ℤ pos counted))
      else none

  module _ (w : WallProfiler fl.F) (period : fl.F) (duration_ns period_ns expected : ℤ) where
    completed_lem :
        w.period_sec ≡ period
        → Measures period duration_ns period_ns expected
        → completed fl w duration_ns ≡ ok (with_unknown expected w, period_ns)
    unfolding completed
    completed_lem same m = ground (arith, same, m.in_nanos, m.divided, m.whole)

    -- The counts add up to the ticks that the duration holds, or to the ticks counted if these are more.
    total-with_unknown :
        IsRunning fl period w
        → total (with_unknown expected w) ≡ max (pos_part expected) w.trace_count
    unfolding ◌-ℤ◌
    total-with_unknown r = ground (
      arith,
      r.counted,
      total-insert_new unknown_trace (pos_part (expected -ℤ pos w.trace_count)) w.traces
          r.unknown_absent,
    )

    get-with_unknown :
        IsRunning fl period w
        → (t : Trace)
        → Dict.get (with_unknown expected w) t ≡ (
            if t == unknown_trace then remaining expected (total w.traces) else Dict.get w.traces t)
    get-with_unknown r t = grind (
      arith,
      r.counted,
      r.unknown_absent,
      list_beq_iff t unknown_trace,
      Dict.get-insert unknown_trace t (pos_part (expected -ℤ pos w.trace_count)) w.traces,
    )

  module _ (codec : Codec) where
    serialize_lem :
        (w : WallProfiler fl.F) (period : fl.F) (duration_ns period_ns expected : ℤ)
        → w.period_sec ≡ period
        → Measures period duration_ns period_ns expected
        → serialize_and_clear_traces fl codec w duration_ns ≡ (
          reset (record w { traces = with_unknown expected w }),
          ok (
              emit codec (
                populate_profile Builder.init
                  (with_unknown expected w)
                  w.profile_type
                  "nanoseconds"
                  period_ns
                  duration_ns)),
        )
    unfolding serialize_and_clear_traces
    serialize_lem w period duration_ns period_ns expected same m =
        rw
          (completed_lem w period duration_ns period_ns expected same m, serialize_and_clear_traces)

    -- What a run of `profile` comes to: where the sampling ended, and the traces in the bytes.
    pub record Profiled (w : WallProfiler fl.F) (duration_ns period_ns expected : ℤ)
        (duration now : fl.F) (rounds : List (List (fl.F × List Frame) × fl.F))
        (late : List (fl.F × List Frame)) : Type 0 where
      pub sampled : WallProfiler fl.F
      pub traces : Dict Trace ℕ
      pub bytes : codec.Bytes
      pub reached :
          sampling fl (fl.add now duration) (record (reset w) { started = true }) duration rounds
          ≡ some sampled
      pub returned :
          profile fl codec w duration_ns now rounds late
          ≡ some (reset (record sampled { started = false }), ok bytes)
      pub contents :
          read codec bytes
          ≡ some (record {
            sample_types = ("sample", "count") ∷ ("wall", "nanoseconds") ∷ [];
            period_type = ("wall", "nanoseconds");
            period = period_ns;
            duration_nanos = duration_ns;
            samples =
                map (λ (trace, count). (trace, pos count ∷ (period_ns *ℤ pos count) ∷ [])) traces;
          })
      pub idle : sampled.in_handler ≡ false
      pub total_count : total traces ≡ max (pos_part expected) (total sampled.traces)
      pub counts :
          (t : Trace)
          → Dict.get traces t ≡ (
              if t == unknown_trace
              then remaining expected (total sampled.traces)
              else Dict.get sampled.traces t)

    module _ (l : IsLossless codec) (w : WallProfiler fl.F) (duration_ns period_ns expected : ℤ)
        (duration now : fl.F) (rounds : List (List (fl.F × List Frame) × fl.F))
        (late : List (fl.F × List Frame)) where
      abbrev contents_of : String → Dict Trace ℕ → Contents
      contents_of type traces = record {
        sample_types = ("sample", "count") ∷ (type, "nanoseconds") ∷ [];
        period_type = (type, "nanoseconds");
        period = period_ns;
        duration_nanos = duration_ns;
        samples = map (λ (trace, count). (trace, pos count ∷ (period_ns *ℤ pos count) ∷ [])) traces;
      }

      profile_lem :
          (s : WallProfiler fl.F)
          → fl.div (fl.of_ℤ duration_ns) (fl.of_ℤ nanos_per_sec) ≡ ok duration
          → fl.lt w.period_sec (fl.of_ℤ (pos 0)) ≡ false
          → sampling fl (fl.add now duration) (record (reset w) { started = true }) duration rounds
            ≡ some s
          → s.in_handler ≡ false
          → profile fl codec w duration_ns now rounds late
            ≡ some (serialize_and_clear_traces fl codec (record s { started = false }) duration_ns)
      unfolding profile start_profiling stop_profiling reset
      profile_lem s divided forward sampled idle = ground (
        arith,
        divided,
        forward,
        sampled,
        idle,
        deliver_stopped fl (record s { started = false }) late refl,
      )

      -- For a lossless codec and a profiler of type `wall` that is idle and whose period is not negative:
      -- where the arithmetic on the period and the duration does not raise, no handler raises, no
      -- interrupted stack is the frame that stands for unknown time, and the clock passes the target in
      -- one of the rounds, `profile` returns, whatever signals arrive behind `_started = False`. The
      -- profiler is then reset and stopped.
      -- The bytes hold the type `wall`, the period in nanoseconds and the duration; each trace that a
      -- handler recorded has the count that the handlers gave it, and unknown time has the ticks of the
      -- duration that no trace has, so that the counts add up to the ticks that the duration holds, or
      -- to those counted if these are more.
      pub profile_returns :
          w.profile_type ≡ "wall"
          → w.in_handler ≡ false
          → fl.lt w.period_sec (fl.of_ℤ (pos 0)) ≡ false
          → Measures w.period_sec duration_ns period_ns expected
          → fl.div (fl.of_ℤ duration_ns) (fl.of_ℤ nanos_per_sec) ≡ ok duration
          → AreKnown rounds
          → AreQuiet fl (record (reset w) { started = true }) rounds
          → Ends fl (fl.add now duration) duration rounds
          → Profiled w duration_ns period_ns expected duration now rounds late
      unfolding reset Dict.get
      profile_returns type idle forward measures divided known quiet ends =
          let fresh : WallProfiler fl.F = record (reset w) { started = true } in
          let running : IsRunning fl w.period_sec fresh = record {
            started = refl;
            idle = idle;
            same_period = refl;
            same_type = type;
            counted = refl;
            unknown_absent = refl;
          } in
          let (s, reached, r) =
            sampling-returns fl w.period_sec (fl.add now duration) fresh duration rounds known quiet
              running ends in
          let stopped : WallProfiler fl.F = record s { started = false } in
          record {
            sampled = s;
            traces = with_unknown expected s;
            bytes = emit codec (
                populate_profile Builder.init (with_unknown expected s) s.profile_type "nanoseconds"
                  period_ns duration_ns);
            reached = reached;
            returned =
                profile_lem s divided forward reached r.idle
                ∙ ap some (
                    serialize_lem stopped w.period_sec duration_ns period_ns expected r.same_period
                      measures);
            contents =
                subst
                  (λ (type : String).
                    read codec (
                      emit codec (
                        populate_profile Builder.init (with_unknown expected s) s.profile_type
                          "nanoseconds" period_ns duration_ns))
                    ≡ some (contents_of type (with_unknown expected s)))
                  r.same_type (read-emit codec l _ ∙ decode-populate_profile _ _ _ _ _);
            idle = r.idle;
            total_count =
                rw r.counted (total-with_unknown s w.period_sec duration_ns period_ns expected r);
            counts = λ t. get-with_unknown s w.period_sec duration_ns period_ns expected r t;
          }
