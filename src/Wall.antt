-- ===== src/Wall.antt =====
-- googlecloudprofiler/pythonprofiler.py: the wall-time profiler. A method takes the profiler and
-- returns it with its result; what it wrote before it raised stays written. The lock is reentrant and
-- held for straight-line code only, so it has no state here; that a handler that raises leaves it held
-- is not modelled.
pub mod Register
pub mod Session
pub mod Depth
pub mod Handler
pub mod Runs
pub mod Profile
pub mod Race
use cloud_profiler_python.Prelude.{
  ℕ, ◌+◌, ◌*◌, Bool, Option, none, some, List, [], ◌∷◌, true, false, not, ◌||◌, String,
}
use cloud_profiler_python.Prelude.{nat_eq, string_eq, list_eq, if◌then◌else◌, ltb}
use cloud_profiler_python.Prelude.Int.{ℤ, pos, negsuc, pos_part, ltb_ℤ, ◌-ℤ◌}
use cloud_profiler_python.Prelude.Result.{◌>>=◌, Result, ok, err, external}
use cloud_profiler_python.Prelude.Float.{Float}
use cloud_profiler_python.Json
use cloud_profiler_python.Prelude.Dict
use cloud_profiler_python.Prelude.Dict.{Dict}
use cloud_profiler_python.Builder
use cloud_profiler_python.Builder.{Frame, Trace, populate_profile, frame_eq}
use cloud_profiler_python.Builder.Emit.{Codec, emit}

abbrev pub max_stack_depth : ℕ
max_stack_depth = 128

abbrev pub nanos_per_sec : ℤ
nanos_per_sec = pos (1000 * 1000 * 1000)

pub record WallProfiler (F : Type 0) : Type 0 where
  pub profile_type : String
  pub period_sec : F
  pub traces : Dict Trace ℕ
  pub in_handler : Bool
  pub started : Bool
  pub last_sample_time : Option F
  pub trace_count : ℕ

-- The loop of `_record_trace`. A stack is the chain of `f_back` from the leaf frame, each frame by
-- its function's name, its file's name and its line.
unfoldable pub record_from : ℕ → List Frame → Trace
record_from depth [] = []
record_from depth (frame ∷ back) =
    let rest = record_from (depth + 1) back in
    if ltb depth max_stack_depth then frame ∷ rest else []

unfoldable pub record_trace : List Frame → Trace
unfolding record_from
record_trace stack = record_from 0 stack

-- `max(1, n)`
unfoldable pub at_least_one : ℤ → ℕ
at_least_one (pos n) = if ltb 1 n then n else 1
at_least_one (negsuc n) = 1

unfoldable pub reset : {F : Type 0} → WallProfiler F → WallProfiler F
reset w = record w { traces = []; last_sample_time = none; trace_count = 0 }

abbrev pub unknown_trace : Trace
unknown_trace = ("unknown", "unknown", pos 0) ∷ []

module _ (fl : Float) where
  -- `WallProfiler(period_ms)`
  unfoldable pub init : ℤ → Result (WallProfiler fl.F)
  init period_ms = do
    period_sec ← fl.div (fl.of_ℤ period_ms) (fl.of_ℤ (pos 1000))
    ok (record {
      profile_type = "wall";
      period_sec = period_sec;
      traces = [];
      in_handler = false;
      started = false;
      last_sample_time = none;
      trace_count = 0;
    })

  -- The part of `_handler` under the lock: the ticks, and the new time of the last sample.
  unfoldable pub ticks : WallProfiler fl.F → fl.F → Result (ℕ × fl.F)
  ticks w now = elim w.last_sample_time [
    | none ↦ ok (1, now)
    | some last ↦ do
      quotient ← fl.div (fl.sub now last) w.period_sec
      n ← fl.int quotient
      ok (at_least_one n, fl.add last (fl.mul w.period_sec (fl.of_ℤ (pos (at_least_one n)))))
  ]

  -- `_handler`, at the time that the clock shows and the interrupted stack.
  unfoldable pub handler :
      WallProfiler fl.F → fl.F → List Frame → WallProfiler fl.F × Result (Unit {0})
  handler w now stack =
      if not w.started || w.in_handler
      then (w, ok tt)
      else (let entered : WallProfiler fl.F = record w { in_handler = true } in
          let trace = record_trace stack in
          elim (ticks entered now) [
            | err e ↦ (entered, err e)
            | ok (n, last) ↦ (
              record entered {
                last_sample_time = some last;
                traces = Dict.tally trace n entered.traces;
                trace_count = entered.trace_count + n;
                in_handler = false;
              },
              ok tt,
            )
          ])

  -- `signal.setitimer(ITIMER_REAL, period, period)` raises for a negative period.
  unfoldable pub start_profiling : WallProfiler fl.F → WallProfiler fl.F × Result (Unit {0})
  start_profiling w =
      let started : WallProfiler fl.F = record w { started = true } in
      if fl.lt w.period_sec (fl.of_ℤ (pos 0)) then (started, err external) else (started, ok tt)

  -- The counts that `_serialize_and_clear_traces` hands to the builder: the traces, with the ticks
  -- of the duration that no trace has, and the period in nanoseconds.
  unfoldable pub completed : WallProfiler fl.F → ℤ → Result (Dict Trace ℕ × ℤ)
  completed w duration_ns = do
    period_ns ← fl.int (fl.mul w.period_sec (fl.of_ℤ nanos_per_sec))
    quotient ← fl.true_div duration_ns period_ns
    expected ← fl.int quotient
    let unknown_trace_count = expected -ℤ pos w.trace_count
    ok (
      (if ltb_ℤ (pos 0) unknown_trace_count
          then Dict.insert unknown_trace (pos_part unknown_trace_count) w.traces
          else w.traces),
      period_ns,
    )

  module _ (codec : Codec) where
    unfoldable pub serialize_and_clear_traces :
        WallProfiler fl.F → ℤ → WallProfiler fl.F × Result codec.Bytes
    serialize_and_clear_traces w duration_ns = elim (completed w duration_ns) [
      | err e ↦ (w, err e)
      | ok (traces, period_ns) ↦
          let b =
            populate_profile Builder.init traces w.profile_type "nanoseconds" period_ns
              duration_ns in
          (reset (record w { traces = traces }), ok (emit codec b))
    ]
