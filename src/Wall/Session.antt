-- ===== src/Wall/Session.antt =====
-- googlecloudprofiler/pythonprofiler.py: a run of `profile`, with the signals that arrive in it.
use cloud_profiler_python.Prelude.{Option, none, some, List, [], ◌∷◌, false}
use cloud_profiler_python.Prelude.{nat_eq, string_eq, list_eq, if◌then◌else◌}
use cloud_profiler_python.Prelude.Int.{ℤ, pos}
use cloud_profiler_python.Prelude.Result.{Result, ok, err}
use cloud_profiler_python.Prelude.Float.{Float}
use cloud_profiler_python.Builder.{Frame, frame_eq}
use cloud_profiler_python.Builder.Emit.{Codec}
use cloud_profiler_python.Wall.{
  WallProfiler, nanos_per_sec, reset, handler, start_profiling, serialize_and_clear_traces,
}

module _ (fl : Float) where
  -- The signals that arrive while the profiling thread sleeps, each with the time at which its handler
  -- reads the clock and the stack that it finds. A handler runs to its end before the next step; what
  -- it raises is raised in the main thread.
  unfoldable pub deliver : WallProfiler fl.F → List (fl.F × List Frame) → WallProfiler fl.F
  deliver w [] = w
  deliver w ((now, stack) ∷ signals) = deliver (handler fl w now stack).0 signals

  -- The loop of `profile`. A round is the signals from the setting of the timer to the end of the sleep
  -- that follows, and the clock behind it. Where the loop ends, no sleep follows: the signals are those
  -- that arrive between the last setting of the timer and `_started = False`. `none` means that the loop
  -- still runs when the rounds are used up.
  unfoldable pub sampling :
      fl.F
      → WallProfiler fl.F
      → fl.F
      → List (List (fl.F × List Frame) × fl.F)
      → Option (WallProfiler fl.F)
  sampling target w duration [] = if fl.lt (fl.of_ℤ (pos 0)) duration then none else some w
  sampling target w duration ((signals, now) ∷ rounds) =
      let w₁ = deliver w signals in
      let rest =
        sampling target (record w₁ { last_sample_time = none }) (fl.sub target now) rounds in
      if fl.lt (fl.of_ℤ (pos 0)) duration then rest else some w₁

  -- `_stop_profiling`, with the signals that arrive behind `_started = False`. Nothing but the handler resets its flag,
  -- so `none`, a wait without end, is what a flag means that a handler has left set.
  unfoldable pub stop_profiling :
      WallProfiler fl.F → List (fl.F × List Frame) → Option (WallProfiler fl.F)
  stop_profiling w late =
      let stopped = deliver (record w { started = false }) late in
      if stopped.in_handler then none else some stopped

  module _ (codec : Codec) where
    abbrev pub finish :
        ℤ → Option (WallProfiler fl.F) → Option (WallProfiler fl.F × Result codec.Bytes)
    finish duration_ns none = none
    finish duration_ns (some w) = some (serialize_and_clear_traces fl codec w duration_ns)

    abbrev pub stop_and_finish :
        ℤ
        → List (fl.F × List Frame)
        → Option (WallProfiler fl.F)
        → Option (WallProfiler fl.F × Result codec.Bytes)
    stop_and_finish duration_ns late none = none
    stop_and_finish duration_ns late (some w) = finish duration_ns (stop_profiling w late)

    abbrev pub run_started :
        ℤ
        → fl.F
        → fl.F
        → List (List (fl.F × List Frame) × fl.F)
        → List (fl.F × List Frame)
        → WallProfiler fl.F × Result (Unit {0})
        → Option (WallProfiler fl.F × Result codec.Bytes)
    run_started duration_ns target duration rounds late (w, err e) = some (w, err e)
    run_started duration_ns target duration rounds late (w, ok _) =
        stop_and_finish duration_ns late (sampling target w duration rounds)

    -- `profile`; `now` is the clock before the first sleep.
    unfoldable pub profile :
        WallProfiler fl.F
        → ℤ
        → fl.F
        → List (List (fl.F × List Frame) × fl.F)
        → List (fl.F × List Frame)
        → Option (WallProfiler fl.F × Result codec.Bytes)
    profile w duration_ns now rounds late =
        elim (fl.div (fl.of_ℤ duration_ns) (fl.of_ℤ nanos_per_sec)) [
          | err e ↦ some (reset w, err e)
          | ok duration ↦
              run_started duration_ns (fl.add now duration) duration rounds late
                (start_profiling fl (reset w))
        ]
