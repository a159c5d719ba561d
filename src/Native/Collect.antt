-- ===== src/Native/Collect.antt =====
-- googlecloudprofiler/src/profiler.cc and _profiler.cc: `SignalHandler`, `CPUProfiler` and `profile_cpu`.
-- The clock's readings, what happens between them, and the answers of `setitimer` are parameters.
pub mod Laps
pub mod Result
pub mod Hangs
pub mod Report
pub mod Period
use cloud_profiler_python.Prelude.{
  ℕ, zero, suc, ◌+◌, ◌*◌, Bool, true, false, Option, none, some, List, [],
}
use cloud_profiler_python.Prelude.{if◌then◌else◌, ltb}
use cloud_profiler_python.Prelude.Int.{ℤ, pos, negsuc, ◌-ℤ◌}
use cloud_profiler_python.Prelude.Dict.{Dict}
use Prim.Native.Nat.{◌-◌, ◌/◌, ◌%◌, ◌^◌}
use cloud_profiler_python.Builder.{Trace}
use cloud_profiler_python.Native.Clock.{
  Timespec, time_add, time_less_than, nanos_to_timespec, nanos_per_second, micros_per_second,
  nanos_per_milli,
}
use cloud_profiler_python.Native.Stack.{Stack}
use cloud_profiler_python.Native.Frames.{Version, to_int}
use cloud_profiler_python.Native.Code.{Interpreter}
use cloud_profiler_python.Native.Profiler.{Profiler, reset, flush, Event, run}
use cloud_profiler_python.Native.Traces.{python_traces}

-- The process's profiling timer, in seconds and microseconds, and whether `Handle` takes its signal.
pub record Sigprof : Type 0 where
  pub interval : ℤ × ℤ
  pub handled : Bool

-- `reading k` is what the clock shows when it is read for the k-th time, `during k` what happens in the
-- k-th sleep of a lap, `at_finish` up to the finish line, and `delayed` in the delay after it.
pub record World : Type 0 where
  pub version : Version
  pub setitimer : ℤ × ℤ → Bool
  pub reading : ℕ → Timespec
  pub during : ℕ → List Event
  pub at_finish : List Event
  pub delayed : List Event
  pub order : Dict Stack ℕ → Dict Stack ℕ
  pub interp : Interpreter

-- The quotient and the remainder of C, which go towards zero.
abbrev pub interval_of : ℤ → ℤ × ℤ
interval_of (pos n) = (pos (n / micros_per_second), pos (n % micros_per_second))
interval_of (negsuc n) =
    (pos 0 -ℤ pos ((n + 1) / micros_per_second), pos 0 -ℤ pos ((n + 1) % micros_per_second))

-- `SetSigprofInterval`
unfoldable pub set_sigprof_interval : World → ℤ → Sigprof → Sigprof × Bool
set_sigprof_interval w period_usec s =
    if w.setitimer (interval_of period_usec)
    then (record s { interval = interval_of period_usec }, true)
    else (s, false)

-- `period_nanos_ / 1000`
unfoldable pub micros_of : ℤ → ℤ
micros_of (pos n) = pos (n / 1000)
micros_of (negsuc n) = pos 0 -ℤ pos ((n + 1) / 1000)

-- `Start`; the period becomes an `int`.
unfoldable pub start : World → ℤ → Sigprof → Sigprof × Bool
start w period_nanos s = set_sigprof_interval w (to_int (micros_of period_nanos)) s

-- `Stop`
unfoldable pub stop : World → Sigprof → Sigprof
stop w s = record (set_sigprof_interval w (pos 0) s).0 { handled = false }

abbrev pub flush_interval : Timespec
flush_interval = record { sec = 0; nsec = 100 * 1000 * 1000 }

-- `AlmostThere`, at that reading of the clock
unfoldable pub almost_there : Timespec → Timespec → Timespec → Bool
almost_there finish lap now =
    time_less_than finish (time_add now (record { sec = lap.sec * 2; nsec = lap.nsec * 2 }))

-- `SleepUntil` and what follows: `clock_nanosleep` returns `EINVAL` for nanoseconds of a second or more,
-- and then the loop does not end.
abbrev pub sleep_until : {A : Type 0} → Timespec → Option A → Option A
sleep_until ts rest = if ltb ts.nsec nanos_per_second then rest else none

-- The loop of `Collect`, with that many rounds left; `none` is a loop that still runs after them.
unfoldable pub laps : World → Timespec → ℕ → ℕ → Profiler → Option Profiler
laps w finish_line zero k p = none
laps w finish_line (suc rounds) k p =
    elim (almost_there finish_line flush_interval (w.reading (k + 1))) [
      | true ↦ some p
      | false ↦ elim (run w.version (w.during k) p) [
        | none ↦ none
        | some q ↦ laps w finish_line rounds (k + 1) (flush q).0
      ]
    ]

-- `Collect` after its loop
unfoldable pub finish :
    World → Timespec → Sigprof → Profiler → Option (Profiler × Sigprof × Option (Dict Trace ℕ))
finish w finish_line s p = sleep_until finish_line (elim (run w.version w.at_finish p) [
  | none ↦ none
  | some q ↦ sleep_until (time_add finish_line flush_interval) (elim (run w.version w.delayed q) [
    | none ↦ none
    | some r ↦
        let (r', traces) = python_traces w.order w.interp (flush r).0 in
        some (r', stop w s, some traces)
  ])
])

-- `Collect`: `none` where it does not return, and no traces where it returns `nullptr`.
unfoldable pub collect :
    World → ℕ → ℕ → ℤ → Profiler → Sigprof → Option (Profiler × Sigprof × Option (Dict Trace ℕ))
collect w rounds duration_nanos period_nanos p s =
    let p' = reset p in
    let (s', started) = start w period_nanos (record s { handled = true }) in
    let finish_line = time_add (w.reading 0) (nanos_to_timespec duration_nanos) in
    elim started [
      | false ↦ some (p', s', none)
      | true ↦ elim (laps w finish_line rounds 0 p') [
        | none ↦ none
        | some q ↦ finish w finish_line s' q
      ]
    ]

-- The constructor of `CPUProfiler`: the fixed table, the count of unknown stacks and the recorded code are
-- static, and hold what earlier profiles have left in them.
unfoldable pub constructed : Profiler → Profiler
constructed before = reset (record before { aggregated_traces = [] })

-- What a `uint64_t` is as an `int64_t`.
unfoldable pub to_int64 : ℕ → ℤ
to_int64 w = if ltb w (2 ^ 63) then pos w else negsuc (2 ^ 64 - w - 1)

-- `period_msec * kNanosPerMilli`, as the constructor of `CPUProfiler` takes it.
unfoldable pub period_of : ℕ → ℤ
period_of period_msec = to_int64 (period_msec * nanos_per_milli % 2 ^ 64)

-- `ProfileCPU`, behind the parsing of its arguments, for a duration that is not negative
unfoldable pub profile_cpu :
    World → ℕ → ℕ → ℕ → Sigprof → Profiler → Option (Profiler × Sigprof × Option (Dict Trace ℕ))
profile_cpu w rounds duration_nanos period_msec s before =
    collect w rounds duration_nanos (period_of period_msec) (constructed before)
      (record s { handled = true })
