-- ===== src/Native/Collect/Hangs.antt =====
-- googlecloudprofiler/src/profiler.cc: a finish line that is no point in time.
use cloud_profiler_python.Prelude.{ℕ, ◌+◌, ◌≡◌, true, false, none, some, arith, inl, inr}
use cloud_profiler_python.Prelude.{ltb, Option-cases}
use Prim.Native.Nat.{◌%◌}
use cloud_profiler_python.Native.Clock.{Timespec, time_add, nanos_to_timespec, nanos_per_second}
use cloud_profiler_python.Native.Profiler
use cloud_profiler_python.Native.Profiler.{Profiler}
use cloud_profiler_python.Native.Collect.{
  World, Sigprof, laps, finish, collect, constructed, profile_cpu, start, set_sigprof_interval,
}
use cloud_profiler_python.Native.Collect.Result.{timer_of}

module _ (w : World) where
  started-endless :
      (line : Timespec) (rounds : ℕ) (s : Sigprof) (p : Profiler)
      → ltb line.nsec nanos_per_second ≡ false
      → (elim (laps w line rounds 0 p) [ none ↦ none | some q ↦ finish w line s q ]) ≡ none
  unfolding finish
  started-endless line rounds s p late = elim (Option-cases (laps w line rounds 0 p)) [
    | inl running ↦ ground (arith, running)
    | inr (q, lapped) ↦ ground (arith, lapped, late)
  ]

  -- If the timer can be set and the nanoseconds of the clock, when it is read first, and those of the
  -- duration add up to exactly a second, then `profile_cpu` does not return, however many laps it may run.
  pub profile_cpu-endless :
      (rounds duration_nanos period_msec : ℕ) (s : Sigprof) (before : Profiler)
      → w.setitimer (timer_of period_msec) ≡ true
      → (w.reading 0).nsec + duration_nanos % nanos_per_second ≡ nanos_per_second
      → profile_cpu w rounds duration_nanos period_msec s before ≡ none
  unfolding profile_cpu collect start set_sigprof_interval time_add nanos_to_timespec
  profile_cpu-endless rounds duration_nanos period_msec s before set second =
      let line : Timespec = time_add (w.reading 0) (nanos_to_timespec duration_nanos) in
      let late : ltb line.nsec nanos_per_second ≡ false = ground (arith, second) in
      ground (
        arith,
        set,
        started-endless line rounds (record { interval = timer_of period_msec; handled = true })
            (Profiler.reset (constructed before)) late,
      )
