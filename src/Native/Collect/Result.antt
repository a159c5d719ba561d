-- ===== src/Native/Collect/Result.antt =====
-- googlecloudprofiler/src/profiler.cc and _profiler.cc: what `profile_cpu` returns.
use cloud_profiler_python.Prelude.{ℕ, ◌<◌, ◌≡◌, refl, ap, ◌∙◌, true, false, some, List, ◌++◌, arith}
use cloud_profiler_python.Prelude.Dict
use cloud_profiler_python.Prelude.Dict.{Dict}
use cloud_profiler_python.Prelude.Int.{ℤ, pos}
use Prim.Native.Nat.{◌/◌}
use mathlib.Core.List.{Perm}
use cloud_profiler_python.Native.Clock.{
  Timespec, IsPoint, time_add, nanos_to_timespec, in_nanos-nanos_to_timespec, time_add_lem,
}
use cloud_profiler_python.Native.Stack.{Stack, frame_eq}
use cloud_profiler_python.Builder.{Trace}
use cloud_profiler_python.Native.Frames.{to_int}
use cloud_profiler_python.Native.Profiler
use cloud_profiler_python.Native.Profiler.{Profiler, new_profiler, flush, Event, run}
use cloud_profiler_python.Native.Profiler.Spec.{signals}
use cloud_profiler_python.Native.Profiler.Refine.{labels_of}
use cloud_profiler_python.Native.Profiler.Account.{IsSound, IsSound-append, run-Ends, run-counts}
use cloud_profiler_python.Native.Traces.{python_traces}
use cloud_profiler_python.Native.Traces.Counts.{total-python_traces}
use cloud_profiler_python.Native.Collect.{
  World, Sigprof, interval_of, flush_interval, set_sigprof_interval, start, stop, laps, finish,
  constructed, collect, profile_cpu, micros_of, period_of,
}
use cloud_profiler_python.Native.Collect.Laps.{
  IsClock, lap_nanos, laps-end, lap_events, lap_events-IsSound, run-append,
}

-- The period that `Start` hands to `setitimer`.
abbrev pub timer_of : ℕ → ℤ × ℤ
timer_of period_msec = interval_of (to_int (micros_of (period_of period_msec)))

module _ (w : World) where
  -- Everything that happens during a profile with that many laps.
  abbrev pub all_events : ℕ → List Event
  all_events n = lap_events w n 0 ++ (w.at_finish ++ w.delayed)

  finish-returns :
      (finish_line : Timespec) (s : Sigprof) (p q r : Profiler)
      → IsPoint finish_line
      → IsPoint (time_add finish_line flush_interval)
      → run w.version w.at_finish p ≡ some q
      → run w.version w.delayed q ≡ some r
      → finish w finish_line s p
        ≡ some (
          (python_traces w.order w.interp (flush r).0).0,
          stop w s,
          some (python_traces w.order w.interp (flush r).0).1,
        )
  unfolding finish
  finish-returns finish_line s p q r point point' ran ran' = ground (arith, ran, ran')

  flush-unknown : (p : Profiler) → (flush p).0.unknown_stack_count ≡ p.unknown_stack_count
  unfolding flush
  flush-unknown p = refl

  reset-constructed : (before : Profiler) → Profiler.reset (constructed before) ≡ new_profiler
  unfolding Profiler.reset constructed
  reset-constructed before = refl

  -- The assumptions on what the profile runs in: the clock and the order of the map behave as documented,
  -- the timer can be set and switched off, the walks of the signals end with a frame at least, and the
  -- point in time of the finish line, with the delay as well, is one.
  pub record IsFair (duration_nanos period_msec : ℕ) : Type 0 where
    pub clock : IsClock w.reading
    pub same_traces : (d : Dict Stack ℕ) → Perm (w.order d) d
    pub timer_set : w.setitimer (timer_of period_msec) ≡ true
    pub timer_off : w.setitimer (pos 0, pos 0) ≡ true
    pub during : (k : ℕ) → IsSound w.version (w.during k)
    pub at_finish : IsSound w.version w.at_finish
    pub delayed : IsSound w.version w.delayed
    pub finish_line : IsPoint (time_add (w.reading 0) (nanos_to_timespec duration_nanos))
    pub delay :
        IsPoint
          (time_add (time_add (w.reading 0) (nanos_to_timespec duration_nanos)) flush_interval)

  stop-off :
      (s : Sigprof)
      → w.setitimer (pos 0, pos 0) ≡ true
      → stop w s ≡ record { interval = (pos 0, pos 0); handled = false }
  unfolding stop set_sigprof_interval
  stop-off s off = ground (arith, off)

  collect-finish :
      (rounds duration_nanos period_msec : ℕ) (s : Sigprof) (before : Profiler) {q : Profiler}
      → w.setitimer (timer_of period_msec) ≡ true
      → laps w (time_add (w.reading 0) (nanos_to_timespec duration_nanos)) rounds 0 new_profiler
        ≡ some q
      → profile_cpu w rounds duration_nanos period_msec s before
        ≡ finish w
            (time_add (w.reading 0) (nanos_to_timespec duration_nanos))
            (record { interval = timer_of period_msec; handled = true })
            q
  unfolding profile_cpu collect start set_sigprof_interval
  collect-finish rounds duration_nanos period_msec s before set lapped =
      ground (arith, set, reset-constructed before, lapped)

  -- Where the clock and the timer work as documented, the walk of each signal ends with a frame at least,
  -- and the finish line and the end of the delay after it are points in time (`IsFair`), and whatever
  -- earlier profiles have left behind: `profile_cpu` returns, after less laps than there are rounds, which
  -- need only be more than the tenths of a second of the duration. The timer is then off, its signal
  -- ignored, and the counts of the profile add up to the number of signals that were handled since it
  -- began.
  pub profile_cpu-counts_signals :
      (rounds duration_nanos period_msec : ℕ) (s : Sigprof) (before : Profiler)
      → IsFair duration_nanos period_msec
      → duration_nanos / lap_nanos < rounds
      → (n : ℕ) × (n < rounds)
        × (p : Profiler) × (traces : Dict Trace ℕ) × (profile_cpu w rounds duration_nanos
              period_msec s before
            ≡ some (p, record { interval = (pos 0, pos 0); handled = false }, some traces))
        × (Dict.total traces ≡ signals (labels_of w.version (all_events n)))
  profile_cpu-counts_signals rounds duration_nanos period_msec s before fair enough =
      let line : Timespec = time_add (w.reading 0) (nanos_to_timespec duration_nanos) in
      let span = in_nanos-nanos_to_timespec duration_nanos in
      let sum =
        (time_add_lem (w.reading 0) (nanos_to_timespec duration_nanos) (fair.clock.points 0)
          span.1).0 in
      let (n, fewer, p, lapped, ran) =
        laps-end w line rounds 0 new_profiler fair.finish_line fair.clock fair.during
          (omega (arith, enough)) (omega (arith, sum, span.0, fair.clock.first, enough)) in
      let (q, ran_q) = run-Ends w.version w.at_finish p fair.at_finish.ends in
      let (r, ran_r) = run-Ends w.version w.delayed q fair.delayed.ends in
      let whole : run w.version (all_events n) new_profiler ≡ some r =
        run-append w.version (lap_events w n 0) (w.at_finish ++ w.delayed) new_profiler ran
        ∙ (run-append w.version w.at_finish w.delayed p ran_q ∙ ran_r) in
      let sound =
        IsSound-append w.version (lap_events w n 0) (w.at_finish ++ w.delayed)
          (lap_events-IsSound w n 0 fair.during)
          (IsSound-append w.version w.at_finish w.delayed fair.at_finish fair.delayed) in
      let shown = python_traces w.order w.interp (flush r).0 in
      let timer : Sigprof = record { interval = timer_of period_msec; handled = true } in
      (
        n,
        fewer,
        shown.0,
        shown.1,
        collect-finish rounds duration_nanos period_msec s before fair.timer_set lapped
            ∙ (finish-returns line timer p q r fair.finish_line fair.delay ran_q ran_r
                ∙ ap (λ off. some (shown.0, off, some shown.1)) (stop-off timer fair.timer_off)),
        omega (
          arith,
          total-python_traces w.order fair.same_traces w.interp (flush r).0,
          run-counts w.version (all_events n) r whole sound.have_frames,
          flush-unknown r,
        ),
      )
