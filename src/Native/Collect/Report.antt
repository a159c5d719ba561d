-- ===== src/Native/Collect/Report.antt =====
-- googlecloudprofiler/cpu_profiler.py with src/profiler.cc: from the signals to the bytes of the profile.
use cloud_profiler_python.Prelude.{ℕ, ◌+◌, ◌<◌, ◌≡◌, refl, ap, ◌∙◌, false, some, List, [], ◌∷◌, map}
use cloud_profiler_python.Prelude.Dict
use cloud_profiler_python.Prelude.Dict.{Dict}
use cloud_profiler_python.Prelude.Int.{ℤ, pos, pos_part, ◌*ℤ◌}
use Prim.Native.Nat.{◌/◌}
use cloud_profiler_python.Builder.{Trace}
use cloud_profiler_python.Builder.Decode.{Contents}
use cloud_profiler_python.Builder.Emit.{Codec, IsLossless, read}
use cloud_profiler_python.Cpu
use cloud_profiler_python.Cpu.{read-profile}
use cloud_profiler_python.Native.Profiler.{Profiler}
use cloud_profiler_python.Native.Profiler.Spec.{signals}
use cloud_profiler_python.Native.Profiler.Refine.{labels_of}
use cloud_profiler_python.Native.Collect.{World, Sigprof, profile_cpu}
use cloud_profiler_python.Native.Collect.Laps.{lap_nanos}
use cloud_profiler_python.Native.Collect.Result.{IsFair, all_events, profile_cpu-counts_signals}

-- The sum of the first values of the samples.
abbrev pub sample_count : List (Trace × List ℤ) → ℕ
sample_count [] = 0
sample_count ((trace, []) ∷ samples) = sample_count samples
sample_count ((trace, count ∷ values) ∷ samples) = pos_part count + sample_count samples

sample_count-total :
    (period : ℤ) (traces : Dict Trace ℕ)
    → sample_count (map (λ (trace, count). (trace, pos count ∷ (period *ℤ pos count) ∷ [])) traces)
      ≡ Dict.total traces
sample_count-total period [] = refl
sample_count-total period ((trace, count) ∷ traces) =
    ap (◌+◌ count) (sample_count-total period traces)

module _ (w : World) (codec : Codec) where
  -- Where the clock and the timer work as documented, the walk of each signal ends with a frame at least,
  -- and the finish line and the end of the delay after it are points in time (`IsFair`), with more rounds
  -- than the tenths of a second of the duration and a lossless codec: a reader of the bytes that
  -- `CPUProfiler.profile` makes of what `profile_cpu` returns finds samples whose counts add up to the
  -- number of signals that were handled, with the duration and the period asked for.
  pub profile-counts_signals :
      IsLossless codec
      → (rounds duration_nanos period_msec : ℕ) (s : Sigprof) (before : Profiler)
      → IsFair w duration_nanos period_msec
      → duration_nanos / lap_nanos < rounds
      → (n : ℕ) × (p : Profiler) × (traces : Dict Trace ℕ) × (found : Contents) × (profile_cpu w
            rounds duration_nanos period_msec s before
          ≡ some (p, record { interval = (pos 0, pos 0); handled = false }, some traces))
        × (read codec
              (Cpu.profile codec (λ d m. traces) (Cpu.init (pos period_msec)) (pos duration_nanos))
            ≡ some found)
        × (found.duration_nanos ≡ pos duration_nanos)
        × (found.period ≡ pos period_msec *ℤ pos 1000 *ℤ pos 1000)
        × (sample_count found.samples ≡ signals (labels_of w.version (all_events w n)))
  profile-counts_signals l rounds duration_nanos period_msec s before fair enough =
      let (n, fewer, p, traces, returned, counted) =
        profile_cpu-counts_signals w rounds duration_nanos period_msec s before fair enough in
      let period : ℤ = pos period_msec *ℤ pos 1000 *ℤ pos 1000 in
      (
        n,
        p,
        traces,
        _,
        returned,
        read-profile codec l (λ d m. traces) (pos period_msec) (pos duration_nanos),
        refl,
        refl,
        sample_count-total period traces ∙ counted,
      )
