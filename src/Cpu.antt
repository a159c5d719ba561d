-- ===== src/Cpu.antt =====
-- googlecloudprofiler/cpu_profiler.py. The sampling itself is the native module `_profiler`.
use cloud_profiler_python.Prelude.{ℕ, ◌≡◌, String, some, [], ◌∷◌, map, ◌∙◌}
use cloud_profiler_python.Prelude.Int.{ℤ, pos, ◌*ℤ◌}
use cloud_profiler_python.Prelude.Dict.{Dict}
use cloud_profiler_python.Builder
use cloud_profiler_python.Builder.{Trace, populate_profile}
use cloud_profiler_python.Builder.Emit.{Codec, IsLossless, emit, read, read-emit}
use cloud_profiler_python.Builder.Populate.{decode-populate_profile}

pub record CpuProfiler : Type 0 where
  pub profile_type : String
  pub period_ms : ℤ

unfoldable pub init : ℤ → CpuProfiler
init period_ms = record { profile_type = "CPU"; period_ms = period_ms }

module _ (codec : Codec) where
  unfoldable pub build_profile : CpuProfiler → ℤ → Dict Trace ℕ → codec.Bytes
  build_profile c duration_ns traces = emit codec (
      populate_profile Builder.init traces c.profile_type "nanoseconds"
        (c.period_ms *ℤ pos 1000 *ℤ pos 1000) duration_ns)

  -- `profile_cpu` is the native function, of the duration and the period.
  unfoldable pub profile : (ℤ → ℤ → Dict Trace ℕ) → CpuProfiler → ℤ → codec.Bytes
  unfolding build_profile
  profile profile_cpu c duration_ns =
      build_profile c duration_ns (profile_cpu duration_ns c.period_ms)

  -- With a lossless codec, a reader of the bytes that `CPUProfiler(period_ms).profile` returns finds
  -- each trace that the native profiler counted, in order, with its count and the count times the
  -- period in nanoseconds, under the types `CPU` and `nanoseconds`, and the duration asked for.
  pub read-profile :
      IsLossless codec
      → (profile_cpu : ℤ → ℤ → Dict Trace ℕ) (period_ms duration_ns : ℤ)
      → read codec (profile profile_cpu (init period_ms) duration_ns)
        ≡ some (record {
          sample_types = ("sample", "count") ∷ ("CPU", "nanoseconds") ∷ [];
          period_type = ("CPU", "nanoseconds");
          period = period_ms *ℤ pos 1000 *ℤ pos 1000;
          duration_nanos = duration_ns;
          samples =
              map
                (λ (trace, count).
                  (trace, pos count ∷ (period_ms *ℤ pos 1000 *ℤ pos 1000 *ℤ pos count) ∷ []))
                (profile_cpu duration_ns period_ms);
        })
  unfolding profile init
  read-profile l profile_cpu period_ms duration_ns =
      read-emit codec l _ ∙ decode-populate_profile _ _ _ _ _
