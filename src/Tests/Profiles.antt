-- ===== src/Tests/Profiles.antt =====
-- googlecloudprofiler/builder.py and cpu_profiler.py, on two traces.
use cloud_profiler_python.Prelude.{◌≡◌, some, [], ◌∷◌}
use cloud_profiler_python.Prelude.Int.{pos, ◌*ℤ◌}
use cloud_profiler_python.Builder.{init, populate_profile, Builder}
use cloud_profiler_python.Builder.Decode.{decode}
use cloud_profiler_python.Builder.Populate.{decode-populate_profile}
use cloud_profiler_python.Builder.WellFormed.{IsWellFormed, populate_profile-IsWellFormed}
use cloud_profiler_python.Prelude.{All, arith}
use cloud_profiler_python.Builder.Ranges.{Fits}
use cloud_profiler_python.Builder.Ranges.InRange.{EntryFits, populate_profile-Fits}
use cloud_profiler_python.Tests.{traces}

abbrev built : Builder
built = populate_profile init traces "CPU" "nanoseconds" (pos 10) (pos 1000)

decode-populate_profile_example :
    decode built.profile
    ≡ some (record {
      sample_types = ("sample", "count") ∷ ("CPU", "nanoseconds") ∷ [];
      period_type = ("CPU", "nanoseconds");
      period = pos 10;
      duration_nanos = pos 1000;
      samples =
          (("f", "a.py", pos 3) ∷ ("main", "a.py", pos 9) ∷ [], pos 2 ∷ pos 20 ∷ [])
          ∷ (("g", "a.py", pos 3) ∷ ("main", "a.py", pos 9) ∷ [], pos 1 ∷ pos 10 ∷ [])
          ∷ [];
    })
unfolding ◌*ℤ◌
decode-populate_profile_example =
    decode-populate_profile traces "CPU" "nanoseconds" (pos 10) (pos 1000)

populate_profile-IsWellFormed_example : IsWellFormed built.profile
populate_profile-IsWellFormed_example =
    populate_profile-IsWellFormed traces "CPU" "nanoseconds" (pos 10) (pos 1000)

traces-EntryFits : All (EntryFits (pos 10)) traces
unfolding ◌*ℤ◌
traces-EntryFits = omega arith

populate_profile-Fits_example : Fits built.profile
populate_profile-Fits_example =
    populate_profile-Fits traces "CPU" "nanoseconds" (pos 10) (pos 1000) (omega arith) (omega arith)
      traces-EntryFits (omega arith)
