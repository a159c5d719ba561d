-- ===== src/Client/Upload/Report.antt =====
-- googlecloudprofiler/client.py with cpu_profiler.py and src/profiler.cc: from the signals to the profile
-- that is uploaded.
use cloud_profiler_python.Prelude.{
  ℕ, ◌+◌, ◌*◌, ◌<◌, ◌≡◌, ap, true, Option, none, some, List, [], ◌∷◌, String, arith,
}
use cloud_profiler_python.Prelude.{string_eq, ◌==◌, if◌then◌else◌, contains}
use cloud_profiler_python.Prelude.Dict
use cloud_profiler_python.Prelude.Dict.{Dict}
use cloud_profiler_python.Prelude.Int.{ℤ, pos, pos_part, ◌*ℤ◌, ◌+ℤ◌}
use cloud_profiler_python.Prelude.Result.{Result, ok, err, external}
use cloud_profiler_python.Json.{Json}
use Prim.Native.Nat.{◌/◌}
use mathlib.Core.Path.{subst}
use cloud_profiler_python.Builder.{Trace}
use cloud_profiler_python.Builder.Decode.{Contents}
use cloud_profiler_python.Builder.Emit.{Codec, IsLossless, read}
use cloud_profiler_python.Cpu
use cloud_profiler_python.Native.Profiler.{Profiler}
use cloud_profiler_python.Native.Profiler.Spec.{signals}
use cloud_profiler_python.Native.Profiler.Refine.{labels_of}
use cloud_profiler_python.Native.Collect.{World, Sigprof, profile_cpu}
use cloud_profiler_python.Native.Collect.Laps.{lap_nanos}
use cloud_profiler_python.Native.Collect.Result.{IsFair, all_events}
use cloud_profiler_python.Native.Collect.Report.{sample_count, profile-counts_signals}
use cloud_profiler_python.Client.Upload.{
  Profile, Services, profiled, patched, collect_and_upload_profile,
}
use cloud_profiler_python.Client.Upload.Safety.{collect_and_upload_profile-uploads}

-- What surrounds the client of a process: the native profiler's world with the laps that it may run and
-- the period asked for, `base64`, the parsing of durations, the upload, and its other profilers.
pub record Process (codec : Codec) : Type 0 where
  pub world : World
  pub rounds : ℕ
  pub period_msec : ℕ
  pub timer : Sigprof
  pub before : Profiler
  pub encode : codec.Bytes → String
  pub decode : String → Option codec.Bytes
  pub parse_duration : Json → Result (ℤ × ℤ)
  pub patch : Json → Profile → Result (Unit {0})
  pub others : String → ℤ → Result codec.Bytes

module _ (codec : Codec) (h : Process codec) where
  abbrev cpu_profile : ℤ → Option (Profiler × Sigprof × Option (Dict Trace ℕ)) → Result codec.Bytes
  cpu_profile duration_ns none = err external
  cpu_profile duration_ns (some (p, s, none)) = err external
  cpu_profile duration_ns (some (p, s, some traces)) =
      ok (Cpu.profile codec (λ d m. traces) (Cpu.init (pos h.period_msec)) duration_ns)

  -- The profilers of the client: the one for the CPU is the native one. Where `profile_cpu` returns no
  -- traces or does not return at all, there are no bytes.
  abbrev pub profile : String → ℤ → Result codec.Bytes
  profile kind duration_ns =
      if kind == "CPU"
      then cpu_profile duration_ns
          (profile_cpu h.world h.rounds (pos_part duration_ns) h.period_msec h.timer h.before)
      else h.others kind duration_ns

  abbrev pub services : Services
  services = record {
    Bytes = codec.Bytes;
    parse_duration = h.parse_duration;
    profile = profile;
    encode = h.encode;
    patch = h.patch;
  }

  to_nanos :
      (seconds nanos : ℕ)
      → pos seconds *ℤ pos 1000000000 +ℤ pos nanos ≡ pos (seconds * 1000000000 + nanos)
  unfolding ◌*ℤ◌ ◌+ℤ◌
  to_nanos seconds nanos = ground arith

  -- For a profile of type `CPU` with a duration that parses to that many seconds and nanoseconds and a
  -- name, where the client profiles the CPU, the codec is lossless and `decode` undoes `encode` on the
  -- bytes of the profile, the conditions of the native profiler are fair (`IsFair`) and it may run more
  -- laps than the duration has tenths of a second: the client profiles once and uploads the profile once, under its name, with a
  -- text under `profileBytes` that decodes to bytes in which a reader finds samples whose counts add up
  -- to the number of signals that were handled.
  pub collect_and_upload_profile-counts_signals :
      IsLossless codec
      → (types : List String) (job : Profile) (duration name : Json) (seconds nanos : ℕ)
      → Dict.get job "profileType" ≡ some (Json.str "CPU")
      → contains types "CPU" ≡ true
      → Dict.get job "duration" ≡ some duration
      → h.parse_duration duration ≡ ok (pos seconds, pos nanos)
      → Dict.get job "name" ≡ some name
      → IsFair h.world (seconds * 1000000000 + nanos) h.period_msec
      → (seconds * 1000000000 + nanos) / lap_nanos < h.rounds
      → ((bytes : codec.Bytes)
          → profile "CPU" (pos (seconds * 1000000000 + nanos)) ≡ ok bytes
          → h.decode (h.encode bytes) ≡ some bytes)
      → (n : ℕ) × (text : String) × (bytes : codec.Bytes) × (contents : Contents)
        × (collect_and_upload_profile services types job ≡ (
          profiled "CPU" (pos (seconds * 1000000000 + nanos))
              ∷ patched name (Dict.insert "profileBytes" (Json.str text) job)
              ∷ [],
          ok tt,
        ))
        × (h.decode text ≡ some bytes)
        × (read codec bytes ≡ some contents)
        × (sample_count contents.samples
            ≡ signals (labels_of h.world.version (all_events h.world n)))
  collect_and_upload_profile-counts_signals l types job duration name seconds nanos typed listed
        timed parsed named fair enough undone =
      let total : ℕ = seconds * 1000000000 + nanos in
      let (n, p, traces, contents, returned, found, duration_is, period_is, counted) =
        profile-counts_signals h.world codec l h.rounds total h.period_msec h.timer h.before fair
          enough in
      let bytes = Cpu.profile codec (λ d m. traces) (Cpu.init (pos h.period_msec)) (pos total) in
      (
        n,
        h.encode bytes,
        bytes,
        contents,
        subst
            (λ d.
              services.profile "CPU" d ≡ ok bytes
              → collect_and_upload_profile services types job ≡ (
                profiled "CPU" d
                    ∷ patched name (Dict.insert "profileBytes" (Json.str (h.encode bytes)) job)
                    ∷ [],
                ok tt,
              ))
            (to_nanos seconds nanos)
            (λ ran.
              collect_and_upload_profile-uploads services types job "CPU" duration name
                (pos seconds) (pos nanos) bytes typed listed timed parsed ran named)
            (ap (cpu_profile (pos total)) returned),
        undone bytes (ap (cpu_profile (pos total)) returned),
        found,
        counted,
      )
