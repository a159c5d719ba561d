-- ===== src/Builder/Emit.antt =====
-- googlecloudprofiler/builder.py: `emit`. The serialisation of a profile and gzip are libraries.
use cloud_profiler_python.Prelude.{◌≡◌, Option, some}
use cloud_profiler_python.Builder.{Builder}
use cloud_profiler_python.Builder.Proto.{Profile}
use cloud_profiler_python.Builder.Decode.{Contents, decode, ◌>>=◌}

-- `SerializeToString` and `gzip.GzipFile`, beside what a reader does.
pub record Codec : Type 1 where
  pub Bytes : Type 0
  pub serialize : Profile → Bytes
  pub compress : Bytes → Bytes
  pub decompress : Bytes → Option Bytes
  pub parse : Bytes → Option Profile

-- Both round trips are documented.
pub record IsLossless (codec : Codec) : Type 0 where
  pub decompress-compress : (b : codec.Bytes) → codec.decompress (codec.compress b) ≡ some b
  pub parse-serialize : (p : Profile) → codec.parse (codec.serialize p) ≡ some p

module _ (codec : Codec) where
  unfoldable pub emit : Builder → codec.Bytes
  emit b = codec.compress (codec.serialize b.profile)

  -- What a reader finds in the bytes of a profile.
  unfoldable pub read : codec.Bytes → Option Contents
  read bytes = do raw ← codec.decompress bytes; p ← codec.parse raw; decode p

  pub read-emit : IsLossless codec → (b : Builder) → read (emit b) ≡ decode b.profile
  unfolding read emit
  read-emit l b = rw (l.decompress-compress, l.parse-serialize)
