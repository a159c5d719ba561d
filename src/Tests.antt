-- ===== src/Tests.antt =====
-- Concrete runs of the agent's code: the parameters of the model, instantiated.
pub mod Profiles
pub mod Delays
pub mod Sampling
pub mod Requests
pub mod Uploads
pub mod Starts
pub mod Threads
pub mod Native
pub mod Entries
pub mod Board
pub mod Packaging
pub mod Interpreter
use cloud_profiler_python.Prelude.{ℕ, arith, Bool, true, false, refl, some, [], ◌∷◌}
use cloud_profiler_python.Prelude.{if◌then◌else◌, ◌==◌, string_eq, ltb}
use cloud_profiler_python.Prelude.Int.{ℤ, pos}
use cloud_profiler_python.Prelude.Result.{Result, ok, err, value_error}
use cloud_profiler_python.Prelude.Dict.{Dict}
use cloud_profiler_python.Prelude.Micros.{micros, micros-IsIeee}
use cloud_profiler_python.Client.Poll.Sleeping.{IsPatient, HasLiterals}
use cloud_profiler_python.Json
use cloud_profiler_python.Json.{Json}
use cloud_profiler_python.Builder.{Trace}
use cloud_profiler_python.Builder.Proto.{Profile}
use cloud_profiler_python.Builder.Emit.{Codec, IsLossless}
use cloud_profiler_python.Backoff.{Library}
use cloud_profiler_python.Wall.{WallProfiler}
use cloud_profiler_python.Prelude.{none}
use cloud_profiler_python.Client.Upload.{Services}

-- A codec that leaves a profile as it is.
abbrev pub plain : Codec
plain = record {
  Bytes = Profile;
  serialize = λ p. p;
  compress = λ b. b;
  decompress = some;
  parse = some;
}

pub plain-IsLossless : IsLossless plain
plain-IsLossless = record { decompress-compress = λ b. refl; parse-serialize = λ p. refl }

abbrev pub traces : Dict Trace ℕ
traces =
    (("f", "a.py", pos 3) ∷ ("main", "a.py", pos 9) ∷ [], 2)
    ∷ (("g", "a.py", pos 3) ∷ ("main", "a.py", pos 9) ∷ [], 1)
    ∷ []

-- The one duration that is read here.
abbrev pub parse_duration : Json → Result (ℤ × ℤ)
parse_duration (Json.str s) = if s == "3.5s" then ok (pos 3, pos 500000000) else err value_error
parse_duration _ = err value_error

-- A draw is the upper bound or the lower one.
abbrev pub bound : ℕ → ℕ → Bool → ℕ
bound a b true = b
bound a b false = a

abbrev pub library : Library micros
library = record {
  Content = Json;
  loads = ok;
  parse_duration = parse_duration;
  Draw = Bool;
  uniform = bound;
  sleep = λ s. if ltb 9223372036000000 s then err value_error else ok tt;
}

pub patient : IsPatient micros micros-IsIeee library
patient most true number nonneg short = ground (arith, short)
patient most false number nonneg short = ground (arith, short)

pub literals : HasLiterals micros micros-IsIeee
literals = record {
  factor = omega arith;
  least_number = tt;
  least_nonneg = refl;
  most_number = tt;
  most_nonneg = refl;
  ordered = refl;
}

abbrev pub services : Services
services = record {
  Bytes = ℕ;
  parse_duration = parse_duration;
  profile = λ kind duration_ns. ok 7;
  encode = λ bytes. "Bw==";
  patch = λ name body. ok tt;
}

-- A wall-time profiler with a period of 10 milliseconds.
abbrev pub new_wall : WallProfiler ℕ
new_wall = record {
  profile_type = "wall";
  period_sec = 10000;
  traces = [];
  in_handler = false;
  started = false;
  last_sample_time = none;
  trace_count = 0;
}
