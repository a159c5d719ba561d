-- ===== src/Client/Upload.antt =====
-- googlecloudprofiler/client.py: `_collect_and_upload_profile`. A profile is the dictionary that the
-- server's response decodes to.
pub mod Safety
pub mod Report
use cloud_profiler_python.Prelude.{◌*◌, Option, none, some, List, [], ◌∷◌, String}
use cloud_profiler_python.Prelude.{nat_eq, string_eq, if◌then◌else◌, contains}
use cloud_profiler_python.Prelude.Int.{ℤ, pos, ◌*ℤ◌, ◌+ℤ◌}
use cloud_profiler_python.Prelude.Result.{
  Result, ok, err, ◌>>=◌, or_raise, type_error, key_error, unbound_local_error,
}
use cloud_profiler_python.Json
use cloud_profiler_python.Json.{Json}
use cloud_profiler_python.Prelude.Dict
use cloud_profiler_python.Prelude.Dict.{Dict}
use cloud_profiler_python.Backoff

abbrev pub Profile : Type 0
Profile = Dict String Json

abbrev pub nanos_per_sec : ℤ
nanos_per_sec = pos (1000 * 1000 * 1000)

-- What `_collect_and_upload_profile` calls, each taken to return or to raise: the parsing of a duration,
-- the profilers by their type,
-- `base64.b64encode(…).decode('UTF-8')`, and the request that uploads a profile.
pub record Services : Type 1 where
  pub Bytes : Type 0
  pub parse_duration : Json → Result (ℤ × ℤ)
  pub profile : String → ℤ → Result Bytes
  pub encode : Bytes → String
  pub patch : Json → Profile → Result (Unit {0})

-- The calls that leave the agent.
pub data Event : Type 0 where
  profiled : String → ℤ → Event
  patched : Json → Profile → Event

-- `profile_type in self._profilers`: a list or a dictionary cannot be hashed.
unfoldable pub find_type : List String → Json → Result (Option String)
find_type types (Json.str kind) = ok (if contains types kind then some kind else none)
find_type types (Json.arr _) = err type_error
find_type types (Json.obj _) = err type_error
find_type types _ = ok none

module _ (services : Services) where
  open services use {Bytes, parse_duration, encode, patch}

  -- The upload, with the bytes of the profiler.
  unfoldable pub upload : Profile → Bytes → List Event × Result (Unit {0})
  upload profile bytes =
      let body = Dict.insert "profileBytes" (Json.str (encode bytes)) profile in
      elim (Dict.get body "name") [
        | none ↦ ([], err key_error)
        | some name ↦ (patched name body ∷ [], patch name body)
      ]

  -- The part of the `try` behind the test of the type.
  unfoldable pub collect : String → Profile → List Event × Result (Unit {0})
  collect kind profile =
      elim (or_raise key_error (Dict.get profile "duration") >>= parse_duration) [
        | err e ↦ ([], err e)
        | ok (seconds, nanos) ↦
            let duration_ns = seconds *ℤ nanos_per_sec +ℤ nanos in
            elim (services.profile kind duration_ns) [
              | err e ↦ (profiled kind duration_ns ∷ [], err e)
              | ok bytes ↦
                  let (events, result) = upload profile bytes in
                  (profiled kind duration_ns ∷ events, result)
            ]
      ]

  -- The body of the `try` once `profile_type` is bound.
  unfoldable pub try_body : List String → Json → Profile → List Event × Result (Unit {0})
  try_body types profile_type profile = elim (find_type types profile_type) [
    | err e ↦ ([], err e)
    | ok found ↦ elim found [ none ↦ ([], ok tt) | some kind ↦ collect kind profile ]
  ]

  -- The handler of the `try` logs `profile_type`, which is not bound where its own look-up has failed.
  abbrev pub recover : Option Json → List Event × Result (Unit {0}) → List Event × Result (Unit {0})
  recover profile_type (events, ok _) = (events, ok tt)
  recover (some profile_type) (events, err e) = (events, ok tt)
  recover none (events, err e) = (events, err unbound_local_error)

  -- `types` are the keys of `self._profilers`.
  unfoldable pub collect_and_upload_profile : List String → Profile → List Event × Result (Unit {0})
  collect_and_upload_profile types profile = elim (Dict.get profile "profileType") [
    | none ↦ recover none ([], err key_error)
    | some profile_type ↦ recover (some profile_type) (try_body types profile_type profile)
  ]
