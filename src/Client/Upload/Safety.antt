-- ===== src/Client/Upload/Safety.antt =====
-- googlecloudprofiler/client.py: when `_collect_and_upload_profile` raises, and what it uploads.
use cloud_profiler_python.Prelude.{
  ◌≡◌, refl, Option, none, some, List, [], ◌∷◌, arith, true, inl, inr, ◌↔◌, String,
}
use cloud_profiler_python.Prelude.{
  nat_eq, string_eq, contains, Bool-cases, Option-cases, eq_iff, All,
}
use cloud_profiler_python.Prelude.Int.{ℤ, pos, ◌*ℤ◌, ◌+ℤ◌}
use cloud_profiler_python.Prelude.Result.{
  Result, ok, err, ◌>>=◌, or_raise, key_error, unbound_local_error, Result-cases,
}
use cloud_profiler_python.Json.{Json}
use cloud_profiler_python.Prelude.Dict
use cloud_profiler_python.Prelude.Dict.{Dict}
use cloud_profiler_python.Client.Upload.{
  Profile, nanos_per_sec, Services, Event, profiled, patched, find_type, upload, collect, try_body,
  collect_and_upload_profile, recover,
}

-- What an event may be: only a type that the client profiles is profiled, and what is uploaded is
-- the profile under its own name, with nothing changed but the key `profileBytes`.
abbrev pub IsAllowed : List String → Profile → Event → Type 0
IsAllowed types profile (profiled kind duration_ns) =
    (contains types kind ≡ true) × (Dict.get profile "profileType" ≡ some (Json.str kind))
IsAllowed types profile (patched name body) =
    (Dict.get body "name" ≡ some name)
    × ((text : String) × (body ≡ Dict.insert "profileBytes" (Json.str text) profile))

module _ (services : Services) (types : List String) (profile : Profile) where
  -- Where the libraries and the profilers return or raise, `_collect_and_upload_profile` returns normally
  -- exactly if the profile has a key `profileType`: whatever they raise is caught.
  pub collect_and_upload_profile-returns :
      ((collect_and_upload_profile services types profile).1 ≡ ok tt)
      ↔ ((t : Json) × (Dict.get profile "profileType" ≡ some t))
  unfolding collect_and_upload_profile
  collect_and_upload_profile-returns = ground arith

  -- A profile without the key `profileType` makes `_collect_and_upload_profile` raise
  -- `UnboundLocalError`, and nothing is profiled or uploaded.
  pub collect_and_upload_profile-unbound :
      Dict.get profile "profileType" ≡ none
      → collect_and_upload_profile services types profile ≡ ([], err unbound_local_error)
  unfolding collect_and_upload_profile
  collect_and_upload_profile-unbound h = ground (arith, h)

  upload-IsAllowed :
      (bytes : services.Bytes) → All (IsAllowed types profile) (upload services profile bytes).0
  unfolding upload
  upload-IsAllowed bytes =
      let encoded = Json.str (services.encode bytes) in
      let body : Profile = Dict.insert "profileBytes" encoded profile in
      elim (Option-cases (Dict.get body "name")) [
        | inl absent ↦ rw (absent, upload) tt
        | inr (name, named) ↦ rw (named, upload) ((named, (services.encode bytes, refl)), tt)
      ]

  collect-IsAllowed :
      (kind : String)
      → contains types kind ≡ true
      → Dict.get profile "profileType" ≡ some (Json.str kind)
      → All (IsAllowed types profile) (collect services kind profile).0
  unfolding collect
  collect-IsAllowed kind listed typed =
      elim (Result-cases
        (or_raise key_error (Dict.get profile "duration") >>= services.parse_duration)) [
          | inr (e, raised) ↦ rw (raised, collect) tt
          | inl ((seconds, nanos), parsed) ↦
              let ns = seconds *ℤ nanos_per_sec +ℤ nanos in
              elim (Result-cases (services.profile kind ns)) [
                | inr (e, raised) ↦ rw (parsed, collect, raised) ((listed, typed), tt)
                | inl (bytes, ran) ↦
                    rw (parsed, collect, ran) ((listed, typed), upload-IsAllowed bytes)
              ]
        ]

  try_body-IsAllowed :
      (t : Json)
      → Dict.get profile "profileType" ≡ some t
      → All (IsAllowed types profile) (try_body services types t profile).0
  unfolding try_body find_type
  try_body-IsAllowed (Json.str kind) typed = elim (Bool-cases (contains types kind)) [
    | inl listed ↦ rw (listed, try_body) (collect-IsAllowed kind listed typed)
    | inr unlisted ↦ rw (unlisted, try_body) tt
  ]
  try_body-IsAllowed t typed = tt

  recover-events :
      (o : Option Json) (r : List Event × Result (Unit {0})) → (recover services o r).0 ≡ r.0
  recover-events o (events, ok _) = refl
  recover-events (some t) (events, err e) = refl
  recover-events none (events, err e) = refl

  -- Whatever the server sent and the libraries do, only a type that the client profiles is profiled,
  -- and what is uploaded is the profile with a text set under `profileBytes`, under its own name.
  pub collect_and_upload_profile-IsAllowed :
      All (IsAllowed types profile) (collect_and_upload_profile services types profile).0
  unfolding collect_and_upload_profile
  collect_and_upload_profile-IsAllowed = elim (Option-cases (Dict.get profile "profileType")) [
    | inl absent ↦ rw (absent, collect_and_upload_profile) tt
    | inr (t, typed) ↦
        rw (typed, collect_and_upload_profile, recover-events) (try_body-IsAllowed t typed)
  ]

  -- Where the type is one that the client profiles, the duration parses, the profiler returns bytes
  -- and the profile has a name: the profiler is asked for the duration in nanoseconds, and the
  -- profile is uploaded once, with the encoded bytes.
  pub collect_and_upload_profile-uploads :
      (kind : String) (duration name : Json) (seconds nanos : ℤ) (bytes : services.Bytes)
      → Dict.get profile "profileType" ≡ some (Json.str kind)
      → contains types kind ≡ true
      → Dict.get profile "duration" ≡ some duration
      → services.parse_duration duration ≡ ok (seconds, nanos)
      → services.profile kind (seconds *ℤ pos 1000000000 +ℤ nanos) ≡ ok bytes
      → Dict.get profile "name" ≡ some name
      → collect_and_upload_profile services types profile ≡ (
        profiled kind (seconds *ℤ pos 1000000000 +ℤ nanos)
            ∷ patched name (Dict.insert "profileBytes" (Json.str (services.encode bytes)) profile)
            ∷ [],
        ok tt,
      )
  unfolding collect_and_upload_profile try_body find_type collect upload
  collect_and_upload_profile-uploads kind duration name seconds nanos bytes t c d p b n = ground (
    arith,
    t,
    c,
    d,
    p,
    b,
    n,
    Dict.get-insert "profileBytes" "name" (Json.str (services.encode bytes)) profile,
    eq_iff "name" "profileBytes",
  )
