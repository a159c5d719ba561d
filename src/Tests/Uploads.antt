-- ===== src/Tests/Uploads.antt =====
-- googlecloudprofiler/client.py: the polling thread, on a few answers of the server.
use cloud_profiler_python.Prelude.{◌≡◌, refl, ◌↔◌, Bool, true, false, some, List, [], ◌∷◌, String}
use cloud_profiler_python.Prelude.{All, string_eq}
use cloud_profiler_python.Prelude.Int.{pos, ◌*ℤ◌, ◌+ℤ◌}
use cloud_profiler_python.Prelude.Result.{ok, err, unbound_local_error}
use cloud_profiler_python.Prelude.Dict
use cloud_profiler_python.Prelude.Dict.{Dict}
use cloud_profiler_python.Prelude.Micros.{micros}
use cloud_profiler_python.Json.{Json}
use cloud_profiler_python.Backoff
use cloud_profiler_python.Backoff.{new, next_backoff, other_error, exponential, requested}
use cloud_profiler_python.Client.Upload.{Profile, profiled, patched, collect_and_upload_profile}
use cloud_profiler_python.Client.Upload.Safety.{
  IsAllowed, collect_and_upload_profile-returns, collect_and_upload_profile-unbound,
  collect_and_upload_profile-IsAllowed, collect_and_upload_profile-uploads,
}
use cloud_profiler_python.Client.Poll.{Response, created, failed, poll, waiting, died, slept}
use cloud_profiler_python.Prelude.Result.{external}
use cloud_profiler_python.Client.Poll.{poll_profiler_service}
use cloud_profiler_python.Client.Poll.Survival.{poll_profiler_service-survives}
use cloud_profiler_python.Client.Poll.Rounds.{poll-dies}
use cloud_profiler_python.Tests.{library, services, patient, literals}
use cloud_profiler_python.Client.Poll.Sleeping.{new-IsReady}
use cloud_profiler_python.Client.Poll.Survival.{IsUsable}
use cloud_profiler_python.Client.Poll.{connect}
use cloud_profiler_python.Prelude.Micros.{micros-IsIeee}
use cloud_profiler_python.Prelude.{◌⊎◌, false}

abbrev types : List String
types = "CPU" ∷ "WALL" ∷ []

abbrev profile : Profile
profile =
    ("name", Json.str "p1") ∷ ("profileType", Json.str "WALL") ∷ ("duration", Json.str "3.5s") ∷ []

-- What is uploaded for it.
abbrev body : Profile
body =
    ("name", Json.str "p1")
    ∷ ("profileType", Json.str "WALL")
    ∷ ("duration", Json.str "3.5s")
    ∷ ("profileBytes", Json.str "Bw==")
    ∷ []

abbrev untyped : Profile
untyped = ("name", Json.str "p1") ∷ []

collect_and_upload_profile-returns_example :
    ((collect_and_upload_profile services types profile).1 ≡ ok tt)
    ↔ ((t : Json) × (Dict.get profile "profileType" ≡ some t))
collect_and_upload_profile-returns_example =
    collect_and_upload_profile-returns services types profile

collect_and_upload_profile-unbound_example :
    collect_and_upload_profile services types untyped ≡ ([], err unbound_local_error)
unfolding Dict.get
collect_and_upload_profile-unbound_example =
    collect_and_upload_profile-unbound services types untyped refl

collect_and_upload_profile-IsAllowed_example :
    All (IsAllowed types profile) (collect_and_upload_profile services types profile).0
collect_and_upload_profile-IsAllowed_example =
    collect_and_upload_profile-IsAllowed services types profile

collect_and_upload_profile-uploads_example :
    collect_and_upload_profile services types profile
    ≡ (profiled "WALL" (pos 3500000000) ∷ patched (Json.str "p1") body ∷ [], ok tt)
unfolding Dict.get Dict.insert ◌*ℤ◌ ◌+ℤ◌
collect_and_upload_profile-uploads_example =
    collect_and_upload_profile-uploads services types profile "WALL" (Json.str "3.5s")
      (Json.str "p1") (pos 3) (pos 500000000) 7 refl refl refl refl refl refl

abbrev responses : List (Response Json × Bool)
responses = (failed other_error, true) ∷ (created [], false) ∷ (created profile, true) ∷ []

poll-dies_example :
    poll micros library services types (new micros) ((created untyped, true) ∷ responses)
    ≡ (slept 60000000 ∷ [], died unbound_local_error)
unfolding Dict.get next_backoff new Backoff.init exponential requested
poll-dies_example =
    poll-dies micros library services types (new micros) ("name", Json.str "p1") [] true responses
      refl

poll_profiler_service-survives_example :
    ((poll_profiler_service micros library services types
        (new micros)
        ((err external, true) ∷ (ok tt, true) ∷ [])
        responses).1
      ≡ waiting)
    ↔ (((connect micros library (new micros) ((err external, true) ∷ (ok tt, true) ∷ [])).1
          ≡ ok false)
        ⊎ All (IsUsable micros micros-IsIeee library) responses)
poll_profiler_service-survives_example =
    poll_profiler_service-survives micros micros-IsIeee library patient literals services types
      (new micros) (new-IsReady micros micros-IsIeee library literals)
      ((err external, true) ∷ (ok tt, true) ∷ []) responses

usable : All (IsUsable micros micros-IsIeee library) responses
unfolding requested Dict.get
usable = (tt, (tt, ((Json.str "WALL", refl), tt)))
