-- ===== src/Client/Poll/Rounds.antt =====
-- googlecloudprofiler/client.py: single rounds of the polling loop.
use cloud_profiler_python.Prelude.{◌≡◌, refl, none, some, List, [], ◌∷◌, ◌++◌, true, String}
use cloud_profiler_python.Prelude.{nat_eq, string_eq}
use cloud_profiler_python.Prelude.Result.{ok, unbound_local_error}
use cloud_profiler_python.Prelude.Float.{Float}
use cloud_profiler_python.Json.{Json}
use cloud_profiler_python.Prelude.Dict
use cloud_profiler_python.Prelude.Dict.{Dict}
use cloud_profiler_python.Backoff.{Backoff, Error, other_error, Library, new, next_backoff}
use cloud_profiler_python.Client.Upload.{Profile, Services, collect_and_upload_profile}
use cloud_profiler_python.Client.Upload.Safety.{
  collect_and_upload_profile-returns, collect_and_upload_profile-unbound,
}
use cloud_profiler_python.Prelude.Result.{Result}
use cloud_profiler_python.Prelude.Result.{err, PyError}
use cloud_profiler_python.Client.Poll.{go_on, Action}
use cloud_profiler_python.Client.Poll.{
  Response, created, failed, died, slept, is_truthy, calls, try_create, prefixed, poll,
}

-- How the thread dies of a sleep, or behind it.
abbrev pub cause : Result (Unit {0}) → PyError → PyError
cause (ok _) e = e
cause (err raised) e = raised

module _ (fl : Float) (lib : Library fl) (services : Services) (types : List String) where
  try_create-typed :
      (b : Backoff fl.F) (p : Profile) (t : Json) (draw : lib.Draw)
      → Dict.get p "profileType" ≡ some t
      → try_create fl lib b (created p) draw ≡ (new fl, [], some p, ok tt)
  unfolding try_create
  try_create-typed b p t draw h = rw (h, try_create)

  try_create-untyped :
      (b : Backoff fl.F) (p : Profile) (draw : lib.Draw)
      → Dict.get p "profileType" ≡ none
      → try_create fl lib b (created p) draw ≡ (
        (next_backoff fl lib (new fl) (some other_error) draw).0,
        slept (next_backoff fl lib (new fl) (some other_error) draw).1 ∷ [],
        some p,
        lib.sleep (next_backoff fl lib (new fl) (some other_error) draw).1,
      )
  unfolding try_create
  try_create-untyped b p draw h = rw (h, try_create)

  try_create-failed :
      (b : Backoff fl.F) (error : Error lib.Content) (draw : lib.Draw)
      → try_create fl lib b (failed error) draw ≡ (
        (next_backoff fl lib b (some error) draw).0,
        slept (next_backoff fl lib b (some error) draw).1 ∷ [],
        none,
        lib.sleep (next_backoff fl lib b (some error) draw).1,
      )
  unfolding try_create
  try_create-failed b error draw = refl

  truthy_of_key :
      (p : Profile) (t : Json) → Dict.get p "profileType" ≡ some t → is_truthy (some p) ≡ true
  unfolding is_truthy Dict.get
  truthy_of_key [] t h = absurd (cc h)
  truthy_of_key (entry ∷ p) t h = refl

  collect_ok :
      (p : Profile) (t : Json)
      → Dict.get p "profileType" ≡ some t
      → (collect_and_upload_profile services types p).1 ≡ ok tt
  collect_ok p t h = (collect_and_upload_profile-returns services types p).1 (t, h)

  -- A profile with `profileType` is collected with no sleep, and resets the backoff: what the thread does
  -- next does not depend on the failures before.
  pub poll-created :
      (b : Backoff fl.F) (p : Profile) (t : Json) (draw : lib.Draw)
      (responses : List (Response lib.Content × lib.Draw))
      → Dict.get p "profileType" ≡ some t
      → poll fl lib services types b ((created p, draw) ∷ responses)
        ≡ prefixed fl lib
            (calls (collect_and_upload_profile services types p).0)
            (poll fl lib services types (new fl) responses)
  unfolding poll
  poll-created b p t draw responses h =
      rw (try_create-typed b p t draw h, truthy_of_key p t h, collect_ok p t h)

  go_on-died :
      (awake : Result (Unit {0})) (sleeps : List (Action fl.F)) (e : PyError)
      → prefixed fl lib sleeps (go_on fl lib awake ([], died e))
        ≡ (sleeps ++ [], died (cause awake e))
  go_on-died (ok _) sleeps e = refl
  go_on-died (err raised) sleeps e = refl

  -- A profile that is not empty and lacks `profileType` ends the thread, whatever comes behind it: it
  -- sleeps as for a failed request, then dies, by `UnboundLocalError` or by what the sleep raises.
  pub poll-dies :
      (b : Backoff fl.F) (entry : String × Json) (p : Profile) (draw : lib.Draw)
      (responses : List (Response lib.Content × lib.Draw))
      → Dict.get {V = Json} (entry ∷ p) "profileType" ≡ none
      → poll fl lib services types b ((created (entry ∷ p), draw) ∷ responses) ≡ (
        slept (next_backoff fl lib (new fl) (some other_error) draw).1 ∷ [],
        died (
            cause
              (lib.sleep (next_backoff fl lib (new fl) (some other_error) draw).1)
              unbound_local_error),
      )
  unfolding poll is_truthy
  poll-dies b entry p draw responses h =
      rw
        (
          try_create-untyped b (entry ∷ p) draw h,
          collect_and_upload_profile-unbound services types (entry ∷ p) h,
        )
        (go_on-died (lib.sleep (next_backoff fl lib (new fl) (some other_error) draw).1)
          (slept (next_backoff fl lib (new fl) (some other_error) draw).1 ∷ []) unbound_local_error)

  -- A failed request whose sleep is done, or raises.
  pub poll-failed :
      (b : Backoff fl.F) (error : Error lib.Content) (draw : lib.Draw)
      (responses : List (Response lib.Content × lib.Draw))
      → (poll fl lib services types b ((failed error, draw) ∷ responses)).1
        ≡ (go_on fl lib
            (lib.sleep (next_backoff fl lib b (some error) draw).1)
            (poll fl lib services types (next_backoff fl lib b (some error) draw).0 responses)).1
  unfolding poll is_truthy
  poll-failed b error draw responses = rw (try_create-failed b error draw) refl

  pub poll-empty :
      (b : Backoff fl.F) (draw : lib.Draw) (responses : List (Response lib.Content × lib.Draw))
      → (poll fl lib services types b ((created [], draw) ∷ responses)).1
        ≡ (go_on fl lib (lib.sleep (next_backoff fl lib (new fl) (some other_error) draw).1) (
            poll fl lib services types
              (next_backoff fl lib (new fl) (some other_error) draw).0
              responses)).1
  unfolding poll is_truthy Dict.get
  poll-empty b draw responses = rw (try_create-untyped b [] draw refl) refl
