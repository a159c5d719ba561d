-- ===== src/Client/Poll/Types.antt =====
-- googlecloudprofiler/client.py: which types of profile a polling thread collects.
use cloud_profiler_python.Prelude.{
  ◌≡◌, List, [], ◌∷◌, ◌++◌, map, true, false, Bool, String, inl, inr,
}
use cloud_profiler_python.Prelude.{nat_eq, string_eq, All, contains, Bool-cases, Option-cases}
use cloud_profiler_python.Prelude.Result.{Result, ok, err}
use cloud_profiler_python.Prelude.Float.{Float}
use cloud_profiler_python.Prelude.Dict
use cloud_profiler_python.Backoff.{Backoff, Library, new}
use cloud_profiler_python.Client.Upload.{
  Profile, Services, Event, profiled, patched, collect_and_upload_profile,
}
use cloud_profiler_python.Client.Upload.Safety.{IsAllowed, collect_and_upload_profile-IsAllowed}
use cloud_profiler_python.Client.Poll.{
  connect, poll_profiler_service, Response, created, failed, Status, Action, slept, called,
  is_truthy, calls, try_create, the_profile, prefixed, go_on, go_on_built, poll,
}

-- What is collected has a type of the client.
abbrev pub EventOf : (String → Type 0) → Event → Type 0
EventOf P (profiled kind duration_ns) = P kind
EventOf P (patched name body) = Unit

abbrev pub ActionOf : {F : Type 0} → (String → Type 0) → Action F → Type 0
ActionOf P (slept seconds) = Unit
ActionOf P (called event) = EventOf P event

All-append : {A : Type 0} (P : A → Type 0) (xs ys : List A) → All P xs → All P ys → All P (xs ++ ys)
All-append P [] ys all also = also
All-append P (x ∷ xs) ys all also = (all.0, All-append P xs ys all.1 also)

module _ (fl : Float) (lib : Library fl) (services : Services) (types : List String) where
  abbrev pub IsListed : String → Type 0
  IsListed kind = contains types kind ≡ true

  abbrev AreListed : List (Action fl.F) × Status → Type 0
  AreListed r = All (ActionOf IsListed) r.0

  listed : (p : Profile) (event : Event) → IsAllowed types p event → EventOf IsListed event
  listed p (profiled kind duration_ns) h = h.0
  listed p (patched name body) h = tt

  calls-AreListed :
      (p : Profile) (events : List Event)
      → All (IsAllowed types p) events
      → All (ActionOf {F = fl.F} IsListed) (calls events)
  calls-AreListed p [] all = tt
  calls-AreListed p (event ∷ events) all = (listed p event all.0, calls-AreListed p events all.1)

  sleeps-AreListed : (sleeps : List fl.F) → All (ActionOf IsListed) (map slept sleeps)
  sleeps-AreListed [] = tt
  sleeps-AreListed (s ∷ sleeps) = (tt, sleeps-AreListed sleeps)

  try_create-AreListed :
      (b : Backoff fl.F) (response : Response lib.Content) (draw : lib.Draw)
      → All (ActionOf IsListed) (try_create fl lib b response draw).1
  unfolding try_create
  try_create-AreListed b (failed error) draw = (tt, tt)
  try_create-AreListed b (created p) draw = elim (Option-cases (Dict.get p "profileType")) [
    | inl absent ↦ rw (absent, try_create) (tt, tt)
    | inr (t, typed) ↦ rw (typed, try_create) tt
  ]

  go_on-AreListed :
      (result : Result (Unit {0})) (later : List (Action fl.F) × Status)
      → AreListed later
      → AreListed (go_on fl lib result later)
  go_on-AreListed (ok _) later all = all
  go_on-AreListed (err e) later all = tt

  go_on_built-AreListed :
      (built : Result Bool) (polled : List (Action fl.F) × Status)
      → AreListed polled
      → AreListed (go_on_built fl lib built polled)
  go_on_built-AreListed (ok true) polled all = all
  go_on_built-AreListed (ok false) polled all = tt
  go_on_built-AreListed (err e) polled all = tt

  prefixed-AreListed :
      (actions : List (Action fl.F)) (later : List (Action fl.F) × Status)
      → All (ActionOf IsListed) actions
      → AreListed later
      → AreListed (prefixed fl lib actions later)
  prefixed-AreListed actions (later, status) all also =
      All-append (ActionOf IsListed) actions later all also

  poll-AreListed :
      (b : Backoff fl.F) (responses : List (Response lib.Content × lib.Draw))
      → AreListed (poll fl lib services types b responses)
  unfolding poll
  poll-AreListed b [] = tt
  poll-AreListed b ((response, draw) ∷ responses) =
      let (b', sleeps, profile, awake) = try_create fl lib b response draw in
      let p : Profile = the_profile profile in
      let (events, result) = collect_and_upload_profile services types p in
      let later = poll fl lib services types b' responses in
      let slept_first = try_create-AreListed b response draw in
      let rest = poll-AreListed b' responses in
      let called_next =
        prefixed-AreListed (calls events) (go_on fl lib result later)
          (calls-AreListed p events (collect_and_upload_profile-IsAllowed services types p))
          (go_on-AreListed result later rest) in
      let first = λ (next : List (Action fl.F) × Status) (all : AreListed next).
        prefixed-AreListed sleeps (go_on fl lib awake next) slept_first
          (go_on-AreListed awake next all) in
      elim (Bool-cases (is_truthy profile)) [
        | inl some_profile ↦
            rw some_profile
              (first (prefixed fl lib (calls events) (go_on fl lib result later)) called_next)
        | inr no_profile ↦ rw no_profile (first later rest)
      ]

  -- The polling thread collects only types of profile that the client has, whatever the server answers.
  pub poll_profiler_service-AreListed :
      (b : Backoff fl.F) (attempts : List (Result (Unit {0}) × lib.Draw))
      (responses : List (Response lib.Content × lib.Draw))
      → All (ActionOf IsListed) (poll_profiler_service fl lib services types b attempts responses).0
  unfolding poll_profiler_service
  poll_profiler_service-AreListed b attempts responses =
      let (sleeps, built) = connect fl lib (new fl) attempts in
      let polled = poll fl lib services types b responses in
      prefixed-AreListed (map slept sleeps) (go_on_built fl lib built polled)
        (sleeps-AreListed sleeps) (go_on_built-AreListed built polled (poll-AreListed b responses))
