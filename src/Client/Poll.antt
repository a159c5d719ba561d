-- ===== src/Client/Poll.antt =====
-- googlecloudprofiler/client.py: `_poll_profiler_service`, over the answers that the server gives. The
-- thread does not end by itself: `waiting` means that it waits for another answer.
pub mod Rounds
pub mod Survival
pub mod Sleeping
pub mod Connecting
pub mod Types
use cloud_profiler_python.Prelude.{
  ◌+◌, Bool, Option, none, some, List, [], ◌∷◌, ◌++◌, map, true, false, String,
}
use cloud_profiler_python.Prelude.{nat_eq, string_eq, if◌then◌else◌}
use cloud_profiler_python.Prelude.Result.{Result, ok, err, PyError}
use cloud_profiler_python.Prelude.Float.{Float}
use cloud_profiler_python.Json
use cloud_profiler_python.Prelude.Dict
use cloud_profiler_python.Prelude.Dict.{Dict}
use cloud_profiler_python.Backoff
use cloud_profiler_python.Backoff.{Backoff, Error, other_error, Library, new, next_backoff}
use cloud_profiler_python.Client.Upload.{Profile, Services, Event, collect_and_upload_profile}

-- What `_create_profile` comes to: a profile, or an exception.
pub data Response (Content : Type 0) : Type 0 where
  created : Profile → Response Content
  failed : Error Content → Response Content

pub data Status : Type 0 where
  waiting : Status
  died : PyError → Status

pub data Action (F : Type 0) : Type 0 where
  slept : F → Action F
  called : Event → Action F

-- `not profile`: `None` and an empty dictionary are false.
unfoldable pub is_truthy : Option Profile → Bool
is_truthy none = false
is_truthy (some []) = false
is_truthy (some (entry ∷ profile)) = true

abbrev pub the_profile : Option Profile → Profile
the_profile none = []
the_profile (some p) = p

abbrev pub calls : {F : Type 0} → List Event → List (Action F)
calls events = map called events

module _ (fl : Float) (lib : Library fl) where
  -- One round of the inner loop: the backoff, the sleep, `profile` behind it, and what the sleep comes to.
  -- A profile that lacks `profileType` raises in the log statement, when `profile` is set.
  unfoldable pub try_create :
      Backoff fl.F
      → Response lib.Content
      → lib.Draw
      → Backoff fl.F × List (Action fl.F) × Option Profile × Result (Unit {0})
  try_create b (created p) draw = elim (Dict.get p "profileType") [
    | some _ ↦ (new fl, [], some p, ok tt)
    | none ↦
        let (b', seconds) = next_backoff fl lib (new fl) (some other_error) draw in
        (b', slept seconds ∷ [], some p, lib.sleep seconds)
  ]
  try_create b (failed error) draw =
      let (b', seconds) = next_backoff fl lib b (some error) draw in
      (b', slept seconds ∷ [], none, lib.sleep seconds)

  abbrev pub prefixed :
      List (Action fl.F) → List (Action fl.F) × Status → List (Action fl.F) × Status
  prefixed actions (later, status) = (actions ++ later, status)

  abbrev pub go_on : Result (Unit {0}) → List (Action fl.F) × Status → List (Action fl.F) × Status
  go_on (ok _) later = later
  go_on (err e) later = ([], died e)

  -- The endless loop. `types` are the keys of `self._profilers`. A sleep that raises leaves the `except`
  -- clause, and with it the loop.
  unfoldable pub poll :
      Services
      → List String
      → Backoff fl.F
      → List (Response lib.Content × lib.Draw)
      → List (Action fl.F) × Status
  poll services types b [] = ([], waiting)
  poll services types b ((response, draw) ∷ responses) =
      let (b', sleeps, profile, awake) = try_create b response draw in
      let later = poll services types b' responses in
      let (events, result) = collect_and_upload_profile services types (the_profile profile) in
      prefixed sleeps (
        go_on awake
          (if is_truthy profile then prefixed (calls events) (go_on result later) else later))

  -- The loop that builds the service, on one result and one draw for each attempt: the sleeps, and
  -- whether the service is built, or the exception of a sleep.
  unfoldable pub connect :
      Backoff fl.F → List (Result (Unit {0}) × lib.Draw) → List fl.F × Result Bool
  connect b [] = ([], ok false)
  connect b ((ok _, draw) ∷ attempts) = ([], ok true)
  connect b ((err e, draw) ∷ attempts) =
      let (b', seconds) = next_backoff fl lib b none draw in
      let (sleeps, built) = connect b' attempts in
      elim (lib.sleep seconds) [
        | ok _ ↦ (seconds ∷ sleeps, built)
        | err raised ↦ (seconds ∷ [], err raised)
      ]

  abbrev pub go_on_built : Result Bool → List (Action fl.F) × Status → List (Action fl.F) × Status
  go_on_built (ok true) polled = polled
  go_on_built (ok false) polled = ([], waiting)
  go_on_built (err e) polled = ([], died e)

  -- `b` is the client's own backoff; the service is built with another.
  unfoldable pub poll_profiler_service :
      Services
      → List String
      → Backoff fl.F
      → List (Result (Unit {0}) × lib.Draw)
      → List (Response lib.Content × lib.Draw)
      → List (Action fl.F) × Status
  poll_profiler_service services types b attempts responses =
      let (sleeps, built) = connect (new fl) attempts in
      prefixed (map slept sleeps) (go_on_built built (poll services types b responses))
