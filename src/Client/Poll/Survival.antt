-- ===== src/Client/Poll/Survival.antt =====
-- googlecloudprofiler/client.py: when the polling thread survives.
use cloud_profiler_python.Prelude.{◌≡◌, refl, none, some, List, [], ◌∷◌, true, String}
use cloud_profiler_python.Prelude.{nat_eq, string_eq, All}
use cloud_profiler_python.Prelude.Result.{ok}
use cloud_profiler_python.Prelude.Float.{Float}
use cloud_profiler_python.Json.{Json}
use cloud_profiler_python.Prelude.Dict
use cloud_profiler_python.Prelude.Dict.{Dict}
use cloud_profiler_python.Backoff.{Backoff, Error, other_error, Library, new, next_backoff}
use cloud_profiler_python.Client.Upload.{Services}
use cloud_profiler_python.Prelude.{inl, inr}
use cloud_profiler_python.Prelude.Result.{Result}
use cloud_profiler_python.Client.Poll.Sleeping.{
  IsPatient, HasLiterals, IsReady, new-IsReady, next_backoff-IsReady, next_backoff-asked, asked,
  own_sleep, requested-none,
}
use cloud_profiler_python.Prelude.{Option-cases, Option, sym, ap, ◌∙◌, ◌↔◌, ◌⊎◌, false, Bool, arith}
use cloud_profiler_python.Prelude.Result.{err, PyError}
use cloud_profiler_python.Prelude.Float.{IsIeee}
use mathlib.Core.Path.{subst}
use cloud_profiler_python.Backoff.{requested}
use cloud_profiler_python.Client.Poll.{go_on, go_on_built, Status, Action}
use cloud_profiler_python.Client.Poll.{
  connect, poll_profiler_service, Response, created, failed, waiting, poll,
}
use cloud_profiler_python.Client.Poll.Rounds.{poll-created, poll-dies, poll-failed, poll-empty}

-- The sleep that a failed request asks for does not raise.
abbrev pub CanSleep : (fl : Float) (lib : Library fl) → Option fl.F → Type 0
CanSleep fl lib none = Unit
CanSleep fl lib (some seconds) = lib.sleep seconds ≡ ok tt

-- A response that the thread survives: an exception that asks for no delay or for one that can be slept,
-- an empty profile, or one with `profileType`.
abbrev pub IsUsable :
    (fl : Float) (ieee : IsIeee fl) (lib : Library fl) → Response lib.Content × lib.Draw → Type 0
IsUsable fl ieee lib (failed error, draw) =
    CanSleep fl lib (asked fl ieee lib (requested fl lib (some error) draw))
IsUsable fl ieee lib (created [], draw) = Unit
IsUsable fl ieee lib (created (entry ∷ p), draw) =
    (t : Json) × (Dict.get {V = Json} (entry ∷ p) "profileType" ≡ some t)

module _ (fl : Float) (ieee : IsIeee fl) (lib : Library fl) (patient : IsPatient fl ieee lib)
    (literals : HasLiterals fl ieee) (services : Services) (types : List String) where
  other_asked :
      (draw : lib.Draw) → asked fl ieee lib (requested fl lib (some other_error) draw) ≡ none
  unfolding requested
  other_asked draw = refl

  awake_after :
      (b : Backoff fl.F) (error : Option (Error lib.Content)) (draw : lib.Draw)
      → IsReady fl ieee lib b
      → (lib.sleep (next_backoff fl lib b error draw).1 ≡ ok tt)
        ↔ CanSleep fl lib (asked fl ieee lib (requested fl lib error draw))
  awake_after b error draw ready =
      elim (Option-cases (asked fl ieee lib (requested fl lib error draw))) [
        | inl own ↦ (
          λ _. subst (CanSleep fl lib) (sym own) tt,
          λ _. own_sleep fl ieee lib patient b ready error draw own,
        )
        | inr (seconds, asks) ↦
            let same = ap lib.sleep (next_backoff-asked fl ieee lib b error draw seconds asks) in
            (
              λ h. subst (CanSleep fl lib) (sym asks) (sym same ∙ h),
              λ h. same ∙ subst (CanSleep fl lib) asks h,
            )
      ]

  -- What comes behind a sleep that may raise.
  go_on_iff :
      (awake : Result (Unit {0})) (later : List (Action fl.F) × Status)
      → ((go_on fl lib awake later).1 ≡ waiting) ↔ ((awake ≡ ok tt) × (later.1 ≡ waiting))
  go_on_iff (ok _) later = (λ h. (refl, h), λ h. h.1)
  go_on_iff (err e) later = (λ h. absurd (cc h), λ h. absurd (cc (h.0)))

  -- Where draws of at most an hour can be slept: from a backoff of the client, the thread goes on
  -- waiting for answers exactly if each answer so far is usable.
  pub poll-survives_iff :
      (b : Backoff fl.F)
      → IsReady fl ieee lib b
      → (responses : List (Response lib.Content × lib.Draw))
      → ((poll fl lib services types b responses).1 ≡ waiting)
        ↔ All (IsUsable fl ieee lib) responses
  unfolding poll
  poll-survives_iff b ready [] = (λ _. tt, λ _. refl)
  poll-survives_iff b ready ((failed error, draw) ∷ responses) =
      let next = (next_backoff fl lib b (some error) draw).0 in
      let rest =
        poll-survives_iff next (next_backoff-IsReady fl ieee lib b (some error) draw ready)
          responses in
      let first = poll-failed fl lib services types b error draw responses in
      let step =
        go_on_iff (lib.sleep (next_backoff fl lib b (some error) draw).1)
          (poll fl lib services types next responses) in
      let awake = awake_after b (some error) draw ready in
      (
        λ h. let (slept_well, later) = step.0 (sym first ∙ h) in (awake.0 slept_well, rest.0 later),
        λ (usable, later). first ∙ step.1 (awake.1 usable, rest.1 later),
      )
  poll-survives_iff b ready ((created [], draw) ∷ responses) =
      let next = (next_backoff fl lib (new fl) (some other_error) draw).0 in
      let fresh = new-IsReady fl ieee lib literals in
      let rest =
        poll-survives_iff next
          (next_backoff-IsReady fl ieee lib (new fl) (some other_error) draw fresh) responses in
      let first = poll-empty fl lib services types b draw responses in
      let step =
        go_on_iff (lib.sleep (next_backoff fl lib (new fl) (some other_error) draw).1)
          (poll fl lib services types next responses) in
      let awake =
        own_sleep fl ieee lib patient (new fl) fresh (some other_error) draw (other_asked draw) in
      (
        λ h. (tt, rest.0 ((step.0 (sym first ∙ h)).1)),
        λ (_, later). first ∙ step.1 (awake, rest.1 later),
      )
  poll-survives_iff b ready ((created (entry ∷ p), draw) ∷ responses) =
      let rest = poll-survives_iff (new fl) (new-IsReady fl ieee lib literals) responses in
      elim (Option-cases (Dict.get {V = Json} (entry ∷ p) "profileType")) [
        | inl absent ↦
            let dies = poll-dies fl lib services types b entry p draw responses absent in
            (
              λ h. absurd (cc (h, ap (λ r. r.1) dies)),
              λ ((t, typed), later). absurd (cc (absent, typed)),
            )
        | inr (t, typed) ↦
            let first =
              ap (λ r. r.1)
                (poll-created fl lib services types b (entry ∷ p) t draw responses typed) in
            (λ h. ((t, typed), rest.0 (sym first ∙ h)), λ (_, later). first ∙ rest.1 later)
      ]

  connect-awake :
      (b : Backoff fl.F) (e : PyError) (draw : lib.Draw)
      (attempts : List (Result (Unit {0}) × lib.Draw))
      → lib.sleep (next_backoff fl lib b none draw).1 ≡ ok tt
      → (connect fl lib b ((err e, draw) ∷ attempts)).1
        ≡ (connect fl lib (next_backoff fl lib b none draw).0 attempts).1
  unfolding connect
  connect-awake b e draw attempts h = ground (arith, h)

  connect-alive :
      (b : Backoff fl.F)
      → IsReady fl ieee lib b
      → (attempts : List (Result (Unit {0}) × lib.Draw))
      → (built : Bool) × ((connect fl lib b attempts).1 ≡ ok built)
  unfolding connect
  connect-alive b ready [] = (false, refl)
  connect-alive b ready ((ok _, draw) ∷ attempts) = (true, refl)
  connect-alive b ready ((err e, draw) ∷ attempts) =
      let next = (next_backoff fl lib b none draw).0 in
      let (built, h) =
        connect-alive next (next_backoff-IsReady fl ieee lib b none draw ready) attempts in
      let awake =
        own_sleep fl ieee lib patient b ready none draw (requested-none fl ieee lib draw) in
      (built, connect-awake b e draw attempts awake ∙ h)

  survives_by :
      (b : Backoff fl.F)
      → IsReady fl ieee lib b
      → (attempts : List (Result (Unit {0}) × lib.Draw))
        (responses : List (Response lib.Content × lib.Draw)) (built : Bool)
      → (connect fl lib (new fl) attempts).1 ≡ ok built
      → ((poll_profiler_service fl lib services types b attempts responses).1 ≡ waiting)
        ↔ (((connect fl lib (new fl) attempts).1 ≡ ok false) ⊎ All (IsUsable fl ieee lib) responses)
  unfolding poll_profiler_service
  survives_by b ready attempts responses true built =
      let polled = poll-survives_iff b ready responses in
      let reached =
        ap (λ r. (go_on_built fl lib r (poll fl lib services types b responses)).1) built in
      (
        λ h. inr (polled.0 (sym reached ∙ h)),
        λ h.
            reached
            ∙ (elim h [ inl never ↦ absurd (cc (built, never)) | inr usable ↦ polled.1 usable ]),
      )
  survives_by b ready attempts responses false failing = (λ h. inl failing, λ h. rw failing refl)

  -- Where float arithmetic meets the laws and has the literals in order, and a draw between 0 and at most
  -- an hour can be slept: for a backoff as the client has it, however often the service fails to be
  -- built and whatever the requests, the profilers and the uploads raise, the polling thread does not die
  -- exactly if the service is never built or each answer of the server is a profile that is empty or has
  -- the key `profileType`, or an exception that asks for no delay or for one that `time.sleep` accepts.
  pub poll_profiler_service-survives :
      (b : Backoff fl.F)
      → IsReady fl ieee lib b
      → (attempts : List (Result (Unit {0}) × lib.Draw))
        (responses : List (Response lib.Content × lib.Draw))
      → ((poll_profiler_service fl lib services types b attempts responses).1 ≡ waiting)
        ↔ (((connect fl lib (new fl) attempts).1 ≡ ok false) ⊎ All (IsUsable fl ieee lib) responses)
  poll_profiler_service-survives b ready attempts responses =
      let (built, h) = connect-alive (new fl) (new-IsReady fl ieee lib literals) attempts in
      survives_by b ready attempts responses built h
