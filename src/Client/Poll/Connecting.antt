-- ===== src/Client/Poll/Connecting.antt =====
-- googlecloudprofiler/client.py: how long the thread sleeps between the attempts to build the service.
use cloud_profiler_python.Prelude.{ℕ, suc, ◌≡◌, refl, ap, none, List, [], ◌∷◌, ◌++◌, true}
use cloud_profiler_python.Prelude.{nat_eq, string_eq}
use cloud_profiler_python.Prelude.Int.{pos}
use cloud_profiler_python.Prelude.Result.{Result, ok, err, PyError}
use cloud_profiler_python.Prelude.Float.{Float, NotAbove, IsIeee}
use cloud_profiler_python.Backoff.{Backoff, Library, new, next_backoff}
use cloud_profiler_python.Backoff.{init, requested, exponential}
use cloud_profiler_python.Backoff.ClosedForm.{envelope, after, next_backoff-after, is_exponential}
use cloud_profiler_python.Client.Poll.{connect}
use cloud_profiler_python.Client.Poll.Sleeping.{
  IsPatient, HasLiterals, IsReady, new-IsReady, next_backoff-IsReady, own_sleep, requested-none,
}
use mathlib.Core.Path.{subst}

module _ (fl : Float) (ieee : IsIeee fl) (lib : Library fl) where
  -- The k-th sleep is uniform between 0 and the k-th envelope.
  abbrev pub sleeps_from : fl.F → fl.F → fl.F → ℕ → List lib.Draw → List fl.F
  sleeps_from least most m k [] = []
  sleeps_from least most m k (draw ∷ draws) =
      lib.uniform (fl.of_ℤ (pos 0)) (envelope fl least most m k) draw
      ∷ sleeps_from least most m (suc k) draws

  abbrev pub failures : PyError → List lib.Draw → List (Result (Unit {0}) × lib.Draw)
  failures e [] = []
  failures e (draw ∷ draws) = (err e, draw) ∷ failures e draws

  module _ (least most m : fl.F) (factor : ieee.IsFactor m) (least_number : ieee.IsNumber least)
      (least_nonneg : NotAbove fl (fl.of_ℤ (pos 0)) least) (most_number : ieee.IsNumber most)
      (most_nonneg : NotAbove fl (fl.of_ℤ (pos 0)) most) where
    next_after :
        (k : ℕ) (draw : lib.Draw)
        → next_backoff fl lib (after fl least most m k) none draw ≡ (
          after fl least most m (suc k),
          lib.uniform (fl.of_ℤ (pos 0)) (envelope fl least most m k) draw,
        )
    unfolding next_backoff requested exponential is_exponential
    next_after k draw =
        ap
          (λ (b : Backoff fl.F).
            (b, lib.uniform (fl.of_ℤ (pos 0)) (envelope fl least most m k) draw))
          (next_backoff-after fl ieee least most m factor least_number least_nonneg most_number
            most_nonneg lib k none draw)

    connect-after :
        (k : ℕ)
        → IsPatient fl ieee lib
        → IsReady fl ieee lib (after fl least most m k)
        → (e : PyError) (draws : List lib.Draw) (last : lib.Draw)
          (rest : List (Result (Unit {0}) × lib.Draw))
        → connect fl lib (after fl least most m k) (failures e draws ++ (ok tt, last) ∷ rest)
          ≡ (sleeps_from least most m k draws, ok true)
    unfolding connect
    connect-after k patient ready e [] last rest = refl
    connect-after k patient ready e (draw ∷ draws) last rest =
        let b = after fl least most m k in
        let next = next_after k draw in
        let later =
          subst (IsReady fl ieee lib) (ap (λ x. x.0) next)
            (next_backoff-IsReady fl ieee lib b none draw ready) in
        let awake =
          own_sleep fl ieee lib patient b ready none draw (requested-none fl ieee lib draw) in
        rw (awake, next, connect-after (suc k) patient later e draws last rest) refl

  -- Where float arithmetic meets the laws and has the literals in order, and a draw between 0 and at most
  -- an hour can be slept: a new client that fails to build the service sleeps once for each failure, the
  -- k-th time (from 0) for a uniform draw between 0 and 60 seconds times the k-th power of 1.3, cut at
  -- 3600 seconds, and goes on at the first success.
  pub connect-sleeps :
      HasLiterals fl ieee
      → IsPatient fl ieee lib
      → (e : PyError) (draws : List lib.Draw) (last : lib.Draw)
        (rest : List (Result (Unit {0}) × lib.Draw))
      → connect fl lib (new fl) (failures e draws ++ (ok tt, last) ∷ rest) ≡ (
        sleeps_from (fl.literal "60.0") (fl.literal "3600.0") (fl.literal "1.3") 0 draws,
        ok true,
      )
  unfolding new init
  connect-sleeps h patient e draws last rest =
      connect-after (fl.literal "60.0") (fl.literal "3600.0") (fl.literal "1.3") h.factor
        h.least_number h.least_nonneg h.most_number h.most_nonneg 0 patient
        (new-IsReady fl ieee lib h) e draws last rest
