-- ===== src/Backoff/ClosedForm.antt =====
-- googlecloudprofiler/backoff.py: the envelope after any row of failures, in a closed form.
use cloud_profiler_python.Prelude.{
  ℕ, zero, suc, ◌≡◌, refl, Bool, Option, none, some, List, [], ◌∷◌, arith, true, false,
}
use cloud_profiler_python.Prelude.{nat_eq, string_eq, if◌then◌else◌}
use cloud_profiler_python.Prelude.Int.{pos}
use cloud_profiler_python.Prelude.Result.{ok, err}
use cloud_profiler_python.Prelude.Float.{Float, NotAbove, IsIeee, min_py}
use cloud_profiler_python.Backoff.{
  Backoff, Error, Library, init, requested, exponential, next_backoff,
}

module _ (fl : Float) where
  abbrev pub power : fl.F → fl.F → ℕ → fl.F
  power least m zero = least
  power least m (suc k) = fl.mul (power least m k) m

  -- The minimum times the k-th power of the multiplier, cut at the maximum.
  abbrev pub envelope : fl.F → fl.F → fl.F → ℕ → fl.F
  envelope least most m zero = least
  envelope least most m (suc k) = min_py fl most (power least m (suc k))

  -- A backoff with these parameters, k failures later.
  abbrev pub after : fl.F → fl.F → fl.F → ℕ → Backoff fl.F
  after least most m k = record {
    min_envelope_sec = least;
    max_envelope_sec = most;
    multiplier = m;
    current_envelope_sec = envelope least most m k;
  }

  module _ (lib : Library fl) where
    -- Whether a failure asks for no delay of its own.
    unfoldable pub is_exponential : Option (Error lib.Content) → lib.Draw → Bool
    is_exponential error draw = elim (requested fl lib error draw) [
      | ok found ↦ elim found [ some _ ↦ false | none ↦ true ]
      | err _ ↦ true
    ]

    -- k, and one more for each such failure.
    unfoldable pub exponential_count : ℕ → List (Option (Error lib.Content) × lib.Draw) → ℕ
    exponential_count k [] = k
    exponential_count k ((error, draw) ∷ calls) =
        exponential_count (if is_exponential error draw then suc k else k) calls

    -- A row of calls of `next_backoff`.
    unfoldable pub run : Backoff fl.F → List (Option (Error lib.Content) × lib.Draw) → Backoff fl.F
    run b [] = b
    run b ((error, draw) ∷ calls) = run (next_backoff fl lib b error draw).0 calls

module _ (fl : Float) (ieee : IsIeee fl) (least most m : fl.F) (factor : ieee.IsFactor m)
    (least_number : ieee.IsNumber least) (least_nonneg : NotAbove fl (fl.of_ℤ (pos 0)) least)
    (most_number : ieee.IsNumber most) (most_nonneg : NotAbove fl (fl.of_ℤ (pos 0)) most) where
  power-IsNumber :
      (k : ℕ)
      → ieee.IsNumber (power fl least m k) × NotAbove fl (fl.of_ℤ (pos 0)) (power fl least m k)
  power-IsNumber zero = (least_number, least_nonneg)
  power-IsNumber (suc k) =
      let (n, z) = power-IsNumber k in
      let p = power fl least m k in
      (
        ieee.IsNumber-mul p m n z factor,
        ieee.not_above_trans _ p _ n z (ieee.mul_grows p m n z factor),
      )

  envelope-suc :
      (k : ℕ)
      → min_py fl most (fl.mul (envelope fl least most m k) m) ≡ envelope fl least most m (suc k)
  envelope-suc zero = refl
  envelope-suc (suc k) =
      let (n, z) = power-IsNumber (suc k) in
      let p = power fl least m (suc k) in
      ground (
        arith,
        ieee.mul_grows most m most_number most_nonneg factor,
        ieee.mul_grows p m n z factor,
        ieee.not_above_trans most p (fl.mul p m) n,
      )

  pub next_backoff-after :
      (lib : Library fl) (k : ℕ) (error : Option (Error lib.Content)) (draw : lib.Draw)
      → (next_backoff fl lib (after fl least most m k) error draw).0
        ≡ after fl least most m (if is_exponential fl lib error draw then suc k else k)
  unfolding next_backoff exponential is_exponential
  next_backoff-after lib k error draw = ground (arith, envelope-suc k)

  run-after :
      (lib : Library fl) (k : ℕ) (calls : List (Option (Error lib.Content) × lib.Draw))
      → run fl lib (after fl least most m k) calls
        ≡ after fl least most m (exponential_count fl lib k calls)
  unfolding run exponential_count
  run-after lib k [] = refl
  run-after lib k ((error, draw) ∷ calls) =
      rw (next_backoff-after lib k error draw)
        (run-after lib (if is_exponential fl lib error draw then suc k else k) calls)

  -- For float arithmetic that meets the laws, a multiplier of at least 1, and a minimum and a maximum
  -- of at least 0: after any row of calls on a new `Backoff` the parameters are as they were, and
  -- the envelope is the minimum multiplied once for each call whose error asked for no delay, cut
  -- at the maximum from the first such call on.
  pub run-init :
      (lib : Library fl) (calls : List (Option (Error lib.Content) × lib.Draw))
      → run fl lib (init least most m) calls ≡ (record {
        min_envelope_sec = least;
        max_envelope_sec = most;
        multiplier = m;
        current_envelope_sec = envelope fl least most m (exponential_count fl lib 0 calls);
      })
  unfolding init
  run-init lib calls = run-after lib 0 calls
