-- ===== src/Client/Poll/Sleeping.antt =====
-- googlecloudprofiler/client.py and backoff.py: the sleeps that the polling thread decides on itself.
use cloud_profiler_python.Prelude.{◌≡◌, refl, ap, ◌∙◌, Option, none, some, arith}
use cloud_profiler_python.Prelude.{nat_eq, string_eq}
use mathlib.Core.Path.{subst}
use cloud_profiler_python.Prelude.Int.{pos}
use cloud_profiler_python.Prelude.Result.{Result, ok, err}
use cloud_profiler_python.Prelude.Float.{Float, NotAbove, IsIeee}
use cloud_profiler_python.Backoff.{
  Backoff, Error, Library, new, init, requested, exponential, next_backoff,
}
use cloud_profiler_python.Backoff.Envelope.{IsValid, next_backoff-IsValid}

-- A draw between 0 and at most an hour can be slept: `random.uniform` lies between its bounds, and
-- `time.sleep` raises only where a duration is negative, too long or no number.
abbrev pub IsPatient : (fl : Float) → IsIeee fl → Library fl → Type 0
IsPatient fl ieee lib =
    (most : fl.F) (draw : lib.Draw)
    → ieee.IsNumber most
    → NotAbove fl (fl.of_ℤ (pos 0)) most
    → NotAbove fl most (fl.literal "3600.0")
    → lib.sleep (lib.uniform (fl.of_ℤ (pos 0)) most draw) ≡ ok tt

-- The literals of the client's backoffs are numbers, in their order.
pub record HasLiterals (fl : Float) (ieee : IsIeee fl) : Type 0 where
  pub factor : ieee.IsFactor (fl.literal "1.3")
  pub least_number : ieee.IsNumber (fl.literal "60.0")
  pub least_nonneg : NotAbove fl (fl.of_ℤ (pos 0)) (fl.literal "60.0")
  pub most_number : ieee.IsNumber (fl.literal "3600.0")
  pub most_nonneg : NotAbove fl (fl.of_ℤ (pos 0)) (fl.literal "3600.0")
  pub ordered : NotAbove fl (fl.literal "60.0") (fl.literal "3600.0")

module _ (fl : Float) (ieee : IsIeee fl) (lib : Library fl) where
  -- A backoff as the client has it.
  pub record IsReady (b : Backoff fl.F) : Type 0 where
    pub valid : IsValid fl ieee b
    pub most : b.max_envelope_sec ≡ fl.literal "3600.0"

  pub new-IsReady : HasLiterals fl ieee → IsReady (new fl)
  unfolding new init
  new-IsReady h = record {
    valid = record {
      max_number = h.most_number;
      max_nonneg = h.most_nonneg;
      number = h.least_number;
      nonneg = h.least_nonneg;
      factor = h.factor;
      above_min = ieee.lt_irrefl (fl.literal "60.0");
      below_max = h.ordered;
    };
    most = refl;
  }

  next_backoff-most :
      (b : Backoff fl.F) (error : Option (Error lib.Content)) (draw : lib.Draw)
      → (next_backoff fl lib b error draw).0.max_envelope_sec ≡ b.max_envelope_sec
  unfolding next_backoff exponential
  next_backoff-most b error draw = ground arith

  pub next_backoff-IsReady :
      (b : Backoff fl.F) (error : Option (Error lib.Content)) (draw : lib.Draw)
      → IsReady b
      → IsReady (next_backoff fl lib b error draw).0
  next_backoff-IsReady b error draw v = record {
    valid = (next_backoff-IsValid fl ieee lib b error draw v.valid).0;
    most = next_backoff-most b error draw ∙ v.most;
  }

  -- The delay that an error asks for.
  abbrev pub asked : Result (Option fl.F) → Option fl.F
  asked (ok found) = found
  asked (err e) = none

  pub requested-none : (draw : lib.Draw) → asked (requested fl lib none draw) ≡ none
  unfolding requested
  requested-none draw = refl

  pub next_backoff-asked :
      (b : Backoff fl.F) (error : Option (Error lib.Content)) (draw : lib.Draw) (seconds : fl.F)
      → asked (requested fl lib error draw) ≡ some seconds
      → (next_backoff fl lib b error draw).1 ≡ seconds
  unfolding next_backoff
  next_backoff-asked b error draw seconds h = ground (arith, h)

  next_backoff-own :
      (b : Backoff fl.F) (error : Option (Error lib.Content)) (draw : lib.Draw)
      → asked (requested fl lib error draw) ≡ none
      → (next_backoff fl lib b error draw).1
        ≡ lib.uniform (fl.of_ℤ (pos 0)) b.current_envelope_sec draw
  unfolding next_backoff exponential
  next_backoff-own b error draw h = ground (arith, h)

  -- Where an error asks for no delay, the sleep does not raise.
  pub own_sleep :
      IsPatient fl ieee lib
      → (b : Backoff fl.F) → IsReady b
      → (error : Option (Error lib.Content)) (draw : lib.Draw)
      → asked (requested fl lib error draw) ≡ none
      → lib.sleep (next_backoff fl lib b error draw).1 ≡ ok tt
  own_sleep patient b v error draw h =
      ap lib.sleep (next_backoff-own b error draw h)
      ∙ patient b.current_envelope_sec draw v.valid.number v.valid.nonneg
          (subst (NotAbove fl b.current_envelope_sec) v.most v.valid.below_max)
