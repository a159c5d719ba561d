-- ===== src/Backoff/Envelope.antt =====
-- googlecloudprofiler/backoff.py: the envelope of the exponential backoff.
use cloud_profiler_python.Prelude.{Option, arith}
use cloud_profiler_python.Prelude.{nat_eq, string_eq}
use cloud_profiler_python.Prelude.Int.{pos}
use cloud_profiler_python.Prelude.Float.{Float, NotAbove, IsIeee, min_py, min_py-pick, min_py-le}
use cloud_profiler_python.Backoff.{Backoff, Error, Library, exponential, next_backoff}

module _ (fl : Float) (ieee : IsIeee fl) where
  -- The parameters make sense, and the envelope lies between the minimum and the maximum.
  pub record IsValid (b : Backoff fl.F) : Type 0 where
    pub max_number : ieee.IsNumber b.max_envelope_sec
    pub max_nonneg : NotAbove fl (fl.of_ℤ (pos 0)) b.max_envelope_sec
    pub number : ieee.IsNumber b.current_envelope_sec
    pub nonneg : NotAbove fl (fl.of_ℤ (pos 0)) b.current_envelope_sec
    pub factor : ieee.IsFactor b.multiplier
    pub above_min : NotAbove fl b.min_envelope_sec b.current_envelope_sec
    pub below_max : NotAbove fl b.current_envelope_sec b.max_envelope_sec

  module _ (lib : Library fl) where
    -- A failure without a delay of its own: the envelope stays in order and does not shrink.
    exponential-IsValid :
        (b : Backoff fl.F) (draw : lib.Draw)
        → IsValid b
        → IsValid (exponential fl lib b draw).0
          × NotAbove fl b.current_envelope_sec (exponential fl lib b draw).0.current_envelope_sec
    unfolding exponential
    exponential-IsValid b draw v =
        let cur = b.current_envelope_sec in
        let top = b.max_envelope_sec in
        let grown = fl.mul cur b.multiplier in
        let grows = ieee.mul_grows cur b.multiplier v.number v.nonneg v.factor in
        let number = ieee.IsNumber-mul cur b.multiplier v.number v.nonneg v.factor in
        let rises : NotAbove fl cur (min_py fl top grown) =
          min_py-pick fl (NotAbove fl cur) top grown v.below_max grows in
        (
          record {
            max_number = v.max_number;
            max_nonneg = v.max_nonneg;
            number = min_py-pick fl ieee.IsNumber top grown v.max_number number;
            nonneg = ieee.not_above_trans _ cur _ v.number v.nonneg rises;
            factor = v.factor;
            above_min = ieee.not_above_trans _ cur _ v.number v.above_min rises;
            below_max = min_py-le fl ieee top grown;
          },
          rises,
        )

    -- For float arithmetic that meets the laws, and a backoff whose parameters make sense and whose
    -- envelope lies between the minimum and the maximum: `next_backoff` keeps all that, and does not
    -- shrink the envelope.
    pub next_backoff-IsValid :
        (b : Backoff fl.F) (error : Option (Error lib.Content)) (draw : lib.Draw)
        → IsValid b
        → IsValid (next_backoff fl lib b error draw).0
          × NotAbove fl b.current_envelope_sec
              (next_backoff fl lib b error draw).0.current_envelope_sec
    unfolding next_backoff
    next_backoff-IsValid b error draw v =
        ground (arith, v, exponential-IsValid b draw v, ieee.lt_irrefl b.current_envelope_sec)
