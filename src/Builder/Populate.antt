-- ===== src/Builder/Populate.antt =====
-- googlecloudprofiler/builder.py: what a reader finds in a profile that `populate_profile` has filled.
use cloud_profiler_python.Prelude.{
  ℕ, ◌≡◌, refl, ◌∙◌, sym, some, List, [], ◌∷◌, ◌++◌, map, arith, String,
}
use cloud_profiler_python.Prelude.{nat_eq, string_eq}
use mathlib.Core.Path.{subst}
use cloud_profiler_python.Prelude.Dict
use cloud_profiler_python.Prelude.Dict.{Dict}
use cloud_profiler_python.Prelude.Int.{ℤ, pos, ◌*ℤ◌}
use cloud_profiler_python.Builder.{
  Trace, Builder, string_id, init, set_header, populate_profile, func_eq, loc_eq,
}
use cloud_profiler_python.Builder.Proto.{ValueType, Location, Function, Profile, empty_profile}
use cloud_profiler_python.Builder.Decode.{
  find_string, decode_samples, decode_type, decode_types, decode,
}
use cloud_profiler_python.Builder.Grows.{
  Grows, Grows-refl, Grows-trans, decode_type-Grows, decode_types-Grows,
}
use cloud_profiler_python.Builder.Table.{find, IsInterned-nil}
use cloud_profiler_python.Builder.Valid.{
  make_function, make_location, IsValid, Interns, Interns-trans, string_id-Interns, Grows-tables,
  IsValid-tables,
}
use cloud_profiler_python.Builder.RoundTrip.{sample_of, Holds, add_traces-Holds}

abbrev blank : Builder
blank = record { profile = empty_profile; function_map = []; location_map = []; string_map = [] }

blank-IsValid : IsValid blank
unfolding Dict.get find
blank-IsValid = record {
  strings = record {
    sizes = refl;
    sound = λ s i h. absurd (cc h);
    complete = λ s i h. absurd (cc h);
  };
  functions = IsInterned-nil Function.id make_function (λ k i. refl);
  locations = IsInterned-nil Location.id make_location (λ k i. refl);
  function_refs = λ i f h. absurd (cc h);
  location_refs = λ i l h. absurd (cc h);
}

pub init-Interns : Interns blank init × (find_string init.profile 0 ≡ some "")
unfolding init string_id Dict.get
init-Interns = string_id-Interns blank blank-IsValid ""

decode_type_lem :
    (p : Profile) (v : ValueType) {type unit : String}
    → find_string p v.type ≡ some type
    → find_string p v.unit ≡ some unit
    → decode_type p v ≡ some (type, unit)
unfolding decode_type
decode_type_lem p v h k = ground (arith, h, k)

decode_types_pair :
    (p : Profile) (vs : List ValueType) (v w : ValueType) {t u : String × String}
    → vs ≡ []
    → decode_type p v ≡ some t
    → decode_type p w ≡ some u
    → decode_types p (vs ++ (v ∷ w ∷ [])) ≡ some (t ∷ u ∷ [])
unfolding decode_types
decode_types_pair p vs v w e h k = rw (e, h, k)

module _ (profile_type period_unit : String) (period duration_ns : ℤ) where
  -- The two types of values, and the type of the period.
  abbrev pub HeaderHolds : Builder → Type 0
  HeaderHolds c =
      (decode_types c.profile c.profile.sample_type
        ≡ some (("sample", "count") ∷ (profile_type, period_unit) ∷ []))
      × (decode_type c.profile c.profile.period_type ≡ some (profile_type, period_unit))
      × (c.profile.period ≡ period)
      × (c.profile.duration_nanos ≡ duration_ns)

  pub record Headed (b c : Builder) : Type 0 where
    pub valid : IsValid c
    pub grows : Grows b.profile c.profile
    pub holds : HeaderHolds c
    pub samples : c.profile.sample ≡ b.profile.sample

  -- The header: each text is interned, and none of the texts before it is lost.
  set_header-Headed :
      (b : Builder)
      → IsValid b
      → b.profile.sample_type ≡ []
      → Headed b (set_header b profile_type period_unit period duration_ns)
  unfolding set_header
  set_header-Headed b v empty =
      let (b₁, i₁) = string_id b profile_type in
      let (g₁, e₁) = string_id-Interns b v profile_type in
      let (b₂, i₂) = string_id b₁ period_unit in
      let (g₂, e₂) = string_id-Interns b₁ g₁.valid period_unit in
      let pt : ValueType = record { type = i₁; unit = i₂ } in
      let p : Profile = record b₂.profile {
        period_type = pt;
        period = period;
        duration_nanos = duration_ns;
      } in
      let c : Builder = record b₂ { profile = p } in
      let w : Grows b₂.profile p = Grows-tables b₂ p refl refl refl in
      let (b₃, i₃) = string_id c "sample" in
      let (g₃, e₃) = string_id-Interns c (IsValid-tables b₂ p refl refl refl g₂.valid) "sample" in
      let (b₄, i₄) = string_id b₃ "count" in
      let (g₄, e₄) = string_id-Interns b₃ g₃.valid "count" in
      let (b₅, i₅) = string_id b₄ profile_type in
      let (g₅, e₅) = string_id-Interns b₄ g₄.valid profile_type in
      let (b₆, i₆) = string_id b₅ period_unit in
      let (g₆, e₆) = string_id-Interns b₅ g₅.valid period_unit in
      let type1 : ValueType = record { type = i₃; unit = i₄ } in
      let type2 : ValueType = record { type = i₅; unit = i₆ } in
      let q : Profile = record b₆.profile {
        sample_type = b₆.profile.sample_type ++ (type1 ∷ type2 ∷ []);
      } in
      let last : Grows b₆.profile q = Grows-tables b₆ q refl refl refl in
      let from_c : Interns c b₆ = Interns-trans g₃ (Interns-trans g₄ (Interns-trans g₅ g₆)) in
      let from_3 : Interns b₃ b₆ = Interns-trans g₄ (Interns-trans g₅ g₆) in
      let from_4 : Interns b₄ b₆ = Interns-trans g₅ g₆ in
      let types : b₆.profile.sample_type ≡ [] =
        from_c.sample_types ∙ g₂.sample_types ∙ g₁.sample_types ∙ empty in
      record {
        valid = IsValid-tables b₆ q refl refl refl g₆.valid;
        grows =
            Grows-trans g₁.grows
              (Grows-trans g₂.grows (Grows-trans w (Grows-trans from_c.grows last)));
        holds = (
          decode_types_pair q b₆.profile.sample_type type1 type2 types
              (decode_type_lem q type1
                (last.strings i₃ "sample" (from_3.grows.strings i₃ "sample" e₃))
                (last.strings i₄ "count" (from_4.grows.strings i₄ "count" e₄)))
              (decode_type_lem q type2
                (last.strings i₅ profile_type (g₆.grows.strings i₅ profile_type e₅))
                (last.strings i₆ period_unit e₆)),
          subst (λ (t : ValueType). decode_type q t ≡ some (profile_type, period_unit))
              (sym from_c.period_type)
              (decode_type-Grows (Grows-trans w (Grows-trans from_c.grows last)) pt
                (profile_type, period_unit)
                (decode_type_lem b₂.profile pt (g₂.grows.strings i₁ profile_type e₁) e₂)),
          from_c.period,
          from_c.duration,
        );
        samples = from_c.samples ∙ g₂.samples ∙ g₁.samples;
      }

  module _ (traces : Dict Trace ℕ) where
    abbrev pub built : Builder
    built = populate_profile init traces profile_type period_unit period duration_ns

    abbrev headed : Builder
    headed = set_header init profile_type period_unit period duration_ns

    init-Headed : Headed init headed
    init-Headed = set_header-Headed init init-Interns.0.valid init-Interns.0.sample_types

    populate-Holds : Holds headed built (map (sample_of period) traces)
    unfolding populate_profile decode_samples
    populate-Holds =
        let h = init-Headed in
        add_traces-Holds period headed headed [] traces (record {
          valid = h.valid;
          grows = Grows-refl headed.profile;
          header = record {
            sample_types = refl;
            period_type = refl;
            period = refl;
            duration = refl;
          };
          samples = rw (h.samples, init-Interns.0.samples);
        })

    -- Every table of the finished builder is in order.
    pub populate_profile-IsValid : IsValid built
    populate_profile-IsValid = populate-Holds.valid

    -- The empty text stands first.
    pub string_table-zero : find_string built.profile 0 ≡ some ""
    string_table-zero =
        populate-Holds.grows.strings 0 "" (init-Headed.grows.strings 0 "" init-Interns.1)

-- A reader of the profile that `populate_profile` leaves in a new builder finds the header that was
-- passed in, and one sample for each entry of the traces, in order: the trace with each of its
-- frames, its count, and the count times the period.
pub decode-populate_profile :
    (traces : Dict Trace ℕ) (profile_type period_unit : String) (period duration_ns : ℤ)
    → decode (populate_profile init traces profile_type period_unit period duration_ns).profile
      ≡ some (record {
        sample_types = ("sample", "count") ∷ (profile_type, period_unit) ∷ [];
        period_type = (profile_type, period_unit);
        period = period;
        duration_nanos = duration_ns;
        samples = map (λ (trace, count). (trace, pos count ∷ (period *ℤ pos count) ∷ [])) traces;
      })
unfolding decode
decode-populate_profile traces profile_type period_unit period duration_ns =
    let h = populate-Holds profile_type period_unit period duration_ns traces in
    let g = init-Headed profile_type period_unit period duration_ns traces in
    let (types, type, p, d) = g.holds in
    ground (
      arith,
      h.header,
      h.samples,
      p,
      d,
      decode_types-Grows h.grows _ _ types,
      decode_type-Grows h.grows _ _ type,
    )
