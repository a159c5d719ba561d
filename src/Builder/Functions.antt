-- ===== src/Builder/Functions.antt =====
-- googlecloudprofiler/builder.py: `_function_id` and `_location_id` keep the invariant.
use cloud_profiler_python.Prelude.{
  ℕ, ◌+◌, ◌≡◌, refl, none, some, List, [], ◌∷◌, ◌++◌, arith, inl, inr, String,
}
use cloud_profiler_python.Prelude.{nat_eq, string_eq, length, Option-cases}
use cloud_profiler_python.Prelude.Dict
use cloud_profiler_python.Prelude.Dict.{Dict}
use cloud_profiler_python.Builder.{
  Func, Loc, Frame, Builder, string_id, intern_function, function_id, location_id, func_eq, loc_eq,
}
use cloud_profiler_python.Builder.Proto.{Location, Function, Profile}
use cloud_profiler_python.Builder.Decode.{
  find_function, find_location, find_string, decode_function, decode_location,
}
use cloud_profiler_python.Builder.Grows.{Grows, decode_function-Grows, decode_location-Grows}
use cloud_profiler_python.Builder.Table.{IsInterned-intern, find-intern, id-intern_new, find-append}
use cloud_profiler_python.Builder.Valid.{
  make_function, make_location, IsValid, Interns, Interns-refl, Interns-trans, string_id-Interns,
}

module _ (b : Builder) (v : IsValid b) (name filename : String) (func : Func)
    (named : find_string b.profile func.name ≡ some name)
    (filed : find_string b.profile func.filename ≡ some filename) where
  abbrev InternedFunction : Builder × ℕ → Type 0
  InternedFunction (c, i) = Interns b c × (decode_function c.profile i ≡ some (name, filename))

  module _ (fresh : Dict.get b.function_map func ≡ none) where
    abbrev function_list : List Function
    function_list = b.profile.function ++ make_function func (length b.function_map + 1) ∷ []

    abbrev with_function : Profile
    with_function = record b.profile { function = function_list }

    function-Grows : Grows b.profile with_function
    function-Grows = record {
      strings = λ i s h. h;
      functions = λ i f h. find-append Function.id i b.profile.function _ h;
      locations = λ i l h. h;
    }

    decode_new : decode_function with_function (length b.function_map + 1) ≡ some (name, filename)
    unfolding decode_function
    decode_new = ground (
      arith,
      named,
      filed,
      find-intern Function.id make_function (λ k i. refl) b.function_map b.profile.function
          v.functions func fresh,
    )

    function_refs_new :
        (i : ℕ) (f : Function)
        → find_function with_function i ≡ some f
        → (r : String × String) × (decode_function with_function i ≡ some r)
    function_refs_new i f h = elim (Option-cases (find_function b.profile i)) [
      | inl absent ↦ (
        (name, filename),
        ground (
          arith,
          decode_new,
          id-intern_new Function.id make_function (λ k j. refl) b.function_map b.profile.function
              v.functions func fresh i f absent h,
        ),
      )
      | inr (g, present) ↦
          let (r, e) = v.function_refs i g present in
          (r, decode_function-Grows function-Grows i r e)
    ]

    intern_function_new : InternedFunction (
      record b {
        function_map = Dict.insert func (length b.function_map + 1) b.function_map;
        profile = with_function;
      },
      length b.function_map + 1,
    )
    intern_function_new = (
      record {
        valid = record {
          strings = v.strings;
          functions =
              IsInterned-intern Function.id make_function (λ k i. refl) b.function_map
                b.profile.function v.functions func fresh;
          locations = v.locations;
          function_refs = function_refs_new;
          location_refs = λ i l h.
              let (r, e) = v.location_refs i l h in (r, decode_location-Grows function-Grows i r e);
        };
        grows = function-Grows;
        samples = refl;
        sample_types = refl;
        period_type = refl;
        period = refl;
        duration = refl;
      },
      decode_new,
    )

  decode_old :
      (i : ℕ)
      → Dict.get b.function_map func ≡ some i
      → decode_function b.profile i ≡ some (name, filename)
  unfolding decode_function
  decode_old i old = ground (arith, named, filed, v.functions.sound func i old)

  intern_function-Interns : InternedFunction (intern_function b func)
  unfolding intern_function
  intern_function-Interns = elim (Option-cases (Dict.get b.function_map func)) [
    | inl fresh ↦ rw (fresh, intern_function) (intern_function_new fresh)
    | inr (i, old) ↦ rw (old, intern_function) (Interns-refl v, ground (arith, decode_old i old))
  ]

module _ (b : Builder) (v : IsValid b) (name filename : String) where
  -- `_function_id` keeps the invariant, loses nothing, and returns an identifier of the function.
  pub function_id-Interns :
      Interns b (function_id b name filename).0
      × (decode_function (function_id b name filename).0.profile (function_id b name filename).1
          ≡ some (name, filename))
  unfolding function_id
  function_id-Interns =
      let (b₁, i) = string_id b name in
      let (g₁, named) = string_id-Interns b v name in
      let (b₂, j) = string_id b₁ filename in
      let (g₂, filed) = string_id-Interns b₁ g₁.valid filename in
      let (g₃, e) =
        intern_function-Interns b₂ g₂.valid name filename (record { name = i; filename = j })
          (g₂.grows.strings i name named) filed in
      (Interns-trans g₁ (Interns-trans g₂ g₃), e)

module _ (b : Builder) (v : IsValid b) (loc : Loc) (name filename : String)
    (func : decode_function b.profile loc.func_id ≡ some (name, filename)) where
  abbrev frame : Frame
  frame = (name, filename, loc.line_number)

  abbrev InternedLocation : Builder × ℕ → Type 0
  InternedLocation (c, i) = Interns b c × (decode_location c.profile i ≡ some frame)

  module _ (fresh : Dict.get b.location_map loc ≡ none) where
    abbrev with_location : Profile
    with_location = record b.profile {
      location = b.profile.location ++ make_location loc (length b.location_map + 1) ∷ [];
    }

    location-Grows : Grows b.profile with_location
    location-Grows = record {
      strings = λ i s h. h;
      functions = λ i f h. h;
      locations = λ i l h. find-append Location.id i b.profile.location _ h;
    }

    decode_new_location : decode_location with_location (length b.location_map + 1) ≡ some frame
    unfolding decode_location
    decode_new_location = ground (
      arith,
      decode_function-Grows location-Grows loc.func_id (name, filename) func,
      find-intern Location.id make_location (λ k i. refl) b.location_map b.profile.location
          v.locations loc fresh,
    )

    location_refs_new :
        (i : ℕ) (l : Location)
        → find_location with_location i ≡ some l
        → (r : Frame) × (decode_location with_location i ≡ some r)
    location_refs_new i l h = elim (Option-cases (find_location b.profile i)) [
      | inl absent ↦ (
        frame,
        ground (
          arith,
          decode_new_location,
          id-intern_new Location.id make_location (λ k j. refl) b.location_map b.profile.location
              v.locations loc fresh i l absent h,
        ),
      )
      | inr (g, present) ↦
          let (r, e) = v.location_refs i g present in
          (r, decode_location-Grows location-Grows i r e)
    ]

    location_id_new : InternedLocation (
      record b {
        location_map = Dict.insert loc (length b.location_map + 1) b.location_map;
        profile = with_location;
      },
      length b.location_map + 1,
    )
    location_id_new = (
      record {
        valid = record {
          strings = v.strings;
          functions = v.functions;
          locations =
              IsInterned-intern Location.id make_location (λ k i. refl) b.location_map
                b.profile.location v.locations loc fresh;
          function_refs = λ i f h.
              let (r, e) = v.function_refs i f h in (r, decode_function-Grows location-Grows i r e);
          location_refs = location_refs_new;
        };
        grows = location-Grows;
        samples = refl;
        sample_types = refl;
        period_type = refl;
        period = refl;
        duration = refl;
      },
      decode_new_location,
    )

  decode_old_location :
      (i : ℕ) → Dict.get b.location_map loc ≡ some i → decode_location b.profile i ≡ some frame
  unfolding decode_location
  decode_old_location i old = ground (arith, func, v.locations.sound loc i old)

  -- `_location_id` keeps the invariant, loses nothing, and returns an identifier of the frame.
  pub location_id-Interns : InternedLocation (location_id b loc.func_id loc.line_number)
  unfolding location_id
  location_id-Interns = elim (Option-cases (Dict.get b.location_map loc)) [
    | inl fresh ↦ rw (fresh, location_id) (location_id_new fresh)
    | inr (i, old) ↦ rw (old, location_id) (Interns-refl v, decode_old_location i old)
  ]
