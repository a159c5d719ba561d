-- ===== src/Builder/WellFormed.antt =====
-- googlecloudprofiler/builder.py: the tables of a finished profile are in the form that profile.proto asks for, and no larger than the traces.
use cloud_profiler_python.Prelude.{
  ℕ, zero, suc, ◌≡◌, refl, ap, ◌∙◌, some, List, [], ◌∷◌, map, arith, String,
}
use cloud_profiler_python.Prelude.{Eq, nat_eq, string_eq, length}
use cloud_profiler_python.Prelude.Dict.{Dict}
use cloud_profiler_python.Prelude.Int.{ℤ}
use cloud_profiler_python.Builder.{Frame, Trace, Builder, init, populate_profile, func_eq, loc_eq}
use cloud_profiler_python.Builder.Proto.{Location, Function, Profile}
use cloud_profiler_python.Builder.Decode.{
  find_function, find_location, find_string, decode_function, decode_location,
}
use cloud_profiler_python.Builder.Table.{count_up, IsInterned}
use cloud_profiler_python.Builder.Valid.{make_function, make_location, IsValid}
use cloud_profiler_python.Builder.Populate.{populate_profile-IsValid, string_table-zero}

-- The rules of profile.proto, and that no entry of a table is there twice.
pub record IsWellFormed (p : Profile) : Type 0 where
  pub first_string : find_string p 0 ≡ some ""
  pub strings_distinct :
      (i j : ℕ) (s : String) → find_string p i ≡ some s → find_string p j ≡ some s → i ≡ j
  pub function_ids : map Function.id p.function ≡ count_up 1 (length p.function)
  pub location_ids : map Location.id p.location ≡ count_up 1 (length p.location)
  pub functions_distinct :
      (i j : ℕ) (f g : Function)
      → find_function p i ≡ some f
      → find_function p j ≡ some g
      → f.name ≡ g.name
      → f.filename ≡ g.filename
      → i ≡ j
  pub locations_distinct :
      (i j : ℕ) (l m : Location)
      → find_location p i ≡ some l
      → find_location p j ≡ some m
      → l.line ≡ m.line
      → i ≡ j
  pub functions_resolve :
      (i : ℕ) (f : Function)
      → find_function p i ≡ some f
      → (r : String × String) × (decode_function p i ≡ some r)
  pub locations_resolve :
      (i : ℕ) (l : Location)
      → find_location p i ≡ some l
      → (r : Frame) × (decode_location p i ≡ some r)

length-map {ℓ κ} :
    {A : Type ℓ} {B : Type κ} (f : A → B) (xs : List A) → length (map f xs) ≡ length xs
length-map f [] = refl
length-map f (x ∷ xs) = ap suc (length-map f xs)

length-count_up : (s n : ℕ) → length (count_up s n) ≡ n
length-count_up s zero = refl
length-count_up s (suc n) = ap suc (length-count_up (suc s) n)

module _ (b : Builder) (v : IsValid b) where
  functions_distinct_lem :
      (i j : ℕ) (f g : Function)
      → find_function b.profile i ≡ some f
      → find_function b.profile j ≡ some g
      → f.name ≡ g.name
      → f.filename ≡ g.filename
      → i ≡ j
  functions_distinct_lem i j f g hi hj n m =
      let (k, gi, fi) = v.functions.complete i f hi in
      let (l, gj, fj) = v.functions.complete j g hj in
      let same : k ≡ l = ground arith in ground arith

  locations_distinct_lem :
      (i j : ℕ) (l m : Location)
      → find_location b.profile i ≡ some l
      → find_location b.profile j ≡ some m
      → l.line ≡ m.line
      → i ≡ j
  locations_distinct_lem i j f g hi hj n =
      let (k, gi, fi) = v.locations.complete i f hi in
      let (l, gj, fj) = v.locations.complete j g hj in
      let same : k ≡ l = ground arith in ground arith

module _ {K R : Type 0} ⦃e : Eq K⦄ (id_of : R → ℕ) (make : K → ℕ → R) (d : Dict K ℕ)
    (rs : List R) where
  ids_of_IsInterned : IsInterned id_of make d rs → map id_of rs ≡ count_up 1 (length rs)
  ids_of_IsInterned t =
      let sizes : length d ≡ length rs =
        omega (arith, ap (length {0}) t.ids, length-map id_of rs, length-count_up 1 (length d)) in
      t.ids ∙ ap (count_up 1) sizes

strings_distinct_lem :
    (b : Builder) (i j : ℕ) (s : String)
    → IsValid b
    → find_string b.profile i ≡ some s
    → find_string b.profile j ≡ some s
    → i ≡ j
strings_distinct_lem b i j s v hi hj =
    let gi = v.strings.complete s i hi in let gj = v.strings.complete s j hj in ground arith

-- Whatever the traces, `populate_profile` on a new builder leaves a profile in which the empty text
-- stands first in the string table, no text stands there twice, the identifiers of the functions
-- and of the locations are 1, 2, …, in order, no function and no location is there twice, and all
-- that a function or a location refers to is there.
pub populate_profile-IsWellFormed :
    (traces : Dict Trace ℕ) (profile_type period_unit : String) (period duration_ns : ℤ)
    → IsWellFormed
        (populate_profile init traces profile_type period_unit period duration_ns).profile
populate_profile-IsWellFormed traces profile_type period_unit period duration_ns =
    let b = populate_profile init traces profile_type period_unit period duration_ns in
    let v : IsValid b =
      populate_profile-IsValid profile_type period_unit period duration_ns traces in
    record {
      first_string = string_table-zero profile_type period_unit period duration_ns traces;
      strings_distinct = λ i j s hi hj. strings_distinct_lem b i j s v hi hj;
      function_ids =
          ids_of_IsInterned Function.id make_function b.function_map b.profile.function v.functions;
      location_ids =
          ids_of_IsInterned Location.id make_location b.location_map b.profile.location v.locations;
      functions_distinct = functions_distinct_lem b v;
      locations_distinct = locations_distinct_lem b v;
      functions_resolve = v.function_refs;
      locations_resolve = v.location_refs;
    }
