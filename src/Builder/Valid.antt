-- ===== src/Builder/Valid.antt =====
-- The invariant of the builder: its three dictionaries and the tables of its profile agree, and
-- what the tables refer to is there.
use cloud_profiler_python.Prelude.{
  ℕ, ◌≡◌, refl, ◌∙◌, none, some, List, [], ◌∷◌, ◌++◌, arith, inl, inr, String,
}
use cloud_profiler_python.Prelude.{
  ◌==◌, nat_eq, string_eq, length, get_elem?, get_elem?-append, get_elem?-append_last,
  get_elem?-append_cases, Bool-cases, Option-cases, length-append, eq_iff,
}
use cloud_profiler_python.Prelude.Dict
use cloud_profiler_python.Prelude.Dict.{Dict}
use cloud_profiler_python.Builder.{Func, Loc, Frame, Builder, string_id, func_eq, loc_eq}
use cloud_profiler_python.Builder.Proto.{Location, Function, Profile}
use cloud_profiler_python.Builder.Decode.{
  find_function, find_location, find_string, decode_function, decode_location,
}
use cloud_profiler_python.Builder.Grows.{
  Grows, Grows-refl, Grows-trans, decode_function-Grows, decode_location-Grows,
}
use cloud_profiler_python.Builder.Table.{IsInterned}

abbrev pub make_function : Func → ℕ → Function
make_function f i = record { id = i; name = f.name; filename = f.filename }

abbrev pub make_location : Loc → ℕ → Location
make_location l i = record {
  id = i;
  line = (record { function_id = l.func_id; line = l.line_number }) ∷ [];
}

-- The strings are numbered from 0 in the order of the table.
pub record AreStrings (d : Dict String ℕ) (table : List String) : Type 0 where
  pub sizes : length d ≡ length table
  pub sound : (s : String) (i : ℕ) → Dict.get d s ≡ some i → get_elem? table i ≡ some s
  pub complete : (s : String) (i : ℕ) → get_elem? table i ≡ some s → Dict.get d s ≡ some i

pub record IsValid (b : Builder) : Type 0 where
  pub strings : AreStrings b.string_map b.profile.string_table
  pub functions : IsInterned Function.id make_function b.function_map b.profile.function
  pub locations : IsInterned Location.id make_location b.location_map b.profile.location
  pub function_refs :
      (i : ℕ) (f : Function)
      → find_function b.profile i ≡ some f
      → (r : String × String) × (decode_function b.profile i ≡ some r)
  pub location_refs :
      (i : ℕ) (l : Location)
      → find_location b.profile i ≡ some l
      → (r : Frame) × (decode_location b.profile i ≡ some r)

-- What every interning method does to the builder.
pub record Interns (b c : Builder) : Type 0 where
  pub valid : IsValid c
  pub grows : Grows b.profile c.profile
  pub samples : c.profile.sample ≡ b.profile.sample
  pub sample_types : c.profile.sample_type ≡ b.profile.sample_type
  pub period_type : c.profile.period_type ≡ b.profile.period_type
  pub period : c.profile.period ≡ b.profile.period
  pub duration : c.profile.duration_nanos ≡ b.profile.duration_nanos

pub Interns-refl : {b : Builder} → IsValid b → Interns b b
Interns-refl {b} v = record {
  valid = v;
  grows = Grows-refl b.profile;
  samples = refl;
  sample_types = refl;
  period_type = refl;
  period = refl;
  duration = refl;
}

pub Interns-trans : {a b c : Builder} → Interns a b → Interns b c → Interns a c
Interns-trans g h = record {
  valid = h.valid;
  grows = Grows-trans g.grows h.grows;
  samples = h.samples ∙ g.samples;
  sample_types = h.sample_types ∙ g.sample_types;
  period_type = h.period_type ∙ g.period_type;
  period = h.period ∙ g.period;
  duration = h.duration ∙ g.duration;
}

module _ (s : String) (d : Dict String ℕ) (table : List String) (v : AreStrings d table)
    (fresh : Dict.get d s ≡ none) where
  get_sound :
      (t : String) (i : ℕ)
      → Dict.get (Dict.insert s (length d) d) t ≡ some i
      → get_elem? (table ++ s ∷ []) i ≡ some t
  get_sound t i h = elim (Bool-cases (t == s)) [
    | inl same ↦ ground (
      arith,
      v.sizes,
      Dict.get-insert s t (length d) d,
      eq_iff t s,
      get_elem?-append_last table s,
    )
    | inr other ↦
        get_elem?-append table (s ∷ []) i
          (v.sound t i (ground (arith, Dict.get-insert s t (length d) d)))
  ]

  get_complete :
      (t : String) (i : ℕ)
      → get_elem? (table ++ s ∷ []) i ≡ some t
      → Dict.get (Dict.insert s (length d) d) t ≡ some i
  get_complete t i h = elim (get_elem?-append_cases table s i h) [
    | inl old ↦ ground (arith, v.complete t i old, Dict.get-insert s t (length d) d, eq_iff t s)
    | inr (last, new) ↦ ground (arith, v.sizes, Dict.get-insert s t (length d) d, eq_iff t s)
  ]

  AreStrings-add : AreStrings (Dict.insert s (length d) d) (table ++ s ∷ [])
  AreStrings-add = record {
    sizes =
        omega
          (arith, v.sizes, Dict.length-insert s (length d) d fresh, length-append table (s ∷ []));
    sound = get_sound;
    complete = get_complete;
  }

module _ (b : Builder) (v : IsValid b) (value : String) where
  abbrev Interned : Builder × ℕ → Type 0
  Interned (c, i) = Interns b c × (find_string c.profile i ≡ some value)

  module _ (fresh : Dict.get b.string_map value ≡ none) where
    string-Grows :
        Grows b.profile (record b.profile { string_table = b.profile.string_table ++ value ∷ [] })
    string-Grows = record {
      strings = λ i s h. get_elem?-append b.profile.string_table (value ∷ []) i h;
      functions = λ i f h. h;
      locations = λ i l h. h;
    }

    string_id_new : Interned (
      record b {
        string_map = Dict.insert value (length b.string_map) b.string_map;
        profile = record b.profile { string_table = b.profile.string_table ++ value ∷ [] };
      },
      length b.string_map,
    )
    string_id_new = (
      record {
        valid = record {
          strings = AreStrings-add value b.string_map b.profile.string_table v.strings fresh;
          functions = v.functions;
          locations = v.locations;
          function_refs = λ i f h.
              let (r, e) = v.function_refs i f h in (r, decode_function-Grows string-Grows i r e);
          location_refs = λ i l h.
              let (r, e) = v.location_refs i l h in (r, decode_location-Grows string-Grows i r e);
        };
        grows = string-Grows;
        samples = refl;
        sample_types = refl;
        period_type = refl;
        period = refl;
        duration = refl;
      },
      ground (arith, v.strings.sizes, get_elem?-append_last b.profile.string_table value),
    )

  -- `_string_id` keeps the invariant, loses nothing, and returns where its text stands.
  pub string_id-Interns :
      Interns b (string_id b value).0
      × (find_string (string_id b value).0.profile (string_id b value).1 ≡ some value)
  unfolding string_id
  string_id-Interns = elim (Option-cases (Dict.get b.string_map value)) [
    | inl fresh ↦ rw (fresh, string_id) (string_id_new fresh)
    | inr (i, old) ↦ rw (old, string_id) (Interns-refl v, v.strings.sound value i old)
  ]

-- A text that stands in the table keeps its place, and the builder does not change.
pub string_id-known :
    (b : Builder) (value : String) (i : ℕ)
    → IsValid b
    → find_string b.profile i ≡ some value
    → string_id b value ≡ (b, i)
unfolding string_id
string_id-known b value i v h = rw (v.strings.complete value i h, string_id)

-- The fields beside the three tables may change.
module _ (c : Builder) (q : Profile) (strings : q.string_table ≡ c.profile.string_table)
    (functions : q.function ≡ c.profile.function)
    (locations : q.location ≡ c.profile.location) where
  pub Grows-tables : Grows c.profile q
  Grows-tables = record {
    strings = λ i s h. rw strings h;
    functions = λ i f h. rw functions h;
    locations = λ i l h. rw locations h;
  }

  pub IsValid-tables : IsValid c → IsValid (record c { profile = q })
  IsValid-tables v = record {
    strings = rw strings v.strings;
    functions = rw functions v.functions;
    locations = rw locations v.locations;
    function_refs = λ i f h.
        let (r, e) = v.function_refs i f (rw functions at h) in
        (r, decode_function-Grows Grows-tables i r e);
    location_refs = λ i l h.
        let (r, e) = v.location_refs i l (rw locations at h) in
        (r, decode_location-Grows Grows-tables i r e);
  }
