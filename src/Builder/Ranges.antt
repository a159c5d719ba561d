-- ===== src/Builder/Ranges.antt =====
-- googlecloudprofiler/builder.py: the assignments to the fields of the profile. A field of profile.proto
-- is an `int64` or a `uint64`; the protocol buffer refuses a number outside its range.

pub mod Lines
pub mod InRange
use cloud_profiler_python.Prelude.{
  ℕ, zero, suc, ◌+◌, ◌*◌, ◌≤◌, ◌<◌, ◌≡◌, refl, ap, sym, ◌∙◌, some, none, List, [], ◌∷◌, map, arith,
  String, Option,
}
use cloud_profiler_python.Prelude.{
  nat_beq, nat_eq, string_eq, length, get_elem?, All, All-weaken, if◌then◌else◌,
}
use Prim.Native.Nat.{◌^◌}
use mathlib.Core.Path.{subst}
use cloud_profiler_python.Prelude.Dict.{Dict}
use cloud_profiler_python.Prelude.Int.{ℤ, pos, pos_part, neg_part, ◌*ℤ◌}
use cloud_profiler_python.Builder.{Frame, Trace, init, populate_profile}
use cloud_profiler_python.Builder.Proto.{ValueType, Sample, Line, Location, Function, Profile}
use cloud_profiler_python.Builder.Decode.{
  find_function, find_location, find_string, only_line, decode_function, decode_location,
  decode_trace, decode_samples, decode_type, decode_types, ◌>>=◌,
}
use cloud_profiler_python.Builder.Table.{count_up, find, find_bounds}

abbrev pub IsInt64 : ℤ → Type 0
IsInt64 z = (pos_part z < 2 ^ 63) × (neg_part z ≤ 2 ^ 63)

-- An `int64` that is not negative.
abbrev pub IsIndex : ℕ → Type 0
IsIndex n = n < 2 ^ 63

abbrev pub IsUint64 : ℕ → Type 0
IsUint64 n = n < 2 ^ 64

abbrev pub TypeFits : ValueType → Type 0
TypeFits v = IsIndex v.type × IsIndex v.unit

abbrev pub SampleFits : Sample → Type 0
SampleFits s = All IsUint64 s.location_id × All IsInt64 s.value

abbrev pub LineFits : Line → Type 0
LineFits l = IsUint64 l.function_id × IsInt64 l.line

abbrev pub LocationFits : Location → Type 0
LocationFits l = IsUint64 l.id × All LineFits l.line

abbrev pub FunctionFits : Function → Type 0
FunctionFits f = IsUint64 f.id × IsIndex f.name × IsIndex f.filename

-- Every field of the profile is in its range.
pub record Fits (p : Profile) : Type 0 where
  pub sample_types : All TypeFits p.sample_type
  pub period_type : TypeFits p.period_type
  pub samples : All SampleFits p.sample
  pub locations : All LocationFits p.location
  pub functions : All FunctionFits p.function
  pub duration_nanos : IsInt64 p.duration_nanos
  pub period : IsInt64 p.period

get_elem?-bound :
    {A : Type 0} (xs : List A) (i : ℕ) {a : A} → get_elem? xs i ≡ some a → i < length xs
get_elem?-bound [] i h = absurd (cc h)
get_elem?-bound (x ∷ xs) zero h = omega arith
get_elem?-bound (x ∷ xs) (suc i) h = omega (arith, get_elem?-bound xs i h)

pub bind-some {ℓ κ} :
    {A : Type ℓ} {B : Type κ} (o : Option A) (f : A → Option B) {b : B}
    → (o >>= f) ≡ some b
    → (a : A) × (o ≡ some a) × (f a ≡ some b)
bind-some none f h = absurd (cc h)
bind-some (some a) f h = (a, refl, h)

some_inj : {A : Type 0} {a b : A} → some a ≡ some b → a ≡ b
some_inj h = cc h

-- What is resolved has a small identifier.
module _ (p : Profile) (few : length p.string_table < 2 ^ 63) where
  string-IsIndex : (i : ℕ) {s : String} → find_string p i ≡ some s → IsIndex i
  string-IsIndex i h = omega (arith, get_elem?-bound p.string_table i h, few)

  pub type-TypeFits : (v : ValueType) {t : String × String} → decode_type p v ≡ some t → TypeFits v
  unfolding decode_type
  type-TypeFits v h =
      let (type, typed, h') =
        bind-some (find_string p v.type)
          (λ type. find_string p v.unit >>= (λ unit. some (type, unit))) h in
      let (unit, in_unit, _) = bind-some (find_string p v.unit) (λ unit. some (type, unit)) h' in
      (string-IsIndex v.type typed, string-IsIndex v.unit in_unit)

  pub types-TypeFits :
      (vs : List ValueType) {ts : List (String × String)}
      → decode_types p vs ≡ some ts
      → All TypeFits vs
  unfolding decode_types
  types-TypeFits [] h = tt
  types-TypeFits (v ∷ vs) h =
      let (t, typed, h') =
        bind-some (decode_type p v) (λ t. decode_types p vs >>= (λ ts. some (t ∷ ts))) h in
      let (ts, rest, _) = bind-some (decode_types p vs) (λ ts. some (t ∷ ts)) h' in
      (type-TypeFits v typed, types-TypeFits vs rest)

  pub function-names :
      (i : ℕ) (f : Function) {r : String × String}
      → find_function p i ≡ some f
      → decode_function p i ≡ some r
      → IsIndex f.name × IsIndex f.filename
  unfolding decode_function
  function-names i f found h =
      let texts : Function → Option (String × String) = λ f.
        find_string p f.name
        >>= (λ name. find_string p f.filename >>= (λ filename. some (name, filename))) in
      let (g, found', h') = bind-some (find_function p i) texts h in
      let same : g ≡ f = cc (found, found') in
      let (name, named, h'') =
        bind-some (find_string p f.name)
          (λ name. find_string p f.filename >>= (λ filename. some (name, filename)))
          (ap texts (sym same) ∙ h') in
      let (filename, filed, _) =
        bind-some (find_string p f.filename) (λ filename. some (name, filename)) h'' in
      (string-IsIndex f.name named, string-IsIndex f.filename filed)

-- The identifiers of a table of consecutive identifiers.
module _ {R : Type 0} (id_of : R → ℕ) where
  pub id-bound :
      (s i n : ℕ) (rs : List R) {r : R}
      → map id_of rs ≡ count_up s n
      → find id_of i rs ≡ some r
      → i < s + n
  id-bound s i n rs ids h = (find_bounds id_of s i n rs ids h).1

  -- Every record is found under its identifier.
  pub found_each :
      (s n : ℕ) (rs : List R)
      → map id_of rs ≡ count_up s n
      → All (λ r. (s ≤ id_of r) × (find id_of (id_of r) rs ≡ some r)) rs
  unfolding find
  found_each s n [] ids = tt
  found_each s zero (r ∷ rs) ids = absurd (cc ids)
  found_each s (suc n) (r ∷ rs) ids =
      let head : id_of r ≡ s = ground (arith, ids) in
      let tail : map id_of rs ≡ count_up (suc s) n = ground (arith, ids) in
      (
        (omega (arith, head), ground arith),
        All-weaken (λ q h. (omega (arith, h.0), ground (arith, h, head))) rs
            (found_each (suc s) n rs tail),
      )

-- The identifiers of the locations of a sample.
module _ (p : Profile) (ids : map Location.id p.location ≡ count_up 1 (length p.location))
    (few : length p.location < 2 ^ 63) where
  trace-IsUint64 : (is : List ℕ) {t : Trace} → decode_trace p is ≡ some t → All IsUint64 is
  unfolding decode_trace decode_location
  trace-IsUint64 [] h = tt
  trace-IsUint64 (i ∷ is) h =
      let (frame, framed, h') =
        bind-some (decode_location p i) (λ frame. decode_trace p is >>= (λ t. some (frame ∷ t)))
          h in
      let (t, rest, _) = bind-some (decode_trace p is) (λ t. some (frame ∷ t)) h' in
      let (l, found, _) =
        bind-some (find_location p i)
          (λ l.
            only_line l
            >>= (λ line. decode_function p line.function_id >>= (λ r. some (r.0, r.1, line.line))))
          framed in
      (
        omega (arith, id-bound Location.id 1 i (length p.location) p.location ids found, few),
        trace-IsUint64 is rest,
      )

  pub samples-SampleFits :
      (ss : List Sample) {ts : List (Trace × List ℤ)}
      → decode_samples p ss ≡ some ts
      → All (λ t. All IsInt64 t.1) ts
      → All SampleFits ss
  unfolding decode_samples
  samples-SampleFits [] h all = tt
  samples-SampleFits (s ∷ ss) h all =
      let (t, traced, h') =
        bind-some (decode_trace p s.location_id)
          (λ t. decode_samples p ss >>= (λ ts. some ((t, s.value) ∷ ts))) h in
      let (ts, rest, e) = bind-some (decode_samples p ss) (λ ts. some ((t, s.value) ∷ ts)) h' in
      let values = subst (All (λ (t : Trace × List ℤ). All IsInt64 t.1)) (some_inj (sym e)) all in
      ((trace-IsUint64 s.location_id traced, values.0), samples-SampleFits ss rest values.1)
