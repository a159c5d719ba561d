-- ===== src/Builder/Decode.antt =====
-- A reader of the profiles that googlecloudprofiler/builder.py builds, as profile.proto describes
-- them: identifiers are looked up in the tables, texts by their position in the string table.
use cloud_profiler_python.Prelude.{ℕ, Option, none, some, List, [], ◌∷◌, String, get_elem?}
use cloud_profiler_python.Prelude.Int.{ℤ}
use cloud_profiler_python.Builder.{Frame, Trace}
use cloud_profiler_python.Builder.Proto.{ValueType, Sample, Line, Location, Function, Profile}
use cloud_profiler_python.Builder.Table.{find}

infixl 10 ◌>>=◌
abbrev pub ◌>>=◌ {ℓ κ} : {A : Type ℓ} {B : Type κ} → Option A → (A → Option B) → Option B
none >>= f = none
some a >>= f = f a

abbrev pub find_function : Profile → ℕ → Option Function
find_function p i = find Function.id i p.function

abbrev pub find_location : Profile → ℕ → Option Location
find_location p i = find Location.id i p.location

abbrev pub find_string : Profile → ℕ → Option String
find_string p i = get_elem? p.string_table i

-- A location of an interpreted program has one line.
abbrev pub only_line : Location → Option Line
only_line l = elim l.line [ [] ↦ none | line ∷ rest ↦ elim rest [ [] ↦ some line | _ ∷ _ ↦ none ] ]

unfoldable pub decode_function : Profile → ℕ → Option (String × String)
decode_function p i = do
  f ← find_function p i
  name ← find_string p f.name
  filename ← find_string p f.filename
  some (name, filename)

unfoldable pub decode_location : Profile → ℕ → Option Frame
decode_location p i = do
  l ← find_location p i
  line ← only_line l
  (name, filename) ← decode_function p line.function_id
  some (name, filename, line.line)

unfoldable pub decode_trace : Profile → List ℕ → Option Trace
decode_trace p [] = some []
decode_trace p (i ∷ is) = do
  frame ← decode_location p i
  trace ← decode_trace p is
  some (frame ∷ trace)

unfoldable pub decode_samples : Profile → List Sample → Option (List (Trace × List ℤ))
decode_samples p [] = some []
decode_samples p (s ∷ ss) = do
  trace ← decode_trace p s.location_id
  rest ← decode_samples p ss
  some ((trace, s.value) ∷ rest)

unfoldable pub decode_type : Profile → ValueType → Option (String × String)
decode_type p v = do type ← find_string p v.type; unit ← find_string p v.unit; some (type, unit)

unfoldable pub decode_types : Profile → List ValueType → Option (List (String × String))
decode_types p [] = some []
decode_types p (v ∷ vs) = do type ← decode_type p v; types ← decode_types p vs; some (type ∷ types)

-- What a profile says, with every identifier resolved.
pub record Contents : Type 0 where
  pub sample_types : List (String × String)
  pub period_type : String × String
  pub period : ℤ
  pub duration_nanos : ℤ
  pub samples : List (Trace × List ℤ)

unfoldable pub decode : Profile → Option Contents
decode p = do
  types ← decode_types p p.sample_type
  type ← decode_type p p.period_type
  samples ← decode_samples p p.sample
  some (record {
    sample_types = types;
    period_type = type;
    period = p.period;
    duration_nanos = p.duration_nanos;
    samples = samples;
  })
