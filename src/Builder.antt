-- ===== src/Builder.antt =====
-- googlecloudprofiler/builder.py: the profile builder. Each method takes the builder and returns
-- it with the method's result. `emit` is in Builder/Emit.
pub mod Proto
pub mod Table
pub mod Decode
pub mod Grows
pub mod Emit
pub mod Valid
pub mod Functions
pub mod RoundTrip
pub mod Populate
pub mod WellFormed
pub mod Sizes
pub mod Ranges
use cloud_profiler_python.Prelude.{
  ℕ, ◌+◌, ◌≡◌, ◌↔◌, true, ◌&&◌, none, some, List, [], ◌∷◌, ◌++◌, String, arith, length,
}
use text.Mathlib.Text.{◌==◌ as str_eq}
use text.Mathlib.TextEquality.{eq_iff}
use mathlib.Core.Bool.{Bool}
use cloud_profiler_python.Prelude.{Eq, nat_beq, nat_beq_iff, nat_eq, string_eq}
use cloud_profiler_python.Prelude.Int.{ℤ, pos, ◌*ℤ◌, int_beq, int_beq_iff}
use cloud_profiler_python.Prelude.Dict
use cloud_profiler_python.Prelude.Dict.{Dict}
use Proto.{ValueType, Sample, Line, Location, Function, Profile, empty_profile}

pub record Func : Type 0 where
  pub name : ℕ
  pub filename : ℕ

pub record Loc : Type 0 where
  pub func_id : ℕ
  pub line_number : ℤ

pub func_beq_iff :
    (f g : Func) → ((nat_beq f.name g.name && nat_beq f.filename g.filename) ≡ true) ↔ (f ≡ g)
func_beq_iff f g = ground (arith, nat_beq_iff f.name g.name, nat_beq_iff f.filename g.filename)

pub loc_beq_iff :
    (l m : Loc)
    → ((nat_beq l.func_id m.func_id && int_beq l.line_number m.line_number) ≡ true) ↔ (l ≡ m)
loc_beq_iff l m =
    ground (arith, nat_beq_iff l.func_id m.func_id, int_beq_iff l.line_number m.line_number)

-- Equality of named tuples.
instance abbrev pub func_eq : Eq Func
func_eq = record {
  beq = λ f g. nat_beq f.name g.name && nat_beq f.filename g.filename;
  beq_iff = func_beq_iff;
}

instance abbrev pub loc_eq : Eq Loc
loc_eq = record {
  beq = λ l m. nat_beq l.func_id m.func_id && int_beq l.line_number m.line_number;
  beq_iff = loc_beq_iff;
}

-- (function name, filename, line number)
abbrev pub Frame : Type 0
Frame = String × String × ℤ

abbrev pub frame_beq : Frame → Frame → Bool
frame_beq f g = str_eq f.0 g.0 && (str_eq f.1 g.1 && int_beq f.2 g.2)

pub frame_beq_iff : (f g : Frame) → (frame_beq f g ≡ true) ↔ (f ≡ g)
frame_beq_iff f g = ground (arith, eq_iff f.0 g.0, eq_iff f.1 g.1, int_beq_iff f.2 g.2)

instance abbrev pub frame_eq : Eq Frame
frame_eq = record { beq = frame_beq; beq_iff = frame_beq_iff }

-- The leaf frame comes first.
abbrev pub Trace : Type 0
Trace = List Frame

pub record Builder : Type 0 where
  pub profile : Profile
  pub function_map : Dict Func ℕ
  pub location_map : Dict Loc ℕ
  pub string_map : Dict String ℕ

unfoldable pub string_id : Builder → String → Builder × ℕ
string_id b value = elim (Dict.get b.string_map value) [
  | some id ↦ (b, id)
  | none ↦
      let id = length b.string_map in
      (
        record b {
          string_map = Dict.insert value id b.string_map;
          profile = record b.profile { string_table = b.profile.string_table ++ value ∷ [] };
        },
        id,
      )
]

-- The part of `_function_id` behind the two string identifiers.
unfoldable pub intern_function : Builder → Func → Builder × ℕ
intern_function b func = elim (Dict.get b.function_map func) [
  | some id ↦ (b, id)
  | none ↦
      let id = length b.function_map + 1 in
      let function : Function = record { id = id; name = func.name; filename = func.filename } in
      (
        record b {
          function_map = Dict.insert func id b.function_map;
          profile = record b.profile { function = b.profile.function ++ function ∷ [] };
        },
        id,
      )
]

unfoldable pub function_id : Builder → String → String → Builder × ℕ
function_id b name filename =
    let (b₁, name_id) = string_id b name in
    let (b₂, filename_id) = string_id b₁ filename in
    intern_function b₂ (record { name = name_id; filename = filename_id })

unfoldable pub location_id : Builder → ℕ → ℤ → Builder × ℕ
location_id b func_id line_number =
    let loc : Loc = record { func_id = func_id; line_number = line_number } in
    elim (Dict.get b.location_map loc) [
      | some id ↦ (b, id)
      | none ↦
          let id = length b.location_map + 1 in
          let line : Line = record { function_id = func_id; line = line_number } in
          let location : Location = record { id = id; line = line ∷ [] } in
          (
            record b {
              location_map = Dict.insert loc id b.location_map;
              profile = record b.profile { location = b.profile.location ++ location ∷ [] };
            },
            id,
          )
    ]

-- `Builder()`
unfoldable pub init : Builder
init =
    (string_id
      (record { profile = empty_profile; function_map = []; location_map = []; string_map = [] })
      "").0

-- The loop `for frame in trace`, with the identifiers that it appends to the sample.
unfoldable pub frame_ids : Builder → Trace → Builder × List ℕ
frame_ids b [] = (b, [])
frame_ids b ((name, filename, line) ∷ trace) =
    let (b₁, func_id) = function_id b name filename in
    let (b₂, id) = location_id b₁ func_id line in
    let (b₃, ids) = frame_ids b₂ trace in (b₃, id ∷ ids)

-- One round of the loop over `traces.items()`.
unfoldable pub add_trace : ℤ → Builder → Trace → ℕ → Builder
add_trace period b trace count =
    let (b₁, ids) = frame_ids b trace in
    let sample : Sample = record {
      location_id = ids;
      value = pos count ∷ (period *ℤ pos count) ∷ [];
    } in
    record b₁ { profile = record b₁.profile { sample = b₁.profile.sample ++ sample ∷ [] } }

unfoldable pub add_traces : ℤ → Builder → Dict Trace ℕ → Builder
add_traces period b [] = b
add_traces period b ((trace, count) ∷ traces) =
    add_traces period (add_trace period b trace count) traces

-- The assignments in front of the loop.
unfoldable pub set_header : Builder → String → String → ℤ → ℤ → Builder
set_header b profile_type period_unit period duration_ns =
    let (b₁, type) = string_id b profile_type in
    let (b₂, unit) = string_id b₁ period_unit in
    let period_type : ValueType = record { type = type; unit = unit } in
    let b₂' : Builder = record b₂ {
      profile = record b₂.profile {
        period_type = period_type;
        period = period;
        duration_nanos = duration_ns;
      };
    } in
    let (b₃, sample) = string_id b₂' "sample" in
    let (b₄, count) = string_id b₃ "count" in
    let (b₅, type) = string_id b₄ profile_type in
    let (b₆, unit) = string_id b₅ period_unit in
    let type1 : ValueType = record { type = sample; unit = count } in
    let type2 : ValueType = record { type = type; unit = unit } in
    record b₆ {
      profile = record b₆.profile { sample_type = b₆.profile.sample_type ++ (type1 ∷ type2 ∷ []) };
    }

unfoldable pub populate_profile : Builder → Dict Trace ℕ → String → String → ℤ → ℤ → Builder
populate_profile b traces profile_type period_unit period duration_ns =
    add_traces period (set_header b profile_type period_unit period duration_ns) traces
