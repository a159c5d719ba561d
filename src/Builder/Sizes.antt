-- ===== src/Builder/Sizes.antt =====
-- googlecloudprofiler/builder.py: how large the tables of a profile become.
use cloud_profiler_python.Prelude.{ℕ, ◌+◌, ◌*◌, ◌≤◌, ◌≡◌, refl, [], ◌∷◌, arith, String}
use cloud_profiler_python.Prelude.{nat_eq, string_eq, length, length-append}
use cloud_profiler_python.Prelude.Dict
use cloud_profiler_python.Prelude.Dict.{Dict}
use cloud_profiler_python.Prelude.Int.{ℤ}
use cloud_profiler_python.Builder.{
  Func, Trace, Builder, string_id, intern_function, function_id, location_id, init, frame_ids,
  add_trace, add_traces, set_header, populate_profile, func_eq, loc_eq,
}
use cloud_profiler_python.Builder.Proto.{ValueType, Profile}
use cloud_profiler_python.Builder.Grows.{Grows, Grows-trans}
use cloud_profiler_python.Builder.Valid.{
  IsValid, string_id-Interns, string_id-known, Grows-tables, IsValid-tables,
}
use cloud_profiler_python.Builder.Populate.{init-Interns}

abbrev pub frame_count : Dict Trace ℕ → ℕ
frame_count [] = 0
frame_count ((trace, _) ∷ traces) = length trace + frame_count traces

-- At most s texts, f functions and l locations more.
record AtMost (s f l : ℕ) (p q : Profile) : Type 0 where
  strings : length q.string_table ≤ length p.string_table + s
  functions : length q.function ≤ length p.function + f
  locations : length q.location ≤ length p.location + l

string_id-AtMost : (b : Builder) (s : String) → AtMost 1 0 0 b.profile (string_id b s).0.profile
unfolding string_id
string_id-AtMost b s = ground (arith, length-append b.profile.string_table (s ∷ []))

intern_function-AtMost :
    (b : Builder) (func : Func) → AtMost 0 1 0 b.profile (intern_function b func).0.profile
unfolding intern_function
intern_function-AtMost b func = ground (
  arith,
  length-append b.profile.function
      (record { id = length b.function_map + 1; name = func.name; filename = func.filename } ∷ []),
)

function_id-AtMost :
    (b : Builder) (name filename : String)
    → AtMost 2 1 0 b.profile (function_id b name filename).0.profile
unfolding function_id
function_id-AtMost b name filename =
    let (b₁, i) = string_id b name in
    let (b₂, j) = string_id b₁ filename in
    omega (
      arith,
      string_id-AtMost b name,
      string_id-AtMost b₁ filename,
      intern_function-AtMost b₂ (record { name = i; filename = j }),
    )

location_id-AtMost :
    (b : Builder) (func : ℕ) (line : ℤ) → AtMost 0 0 1 b.profile (location_id b func line).0.profile
unfolding location_id
location_id-AtMost b func line = ground (
  arith,
  length-append b.profile.location (
      record {
        id = length b.location_map + 1;
        line = (record { function_id = func; line = line }) ∷ [];
      }
      ∷ []),
)

frame_ids-AtMost :
    (b : Builder) (trace : Trace)
    → AtMost
        (2 * length trace)
        (length trace)
        (length trace)
        b.profile
        (frame_ids b trace).0.profile
      × (length (frame_ids b trace).1 ≡ length trace)
unfolding frame_ids
frame_ids-AtMost b [] = omega arith
frame_ids-AtMost b ((name, filename, line) ∷ trace) =
    let (b₁, f) = function_id b name filename in
    let (b₂, l) = location_id b₁ f line in
    omega (
      arith,
      function_id-AtMost b name filename,
      location_id-AtMost b₁ f line,
      frame_ids-AtMost b₂ trace,
    )

add_traces-AtMost :
    (period : ℤ) (b : Builder) (traces : Dict Trace ℕ)
    → AtMost
        (2 * frame_count traces)
        (frame_count traces)
        (frame_count traces)
        b.profile
        (add_traces period b traces).profile
unfolding add_traces add_trace
add_traces-AtMost period b [] = omega arith
add_traces-AtMost period b ((trace, count) ∷ traces) = omega (
  arith,
  frame_ids-AtMost b trace,
  add_traces-AtMost period (add_trace period b trace count) traces,
)

-- The header asks for its two texts twice; the second time they are there.
set_header-AtMost :
    (b : Builder) (type unit : String) (period duration : ℤ)
    → IsValid b
    → AtMost 4 0 0 b.profile (set_header b type unit period duration).profile
unfolding set_header
set_header-AtMost b type unit period duration v =
    let (b₁, i₁) = string_id b type in
    let (g₁, e₁) = string_id-Interns b v type in
    let (b₂, i₂) = string_id b₁ unit in
    let (g₂, e₂) = string_id-Interns b₁ g₁.valid unit in
    let pt : ValueType = record { type = i₁; unit = i₂ } in
    let p : Profile = record b₂.profile {
      period_type = pt;
      period = period;
      duration_nanos = duration;
    } in
    let c : Builder = record b₂ { profile = p } in
    let w : Grows b₂.profile p = Grows-tables b₂ p refl refl refl in
    let (b₃, i₃) = string_id c "sample" in
    let (g₃, e₃) = string_id-Interns c (IsValid-tables b₂ p refl refl refl g₂.valid) "sample" in
    let (b₄, i₄) = string_id b₃ "count" in
    let (g₄, e₄) = string_id-Interns b₃ g₃.valid "count" in
    let later : Grows b₂.profile b₄.profile = Grows-trans w (Grows-trans g₃.grows g₄.grows) in
    let known₁ =
      string_id-known b₄ type i₁ g₄.valid (later.strings i₁ type (g₂.grows.strings i₁ type e₁)) in
    let known₂ = string_id-known b₄ unit i₂ g₄.valid (later.strings i₂ unit e₂) in
    rw (known₁, known₂)
      (omega (
        arith,
        string_id-AtMost b type,
        string_id-AtMost b₁ unit,
        string_id-AtMost c "sample",
        string_id-AtMost b₃ "count",
      ))

-- A profile of n frames has at most 2 * n + 5 texts, n functions and n locations.
pub length-populate_profile-le :
    (traces : Dict Trace ℕ) (profile_type period_unit : String) (period duration_ns : ℤ)
    → (length
          (populate_profile init traces profile_type period_unit period
            duration_ns).profile.string_table
        ≤ 2 * frame_count traces + 5)
      × (length
            (populate_profile init traces profile_type period_unit period
              duration_ns).profile.function
          ≤ frame_count traces)
      × (length
            (populate_profile init traces profile_type period_unit period
              duration_ns).profile.location
          ≤ frame_count traces)
unfolding populate_profile init string_id Dict.get
length-populate_profile-le traces profile_type period_unit period duration_ns =
    let h = set_header init profile_type period_unit period duration_ns in
    omega (
      arith,
      set_header-AtMost init profile_type period_unit period duration_ns init-Interns.0.valid,
      add_traces-AtMost period h traces,
    )
