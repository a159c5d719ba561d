-- ===== src/Builder/Ranges/Lines.antt =====
-- googlecloudprofiler/builder.py: the line numbers of a profile.
use cloud_profiler_python.Prelude.{ℕ, ◌≡◌, refl, ◌∙◌, List, [], ◌∷◌, ◌++◌, arith, String, inl, inr}
use cloud_profiler_python.Prelude.{nat_eq, string_eq, All, Option-cases}
use cloud_profiler_python.Prelude.Dict
use cloud_profiler_python.Prelude.Dict.{Dict}
use cloud_profiler_python.Prelude.Int.{ℤ}
use cloud_profiler_python.Builder.{
  Trace, Loc, Builder, string_id, intern_function, function_id, location_id, frame_ids, add_trace,
  add_traces, set_header, populate_profile, init, func_eq, loc_eq,
}
use cloud_profiler_python.Builder.Proto.{ValueType, Line, Location}

-- The methods that leave the locations alone.
location-string_id :
    (b : Builder) (s : String) → (string_id b s).0.profile.location ≡ b.profile.location
unfolding string_id
location-string_id b s = ground arith

location-function_id :
    (b : Builder) (name filename : String)
    → (function_id b name filename).0.profile.location ≡ b.profile.location
unfolding function_id intern_function
location-function_id b name filename =
    let (b₁, i) = string_id b name in
    ground (arith, location-string_id b name, location-string_id b₁ filename)

location-set_header :
    (b : Builder) (type unit : String) (period duration : ℤ)
    → (set_header b type unit period duration).profile.location ≡ b.profile.location
unfolding set_header
location-set_header b type unit period duration =
    let (b₁, i₁) = string_id b type in
    let (b₂, i₂) = string_id b₁ unit in
    let period_type : ValueType = record { type = i₁; unit = i₂ } in
    let c : Builder = record b₂ {
      profile = record b₂.profile {
        period_type = period_type;
        period = period;
        duration_nanos = duration;
      };
    } in
    let (b₃, i₃) = string_id c "sample" in
    let (b₄, i₄) = string_id b₃ "count" in
    let (b₅, i₅) = string_id b₄ type in
    location-string_id b₅ unit
    ∙ (location-string_id b₄ type
        ∙ (location-string_id b₃ "count"
            ∙ (location-string_id c "sample"
                ∙ (location-string_id b₁ unit ∙ location-string_id b type))))

location-init : init.profile.location ≡ []
unfolding init
location-init = rw (location-string_id) refl

module _ (P : ℤ → Type 0) where
  abbrev LinesAre : List Line → Type 0
  LinesAre = All (λ line. P line.line)

  abbrev pub LocationsAre : List Location → Type 0
  LocationsAre = All (λ l. LinesAre l.line)

  abbrev pub TraceIs : Trace → Type 0
  TraceIs = All (λ frame. P frame.2)

  LocationsAre-append :
      (ls : List Location) (l : Location)
      → LocationsAre ls
      → LinesAre l.line
      → LocationsAre (ls ++ l ∷ [])
  LocationsAre-append [] l all one = (one, tt)
  LocationsAre-append (m ∷ ls) l all one = (all.0, LocationsAre-append ls l all.1 one)

  location_id-LocationsAre :
      (b : Builder) (func : ℕ) (line : ℤ)
      → P line
      → LocationsAre b.profile.location
      → LocationsAre (location_id b func line).0.profile.location
  unfolding location_id
  location_id-LocationsAre b func line fits all =
      let loc : Loc = record { func_id = func; line_number = line } in
      elim (Option-cases (Dict.get b.location_map loc)) [
        | inl fresh ↦
            rw (fresh, location_id) (LocationsAre-append b.profile.location _ all (fits, tt))
        | inr (id, old) ↦ rw (old, location_id) all
      ]

  frame_ids-LocationsAre :
      (b : Builder) (trace : Trace)
      → TraceIs trace
      → LocationsAre b.profile.location
      → LocationsAre (frame_ids b trace).0.profile.location
  unfolding frame_ids
  frame_ids-LocationsAre b [] fits all = all
  frame_ids-LocationsAre b ((name, filename, line) ∷ trace) fits all =
      let (b₁, f) = function_id b name filename in
      let (b₂, l) = location_id b₁ f line in
      frame_ids-LocationsAre b₂ trace fits.1
        (location_id-LocationsAre b₁ f line fits.0 (rw (location-function_id b name filename) all))

  pub add_traces-LocationsAre :
      (period : ℤ) (b : Builder) (traces : Dict Trace ℕ)
      → All (λ entry. TraceIs entry.0) traces
      → LocationsAre b.profile.location
      → LocationsAre (add_traces period b traces).profile.location
  unfolding add_traces add_trace
  add_traces-LocationsAre period b [] fits all = all
  add_traces-LocationsAre period b ((trace, count) ∷ traces) fits all =
      add_traces-LocationsAre period (add_trace period b trace count) traces fits.1
        (frame_ids-LocationsAre b trace fits.0 all)

  -- The line numbers of a populated profile have any property that those of the frames have.
  pub populate_profile-LocationsAre :
      (traces : Dict Trace ℕ) (profile_type period_unit : String) (period duration_ns : ℤ)
      → All (λ entry. TraceIs entry.0) traces
      → LocationsAre
          (populate_profile init traces profile_type period_unit period
            duration_ns).profile.location
  unfolding populate_profile
  populate_profile-LocationsAre traces profile_type period_unit period duration_ns fits =
      add_traces-LocationsAre period (set_header init profile_type period_unit period duration_ns)
        traces fits
        (rw (location-set_header init profile_type period_unit period duration_ns, location-init)
          tt)
