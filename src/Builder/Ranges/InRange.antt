-- ===== src/Builder/Ranges/InRange.antt =====
-- googlecloudprofiler/builder.py: the fields of a populated profile, against their ranges.
use cloud_profiler_python.Prelude.{
  ℕ, ◌<◌, ◌≡◌, ap, sym, ◌∙◌, Option, some, List, [], ◌∷◌, map, arith, String,
}
use cloud_profiler_python.Prelude.{nat_eq, string_eq, length, All, All-weaken, All-zip}
use Prim.Native.Nat.{◌^◌}
use mathlib.Core.Path.{subst}
use cloud_profiler_python.Prelude.Dict.{Dict}
use cloud_profiler_python.Prelude.Int.{ℤ, pos, ◌*ℤ◌}
use cloud_profiler_python.Builder.{Frame, Trace, init, populate_profile, func_eq, loc_eq}
use cloud_profiler_python.Builder.Proto.{Line, Location, Function, Profile}
use cloud_profiler_python.Builder.Decode.{
  find_function, find_location, find_string, only_line, decode_function, decode_location,
  decode_samples, decode_type, decode_types, decode, Contents, ◌>>=◌,
}
use cloud_profiler_python.Builder.WellFormed.{IsWellFormed, populate_profile-IsWellFormed}
use cloud_profiler_python.Builder.Sizes.{frame_count, length-populate_profile-le}
use cloud_profiler_python.Builder.Populate.{decode-populate_profile}
use cloud_profiler_python.Builder.Ranges.{
  IsInt64, LineFits, LocationFits, FunctionFits, Fits, bind-some, type-TypeFits, types-TypeFits,
  function-names, id-bound, found_each, samples-SampleFits,
}
use cloud_profiler_python.Builder.Ranges.Lines.{
  LocationsAre, TraceIs, populate_profile-LocationsAre,
}

only_line-one : (l : Location) {line : Line} → only_line l ≡ some line → l.line ≡ line ∷ []
only_line-one l h = ground (arith, h)

-- The tables of a well-formed profile that are not too long.
module _ (p : Profile) (w : IsWellFormed p) (texts : length p.string_table < 2 ^ 63)
    (functions : length p.function < 2 ^ 63) (locations : length p.location < 2 ^ 63) where
  functions-FunctionFits : All FunctionFits p.function
  functions-FunctionFits =
      All-weaken
        (λ f h.
          let found : find_function p f.id ≡ some f = h.1 in
          let (r, resolved) = w.functions_resolve f.id f found in
          let (name, filename) = function-names p texts f.id f found resolved in
          (
            omega (
              arith,
              id-bound Function.id 1 f.id (length p.function) p.function w.function_ids found,
              functions,
            ),
            name,
            filename,
          ))
        p.function (found_each Function.id 1 (length p.function) p.function w.function_ids)

  line-LineFits :
      (i : ℕ) (l : Location) {frame : Frame}
      → find_location p i ≡ some l
      → decode_location p i ≡ some frame
      → All (λ line. IsInt64 line.line) l.line
      → All LineFits l.line
  unfolding decode_location decode_function
  line-LineFits i l found h fits =
      let rest_of : Line → Option Frame =
        λ line. decode_function p line.function_id >>= (λ r. some (r.0, r.1, line.line)) in
      let (m, found', h') = bind-some (find_location p i) (λ l. only_line l >>= rest_of) h in
      let same : m ≡ l = cc (found, found') in
      let (line, only, h'') =
        bind-some (only_line l) rest_of (ap (λ m. only_line m >>= rest_of) (sym same) ∙ h') in
      let (r, resolved, _) =
        bind-some (decode_function p line.function_id) (λ r. some (r.0, r.1, line.line)) h'' in
      let (f, function, _) =
        bind-some (find_function p line.function_id)
          (λ f.
            find_string p f.name
            >>= (λ name. find_string p f.filename >>= (λ filename. some (name, filename))))
          resolved in
      let one : l.line ≡ line ∷ [] = only_line-one l only in
      let fit = subst (All (λ (line : Line). IsInt64 line.line)) one fits in
      let bound =
        id-bound Function.id 1 line.function_id (length p.function) p.function w.function_ids
          function in
      subst (All LineFits) (sym one) ((omega (arith, bound, functions), fit.0), tt)

  locations-LocationFits : LocationsAre IsInt64 p.location → All LocationFits p.location
  locations-LocationFits fits =
      All-zip
        (λ l h lines.
          let found : find_location p l.id ≡ some l = h.1 in
          let (frame, resolved) = w.locations_resolve l.id l found in
          let bound =
            id-bound Location.id 1 l.id (length p.location) p.location w.location_ids found in
          (omega (arith, bound, locations), line-LineFits l.id l found resolved lines))
        p.location (found_each Location.id 1 (length p.location) p.location w.location_ids) fits

-- A trace's count and value, and its line numbers.
abbrev pub EntryFits : ℤ → Trace × ℕ → Type 0
EntryFits period (trace, count) =
    (count < 2 ^ 63) × IsInt64 (period *ℤ pos count) × TraceIs IsInt64 trace

values_fit :
    (period : ℤ) (traces : Dict Trace ℕ)
    → All (EntryFits period) traces
    → All
        (λ (t : Trace × List ℤ). All IsInt64 t.1)
        (map (λ (trace, count). (trace, pos count ∷ (period *ℤ pos count) ∷ [])) traces)
values_fit period [] all = tt
values_fit period ((trace, count) ∷ traces) ((few, value, _), all) =
    (((few, omega arith), (value, tt)), values_fit period traces all)

lines_fit :
    (period : ℤ) (traces : Dict Trace ℕ)
    → All (EntryFits period) traces
    → All (λ (entry : Trace × ℕ). TraceIs IsInt64 entry.0) traces
lines_fit period [] all = tt
lines_fit period ((trace, count) ∷ traces) ((few, value, lines), all) =
    (lines, lines_fit period traces all)

decode-parts :
    (p : Profile) (c : Contents)
    → decode p ≡ some c
    → (decode_types p p.sample_type ≡ some c.sample_types)
      × (decode_type p p.period_type ≡ some c.period_type)
      × (decode_samples p p.sample ≡ some c.samples)
      × (p.period ≡ c.period)
      × (p.duration_nanos ≡ c.duration_nanos)
unfolding decode
decode-parts p c h = ground (arith, h)

-- Where the period, the duration, each count, each count times the period, and each line number is an
-- `int64`, and the traces have fewer than 2^61 frames in all: every field of the profile that
-- `populate_profile` leaves in a new builder is in the range of its type.
pub populate_profile-Fits :
    (traces : Dict Trace ℕ) (profile_type period_unit : String) (period duration_ns : ℤ)
    → IsInt64 period
    → IsInt64 duration_ns
    → All (EntryFits period) traces
    → frame_count traces < 2 ^ 61
    → Fits (populate_profile init traces profile_type period_unit period duration_ns).profile
populate_profile-Fits traces profile_type period_unit period duration_ns fit_period fit_duration
      fits few =
    let p = (populate_profile init traces profile_type period_unit period duration_ns).profile in
    let w = populate_profile-IsWellFormed traces profile_type period_unit period duration_ns in
    let (texts, functions, locations) =
      length-populate_profile-le traces profile_type period_unit period duration_ns in
    let (types, type, samples, period_is, duration_is) =
      decode-parts p _
        (decode-populate_profile traces profile_type period_unit period duration_ns) in
    let strings : length p.string_table < 2 ^ 63 = omega (arith, texts, few) in
    let funcs : length p.function < 2 ^ 63 = omega (arith, functions, few) in
    let locs : length p.location < 2 ^ 63 = omega (arith, locations, few) in
    let lines =
      populate_profile-LocationsAre IsInt64 traces profile_type period_unit period duration_ns
        (lines_fit period traces fits) in
    record {
      sample_types = types-TypeFits p strings p.sample_type types;
      period_type = type-TypeFits p strings p.period_type type;
      samples =
          samples-SampleFits p w.location_ids locs p.sample samples (values_fit period traces fits);
      locations = locations-LocationFits p w strings funcs locs lines;
      functions = functions-FunctionFits p w strings funcs locs;
      duration_nanos = subst IsInt64 (sym duration_is) fit_duration;
      period = subst IsInt64 (sym period_is) fit_period;
    }
