-- ===== src/Builder/RoundTrip.antt =====
-- googlecloudprofiler/builder.py: `populate_profile` and what a reader finds in the profile.
use cloud_profiler_python.Prelude.{ℕ, ◌≡◌, refl, sym, some, List, [], ◌∷◌, ◌++◌, map, arith}
use cloud_profiler_python.Prelude.{nat_eq, string_eq}
use mathlib.Core.List.{append-nil, append_assoc}
use mathlib.Core.Path.{subst}
use cloud_profiler_python.Prelude.Dict.{Dict}
use cloud_profiler_python.Prelude.Int.{ℤ, pos, ◌*ℤ◌}
use cloud_profiler_python.Builder.{
  Trace, Builder, function_id, location_id, frame_ids, add_trace, add_traces, func_eq, loc_eq,
}
use cloud_profiler_python.Builder.Proto.{Sample, Profile}
use cloud_profiler_python.Builder.Decode.{decode_trace, decode_samples}
use cloud_profiler_python.Builder.Grows.{
  Grows, Grows-trans, decode_location-Grows, decode_trace-Grows, decode_samples-Grows,
}
use cloud_profiler_python.Builder.Valid.{
  IsValid, Interns, Interns-refl, Interns-trans, Grows-tables, IsValid-tables,
}
use cloud_profiler_python.Builder.Functions.{function_id-Interns, location_id-Interns}

-- The loop over the frames keeps the invariant, and the identifiers decode to the trace.
pub frame_ids-Interns :
    (b : Builder) (trace : Trace)
    → IsValid b
    → Interns b (frame_ids b trace).0
      × (decode_trace (frame_ids b trace).0.profile (frame_ids b trace).1 ≡ some trace)
unfolding frame_ids decode_trace
frame_ids-Interns b [] v = (Interns-refl v, refl)
frame_ids-Interns b ((name, filename, line) ∷ trace) v =
    let (b₁, f) = function_id b name filename in
    let (g₁, func) = function_id-Interns b v name filename in
    let (b₂, l) = location_id b₁ f line in
    let (g₂, loc) =
      location_id-Interns b₁ g₁.valid (record { func_id = f; line_number = line }) name filename
        func in
    let (g₃, rest) = frame_ids-Interns b₂ trace g₂.valid in
    (
      Interns-trans g₁ (Interns-trans g₂ g₃),
      ground (arith, rest, decode_location-Grows g₃.grows l (name, filename, line) loc),
    )

-- What one entry of `traces` becomes.
abbrev pub sample_of : ℤ → Trace × ℕ → Trace × List ℤ
sample_of period (trace, count) = (trace, pos count ∷ (period *ℤ pos count) ∷ [])

module _ (p : Profile) where
  decode_samples-cons :
      (s : Sample) (ss : List Sample) (ts : List (Trace × List ℤ))
      → decode_samples p (s ∷ ss) ≡ some ts
      → (t : Trace) × (us : List (Trace × List ℤ)) × (decode_trace p s.location_id ≡ some t)
        × (decode_samples p ss ≡ some us)
        × (ts ≡ (t, s.value) ∷ us)
  unfolding decode_samples
  decode_samples-cons s ss ts h = ground arith

  pub decode_samples-append :
      (ss : List Sample) (s : Sample) (t : Trace) (ts : List (Trace × List ℤ))
      → decode_samples p ss ≡ some ts
      → decode_trace p s.location_id ≡ some t
      → decode_samples p (ss ++ s ∷ []) ≡ some (ts ++ (t, s.value) ∷ [])
  unfolding decode_samples
  decode_samples-append [] s t ts h e = ground (arith, e)
  decode_samples-append (r ∷ ss) s t ts h e =
      let (u, us, first, rest, split) = decode_samples-cons r ss ts h in
      rw (first, decode_samples-append ss s t us rest e, split)

-- What the methods after the header leave alone.
pub record SameHeader (p q : Profile) : Type 0 where
  pub sample_types : q.sample_type ≡ p.sample_type
  pub period_type : q.period_type ≡ p.period_type
  pub period : q.period ≡ p.period
  pub duration : q.duration_nanos ≡ p.duration_nanos

-- The builder while it works on the traces: what it has done decodes.
pub record Holds (b c : Builder) (done : List (Trace × List ℤ)) : Type 0 where
  pub valid : IsValid c
  pub grows : Grows b.profile c.profile
  pub header : SameHeader b.profile c.profile
  pub samples : decode_samples c.profile c.profile.sample ≡ some done

add_trace-Holds :
    (period : ℤ) (b c : Builder) (done : List (Trace × List ℤ)) (trace : Trace) (count : ℕ)
    → Holds b c done
    → Holds b (add_trace period c trace count) (done ++ sample_of period (trace, count) ∷ [])
unfolding add_trace
add_trace-Holds period b c done trace count h =
    let (d, ids) = frame_ids c trace in
    let (g, decoded) = frame_ids-Interns c trace h.valid in
    let s : Sample = record { location_id = ids; value = pos count ∷ (period *ℤ pos count) ∷ [] } in
    let p : Profile = record d.profile { sample = d.profile.sample ++ s ∷ [] } in
    let same = Grows-tables d p refl refl refl in
    let grown : Grows c.profile p = Grows-trans g.grows same in
    record {
      valid = IsValid-tables d p refl refl refl g.valid;
      grows = Grows-trans h.grows grown;
      header = ground (arith, h.header, g);
      samples =
          subst
            (λ (ss : List Sample).
              decode_samples p (ss ++ s ∷ []) ≡ some (done ++ (trace, s.value) ∷ []))
            (sym g.samples)
            (decode_samples-append p c.profile.sample s trace done
              (decode_samples-Grows grown c.profile.sample done h.samples)
              (decode_trace-Grows same ids trace decoded));
    }

pub add_traces-Holds :
    (period : ℤ) (b c : Builder) (done : List (Trace × List ℤ)) (traces : Dict Trace ℕ)
    → Holds b c done
    → Holds b (add_traces period c traces) (done ++ map (sample_of period) traces)
unfolding add_traces
add_traces-Holds period b c done [] h = rw append-nil h
add_traces-Holds period b c done ((trace, count) ∷ traces) h = rw append_assoc at (
    add_traces-Holds period b (add_trace period c trace count) _ traces
      (add_trace-Holds period b c done trace count h))
