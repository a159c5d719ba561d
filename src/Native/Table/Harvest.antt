-- ===== src/Native/Table/Harvest.antt =====
-- googlecloudprofiler/src/stacktraces.cc: `HarvestSamples` empties the fixed table into the growable one.
use cloud_profiler_python.Prelude.{
  ℕ, zero, suc, ◌+◌, ◌≤◌, ◌<◌, ◌≡◌, refl, ap, ◌∙◌, sym, Bool, true, false, Option, none, some, List,
  [], ◌∷◌, arith, inl, inr,
}
use cloud_profiler_python.Prelude.{
  ◌==◌, nat_eq, list_eq, if◌then◌else◌, ltb, get_elem?, get_elem?-set, get_elem?-set_other, length,
  set, All, All-set, All-get_elem?, length-set, Option-cases, Bool-cases,
}
use cloud_profiler_python.Prelude.Dict
use cloud_profiler_python.Prelude.Dict.{Dict}
use mathlib.Core.Path.{subst}
use mathlib.Core.Logic.{◌⊎◌}
use native.Mathlib.Decide.{dec_lt}
use cloud_profiler_python.Native.Stack.{Stack, frame_eq, max_frames_to_capture}
use cloud_profiler_python.Native.Table.{
  Entry, Table, extract, absorb, harvest_from, harvest_samples, max_stack_traces,
}
use cloud_profiler_python.Native.Table.Counts.{held, taken_of, IsFit, extract-held}

abbrev pub has_frames : Stack → Bool
has_frames t = ltb 0 (length t)

-- A table of the fixed size whose entries fit their buffers.
pub record IsTable (table : Table) : Type 0 where
  pub size : length table ≡ max_stack_traces
  pub fit : All IsFit table

-- `Extract` leaves the table as it is, where there is no entry or it is free, or frees an entry.
extract_cases :
    (table : Table) (i max_frames : ℕ)
    → ((extract table i max_frames).0 ≡ table)
        × ((e : Entry) → get_elem? table i ≡ some e → e.count ≡ 0)
      ⊎ ((e : Entry) × (get_elem? table i ≡ some e)
          × ((extract table i max_frames).0 ≡ set table i (record e { count = 0 })))
unfolding extract
extract_cases table i max_frames = elim (Option-cases (get_elem? table i)) [
  | inl out ↦ inl (ground (arith, out), λ e h. absurd (cc (h, out)))
  | inr (e, found) ↦ elim (Bool-cases (e.count == 0)) [
    | inl free ↦ inl (ground (arith, found, free), λ f h. ground (arith, found, free, h))
    | inr busy ↦ inr (e, found, ground (arith, found, busy))
  ]
]

pub extract-IsTable :
    (table : Table) (location max_frames : ℕ)
    → IsTable table
    → IsTable (extract table location max_frames).0
extract-IsTable table location max_frames v = elim (extract_cases table location max_frames) [
  | inl (same, _) ↦ subst IsTable (sym same) v
  | inr (e, found, freed) ↦ subst IsTable (sym freed) (record {
    size = length-set table location (record e { count = 0 }) ∙ v.size;
    fit =
        All-set IsFit table location (record e { count = 0 }) v.fit
          (All-get_elem? IsFit table location v.fit found);
  })
]

-- The entries in front of a location are free.
abbrev FreeUpTo : ℕ → Table → Type 0
FreeUpTo i table = (j : ℕ) (e : Entry) → j < i → get_elem? table j ≡ some e → e.count ≡ 0

freed_entry : (f e : Entry) → some (record f { count = 0 }) ≡ some e → e.count ≡ 0
freed_entry f e h = cc

extract-FreeUpTo :
    (table : Table) (i max_frames : ℕ)
    → FreeUpTo i table
    → FreeUpTo (i + 1) (extract table i max_frames).0
extract-FreeUpTo table i max_frames free j e lt h = elim (dec_lt j i) [
  | yes before ↦ elim (extract_cases table i max_frames) [
    | inl (same, _) ↦ free j e before (ap (λ x. get_elem? x j) (sym same) ∙ h)
    | inr (f, found, freed) ↦ free j e before (
        sym (get_elem?-set_other table i j (record f { count = 0 }) (omega arith))
        ∙ (ap (λ x. get_elem? x j) (sym freed) ∙ h))
  ]
  | no last ↦
      let here : j ≡ i = omega arith in
      elim (extract_cases table i max_frames) [
        | inl (same, idle) ↦
            idle e (ap (get_elem? table) (sym here) ∙ (ap (λ x. get_elem? x j) (sym same) ∙ h))
        | inr (f, found, freed) ↦
            let new : Entry = record f { count = 0 } in
            let at_i : get_elem? (set table i new) i ≡ some e =
              ap (get_elem? (set table i new)) (sym here)
              ∙ (ap (λ x. get_elem? x j) (sym freed) ∙ h) in
            freed_entry f e (sym (get_elem?-set table i new found) ∙ at_i)
      ]
]

harvest_from-free :
    (rounds i : ℕ) (table : Table) (to : Dict Stack ℕ × ℕ)
    → FreeUpTo i table
    → FreeUpTo (i + rounds) (harvest_from rounds i table to).0
unfolding harvest_from
harvest_from-free zero i table to free j e lt h = free j e (omega arith) h
harvest_from-free (suc rounds) i table to free j e lt h =
    let (table', found) = extract table i max_frames_to_capture in
    harvest_from-free rounds (i + 1) table' (absorb found to)
      (extract-FreeUpTo table i max_frames_to_capture free) j e (omega arith) h

-- A measure of the growable table that counts the traces with the property p.
abbrev Counts : (Stack → Bool) → (Dict Stack ℕ → ℕ) → Type 0
Counts p m =
    (k : Stack) (n : ℕ) (d : Dict Stack ℕ)
    → ltb 0 (length k) ≡ true
    → m (Dict.tally k n d) ≡ m d + (if p k then n else 0)

module _ (p : Stack → Bool) (m : Dict Stack ℕ → ℕ) (counts : Counts p m) (real : p [] ≡ false) where
  absorb-counts :
      (found : Option (Stack × ℕ)) (to : Dict Stack ℕ × ℕ)
      → m (absorb found to).0 ≡ m to.0 + taken_of p found
  unfolding absorb
  absorb-counts none to = omega arith
  absorb-counts (some ([], count)) to = ground (arith, real)
  absorb-counts (some (f ∷ frames, count)) to = ground (arith, counts (f ∷ frames) count to.0)

  harvest_from-keeps :
      (rounds i : ℕ) (table : Table) (to : Dict Stack ℕ × ℕ)
      → IsTable table
      → m (harvest_from rounds i table to).1 + held p (harvest_from rounds i table to).0
        ≡ m to.0 + held p table
  unfolding harvest_from
  harvest_from-keeps zero i table to v = refl
  harvest_from-keeps (suc rounds) i table to v =
      let (table', found) = extract table i max_frames_to_capture in
      omega (
        arith,
        harvest_from-keeps rounds (i + 1) table' (absorb found to)
            (extract-IsTable table i max_frames_to_capture v),
        absorb-counts found to,
        extract-held p table i v.fit,
      )

held-free :
    (p : Stack → Bool) (table : Table)
    → ((j : ℕ) (e : Entry) → get_elem? table j ≡ some e → e.count ≡ 0)
    → held p table ≡ 0
held-free p [] free = refl
held-free p (e ∷ es) free =
    ground (arith, free 0 e refl, held-free p es (λ j f h. free (suc j) f h))

harvest_from-IsTable :
    (rounds i : ℕ) (table : Table) (to : Dict Stack ℕ × ℕ)
    → IsTable table
    → IsTable (harvest_from rounds i table to).0
unfolding harvest_from
harvest_from-IsTable zero i table to v = v
harvest_from-IsTable (suc rounds) i table to v =
    let (table', found) = extract table i max_frames_to_capture in
    harvest_from-IsTable rounds (i + 1) table' (absorb found to)
      (extract-IsTable table i max_frames_to_capture v)

pub harvest_samples-IsTable :
    (table : Table) (aggregated : Dict Stack ℕ)
    → IsTable table
    → IsTable (harvest_samples table aggregated).0
unfolding harvest_samples
harvest_samples-IsTable table aggregated v =
    harvest_from-IsTable max_stack_traces 0 table (aggregated, 0) v

get_elem?-out : {A : Type 0} (xs : List A) (j : ℕ) → length xs ≤ j → get_elem? xs j ≡ none
get_elem?-out [] j h = refl
get_elem?-out (x ∷ xs) zero h = absurd (omega arith)
get_elem?-out (x ∷ xs) (suc j) h = get_elem?-out xs j (omega arith)

-- `HarvestSamples` leaves no sample in the fixed table.
pub harvest_samples-empty :
    (p : Stack → Bool) (table : Table) (aggregated : Dict Stack ℕ)
    → IsTable table
    → held p (harvest_samples table aggregated).0 ≡ 0
unfolding harvest_samples
harvest_samples-empty p table aggregated v =
    let after : Table = (harvest_from max_stack_traces 0 table (aggregated, 0)).0 in
    let size = (harvest_from-IsTable max_stack_traces 0 table (aggregated, 0) v).size in
    let free =
      harvest_from-free max_stack_traces 0 table (aggregated, 0)
        (λ j e lt h. absurd (omega arith)) in
    held-free p after (λ j e h. elim (dec_lt j max_stack_traces) [
      | yes inside ↦ free j e inside h
      | no out ↦ absurd (cc (h, get_elem?-out after j (omega (arith, size))))
    ])

module _ (table : Table) (aggregated : Dict Stack ℕ) (v : IsTable table) where
  -- The samples of each trace with a frame are moved, and none is lost.
  pub harvest_samples-tally :
      (t : Stack)
      → (t == []) ≡ false
      → Dict.tally_of (harvest_samples table aggregated).1 t
          + held (λ k. t == k) (harvest_samples table aggregated).0
        ≡ Dict.tally_of aggregated t + held (λ k. t == k) table
  unfolding harvest_samples
  harvest_samples-tally t real =
      harvest_from-keeps (λ k. t == k) (λ d. Dict.tally_of d t)
        (λ k n d some_frames. ground (arith, Dict.tally_of-tally k t n d)) real max_stack_traces 0
        table (aggregated, 0) v

  -- So are all samples of traces with a frame.
  pub harvest_samples-total :
      Dict.total (harvest_samples table aggregated).1
        + held has_frames (harvest_samples table aggregated).0
      ≡ Dict.total aggregated + held has_frames table
  unfolding harvest_samples
  harvest_samples-total =
      harvest_from-keeps has_frames Dict.total
        (λ k n d some_frames. ground (arith, some_frames, Dict.total-tally k n d)) refl
        max_stack_traces 0 table (aggregated, 0) v
