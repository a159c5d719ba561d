-- ===== src/Native/Table/Counts.antt =====
-- googlecloudprofiler/src/stacktraces.cc: how often a trace stands in the fixed table, and what `Add` and
-- `Extract` do to that.
use cloud_profiler_python.Prelude.{take_all}
use cloud_profiler_python.Prelude.{
  ℕ, zero, suc, ◌+◌, ◌≤◌, ◌≡◌, ap, Bool, Option, none, some, [], ◌∷◌, arith, inl, inr,
}
use cloud_profiler_python.Prelude.{
  ◌==◌, nat_eq, list_eq, list_beq_iff, if◌then◌else◌, get_elem?, length, set, All, All-get_elem?,
  Option-cases, Bool-cases,
}
use Prim.Native.Nat.{◌%◌, ◌^◌}
use cloud_profiler_python.Native.Stack.{Stack, frame_eq, max_frames_to_capture}
use cloud_profiler_python.Native.Table.{
  Entry, Table, visit, visit_at, add_from, add, max_stack_traces, extract,
}

-- The samples of the traces with a property.
abbrev pub held_in : (Stack → Bool) → Entry → ℕ
held_in p e = if p e.frames then e.count else 0

abbrev pub held : (Stack → Bool) → Table → ℕ
held p [] = 0
held p (e ∷ es) = held_in p e + held p es

module _ (p : Stack → Bool) where
  pub held-set :
      (table : Table) (i : ℕ) (new : Entry) {old : Entry}
      → get_elem? table i ≡ some old
      → held p (set table i new) + held_in p old ≡ held p table + held_in p new
  held-set [] i new h = absurd (cc h)
  held-set (e ∷ es) zero new {old} h = let same : e ≡ old = cc in rw (← same) (omega arith)
  held-set (e ∷ es) (suc i) new h = omega (arith, held-set es i new h)

  -- An entry that takes a trace counts it once more.
  visit-held :
      (fails : Bool) (trace : Stack) (old : Entry) {new : Entry}
      → visit fails trace old ≡ some new
      → held_in p new ≡ held_in p old + (if p trace then 1 else 0)
  unfolding visit
  visit-held fails trace old {new} h = elim (Bool-cases (trace == old.frames)) [
    | inl same ↦
        let same_p : p trace ≡ p old.frames = ap p ((list_beq_iff trace old.frames).0 same) in
        ground (arith, h, same_p)
    | inr other ↦ ground (arith, h, other)
  ]

  visit_at-held :
      (fails : Bool) (trace : Stack) (table : Table) (idx : ℕ) {new : Entry}
      → visit_at fails trace table idx ≡ some new
      → held p (set table idx new) ≡ held p table + (if p trace then 1 else 0)
  unfolding visit_at
  visit_at-held fails trace table idx {new} h = elim (Option-cases (get_elem? table idx)) [
    | inl out ↦ absurd (cc (h, out))
    | inr (old, found) ↦ omega (
      arith,
      held-set table idx new found,
      visit-held fails trace old {new = new} (ground (arith, h, found)),
    )
  ]

  add_from-held :
      (fails : ℕ → Bool) (rounds i hash : ℕ) (trace : Stack) (table : Table) {after : Table}
      → add_from fails rounds i hash trace table ≡ some after
      → held p after ≡ held p table + (if p trace then 1 else 0)
  unfolding add_from
  add_from-held fails zero i hash trace table h = absurd (cc h)
  add_from-held fails (suc rounds) i hash trace table {after} h =
      let idx = (i + hash) % 2 ^ 64 % max_stack_traces in
      elim (Option-cases (visit_at (fails i) trace table idx)) [
        | inl passed ↦
            add_from-held fails rounds (i + 1) hash trace table {after = after}
              (ground (arith, h, passed))
        | inr (new, taken) ↦
            let same : set table idx new ≡ after = ground (arith, h, taken) in
            rw (← same) (visit_at-held (fails i) trace table idx taken)
      ]

  pub add-held :
      (fails : ℕ → Bool) (trace : Stack) (table : Table) {after : Table}
      → add fails trace table ≡ some after
      → held p after ≡ held p table + (if p trace then 1 else 0)
  unfolding add
  add-held fails trace table h = add_from-held fails _ _ _ trace table h

-- What `Extract` takes out of the table.
abbrev pub taken_of : (Stack → Bool) → Option (Stack × ℕ) → ℕ
taken_of p none = 0
taken_of p (some (frames, count)) = if p frames then count else 0

-- No entry has more frames than its buffer.
abbrev pub IsFit : Entry → Type 0
IsFit e = length e.frames ≤ max_frames_to_capture

-- `Extract` moves the counts of an entry out of the table, and loses none.
pub extract-held :
    (p : Stack → Bool) (table : Table) (location : ℕ)
    → All IsFit table
    → held p (extract table location max_frames_to_capture).0
        + taken_of p (extract table location max_frames_to_capture).1
      ≡ held p table
unfolding extract
extract-held p table location fit = elim (Option-cases (get_elem? table location)) [
  | inl out ↦ ground (arith, out)
  | inr (e, found) ↦
      let whole = take_all 128 e.frames (All-get_elem? IsFit table location fit found) in
      ground (arith, found, whole, held-set p table location (record e { count = 0 }) found)
]
