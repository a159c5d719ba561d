-- ===== src/Native/Table/Fit.antt =====
-- googlecloudprofiler/src/stacktraces.cc: `Add` keeps the size of the table and of the buffers in it.
use cloud_profiler_python.Prelude.{
  ℕ, zero, suc, ◌+◌, ◌≤◌, ◌≡◌, refl, ◌∙◌, Bool, some, [], ◌∷◌, arith, inl, inr,
}
use cloud_profiler_python.Prelude.{
  nat_eq, list_eq, length, set, replicate, All, All-set, All-get_elem?, All-replicate, length-set,
  length-replicate, get_elem?, Option-cases,
}
use mathlib.Core.Path.{subst}
use Prim.Native.Nat.{◌%◌, ◌^◌}
use cloud_profiler_python.Native.Stack.{Stack, frame_eq, max_frames_to_capture}
use cloud_profiler_python.Native.Table.{
  Entry, Table, visit, visit_at, add_from, add, reset, max_stack_traces,
}
use cloud_profiler_python.Native.Table.Counts.{IsFit, held}
use cloud_profiler_python.Native.Table.Harvest.{IsTable}

module _ (trace : Stack) (short : length trace ≤ max_frames_to_capture) where
  visit-IsFit :
      (fails : Bool) (old : Entry) {new : Entry}
      → visit fails trace old ≡ some new
      → IsFit old
      → IsFit new
  unfolding visit
  visit-IsFit fails old h fit = ground (arith, h)

  visit_at-IsTable :
      (fails : Bool) (table : Table) (idx : ℕ) {new : Entry}
      → visit_at fails trace table idx ≡ some new
      → IsTable table
      → IsTable (set table idx new)
  unfolding visit_at
  visit_at-IsTable fails table idx {new} h v = elim (Option-cases (get_elem? table idx)) [
    | inl out ↦ absurd (cc (h, out))
    | inr (old, found) ↦ record {
      size = length-set table idx new ∙ v.size;
      fit = All-set IsFit table idx new v.fit (
          visit-IsFit fails old {new = new} (ground (arith, h, found))
            (All-get_elem? IsFit table idx v.fit found));
    }
  ]

  add_from-IsTable :
      (fails : ℕ → Bool) (rounds i hash : ℕ) (table : Table) {after : Table}
      → add_from fails rounds i hash trace table ≡ some after
      → IsTable table
      → IsTable after
  unfolding add_from
  add_from-IsTable fails zero i hash table h v = absurd (cc h)
  add_from-IsTable fails (suc rounds) i hash table {after} h v =
      let idx = (i + hash) % 2 ^ 64 % max_stack_traces in
      elim (Option-cases (visit_at (fails i) trace table idx)) [
        | inl passed ↦
            add_from-IsTable fails rounds (i + 1) hash table (ground (arith, h, passed)) v
        | inr (new, taken) ↦
            let same : set table idx new ≡ after = ground (arith, h, taken) in
            subst IsTable same (visit_at-IsTable (fails i) table idx taken v)
      ]

  pub add-IsTable :
      (fails : ℕ → Bool) (table : Table) {after : Table}
      → add fails trace table ≡ some after
      → IsTable table
      → IsTable after
  unfolding add
  add-IsTable fails table h v = add_from-IsTable fails _ _ _ table h v

abbrev free_entry : Entry
free_entry = record { frames = []; count = 0 }

pub reset-IsTable : IsTable reset
unfolding reset
reset-IsTable = record {
  size = length-replicate max_stack_traces free_entry;
  fit = All-replicate IsFit max_stack_traces free_entry (omega arith);
}

abbrev IsFree : Entry → Type 0
IsFree e = e.count ≡ 0

held-IsFree : (p : Stack → Bool) (table : Table) → All IsFree table → held p table ≡ 0
held-IsFree p [] free = refl
held-IsFree p (e ∷ es) (none_here, free) = ground (arith, none_here, held-IsFree p es free)

-- `Reset` leaves no sample.
pub held-reset : (p : Stack → Bool) → held p reset ≡ 0
unfolding reset
held-reset p =
    held-IsFree p (replicate max_stack_traces free_entry)
      (All-replicate IsFree max_stack_traces free_entry refl)
