-- ===== src/Native/Table/Probes.antt =====
-- googlecloudprofiler/src/stacktraces.cc: the probes of `Add` visit the whole table.
use cloud_profiler_python.Prelude.{
  ℕ, zero, suc, ◌+◌, ◌-◌, ◌≤◌, ◌<◌, ◌≡◌, ◌≢◌, refl, Bool, false, none, some, List, [], ◌∷◌, arith,
  inl, inr,
}
use cloud_profiler_python.Prelude.{
  ◌==◌, nat_eq, list_eq, get_elem?, length, Option-cases, All, All-get_elem?,
}
use cloud_profiler_python.Native.Stack.{Stack, frame_eq, calculate_hash}
use cloud_profiler_python.Native.Table.{
  Entry, Table, visit, visit_at, add_from, add, max_stack_traces,
}
use Prim.Native.Nat.{◌%◌, ◌^◌}
use mathlib.Core.Logic.{◌↔◌}
use native.Mathlib.Decide.{dec_lt}

-- The entry of round i.
abbrev slot : ℕ → ℕ → ℕ
slot i hash = (i + hash) % 2 ^ 64 % max_stack_traces

add_from-none :
    (fails : ℕ → Bool) (rounds i hash : ℕ) (trace : Stack) (table : Table)
    → add_from fails rounds i hash trace table ≡ none
    → (k : ℕ) → i ≤ k
    → k < i + rounds
    → visit_at (fails k) trace table (slot k hash) ≡ none
unfolding add_from
add_from-none fails zero i hash trace table h k low high = absurd (omega arith)
add_from-none fails (suc rounds) i hash trace table h k low high =
    elim (Option-cases (visit_at (fails i) trace table (slot i hash))) [
      | inr (new, taken) ↦ absurd (ground (arith, h, taken))
      | inl passed ↦ elim (dec_lt i k) [
        | yes later ↦
            add_from-none fails rounds (i + 1) hash trace table (ground (arith, h, passed)) k
              (omega arith) (omega arith)
        | no first ↦ let here : i ≡ k = omega arith in rw (← here) passed
      ]
    ]

slot_of : (j hash : ℕ) → j < max_stack_traces → (k : ℕ) × (k < max_stack_traces) × (slot k hash ≡ j)
slot_of j hash lt = ((j + 2048 - hash % 2048) % 2048, omega arith, omega arith)

get_elem?-some-lt :
    {A : Type 0} (xs : List A) (j : ℕ) {a : A} → get_elem? xs j ≡ some a → j < length xs
get_elem?-some-lt [] j h = absurd (cc h)
get_elem?-some-lt (x ∷ xs) zero h = omega arith
get_elem?-some-lt (x ∷ xs) (suc j) h = omega (arith, get_elem?-some-lt xs j h)

-- The entry is neither free nor the trace's.
abbrev pub IsOther : Stack → Entry → Type 0
IsOther trace e = (e.count ≢ 0) × ((trace == e.frames) ≡ false)

All-of_get_elem? :
    {A : Type 0} (P : A → Type 0) (xs : List A)
    → ((j : ℕ) (a : A) → get_elem? xs j ≡ some a → P a)
    → All P xs
All-of_get_elem? P [] h = tt
All-of_get_elem? P (x ∷ xs) h = (h 0 x refl, All-of_get_elem? P xs (λ j a e. h (suc j) a e))

visit-IsOther : (trace : Stack) (e : Entry) → visit false trace e ≡ none → IsOther trace e
unfolding visit
visit-IsOther trace e h = ground (arith, h)

visit_at-other :
    (fails : Bool) (trace : Stack) (table : Table) (idx : ℕ)
    → All (IsOther trace) table
    → visit_at fails trace table idx ≡ none
unfolding visit_at visit
visit_at-other fails trace table idx all = elim (Option-cases (get_elem? table idx)) [
  | inl out ↦ ground (arith, out)
  | inr (e, found) ↦ ground (arith, found, All-get_elem? (IsOther trace) table idx all found)
]

add_from-other :
    (fails : ℕ → Bool) (rounds i hash : ℕ) (trace : Stack) (table : Table)
    → All (IsOther trace) table
    → add_from fails rounds i hash trace table ≡ none
unfolding add_from
add_from-other fails zero i hash trace table all = refl
add_from-other fails (suc rounds) i hash trace table all = ground (
  arith,
  visit_at-other (fails i) trace table (slot i hash) all,
  add_from-other fails rounds (i + 1) hash trace table all,
)

-- Where no other thread is in the way, `Add` fails exactly if every entry is taken by another trace.
pub add-full_iff :
    (trace : Stack) (table : Table)
    → length table ≡ max_stack_traces
    → (add (λ i. false) trace table ≡ none) ↔ All (IsOther trace) table
unfolding add visit_at
add-full_iff trace table size = (
  λ h. All-of_get_elem? (IsOther trace) table (λ j e found.
      let (k, low, here) =
        slot_of j (calculate_hash trace) (omega (arith, size, get_elem?-some-lt table j found)) in
      let at_k : visit_at false trace table (slot k (calculate_hash trace)) ≡ none =
        add_from-none (λ i. false) max_stack_traces 0 (calculate_hash trace) trace table h k
          (omega arith) (omega arith) in
      let at_j : visit_at false trace table j ≡ none = rw (← here) at_k in
      visit-IsOther trace e (ground (arith, at_j, found))),
  λ all. add_from-other (λ i. false) max_stack_traces 0 (calculate_hash trace) trace table all,
)
