-- ===== src/Native/Entry/Invariant.antt =====
-- googlecloudprofiler/src/stacktraces.cc: what holds of an entry whatever the threads do.
use cloud_profiler_python.Prelude.{
  ℕ, ◌+◌, ◌≤◌, ◌<◌, ◌≡◌, refl, sym, ap, ◌∙◌, true, false, arith, inl, inr,
}
use cloud_profiler_python.Prelude.{◌==◌, nat_eq, Bool-cases}
use mathlib.Core.Path.{subst}
use cloud_profiler_python.Prelude.Sums.{sum_to, sum_to-zero, sum_to-change, sum_to-summand}
use native.Mathlib.Decide.{dec_lt}
use cloud_profiler_python.Native.Entry.{
  Cell, Pc, idle, Move, Read, System, Step, adds, reads, update, at_rest, Reach, begins, goes_on,
}
use cloud_profiler_python.Native.Entry.Local.{
  is_active, writes, Local, IsRead, Balances, plain-Local,
}
use cloud_profiler_python.Native.Entry.Moves.{
  Move-active, Move-Local, Move-other, Move-IsRead, Move-alone, Move-Balances,
}
use cloud_profiler_python.Native.Entry.Reads.{Read-Local, Read-IsRead, Read-Balances, Read-active}

pub update-same : (f : ℕ → Pc) (i : ℕ) (p : Pc) (j : ℕ) → (j == i) ≡ true → p ≡ update f i p j
update-same f i p j h = ground (arith, h)

pub update-other : (f : ℕ → Pc) (i : ℕ) (p : Pc) (j : ℕ) → (j == i) ≡ false → f j ≡ update f i p j
update-other f i p j h = ground (arith, h)

-- The threads of the first n that count as active updates.
abbrev pub total_active : ℕ → (ℕ → Pc) → ℕ
total_active n f = sum_to n (λ i. is_active (f i))

-- A thread takes a step: what changes of a sum over the threads.
pub sum_to-update :
    (F : Pc → ℕ) (n : ℕ) (f : ℕ → Pc) (i : ℕ) (p : Pc)
    → i < n
    → sum_to n (λ j. F (update f i p j)) + F (f i) ≡ sum_to n (λ j. F (f j)) + F p
sum_to-update F n f i p lt =
    sum_to-change n (λ j. F (f j)) (λ j. F (update f i p j)) i lt
      (λ j other. ap F (update-other f i p j other))
    ∙ ap (λ q. sum_to n (λ j. F (f j)) + F q) (sym (update-same f i p i (ground arith)))

pub record IsEntry (n : ℕ) (s : System) : Type 0 where
  pub active : total_active n s.pcs ≡ s.cell.active_updates
  pub outside : (i : ℕ) → n ≤ i → s.pcs i ≡ idle
  pub local : (i : ℕ) → Local s.cell (s.pcs i)
  pub alone : (i j : ℕ) → writes (s.pcs i) ≡ true → writes (s.pcs j) ≡ true → i ≡ j
  pub read : IsRead s.cell
  pub balances : Balances s.cell

at_rest-IsEntry : (n : ℕ) → IsEntry n at_rest
at_rest-IsEntry n = record {
  active = sum_to-zero n (λ i. 0) (λ i. refl);
  outside = λ i h. refl;
  local = λ i. plain-Local at_rest.cell idle refl refl;
  alone = λ i j h k. absurd (cc h);
  read = tt;
  balances = λ p. ground arith;
}

-- A thread that has the entry to itself leaves no other that does.
beside :
    (n : ℕ) (s : System) (i j : ℕ)
    → IsEntry n s
    → (j == i) ≡ false
    → writes (s.pcs i) ≡ true
    → writes (s.pcs j) ≡ false
beside n s i j v other h = elim (Bool-cases (writes (s.pcs j))) [
  | inl both ↦ absurd (ground (arith, other, v.alone j i both h))
  | inr no_writer ↦ no_writer
]

module _ (n : ℕ) (s : System) (v : IsEntry n s) where
  module _ (i : ℕ) {c : Cell} {p : Pc} (lt : i < n) (move : Move s.cell (s.pcs i) c p) where
    adds-local : (j : ℕ) → Local c (update s.pcs i p j)
    adds-local j = elim (Bool-cases (j == i)) [
      | inl same ↦
          subst (Local c) (update-same s.pcs i p j same) (Move-Local move (v.local i) v.read)
      | inr other ↦
          subst (Local c) (update-other s.pcs i p j other)
            (Move-other move (s.pcs j) (beside n s i j v other) (v.local i) v.read (v.local j))
    ]

    writes-update :
        (j : ℕ) → (j == i) ≡ false → writes (update s.pcs i p j) ≡ true → writes (s.pcs j) ≡ true
    writes-update j other h = ap writes (update-other s.pcs i p j other) ∙ h

    -- If the thread has locked the entry, it had it before where another thread has it.
    adds-first :
        (j k : ℕ)
        → (j == i) ≡ true
        → (k == i) ≡ false
        → writes (update s.pcs i p j) ≡ true
        → writes (update s.pcs i p k) ≡ true
        → j ≡ k
    adds-first j k same other h g =
        let own : writes p ≡ true = ap writes (update-same s.pcs i p j same) ∙ h in
        let theirs : writes (s.pcs k) ≡ true = writes-update k other g in
        let had : writes (s.pcs i) ≡ true = Move-alone move own (s.pcs k) (v.local k) theirs in
        absurd (cc (theirs, beside n s i k v other had))

    adds-alone :
        (j k : ℕ) → writes (update s.pcs i p j) ≡ true → writes (update s.pcs i p k) ≡ true → j ≡ k
    adds-alone j k h g = elim (Bool-cases (j == i)) [
      | inl same ↦ elim (Bool-cases (k == i)) [
        | inl both ↦ ground (arith, same, both)
        | inr other ↦ adds-first j k same other h g
      ]
      | inr first ↦ elim (Bool-cases (k == i)) [
        | inl same ↦ sym (adds-first k j same first g h)
        | inr other ↦ v.alone j k (writes-update j first h) (writes-update k other g)
      ]
    ]

    adds-IsEntry : IsEntry n (record { cell = c; pcs = update s.pcs i p })
    adds-IsEntry =
        let room : is_active (s.pcs i) ≤ s.cell.active_updates =
          omega (arith, sum_to-summand n (λ j. is_active (s.pcs j)) i lt, v.active) in
        record {
          active =
              omega
                (arith, sum_to-update is_active n s.pcs i p lt, Move-active move room, v.active);
          outside = λ j h. sym (update-other s.pcs i p j (ground (arith, h, lt))) ∙ v.outside j h;
          local = adds-local;
          alone = adds-alone;
          read = Move-IsRead move (v.local i) v.read;
          balances = Move-Balances move (v.local i) v.read v.balances;
        }

  quiet : s.cell.active_updates ≡ 0 → (j : ℕ) → is_active (s.pcs j) ≡ 0
  quiet none_active j = elim (dec_lt j n) [
    | yes inside ↦
        omega (arith, none_active, sum_to-summand n (λ l. is_active (s.pcs l)) j inside, v.active)
    | no out ↦ ap is_active (v.outside j (omega arith))
  ]

  reads-IsEntry : {c : Cell} → Read s.cell c → IsEntry n (record s { cell = c })
  reads-IsEntry step = record {
    active = v.active ∙ sym (Read-active step);
    outside = v.outside;
    local = λ j. Read-Local step v.read (s.pcs j) (λ none_active. quiet none_active j) (v.local j);
    alone = v.alone;
    read = Read-IsRead step v.read;
    balances = Read-Balances step v.read v.balances;
  }

Step-IsEntry : (n : ℕ) (s t : System) → Step n s t → IsEntry n s → IsEntry n t
Step-IsEntry n s _ (adds i lt move) v = adds-IsEntry n s v i lt move
Step-IsEntry n s _ (reads step) v = reads-IsEntry n s v step

pub Reach-IsEntry : (n : ℕ) (s : System) → Reach n s → IsEntry n s
Reach-IsEntry n _ begins = at_rest-IsEntry n
Reach-IsEntry n t (goes_on {s} reach step) = Step-IsEntry n s t step (Reach-IsEntry n s reach)
