-- ===== src/Native/Entry/Owners.antt =====
-- googlecloudprofiler/src/stacktraces.cc: who has an entry locked.
use cloud_profiler_python.Prelude.{
  ℕ, ◌≡◌, refl, sym, ap, ◌∙◌, Bool, true, false, ◌⊎◌, inl, inr, arith, Bool-cases,
}
use cloud_profiler_python.Prelude.{◌==◌, nat_eq}
use cloud_profiler_python.Native.Entry.{
  Count, locked, counted, Reader, holding, copied, released, resting, Cell, Pc, idle, Move, enter,
  load, reserve, not_reserved, pass_locked, differ, agree, reload, bump, not_bumped, step_back,
  write, publish, leave_bumped, leave, Read, look, see, exchange, copy, wait_ends, release, System,
  Step, adds, update, Reach, begins, goes_on,
}
use cloud_profiler_python.Native.Entry.Local.{writes, is_locked}
use cloud_profiler_python.Native.Entry.Invariant.{update-same, update-other}

-- `Extract` has the entry locked.
abbrev holds : Reader → Bool
holds (holding num k) = true
holds (copied fs k) = true
holds (released fs k) = true
holds _ = false

abbrev HasOwner : Cell → (ℕ → Pc) → Type 0
HasOwner c pcs = (holds c.reader ≡ true) ⊎ ((i : ℕ) × (writes (pcs i) ≡ true))

Move-locked :
    {c c' : Cell} {p p' : Pc}
    → Move c p c' p'
    → is_locked c'.count ≡ true
    → (writes p' ≡ true)
      ⊎ ((is_locked c.count ≡ true) × (c'.reader ≡ c.reader) × (writes p ≡ false))
Move-locked (enter c t) h = inr (h, refl, refl)
Move-locked (load c t) h = inr (h, refl, refl)
Move-locked (reserve c t e) h = inl refl
Move-locked (not_reserved c t) h = inr (h, refl, refl)
Move-locked (pass_locked c t) h = inr (h, refl, refl)
Move-locked (differ c t k e) h = inr (h, refl, refl)
Move-locked (agree c t k e) h = inr (h, refl, refl)
Move-locked (reload c t) h = inr (h, refl, refl)
Move-locked (bump c t k e) h = absurd (cc h)
Move-locked (not_bumped c t k) h = inr (h, refl, refl)
Move-locked (step_back c t) h = inl refl
Move-locked (write c t) h = inl refl
Move-locked (publish c t) h = absurd (cc h)
Move-locked (leave_bumped c t) h = inr (h, refl, refl)
Move-locked (leave c t) h = inr (h, refl, refl)

Read-locked :
    {c c' : Cell}
    → Read c c'
    → is_locked c'.count ≡ true
    → (holds c'.reader ≡ true) ⊎ ((is_locked c.count ≡ true) × (holds c.reader ≡ false))
Read-locked (look c k e f) h = absurd (cc (h, f))
Read-locked (see c e) h = inr (h, ap holds e)
Read-locked (exchange c num k e f) h = inl refl
Read-locked (copy c num k e) h = inl refl
Read-locked (wait_ends c fs k e none_active) h = inl refl
Read-locked (release c fs k e) h = absurd (cc h)

adds-HasOwner :
    (s : System) (i : ℕ) {c : Cell} {p : Pc}
    → Move s.cell (s.pcs i) c p
    → (is_locked s.cell.count ≡ true → HasOwner s.cell s.pcs)
    → is_locked c.count ≡ true
    → HasOwner c (update s.pcs i p)
adds-HasOwner s i {c} {p} move owner h = elim (Move-locked move h) [
  | inl own ↦ inr (i, ap writes (sym (update-same s.pcs i p i (ground arith))) ∙ own)
  | inr (was_locked, same, not_own) ↦ elim (owner was_locked) [
    | inl reading ↦ inl (ap holds same ∙ reading)
    | inr (j, theirs) ↦ elim (Bool-cases (j == i)) [
      | inl here ↦
          let e : j ≡ i = ground (arith, here) in
          absurd (cc (theirs, ap (λ l. writes (s.pcs l)) e, not_own))
      | inr other ↦ inr (j, ap writes (sym (update-other s.pcs i p j other)) ∙ theirs)
    ]
  ]
]

-- A locked entry has an owner, which has yet to unlock it.
Reach-HasOwner :
    (n : ℕ) (s : System) → Reach n s → is_locked s.cell.count ≡ true → HasOwner s.cell s.pcs
Reach-HasOwner n _ begins h = absurd (cc h)
Reach-HasOwner n _ (goes_on {s} reach (adds i lt move)) h =
    adds-HasOwner s i move (Reach-HasOwner n s reach) h
Reach-HasOwner n _ (goes_on {s} reach (Step.reads read)) h = elim (Read-locked read h) [
  | inl reading ↦ inl reading
  | inr (was_locked, not_reading) ↦ elim (Reach-HasOwner n s reach was_locked) [
    | inl reading ↦ absurd (cc (reading, not_reading))
    | inr owner ↦ inr owner
  ]
]

-- An entry that nobody is at is not locked.
pub Reach-counted :
    (n : ℕ) (s : System)
    → Reach n s
    → s.cell.reader ≡ resting
    → ((i : ℕ) → s.pcs i ≡ idle)
    → (k : ℕ) × (s.cell.count ≡ counted k)
Reach-counted n s reach rests out = unlocked s.cell.count (λ h. elim (Reach-HasOwner n s reach h) [
  | inl reading ↦ absurd (cc (reading, ap holds rests))
  | inr (i, theirs) ↦ absurd (cc (theirs, ap writes (out i)))
])
  where
    unlocked : (c : Count) → ¬ (is_locked c ≡ true) → (k : ℕ) × (c ≡ counted k)
    unlocked locked h = absurd (h refl)
    unlocked (counted k) h = (k, refl)
