-- ===== src/Native/Concurrent/Project.antt =====
-- googlecloudprofiler/src/stacktraces.cc: what the threads on the table do to one of its entries.
use cloud_profiler_python.Prelude.{
  ℕ, suc, ◌<◌, ◌≡◌, refl, sym, ap, ◌∙◌, Bool, true, false, arith, inl, inr,
}
use cloud_profiler_python.Prelude.{◌==◌, nat_eq, if◌then◌else◌, Bool-cases}
use mathlib.Core.Path.{subst, fun_ext}
use cloud_profiler_python.Native.Entry.{
  Cell, Pc, idle, written, bumped, leaving, Move, Read, System, Step, update, Reach,
}
use cloud_profiler_python.Native.Concurrent.{
  Worker, outside, adding, failing, Board, slot, put, Turn, handles, moves, stores, counts,
  tries_next, fails, misses, begins, skips, looks, releases, ends, Reached, starts,
}

-- Where the thread is in `Add` on the entry k.
abbrev pub pc_at : ℕ → Worker → Pc
pc_at k outside = idle
pc_at k (adding t r p) = if slot t r == k then p else idle
pc_at k (failing t) = idle

abbrev pub view : (ℕ → Cell) → (ℕ → Worker) → ℕ → System
view cells workers k = record { cell = cells k; pcs = λ i. pc_at k (workers i) }

-- The entry k, and the threads at it.
abbrev pub project : Board → ℕ → System
project s k = view s.cells s.workers k

same_view :
    (n : ℕ) (c d : Cell) (f g : ℕ → Pc)
    → c ≡ d
    → ((j : ℕ) → f j ≡ g j)
    → Reach n (record { cell = c; pcs = f })
    → Reach n (record { cell = d; pcs = g })
same_view n c d f g e same reach =
    subst (λ h. Reach n (record { cell = d; pcs = h })) (fun_ext same)
      (subst (λ x. Reach n (record { cell = x; pcs = f })) e reach)

module _ {A : Type 0} (f : ℕ → A) (i : ℕ) (a : A) where
  pub put-same : (j : ℕ) → (j == i) ≡ true → put f i a j ≡ a
  put-same j h = ground (arith, h)

  pub put-other : (j : ℕ) → (j == i) ≡ false → put f i a j ≡ f j
  put-other j h = ground (arith, h)

-- The thread i goes to a place that the entry shows as p.
pc_at-put :
    (k : ℕ) (workers : ℕ → Worker) (i : ℕ) (w : Worker) (p : Pc)
    → p ≡ pc_at k w
    → (j : ℕ) → update (λ l. pc_at k (workers l)) i p j ≡ pc_at k (put workers i w j)
pc_at-put k workers i w p e j = elim (Bool-cases (j == i)) [
  | inl same ↦ ground (arith, same, e)
  | inr other ↦ ground (arith, other)
]

-- The thread i does what the entry does not show.
pc_at-kept :
    (k : ℕ) (workers : ℕ → Worker) (i : ℕ) (w : Worker)
    → pc_at k (workers i) ≡ pc_at k w
    → (j : ℕ) → pc_at k (workers j) ≡ pc_at k (put workers i w j)
pc_at-kept k workers i w e j = elim (Bool-cases (j == i)) [
  | inl same ↦
      let here : j ≡ i = ground (arith, same) in
      ap (λ l. pc_at k (workers l)) here ∙ e ∙ ap (pc_at k) (sym (put-same workers i w j same))
  | inr other ↦ ap (pc_at k) (sym (put-other workers i w j other))
]

-- A step of the thread i on the entry j, after which it shows there as q and nowhere else.
entry_step :
    (n : ℕ) (cells : ℕ → Cell) (workers : ℕ → Worker) (i j : ℕ) (w : Worker) (p q : Pc) (c : Cell)
    → i < n
    → ((k : ℕ) → pc_at k (workers i) ≡ (if j == k then p else idle))
    → ((k : ℕ) → (if j == k then q else idle) ≡ pc_at k w)
    → Move (cells j) p c q
    → (k : ℕ) → Reach n (view cells workers k)
    → Reach n (view (put cells j c) (put workers i w) k)
entry_step n cells workers i j w p q c lt now later move k reach = elim (Bool-cases (j == k)) [
  | inl here ↦
      let e : j ≡ k = ground (arith, here) in
      let from : pc_at k (workers i) ≡ p = now k ∙ ap (λ b. if b then p else idle) here in
      let step : Move (cells k) (pc_at k (workers i)) c q =
        subst (λ x. Move (cells k) x c q) (sym from) (subst (λ l. Move (cells l) p c q) e move) in
      let to : q ≡ pc_at k w = sym (ap (λ b. if b then q else idle) here) ∙ later k in
      same_view n c (put cells j c k) (update (λ l. pc_at k (workers l)) i q)
        (λ l. pc_at k (put workers i w l)) (sym (put-same cells j c k (ground (arith, here))))
        (pc_at-put k workers i w q to) (Reach.goes_on reach (Step.adds i lt step))
  | inr away ↦
      let from : pc_at k (workers i) ≡ idle = now k ∙ ap (λ b. if b then p else idle) away in
      let to : idle ≡ pc_at k w = sym (ap (λ b. if b then q else idle) away) ∙ later k in
      same_view n (cells k) (put cells j c k) (λ l. pc_at k (workers l))
        (λ l. pc_at k (put workers i w l)) (sym (put-other cells j c k (ground (arith, away))))
        (pc_at-kept k workers i w (from ∙ to)) reach
]

-- A step of `Extract` on the entry j.
harvest_step :
    (n : ℕ) (cells : ℕ → Cell) (workers : ℕ → Worker) (j : ℕ) (c : Cell)
    → Read (cells j) c
    → (k : ℕ) → Reach n (view cells workers k)
    → Reach n (view (put cells j c) workers k)
harvest_step n cells workers j c read k reach = elim (Bool-cases (k == j)) [
  | inl here ↦
      let e : j ≡ k = ground (arith, here) in
      same_view n c (put cells j c k) (λ l. pc_at k (workers l)) (λ l. pc_at k (workers l))
        (sym (put-same cells j c k here)) (λ l. refl)
        (Reach.goes_on reach (Step.reads (subst (λ l. Read (cells l) c) e read)))
  | inr away ↦
      same_view n (cells k) (put cells j c k) (λ l. pc_at k (workers l)) (λ l. pc_at k (workers l))
        (sym (put-other cells j c k away)) (λ l. refl) reach
]

-- A step of the thread i that no entry shows.
silent_step :
    (n : ℕ) (cells : ℕ → Cell) (workers : ℕ → Worker) (i : ℕ) (w : Worker) (k : ℕ)
    → pc_at k (workers i) ≡ pc_at k w
    → Reach n (view cells workers k)
    → Reach n (view cells (put workers i w) k)
silent_step n cells workers i w k e reach =
    same_view n (cells k) (cells k) (λ l. pc_at k (workers l)) (λ l. pc_at k (put workers i w l))
      refl (pc_at-kept k workers i w e) reach

no_pc : (b : Bool) → (if b then idle else idle) ≡ idle
no_pc true = refl
no_pc false = refl

Turn-projects :
    (n : ℕ) (s t : Board) → Turn n s t → (k : ℕ) → Reach n (project s k) → Reach n (project t k)
Turn-projects n s _ (handles i t lt at) k reach =
    silent_step n s.cells s.workers i (adding t 0 idle) k
      (ap (pc_at k) at ∙ sym (no_pc (slot t 0 == k))) reach
Turn-projects n s _ (moves i t r p q c lt at move same) k reach =
    entry_step n s.cells s.workers i (slot t r) (adding t r q) p q c lt (λ l. ap (pc_at l) at)
      (λ l. refl) move k reach
Turn-projects n s _ (stores i t r c lt at move) k reach =
    entry_step n s.cells s.workers i (slot t r) outside (written t) idle c lt (λ l. ap (pc_at l) at)
      (λ l. no_pc (slot t r == l)) move k reach
Turn-projects n s _ (counts i t r c lt at move) k reach =
    entry_step n s.cells s.workers i (slot t r) outside (bumped t) idle c lt (λ l. ap (pc_at l) at)
      (λ l. no_pc (slot t r == l)) move k reach
Turn-projects n s _ (tries_next i t r c lt at move more) k reach =
    entry_step n s.cells s.workers i (slot t r) (adding t (suc r) idle) (leaving t) idle c lt
      (λ l. ap (pc_at l) at) (λ l. no_pc (slot t r == l) ∙ sym (no_pc (slot t (suc r) == l))) move k
      reach
Turn-projects n s _ (fails i t r c lt at move last) k reach =
    entry_step n s.cells s.workers i (slot t r) (failing t) (leaving t) idle c lt
      (λ l. ap (pc_at l) at) (λ l. no_pc (slot t r == l)) move k reach
Turn-projects n s _ (misses i t lt at) k reach =
    silent_step n s.cells s.workers i outside k (ap (pc_at k) at) reach
Turn-projects n s _ (begins at) k reach = reach
Turn-projects n s _ (skips j at lt free) k reach = reach
Turn-projects n s _ (looks j c at lt read looking) k reach =
    harvest_step n s.cells s.workers j c read k reach
Turn-projects n s _ (Turn.reads j c at read same) k reach =
    harvest_step n s.cells s.workers j c read k reach
Turn-projects n s _ (releases j c fs m at held read) k reach =
    harvest_step n s.cells s.workers j c read k reach
Turn-projects n s _ (ends j at done) k reach = reach

-- However the calls of `Handle` and of `HarvestSamples` are interleaved on the table, what they do to any
-- one of its entries is what the protocol of `Add` and `Extract` on an entry of its own can do.
pub Reached-projects : (n : ℕ) (s : Board) (k : ℕ) → Reached n s → Reach n (project s k)
Reached-projects n _ k starts = Reach.begins
Reached-projects n t k (Reached.goes_on {s} reached turn) =
    Turn-projects n s t turn k (Reached-projects n s k reached)
