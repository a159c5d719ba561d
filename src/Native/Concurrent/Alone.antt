-- ===== src/Native/Concurrent/Alone.antt =====
-- googlecloudprofiler/src/stacktraces.cc: a round of `Add` by a thread that no other interrupts.
use cloud_profiler_python.Prelude.{
  ℕ, zero, suc, ◌+◌, ◌-◌, ◌≡◌, refl, sym, ap, ◌∙◌, Bool, true, false, Option, none, some, List,
  arith, inl, inr, ◌⊎◌,
}
use cloud_profiler_python.Prelude.{◌==◌, nat_eq, list_eq, Bool-cases, if◌then◌else◌}
use mathlib.Core.Path.{subst}
use cloud_profiler_python.Native.Stack.{Stack, frame_eq}
use cloud_profiler_python.Native.Table.{Entry, visit}
use cloud_profiler_python.Native.Entry.{
  counted, Reader, Cell, Pc, idle, entered, written, bumped, leaving, Move, enter, load, reserve,
  not_reserved, step_back, write, publish, agree, differ, reload, bump, not_bumped, leave,
  leave_bumped,
}
use cloud_profiler_python.Native.Concurrent.{IsOf}

-- The steps of one thread in a round, one after the other.
pub data Round (t : Stack) : Cell → Pc → Cell → Pc → Type 0 where
  rest : (c : Cell) (p : Pc) → Round t c p c p
  next : {c d e : Cell} {p q r : Pc} → Move c p d q → IsOf t q → Round t d q e r → Round t c p e r

-- The cell holds the entry, or nothing where there is none.
abbrev pub ShowsAt : Cell → Option Entry → Type 0
ShowsAt c none = Unit
ShowsAt c (some e) = (c.count ≡ counted e.count) × (c.frames ≡ e.frames)

-- How a round ends that stores or counts the trace.
pub record Taken (t : Stack) (c : Cell) (e : Entry) : Type 0 where
  pub before : Cell
  pub place : Pc
  pub after : Cell
  pub round : Round t c idle before place
  pub last : Move before place after idle
  pub is_last : (place ≡ written t) ⊎ (place ≡ bumped t)
  pub shows : ShowsAt after (some e)

-- How a round ends that leaves the trace to the next.
pub record Passed (t : Stack) (c : Cell) (e : Entry) : Type 0 where
  pub before : Cell
  pub after : Cell
  pub round : Round t c idle before (leaving t)
  pub last : Move before (leaving t) after idle
  pub shows : ShowsAt after (some e)

abbrev pub Ends : Stack → Cell → Entry → Option Entry → Type 0
Ends t c e none = Passed t c e
Ends t c e (some e') = Taken t c e'

module _ (t frames : Stack) (a : ℕ) (r : Reader) (added : List Stack)
    (harvested : List (Stack × ℕ)) where
  abbrev in_use : ℕ → Cell
  in_use k = record {
    count = counted k;
    frames = frames;
    active_updates = a;
    reader = r;
    added = added;
    harvested = harvested;
  }

  abbrev held : ℕ → Entry
  held k = record { frames = frames; count = k }

  passes_by :
      (k : ℕ)
      → Round t
          (record (in_use k) { active_updates = a + 1 })
          (entered t)
          (record (in_use k) { active_updates = a + 1 })
          (leaving t)
      → Passed t (in_use k) (held k)
  passes_by k round = record {
    before = record (in_use k) { active_updates = a + 1 };
    after = record (in_use k) { active_updates = a + 1 - 1 };
    round = next (enter (in_use k) t) refl round;
    last = leave _ t;
    shows = (refl, refl);
  }

  stores_in : Taken t (in_use 0) (record { frames = t; count = 1 })
  stores_in = record {
    before = _;
    place = written t;
    after = _;
    round = next (enter _ t) refl (
        next (load _ t) refl (
          next (reserve _ t refl) refl
            (next (step_back _ t) refl (next (write _ t) refl (rest _ _)))));
    last = publish _ t;
    is_last = inl refl;
    shows = (refl, refl);
  }

  bumps : (k : ℕ) → (t == frames) ≡ true → Taken t (in_use (suc k)) (held (suc (suc k)))
  bumps k same = record {
    before = _;
    place = bumped t;
    after = _;
    round = next (enter _ t) refl (
        next (load _ t) refl (
          next (agree _ t k same) refl
            (next (reload _ t) refl (next (bump _ t (suc k) refl) refl (rest _ _)))));
    last = leave_bumped _ t;
    is_last = inr refl;
    shows = (refl, refl);
  }

  visit-same :
      (fails : Bool) (k : ℕ)
      → (t == frames) ≡ true
      → visit fails t (held (suc k)) ≡ (if fails then none else some (held (suc (suc k))))
  unfolding visit
  visit-same fails k same = ground (arith, same)

  visit-other : (fails : Bool) (k : ℕ) → (t == frames) ≡ false → visit fails t (held (suc k)) ≡ none
  unfolding visit
  visit-other fails k other = ground (arith, other)

  same-Ends :
      (fails : Bool) (k : ℕ)
      → (t == frames) ≡ true
      → Ends t (in_use (suc k)) (held (suc k)) (if fails then none else some (held (suc (suc k))))
  same-Ends true k same = passes_by (suc k) (
      next (load _ t) refl (
        next (agree _ t k same) refl
          (next (reload _ t) refl (next (not_bumped _ t _) refl (rest _ _)))))
  same-Ends false k same = bumps k same

  visit-Ends : (fails : Bool) (k : ℕ) → Ends t (in_use k) (held k) (visit fails t (held k))
  unfolding visit
  visit-Ends true zero =
      passes_by 0 (next (load _ t) refl (next (not_reserved _ t) refl (rest _ _)))
  visit-Ends false zero = stores_in
  visit-Ends fails (suc k) = elim (Bool-cases (t == frames)) [
    | inl same ↦
        subst (Ends t (in_use (suc k)) (held (suc k))) (sym (visit-same fails k same))
          (same-Ends fails k same)
    | inr other ↦
        subst (Ends t (in_use (suc k)) (held (suc k))) (sym (visit-other fails k other))
          (passes_by (suc k) (next (load _ t) refl (next (differ _ t k other) refl (rest _ _))))
  ]

-- What a round does to an entry is what `visit` says, also where an attempt fails.
pub cell-Ends :
    (fails : Bool) (t : Stack) (c : Cell) (e : Entry)
    → ShowsAt c (some e)
    → Ends t c e (visit fails t e)
cell-Ends fails t c e (count_is, frames_are) =
    let whole : in_use t e.frames c.active_updates c.reader c.added c.harvested e.count ≡ c = sym (
      ap (λ x. record c { count = x }) count_is
      ∙ ap (λ y. record c { count = counted e.count; frames = y }) frames_are) in
    subst (λ x. Ends t x e (visit fails t e)) whole
      (visit-Ends t e.frames c.active_updates c.reader c.added c.harvested fails e.count)
