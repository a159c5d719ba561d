-- ===== src/Native/Concurrent/Harvested.antt =====
-- googlecloudprofiler/src/stacktraces.cc: `HarvestSamples` after a step.
use cloud_profiler_python.Prelude.{
  ℕ, suc, ◌<◌, ◌≡◌, refl, sym, ap, ◌∙◌, Bool, false, [], arith, inl, inr, ◌⊎◌,
}
use cloud_profiler_python.Prelude.{◌==◌, nat_eq, list_eq, Bool-cases}
use cloud_profiler_python.Prelude.Dict
use cloud_profiler_python.Native.Stack.{Stack, frame_eq}
use cloud_profiler_python.Native.Table.{max_stack_traces}
use cloud_profiler_python.Native.Entry.{Cell, resting}
use cloud_profiler_python.Native.Concurrent.{
  Harvester, off, before, within, Board, slot, put, Turn, handles, moves, stores, counts,
  tries_next, fails, misses, begins, skips, looks, releases, ends,
}
use cloud_profiler_python.Native.Concurrent.Project.{put-same, put-other}
use cloud_profiler_python.Native.Concurrent.Pending.{
  sum_harvested, put_sum, slot_bound, Move-keeps, Read-looked, Read-released, total_of-absorb,
}
use cloud_profiler_python.Native.Concurrent.Added.{IsInside}

-- Between two calls of `Extract` no entry is being read.
abbrev pub Rests : (ℕ → Cell) → Harvester → Type 0
Rests cells h = (k : ℕ) → ((cells k).reader ≡ resting) ⊎ (h ≡ within k)

put-Rests :
    (cells : ℕ → Cell) (h h' : Harvester) (j : ℕ) (c : Cell)
    → Rests cells h
    → (c.reader ≡ resting) ⊎ (h' ≡ within j)
    → ((k : ℕ) → (k == j) ≡ false → h ≡ within k → h' ≡ within k)
    → Rests (put cells j c) h'
put-Rests cells h h' j c v here away k = elim (Bool-cases (k == j)) [
  | inl same ↦ elim here [
    | inl rests ↦ inl (ap (λ x. x.reader) (put-same cells j c k same) ∙ rests)
    | inr at ↦ inr (let e : k ≡ j = ground (arith, same) in cc (at, e))
  ]
  | inr other ↦ elim (v k) [
    | inl rests ↦ inl (ap (λ x. x.reader) (put-other cells j c k other) ∙ rests)
    | inr at ↦ inr (away k other at)
  ]
]

move-Rests :
    (cells : ℕ → Cell) (h : Harvester) (j : ℕ) (c : Cell)
    → Rests cells h
    → c.reader ≡ (cells j).reader
    → Rests (put cells j c) h
move-Rests cells h j c v same =
    put-Rests cells h h j c v (elim (v j) [ inl rests ↦ inl (same ∙ rests) | inr at ↦ inr at ])
      (λ k other at. at)

idle-Rests :
    (cells : ℕ → Cell) (h h' : Harvester)
    → Rests cells h
    → ((k : ℕ) → ¬ (h ≡ within k))
    → Rests cells h'
idle-Rests cells h h' v none_within k = elim (v k) [
  | inl rests ↦ inl rests
  | inr at ↦ absurd (none_within k at)
]

pub Turn-Rests :
    (n : ℕ) (s t : Board) → Turn n s t → Rests s.cells s.harvester → Rests t.cells t.harvester
Turn-Rests n s _ (handles i t lt at) v = v
Turn-Rests n s _ (moves i t r p q c lt at move same) v =
    move-Rests s.cells s.harvester (slot t r) c v ((Move-keeps move).0)
Turn-Rests n s _ (stores i t r c lt at move) v =
    move-Rests s.cells s.harvester (slot t r) c v ((Move-keeps move).0)
Turn-Rests n s _ (counts i t r c lt at move) v =
    move-Rests s.cells s.harvester (slot t r) c v ((Move-keeps move).0)
Turn-Rests n s _ (tries_next i t r c lt at move more) v =
    move-Rests s.cells s.harvester (slot t r) c v ((Move-keeps move).0)
Turn-Rests n s _ (fails i t r c lt at move last) v =
    move-Rests s.cells s.harvester (slot t r) c v ((Move-keeps move).0)
Turn-Rests n s _ (misses i t lt at) v = v
Turn-Rests n s _ (begins at) v =
    idle-Rests s.cells s.harvester (before 0) v (λ k h. absurd (cc (at, h)))
Turn-Rests n s _ (skips j at lt free) v =
    idle-Rests s.cells s.harvester (before (suc j)) v (λ k h. absurd (cc (at, h)))
Turn-Rests n s _ (looks j c at lt read looking) v =
    put-Rests s.cells s.harvester (within j) j c v (inr refl) (λ k other h. absurd (cc (at, h)))
Turn-Rests n s _ (Turn.reads j c at read same) v =
    put-Rests s.cells s.harvester s.harvester j c v (inr at) (λ k other h. h)
Turn-Rests n s _ (releases j c fs m at held read) v =
    put-Rests s.cells s.harvester (before (suc j)) j c v (inl ((Read-released fs m read held).0))
      (λ k other h. let e : k ≡ j = cc (at, h) in absurd (ground (arith, e, other)))
Turn-Rests n s _ (ends j at done) v =
    idle-Rests s.cells s.harvester off v (λ k h. absurd (cc (at, h)))

-- The aggregated profile is what the entries have handed out.
abbrev pub IsTallied : (Stack → Bool) → Board → Type 0
IsTallied p s = Dict.total_of p s.aggregated ≡ sum_harvested p s.cells

put_harvested :
    (p : Stack → Bool) (cells : ℕ → Cell) (k : ℕ) (c : Cell)
    → c.harvested ≡ (cells k).harvested
    → k < max_stack_traces
    → sum_harvested p (put cells k c) ≡ sum_harvested p cells
put_harvested p cells k c same inside = omega (
  arith,
  ap (Dict.total_of p) same,
  put_sum (λ x. Dict.total_of p x.harvested) max_stack_traces cells k c inside,
)

pub Turn-IsTallied :
    (p : Stack → Bool) (n : ℕ) (s t : Board)
    → p [] ≡ false
    → Turn n s t
    → IsInside s
    → IsTallied p s
    → IsTallied p t
Turn-IsTallied p n s _ empty (handles i t lt at) v h = h
Turn-IsTallied p n s _ empty (moves i t r x q c lt at move same) v h =
    h ∙ sym (put_harvested p s.cells (slot t r) c ((Move-keeps move).1) (slot_bound t r))
Turn-IsTallied p n s _ empty (stores i t r c lt at move) v h =
    h ∙ sym (put_harvested p s.cells (slot t r) c ((Move-keeps move).1) (slot_bound t r))
Turn-IsTallied p n s _ empty (counts i t r c lt at move) v h =
    h ∙ sym (put_harvested p s.cells (slot t r) c ((Move-keeps move).1) (slot_bound t r))
Turn-IsTallied p n s _ empty (tries_next i t r c lt at move more) v h =
    h ∙ sym (put_harvested p s.cells (slot t r) c ((Move-keeps move).1) (slot_bound t r))
Turn-IsTallied p n s _ empty (fails i t r c lt at move last) v h =
    h ∙ sym (put_harvested p s.cells (slot t r) c ((Move-keeps move).1) (slot_bound t r))
Turn-IsTallied p n s _ empty (misses i t lt at) v h = h
Turn-IsTallied p n s _ empty (begins at) v h = h
Turn-IsTallied p n s _ empty (skips j at lt free) v h = h
Turn-IsTallied p n s _ empty (looks j c at lt read looking) v h =
    h ∙ sym (put_harvested p s.cells j c (Read-looked read looking) lt)
Turn-IsTallied p n s _ empty (Turn.reads j c at read same) v h =
    h ∙ sym (put_harvested p s.cells j c same (v j at))
Turn-IsTallied p n s _ empty (releases j c fs m at held read) v h = omega (
  arith,
  h,
  total_of-absorb p fs m s.aggregated empty,
  ap (Dict.total_of p) ((Read-released fs m read held).1),
  put_sum (λ x. Dict.total_of p x.harvested) max_stack_traces s.cells j c (v j at),
)
Turn-IsTallied p n s _ empty (ends j at done) v h = h
