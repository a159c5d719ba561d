-- ===== src/Native/Concurrent/Rounds.antt =====
-- googlecloudprofiler/src/stacktraces.cc: a round of `Add` on the table, by a thread that no other interrupts.
use cloud_profiler_python.Prelude.{
  ℕ, suc, ◌≤◌, ◌<◌, ◌≡◌, refl, sym, ap, ◌∙◌, false, arith, inl, inr, ◌⊎◌,
}
use cloud_profiler_python.Prelude.{◌==◌, nat_eq, list_eq}
use mathlib.Core.Path.{subst}
use cloud_profiler_python.Native.Stack.{Stack, frame_eq}
use cloud_profiler_python.Native.Table.{Entry, max_stack_traces}
use cloud_profiler_python.Native.Entry.{Cell, Pc, idle, written, bumped, leaving, Move}
use cloud_profiler_python.Native.Concurrent.{
  Worker, outside, adding, failing, Board, slot, put, Turn, moves, stores, counts, tries_next,
  fails,
}
use cloud_profiler_python.Native.Concurrent.Project.{put-same, put-other}
use cloud_profiler_python.Native.Concurrent.Alone.{Round, rest, next, Taken, Passed}

pub data Turns (n : ℕ) : Board → Board → Type 0 where
  stays : (s : Board) → Turns n s s
  turns : {s t u : Board} → Turn n s t → Turns n t u → Turns n s u

pub Turns-append : (n : ℕ) {s t u : Board} → Turns n s t → Turns n t u → Turns n s u
Turns-append n (stays s) later = later
Turns-append n (turns first more) later = turns first (Turns-append n more later)

-- The thread i has come to w, and the entry j to d; else all is as before.
pub record Only (i j : ℕ) (d : Cell) (w : Worker) (s s' : Board) : Type 0 where
  pub cell : s'.cells j ≡ d
  pub others : (k : ℕ) → (k == j) ≡ false → s'.cells k ≡ s.cells k
  pub worker : s'.workers i ≡ w
  pub beside : (j : ℕ) → (j == i) ≡ false → s'.workers j ≡ s.workers j
  pub harvester : s'.harvester ≡ s.harvester
  pub aggregated : s'.aggregated ≡ s.aggregated
  pub unknown : s'.unknown ≡ s.unknown

abbrev pub Reaches : ℕ → ℕ → ℕ → Cell → Worker → Board → Type 0
Reaches n i j d w s = (s' : Board) × Turns n s s' × Only i j d w s s'

put-Only :
    (i j : ℕ) (d : Cell) (w : Worker) (s : Board)
    → Only i j d w s (record s { cells = put s.cells j d; workers = put s.workers i w })
put-Only i j d w s = record {
  cell = put-same s.cells j d j (ground arith);
  others = λ k other. put-other s.cells j d k other;
  worker = put-same s.workers i w i (ground arith);
  beside = λ j other. put-other s.workers i w j other;
  harvester = refl;
  aggregated = refl;
  unknown = refl;
}

Only-trans :
    (i j : ℕ) (c d : Cell) (v w : Worker) (s t u : Board)
    → Only i j c v s t
    → Only i j d w t u
    → Only i j d w s u
Only-trans i j c d v w s t u first second = record {
  cell = second.cell;
  others = λ k other. second.others k other ∙ first.others k other;
  worker = second.worker;
  beside = λ j other. second.beside j other ∙ first.beside j other;
  harvester = second.harvester ∙ first.harvester;
  aggregated = second.aggregated ∙ first.aggregated;
  unknown = second.unknown ∙ first.unknown;
}

go_first :
    (n i j : ℕ) (c d : Cell) (v w : Worker) (s t : Board)
    → Turn n s t
    → Only i j c v s t
    → Reaches n i j d w t
    → Reaches n i j d w s
go_first n i j c d v w s t turn first (u, more, second) =
    (u, turns turn more, Only-trans i j c d v w s t u first second)

go_last :
    (n i j : ℕ) (c d : Cell) (v w : Worker) (s : Board)
    → Reaches n i j c v s
    → ((t : Board) → t.cells j ≡ c → t.workers i ≡ v → (u : Board) × Turn n t u × Only i j d w t u)
    → Reaches n i j d w s
go_last n i j c d v w s (t, more, first) last =
    let (u, turn, second) = last t first.cell first.worker in
    (u, Turns-append n more (turns turn (stays u)), Only-trans i j c d v w s t u first second)

module _ (n i : ℕ) (lt : i < n) (t : Stack) (r : ℕ) where
  Round-Reaches :
      {c d : Cell} {p q : Pc}
      → Round t c p d q
      → (s : Board) → s.cells (slot t r) ≡ c
      → s.workers i ≡ adding t r p
      → Reaches n i (slot t r) d (adding t r q) s
  Round-Reaches (rest c p) s here at = (
    s,
    stays s,
    record {
      cell = here;
      others = λ k other. refl;
      worker = at;
      beside = λ j other. refl;
      harvester = refl;
      aggregated = refl;
      unknown = refl;
    },
  )
  Round-Reaches (next {c} {d} {e} {p} {q} {r = q'} move is_of round) s here at =
      let s' = record s {
        cells = put s.cells (slot t r) d;
        workers = put s.workers i (adding t r q);
      } in
      let first = put-Only i (slot t r) d (adding t r q) s in
      go_first n i (slot t r) d e (adding t r q) (adding t r q') s s'
        (moves i t r p q d lt at (subst (λ x. Move x p d q) (sym here) move) is_of) first
        (Round-Reaches round s' first.cell first.worker)

  take_last :
      (c d : Cell) (q : Pc)
      → Move c q d idle
      → (q ≡ written t) ⊎ (q ≡ bumped t)
      → (s : Board) → s.cells (slot t r) ≡ c
      → s.workers i ≡ adding t r q
      → (u : Board) × Turn n s u × Only i (slot t r) d outside s u
  take_last c d q last (inl is_written) s here at = (
    _,
    stores i t r d lt (at ∙ ap (adding t r) is_written) (
        subst (λ x. Move x (written t) d idle) (sym here)
          (subst (λ x. Move c x d idle) is_written last)),
    put-Only i (slot t r) d outside s,
  )
  take_last c d q last (inr is_bumped) s here at = (
    _,
    counts i t r d lt (at ∙ ap (adding t r) is_bumped) (
        subst (λ x. Move x (bumped t) d idle) (sym here)
          (subst (λ x. Move c x d idle) is_bumped last)),
    put-Only i (slot t r) d outside s,
  )

  pub Taken-Reaches :
      (s : Board) (e : Entry)
      → s.workers i ≡ adding t r idle
      → (taken : Taken t (s.cells (slot t r)) e) → Reaches n i (slot t r) taken.after outside s
  Taken-Reaches s e at taken =
      go_last n i (slot t r) taken.before taken.after (adding t r taken.place) outside s
        (Round-Reaches taken.round s refl at)
        (take_last taken.before taken.after taken.place taken.last taken.is_last)

  pub pass_last :
      (c d : Cell)
      → Move c (leaving t) d idle
      → suc r < max_stack_traces
      → (s : Board) → s.cells (slot t r) ≡ c
      → s.workers i ≡ adding t r (leaving t)
      → (u : Board) × Turn n s u × Only i (slot t r) d (adding t (suc r) idle) s u
  pass_last c d last more s here at = (
    _,
    tries_next i t r d lt at (subst (λ x. Move x (leaving t) d idle) (sym here) last) more,
    put-Only i (slot t r) d (adding t (suc r) idle) s,
  )

  pub fail_last :
      (c d : Cell)
      → Move c (leaving t) d idle
      → max_stack_traces ≤ suc r
      → (s : Board) → s.cells (slot t r) ≡ c
      → s.workers i ≡ adding t r (leaving t)
      → (u : Board) × Turn n s u × Only i (slot t r) d (failing t) s u
  fail_last c d last no_more s here at = (
    _,
    fails i t r d lt at (subst (λ x. Move x (leaving t) d idle) (sym here) last) no_more,
    put-Only i (slot t r) d (failing t) s,
  )

  pub Passed-Reaches :
      (s : Board) (e : Entry) (w : Worker)
      → s.workers i ≡ adding t r idle
      → (passed : Passed t (s.cells (slot t r)) e)
      → ((u : Board)
          → u.cells (slot t r) ≡ passed.before
          → u.workers i ≡ adding t r (leaving t)
          → (v : Board) × Turn n u v × Only i (slot t r) passed.after w u v)
      → Reaches n i (slot t r) passed.after w s
  Passed-Reaches s e w at passed last =
      go_last n i (slot t r) passed.before passed.after (adding t r (leaving t)) w s
        (Round-Reaches passed.round s refl at) last
