-- ===== src/Native/Concurrent.antt =====
-- googlecloudprofiler/src/stacktraces.cc and profiler.cc: any number of calls of `Handle` and one of
-- `HarvestSamples` after the other on the whole table, interleaved. A step on an entry is one of
-- Native/Entry. A call of `Handle` begins with the stack that its walk has found. `handled` logs these
-- stacks, `missed` those that were counted as unknown.
pub mod Project
pub mod Pending
pub mod Added
pub mod Harvested
pub mod Accounts
pub mod Alone
pub mod Rounds
pub mod Adds
pub mod Extracts
pub mod Flushes
pub mod Serial
pub mod Runs
pub mod Last
use cloud_profiler_python.Prelude.{
  ℕ, zero, suc, ◌+◌, ◌≤◌, ◌<◌, ◌≡◌, Bool, true, false, Option, none, some, List, [], ◌∷◌,
}
use cloud_profiler_python.Prelude.{◌==◌, nat_eq, if◌then◌else◌}
use cloud_profiler_python.Prelude.Dict.{Dict}
use Prim.Native.Nat.{◌%◌, ◌^◌}
use cloud_profiler_python.Native.Stack.{Stack, calculate_hash}
use cloud_profiler_python.Native.Table.{max_stack_traces, absorb}
use cloud_profiler_python.Native.Entry.{
  Cell, Pc, idle, entered, loaded, reserved, writing, written, matched, reloaded, bumped, leaving,
  Count, Reader, resting, looked, released, Move, Read, at_rest,
}
use cloud_profiler_python.Native.Entry.Local.{is_positive}

-- Where a thread is: in no call of `Handle`; in that round of `Add` with its trace, at that place of the
-- round; behind an `Add` that has returned `false`.
pub data Worker : Type 0 where
  outside : Worker
  adding : Stack → ℕ → Pc → Worker
  failing : Stack → Worker

-- Where `HarvestSamples` is: not at work; in front of the `Extract` at a location; in it.
pub data Harvester : Type 0 where
  off : Harvester
  before : ℕ → Harvester
  within : ℕ → Harvester

pub record Board : Type 0 where
  pub cells : ℕ → Cell
  pub workers : ℕ → Worker
  pub harvester : Harvester
  pub aggregated : Dict Stack ℕ
  pub unknown : ℕ
  pub handled : List Stack
  pub missed : List Stack

-- The entry of a round of `Add`.
unfoldable pub slot : Stack → ℕ → ℕ
slot t r = (r + calculate_hash t) % 2 ^ 64 % max_stack_traces

abbrev pub put : {A : Type 0} → (ℕ → A) → ℕ → A → ℕ → A
put f i a j = if j == i then a else f j

-- The place is one within a round for this trace.
abbrev pub IsOf : Stack → Pc → Type 0
IsOf t idle = ⊥
IsOf t (entered u) = t ≡ u
IsOf t (loaded u k) = t ≡ u
IsOf t (reserved u) = t ≡ u
IsOf t (writing u) = t ≡ u
IsOf t (written u) = t ≡ u
IsOf t (matched u) = t ≡ u
IsOf t (reloaded u k) = t ≡ u
IsOf t (bumped u) = t ≡ u
IsOf t (leaving u) = t ≡ u

-- The steps of the threads 0, …, n - 1, and of the one that harvests.
pub data Turn (n : ℕ) (s : Board) : Board → Type 0 where
  handles :
      (i : ℕ) (t : Stack)
      → i < n
      → s.workers i ≡ outside
      → Turn n s (record s { workers = put s.workers i (adding t 0 idle); handled = t ∷ s.handled })
  moves :
      (i : ℕ) (t : Stack) (r : ℕ) (p q : Pc) (c : Cell)
      → i < n
      → s.workers i ≡ adding t r p
      → Move (s.cells (slot t r)) p c q
      → IsOf t q
      → Turn n s
          (record s { cells = put s.cells (slot t r) c; workers = put s.workers i (adding t r q) })
  stores :
      (i : ℕ) (t : Stack) (r : ℕ) (c : Cell)
      → i < n
      → s.workers i ≡ adding t r (written t)
      → Move (s.cells (slot t r)) (written t) c idle
      → Turn n s (record s { cells = put s.cells (slot t r) c; workers = put s.workers i outside })
  counts :
      (i : ℕ) (t : Stack) (r : ℕ) (c : Cell)
      → i < n
      → s.workers i ≡ adding t r (bumped t)
      → Move (s.cells (slot t r)) (bumped t) c idle
      → Turn n s (record s { cells = put s.cells (slot t r) c; workers = put s.workers i outside })
  tries_next :
      (i : ℕ) (t : Stack) (r : ℕ) (c : Cell)
      → i < n
      → s.workers i ≡ adding t r (leaving t)
      → Move (s.cells (slot t r)) (leaving t) c idle
      → suc r < max_stack_traces
      → Turn n s (record s {
        cells = put s.cells (slot t r) c;
        workers = put s.workers i (adding t (suc r) idle);
      })
  fails :
      (i : ℕ) (t : Stack) (r : ℕ) (c : Cell)
      → i < n
      → s.workers i ≡ adding t r (leaving t)
      → Move (s.cells (slot t r)) (leaving t) c idle
      → max_stack_traces ≤ suc r
      → Turn n s
          (record s { cells = put s.cells (slot t r) c; workers = put s.workers i (failing t) })
  misses :
      (i : ℕ) (t : Stack)
      → i < n
      → s.workers i ≡ failing t
      → Turn n s (record s {
        workers = put s.workers i outside;
        unknown = s.unknown + 1;
        missed = t ∷ s.missed;
      })
  begins : s.harvester ≡ off → Turn n s (record s { harvester = before 0 })
  skips :
      (k : ℕ)
      → s.harvester ≡ before k
      → k < max_stack_traces
      → is_positive (s.cells k).count ≡ false
      → Turn n s (record s { harvester = before (suc k) })
  looks :
      (k : ℕ) (c : Cell)
      → s.harvester ≡ before k
      → k < max_stack_traces
      → Read (s.cells k) c
      → c.reader ≡ looked
      → Turn n s (record s { cells = put s.cells k c; harvester = within k })
  reads :
      (k : ℕ) (c : Cell)
      → s.harvester ≡ within k
      → Read (s.cells k) c
      → c.harvested ≡ (s.cells k).harvested
      → Turn n s (record s { cells = put s.cells k c })
  releases :
      (k : ℕ) (c : Cell) (fs : Stack) (m : ℕ)
      → s.harvester ≡ within k
      → (s.cells k).reader ≡ released fs m
      → Read (s.cells k) c
      → Turn n s (record s {
        cells = put s.cells k c;
        harvester = before (suc k);
        aggregated = (absorb (some (fs, m)) (s.aggregated, 0)).0;
      })
  ends :
      (k : ℕ)
      → s.harvester ≡ before k
      → max_stack_traces ≤ k
      → Turn n s (record s { harvester = off })

-- A new profiler, and no thread in `Handle`.
abbrev pub new_board : Board
new_board = record {
  cells = λ k. at_rest.cell;
  workers = λ i. outside;
  harvester = off;
  aggregated = [];
  unknown = 0;
  handled = [];
  missed = [];
}

pub data Reached (n : ℕ) : Board → Type 0 where
  starts : Reached n new_board
  goes_on : {s t : Board} → Reached n s → Turn n s t → Reached n t
