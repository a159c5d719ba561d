-- ===== src/Native/Entry.antt =====
-- googlecloudprofiler/src/stacktraces.cc: `Add` and `Extract` on one entry of the table, step by step, with
-- any number of threads in `Add` and one in `Extract`. Each step is one access to the entry, and the
-- accesses are sequentially consistent. `added` and `harvested` log the calls that succeeded.
pub mod Local
pub mod Moves
pub mod Reads
pub mod Invariant
pub mod Safety
pub mod Drains
pub mod Owners
use cloud_profiler_python.Prelude.{ℕ, suc, ◌+◌, ◌-◌, ◌<◌, ◌≡◌, Bool, true, false, List, [], ◌∷◌}
use cloud_profiler_python.Prelude.{◌==◌, nat_eq, list_eq, if◌then◌else◌, length, take}
use cloud_profiler_python.Native.Stack.{Stack, frame_eq}

-- `count`, of which `kTraceCountLocked` is `locked`
pub data Count : Type 0 where
  locked : Count
  counted : ℕ → Count

-- Where `Extract` is: after the load of the count, the load of the number of frames, the exchange, the
-- copy of the frames and the loop that waits.
pub data Reader : Type 0 where
  resting : Reader
  looked : Reader
  seen : ℕ → Reader
  holding : ℕ → ℕ → Reader
  copied : Stack → ℕ → Reader
  released : Stack → ℕ → Reader

pub record Cell : Type 0 where
  pub count : Count
  pub frames : Stack
  pub active_updates : ℕ
  pub reader : Reader
  pub added : List Stack
  pub harvested : List (Stack × ℕ)

-- Where a thread in `Add` is, with its trace and the count that it has loaded.
pub data Pc : Type 0 where
  idle : Pc
  entered : Stack → Pc
  loaded : Stack → Count → Pc
  reserved : Stack → Pc
  writing : Stack → Pc
  written : Stack → Pc
  matched : Stack → Pc
  reloaded : Stack → Count → Pc
  bumped : Stack → Pc
  leaving : Stack → Pc

-- The steps of `Add`. A weak compare-exchange may fail where the values agree.
pub data Move : Cell → Pc → Cell → Pc → Type 0 where
  enter :
      (c : Cell) (t : Stack)
      → Move c idle (record c { active_updates = c.active_updates + 1 }) (entered t)
  load : (c : Cell) (t : Stack) → Move c (entered t) c (loaded t c.count)
  reserve :
      (c : Cell) (t : Stack)
      → c.count ≡ counted 0
      → Move c (loaded t (counted 0)) (record c { count = locked }) (reserved t)
  not_reserved : (c : Cell) (t : Stack) → Move c (loaded t (counted 0)) c (leaving t)
  pass_locked : (c : Cell) (t : Stack) → Move c (loaded t locked) c (leaving t)
  differ :
      (c : Cell) (t : Stack) (k : ℕ)
      → (t == c.frames) ≡ false
      → Move c (loaded t (counted (suc k))) c (leaving t)
  agree :
      (c : Cell) (t : Stack) (k : ℕ)
      → (t == c.frames) ≡ true
      → Move c (loaded t (counted (suc k))) c (matched t)
  reload : (c : Cell) (t : Stack) → Move c (matched t) c (reloaded t c.count)
  bump :
      (c : Cell) (t : Stack) (k : ℕ)
      → c.count ≡ counted k
      → Move c
          (reloaded t (counted k))
          (record c { count = counted (suc k); added = t ∷ c.added })
          (bumped t)
  not_bumped : (c : Cell) (t : Stack) (k : Count) → Move c (reloaded t k) c (leaving t)
  step_back :
      (c : Cell) (t : Stack)
      → Move c (reserved t) (record c { active_updates = c.active_updates - 1 }) (writing t)
  write : (c : Cell) (t : Stack) → Move c (writing t) (record c { frames = t }) (written t)
  publish :
      (c : Cell) (t : Stack)
      → Move c (written t) (record c { count = counted 1; added = t ∷ c.added }) idle
  leave_bumped :
      (c : Cell) (t : Stack)
      → Move c (bumped t) (record c { active_updates = c.active_updates - 1 }) idle
  leave :
      (c : Cell) (t : Stack)
      → Move c (leaving t) (record c { active_updates = c.active_updates - 1 }) idle

-- The steps of `Extract`. Where it finds no positive count it returns at once.
pub data Read : Cell → Cell → Type 0 where
  look :
      (c : Cell) (k : ℕ)
      → c.reader ≡ resting
      → c.count ≡ counted (suc k)
      → Read c (record c { reader = looked })
  see : (c : Cell) → c.reader ≡ looked → Read c (record c { reader = seen (length c.frames) })
  exchange :
      (c : Cell) (num k : ℕ)
      → c.reader ≡ seen num
      → c.count ≡ counted k
      → Read c (record c { count = locked; reader = holding num k })
  copy :
      (c : Cell) (num k : ℕ)
      → c.reader ≡ holding num k
      → Read c (record c { reader = copied (take num c.frames) k })
  wait_ends :
      (c : Cell) (fs : Stack) (k : ℕ)
      → c.reader ≡ copied fs k
      → c.active_updates ≡ 0
      → Read c (record c { reader = released fs k })
  release :
      (c : Cell) (fs : Stack) (k : ℕ)
      → c.reader ≡ released fs k
      → Read c (record c { count = counted 0; reader = resting; harvested = (fs, k) ∷ c.harvested })

-- The thread i takes a step to p.
abbrev pub update : (ℕ → Pc) → ℕ → Pc → ℕ → Pc
update pcs i p j = if j == i then p else pcs j

pub record System : Type 0 where
  pub cell : Cell
  pub pcs : ℕ → Pc

pub data Step (n : ℕ) (s : System) : System → Type 0 where
  adds :
      (i : ℕ) {c : Cell} {p : Pc}
      → i < n
      → Move s.cell (s.pcs i) c p
      → Step n s (record { cell = c; pcs = update s.pcs i p })
  reads : {c : Cell} → Read s.cell c → Step n s (record s { cell = c })

-- A free entry, and no thread at it.
abbrev pub at_rest : System
at_rest = record {
  cell = record {
    count = counted 0;
    frames = [];
    active_updates = 0;
    reader = resting;
    added = [];
    harvested = [];
  };
  pcs = λ i. idle;
}

pub data Reach (n : ℕ) : System → Type 0 where
  begins : Reach n at_rest
  goes_on : {s t : System} → Reach n s → Step n s t → Reach n t
