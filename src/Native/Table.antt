-- ===== src/Native/Table.antt =====
-- googlecloudprofiler/src/stacktraces.h and stacktraces.cc: `AsyncSafeTraceMultiset`, `TraceMultiset` and
-- `HarvestSamples`, one call at a time. What other threads do to an entry during `Add` shows in the
-- attempts that fail: `fails i` says that in round i the entry is locked or its compare-exchange does
-- not succeed. The counters are counts of signals, which stay far below the widths of their types.
pub mod Counts
pub mod Probes
pub mod Harvest
pub mod Fit
use cloud_profiler_python.Prelude.{
  ℕ, zero, suc, ◌+◌, Bool, true, false, ◌&&◌, Option, none, some, List, [], ◌∷◌,
}
use cloud_profiler_python.Prelude.{
  ◌==◌, nat_eq, list_eq, if◌then◌else◌, ltb, get_elem?, length, take, replicate, set,
}
use cloud_profiler_python.Prelude.Dict
use cloud_profiler_python.Prelude.Dict.{Dict}
use cloud_profiler_python.Native.Stack.{Stack, frame_eq, max_frames_to_capture, calculate_hash}
use Prim.Native.Nat.{◌%◌, ◌^◌}

-- `kMaxStackTraces`
abbrev pub max_stack_traces : ℕ
max_stack_traces = 2048

-- `TraceData`: the frames that its buffer holds, and the count. A free entry has the count 0.
pub record Entry : Type 0 where
  pub frames : Stack
  pub count : ℕ

abbrev pub Table : Type 0
Table = List Entry

-- `Reset`
unfoldable pub reset : Table
reset = replicate max_stack_traces (record { frames = []; count = 0 })

-- The `switch` of `Add`: what becomes of the entry, or `none` where the loop goes on.
unfoldable pub visit : Bool → Stack → Entry → Option Entry
visit fails trace entry =
    if entry.count == 0
    then (if fails then none else some (record { frames = trace; count = 1 }))
    else if trace == entry.frames
    then (if fails then none else some (record entry { count = entry.count + 1 }))
    else none

unfoldable pub visit_at : Bool → Stack → Table → ℕ → Option Entry
visit_at fails trace table idx = elim (get_elem? table idx) [
  | none ↦ none
  | some entry ↦ visit fails trace entry
]

-- Round i of the loop of `Add`, with that many rounds left: `none` where no entry takes the trace.
unfoldable pub add_from : (ℕ → Bool) → ℕ → ℕ → ℕ → Stack → Table → Option Table
add_from fails zero i hash trace table = none
add_from fails (suc rounds) i hash trace table =
    let idx = (i + hash) % 2 ^ 64 % max_stack_traces in
    elim (visit_at (fails i) trace table idx) [
      | some entry ↦ some (set table idx entry)
      | none ↦ add_from fails rounds (i + 1) hash trace table
    ]

-- `AsyncSafeTraceMultiset::Add`; `none` is `false`, which leaves the table as it is.
unfoldable pub add : (ℕ → Bool) → Stack → Table → Option Table
add fails trace table = add_from fails max_stack_traces 0 (calculate_hash trace) trace table

-- `Extract`: the frames and the count, or `none` where it returns 0 at its beginning.
unfoldable pub extract : Table → ℕ → ℕ → Table × Option (Stack × ℕ)
extract table location max_frames = elim (get_elem? table location) [
  | none ↦ (table, none)
  | some entry ↦ if entry.count == 0 then (table, none) else (
    set table location (record entry { count = 0 }),
    some (take max_frames entry.frames, entry.count),
  )
]

-- The body of the `if` in `HarvestSamples`: `TraceMultiset::Add` is `tally`.
unfoldable pub absorb : Option (Stack × ℕ) → Dict Stack ℕ × ℕ → Dict Stack ℕ × ℕ
absorb none (aggregated, trace_count) = (aggregated, trace_count)
absorb (some (frames, count)) (aggregated, trace_count) =
    if ltb 0 (length frames) && ltb 0 count
    then (Dict.tally frames count aggregated, trace_count + 1)
    else (aggregated, trace_count)

-- The loop of `HarvestSamples` from location i.
unfoldable pub harvest_from : ℕ → ℕ → Table → Dict Stack ℕ × ℕ → Table × Dict Stack ℕ × ℕ
harvest_from zero i table to = (table, to.0, to.1)
harvest_from (suc rounds) i table to =
    let (table', found) = extract table i max_frames_to_capture in
    harvest_from rounds (i + 1) table' (absorb found to)

-- `HarvestSamples`: the two multisets, and the number of traces copied.
unfoldable pub harvest_samples : Table → Dict Stack ℕ → Table × Dict Stack ℕ × ℕ
harvest_samples table aggregated = harvest_from max_stack_traces 0 table (aggregated, 0)
