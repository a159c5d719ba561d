-- ===== src/Native/Profiler.antt =====
-- googlecloudprofiler/src/profiler.cc and profiler.h: the state of a `Profiler`, the signal handler, and
-- `Flush`. The handler runs in the thread that the signal interrupts, and its calls are atomic here.
pub mod Spec
pub mod Refine
pub mod Account
use cloud_profiler_python.Prelude.{ℕ, ◌+◌, Bool, Option, none, some, List, [], ◌∷◌}
use cloud_profiler_python.Prelude.Dict
use cloud_profiler_python.Prelude.Dict.{Dict}
use cloud_profiler_python.Native.Stack.{Stack, frame_eq}
use cloud_profiler_python.Native.Table
use cloud_profiler_python.Native.Table.{Table, add, harvest_samples}
use cloud_profiler_python.Native.Frames.{Version, ThreadState, Memory, populate_frames}
use cloud_profiler_python.Native.Code.{Interpreter, DeallocatedCode, code_dealloc}

pub record Profiler : Type 0 where
  pub fixed_traces : Table
  pub aggregated_traces : Dict Stack ℕ
  pub unknown_stack_count : ℕ
  pub deallocated_code : DeallocatedCode

-- `Profiler::Reset`; it leaves the aggregated traces as they are.
unfoldable pub reset : Profiler → Profiler
reset p = record p { fixed_traces = Table.reset; unknown_stack_count = 0; deallocated_code = [] }

-- A `Profiler` that was just constructed.
abbrev pub new_profiler : Profiler
new_profiler = record {
  fixed_traces = Table.reset;
  aggregated_traces = [];
  unknown_stack_count = 0;
  deallocated_code = [];
}

-- The part of `Handle` after the walk.
unfoldable pub record_stack : (ℕ → Bool) → Stack → Profiler → Profiler
record_stack fails frames p = elim (add fails frames p.fixed_traces) [
  | none ↦ record p { unknown_stack_count = p.unknown_stack_count + 1 }
  | some table ↦ record p { fixed_traces = table }
]

-- `Handle`: `none` is a walk that still runs when the fuel is used up.
unfoldable pub handle :
    Memory → Version → ℕ → Option ThreadState → (ℕ → Bool) → Profiler → Option Profiler
handle mem version fuel thread fails p = elim (populate_frames mem version fuel thread) [
  | none ↦ none
  | some frames ↦ some (record_stack fails frames p)
]

-- `Flush`, with the number that it returns
unfoldable pub flush : Profiler → Profiler × ℕ
flush p =
    let (table, aggregated, trace_count) = harvest_samples p.fixed_traces p.aggregated_traces in
    (record p { fixed_traces = table; aggregated_traces = aggregated }, trace_count)

-- What happens to the profiler while it collects: a thread is interrupted by the signal, the tables are
-- flushed, or a code object is deallocated.
pub data Event : Type 0 where
  signal : Memory → ℕ → Option ThreadState → (ℕ → Bool) → Event
  flushed : Event
  deallocated : Interpreter → ℕ → Event

unfoldable pub step : Version → Event → Profiler → Option Profiler
step version (signal mem fuel thread fails) p = handle mem version fuel thread fails p
step version flushed p = some (flush p).0
step version (deallocated interp code_object) p =
    some (record p { deallocated_code = code_dealloc interp code_object p.deallocated_code })

unfoldable pub run : Version → List Event → Profiler → Option Profiler
run version [] p = some p
run version (event ∷ events) p = elim (step version event p) [
  | none ↦ none
  | some p' ↦ run version events p'
]
