-- ===== src/Tests/Native.antt =====
-- The native CPU profiler at work: a process with two frames in a chain.
use cloud_profiler_python.Prelude.{
  ℕ, zero, suc, ◌+◌, ◌*◌, ◌<◌, ◌≤◌, ◌≡◌, ◌↔◌, refl, true, false, none, some, List, [], ◌∷◌, arith,
  inr, length,
}
use cloud_profiler_python.Prelude.{
  ◌==◌, nat_eq, list_eq, string_eq, if◌then◌else◌, All, take, replicate, length-replicate,
}
use cloud_profiler_python.Prelude.Int.{pos, int_eq}
use cloud_profiler_python.Prelude.Dict
use cloud_profiler_python.Prelude.Dict.{Dict}
use mathlib.Core.List.Perm
use cloud_profiler_python.Builder.{Trace, frame_eq as python_frame_eq}
use cloud_profiler_python.Native.Clock.{time_add, nanos_to_timespec, in_nanos-nanos_to_timespec}
use cloud_profiler_python.Native.Stack.{Stack, frame_eq}
use cloud_profiler_python.Native.Table.{Entry, add, max_stack_traces}
use cloud_profiler_python.Native.Table.Probes.{IsOther, add-full_iff}
use cloud_profiler_python.Native.Frames.{
  py_313, by_thread, InterpreterFrame, ThreadState, Memory, safe_copy, frame_code, captured,
  frame_is_incomplete, walk, populate_frames,
}
use cloud_profiler_python.Native.Frames.Walk.{Chain, ends, link, all_captured, populate_frames-take}
use cloud_profiler_python.Native.Frames.Bounds.{populate_frames-length}
use cloud_profiler_python.Native.Code.{Interpreter, code_dealloc}
use cloud_profiler_python.Native.Profiler.{
  Profiler, new_profiler, Event, signal, flushed, deallocated, run, step, handle, record_stack,
  flush,
}
use cloud_profiler_python.Native.Profiler.Spec.{Spec, Steps, signals}
use cloud_profiler_python.Native.Profiler.Refine.{
  Refines, labels_of, run-Refines, new_profiler-Refines,
}
use cloud_profiler_python.Native.Profiler.Account.{IsSound, nothing_recorded}
use cloud_profiler_python.Native.Traces.{python_traces}
use cloud_profiler_python.Native.Traces.Counts.{shown_as, unknown_trace, tally_of-python_traces}
use cloud_profiler_python.Native.Collect.{World, Sigprof, profile_cpu}
use cloud_profiler_python.Native.Collect.Laps.{IsClock, lap_nanos}
use cloud_profiler_python.Native.Collect.Result.{IsFair, all_events, profile_cpu-counts_signals}
use cloud_profiler_python.Native.Collect.Hangs.{profile_cpu-endless}

abbrev leaf : InterpreterFrame
leaf = record { code = 500; owner = by_thread; instr = 620; previous = 20 }

abbrev base : InterpreterFrame
base = record { code = 500; owner = by_thread; instr = 610; previous = 0 }

-- Two frames, at the addresses 10 and 20, of the code object at 500.
abbrev mem : Memory
mem = record {
  read_frame = λ a. if a == 10 then some leaf else if a == 20 then some base else none;
  read_code = λ a. if a == 500 then some (record { is_code = true; first_traceable = 1 }) else none;
  read_current = λ a. none;
  code_start = λ a. 600;
  frame_object = λ a. record { f_lineno = pos 0; f_code = 0; f_back = 0 };
}

abbrev ts : ThreadState
ts = record { cframe = 0; current_frame = 10; frame = 0 }

two_frames : Chain mem 10 (leaf ∷ base ∷ [])
unfolding safe_copy
two_frames = link 10 leaf (base ∷ []) refl (link 20 base [] refl (ends 0 refl))

abbrev interp : Interpreter
interp = record {
  read_object = λ a.
      if a == 500
      then some (record { is_code = true; co_name = some "f"; co_filename = some "a.py" })
      else none;
  addr_to_line = λ a offset. pos 7;
}

abbrev sampled_once : List Event
sampled_once = signal mem 3 (some ts) (λ i. false) ∷ []

abbrev without_thread : List Event
without_thread = signal mem 0 none (λ i. false) ∷ []

abbrev during : ℕ → List Event
during zero = sampled_once
during (suc k) = []

-- Three laps of 100 milliseconds, with a signal in the first and one after the finish line.
abbrev pub world : World
world = record {
  version = py_313;
  setitimer = λ interval. true;
  reading = λ k. nanos_to_timespec (k * lap_nanos);
  during = during;
  at_finish = [];
  delayed = without_thread;
  order = λ d. d;
  interp = interp;
}

abbrev pub timer : Sigprof
timer = record { interval = (pos 0, pos 0); handled = false }

-- What an earlier profile has left.
abbrev pub leftover : Profiler
leftover = record new_profiler { unknown_stack_count = 5 }

nothing-IsSound : IsSound py_313 []
nothing-IsSound = record { ends = tt; have_frames = tt }

sampled_once-IsSound : IsSound py_313 sampled_once
unfolding populate_frames walk safe_copy captured frame_code frame_is_incomplete
sampled_once-IsSound = record {
  ends = (inr (leaf ∷ base ∷ [], two_frames, omega arith), tt);
  have_frames = (refl, tt);
}

without_thread-IsSound : IsSound py_313 without_thread
unfolding populate_frames
without_thread-IsSound = record { ends = (tt, tt); have_frames = (refl, tt) }

during-IsSound : (k : ℕ) → IsSound py_313 (during k)
during-IsSound zero = sampled_once-IsSound
during-IsSound (suc k) = nothing-IsSound

world-IsClock : IsClock world.reading
world-IsClock = record {
  points = λ k. (in_nanos-nanos_to_timespec (k * lap_nanos)).1;
  first =
      omega
        (arith, (in_nanos-nanos_to_timespec 0).0, (in_nanos-nanos_to_timespec (1 * lap_nanos)).0);
  lap = λ k. omega (
    arith,
    (in_nanos-nanos_to_timespec ((k + 1) * lap_nanos)).0,
    (in_nanos-nanos_to_timespec ((k + 1 + 1) * lap_nanos)).0,
  );
}

pub world-IsFair : IsFair world 350000000 10
unfolding time_add nanos_to_timespec
world-IsFair = record {
  clock = world-IsClock;
  same_traces = λ d. Perm.refl d;
  timer_set = refl;
  timer_off = refl;
  during = during-IsSound;
  at_finish = nothing-IsSound;
  delayed = without_thread-IsSound;
  finish_line = omega arith;
  delay = omega arith;
}

profile_cpu-counts_signals_example :
    (n : ℕ) × (n < 4)
    × (p : Profiler) × (traces : Dict Trace ℕ) × (profile_cpu world 4 350000000 10 timer leftover
        ≡ some (p, record { interval = (pos 0, pos 0); handled = false }, some traces))
    × (Dict.total traces ≡ signals (labels_of py_313 (all_events world n)))
profile_cpu-counts_signals_example =
    profile_cpu-counts_signals world 4 350000000 10 timer leftover world-IsFair (omega arith)

-- A clock that shows half a second at first.
abbrev half_second : World
half_second = record world { reading = λ k. record { sec = k; nsec = 500000000 } }

profile_cpu-endless_example : profile_cpu half_second 20 1500000000 10 timer leftover ≡ none
profile_cpu-endless_example =
    profile_cpu-endless half_second 20 1500000000 10 timer leftover refl (omega arith)

populate_frames-take_example :
    populate_frames mem py_313 3 (some ts)
    ≡ some (take 128 (all_captured mem py_313 (leaf ∷ base ∷ [])))
populate_frames-take_example =
    populate_frames-take mem py_313 3 ts (leaf ∷ base ∷ []) (λ old. cc old) two_frames (omega arith)

found :
    populate_frames mem py_313 3 (some ts)
    ≡ some (take 128 (all_captured mem py_313 (leaf ∷ base ∷ [])))
unfolding populate_frames walk safe_copy captured frame_code frame_is_incomplete
found = refl

populate_frames-length_example :
    length (take 128 (all_captured mem py_313 (leaf ∷ base ∷ []))) ≤ 128
populate_frames-length_example = populate_frames-length mem py_313 3 (some ts) found

abbrev stack : Stack
stack = record { lineno = pos 4; py_code = 500 } ∷ []

-- A table whose entries all have the same trace.
abbrev full : List Entry
full = replicate max_stack_traces (record { frames = stack; count = 1 })

add-full_iff_example : (add (λ i. false) [] full ≡ none) ↔ All (IsOther []) full
add-full_iff_example =
    add-full_iff [] full (length-replicate max_stack_traces (record { frames = stack; count = 1 }))

abbrev pub flushed_once : List Event
flushed_once = signal mem 3 (some ts) (λ i. false) ∷ flushed ∷ deallocated interp 500 ∷ []

abbrev before_dealloc : Profiler
before_dealloc =
    (flush (record_stack (λ i. false) (all_captured mem py_313 (leaf ∷ base ∷ [])) new_profiler)).0

abbrev pub after_flush : Profiler
after_flush = record before_dealloc {
  deallocated_code = code_dealloc interp 500 before_dealloc.deallocated_code;
}

pub run-flushed_once : run py_313 flushed_once new_profiler ≡ some after_flush
unfolding run step handle populate_frames walk safe_copy captured frame_code frame_is_incomplete
run-flushed_once = refl

run-Refines_example :
    (t : Spec) × Steps nothing_recorded (labels_of py_313 flushed_once) t × Refines after_flush t
run-Refines_example =
    run-Refines py_313 flushed_once new_profiler after_flush nothing_recorded run-flushed_once
      new_profiler-Refines

abbrev pub sampled_profiler : Profiler
sampled_profiler = record new_profiler {
  aggregated_traces = (stack, 2) ∷ [];
  unknown_stack_count = 3;
}

tally_of-python_traces_example :
    Dict.tally_of (python_traces (λ d. d) interp sampled_profiler).1 unknown_trace
    ≡ shown_as interp [] unknown_trace ((stack, 2) ∷ [])
      + (if unknown_trace == unknown_trace then 3 else 0)
tally_of-python_traces_example =
    tally_of-python_traces (λ d. d) (λ d. Perm.refl d) interp sampled_profiler unknown_trace
