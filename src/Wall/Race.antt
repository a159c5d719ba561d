-- ===== src/Wall/Race.antt =====
-- googlecloudprofiler/pythonprofiler.py: `_handler` in the main thread beside `_stop_profiling` and
-- `_serialize_and_clear_traces` in the profiling thread, at the granularity at which the interpreter may
-- switch threads: the handler's test, the setting of its flag, and its end; the stop, and the end of the
-- wait. What the handler records is in Wall; a signal within a handler is not modelled here.
pub mod Samples
use cloud_profiler_python.Prelude.{◌≡◌, refl, Bool, true, false, arith}

-- Where the main thread stands: not in a handler; behind the test of the two flags; behind the
-- setting of `_in_handler`.
pub data Handler : Type 0 where
  outside checked inside : Handler

-- Where the profiling thread stands: not in `profile`; in its loop; in `_stop_profiling` behind the
-- reset of `_started`; behind the wait, where the traces are read and cleared.
pub data Thread : Type 0 where
  idle looping waiting serializing : Thread

-- `caught` is not in the code: whether the profiler was stopped while a handler was behind its test.
pub record State : Type 0 where
  pub started : Bool
  pub in_handler : Bool
  pub handler : Handler
  pub thread : Thread
  pub caught : Bool

abbrev pub is_checked : Handler → Bool
is_checked outside = false
is_checked checked = true
is_checked inside = false

-- A step of one of the threads.
pub data Step : State → State → Type 0 where
  test :
      (s : State)
      → s.handler ≡ outside
      → s.started ≡ true
      → s.in_handler ≡ false
      → Step s (record s { handler = checked })
  enter :
      (s : State) → s.handler ≡ checked → Step s (record s { handler = inside; in_handler = true })
  leave :
      (s : State) → s.handler ≡ inside → Step s (record s { handler = outside; in_handler = false })
  begin : (s : State) → s.thread ≡ idle → Step s (record s { thread = looping; started = true })
  stop :
      (s : State)
      → s.thread ≡ looping
      → Step s (record s { thread = waiting; started = false; caught = is_checked s.handler })
  go_on :
      (s : State)
      → s.thread ≡ waiting
      → s.in_handler ≡ false
      → Step s (record s { thread = serializing })
  finish : (s : State) → s.thread ≡ serializing → Step s (record s { thread = idle })

-- Any number of steps.
pub data Run : State → State → Type 0 where
  stay : (s : State) → Run s s
  more : {s t u : State} → Run s t → Step t u → Run s u

-- A new profiler.
unfoldable pub new : State
new = record {
  started = false;
  in_handler = false;
  handler = outside;
  thread = idle;
  caught = false;
}

abbrev IsFlag : Bool → Handler → Type 0
IsFlag flag outside = flag ≡ false
IsFlag flag checked = flag ≡ false
IsFlag flag inside = flag ≡ true

abbrev IsOff : Thread → Bool → Type 0
IsOff idle started = started ≡ false
IsOff looping started = started ≡ true
IsOff waiting started = started ≡ false
IsOff serializing started = started ≡ false

-- In a wait that no handler was caught by, none is behind its test alone; behind it none is at work.
abbrev IsDrained : Thread → Bool → Handler → Type 0
IsDrained waiting false handler = is_checked handler ≡ false
IsDrained serializing false handler = handler ≡ outside
IsDrained _ _ handler = Unit

abbrev IsSound : State → Type 0
IsSound s =
    IsFlag s.in_handler s.handler × IsOff s.thread s.started × IsDrained s.thread s.caught s.handler

Step-IsSound : {s t : State} → Step s t → IsSound s → IsSound t
Step-IsSound (test s h a b) v = ground arith
Step-IsSound (enter s h) v = ground arith
Step-IsSound (leave s h) v = ground arith
Step-IsSound (begin s h) v = ground arith
Step-IsSound (stop s h) v = ground arith
Step-IsSound (go_on s h a) v = ground arith
Step-IsSound (finish s h) v = ground arith

Run-IsSound : {s t : State} → Run s t → IsSound s → IsSound t
Run-IsSound (stay s) v = v
Run-IsSound (more r step) v = Step-IsSound step (Run-IsSound r v)

new-IsSound : IsSound new
unfolding new
new-IsSound = (refl, refl, tt)

-- In every interleaving from a new profiler: while the profiling thread reads and clears the traces, no
-- handler is at work, unless the profiler was stopped while a handler was behind its test of the flags
-- and had not yet set its own.
pub serializing_alone :
    (s : State) → Run new s → s.thread ≡ serializing → s.caught ≡ false → s.handler ≡ outside
serializing_alone s r at_end free = let sound = Run-IsSound r new-IsSound in ground (arith, sound)

-- If a handler is behind its test and has not set its flag while the profiling thread is in its loop,
-- the profiler can be stopped, find the flag unset, and read and clear the traces while that handler is at work.
pub serializing_beside :
    (s : State)
    → s.handler ≡ checked
    → s.in_handler ≡ false
    → s.thread ≡ looping
    → (t : State) × Run s t × (t.thread ≡ serializing) × (t.handler ≡ inside)
serializing_beside s h f at_loop =
    let stopped : State = record s {
      thread = waiting;
      started = false;
      caught = is_checked s.handler;
    } in
    let over : State = record stopped { thread = serializing } in
    (
      record over { handler = inside; in_handler = true },
      more (more (more (stay s) (stop s at_loop)) (go_on stopped refl f)) (enter over h),
      refl,
      refl,
    )
