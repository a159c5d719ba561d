-- ===== src/Wall/Race/Samples.antt =====
-- googlecloudprofiler/pythonprofiler.py: `_handler` beside `profile`, with the traces, and with signals
-- that interrupt a handler. A step is what happens between two places where the interpreter may switch
-- threads or run another handler. The lock only delays a thread, so it is not modelled.
pub mod Accounting
pub mod Losses
use cloud_profiler_python.Prelude.{
  ℕ, zero, suc, ◌+◌, ◌<◌, ◌≡◌, refl, ap, Bool, true, false, ◌||◌, List, [], ◌∷◌, arith,
}
use cloud_profiler_python.Prelude.{◌==◌, nat_eq, list_eq, list_beq_iff, if◌then◌else◌, ltb}
use cloud_profiler_python.Prelude.Dict
use cloud_profiler_python.Prelude.Dict.{Dict}
use cloud_profiler_python.Builder.{Trace, frame_eq}

-- Where the handler that has set `_in_handler` stands: there is none; behind the flag; behind the update of
-- `_traces` with that many ticks; behind the update of `_trace_count`.
pub data Work : Type 0 where
  none_inside : Work
  inside : Work
  recorded : ℕ → Work
  counted : Work

-- Where the profiling thread stands: not in `profile`; behind its first `_reset`; in its loop; in `_stop_profiling`; behind the wait;
-- behind the reading of the traces, which the profile that it returns holds.
pub data Place : Type 0 where
  idle fresh looping waiting draining read_out : Place

-- `checked` counts the handlers behind the test of the flags that have not set `_in_handler` yet: one
-- that the thread is in, and those that it has interrupted. `logged` and `reported` are not in the code:
-- the ticks that handlers have recorded, and those in the traces that were read, by trace. Nor is
-- `caught`: whether the profiler was ever stopped while a handler was behind its test.
pub record Session : Type 0 where
  pub started : Bool
  pub in_handler : Bool
  pub checked : ℕ
  pub work : Work
  pub place : Place
  pub traces : Dict Trace ℕ
  pub trace_count : ℕ
  pub logged : Trace → ℕ
  pub reported : Trace → ℕ
  pub caught : Bool

abbrev pub plus : (Trace → ℕ) → Trace → ℕ → Trace → ℕ
plus f trace n t = if t == trace then f t + n else f t

pub data Advance : Session → Session → Type 0 where
  test :
      (s : Session)
      → s.started ≡ true
      → s.in_handler ≡ false
      → Advance s (record s { checked = suc s.checked })
  enter :
      (s : Session) (k : ℕ)
      → s.work ≡ none_inside
      → s.checked ≡ suc k
      → Advance s (record s { checked = k; work = inside; in_handler = true })
  add :
      (s : Session) (trace : Trace) (n : ℕ)
      → s.work ≡ inside
      → Advance s (record s {
        work = recorded n;
        traces = Dict.tally trace n s.traces;
        logged = plus s.logged trace n;
      })
  count :
      (s : Session) (n : ℕ)
      → s.work ≡ recorded n
      → Advance s (record s { work = counted; trace_count = s.trace_count + n })
  leave :
      (s : Session)
      → s.work ≡ counted
      → Advance s (record s { work = none_inside; in_handler = false })
  begin :
      (s : Session)
      → s.place ≡ idle
      → Advance s (record s { place = fresh; traces = []; trace_count = 0 })
  start : (s : Session) → s.place ≡ fresh → Advance s (record s { place = looping; started = true })
  stop :
      (s : Session)
      → s.place ≡ looping
      → Advance s
          (record s { place = waiting; started = false; caught = s.caught || ltb 0 s.checked })
  go_on :
      (s : Session)
      → s.place ≡ waiting
      → s.in_handler ≡ false
      → Advance s (record s { place = draining })
  populate :
      (s : Session)
      → s.place ≡ draining
      → Advance s
          (record s { place = read_out; reported = λ t. s.reported t + Dict.tally_of s.traces t })
  clear :
      (s : Session)
      → s.place ≡ read_out
      → Advance s (record s { place = idle; traces = []; trace_count = 0 })

pub data Advances : Session → Session → Type 0 where
  stay : (s : Session) → Advances s s
  more : {s t u : Session} → Advances s t → Advance t u → Advances s u

-- A new profiler.
abbrev pub new_session : Session
new_session = record {
  started = false;
  in_handler = false;
  checked = 0;
  work = none_inside;
  place = idle;
  traces = [];
  trace_count = 0;
  logged = λ t. 0;
  reported = λ t. 0;
  caught = false;
}
