-- ===== src/Wall/Race/Samples/Accounting.antt =====
-- googlecloudprofiler/pythonprofiler.py: where the ticks are that handlers have recorded.
use cloud_profiler_python.Prelude.{ℕ, ◌+◌, ◌≡◌, refl, ap, Bool, true, false, [], arith}
use cloud_profiler_python.Prelude.{nat_eq, list_eq}
use cloud_profiler_python.Prelude.Dict
use cloud_profiler_python.Prelude.Dict.{Dict}
use cloud_profiler_python.Builder.{Trace, frame_eq}
use cloud_profiler_python.Wall.Race.Samples.{
  Work, none_inside, recorded, Place, idle, looping, waiting, draining, read_out, Session, Advance,
  test, enter, add, count, leave, begin, start, stop, go_on, populate, clear, Advances, stay, more,
  new_session,
}

abbrev IsFlag : Work → Bool → Type 0
IsFlag none_inside flag = flag ≡ false
IsFlag _ flag = flag ≡ true

-- The ticks in the traces that `_trace_count` lacks.
abbrev uncounted : Work → ℕ
uncounted (recorded n) = n
uncounted _ = 0

-- What the traces hold that was not read yet.
abbrev unread : Place → Dict Trace ℕ → Trace → ℕ
unread read_out traces t = 0
unread _ traces t = Dict.tally_of traces t

abbrev IsStopped : Place → Bool → Type 0
IsStopped looping started = started ≡ true
IsStopped _ started = started ≡ false

-- Behind the stop no handler is behind its test, and behind the wait none is at work.
abbrev IsQuiet : Place → ℕ → Work → Type 0
IsQuiet looping checked work = Unit
IsQuiet waiting checked work = checked ≡ 0
IsQuiet _ checked work = (checked ≡ 0) × (work ≡ none_inside)

abbrev IsCleared : Place → Dict Trace ℕ → Type 0
IsCleared idle traces = traces ≡ []
IsCleared _ traces = Unit

pub record IsSound (s : Session) : Type 0 where
  pub flag : IsFlag s.work s.in_handler
  pub stopped : IsStopped s.place s.started
  pub quiet : s.caught ≡ false → IsQuiet s.place s.checked s.work
  pub cleared : s.caught ≡ false → IsCleared s.place s.traces
  pub sum : s.caught ≡ false → s.trace_count + uncounted s.work ≡ Dict.total s.traces
  pub balance :
      s.caught ≡ false → (t : Trace) → s.logged t ≡ s.reported t + unread s.place s.traces t

new_session-IsSound : IsSound new_session
unfolding Dict.get
new_session-IsSound = record {
  flag = refl;
  stopped = refl;
  quiet = λ h. (refl, refl);
  cleared = λ h. refl;
  sum = λ h. refl;
  balance = λ h t. omega arith;
}

tally_of-empty : (t : Trace) → Dict.tally_of {K = Trace} [] t ≡ 0
unfolding Dict.get
tally_of-empty t = refl

Advance-IsSound : {s t : Session} → Advance s t → IsSound s → IsSound t
Advance-IsSound (test s on free) v = record {
  flag = v.flag;
  stopped = v.stopped;
  quiet = λ h. ground (arith, v.stopped, on);
  cleared = v.cleared;
  sum = v.sum;
  balance = v.balance;
}
Advance-IsSound (enter s k none_at_work some_checked) v = record {
  flag = refl;
  stopped = v.stopped;
  quiet = λ h. ground (arith, v.quiet h, some_checked);
  cleared = v.cleared;
  sum = λ h. ground (arith, v.sum h, none_at_work);
  balance = v.balance;
}
Advance-IsSound (add s trace n at_work) v = record {
  flag = ground (arith, v.flag, at_work);
  stopped = v.stopped;
  quiet = λ h. ground (arith, v.quiet h, at_work);
  cleared = λ h. ground (arith, v.quiet h, at_work);
  sum = λ h. ground (arith, v.sum h, at_work, Dict.total-tally trace n s.traces);
  balance = λ h t.
      ground (arith, v.balance h t, v.quiet h, at_work, Dict.tally_of-tally trace t n s.traces);
}
Advance-IsSound (count s n at_work) v = record {
  flag = ground (arith, v.flag, at_work);
  stopped = v.stopped;
  quiet = λ h. ground (arith, v.quiet h, at_work);
  cleared = v.cleared;
  sum = λ h. ground (arith, v.sum h, at_work);
  balance = v.balance;
}
Advance-IsSound (leave s at_end) v = record {
  flag = refl;
  stopped = v.stopped;
  quiet = λ h. ground (arith, v.quiet h, at_end);
  cleared = v.cleared;
  sum = λ h. ground (arith, v.sum h, at_end);
  balance = v.balance;
}
Advance-IsSound (begin s at_idle) v = record {
  flag = v.flag;
  stopped = ground (arith, v.stopped, at_idle);
  quiet = λ h. ground (arith, v.quiet h, at_idle);
  cleared = λ h. tt;
  sum = λ h. ground (arith, v.quiet h, at_idle);
  balance = λ h t. ground (arith, v.balance h t, v.cleared h, at_idle);
}
Advance-IsSound (start s at_fresh) v = record {
  flag = v.flag;
  stopped = refl;
  quiet = λ h. tt;
  cleared = λ h. tt;
  sum = v.sum;
  balance = λ h t. ground (arith, v.balance h t, at_fresh);
}
Advance-IsSound (stop s at_loop) v = record {
  flag = v.flag;
  stopped = refl;
  quiet = λ h. ground (arith, h);
  cleared = λ h. tt;
  sum = λ h. ground (arith, v.sum, h);
  balance = λ h t.
      let free : s.caught ≡ false = ground (arith, h) in ground (arith, v.balance free t, at_loop);
}
Advance-IsSound (go_on s at_wait free) v = record {
  flag = v.flag;
  stopped = ground (arith, v.stopped, at_wait);
  quiet = λ h. ground (arith, v.quiet h, v.flag, at_wait, free);
  cleared = λ h. tt;
  sum = v.sum;
  balance = λ h t. ground (arith, v.balance h t, at_wait);
}
Advance-IsSound (populate s at_drain) v = record {
  flag = v.flag;
  stopped = ground (arith, v.stopped, at_drain);
  quiet = λ h. ground (arith, v.quiet h, at_drain);
  cleared = λ h. tt;
  sum = v.sum;
  balance = λ h t. ground (arith, v.balance h t, at_drain);
}
Advance-IsSound (clear s at_read) v = record {
  flag = v.flag;
  stopped = ground (arith, v.stopped, at_read);
  quiet = λ h. ground (arith, v.quiet h, at_read);
  cleared = λ h. refl;
  sum = λ h. ground (arith, v.quiet h, at_read);
  balance = λ h t. ground (arith, v.balance h t, at_read, tally_of-empty t);
}

Advances-IsSound : {s t : Session} → Advances s t → IsSound s → IsSound t
Advances-IsSound (stay s) v = v
Advances-IsSound (more run step) v = Advance-IsSound step (Advances-IsSound run v)

-- In every interleaving from a new profiler, signals within a handler included, in which the profiler was
-- never stopped while a handler was behind its test of the flags and had not set its own: when the
-- traces are read, no handler is at work and `_trace_count` is the sum of their counts.
pub Advances-quiet :
    (s : Session)
    → Advances new_session s
    → s.caught ≡ false
    → s.place ≡ draining
    → (s.work ≡ none_inside) × (s.trace_count ≡ Dict.total s.traces)
Advances-quiet s run free at_drain =
    let v = Advances-IsSound run new_session-IsSound in
    let (none_checked, none_at_work) : (s.checked ≡ 0) × (s.work ≡ none_inside) =
      ground (arith, v.quiet free, at_drain) in
    (none_at_work, ground (arith, v.sum free, none_at_work))

-- In every interleaving from a new profiler, signals within a handler included, in which the profiler was
-- never stopped while a handler was behind its test of the flags and had not set its own: when `profile`
-- has returned, each trace is in the profiles returned so far with as many ticks as handlers have
-- recorded for it.
pub Advances-reports :
    (s : Session) (t : Trace)
    → Advances new_session s
    → s.caught ≡ false
    → s.place ≡ idle
    → s.logged t ≡ s.reported t
unfolding Dict.get
Advances-reports s t run free at_idle =
    let v = Advances-IsSound run new_session-IsSound in
    let empty : s.traces ≡ [] = ground (arith, v.cleared free, at_idle) in
    let nothing : Dict.tally_of s.traces t ≡ 0 = ap (λ d. Dict.tally_of d t) empty in
    ground (arith, v.balance free t, nothing, at_idle)
