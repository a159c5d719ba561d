-- ===== src/Wall/Race/Samples/Losses.antt =====
-- googlecloudprofiler/pythonprofiler.py: a stop between the test of a handler and its flag.
use cloud_profiler_python.Prelude.{ℕ, suc, ◌+◌, ◌≡◌, refl, true, false, ◌||◌, [], arith}
use cloud_profiler_python.Prelude.{nat_eq, list_eq, list_beq_iff, ltb}
use cloud_profiler_python.Prelude.Dict
use cloud_profiler_python.Prelude.Dict.{Dict}
use cloud_profiler_python.Builder.{Trace, frame_eq}
use cloud_profiler_python.Wall.Race.Samples.{
  none_inside, inside, recorded, counted, idle, looping, waiting, draining, read_out, Session, plus,
  enter, add, count, leave, stop, go_on, populate, clear, Advances, stay, more,
}

-- If a handler is behind its test of the flags, and none has set its flag, while the profiling thread is in
-- its loop, then the threads can go on in such a way that `profile` returns although ticks that the
-- handler has recorded are in no profile.
pub Advances-loses :
    (s : Session) (k : ℕ) (trace : Trace) (n : ℕ)
    → s.place ≡ looping
    → s.checked ≡ suc k
    → s.work ≡ none_inside
    → s.in_handler ≡ false
    → (t : Session) × Advances s t
      × (t.place ≡ idle)
      × (t.logged trace ≡ s.logged trace + n)
      × (t.reported trace ≡ s.reported trace + Dict.tally_of s.traces trace)
Advances-loses s k trace n at_loop some_checked none_at_work free =
    let stopped : Session = record s {
      place = waiting;
      started = false;
      caught = s.caught || ltb 0 s.checked;
    } in
    let over : Session = record stopped { place = draining } in
    let entered : Session = record over { checked = k; work = inside; in_handler = true } in
    let read : Session = record entered {
      place = read_out;
      reported = λ t. s.reported t + Dict.tally_of s.traces t;
    } in
    let added : Session = record read {
      work = recorded n;
      traces = Dict.tally trace n s.traces;
      logged = plus s.logged trace n;
    } in
    let counting : Session = record added { work = counted; trace_count = s.trace_count + n } in
    let left : Session = record counting { work = none_inside; in_handler = false } in
    (
      record left { place = idle; traces = []; trace_count = 0 },
      more
          (more
            (more
              (more
                (more
                  (more (more (more (stay s) (stop s at_loop)) (go_on stopped refl free))
                    (enter over k none_at_work some_checked))
                  (populate entered refl))
                (add read trace n refl))
              (count added n refl))
            (leave counting refl))
          (clear left refl),
      refl,
      ground (arith, list_beq_iff trace trace),
      refl,
    )
