-- ===== src/Tests/Threads.antt =====
-- googlecloudprofiler/pythonprofiler.py: a handler beside the profiling thread.
use cloud_profiler_python.Prelude.{◌+◌, ◌≡◌, refl, true, false, [], ◌∷◌}
use cloud_profiler_python.Prelude.Int.{pos}
use cloud_profiler_python.Prelude.Dict
use cloud_profiler_python.Builder.{Trace, frame_eq}
use cloud_profiler_python.Prelude.{nat_eq, list_eq}
use cloud_profiler_python.Wall.Race.Samples
use cloud_profiler_python.Wall.Race.Samples.{
  Session, none_inside, inside, recorded, counted, idle, fresh, looping, waiting, draining,
  read_out, plus, Advances, stay, more, new_session,
}
use cloud_profiler_python.Wall.Race.Samples.Accounting.{Advances-reports}
use cloud_profiler_python.Wall.Race.Samples.Losses.{Advances-loses}

abbrev leaf : Trace
leaf = ("f", "a.py", pos 3) ∷ []

abbrev readied : Session
readied = record new_session { place = fresh }

abbrev in_loop : Session
in_loop = record readied { place = looping; started = true }

-- A handler has passed its test.
abbrev between : Session
between = record in_loop { checked = 1 }

abbrev at_work : Session
at_work = record between { checked = 0; work = inside; in_handler = true }

-- The profiler is stopped while the handler is at work, and waits for it.
abbrev stopped : Session
stopped = record at_work { place = waiting; started = false }

abbrev written : Session
written = record stopped {
  work = recorded 2;
  traces = Dict.tally leaf 2 [];
  logged = plus (λ t. 0) leaf 2;
}

abbrev summed : Session
summed = record written { work = counted; trace_count = 2 }

abbrev left : Session
left = record summed { work = none_inside; in_handler = false }

abbrev drained : Session
drained = record left { place = draining }

abbrev shown : Session
shown = record drained {
  place = read_out;
  reported = λ t. 0 + Dict.tally_of (Dict.tally leaf 2 []) t;
}

abbrev ended : Session
ended = record shown { place = idle; traces = []; trace_count = 0 }

-- A whole profile with one sample of two ticks.
reached : Advances new_session ended
reached =
    let at_loop =
      more (more (stay new_session) (Samples.begin new_session refl))
        (Samples.start readied refl) in
    let working =
      more (more at_loop (Samples.test in_loop refl refl)) (Samples.enter between 0 refl refl) in
    let recording =
      more (more working (Samples.stop at_work refl)) (Samples.add stopped leaf 2 refl) in
    let gone = more (more recording (Samples.count written 2 refl)) (Samples.leave summed refl) in
    more (more (more gone (Samples.go_on left refl refl)) (Samples.populate drained refl))
      (Samples.clear shown refl)

Advances-reports_example : ended.logged leaf ≡ ended.reported leaf
Advances-reports_example = Advances-reports ended leaf reached refl refl

Advances-loses_example :
    (t : Session) × Advances between t
    × (t.place ≡ idle)
    × (t.logged leaf ≡ between.logged leaf + 5)
    × (t.reported leaf ≡ between.reported leaf + Dict.tally_of between.traces leaf)
Advances-loses_example = Advances-loses between 0 leaf 5 refl refl refl refl
