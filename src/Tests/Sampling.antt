-- ===== src/Tests/Sampling.antt =====
-- googlecloudprofiler/pythonprofiler.py: a run of 30 milliseconds with a period of 10: one signal
-- is handled in the sleep, one between the last setting of the timer and the stop, and one arrives late.
use cloud_profiler_python.Prelude.{ℕ, ◌≡◌, refl, inl, inr, true, false, some, List, [], ◌∷◌}
use cloud_profiler_python.Prelude.{list_eq}
use cloud_profiler_python.Prelude.Int.{pos}
use cloud_profiler_python.Prelude.Result.{ok}
use cloud_profiler_python.Prelude.Dict
use cloud_profiler_python.Prelude.Micros.{micros}
use cloud_profiler_python.Builder.{Frame, frame_eq}
use cloud_profiler_python.Wall.{WallProfiler, handler, ticks, reset}
use cloud_profiler_python.Wall.Handler.{IsLarger, later, handler-count}
use cloud_profiler_python.Prelude.{◌+◌, if◌then◌else◌, ◌==◌, take}
use cloud_profiler_python.Wall.Session.{deliver}
use cloud_profiler_python.Wall.Profile.{Measures, Profiled, profile_returns}
use cloud_profiler_python.Tests.{new_wall, plain, plain-IsLossless}

abbrev stack : List Frame
stack = ("f", "a.py", pos 3) ∷ ("main", "a.py", pos 9) ∷ []

-- A profiler that has counted one trace at one second.
abbrev running : WallProfiler ℕ
running = record new_wall {
  traces = (stack, 1) ∷ [];
  started = true;
  last_sample_time = some 1000000;
  trace_count = 1;
}

-- A signal after two periods and a half counts twice.
handler-count_example :
    (n : ℕ) × IsLarger micros n (pos 2)
    × ((handler micros running 1025000 stack).1 ≡ ok tt)
    × ((handler micros running 1025000 stack).0.in_handler ≡ false)
    × ((handler micros running 1025000 stack).0.started ≡ true)
    × ((handler micros running 1025000 stack).0.last_sample_time
        ≡ some (micros.add 1000000 (micros.mul 10000 (micros.of_ℤ (pos n)))))
    × ((handler micros running 1025000 stack).0.trace_count ≡ 1 + n)
    × (Dict.tally_of (handler micros running 1025000 stack).0.traces stack
        ≡ (if stack == take 128 stack then 1 + n else 1))
unfolding Dict.get
handler-count_example =
    handler-count micros running 1025000 stack (pos 2)
      (λ n. micros.add 1000000 (micros.mul 10000 (micros.of_ℤ (pos n)))) refl refl
      (later 1000000 2500000 (pos 2) refl refl refl) stack

abbrev rounds : List (List (ℕ × List Frame) × ℕ)
rounds = ((1005000, stack) ∷ [], 1040000) ∷ ((1041000, stack) ∷ [], 1041500) ∷ []

abbrev late : List (ℕ × List Frame)
late = (1042000, stack) ∷ []

measures : Measures micros 10000 (pos 30000000) (pos 10000000) (pos 3)
measures = record { quotient = 3000000; in_nanos = refl; divided = refl; whole = refl }

profile_returns_example :
    Profiled micros plain new_wall (pos 30000000) (pos 10000000) (pos 3) 30000 1000000 rounds late
unfolding handler ticks reset deliver
profile_returns_example =
    profile_returns micros plain plain-IsLossless new_wall (pos 30000000) (pos 10000000) (pos 3)
      30000 1000000 rounds late refl refl refl measures refl ((refl, tt), ((refl, tt), tt))
      ((refl, tt), ((refl, tt), tt)) (inr (inl refl))
