-- ===== src/Wall/Runs.antt =====
-- googlecloudprofiler/pythonprofiler.py: a whole run of `profile` returns, and what its bytes say.
use cloud_profiler_python.Prelude.{
  ℕ, ◌+◌, ◌≡◌, refl, none, some, List, [], ◌∷◌, arith, true, false, ◌⊎◌, inl, inr,
}
use cloud_profiler_python.Prelude.{◌==◌, nat_eq, string_eq, Bool-cases, All}
use cloud_profiler_python.Prelude.Int.{pos}
use cloud_profiler_python.Prelude.Result.{ok}
use cloud_profiler_python.Prelude.Float.{Float}
use cloud_profiler_python.Prelude.{take}
use cloud_profiler_python.Prelude.Dict
use cloud_profiler_python.Prelude.Dict.{Dict, total, total-insert_new, total-insert_old}
use cloud_profiler_python.Builder.{Frame, Trace, frame_eq}
use cloud_profiler_python.Prelude.{list_eq, list_beq_iff}
use cloud_profiler_python.Wall.{WallProfiler, record_trace, unknown_trace, ticks, handler}
use cloud_profiler_python.Wall.Depth.{record_trace-take}
use cloud_profiler_python.Prelude.Result.{Result-cases}
use cloud_profiler_python.Wall.Handler.{
  IsCounted, handler_recorded, handler_raised, handler_ignored,
}
use cloud_profiler_python.Wall.Session.{deliver, sampling}

-- The stack is not the one frame that stands for what no signal has seen.
abbrev pub IsKnown : {F : Type 0} → F × List Frame → Type 0
IsKnown (_, stack) = (take 128 stack == unknown_trace) ≡ false

abbrev pub AreKnown : {F : Type 0} → List (List (F × List Frame) × F) → Type 0
AreKnown [] = Unit
AreKnown ((signals, _) ∷ rounds) = All IsKnown signals × AreKnown rounds

absent-tally :
    (trace : Trace) (n : ℕ) (traces : Dict Trace ℕ)
    → (trace == unknown_trace) ≡ false
    → Dict.get traces unknown_trace ≡ none
    → Dict.get (Dict.tally trace n traces) unknown_trace ≡ none
unfolding Dict.tally
absent-tally trace n traces other absent = ground (
  arith,
  Dict.get-insert trace unknown_trace n traces,
  Dict.get-insert trace unknown_trace (Dict.tally_of traces trace + n) traces,
  list_beq_iff trace unknown_trace,
  list_beq_iff unknown_trace trace,
)

module _ (fl : Float) where
  -- No handler raises.
  abbrev pub IsQuiet : WallProfiler fl.F → List (fl.F × List Frame) → Type 0
  IsQuiet w [] = Unit
  IsQuiet w ((now, stack) ∷ signals) =
      ((handler fl w now stack).1 ≡ ok tt) × IsQuiet (handler fl w now stack).0 signals

  abbrev pub AreQuiet : WallProfiler fl.F → List (List (fl.F × List Frame) × fl.F) → Type 0
  AreQuiet w [] = Unit
  AreQuiet w ((signals, _) ∷ rounds) =
      IsQuiet w signals
      × AreQuiet (record (deliver fl w signals) { last_sample_time = none }) rounds

  -- The clock passes the target in one of the rounds.
  abbrev pub Ends : fl.F → fl.F → List (List (fl.F × List Frame) × fl.F) → Type 0
  Ends target duration [] = fl.lt (fl.of_ℤ (pos 0)) duration ≡ false
  Ends target duration ((_, now) ∷ rounds) =
      (fl.lt (fl.of_ℤ (pos 0)) duration ≡ false) ⊎ Ends target (fl.sub target now) rounds

  pub record IsRunning (period : fl.F) (w : WallProfiler fl.F) : Type 0 where
    pub started : w.started ≡ true
    pub idle : w.in_handler ≡ false
    pub same_period : w.period_sec ≡ period
    pub same_type : w.profile_type ≡ "wall"
    pub counted : IsCounted w
    pub unknown_absent : Dict.get w.traces unknown_trace ≡ none

  module _ (period : fl.F) where
    handler-IsRunning :
        (w : WallProfiler fl.F) (now : fl.F) (stack : List Frame)
        → IsKnown (now, stack)
        → (handler fl w now stack).1 ≡ ok tt
        → IsRunning period w
        → IsRunning period (handler fl w now stack).0
    handler-IsRunning w now stack known quiet r =
        elim (Result-cases (ticks fl (record w { in_handler = true }) now)) [
          | inl ((n, last), ticked) ↦
              rw (handler_recorded fl w now stack r.started r.idle ticked) (record {
                started = r.started;
                idle = refl;
                same_period = r.same_period;
                same_type = r.same_type;
                counted =
                    omega (arith, r.counted, Dict.total-tally (record_trace stack) n w.traces);
                unknown_absent =
                    absent-tally (record_trace stack) n w.traces
                      (rw (record_trace-take stack) known) r.unknown_absent;
              })
          | inr (e, raised) ↦
              absurd (cc (quiet, handler_raised fl w now stack r.started r.idle e raised))
        ]

    deliver-IsRunning :
        (w : WallProfiler fl.F) (signals : List (fl.F × List Frame))
        → All IsKnown signals
        → IsQuiet w signals
        → IsRunning period w
        → IsRunning period (deliver fl w signals)
    unfolding deliver
    deliver-IsRunning w [] known quiet r = r
    deliver-IsRunning w ((now, stack) ∷ signals) known quiet r =
        deliver-IsRunning (handler fl w now stack).0 signals known.1 quiet.1
          (handler-IsRunning w now stack known.0 quiet.0 r)

    pub sampling-returns :
        (target : fl.F) (w : WallProfiler fl.F) (duration : fl.F)
        (rounds : List (List (fl.F × List Frame) × fl.F))
        → AreKnown rounds
        → AreQuiet w rounds
        → IsRunning period w
        → Ends target duration rounds
        → (s : WallProfiler fl.F) × (sampling fl target w duration rounds ≡ some s)
          × IsRunning period s
    unfolding sampling
    sampling-returns target w duration [] known quiet r ends = (w, rw ends, r)
    sampling-returns target w duration ((signals, now) ∷ rounds) known quiet r ends =
        elim (Bool-cases (fl.lt (fl.of_ℤ (pos 0)) duration)) [
          | inr over ↦
              (deliver fl w signals, rw over, deliver-IsRunning w signals known.0 quiet.0 r)
          | inl more ↦
              let d = deliver-IsRunning w signals known.0 quiet.0 r in
              let next : WallProfiler fl.F = record (deliver fl w signals) {
                last_sample_time = none;
              } in
              let again : IsRunning period next = record {
                started = d.started;
                idle = d.idle;
                same_period = d.same_period;
                same_type = d.same_type;
                counted = d.counted;
                unknown_absent = d.unknown_absent;
              } in
              let later : Ends target (fl.sub target now) rounds = ends_later ends more in
              let (s, e, r') =
                sampling-returns target next (fl.sub target now) rounds known.1 quiet.1 again
                  later in
              (s, rw more e, r')
        ]
      where
        ends_later :
            (fl.lt (fl.of_ℤ (pos 0)) duration ≡ false) ⊎ Ends target (fl.sub target now) rounds
            → fl.lt (fl.of_ℤ (pos 0)) duration ≡ true
            → Ends target (fl.sub target now) rounds
        ends_later (inl over) more = absurd (cc)
        ends_later (inr later) more = later

  -- Signals that arrive behind the end of the sampling change nothing.
  pub deliver_stopped :
      (w : WallProfiler fl.F) (signals : List (fl.F × List Frame))
      → w.started ≡ false
      → deliver fl w signals ≡ w
  unfolding deliver
  deliver_stopped w [] off = refl
  deliver_stopped w ((now, stack) ∷ signals) off =
      rw (handler_ignored fl w now stack (inl off)) (deliver_stopped w signals off)
