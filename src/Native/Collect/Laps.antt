-- ===== src/Native/Collect/Laps.antt =====
-- googlecloudprofiler/src/profiler.cc: the laps of `Collect` reach the finish line.
use cloud_profiler_python.Prelude.{
  ℕ, zero, suc, ◌+◌, ◌*◌, ◌≤◌, ◌<◌, ◌≡◌, refl, ◌∙◌, true, ◌↔◌, some, List, [], ◌∷◌, ◌++◌, arith,
  inl, inr,
}
use cloud_profiler_python.Prelude.{Bool-cases, Option-cases}
use cloud_profiler_python.Native.Clock.{Timespec, IsPoint, in_nanos, time_add, time_less_than}
use cloud_profiler_python.Native.Frames.{Version}
use cloud_profiler_python.Native.Profiler.{Profiler, flush, Event, flushed, step, run}
use cloud_profiler_python.Native.Profiler.Account.{IsSound, IsSound-append, run-Ends}
use cloud_profiler_python.Native.Collect.{World, flush_interval, almost_there, laps}

abbrev pub lap_nanos : ℕ
lap_nanos = 100 * 1000 * 1000

-- `AlmostThere` says whether fewer than two laps are left, also where `TimeAdd` gives no point in time.
pub almost_there_iff :
    (finish_line now : Timespec)
    → IsPoint finish_line
    → IsPoint now
    → (almost_there finish_line flush_interval now ≡ true)
      ↔ (in_nanos finish_line < in_nanos now + 2 * lap_nanos)
unfolding almost_there time_less_than time_add
almost_there_iff finish_line now p q = ground arith

-- A clock that does not go backwards, with a sleep of a lap between two readings of the loop.
pub record IsClock (reading : ℕ → Timespec) : Type 0 where
  pub points : (k : ℕ) → IsPoint (reading k)
  pub first : in_nanos (reading 0) ≤ in_nanos (reading 1)
  pub lap : (k : ℕ) → in_nanos (reading (k + 1)) + lap_nanos ≤ in_nanos (reading (k + 1 + 1))

pub run-append :
    (version : Version) (before after : List Event) (p : Profiler) {q : Profiler}
    → run version before p ≡ some q
    → run version (before ++ after) p ≡ run version after q
unfolding run
run-append version [] after p h = ground (arith, h)
run-append version (event ∷ before) after p {q} h = elim (Option-cases (step version event p)) [
  | inl stuck ↦ absurd (ground (arith, h, stuck))
  | inr (r, stepped) ↦
      ground
        (arith, stepped, run-append version before after r {q = q} (ground (arith, h, stepped)))
]

module _ (w : World) where
  -- What happens in that many laps from lap k on, the flushes included.
  abbrev pub lap_events : ℕ → ℕ → List Event
  lap_events zero k = []
  lap_events (suc rounds) k = w.during k ++ (flushed ∷ lap_events rounds (k + 1))

  run-lap_events :
      (rounds k : ℕ) (p : Profiler) {q : Profiler}
      → run w.version (w.during k) p ≡ some q
      → run w.version (lap_events (suc rounds) k) p
        ≡ run w.version (lap_events rounds (k + 1)) (flush q).0
  unfolding run step
  run-lap_events rounds k p h =
      run-append w.version (w.during k) (flushed ∷ lap_events rounds (k + 1)) p h

  pub laps-end :
      (finish_line : Timespec) (rounds k : ℕ) (p : Profiler)
      → IsPoint finish_line
      → IsClock w.reading
      → ((j : ℕ) → IsSound w.version (w.during j))
      → 0 < rounds
      → in_nanos finish_line < in_nanos (w.reading (k + 1)) + (rounds + 1) * lap_nanos
      → (n : ℕ) × (n < rounds)
        × (q : Profiler) × (laps w finish_line rounds k p ≡ some q)
        × (run w.version (lap_events n k) p ≡ some q)
  unfolding laps run
  laps-end finish_line zero k p point clock sound some_rounds near =
      absurd (omega (arith, some_rounds))
  laps-end finish_line (suc rounds) k p point clock sound some_rounds near =
      let now : Timespec = w.reading (k + 1) in
      let there = almost_there_iff finish_line now point (clock.points (k + 1)) in
      elim (Bool-cases (almost_there finish_line flush_interval now)) [
        | inl close ↦ (0, omega arith, p, ground (arith, close), refl)
        | inr open_yet ↦
            let far : in_nanos now + 2 * lap_nanos ≤ in_nanos finish_line =
              ground (arith, open_yet, there) in
            let (q, runs) = run-Ends w.version (w.during k) p (sound k).ends in
            let (n, fewer, r, lapped, ran) =
              laps-end finish_line rounds (k + 1) (flush q).0 point clock sound
                (omega (arith, far, near)) (omega (arith, near, clock.lap k)) in
            (
              suc n,
              omega (arith, fewer),
              r,
              ground (arith, open_yet, runs, lapped),
              run-lap_events n k p runs ∙ ran,
            )
      ]

  pub lap_events-IsSound :
      (rounds k : ℕ)
      → ((j : ℕ) → IsSound w.version (w.during j))
      → IsSound w.version (lap_events rounds k)
  lap_events-IsSound zero k sound = record { ends = tt; have_frames = tt }
  lap_events-IsSound (suc rounds) k sound =
      let rest = lap_events-IsSound rounds (k + 1) sound in
      IsSound-append w.version (w.during k) (flushed ∷ lap_events rounds (k + 1)) (sound k)
        (record { ends = (tt, rest.ends); have_frames = rest.have_frames })
