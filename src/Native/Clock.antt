-- ===== src/Native/Clock.antt =====
-- googlecloudprofiler/src/clock.cc and clock.h: points in time. The numbers are those of a monotonic
-- clock and of durations, which are not negative and far below 2^63.
use cloud_profiler_python.Prelude.{ℕ, ◌+◌, ◌*◌, ◌<◌, ◌≡◌, ◌≢◌, Bool, true, ◌&&◌, ◌||◌, ◌↔◌, arith}
use cloud_profiler_python.Prelude.{ltb, nat_beq, if◌then◌else◌}
use Prim.Native.Nat.{◌/◌, ◌%◌}

abbrev pub nanos_per_second : ℕ
nanos_per_second = 1000 * 1000 * 1000

abbrev pub micros_per_second : ℕ
micros_per_second = 1000 * 1000

abbrev pub nanos_per_milli : ℕ
nanos_per_milli = 1000 * 1000

-- `struct timespec`
pub record Timespec : Type 0 where
  pub sec : ℕ
  pub nsec : ℕ

unfoldable pub time_add : Timespec → Timespec → Timespec
time_add t u =
    let sec = t.sec + u.sec in
    let nsec = t.nsec + u.nsec in
    if ltb nanos_per_second nsec
    then record { sec = sec + nsec / nanos_per_second; nsec = nsec % nanos_per_second }
    else record { sec = sec; nsec = nsec }

unfoldable pub time_less_than : Timespec → Timespec → Bool
time_less_than t u = ltb t.sec u.sec || (nat_beq t.sec u.sec && ltb t.nsec u.nsec)

unfoldable pub nanos_to_timespec : ℕ → Timespec
nanos_to_timespec nanos = record { sec = nanos / nanos_per_second; nsec = nanos % nanos_per_second }

-- What `clock_nanosleep` accepts; for any other number of nanoseconds it returns `EINVAL`.
abbrev pub IsPoint : Timespec → Type 0
IsPoint t = t.nsec < nanos_per_second

-- The time in nanoseconds.
abbrev pub in_nanos : Timespec → ℕ
in_nanos t = t.sec * nanos_per_second + t.nsec

-- The sum of two points in time is their sum in nanoseconds. It is a point in time in its turn
-- exactly if the nanoseconds do not add up to a second.
pub time_add_lem :
    (t u : Timespec)
    → IsPoint t
    → IsPoint u
    → (in_nanos (time_add t u) ≡ in_nanos t + in_nanos u)
      × (IsPoint (time_add t u) ↔ (t.nsec + u.nsec ≢ nanos_per_second))
unfolding time_add
time_add_lem t u p q = ground arith

pub in_nanos-nanos_to_timespec :
    (n : ℕ) → (in_nanos (nanos_to_timespec n) ≡ n) × IsPoint (nanos_to_timespec n)
unfolding nanos_to_timespec
in_nanos-nanos_to_timespec n = omega arith

-- On points in time the comparison is that of the nanoseconds.
pub time_less_than_iff :
    (t u : Timespec)
    → IsPoint t
    → IsPoint u
    → (time_less_than t u ≡ true) ↔ (in_nanos t < in_nanos u)
unfolding time_less_than
time_less_than_iff t u p q = ground arith
