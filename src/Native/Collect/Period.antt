-- ===== src/Native/Collect/Period.antt =====
-- googlecloudprofiler/src/profiler.cc: the period of the timer that `Start` sets.
use cloud_profiler_python.Prelude.{ℕ, ◌+◌, ◌*◌, ◌<◌, ◌≡◌, ◌↔◌, refl, ap, sym, ◌∙◌, true, arith}
use cloud_profiler_python.Prelude.Int.{ℤ, pos, negsuc, ◌-ℤ◌}
use Prim.Native.Nat.{◌/◌, ◌%◌, ◌^◌}
use cloud_profiler_python.Native.Clock.{micros_per_second, nanos_per_milli}
use cloud_profiler_python.Native.Frames.{to_int}
use cloud_profiler_python.Native.Collect.{
  World, Sigprof, interval_of, set_sigprof_interval, start, micros_of, period_of, to_int64,
}

-- Seconds and microseconds.
abbrev interval_ms : ℕ → ℤ × ℤ
interval_ms ms = (pos (ms / 1000), pos (ms % 1000 * 1000))

micros : (ms : ℕ) → ms * nanos_per_milli / 1000 ≡ ms * 1000
micros ms = omega arith

to_int-fits : (n : ℕ) → n < 2 ^ 31 → to_int (pos n) ≡ pos n
unfolding to_int
to_int-fits n h = ground (arith, h)

interval_of-fits : (ms : ℕ) → interval_of (pos (ms * 1000)) ≡ interval_ms ms
interval_of-fits ms = ground arith

negated : (x a : ℕ) → pos 0 -ℤ pos x ≡ pos a → x ≡ 0
unfolding ◌-ℤ◌
negated x a h = ground (arith, h)

interval_of-back :
    (i : ℤ) (a b : ℕ) → interval_of i ≡ (pos a, pos b) → i ≡ pos (a * micros_per_second + b)
interval_of-back (pos m) a b h =
    let seconds : m / micros_per_second ≡ a = ground (arith, h) in
    let rest : m % micros_per_second ≡ b = ground (arith, h) in
    ap pos (omega (arith, seconds, rest))
interval_of-back (negsuc m) a b h =
    let seconds : (m + 1) / micros_per_second ≡ 0 =
      negated ((m + 1) / micros_per_second) a (ap (λ t. t.0) h) in
    let rest : (m + 1) % micros_per_second ≡ 0 =
      negated ((m + 1) % micros_per_second) b (ap (λ t. t.1) h) in
    absurd (omega (arith, seconds, rest))

to_int-bound : (i : ℤ) (n : ℕ) → to_int i ≡ pos n → n < 2 ^ 31
unfolding to_int
to_int-bound (pos m) n h = ground (arith, h)
to_int-bound (negsuc m) n h = ground (arith, h)

period_of-fits : (ms : ℕ) → ms * 1000 < 2 ^ 31 → micros_of (period_of ms) ≡ pos (ms * 1000)
unfolding period_of to_int64 micros_of
period_of-fits ms h = ground (arith, h, micros ms)

start-interval_of :
    (w : World) (period : ℤ) (s : Sigprof)
    → w.setitimer (interval_of (to_int (micros_of period))) ≡ true
    → (start w period s).0.interval ≡ interval_of (to_int (micros_of period))
unfolding start set_sigprof_interval
start-interval_of w period s h = rw h refl

-- Where `setitimer` accepts what it is given, the timer that `Start` sets, for the period of nanoseconds
-- that `ProfileCPU` makes of a number of milliseconds, has the period asked for exactly if the
-- microseconds of the period fit an `int`.
pub start_iff :
    (w : World) (ms : ℕ) (s : Sigprof)
    → w.setitimer (interval_of (to_int (micros_of (period_of ms)))) ≡ true
    → ((start w (period_of ms) s).0.interval ≡ (pos (ms / 1000), pos (ms % 1000 * 1000)))
      ↔ (ms * 1000 < 2 ^ 31)
start_iff w ms s accepted =
    let set = start-interval_of w (period_of ms) s accepted in
    let i : ℤ = to_int (micros_of (period_of ms)) in
    let there : (interval_of i ≡ interval_ms ms) → ms * 1000 < 2 ^ 31 = λ h.
      let back : i ≡ pos (ms / 1000 * micros_per_second + ms % 1000 * 1000) =
        interval_of-back i (ms / 1000) (ms % 1000 * 1000) h in
      let whole : ms / 1000 * micros_per_second + ms % 1000 * 1000 ≡ ms * 1000 = omega arith in
      to_int-bound (micros_of (period_of ms)) (ms * 1000) (back ∙ ap pos whole) in
    let back : ms * 1000 < 2 ^ 31 → interval_of i ≡ interval_ms ms = λ h.
      ap interval_of (ap to_int (period_of-fits ms h) ∙ to_int-fits (ms * 1000) h)
      ∙ interval_of-fits ms in
    (λ h. there (sym set ∙ h), λ h. set ∙ back h)
