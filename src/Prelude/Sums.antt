-- ===== src/Prelude/Sums.antt =====
-- Sums over the numbers below a bound: over the entries of a table, over threads.
use cloud_profiler_python.Prelude.{ℕ, zero, suc, ◌+◌, ◌*◌, ◌≤◌, ◌<◌, ◌≡◌, refl, ap, false, arith}
use cloud_profiler_python.Prelude.{◌==◌, nat_eq}
use native.Mathlib.Decide.{dec_lt}

-- The sum of f 0, …, f (n - 1).
unfoldable pub sum_to : ℕ → (ℕ → ℕ) → ℕ
sum_to zero f = 0
sum_to (suc n) f = sum_to n f + f n

pub sum_to-zero : (n : ℕ) (f : ℕ → ℕ) → ((i : ℕ) → f i ≡ 0) → sum_to n f ≡ 0
unfolding sum_to
sum_to-zero zero f h = refl
sum_to-zero (suc n) f h = omega (arith, sum_to-zero n f h, h n)

pub sum_to-zero_below : (n : ℕ) (f : ℕ → ℕ) → ((i : ℕ) → i < n → f i ≡ 0) → sum_to n f ≡ 0
unfolding sum_to
sum_to-zero_below zero f h = refl
sum_to-zero_below (suc n) f h =
    omega (arith, sum_to-zero_below n f (λ i lt. h i (omega arith)), h n (omega arith))

pub sum_to-add :
    (n : ℕ) (f g h : ℕ → ℕ) → ((i : ℕ) → f i ≡ g i + h i) → sum_to n f ≡ sum_to n g + sum_to n h
unfolding sum_to
sum_to-add zero f g h e = refl
sum_to-add (suc n) f g h e = omega (arith, sum_to-add n f g h e, e n)

pub sum_to-same : (n : ℕ) (f g : ℕ → ℕ) → ((i : ℕ) → i < n → f i ≡ g i) → sum_to n f ≡ sum_to n g
unfolding sum_to
sum_to-same zero f g h = refl
sum_to-same (suc n) f g h =
    omega (arith, sum_to-same n f g (λ i lt. h i (omega arith)), h n (omega arith))

-- One of the summands changes.
pub sum_to-change :
    (n : ℕ) (f g : ℕ → ℕ) (i : ℕ)
    → i < n
    → ((j : ℕ) → (j == i) ≡ false → f j ≡ g j)
    → sum_to n g + f i ≡ sum_to n f + g i
unfolding sum_to
sum_to-change zero f g i lt h = absurd (omega arith)
sum_to-change (suc n) f g i lt h = elim (dec_lt i n) [
  | yes below ↦ omega (arith, sum_to-change n f g i below h, h n (ground arith))
  | no last ↦
      let here : n ≡ i = omega arith in
      omega (arith, ap f here, ap g here, sum_to-same n f g (λ j inside. h j (ground arith)))
]

-- A summand is at most the sum.
pub sum_to-summand : (n : ℕ) (f : ℕ → ℕ) (i : ℕ) → i < n → f i ≤ sum_to n f
unfolding sum_to
sum_to-summand zero f i lt = absurd (omega arith)
sum_to-summand (suc n) f i lt = elim (dec_lt i n) [
  | yes below ↦ omega (arith, sum_to-summand n f i below)
  | no last ↦ let here : n ≡ i = omega arith in omega (arith, ap f here)
]

-- A sum that is not 0 has a summand that is not.
pub sum_to-positive : (n : ℕ) (f : ℕ → ℕ) → 0 < sum_to n f → (i : ℕ) × (i < n) × (0 < f i)
unfolding sum_to
sum_to-positive zero f h = absurd (omega (arith, h))
sum_to-positive (suc n) f h = elim (dec_lt 0 (f n)) [
  | yes last ↦ (n, omega arith, last)
  | no none_last ↦
      let (i, lt, some_i) = sum_to-positive n f (omega (arith, h)) in (i, omega (arith, lt), some_i)
]

-- A bound of the summands bounds the sum.
pub sum_to-bound : (n m : ℕ) (f : ℕ → ℕ) → ((i : ℕ) → f i ≤ m) → sum_to n f ≤ n * m
unfolding sum_to
sum_to-bound zero m f h = omega arith
sum_to-bound (suc n) m f h = omega (arith, sum_to-bound n m f h, h n)
