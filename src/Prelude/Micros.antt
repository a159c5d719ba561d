-- ===== src/Prelude/Micros.antt =====
-- An instance of the float interface that meets its laws and runs: whole millionths, not negative.
use Prim.Native.Nat.{◌/◌}
use cloud_profiler_python.Prelude.{
  ℕ, ◌+◌, ◌-◌, ◌*◌, ◌≤◌, ◌≡◌, true, false, arith, ltb, String, ◌==◌, nat_eq, string_eq,
  if◌then◌else◌,
}
use cloud_profiler_python.Prelude.Int.{pos, pos_part}
use cloud_profiler_python.Prelude.Result.{Result, ok, err, zero_division_error}
use cloud_profiler_python.Prelude.Float.{Float, IsIeee}

abbrev pub one : ℕ
one = 1000000

abbrev literal : String → ℕ
literal s =
    if s == "60.0"
    then 60 * one
    else if s == "3600.0"
    then 3600 * one
    else if s == "1.3"
    then 1300000
    else 0

abbrev quotient : ℕ → ℕ → Result ℕ
quotient a b = if b == 0 then err zero_division_error else ok (a * one / b)

abbrev pub micros : Float
micros = record {
  F = ℕ;
  literal = literal;
  of_ℤ = λ n. pos_part n * one;
  add = λ a b. a + b;
  sub = λ a b. a - b;
  mul = λ a b. a * b / one;
  div = quotient;
  true_div = λ n m. quotient (pos_part n) (pos_part m);
  lt = ltb;
  int = λ a. ok (pos (a / one));
}

pub mul_grows_lem : (x m : ℕ) → one ≤ m → ltb (x * m / one) x ≡ false
mul_grows_lem x m h = let p : x * one ≤ x * m = grind arith in ground arith

pub ltb_irrefl : (x : ℕ) → ltb x x ≡ false
ltb_irrefl x = ground arith

pub ltb_asymm : (x y : ℕ) → ltb x y ≡ true → ltb y x ≡ false
ltb_asymm x y h = ground arith

pub ltb_trans : (x y z : ℕ) → ltb y x ≡ false → ltb z y ≡ false → ltb z x ≡ false
ltb_trans x y z h k = ground arith

abbrev pub micros-IsIeee : IsIeee micros
micros-IsIeee = record {
  IsNumber = λ x. Unit {0};
  IsFactor = λ m. one ≤ m;
  lt_irrefl = ltb_irrefl;
  lt_asymm = ltb_asymm;
  not_above_trans = λ x y z n. ltb_trans x y z;
  IsNumber-mul = λ x m n z h. tt;
  mul_grows = λ x m n z h. mul_grows_lem x m h;
}
