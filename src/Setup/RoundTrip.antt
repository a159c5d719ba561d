-- ===== src/Setup/RoundTrip.antt =====
-- setup.py: `get_version` on a version that is written on a line of its own.
use cloud_profiler_python.Prelude.{
  ℕ, ◌≡◌, ◌≢◌, refl, ap, ◌∙◌, true, false, Option, none, some, List, [], ◌∷◌, ◌++◌, arith,
}
use cloud_profiler_python.Prelude.{if◌then◌else◌, nat_beq, All}
use cloud_profiler_python.Prelude.Result.{ok, or_raise, runtime_error}
use mathlib.Core.List.{append_assoc}
use cloud_profiler_python.Client.ServiceName.{codes}
use cloud_profiler_python.Setup.{
  Part, one, many, seq, opt, repeat, run, is, is_digit, in_line, literal, digits, version_re, quote,
  assignment, group_from, group, match_line, search, get_version,
}
use cloud_profiler_python.Setup.Version.{group_from_lem}

abbrev pub InLine : List ℕ → Type 0
InLine = All (λ c. in_line c ≡ true)

-- A version: a digit and more, a period, a digit, and whatever else.
pub data IsVersion : List ℕ → Type 0 where
  numbered :
      (c : ℕ) (ds : List ℕ) (d : ℕ) (tail : List ℕ)
      → is_digit c ≡ true
      → All (λ e. is_digit e ≡ true) ds
      → is_digit d ≡ true
      → InLine tail
      → IsVersion (c ∷ (ds ++ b'.' ∷ d ∷ tail))

-- Behind a closing quote at the end of a line.
module _ (after v : List ℕ) where
  abbrev closing : List ℕ
  closing = quote ∷ 10 ∷ after

  -- Whatever part of the line is left, the answer is the same.
  abbrev Answers : (List ℕ → Option (List ℕ)) → Type 0
  Answers f = (x : List ℕ) → InLine x → f (x ++ closing) ≡ some v

  repeat-line :
      (next : List ℕ → Option (List ℕ))
      → next (10 ∷ after) ≡ none
      → next closing ≡ some v
      → Answers (repeat in_line next)
  unfolding repeat
  repeat-line next newline closes [] fits = ground (arith, newline, closes)
  repeat-line next newline closes (c ∷ x) (fit, fits) =
      ground (arith, fit, repeat-line next newline closes x fits)

  opt_one-Answers :
      (c : ℕ) (next : List ℕ → Option (List ℕ))
      → c ≢ quote
      → Answers next
      → Answers (run (opt (one (is c))) next)
  unfolding run
  opt_one-Answers c next other h [] fits = ground (arith, other, h [] tt)
  opt_one-Answers c next other h (d ∷ x) (fit, fits) =
      ground (arith, h x fits, h (d ∷ x) (fit, fits))

  repeat_digit-Answers :
      (next : List ℕ → Option (List ℕ)) → Answers next → Answers (repeat is_digit next)
  unfolding repeat
  repeat_digit-Answers next h [] fits = ground (arith, h [] tt)
  repeat_digit-Answers next h (d ∷ x) (fit, fits) =
      ground (arith, repeat_digit-Answers next h x fits, h (d ∷ x) (fit, fits))

  -- A part that may be left out, where its own answer is the right one.
  opt_digits-Answers :
      (next : List ℕ → Option (List ℕ))
      → Answers next
      → Answers (run (opt (seq (one (is b'.')) digits)) next)
  unfolding run
  opt_digits-Answers next h [] fits = ground (arith, h [] tt)
  opt_digits-Answers next h (d ∷ []) (fit, fits) = ground (arith, h (d ∷ []) (fit, fits))
  opt_digits-Answers next h (d ∷ e ∷ x) (fit, (fit', fits)) =
      ground (arith, h (d ∷ e ∷ x) (fit, (fit', fits)), repeat_digit-Answers next h x fits)

  -- Digits up to a period.
  repeat_digit-period :
      (next : List ℕ → Option (List ℕ)) (ds rest : List ℕ)
      → All (λ e. is_digit e ≡ true) ds
      → next (b'.' ∷ rest) ≡ some v
      → repeat is_digit next (ds ++ b'.' ∷ rest) ≡ some v
  unfolding repeat
  repeat_digit-period next [] rest all h = ground (arith, h)
  repeat_digit-period next (d ∷ ds) rest (fit, all) h =
      ground (arith, fit, repeat_digit-period next ds rest all h)

  abbrev rest_re : Part
  rest_re = seq (opt (seq (one (is b'.')) digits)) (seq (opt (one (is b'-'))) (many in_line))

  rest-Answers :
      (next : List ℕ → Option (List ℕ))
      → next (10 ∷ after) ≡ none
      → next closing ≡ some v
      → Answers (run rest_re next)
  unfolding run
  rest-Answers next newline closes =
      opt_digits-Answers (run (seq (opt (one (is b'-'))) (many in_line)) next) (
        opt_one-Answers b'-' (run (many in_line) next) (omega arith)
          (repeat-line next newline closes))

  version-Answers :
      (next : List ℕ → Option (List ℕ)) (c : ℕ) (ds : List ℕ) (d : ℕ) (tail : List ℕ)
      → is_digit c ≡ true
      → All (λ e. is_digit e ≡ true) ds
      → is_digit d ≡ true
      → InLine tail
      → next (10 ∷ after) ≡ none
      → next closing ≡ some v
      → run version_re next (c ∷ (ds ++ b'.' ∷ d ∷ (tail ++ closing))) ≡ some v
  unfolding run
  version-Answers next c ds d tail digit all digit' fits newline closes =
      let behind =
        repeat_digit-Answers (run rest_re next) (rest-Answers next newline closes) tail fits in
      let at_period = run (seq (one (is b'.')) (seq digits rest_re)) next in
      let period : at_period (b'.' ∷ d ∷ (tail ++ closing)) ≡ some v =
        ground (arith, digit', behind) in
      ground (arith, digit, repeat_digit-period at_period ds (d ∷ (tail ++ closing)) all period)

-- The group of a version that ends its line.
group-closing : (after v : List ℕ) → IsVersion v → group (v ++ closing after v) ≡ some v
unfolding run
group-closing after _ (numbered c ds d tail digit all digit' fits) =
    let v : List ℕ = c ∷ (ds ++ b'.' ∷ d ∷ tail) in
    let start : List ℕ = v ++ closing after v in
    let next : List ℕ → Option (List ℕ) =
      λ rest. run (one (is quote)) (λ behind. group_from start rest) rest in
    let answer =
      version-Answers after v next c ds d tail digit all digit' fits refl
        (group_from_lem v (closing after v)) in
    let same : v ++ closing after v ≡ c ∷ (ds ++ b'.' ∷ d ∷ (tail ++ closing after v)) =
      ap (◌∷◌ c) (append_assoc ds (b'.' ∷ d ∷ tail) (closing after v)) in
    ap (run version_re next) same ∙ answer

-- A line that does not begin with an underscore.
abbrev pub IsOtherLine : List ℕ → Type 0
IsOtherLine [] = Unit
IsOtherLine (c ∷ cs) = (c ≢ b'_') × InLine (c ∷ cs)

abbrev pub unlines : List (List ℕ) → List ℕ
unlines [] = []
unlines (line ∷ lines) = line ++ 10 ∷ unlines lines

search-rest : (l s : List ℕ) → InLine l → search false (l ++ 10 ∷ s) ≡ search true s
unfolding search
search-rest [] s fits = refl
search-rest (c ∷ l) s (fit, fits) = ground (arith, fit, search-rest l s fits)

-- The expression begins with an underscore.
match_line-other : (c : ℕ) (s : List ℕ) → c ≢ b'_' → match_line (c ∷ s) ≡ none
unfolding match_line run
match_line-other c s other =
    let no : nat_beq c b'_' ≡ false = ground arith in
    ap (λ b. if b then run (literal (codes "_version__ = '")) group s else none) no

search-other : (l s : List ℕ) → IsOtherLine l → search true (l ++ 10 ∷ s) ≡ search true s
unfolding search
search-other [] s other = ground (arith, match_line-other 10 s (omega arith))
search-other (c ∷ l) s (other, (fit, fits)) =
    ground (arith, other, fit, search-rest l s fits, match_line-other c (l ++ 10 ∷ s) other)

search-unlines :
    (lines : List (List ℕ)) (s : List ℕ)
    → All IsOtherLine lines
    → search true (unlines lines ++ s) ≡ search true s
search-unlines [] s all = refl
search-unlines (line ∷ lines) s (other, all) =
    ap (search true) (append_assoc line (10 ∷ unlines lines) s)
    ∙ (search-other line (unlines lines ++ s) other ∙ search-unlines lines s all)

search-here : (s v : List ℕ) → match_line s ≡ some v → search true s ≡ some v
unfolding search
search-here [] v h = ground (arith, h)
search-here (c ∷ s) v h = ground (arith, h)

-- A version, written between quotes behind `__version__ = ` on a line of its own that is the first to
-- begin with an underscore, is what `get_version` returns, whatever the lines in front and the text
-- behind it hold.
pub get_version-unlines :
    (lines : List (List ℕ)) (v after : List ℕ)
    → All IsOtherLine lines
    → IsVersion v
    → get_version (unlines lines ++ (assignment ++ (v ++ quote ∷ 10 ∷ after))) ≡ ok v
unfolding get_version match_line run
get_version-unlines lines v after other is_version =
    let line : List ℕ = assignment ++ (v ++ quote ∷ 10 ∷ after) in
    let here : match_line line ≡ some v = group-closing after v is_version in
    let found : search true (unlines lines ++ line) ≡ some v =
      search-unlines lines line other ∙ search-here line v here in
    ap (or_raise runtime_error) found
