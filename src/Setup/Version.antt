-- ===== src/Setup/Version.antt =====
-- setup.py: which version `get_version` finds.
use cloud_profiler_python.Prelude.{
  ℕ, ◌+◌, ◌-◌, ◌≡◌, refl, ap, ◌∙◌, sym, true, Option, none, some, List, [], ◌∷◌, ◌++◌, arith,
}
use cloud_profiler_python.Prelude.{length, take}
use cloud_profiler_python.Prelude.Result.{ok, or_raise, runtime_error}
use mathlib.Core.Path.{subst}
use cloud_profiler_python.Setup.{
  one, run, is, version_re, quote, assignment, group_from, group, match_line, search, get_version,
}
use cloud_profiler_python.Setup.Search.{Matches, IsLines, run-Splits, run-literal, search-IsLines}

length-append : (x y : List ℕ) → length (x ++ y) ≡ length x + length y
length-append [] y = omega arith
length-append (c ∷ x) y = omega (arith, length-append x y)

take-length : (x y : List ℕ) → take (length x) (x ++ y) ≡ x
take-length [] y = refl
take-length (c ∷ x) y = ap (◌∷◌ c) (take-length x y)

-- The group is what stands in front of the rest.
pub group_from_lem : (x rest : List ℕ) → group_from (x ++ rest) rest ≡ some x
group_from_lem x rest =
    let size : length (x ++ rest) - length rest ≡ length x = omega (arith, length-append x rest) in
    ap (λ n. some (take n (x ++ rest))) size ∙ ap some (take-length x rest)

group-Matches :
    (start v : List ℕ)
    → group start ≡ some v
    → (after : List ℕ) × (start ≡ v ++ quote ∷ after) × Matches version_re v
group-Matches start v h =
    let (x, rest, split, matched, passed) =
      run-Splits version_re (λ r. run (one (is quote)) (λ after. group_from start r) r) start h in
    let (q, after, split', (c, one_char, quoted), found) =
      run-Splits (one (is quote)) (λ after. group_from start rest) rest passed in
    let same : c ≡ quote = ground (arith, quoted) in
    let text : rest ≡ quote ∷ after =
      split' ∙ (ap (λ l. l ++ after) one_char ∙ ap (λ d. d ∷ after) same) in
    let is_v : some x ≡ some v =
      sym (group_from_lem x rest) ∙ (ap (λ l. group_from l rest) (sym split) ∙ found) in
    let v_is : x ≡ v = cc is_v in
    (
      after,
      split ∙ (ap (λ l. l ++ rest) v_is ∙ ap (λ l. v ++ l) text),
      subst (Matches version_re) v_is matched,
    )

found_lem :
    (found : Option (List ℕ)) {v : List ℕ} → or_raise runtime_error found ≡ ok v → found ≡ some v
found_lem none h = absurd (cc h)
found_lem (some v) h = cc h

-- A version that `get_version` returns stands between quotes behind `__version__ = ` at the start of a
-- line of the file, and is text that the group of the expression describes.
pub get_version-Matches :
    (text v : List ℕ)
    → get_version text ≡ ok v
    → (before : List ℕ) × (after : List ℕ) × (text ≡ before ++ (assignment ++ (v ++ quote ∷ after)))
      × IsLines before
      × Matches version_re v
unfolding get_version match_line
get_version-Matches text v h =
    let (before, rest, split, lines, found) =
      search-IsLines text (found_lem (search true text) h) in
    let (start, split', grouped) = run-literal assignment group rest found in
    let (after, split'', matched) = group-Matches start v grouped in
    (
      before,
      after,
      split ∙ ap (λ l. before ++ l) (split' ∙ ap (λ l. assignment ++ l) split''),
      lines,
      matched,
    )
