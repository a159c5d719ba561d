-- ===== src/Setup/Search.antt =====
-- setup.py: what a match of the expression says of the text.
use cloud_profiler_python.Prelude.{
  ℕ, ◌≡◌, refl, ap, ◌∙◌, sym, Bool, true, Option, none, some, List, [], ◌∷◌, ◌++◌, arith, inl, inr,
  ◌⊎◌,
}
use cloud_profiler_python.Prelude.{if◌then◌else◌, nat_beq, All}
use mathlib.Core.List.{append_assoc}
use cloud_profiler_python.Setup.{
  Part, one, many, seq, opt, skip, first, repeat, run, literal, match_line, search,
}

-- The texts that a part matches.
abbrev pub Matches : Part → List ℕ → Type 0
Matches (one class) x = (c : ℕ) × (x ≡ c ∷ []) × (class c ≡ true)
Matches (many class) x = All (λ c. class c ≡ true) x
Matches (seq r q) x = (y : List ℕ) × (z : List ℕ) × (x ≡ y ++ z) × Matches r y × Matches q z
Matches (opt r) x = (x ≡ []) ⊎ Matches r x
Matches skip x = x ≡ []

module _ {A : Type 0} where
  -- A text that a part matches, and a rest that `next` answers.
  abbrev pub Splits : Part → (List ℕ → Option A) → List ℕ → A → Type 0
  Splits r next s a =
      (x : List ℕ) × (rest : List ℕ) × (s ≡ x ++ rest) × Matches r x × (next rest ≡ some a)

  first_cases : (b c : Option A) {a : A} → first b c ≡ some a → (b ≡ some a) ⊎ (c ≡ some a)
  first_cases none c h = inr h
  first_cases (some b) c h = inl h

  repeat-Splits :
      (class : ℕ → Bool) (next : List ℕ → Option A) (s : List ℕ) {a : A}
      → repeat class next s ≡ some a
      → Splits (many class) next s a
  unfolding repeat
  repeat-Splits class next [] h = ([], [], refl, tt, h)
  repeat-Splits class next (c ∷ s) {a} h =
      elim (first_cases (if class c then repeat class next s else none) (next (c ∷ s)) h) [
        | inl further ↦
            let fits : class c ≡ true = ground (arith, further) in
            let onward : repeat class next s ≡ some a = ground (arith, further) in
            let (x, rest, split, all, passed) = repeat-Splits class next s onward in
            (c ∷ x, rest, ap (◌∷◌ c) split, (fits, all), passed)
        | inr here ↦ ([], c ∷ s, refl, tt, here)
      ]

  pub run-Splits :
      (r : Part) (next : List ℕ → Option A) (s : List ℕ) {a : A}
      → run r next s ≡ some a
      → Splits r next s a
  unfolding run
  run-Splits (one class) next [] h = absurd (cc h)
  run-Splits (one class) next (c ∷ s) h =
      (c ∷ [], s, refl, (c, refl, ground (arith, h)), ground (arith, h))
  run-Splits (many class) next s h = repeat-Splits class next s h
  run-Splits (seq r q) next s h =
      let (y, s', split, left, passed) = run-Splits r (run q next) s h in
      let (z, rest, split', right, at_end) = run-Splits q next s' passed in
      (
        y ++ z,
        rest,
        split ∙ (ap (λ l. y ++ l) split' ∙ sym (append_assoc y z rest)),
        (y, z, refl, left, right),
        at_end,
      )
  run-Splits (opt r) next s h = elim (first_cases (run r next s) (next s) h) [
    | inl taken ↦
        let (x, rest, split, matched, passed) = run-Splits r next s taken in
        (x, rest, split, inr matched, passed)
    | inr left ↦ ([], s, refl, inl refl, left)
  ]
  run-Splits skip next s h = ([], s, refl, refl, h)

literal_lem : (cs x : List ℕ) → Matches (literal cs) x → x ≡ cs
literal_lem [] x h = h
literal_lem (c ∷ cs) x (y, z, split, (d, one_char, same), rest) =
    let alike : d ≡ c = ground (arith, same) in
    split
    ∙ (ap (λ l. l ++ z) one_char ∙ (ap (λ e. e ∷ z) alike ∙ ap (◌∷◌ c) (literal_lem cs z rest)))

pub run-literal :
    {A : Type 0} (cs : List ℕ) (next : List ℕ → Option A) (s : List ℕ) {a : A}
    → run (literal cs) next s ≡ some a
    → (rest : List ℕ) × (s ≡ cs ++ rest) × (next rest ≡ some a)
run-literal cs next s h =
    let (x, rest, split, matched, passed) = run-Splits (literal cs) next s h in
    (rest, split ∙ ap (λ l. l ++ rest) (literal_lem cs x matched), passed)

-- Nothing, or a text that ends with a newline.
abbrev pub IsLines : List ℕ → Type 0
IsLines before = (before ≡ []) ⊎ ((most : List ℕ) × (before ≡ most ++ 10 ∷ []))

-- What stands in front of the place where a search finds its line.
abbrev Starts : Bool → List ℕ → Type 0
Starts at_line before =
    ((before ≡ []) × (at_line ≡ true)) ⊎ ((most : List ℕ) × (before ≡ most ++ 10 ∷ []))

Starts-cons :
    (c : ℕ) (at_line : Bool) (before : List ℕ)
    → Starts (nat_beq c 10) before
    → Starts at_line (c ∷ before)
Starts-cons c at_line before (inl (empty, newline)) =
    let same : c ≡ 10 = ground (arith, newline) in
    inr ([], ap (λ d. d ∷ before) same ∙ ap (◌∷◌ 10) empty)
Starts-cons c at_line before (inr (most, split)) = inr (c ∷ most, ap (◌∷◌ c) split)

search-Starts :
    (at_line : Bool) (s : List ℕ) {a : List ℕ}
    → search at_line s ≡ some a
    → (before : List ℕ) × (rest : List ℕ) × (s ≡ before ++ rest)
      × Starts at_line before
      × (match_line rest ≡ some a)
unfolding search
search-Starts at_line [] h = ([], [], refl, inl (refl, ground (arith, h)), ground (arith, h))
search-Starts at_line (c ∷ s) {a} h =
    elim (first_cases (if at_line then match_line (c ∷ s) else none) (search (nat_beq c 10) s) h) [
      | inl here ↦ ([], c ∷ s, refl, inl (refl, ground (arith, here)), ground (arith, here))
      | inr later ↦
          let (before, rest, split, starts, found) = search-Starts (nat_beq c 10) s later in
          (c ∷ before, rest, ap (◌∷◌ c) split, Starts-cons c at_line before starts, found)
    ]

-- A search that finds something finds it at the start of a line.
pub search-IsLines :
    (s : List ℕ) {a : List ℕ}
    → search true s ≡ some a
    → (before : List ℕ) × (rest : List ℕ) × (s ≡ before ++ rest)
      × IsLines before
      × (match_line rest ≡ some a)
search-IsLines s h =
    let (before, rest, split, starts, found) = search-Starts true s h in
    (before, rest, split, elim starts [ inl (empty, _) ↦ inl empty | inr lines ↦ inr lines ], found)
