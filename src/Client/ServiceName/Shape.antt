-- ===== src/Client/ServiceName/Shape.antt =====
-- googlecloudprofiler/client.py: which service names `config` accepts.
use cloud_profiler_python.Prelude.{
  ℕ, zero, suc, ◌≤◌, ◌≡◌, refl, ap, ◌∙◌, sym, Bool, List, [], ◌∷◌, ◌++◌, arith, true, false, ◌&&◌,
  ◌||◌, ◌⊎◌, inl, inr, ◌↔◌,
}
use cloud_profiler_python.Prelude.{nat_eq, string_eq, length, Bool-cases, All}
use mathlib.Core.List.{append_assoc}
use cloud_profiler_python.Client.ServiceName.{
  one, end, repeat, at_end, run, is_alnum, is_inner, matches,
}

abbrev pub AllTrue : (ℕ → Bool) → List ℕ → Type 0
AllTrue p = All (λ c. p c ≡ true)

-- The names that the expression describes, of 1 to 255 characters.
pub data IsName : List ℕ → Type 0 where
  short : (c : ℕ) → is_alnum c ≡ true → IsName (c ∷ [])
  long :
      (c d : ℕ) (inner name : List ℕ)
      → is_alnum c ≡ true
      → AllTrue is_inner inner
      → length inner ≤ 253
      → is_alnum d ≡ true
      → name ≡ c ∷ (inner ++ d ∷ [])
      → IsName name

module _ (class : ℕ → Bool) (next : List ℕ → Bool) where
  repeat_sound :
      (n : ℕ) (s : List ℕ)
      → repeat class next n s ≡ true
      → (inner : List ℕ) × (rest : List ℕ) × (s ≡ inner ++ rest)
        × AllTrue class inner
        × (length inner ≤ n)
        × (next rest ≡ true)
  unfolding repeat
  repeat_sound zero s h = ([], s, refl, tt, omega arith, h)
  repeat_sound (suc n) [] h = ([], [], refl, tt, omega arith, h)
  repeat_sound (suc n) (c ∷ s) h = elim (Bool-cases (class c && repeat class next n s)) [
    | inl more ↦
        let (inner, rest, split, all, fits, passed) = repeat_sound n s (ground arith) in
        (c ∷ inner, rest, ap (◌∷◌ c) split, (ground arith, all), omega arith, passed)
    | inr stop ↦ ([], c ∷ s, refl, tt, omega arith, ground arith)
  ]

  repeat_complete :
      (n : ℕ) (inner rest : List ℕ)
      → AllTrue class inner
      → length inner ≤ n
      → next rest ≡ true
      → repeat class next n (inner ++ rest) ≡ true
  unfolding repeat
  repeat_complete zero [] rest all fits passed = passed
  repeat_complete (suc n) [] [] all fits passed = passed
  repeat_complete (suc n) [] (c ∷ rest) all fits passed = ground arith
  repeat_complete zero (c ∷ inner) rest all fits passed = absurd (omega arith)
  repeat_complete (suc n) (c ∷ inner) rest all fits passed =
      ground (arith, all.0, repeat_complete n inner rest all.1 (omega arith) passed)

-- What stands behind a name: nothing, or one newline.
abbrev pub IsEnd : List ℕ → Type 0
IsEnd rest = (rest ≡ []) ⊎ (rest ≡ 10 ∷ [])

at_end_iff : (s : List ℕ) → (at_end s ≡ true) ↔ IsEnd s
unfolding at_end
at_end_iff [] = (λ h. inl refl, λ h. refl)
at_end_iff (c ∷ []) = ground arith
at_end_iff (c ∷ d ∷ s) = (λ h. absurd (cc h), λ h. ground arith)

-- The part of the expression behind the inner characters.
abbrev last_part : List ℕ → Bool
last_part = run (one is_alnum) (run end (λ rest. true))

last_part_sound :
    (s : List ℕ)
    → last_part s ≡ true
    → (d : ℕ) × (rest : List ℕ) × (s ≡ d ∷ rest) × (is_alnum d ≡ true) × IsEnd rest
unfolding run
last_part_sound [] h = absurd (cc h)
last_part_sound (d ∷ rest) h = (d, rest, refl, ground arith, (at_end_iff rest).0 (ground arith))

last_part_complete :
    (d : ℕ) (rest : List ℕ) → is_alnum d ≡ true → IsEnd rest → last_part (d ∷ rest) ≡ true
unfolding run
last_part_complete d rest alnum ends = rw (alnum, (at_end_iff rest).1 ends)

abbrev tail_part : List ℕ → Bool
tail_part s = repeat is_inner last_part 253 s || (at_end s && true)

matches-cons : (c : ℕ) (s : List ℕ) → matches (c ∷ s) ≡ (is_alnum c && tail_part s)
unfolding matches run
matches-cons c s = refl

matches-nil : matches [] ≡ false
unfolding matches run
matches-nil = refl

abbrev Splits : List ℕ → Type 0
Splits s = (name : List ℕ) × (rest : List ℕ) × (s ≡ name ++ rest) × IsName name × IsEnd rest

matches_sound : (s : List ℕ) → matches s ≡ true → Splits s
matches_sound [] h = absurd (cc (h, matches-nil))
matches_sound (c ∷ s) h = elim (Bool-cases (repeat is_inner last_part 253 s)) [
  | inl long_name ↦
      let (inner, rest, split, all, fits, passed) =
        repeat_sound is_inner last_part 253 s long_name in
      let (d, behind, last, alnum, ends) = last_part_sound rest passed in
      (
        c ∷ (inner ++ d ∷ []),
        behind,
        ap (◌∷◌ c) (split ∙ ap (◌++◌ inner) last ∙ sym (append_assoc inner (d ∷ []) behind)),
        long c d inner (c ∷ (inner ++ d ∷ [])) (ground (arith, h, matches-cons c s)) all fits alnum
            refl,
        ends,
      )
  | inr not_long ↦ (
    c ∷ [],
    s,
    refl,
    short c (ground (arith, h, matches-cons c s)),
    (at_end_iff s).0 (ground (arith, h, not_long, matches-cons c s)),
  )
]

matches_complete : (name rest : List ℕ) → IsName name → IsEnd rest → matches (name ++ rest) ≡ true
matches_complete name rest (short c alnum) ends =
    rw (matches-cons, alnum, (at_end_iff rest).1 ends) (ground arith)
matches_complete name rest (long c d inner _ first all fits last e) ends = rw (
  e,
  matches-cons,
  append_assoc,
  first,
  repeat_complete is_inner last_part 253 inner (d ∷ rest) all fits
      (last_part_complete d rest last ends),
)

-- `service_re` matches a text exactly if it is a name of 1 to 255 characters (the first and the last one
-- of a-z and 0-9, those between of a-z, 0-9, `-`, `_` and `.`), or such a name and a newline.
pub matches_iff :
    (s : List ℕ)
    → (matches s ≡ true)
      ↔ ((name : List ℕ) × (rest : List ℕ) × (s ≡ name ++ rest) × IsName name × IsEnd rest)
matches_iff s = (
  matches_sound s,
  λ (name, rest, split, named, ends). rw split (matches_complete name rest named ends),
)
