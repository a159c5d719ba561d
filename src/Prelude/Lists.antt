-- ===== src/Prelude/Lists.antt =====
-- Lists measured and indexed by native numbers, under the library's names.
use Prim.Native.Nat.{ℕ, zero, suc, ◌+◌, ◌≤◌, ◌<◌}
use mathlib.Core.Path.{◌≡◌, refl, ap, subst}
use mathlib.Core.Logic.{◌⊎◌, inl, inr, ◌≢◌}
use mathlib.Core.List.{List, [], ◌∷◌, ◌++◌}
use mathlib.Core.Option.{Option, none, some}
use native.Mathlib.Omega.{arith}

module _ {ℓ} {A : Type ℓ} where
  abbrev pub length : List A → ℕ
  length [] = 0
  length (x ∷ xs) = suc (length xs)

  abbrev pub get_elem? : List A → ℕ → Option A
  get_elem? [] i = none
  get_elem? (x ∷ xs) zero = some x
  get_elem? (x ∷ xs) (suc i) = get_elem? xs i

  abbrev pub take : ℕ → List A → List A
  take zero xs = []
  take (suc n) [] = []
  take (suc n) (x ∷ xs) = x ∷ take n xs

  pub length-append : (xs ys : List A) → length (xs ++ ys) ≡ length xs + length ys
  length-append [] ys = omega arith
  length-append (x ∷ xs) ys = omega (arith, length-append xs ys)

  -- A list that is short enough is taken as a whole.
  pub take_all : (n : ℕ) (xs : List A) → length xs ≤ n → take n xs ≡ xs
  take_all zero [] h = refl
  take_all zero (x ∷ xs) h = absurd (omega arith)
  take_all (suc n) [] h = refl
  take_all (suc n) (x ∷ xs) h = ap (◌∷◌ x) (take_all n xs (omega arith))

  pub length-take-le : (n : ℕ) (xs : List A) → length (take n xs) ≤ n
  length-take-le zero xs = omega arith
  length-take-le (suc n) [] = omega arith
  length-take-le (suc n) (x ∷ xs) = omega (arith, length-take-le n xs)

  -- What stands in a list stands at the same place after an append.
  pub get_elem?-append :
      (xs ys : List A) (i : ℕ) {a : A} → get_elem? xs i ≡ some a → get_elem? (xs ++ ys) i ≡ some a
  get_elem?-append [] ys i h = cc
  get_elem?-append (x ∷ xs) ys zero h = h
  get_elem?-append (x ∷ xs) ys (suc i) h = get_elem?-append xs ys i h

  pub get_elem?-append_last : (xs : List A) (a : A) → get_elem? (xs ++ a ∷ []) (length xs) ≡ some a
  get_elem?-append_last [] a = refl
  get_elem?-append_last (x ∷ xs) a = get_elem?-append_last xs a

module _ {ℓ} {A : Type ℓ} where
  -- What stands in a list with one more element stood there before, or is that element.
  pub get_elem?-append_cases :
      (xs : List A) (a : A) (i : ℕ) {t : A}
      → get_elem? (xs ++ a ∷ []) i ≡ some t
      → (get_elem? xs i ≡ some t) ⊎ ((i ≡ length xs) × (t ≡ a))
  get_elem?-append_cases [] a zero h = inr (refl, cc)
  get_elem?-append_cases [] a (suc i) h = absurd (cc)
  get_elem?-append_cases (x ∷ xs) a zero h = inl h
  get_elem?-append_cases (x ∷ xs) a (suc i) h = elim (get_elem?-append_cases xs a i h) [
    | inl old ↦ inl old
    | inr (last, new) ↦ inr (ap suc last, new)
  ]

abbrev pub All {ℓ κ} : {A : Type ℓ} → (A → Type κ) → List A → Type κ
All P [] = Unit
All P (x ∷ xs) = P x × All P xs

module _ {ℓ} {A : Type ℓ} where
  unfoldable pub replicate : ℕ → A → List A
  replicate zero a = []
  replicate (suc n) a = a ∷ replicate n a

  -- The list with another element at one place; out of range it stays as it is.
  abbrev pub set : List A → ℕ → A → List A
  set [] i b = []
  set (x ∷ xs) zero b = b ∷ xs
  set (x ∷ xs) (suc i) b = x ∷ set xs i b

  pub length-replicate : (n : ℕ) (a : A) → length (replicate n a) ≡ n
  unfolding replicate
  length-replicate zero a = refl
  length-replicate (suc n) a = ap suc (length-replicate n a)

  pub get_elem?-replicate :
      (n i : ℕ) (a : A)
      → (get_elem? (replicate n a) i ≡ none) ⊎ (get_elem? (replicate n a) i ≡ some a)
  unfolding replicate
  get_elem?-replicate zero i a = inl refl
  get_elem?-replicate (suc n) zero a = inr refl
  get_elem?-replicate (suc n) (suc i) a = get_elem?-replicate n i a

  pub length-set : (xs : List A) (i : ℕ) (b : A) → length (set xs i b) ≡ length xs
  length-set [] i b = refl
  length-set (x ∷ xs) zero b = refl
  length-set (x ∷ xs) (suc i) b = ap suc (length-set xs i b)

  -- At a place that is there, the new element; everywhere else, what was there.
  pub get_elem?-set :
      (xs : List A) (i : ℕ) (b : A) {a : A}
      → get_elem? xs i ≡ some a
      → get_elem? (set xs i b) i ≡ some b
  get_elem?-set [] i b h = absurd (cc h)
  get_elem?-set (x ∷ xs) zero b h = refl
  get_elem?-set (x ∷ xs) (suc i) b h = get_elem?-set xs i b h

  pub get_elem?-set_other :
      (xs : List A) (i j : ℕ) (b : A) → i ≢ j → get_elem? (set xs i b) j ≡ get_elem? xs j
  get_elem?-set_other [] i j b other = refl
  get_elem?-set_other (x ∷ xs) zero zero b other = absurd (other refl)
  get_elem?-set_other (x ∷ xs) zero (suc j) b other = refl
  get_elem?-set_other (x ∷ xs) (suc i) zero b other = refl
  get_elem?-set_other (x ∷ xs) (suc i) (suc j) b other =
      get_elem?-set_other xs i j b (λ same. other (ap suc same))

  pub get_elem?-lt : (xs : List A) (i : ℕ) → i < length xs → (a : A) × (get_elem? xs i ≡ some a)
  get_elem?-lt [] i h = absurd (omega arith)
  get_elem?-lt (x ∷ xs) zero h = (x, refl)
  get_elem?-lt (x ∷ xs) (suc i) h = get_elem?-lt xs i (omega arith)

pub All-weaken {ℓ κ μ} :
    {A : Type ℓ} {P : A → Type κ} {Q : A → Type μ}
    → ((a : A) → P a → Q a)
    → (xs : List A) → All P xs
    → All Q xs
All-weaken f [] all = tt
All-weaken f (x ∷ xs) all = (f x all.0, All-weaken f xs all.1)

pub All-zip {ℓ κ μ ν} :
    {A : Type ℓ} {P : A → Type κ} {Q : A → Type μ} {R : A → Type ν}
    → ((a : A) → P a → Q a → R a)
    → (xs : List A) → All P xs
    → All Q xs
    → All R xs
All-zip f [] all also = tt
All-zip f (x ∷ xs) all also = (f x all.0 also.0, All-zip f xs all.1 also.1)

pub All-set {ℓ κ} :
    {A : Type ℓ} (P : A → Type κ) (xs : List A) (i : ℕ) (b : A)
    → All P xs
    → P b
    → All P (set xs i b)
All-set P [] i b all new = tt
All-set P (x ∷ xs) zero b all new = (new, all.1)
All-set P (x ∷ xs) (suc i) b all new = (all.0, All-set P xs i b all.1 new)

pub All-get_elem? {ℓ κ} :
    {A : Type ℓ} (P : A → Type κ) (xs : List A) (i : ℕ) {a : A}
    → All P xs
    → get_elem? xs i ≡ some a
    → P a
All-get_elem? P [] i all h = absurd (cc h)
All-get_elem? P (x ∷ xs) zero all h = subst P (cc) all.0
All-get_elem? P (x ∷ xs) (suc i) all h = All-get_elem? P xs i all.1 h

pub All-replicate {ℓ κ} :
    {A : Type ℓ} (P : A → Type κ) (n : ℕ) (a : A) → P a → All P (replicate n a)
unfolding replicate
All-replicate P zero a h = tt
All-replicate P (suc n) a h = (h, All-replicate P n a h)
