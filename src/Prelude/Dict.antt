-- ===== src/Prelude/Dict.antt =====
-- Python's `dict` as its entries in insertion order.
use cloud_profiler_python.Prelude.{
  ℕ, ◌+◌, ◌≡◌, refl, ap, ◌∙◌, Bool, true, false, Option, none, some, List, [], ◌∷◌, arith,
}
use cloud_profiler_python.Prelude.{
  Eq, ◌==◌, if◌then◌else◌, length, Option-cases, Bool-cases, inl, inr,
}
use mathlib.Core.Logic.{∥∥₁_elim}
use mathlib.Core.List.{Perm, Permᴰ}

abbrev pub Dict {ℓ κ} : Type ℓ → Type κ → Type (ℓ ⊔ κ)
Dict K V = List (K × V)

-- `list(d.keys())`
abbrev pub keys {ℓ κ} : {K : Type ℓ} {V : Type κ} → Dict K V → List K
keys [] = []
keys ((k, _) ∷ d) = k ∷ keys d

module _ {ℓ κ} {K : Type ℓ} {V : Type κ} ⦃e : Eq K⦄ where
  -- `d.get(k)`
  unfoldable pub get : Dict K V → K → Option V
  get [] k = none
  get ((j, v) ∷ d) k = if k == j then some v else get d k

  -- `d[k] = v`: an old key keeps its place.
  unfoldable pub insert : K → V → Dict K V → Dict K V
  insert k v [] = (k, v) ∷ []
  insert k v ((j, w) ∷ d) = if k == j then (j, v) ∷ d else (j, w) ∷ insert k v d

  -- `k in d`
  abbrev pub contains : Dict K V → K → Bool
  contains d k = elim (get d k) [ none ↦ false | some _ ↦ true ]

  pub get-insert :
      (k j : K) (v : V) (d : Dict K V) → get (insert k v d) j ≡ (if j == k then some v else get d j)
  unfolding get insert
  get-insert k j v [] = refl
  get-insert k j v ((i, w) ∷ d) =
      ground (arith, e.beq_iff k j, e.beq_iff k i, e.beq_iff j i, e.beq_iff j k, get-insert k j v d)

  -- A new key makes the dictionary one entry longer.
  pub length-insert :
      (k : K) (v : V) (d : Dict K V) → get d k ≡ none → length (insert k v d) ≡ length d + 1
  unfolding get insert
  length-insert k v [] h = omega arith
  length-insert k v ((i, w) ∷ d) h = ground (arith, length-insert k v d)

-- The sum of the values.
abbrev pub total {ℓ} : {K : Type ℓ} → Dict K ℕ → ℕ
total [] = 0
total ((_, n) ∷ d) = n + total d

module _ {ℓ} {K : Type ℓ} ⦃e : Eq K⦄ where
  pub total-insert_new :
      (k : K) (n : ℕ) (d : Dict K ℕ) → get d k ≡ none → total (insert k n d) ≡ total d + n
  unfolding get insert
  total-insert_new k n [] h = omega arith
  total-insert_new k n ((j, m) ∷ d) h = ground (arith, total-insert_new k n d)

  pub total-insert_old :
      (k : K) (n c : ℕ) (d : Dict K ℕ) → get d k ≡ some c → total (insert k n d) + c ≡ total d + n
  unfolding get insert
  total-insert_old k n c [] h = cc
  total-insert_old k n c ((j, m) ∷ d) h = ground (arith, total-insert_old k n c d)

-- A dictionary that counts its keys.
module _ {ℓ} {K : Type ℓ} ⦃e : Eq K⦄ where
  -- How often a key was counted.
  abbrev pub tally_of : Dict K ℕ → K → ℕ
  tally_of d k = elim (get d k) [ none ↦ 0 | some n ↦ n ]

  -- `d[k] += n`, from 0
  unfoldable pub tally : K → ℕ → Dict K ℕ → Dict K ℕ
  tally k n d = insert k (elim (get d k) [ none ↦ n | some c ↦ c + n ]) d

  pub tally_of-tally :
      (k j : K) (n : ℕ) (d : Dict K ℕ)
      → tally_of (tally k n d) j ≡ (if j == k then tally_of d j + n else tally_of d j)
  unfolding tally
  tally_of-tally k j n d =
      ground (arith, get-insert k j n d, get-insert k j (tally_of d k + n) d, e.beq_iff j k)

  pub total-tally : (k : K) (n : ℕ) (d : Dict K ℕ) → total (tally k n d) ≡ total d + n
  unfolding tally
  total-tally k n d = elim (Option-cases (get d k)) [
    | inl fresh ↦ ground (arith, fresh, total-insert_new k n d)
    | inr (c, old) ↦ ground (arith, old, total-insert_old k (c + n) c d)
  ]

-- The sum of the values under the keys with a property.
abbrev pub total_of {ℓ} : {K : Type ℓ} → (K → Bool) → Dict K ℕ → ℕ
total_of p [] = 0
total_of p ((k, n) ∷ d) = (if p k then n else 0) + total_of p d

module _ {ℓ} {K : Type ℓ} ⦃e : Eq K⦄ (p : K → Bool) where
  same_property : (k j : K) → (k == j) ≡ true → p k ≡ p j
  same_property k j same = ap p ((e.beq_iff k j).0 same)

  total_of-insert_new :
      (k : K) (n : ℕ) (d : Dict K ℕ)
      → get d k ≡ none
      → total_of p (insert k n d) ≡ total_of p d + (if p k then n else 0)
  unfolding get insert
  total_of-insert_new k n [] h = omega arith
  total_of-insert_new k n ((j, m) ∷ d) h = ground (arith, total_of-insert_new k n d)

  total_of-insert_old :
      (k : K) (n c : ℕ) (d : Dict K ℕ)
      → get d k ≡ some c
      → total_of p (insert k n d) + (if p k then c else 0) ≡ total_of p d + (if p k then n else 0)
  unfolding get insert
  total_of-insert_old k n c [] h = absurd (cc h)
  total_of-insert_old k n c ((j, m) ∷ d) h = elim (Bool-cases (k == j)) [
    | inl same ↦ ground (arith, h, same, same_property k j same)
    | inr other ↦ ground (arith, h, other, total_of-insert_old k n c d)
  ]

  pub total_of-tally :
      (k : K) (n : ℕ) (d : Dict K ℕ)
      → total_of p (tally k n d) ≡ total_of p d + (if p k then n else 0)
  unfolding tally
  total_of-tally k n d = elim (Option-cases (get d k)) [
    | inl fresh ↦ ground (arith, fresh, total_of-insert_new k n d)
    | inr (c, old) ↦ ground (arith, old, total_of-insert_old k (c + n) c d)
  ]

module _ {K : Type 0} (p : K → Bool) where
  total_of-entry : {x y : K × ℕ} → x ≡ y → (if p x.0 then x.1 else 0) ≡ (if p y.0 then y.1 else 0)
  total_of-entry e = ap (λ x. if p x.0 then x.1 else 0) e

  total_of-Permᴰ : {d e : Dict K ℕ} → Permᴰ d e → total_of p d ≡ total_of p e
  total_of-Permᴰ Permᴰ.nil = refl
  total_of-Permᴰ (Permᴰ.cons same rest) = omega (arith, total_of-entry same, total_of-Permᴰ rest)
  total_of-Permᴰ (Permᴰ.swap first second) =
      omega (arith, total_of-entry first, total_of-entry second)
  total_of-Permᴰ (Permᴰ.trans first second) = total_of-Permᴰ first ∙ total_of-Permᴰ second

  pub total_of-Perm : {d e : Dict K ℕ} → Perm d e → total_of p d ≡ total_of p e
  total_of-Perm perm = ∥∥₁_elim perm (hlevel) total_of-Permᴰ
