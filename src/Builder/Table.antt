-- ===== src/Builder/Table.antt =====
-- What the three tables of the builder share: a dictionary from keys to identifiers beside a list
-- of records that only grows.
use cloud_profiler_python.Prelude.{
  ℕ, zero, suc, ◌+◌, ◌≤◌, ◌<◌, ◌≡◌, refl, ap, ◌∙◌, Option, none, some, List, [], ◌∷◌, ◌++◌, map,
  arith, inl, inr,
}
use cloud_profiler_python.Prelude.{
  Eq, ◌==◌, nat_beq, nat_eq, if◌then◌else◌, length, Bool-cases, Option-cases,
}
use mathlib.Core.List.{map-append}
use native.Mathlib.Numerals.{add-one}
use cloud_profiler_python.Prelude.Dict
use cloud_profiler_python.Prelude.Dict.{Dict}

-- s, s + 1, …, s + n - 1
abbrev pub count_up : ℕ → ℕ → List ℕ
count_up s zero = []
count_up s (suc n) = s ∷ count_up (suc s) n

pub count_up-suc : (s n : ℕ) → count_up s (suc n) ≡ count_up s n ++ (s + n) ∷ []
count_up-suc s zero = ap (λ (k : ℕ). k ∷ []) (omega arith)
count_up-suc s (suc n) =
    ap (◌∷◌ s) (count_up-suc (suc s) n ∙ ap (λ (k : ℕ). count_up (suc s) n ++ k ∷ []) (omega arith))

module _ {R : Type 0} (id_of : R → ℕ) where
  -- The record with an identifier, as a reader of the profile finds it.
  unfoldable pub find : ℕ → List R → Option R
  find i [] = none
  find i (r ∷ rs) = if nat_beq (id_of r) i then some r else find i rs

  pub find-append :
      (i : ℕ) (rs ss : List R) {r : R} → find i rs ≡ some r → find i (rs ++ ss) ≡ some r
  unfolding find
  find-append i [] ss h = cc
  find-append i (q ∷ rs) ss {r} h = ground (arith, find-append i rs ss {r = r})

  pub find-append_none :
      (i : ℕ) (rs : List R) (r : R)
      → find i rs ≡ none
      → find i (rs ++ r ∷ []) ≡ (if nat_beq (id_of r) i then some r else none)
  unfolding find
  find-append_none i [] r h = refl
  find-append_none i (q ∷ rs) r h = ground (arith, find-append_none i rs r)

  -- An identifier above the ones in use is not found.
  pub find_above :
      (s i : ℕ) (n : ℕ) (rs : List R) → map id_of rs ≡ count_up s n → s + n ≤ i → find i rs ≡ none
  unfolding find
  find_above s i n [] e h = refl
  find_above s i zero (r ∷ rs) e h = cc
  find_above s i (suc n) (r ∷ rs) e h = ground (arith, find_above (suc s) i n rs)

  pub find-id : (i : ℕ) (rs : List R) {r : R} → find i rs ≡ some r → id_of r ≡ i
  unfolding find
  find-id i [] h = cc
  find-id i (q ∷ rs) {r} h = ground (arith, find-id i rs {r = r})

  -- The identifiers that are found are s, …, s + n - 1.
  pub find_bounds :
      (s i : ℕ) (n : ℕ) (rs : List R) {r : R}
      → map id_of rs ≡ count_up s n
      → find i rs ≡ some r
      → (s ≤ i) × (i < s + n)
  unfolding find
  find_bounds s i n [] e h = cc
  find_bounds s i zero (r ∷ rs) e h = cc
  find_bounds s i (suc n) (q ∷ rs) {r} e h = ground (arith, find_bounds (suc s) i n rs {r = r})

module _ {K R : Type 0} ⦃e : Eq K⦄ (id_of : R → ℕ) (make : K → ℕ → R) where
  -- The dictionary and the records say the same, and the identifiers are 1, …, n in order.
  pub record IsInterned (d : Dict K ℕ) (rs : List R) : Type 0 where
    pub ids : map id_of rs ≡ count_up 1 (length d)
    pub sound : (k : K) (i : ℕ) → Dict.get d k ≡ some i → find id_of i rs ≡ some (make k i)
    pub complete :
        (i : ℕ) (r : R)
        → find id_of i rs ≡ some r
        → (k : K) × (Dict.get d k ≡ some i) × (r ≡ make k i)

module _ {K R : Type 0} ⦃e : Eq K⦄ (id_of : R → ℕ) (make : K → ℕ → R)
    (id_of-make : (k : K) (i : ℕ) → id_of (make k i) ≡ i) where
  pub IsInterned-nil : IsInterned id_of make [] []
  unfolding Dict.get find
  IsInterned-nil = record { ids = refl; sound = λ k i h. cc; complete = λ i r h. absurd (cc h) }

  module _ (d : Dict K ℕ) (rs : List R) (t : IsInterned id_of make d rs) (k : K)
      (fresh : Dict.get d k ≡ none) where
    find_fresh : find id_of (length d + 1) rs ≡ none
    find_fresh = find_above id_of 1 (length d + 1) (length d) rs t.ids (omega arith)

    pub find-intern :
        find id_of (length d + 1) (rs ++ make k (length d + 1) ∷ []) ≡ some (make k (length d + 1))
    find-intern =
        find-append_none id_of (length d + 1) rs (make k (length d + 1)) find_fresh
        ∙ ground (arith, id_of-make k (length d + 1))

    found : ℕ → Option R
    found i = find id_of i (rs ++ make k (length d + 1) ∷ [])

    found_old : (i : ℕ) {r : R} → find id_of i rs ≡ some r → found i ≡ some r
    unfolding found
    found_old i h = find-append id_of i rs (make k (length d + 1) ∷ []) h

    -- The only identifier that is new is the next one.
    pub id-intern_new :
        (i : ℕ) (r : R)
        → find id_of i rs ≡ none
        → find id_of i (rs ++ make k (length d + 1) ∷ []) ≡ some r
        → i ≡ length d + 1
    id-intern_new i r absent present = ground (
      arith,
      find-append_none id_of i rs (make k (length d + 1)) absent,
      id_of-make k (length d + 1),
    )

    ids_intern :
        map id_of (rs ++ make k (length d + 1) ∷ [])
        ≡ count_up 1 (length (Dict.insert k (length d + 1) d))
    ids_intern =
        rw
          (
            map-append,
            t.ids,
            id_of-make,
            Dict.length-insert k (length d + 1) d fresh,
            add-one,
            count_up-suc,
          )
          (ap (λ (i : ℕ). count_up 1 (length d) ++ i ∷ []) (omega arith))

    sound_intern :
        (j : K) (i : ℕ)
        → Dict.get (Dict.insert k (length d + 1) d) j ≡ some i
        → found i ≡ some (make j i)
    unfolding found
    sound_intern j i h = elim (Bool-cases (j == k)) [
      | inl same ↦ ground (arith, Dict.get-insert k j (length d + 1) d, e.beq_iff j k, find-intern)
      | inr other ↦ found_old i (t.sound j i (ground (arith, Dict.get-insert k j (length d + 1) d)))
    ]

    complete_intern :
        (i : ℕ) (r : R)
        → found i ≡ some r
        → (j : K) × (Dict.get (Dict.insert k (length d + 1) d) j ≡ some i) × (r ≡ make j i)
    unfolding found
    complete_intern i r h = elim (Option-cases (find id_of i rs)) [
      | inl absent ↦
          let new = id-intern_new i r absent h in
          (
            k,
            ground (arith, new, Dict.get-insert k k (length d + 1) d, e.beq_iff k k),
            ground (arith, new, find-intern),
          )
      | inr (q, present) ↦
          let (j, got, made) = t.complete i q present in
          (
            j,
            ground (arith, got, Dict.get-insert k j (length d + 1) d, e.beq_iff j k),
            ground (arith, found_old i present),
          )
    ]

    -- A key that is new gets the next identifier, and the table stays in order.
    pub IsInterned-intern :
        IsInterned id_of make (Dict.insert k (length d + 1) d) (rs ++ make k (length d + 1) ∷ [])
    unfolding found
    IsInterned-intern = record {
      ids = ids_intern;
      sound = sound_intern;
      complete = complete_intern;
    }
