-- ===== src/Client/Config/Segment.antt =====
-- googlecloudprofiler/client.py: the zone is what stands behind the last slash.
use cloud_profiler_python.Prelude.{
  ℕ, ◌≡◌, refl, ap, ◌∙◌, sym, List, [], ◌∷◌, ◌++◌, true, false, ◌⊎◌, inl, inr, String,
}
use cloud_profiler_python.Prelude.{
  nat_eq, string_eq, if◌then◌else◌, Bool-cases, nat_beq, nat_beq_iff, All,
}
use mathlib.Core.Path.{subst}
use mathlib.Core.List.{append-nil, append_assoc}
use Prim.Native.Char.{code}
use cloud_profiler_python.Client.ServiceName.{codes}
use cloud_profiler_python.Client.Config.{after_slash, last_segment}

abbrev pub IsSlashless : List ℕ → Type 0
IsSlashless = All (λ c. nat_beq c b'/' ≡ false)

-- A suffix that is all of a text, or what stands behind one of its slashes.
abbrev pub IsSegment : List ℕ → List ℕ → Type 0
IsSegment text suffix = (text ≡ suffix) ⊎ ((before : List ℕ) × (text ≡ before ++ b'/' ∷ suffix))

IsSlashless-append :
    (xs : List ℕ) (c : ℕ) → IsSlashless xs → nat_beq c b'/' ≡ false → IsSlashless (xs ++ c ∷ [])
IsSlashless-append [] c all one = (one, tt)
IsSlashless-append (x ∷ xs) c all one = (all.0, IsSlashless-append xs c all.1 one)

IsSegment-behind :
    (mid text suffix : List ℕ) (c : ℕ)
    → nat_beq c b'/' ≡ true
    → IsSegment text suffix
    → IsSegment (mid ++ c ∷ text) suffix
IsSegment-behind mid text suffix c slash (inl e) =
    let same : c ≡ b'/' = (nat_beq_iff c b'/').0 slash in inr (mid, rw (same, e))
IsSegment-behind mid text suffix c slash (inr (before, e)) =
    let same : c ≡ b'/' = (nat_beq_iff c b'/').0 slash in
    inr (mid ++ b'/' ∷ before, rw (same, e, append_assoc))

-- What `after_slash` comes to.
abbrev Claim : String → String → Type 0
Claim kept s =
    IsSlashless (codes (after_slash kept s)) × IsSegment (codes kept) (codes (after_slash kept s))

after_slash-segment :
    (kept s : String) (mid : List ℕ) → codes kept ≡ mid ++ codes s → IsSlashless mid → Claim kept s
unfolding after_slash
after_slash-segment kept String.[] mid e all =
    let same : codes kept ≡ mid = e ∙ append-nil mid in (subst IsSlashless (sym same) all, inl refl)
after_slash-segment kept (String.◌∷◌ c s) mid e all =
    elim (Bool-cases (nat_beq (code c) b'/')) as (λ _. Claim kept (String.◌∷◌ c s)) [
      | inl slash ↦
          let (none_left, segment) = after_slash-segment s s [] refl tt in
          let step = ap (λ b. after_slash (if b then s else kept) s) slash in
          (
            subst (λ t. IsSlashless (codes t)) (sym step) none_left,
            subst (λ t. IsSegment (codes kept) (codes t)) (sym step)
                (subst (λ text. IsSegment text (codes (after_slash s s))) (sym e)
                  (IsSegment-behind mid (codes s) (codes (after_slash s s)) (code c) slash
                    segment)),
          )
      | inr other ↦
          let (none_left, segment) =
            after_slash-segment kept s (mid ++ code c ∷ [])
              (e ∙ sym (append_assoc mid (code c ∷ []) (codes s)))
              (IsSlashless-append mid (code c) all other) in
          let step = ap (λ b. after_slash (if b then s else kept) s) other in
          (
            subst (λ t. IsSlashless (codes t)) (sym step) none_left,
            subst (λ t. IsSegment (codes kept) (codes t)) (sym step) segment,
          )
    ]

-- The zone of an instance is the part of the metadata value behind its last slash, or all of it: it
-- holds no slash.
pub last_segment-IsSegment :
    (s : String)
    → IsSlashless (codes (last_segment s)) × IsSegment (codes s) (codes (last_segment s))
unfolding last_segment
last_segment-IsSegment s = after_slash-segment s s [] refl tt
