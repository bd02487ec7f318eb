-- ===== src/Migrations/Versions.antt =====
-- The versions of a map, and membership in a list of versions.
use velm.Base.{
  true, ◌≡◌, inl, inr, refl, sym, ◌∙◌, Bool-cases, is_some, List, [], ◌∷◌, Text, ◌==◌, eq_iff, any,
  All, lookup, text_lt, sort_by-any, sort_by-All,
}
use mathlib.Core.Path.{subst}
use velm.Migrations.{keys, ordered_versions}

-- `v` is one of the versions.
abbrev pub IsElement : Text → List Text → Type 0
IsElement v versions = any (λ w. w == v) versions ≡ true

pub element-All :
    (P : Text → Type 0) (v : Text) (versions : List Text)
    → IsElement v versions
    → All P versions
    → P v
element-All P v [] e h = cc
element-All P v (w ∷ versions) e (p, h) = elim (Bool-cases (w == v)) [
  | inl same ↦ subst P ((eq_iff w v).0 same) p
  | inr other ↦ element-All P v versions (rw other at e) h
]

module _ {ℓ} {V : Type ℓ} where
  pub lookup-keys :
      (v : Text) (m : List (Text × V)) → is_some (lookup v m) ≡ any (λ w. w == v) (keys m)
  unfolding lookup keys
  lookup-keys v [] = refl
  lookup-keys v ((k, x) ∷ m) = elim (Bool-cases (k == v)) [
    | inl e ↦ rw e refl
    | inr e ↦ rw e (lookup-keys v m)
  ]

  -- Every key is one of the ordered versions.
  pub lookup-ordered :
      (v : Text) (m : List (Text × V))
      → is_some (lookup v m) ≡ true
      → IsElement v (ordered_versions m)
  unfolding ordered_versions
  lookup-ordered v m h = sort_by-any text_lt (λ w. w == v) (keys m) ∙ sym (lookup-keys v m) ∙ h

  some-weaken :
      (k : Text) (x : V) (m : List (Text × V)) (versions : List Text)
      → All (λ v. is_some (lookup v m) ≡ true) versions
      → All (λ v. is_some (lookup v ((k, x) ∷ m)) ≡ true) versions
  unfolding lookup
  some-weaken k x m [] h = tt
  some-weaken k x m (v ∷ versions) (p, h) = elim (Bool-cases (k == v)) [
    | inl e ↦ (rw e refl, some-weaken k x m versions h)
    | inr e ↦ (rw e p, some-weaken k x m versions h)
  ]

  keys-All : (m : List (Text × V)) → All (λ v. is_some (lookup v m) ≡ true) (keys m)
  unfolding lookup keys
  keys-All [] = tt
  keys-All ((k, x) ∷ m) = (rw ((eq_iff k k).1 refl) refl, some-weaken k x m (keys m) (keys-All m))

  pub ordered-All :
      (m : List (Text × V)) → All (λ v. is_some (lookup v m) ≡ true) (ordered_versions m)
  unfolding ordered_versions
  ordered-All m = sort_by-All text_lt _ (keys m) (keys-All m)
