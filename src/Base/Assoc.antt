-- ===== src/Base/Assoc.antt =====
-- Go maps as association lists. An iteration goes through the list in its order; theorems range
-- over all lists, so over every order of iteration.
use mathlib.Core.Path.{◌≡◌, refl}
use mathlib.Core.Option.{Option, none, some}
use mathlib.Core.List.{List, [], ◌∷◌}
use native.Mathlib.Omega.{arith}
use mathlib.Core.Logic.{inl, inr}
use velm.Base.Core.{if◌then◌else◌, Bool-cases}
use velm.Base.Texts.{Text, ◌==◌, eq_iff}

module _ {ℓ} {V : Type ℓ} where
  unfoldable pub lookup : Text → List (Text × V) → Option V
  lookup k [] = none
  lookup k ((j, v) ∷ m) = if j == k then some v else lookup k m

  unfoldable pub insert : Text → V → List (Text × V) → List (Text × V)
  insert k v [] = (k, v) ∷ []
  insert k v ((j, w) ∷ m) = if j == k then (k, v) ∷ m else (j, w) ∷ insert k v m

  unfoldable pub remove : Text → List (Text × V) → List (Text × V)
  remove k [] = []
  remove k ((j, w) ∷ m) = if j == k then remove k m else (j, w) ∷ remove k m

  -- A lookup after an insertion at `new` sees the inserted value there, and else what was there.
  pub lookup-insert :
      (new key : Text) (value : V) (entries : List (Text × V))
      → lookup key (insert new value entries)
        ≡ (if new == key then some value else lookup key entries)
  unfolding insert lookup
  lookup-insert new key value [] = refl
  lookup-insert new key value ((old, other) ∷ entries) =
      ground
        (lookup-insert new key value entries, eq_iff old key, eq_iff old new, eq_iff new key, arith)

  pub lookup-remove :
      (k j : Text) (m : List (Text × V))
      → lookup j (remove k m) ≡ (if k == j then none else lookup j m)
  unfolding lookup remove
  lookup-remove k j [] = ground arith
  lookup-remove k j ((i, w) ∷ m) =
      ground (arith, eq_iff k j, eq_iff i k, eq_iff i j, lookup-remove k j m)

-- No key stands twice in a map.
module _ {ℓ} {V : Type ℓ} where
  abbrev pub HasKeysOnce : List (Text × V) → Type ℓ
  HasKeysOnce [] = Unit
  HasKeysOnce ((k, v) ∷ m) = (lookup k m ≡ none) × HasKeysOnce m

  pub insert-HasKeysOnce :
      (k : Text) (v : V) (m : List (Text × V)) → HasKeysOnce m → HasKeysOnce (insert k v m)
  unfolding insert lookup
  insert-HasKeysOnce k v [] h = (refl, tt)
  insert-HasKeysOnce k v ((j, w) ∷ m) (fresh, h) = elim (Bool-cases (j == k)) [
    | inl e ↦ let same : j ≡ k = (eq_iff j k).0 e in rw (e, ← same) (fresh, h)
    | inr e ↦ rw e (
      rw (lookup-insert k j v m) (ground (arith, eq_iff k j, eq_iff j k)),
      insert-HasKeysOnce k v m h,
    )
  ]
