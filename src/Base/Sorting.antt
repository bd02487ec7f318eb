-- ===== src/Base/Sorting.antt =====
-- sort.SliceStable by a strict order, as an insertion sort. It also stands for sort.Slice and
-- sort.Strings where elements that compare equal are the same.
use mathlib.Core.Path.{◌≡◌, refl}
use mathlib.Core.Logic.{inl, inr}
use mathlib.Core.Bool.{Bool, true, false, ◌||◌}
use native.Mathlib.Omega.{arith}
use mathlib.Core.List.{List, [], ◌∷◌}
use mathlib.Core.List.{Perm}
use mathlib.Core.List.Perm
use velm.Base.Core.{if◌then◌else◌, Bool-cases, All, any, keep}

module _ {ℓ} {A : Type ℓ} (less : A → A → Bool) where
  insert_sorted : A → List A → List A
  insert_sorted x [] = x ∷ []
  insert_sorted x (y ∷ ys) = if less y x then y ∷ insert_sorted x ys else x ∷ y ∷ ys

  unfoldable pub sort_by : List A → List A
  unfolding insert_sorted
  sort_by [] = []
  sort_by (x ∷ xs) = insert_sorted x (sort_by xs)

  insert_sorted-perm : (x : A) (ys : List A) → Perm (insert_sorted x ys) (x ∷ ys)
  unfolding insert_sorted
  insert_sorted-perm x [] = Perm.refl _
  insert_sorted-perm x (y ∷ ys) = elim (Bool-cases (less y x)) [
    | inl e ↦ rw e (Perm.trans (Perm.cons y (insert_sorted-perm x ys)) (Perm.swap x y ys))
    | inr e ↦ rw e (Perm.refl _)
  ]

  pub sort_by-perm : (xs : List A) → Perm (sort_by xs) xs
  unfolding sort_by
  sort_by-perm [] = Perm.refl _
  sort_by-perm (x ∷ xs) =
      Perm.trans (insert_sorted-perm x (sort_by xs)) (Perm.cons x (sort_by-perm xs))

  -- Elements of a class none of which is below another stay in their order.
  module _ (p : A → Bool) (level : (x y : A) → p x ≡ true → p y ≡ true → less x y ≡ false) where
    insert_sorted-keep : (x : A) (ys : List A) → keep p (insert_sorted x ys) ≡ keep p (x ∷ ys)
    unfolding insert_sorted keep
    insert_sorted-keep x [] = refl
    insert_sorted-keep x (y ∷ ys) = elim (Bool-cases (less y x)) [
      | inr e ↦ rw e refl
      | inl e ↦ elim (Bool-cases (p x)) [
        | inr f ↦ rw (e, f, insert_sorted-keep x ys, f) refl
        | inl f ↦ elim (Bool-cases (p y)) [
          | inr g ↦ rw (e, f, g, insert_sorted-keep x ys, f) refl
          | inl g ↦ absurd (cc (level y x g f, e))
        ]
      ]
    ]

    pub sort_by-keep : (xs : List A) → keep p (sort_by xs) ≡ keep p xs
    unfolding sort_by keep
    sort_by-keep [] = refl
    sort_by-keep (x ∷ xs) = elim (Bool-cases (p x)) [
      | inl e ↦ rw (insert_sorted-keep x (sort_by xs), e, sort_by-keep xs) refl
      | inr e ↦ rw (insert_sorted-keep x (sort_by xs), e, sort_by-keep xs) refl
    ]

  -- Each neighbour is not above the one that follows.
  abbrev pub IsSorted : List A → Type 0
  IsSorted [] = Unit
  IsSorted (x ∷ []) = Unit
  IsSorted (x ∷ y ∷ ys) = (less y x ≡ false) × IsSorted (y ∷ ys)

  -- A test that some element passes has the same answer after sorting.
  insert_sorted-any :
      (p : A → Bool) (x : A) (ys : List A) → any p (insert_sorted x ys) ≡ (p x || any p ys)
  unfolding insert_sorted
  insert_sorted-any p x [] = refl
  insert_sorted-any p x (y ∷ ys) = ground (arith, insert_sorted-any p x ys)

  pub sort_by-any : (p : A → Bool) (xs : List A) → any p (sort_by xs) ≡ any p xs
  unfolding sort_by
  sort_by-any p [] = refl
  sort_by-any p (x ∷ xs) = rw (insert_sorted-any p x (sort_by xs), sort_by-any p xs) refl

  module _ (asym : (x y : A) → less x y ≡ true → less y x ≡ false) where
    insert_sorted-IsSorted : (x : A) (ys : List A) → IsSorted ys → IsSorted (insert_sorted x ys)
    unfolding insert_sorted
    insert_sorted-IsSorted x [] h = tt
    insert_sorted-IsSorted x (y ∷ []) h = elim (Bool-cases (less y x)) [
      | inl e ↦ rw e (asym y x e, tt)
      | inr e ↦ rw e (e, tt)
    ]
    insert_sorted-IsSorted x (y ∷ z ∷ zs) (p, h) = elim (Bool-cases (less y x)) [
      | inl e ↦ elim (Bool-cases (less z x)) [
        | inl f ↦ rw (e, f) (p, rw f at (insert_sorted-IsSorted x (z ∷ zs) h))
        | inr f ↦ rw (e, f) (asym y x e, (f, h))
      ]
      | inr e ↦ rw e (e, (p, h))
    ]

    pub sort_by-IsSorted : (xs : List A) → IsSorted (sort_by xs)
    unfolding sort_by
    sort_by-IsSorted [] = tt
    sort_by-IsSorted (x ∷ xs) = insert_sorted-IsSorted x (sort_by xs) (sort_by-IsSorted xs)

  module _ {κ} (P : A → Type κ) where
    insert_sorted-All : (x : A) (ys : List A) → P x → All P ys → All P (insert_sorted x ys)
    unfolding insert_sorted
    insert_sorted-All x [] p h = (p, tt)
    insert_sorted-All x (y ∷ ys) p (q, h) = elim (Bool-cases (less y x)) [
      | inl e ↦ rw e (q, insert_sorted-All x ys p h)
      | inr e ↦ rw e (p, (q, h))
    ]

    pub sort_by-All : (xs : List A) → All P xs → All P (sort_by xs)
    unfolding sort_by
    sort_by-All [] h = tt
    sort_by-All (x ∷ xs) (p, h) = insert_sorted-All x (sort_by xs) p (sort_by-All xs h)
