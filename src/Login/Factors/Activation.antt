-- ===== src/Login/Factors/Activation.antt =====
-- What activating a factor leaves, and when it is refused.
use velm.Base.{
  and_left, ℕ, suc, ◌+◌, ◌≤◌, Bool, true, false, not, ◌&&◌, ◌||◌, if◌then◌else◌, ◌≡◌, ◌⊎◌, refl,
  sym, ap, ◌∙◌, arith, inl, inr, Bool-cases, List, [], ◌∷◌, Text, txt, ◌==◌, eq_iff, leb, ltb, any,
  All, ok, err,
}
use mathlib.Core.Path.{subst}
use velm.Login.Factors.{
  Factor, unique_violation, update, count, is_active_of, is_target, is_other, activated, disabled,
  activate_totp_factor,
}

first_targeted :
    (u ty act live same : Bool)
    → (same && u && live) ≡ true
    → (u && ty && true && live) ≡ (((u && ty && act && live) && not same) || ty)
first_targeted u ty act live same h = ground arith

first_kept :
    (u ty act live same : Bool)
    → (same && u && live) ≡ false
    → (u && ty && act && live) ≡ (((u && ty && act && live) && not same) || false)
first_kept u ty act live same h = ground arith

second_disabled :
    (u ty dis live same : Bool)
    → (u && ty && not same && not dis && live) ≡ true
    → (u && ty && false && live) ≡ ((same && u && live) && ty)
second_disabled u ty dis live same h = ground arith

second_kept :
    (u ty act dis live same : Bool)
    → (u && ty && not same && not dis && live) ≡ false
    → (act && dis) ≡ false
    → (not (same && u && live) || act) ≡ true
    → (u && ty && act && live) ≡ ((same && u && live) && ty)
second_kept u ty act dis live same h k w = ground arith

active_or_disabled : (status : Text) → (status == txt "active" && status == txt "disabled") ≡ false
unfolding txt ◌==◌
active_or_disabled status = elim (Bool-cases (status == txt "active")) [
  | inl e ↦
      let is : status ≡ txt "active" = (eq_iff status (txt "active")).0 e in
      subst (λ s. (s == txt "active" && s == txt "disabled") ≡ false) (sym is) refl
  | inr e ↦ rw e refl
]

sum_counts :
    (a b : Bool) (n x y : ℕ)
    → (a && b) ≡ false
    → n ≡ x + y
    → (if a || b then suc n else n) ≡ (if a then suc x else x) + (if b then suc y else y)
sum_counts true true n x y d e = cc
sum_counts true false n x y d e = omega (arith, e)
sum_counts false true n x y d e = omega (arith, e)
sum_counts false false n x y d e = e

disjoint :
    (active same u live ty : Bool) → ((active && not same) && ((same && u && live) && ty)) ≡ false
disjoint active same u live ty = ground arith

module _ {A : Type 0} (p q : A → Bool) (weaker : (a : A) → q a ≡ true → p a ≡ true) where
  count_le : (rows : List A) → count q rows ≤ count p rows
  unfolding count
  count_le [] = omega arith
  count_le (r ∷ rows) = elim (Bool-cases (q r)) [
    | inl e ↦ rw (e, weaker r e) (omega (arith, count_le rows))
    | inr e ↦ elim (Bool-cases (p r)) [
      | inl f ↦ rw (e, f) (omega (arith, count_le rows))
      | inr f ↦ rw (e, f) (count_le rows)
    ]
  ]

positive : (n : ℕ) → true ≡ ltb 0 (suc n)
positive n = ground arith

or_true : (b : Bool) → (b || true) ≡ true
or_true b = ground arith

any-count : {A : Type 0} (p : A → Bool) (rows : List A) → any p rows ≡ ltb 0 (count p rows)
unfolding count
any-count p [] = refl
any-count p (r ∷ rows) = elim (Bool-cases (p r)) [
  | inl e ↦ rw e (positive (count p rows))
  | inr e ↦ rw e (any-count p rows)
]

at_most_one : (x y : ℕ) → x ≤ 1 → y ≤ 1 → leb (x + y) 1 ≡ not (ltb 0 x && ltb 0 y)
at_most_one x y h k = ground arith

module _ (now : ℕ) (factor user : Text) where
  -- An active factor of the user, other than the one to be activated.
  abbrev pub is_rival : Factor → Bool
  is_rival r = is_active_of user r && not (r.id == factor)

  -- The factor to be activated, as the index counts it.
  abbrev pub is_wanted : Factor → Bool
  is_wanted r = is_target factor user r && r.factor_type == txt "totp"

  abbrev first : Factor → Factor
  first r = if is_target factor user r then activated now r else r

  -- In the index after the first statement: a rival, or the one that is wanted.
  first-is_active_of : (r : Factor) → is_active_of user (first r) ≡ (is_rival r || is_wanted r)
  unfolding is_active_of is_target
  first-is_active_of r = elim (Bool-cases (is_target factor user r)) [
    | inl e ↦ rw e (
        first_targeted (r.user_id == user) (r.factor_type == txt "totp") (r.status == txt "active")
          (not r.is_deleted) (r.id == factor) e)
    | inr e ↦ rw e (
        first_kept (r.user_id == user) (r.factor_type == txt "totp") (r.status == txt "active")
          (not r.is_deleted) (r.id == factor) e)
  ]

  -- The user's active factors are those that were wanted.
  abbrev pub IsOnlyFactor : Factor → Type 0
  IsOnlyFactor r = is_active_of user r ≡ is_wanted r

  second-IsOnlyFactor :
      (r : Factor)
      → (not (is_target factor user r) || r.status == txt "active") ≡ true
      → IsOnlyFactor (if is_other factor user r then disabled now r else r)
  unfolding is_active_of is_target is_other
  second-IsOnlyFactor r w = elim (Bool-cases (is_other factor user r)) [
    | inl e ↦ rw e (
        second_disabled (r.user_id == user) (r.factor_type == txt "totp")
          (r.status == txt "disabled") (not r.is_deleted) (r.id == factor) e)
    | inr e ↦ rw e (
        second_kept (r.user_id == user) (r.factor_type == txt "totp") (r.status == txt "active")
          (r.status == txt "disabled") (not r.is_deleted) (r.id == factor) e
          (active_or_disabled r.status) w)
  ]

  rival_is_not_wanted : (r : Factor) → (is_rival r && is_wanted r) ≡ false
  unfolding is_target
  rival_is_not_wanted r =
      disjoint (is_active_of user r) (r.id == factor) (r.user_id == user) (not r.is_deleted)
        (r.factor_type == txt "totp")

  first_active :
      (r : Factor)
      → (not (is_target factor user (first r)) || (first r).status == txt "active") ≡ true
  unfolding is_target txt ◌==◌
  first_active r = elim (Bool-cases (is_target factor user r)) [
    | inl e ↦ rw e (or_true _)
    | inr e ↦ rw e (rw e refl)
  ]

  count-first :
      (rows : List Factor)
      → count (is_active_of user) (update (is_target factor user) (activated now) rows)
        ≡ count is_rival rows + count is_wanted rows
  unfolding update count
  count-first [] = refl
  count-first (r ∷ rows) =
      rw (first-is_active_of r)
        (sum_counts (is_rival r) (is_wanted r) _ _ _ (rival_is_not_wanted r) (count-first rows))

  after-IsOnlyFactor :
      (rows : List Factor)
      → All IsOnlyFactor (
          update
            (is_other factor user)
            (disabled now)
            (update (is_target factor user) (activated now) rows))
  unfolding update
  after-IsOnlyFactor [] = tt
  after-IsOnlyFactor (r ∷ rows) =
      (second-IsOnlyFactor (first r) (first_active r), after-IsOnlyFactor rows)

  -- Where the factor's id stands at most once, and the user has at most one active factor, as the
  -- indexes make sure: activating the factor is refused exactly if the user has another active one and
  -- the id is that of a one-time-password factor of the user that is not deleted. If not, the user's
  -- active factors are afterwards those with that id: none, if the id is not that of such a factor.
  pub activate_totp_factor_outcome :
      (rows : List Factor)
      → count (is_target factor user) rows ≤ 1
      → count (is_active_of user) rows ≤ 1
      → (((any is_rival rows && any is_wanted rows) ≡ true)
          × (activate_totp_factor now factor user rows ≡ err unique_violation))
        ⊎ (((any is_rival rows && any is_wanted rows) ≡ false)
            × ((after : List Factor) × (activate_totp_factor now factor user rows ≡ ok after)
                × All IsOnlyFactor after))
  unfolding activate_totp_factor
  activate_totp_factor_outcome rows once unique =
      let fits =
        ap (λ n. leb n 1) (count-first rows)
        ∙ at_most_one (count is_rival rows) (count is_wanted rows)
            (omega
              (arith, unique, count_le (is_active_of user) is_rival (λ r h. and_left _ _ h) rows))
            (omega (
              arith,
              once,
              count_le (is_target factor user) is_wanted (λ r h. and_left _ _ h) rows,
            ))
        ∙ sym (
            ap not (
              ap (λ b. b && any is_wanted rows) (any-count is_rival rows)
              ∙ ap (λ b. ltb 0 (count is_rival rows) && b) (any-count is_wanted rows))) in
      elim (Bool-cases (any is_rival rows && any is_wanted rows)) [
        | inl e ↦ inl (e, rw (fits ∙ ap not e) refl)
        | inr e ↦ inr (e, (_, rw (fits ∙ ap not e) refl, after-IsOnlyFactor rows))
      ]
