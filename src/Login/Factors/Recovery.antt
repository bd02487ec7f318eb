-- ===== src/Login/Factors/Recovery.antt =====
-- A recovery code is good for one login.
use velm.Base.{
  ℕ, suc, Bool, true, false, not, ◌&&◌, if◌then◌else◌, ◌≡◌, ◌≢◌, refl, sym, ap, ◌∙◌, arith, inl,
  inr, Bool-cases, some, is_some, List, [], ◌∷◌, Text, ◌==◌, eq_iff, nat_eq,
}
use velm.Login.Factors.{RecoveryCode, update, count, is_unused, consume_recovery_code}

-- A statement whose condition holds of no row changes nothing.
update_none {ℓ} :
    {A : Type ℓ} (p : A → Bool) (f : A → A) (rows : List A)
    → count p rows ≡ 0
    → update p f rows ≡ rows
unfolding update count
update_none p f [] h = refl
update_none p f (r ∷ rows) h = elim (Bool-cases (p r)) [
  | inl e ↦ cc (rw e at h)
  | inr e ↦ rw e (ap (λ l. r ∷ l) (update_none p f rows (rw e at h)))
]

and_false : (a b c : Bool) → (a && b && c && false) ≡ false
and_false a b c = ground arith

hash_test : (a b c d : Bool) → (a && b && c && d) ≡ true → c ≡ true
hash_test a b c d h = ground arith

and_third : (a b c d : Bool) → c ≡ false → (a && b && c && d) ≡ false
and_third a b c d h = ground arith

module _ (now : ℕ) (factor user hash : Text) where
  abbrev used : RecoveryCode → RecoveryCode
  used r = record r { used_at = some now; updated_at = now }

  used-is_unused : (other : Text) (r : RecoveryCode) → is_unused factor user other (used r) ≡ false
  unfolding is_unused
  used-is_unused other r =
      and_false (r.factor_id == factor) (r.user_id == user) (r.code_hash == other)

  count-update :
      (rows : List RecoveryCode)
      → count (is_unused factor user hash) (update (is_unused factor user hash) used rows) ≡ 0
  unfolding count update
  count-update [] = refl
  count-update (r ∷ rows) = elim (Bool-cases (is_unused factor user hash r)) [
    | inl e ↦ rw e (rw (used-is_unused hash r) (count-update rows))
    | inr e ↦ rw e (rw e (count-update rows))
  ]

  other_code :
      (other : Text) (r : RecoveryCode)
      → hash ≢ other
      → is_unused factor user hash r ≡ true
      → is_unused factor user other r ≡ false
  unfolding is_unused
  other_code other r differ e =
      let same : r.code_hash ≡ hash = (eq_iff r.code_hash hash).0 (
        hash_test (r.factor_id == factor) (r.user_id == user) (r.code_hash == hash)
          (not (is_some r.used_at)) e) in
      and_third (r.factor_id == factor) (r.user_id == user) (r.code_hash == other)
        (not (is_some r.used_at))
        (elim (Bool-cases (r.code_hash == other)) [
          | inl f ↦ absurd (differ (sym same ∙ (eq_iff r.code_hash other).0 f))
          | inr f ↦ f
        ])

  count-update_other :
      (other : Text) (rows : List RecoveryCode)
      → hash ≢ other
      → count (is_unused factor user other) (update (is_unused factor user hash) used rows)
        ≡ count (is_unused factor user other) rows
  unfolding count update
  count-update_other other [] differ = refl
  count-update_other other (r ∷ rows) differ = elim (Bool-cases (is_unused factor user hash r)) [
    | inl e ↦ rw e (
        rw (used-is_unused other r, other_code other r differ e)
          (count-update_other other rows differ))
    | inr e ↦ rw e (
        ap (λ n. if is_unused factor user other r then suc n else n)
          (count-update_other other rows differ))
  ]

-- A code that was asked for is refused from then on, and asking again changes nothing; of another code
-- the answer is what it would have been before.
pub consume_recovery_code_once :
    (now later : ℕ) (factor user hash other : Text) (rows : List RecoveryCode)
    → hash ≢ other
    → (consume_recovery_code later factor user hash
          (consume_recovery_code now factor user hash rows).0
        ≡ ((consume_recovery_code now factor user hash rows).0, false))
      × ((consume_recovery_code later factor user other
            (consume_recovery_code now factor user hash rows).0).1
          ≡ (consume_recovery_code later factor user other rows).1)
unfolding consume_recovery_code
consume_recovery_code_once now later factor user hash other rows differ =
    let none_left = count-update now factor user hash rows in
    (
      cc (update_none (is_unused factor user hash) (used later factor user hash) _ none_left),
      ap (λ n. nat_eq n 1) (count-update_other now factor user hash other rows differ),
    )
