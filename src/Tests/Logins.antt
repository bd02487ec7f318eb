-- ===== src/Tests/Logins.antt =====
-- The properties of second factors: a user with one active factor enrols another one.
use velm.Base.{
  true, false, ◌&&◌, ◌≡◌, ◌≢◌, ◌⊎◌, refl, arith, none, List, [], ◌∷◌, Text, txt, ◌==◌, eq_iff, any,
  All, ok, err,
}
use velm.Login.Factors.{
  Factor, RecoveryCode, unique_violation, count, is_target, is_active_of, activate_totp_factor,
  consume_recovery_code,
}
use velm.Login.Factors.Activation.{is_rival, is_wanted, IsOnlyFactor, activate_totp_factor_outcome}
use velm.Login.Factors.Recovery.{consume_recovery_code_once}

abbrev factor_of_ada : Text → Text → Factor
factor_of_ada id status = record {
  id = id;
  user_id = txt "ada";
  factor_type = txt "totp";
  label = [];
  status = status;
  secret_enc = [];
  confirmed_at = none;
  last_used_at = none;
  created_at = 1;
  updated_at = 1;
  is_deleted = false;
}

abbrev two_factors : List Factor
two_factors =
    factor_of_ada (txt "old") (txt "active") ∷ factor_of_ada (txt "new") (txt "pending") ∷ []

abbrev code_of_ada : Text → RecoveryCode
code_of_ada hash = record {
  factor_id = txt "old";
  user_id = txt "ada";
  code_hash = hash;
  used_at = none;
  updated_at = 1;
}

abbrev two_codes : List RecoveryCode
two_codes = code_of_ada (txt "h1") ∷ code_of_ada (txt "h2") ∷ []

activate_totp_factor_outcome_example :
    (((any (is_rival 5 (txt "new") (txt "ada")) two_factors
          && any (is_wanted 5 (txt "new") (txt "ada")) two_factors)
        ≡ true)
      × (activate_totp_factor 5 (txt "new") (txt "ada") two_factors ≡ err unique_violation))
    ⊎ (((any (is_rival 5 (txt "new") (txt "ada")) two_factors
            && any (is_wanted 5 (txt "new") (txt "ada")) two_factors)
          ≡ false)
        × ((after : List Factor) × (activate_totp_factor 5 (txt "new") (txt "ada") two_factors
              ≡ ok after)
            × All (IsOnlyFactor 5 (txt "new") (txt "ada")) after))
unfolding count is_target is_active_of ◌==◌ txt
activate_totp_factor_outcome_example =
    activate_totp_factor_outcome 5 (txt "new") (txt "ada") two_factors (omega arith) (omega arith)

h1_is_not_h2 : txt "h1" ≢ txt "h2"
unfolding txt ◌==◌
h1_is_not_h2 = λ e. cc ((eq_iff (txt "h1") (txt "h2")).1 e)

consume_recovery_code_once_example :
    (consume_recovery_code 6
        (txt "old")
        (txt "ada")
        (txt "h1")
        (consume_recovery_code 5 (txt "old") (txt "ada") (txt "h1") two_codes).0
      ≡ ((consume_recovery_code 5 (txt "old") (txt "ada") (txt "h1") two_codes).0, false))
    × ((consume_recovery_code 6
          (txt "old")
          (txt "ada")
          (txt "h2")
          (consume_recovery_code 5 (txt "old") (txt "ada") (txt "h1") two_codes).0).1
        ≡ (consume_recovery_code 6 (txt "old") (txt "ada") (txt "h2") two_codes).1)
unfolding txt
consume_recovery_code_once_example =
    consume_recovery_code_once 5 6 (txt "old") (txt "ada") (txt "h1") (txt "h2") two_codes
      h1_is_not_h2

-- The new factor cannot be activated while the old one is active.
new_factor_refused :
    activate_totp_factor 5 (txt "new") (txt "ada") two_factors ≡ err unique_violation
unfolding activate_totp_factor
new_factor_refused = refl
