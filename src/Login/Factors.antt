-- ===== src/Login/Factors.antt =====
-- internal/db/MFA.go: the tables _user_auth_factor and _user_recovery_code as lists of rows, with the
-- unique indexes of internal/db/migrations/039_user_mfa.sql. An instant is a number.
pub mod Activation
pub mod Recovery
use velm.Base.{
  ℕ, zero, suc, ◌+◌, Bool, true, false, not, ◌&&◌, if◌then◌else◌, Option, none, some, is_some, List,
  [], ◌∷◌, ◌++◌, Text, txt, ◌==◌, keep, any, leb, ltb, nat_eq, length, sort_by, Result, ok, err,
  ◌>>=◌,
}

-- UserAuthFactor, with whether the row is deleted
pub record Factor : Type 0 where
  pub id : Text
  pub user_id : Text
  pub factor_type : Text
  pub label : Text
  pub status : Text
  pub secret_enc : Text
  pub confirmed_at : Option ℕ
  pub last_used_at : Option ℕ
  pub created_at : ℕ
  pub updated_at : ℕ
  pub is_deleted : Bool

-- UserRecoveryCode
pub record RecoveryCode : Type 0 where
  pub factor_id : Text
  pub user_id : Text
  pub code_hash : Text
  pub used_at : Option ℕ
  pub updated_at : ℕ

-- a row that a unique index has already
pub data Failure : Type 0 where
  unique_violation : Failure

-- `UPDATE … SET … WHERE …`
unfoldable pub update {ℓ} : {A : Type ℓ} → (A → Bool) → (A → A) → List A → List A
update where_ set [] = []
update where_ set (r ∷ rows) =
    let rest = update where_ set rows in (if where_ r then set r else r) ∷ rest

unfoldable pub count {ℓ} : {A : Type ℓ} → (A → Bool) → List A → ℕ
count p [] = 0
count p (r ∷ rows) = if p r then suc (count p rows) else count p rows

-- the factors of a user, oldest first; ListUserAuthFactors
unfoldable pub list_user_auth_factors : Text → List Factor → List Factor
unfolding ◌==◌
list_user_auth_factors user rows =
    sort_by (λ a b. ltb a.created_at b.created_at)
      (keep (λ r. r.user_id == user && not r.is_deleted) rows)

-- the rows of the index idx_user_auth_factor_active_unique for a user
unfoldable pub is_active_of : Text → Factor → Bool
unfolding ◌==◌ txt
is_active_of user r =
    r.user_id == user && r.factor_type == txt "totp" && r.status == txt "active" && not r.is_deleted

abbrev first_of : List Factor → Option Factor
first_of [] = none
first_of (r ∷ rows) = some r

-- GetActiveTOTPFactor: the newest
unfoldable pub get_active_totp_factor : Text → List Factor → Option Factor
unfolding is_active_of
get_active_totp_factor user rows =
    first_of (sort_by (λ a b. ltb b.created_at a.created_at) (keep (is_active_of user) rows))

-- CreatePendingTOTPFactor, with the id that the database makes
unfoldable pub create_pending_totp_factor :
    Text → ℕ → Text → Text → Text → List Factor → List Factor × Factor
unfolding txt
create_pending_totp_factor new_id now user label secret rows =
    let row : Factor = record {
      id = new_id;
      user_id = user;
      factor_type = txt "totp";
      label = label;
      status = txt "pending";
      secret_enc = secret;
      confirmed_at = none;
      last_used_at = none;
      created_at = now;
      updated_at = now;
      is_deleted = false;
    } in
    (rows ++ row ∷ [], row)

-- the rows of the first statement of ActivateTOTPFactor, and of the second
unfoldable pub is_target : Text → Text → Factor → Bool
unfolding ◌==◌
is_target factor user r = r.id == factor && r.user_id == user && not r.is_deleted

unfoldable pub is_other : Text → Text → Factor → Bool
unfolding ◌==◌ txt
is_other factor user r =
    r.user_id == user
    && r.factor_type == txt "totp"
    && not (r.id == factor)
    && not (r.status == txt "disabled")
    && not r.is_deleted

abbrev pub activated : ℕ → Factor → Factor
activated now r = record r { status = txt "active"; confirmed_at = some now; updated_at = now }

abbrev pub disabled : ℕ → Factor → Factor
disabled now r = record r { status = txt "disabled"; updated_at = now }

-- ActivateTOTPFactor: its first statement is refused where it gives the user two active factors
unfoldable pub activate_totp_factor : ℕ → Text → Text → List Factor → Result Failure (List Factor)
unfolding update count is_target is_other is_active_of txt
activate_totp_factor now factor user rows =
    let first = update (is_target factor user) (activated now) rows in
    if leb (count (is_active_of user) first) 1
    then ok (update (is_other factor user) (disabled now) first)
    else err unique_violation

-- DisableUserTOTPFactors
unfoldable pub disable_user_totp_factors : ℕ → Text → List Factor → List Factor
unfolding update txt ◌==◌
disable_user_totp_factors now user rows =
    update
      (λ r.
        r.user_id == user
        && r.factor_type == txt "totp"
        && not (r.status == txt "disabled")
        && not r.is_deleted)
      (disabled now) rows

-- TouchAuthFactorLastUsed
unfoldable pub touch_auth_factor_last_used : ℕ → Text → List Factor → List Factor
unfolding update ◌==◌
touch_auth_factor_last_used now factor rows =
    update (λ r. r.id == factor && not r.is_deleted)
      (λ r. record r { last_used_at = some now; updated_at = now }) rows

-- the loop of ReplaceRecoveryCodes; idx_user_recovery_code_factor_hash refuses a code that is there
unfoldable pub insert_codes :
    ℕ → Text → Text → List Text → List RecoveryCode → Result Failure (List RecoveryCode)
unfolding ◌==◌
insert_codes now factor user [] rows = ok rows
insert_codes now factor user (hash ∷ hashes) rows =
    if any (λ r. r.factor_id == factor && r.code_hash == hash) rows
    then err unique_violation
    else insert_codes now factor user hashes (
        rows
        ++ record {
          factor_id = factor;
          user_id = user;
          code_hash = hash;
          used_at = none;
          updated_at = now;
        }
          ∷ [])

-- ReplaceRecoveryCodes
unfoldable pub replace_recovery_codes :
    ℕ → Text → Text → List Text → List RecoveryCode → Result Failure (List RecoveryCode)
unfolding insert_codes ◌==◌
replace_recovery_codes now factor user hashes rows =
    insert_codes now factor user hashes (keep (λ r. not (r.factor_id == factor)) rows)

-- the rows of ConsumeRecoveryCode
unfoldable pub is_unused : Text → Text → Text → RecoveryCode → Bool
unfolding ◌==◌
is_unused factor user hash r =
    r.factor_id == factor && r.user_id == user && r.code_hash == hash && not (is_some r.used_at)

-- ConsumeRecoveryCode: the rows, and whether one was affected
unfoldable pub consume_recovery_code :
    ℕ → Text → Text → Text → List RecoveryCode → List RecoveryCode × Bool
unfolding update count is_unused
consume_recovery_code now factor user hash rows = (
  update (is_unused factor user hash) (λ r. record r { used_at = some now; updated_at = now }) rows,
  nat_eq (count (is_unused factor user hash) rows) 1,
)
