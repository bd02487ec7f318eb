-- ===== src/Security/Access/Gates.antt =====
-- When a record or a field may be read or written.
use velm.Base.{true, ◌≡◌, ◌↔◌, ◌⊎◌, inl, inr, refl, arith}
use velm.Base.{[], Text, any, null, some}
use velm.Runtime.{GoRuntime}
use velm.Security.Model.{Rule, Evaluator, normalize_operation, member, rule_allows}
use velm.Security.Roles.{allows_role_gate}
use velm.Security.Roles.Candidates.{holds_candidate-any, role_counts}
use velm.Security.Decision.{Record, scope_decision, rules_for}
use velm.Security.Decision.FirstMatch.{
  FirstMatch, is_match, scope_decision_cases, scope_decision_bare, scope_decision_taken,
}
use velm.Security.Access.{permits, bypasses, allows_record}

-- The user is let through the role gate: there is none, or one of its roles is the user's.
abbrev pub Admitted : Evaluator → Type 0
Admitted e =
    (null e.role_gate ≡ true)
    ⊎ (any (role_counts (λ c. member c e.user_roles) e.app) e.role_gate ≡ true)

-- What the rules say of an operation on a field (the record where the field is empty): nothing, or
-- the first that matches allows it.
module _ (go : GoRuntime) (now : go.Time) where
  abbrev pub RulesGrant : Evaluator → Text → Text → Record go → Type 0
  RulesGrant e operation field r =
      (rules_for e operation field ≡ [])
      ⊎ ((rule : Rule) × FirstMatch (is_match go now e operation field r)
            (rules_for e operation field) rule
          × (rule_allows rule ≡ true))

  -- The reasons for which an operation on a record is allowed.
  abbrev pub RecordGranted : Evaluator → Text → Record go → Type 0
  RecordGranted e operation r =
      (bypasses e (normalize_operation operation) ≡ true)
      ⊎ (Admitted e × RulesGrant e (normalize_operation operation) [] r)

  permits-RulesGrant :
      (e : Evaluator) (operation field : Text) (r : Record go)
      → (permits (scope_decision go now e operation field r) ≡ true)
        ↔ RulesGrant e operation field r
  permits-RulesGrant e operation field r = (
    λ h. elim (scope_decision_cases go now e operation field r) [
      | inl (bare, _) ↦ inl bare
      | inr (inl (_, _, d)) ↦ cc (rw d at h)
      | inr (inr (rule, m, d)) ↦ inr (rule, m, rw d at h)
    ],
    λ g. elim g [
      | inl bare ↦ rw (scope_decision_bare go now e operation field r bare) refl
      | inr (rule, m, a) ↦ rw (scope_decision_taken go now e operation field r rule m) a
    ],
  )

  gate-Admitted : (e : Evaluator) → (allows_role_gate e ≡ true) ↔ Admitted e
  unfolding allows_role_gate
  gate-Admitted e = rw (holds_candidate-any e e.role_gate) (ground arith)

  -- An operation on a record is allowed exactly for one of these reasons: it is a read by an
  -- administrator; or the user is let through the role gate, and the rules for the operation on whole
  -- records are none, or the first of them whose role the user has and whose condition the record
  -- meets does not deny.
  pub allows_record_iff :
      (e : Evaluator) (operation : Text) (r : Record go)
      → (allows_record go now (some e) operation r ≡ true) ↔ RecordGranted e operation r
  unfolding allows_record
  allows_record_iff e operation r =
      ground (arith, gate-Admitted e, permits-RulesGrant e (normalize_operation operation) [] r)
