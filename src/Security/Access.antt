-- ===== src/Security/Access.antt =====
-- The questions that handlers ask of an evaluator: a nil evaluator, `none`, allows everything.
pub mod Gates
pub mod Fields
use velm.Base.{Bool, true, false, ◌&&◌, ◌||◌, not, if◌then◌else◌, Option, none, some}
use velm.Base.{List, [], ◌∷◌, Text, txt, ◌==◌, any, null}
use velm.Runtime.{GoRuntime}
use velm.Security.Model.{Rule, Evaluator, normalize_operation, key_of, member}
use velm.Security.Roles.{allows_role_gate, has_admin_read_bypass}
use velm.Security.Decision.{Any, Record, Verdict, scope_decision}

-- HasOperationRules
unfoldable pub has_operation_rules : Option Evaluator → Text → Bool
has_operation_rules none operation = false
has_operation_rules (some e) operation =
    any (λ rule. rule.operation == normalize_operation operation) e.rules

-- HasReadAccessControls
unfoldable pub has_read_access_controls : Option Evaluator → Bool
has_read_access_controls none = false
has_read_access_controls (some e) = not (null e.role_gate) || has_operation_rules (some e) (txt "R")

-- `!hasScopeRules`, or the decision
abbrev pub permits : Verdict → Bool
permits v = not v.has_rules || v.allowed

-- `operation == "R" && e.hasAdminReadBypass()`
unfoldable pub bypasses : Evaluator → Text → Bool
bypasses e operation = operation == txt "R" && has_admin_read_bypass e

module _ (go : GoRuntime) (now : go.Time) where
  -- AllowsRecord
  unfoldable pub allows_record : Option Evaluator → Text → Record go → Bool
  allows_record none operation r = true
  allows_record (some e) operation r =
      let op = normalize_operation operation in
      if bypasses e op
      then true
      else if not (allows_role_gate e)
      then false
      else permits (scope_decision go now e op [] r)

  -- allowsFieldRules
  unfoldable pub allows_field_rules : Evaluator → Text → Text → Record go → Bool
  allows_field_rules e operation field r =
      if key_of field == []
      then true
      else permits (scope_decision go now e operation (key_of field) r)

  -- AllowsField
  unfoldable pub allows_field : Option Evaluator → Text → Text → Record go → Bool
  allows_field none operation field r = true
  allows_field (some e) operation field r =
      let op = normalize_operation operation in
      if bypasses e op
      then true
      else if not (allows_record (some e) op r)
      then false
      else allows_field_rules e op field r

  -- the loop of AllowsFields, with the set of the fields that it has seen
  unfoldable pub fields_from : Evaluator → Text → Record go → List Text → List Text → Bool
  fields_from e operation r seen [] = true
  fields_from e operation r seen (field ∷ fields) =
      let past = fields_from e operation r seen fields in
      let onwards = fields_from e operation r (key_of field ∷ seen) fields in
      if key_of field == [] || member (key_of field) seen
      then past
      else if allows_field_rules e operation (key_of field) r
      then onwards
      else false

  -- AllowsFields
  unfoldable pub allows_fields : Option Evaluator → Text → List Text → Record go → Bool
  allows_fields none operation fields r = true
  allows_fields (some e) operation fields r =
      let op = normalize_operation operation in
      if bypasses e op
      then true
      else if not (allows_record (some e) op r)
      then false
      else fields_from e op r [] fields
