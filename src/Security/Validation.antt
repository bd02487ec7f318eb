-- ===== src/Security/Validation.antt =====
-- AppDefinition.go: validateAppDefinitionSecurity, the check of a definition's roles and rules.
pub mod Accepted
use velm.Base.{
  Bool, true, false, not, ◌&&◌, ◌||◌, if◌then◌else◌, Option, none, some, Result, ok, err, ◌>>◌,
  List, [], ◌∷◌, Text, txt, ◌==◌,
}
use velm.Runtime.{GoRuntime}
use velm.Expression.{parse_boolean_expression}
use velm.Security.Model.{Rule, member}
use velm.Security.Shadowing.{find_shadowed}
use velm.App.EntryPoints.{is_reserved_role_name}

-- the refusals, with the names of their messages
pub data Problem : Type 0 where
  unknown_role : Text → Problem
  unnamed_rule : Problem
  duplicate_rule : Text → Problem
  rule_without_role : Text → Problem
  rule_unknown_role : Text → Text → Problem
  wrong_operation : Text → Problem
  wrong_effect : Text → Problem
  wrong_table : Text → Text → Problem
  field_of_delete : Text → Problem
  unknown_field : Text → Text → Problem
  invalid_condition : Text → Problem
  shadowed_rule : Rule × Rule → Problem

abbrev pub Checked : Type 0
Checked = Result {0, 0} Problem Unit

-- `if … { return error }`
abbrev pub refuse_if : Bool → Problem → Checked
refuse_if true p = err p
refuse_if false p = ok tt

-- validateIdentifierRoles
unfoldable pub validate_identifier_roles : List Text → List Text → Checked
unfolding member is_reserved_role_name
validate_identifier_roles role_set [] = ok tt
validate_identifier_roles role_set (role ∷ roles) =
    refuse_if (not (is_reserved_role_name role) && not (member role role_set)) (unknown_role role)
    >> validate_identifier_roles role_set roles

abbrev pub is_operation : Text → Bool
is_operation op = op == txt "C" || op == txt "R" || op == txt "U" || op == txt "D"

abbrev pub is_effect : Text → Bool
is_effect effect = effect == [] || effect == txt "allow" || effect == txt "deny"

-- the fields that a rule may name; `none` is the nil map, for any field
abbrev pub is_allowed_field : Option (List Text) → Text → Bool
is_allowed_field none field = true
is_allowed_field (some fields) field = member field fields

module _ (go : GoRuntime) where
  -- validateBooleanExpressionSyntax
  unfoldable pub is_expression : Text → Bool
  unfolding parse_boolean_expression
  is_expression expr = elim (parse_boolean_expression go expr) [ ok tree ↦ true | err e ↦ false ]

  module _ (role_set : List Text) (expected_table : Text)
      (allowed_fields : Option (List Text)) where
    -- the loop over the rules, with the names seen so far
    unfoldable pub validate_rule : List Text → Rule → Checked
    unfolding member ◌==◌ txt is_expression
    validate_rule seen r =
        refuse_if (r.name == []) unnamed_rule
        >> refuse_if (member r.name seen) (duplicate_rule r.name)
        >> refuse_if (r.role == []) (rule_without_role r.name)
        >> refuse_if (not (member r.role role_set)) (rule_unknown_role r.name r.role)
        >> refuse_if (not (is_operation r.operation)) (wrong_operation r.name)
        >> refuse_if (not (is_effect r.effect)) (wrong_effect r.name)
        >> refuse_if
            (not (expected_table == []) && not (r.table == []) && not (r.table == expected_table))
            (wrong_table r.name r.table)
        >> refuse_if (r.operation == txt "D" && not (r.field == [])) (field_of_delete r.name)
        >> refuse_if (not (r.field == []) && not (is_allowed_field allowed_fields r.field))
            (unknown_field r.name r.field)
        >> refuse_if (not (r.condition == []) && not (is_expression r.condition))
            (invalid_condition r.name)

    unfoldable pub validate_rules : List Text → List Rule → Checked
    unfolding validate_rule
    validate_rules seen [] = ok tt
    validate_rules seen (r ∷ rules) = validate_rule seen r >> validate_rules (r.name ∷ seen) rules

    -- the error of validateSecurityRuleShadowing
    abbrev pub check_shadowing : Option (Rule × Rule) → Checked
    check_shadowing none = ok tt
    check_shadowing (some pair) = err (shadowed_rule pair)

    -- validateAppDefinitionSecurity
    unfoldable pub validate_security : List Text → List Rule → Checked
    unfolding validate_identifier_roles validate_rules find_shadowed
    validate_security roles rules =
        validate_identifier_roles role_set roles
        >> validate_rules [] rules
        >> check_shadowing (find_shadowed expected_table rules)
