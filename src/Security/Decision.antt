-- ===== src/Security/Decision.antt =====
-- scopeDecision: the rules of an operation and a field are tried in order, and the first whose role
-- the user holds and whose condition the record meets decides. A decision reads the clock once.
pub mod FirstMatch
use velm.Base.{Bool, true, false, ◌&&◌, not, if◌then◌else◌, Option, none, some, Result, ok, err}
use velm.Base.{List, [], ◌∷◌, Text, txt, trim, lower, ◌==◌, keep, null, lookup}
use velm.Runtime.{GoRuntime}
use velm.Expression.{evaluate_boolean_expression}
use velm.Expression.Syntax.{Failure}
use velm.Security.Model.{Rule, Evaluator, normalize_operation, key_of, rule_allows}
use velm.Security.Roles.{user_has_role}

-- A value of a record: `other` is of a type with no case of its own, known by what `fmt.Sprint`
-- makes of it; `integer` by its decimal form.
pub data Any (F T : Type 0) : Type 0 where
  nil : Any F T
  str : Text → Any F T
  boolean : Bool → Any F T
  integer : Text → Any F T
  single : F → Any F T
  double : F → Any F T
  instant : T → Any F T
  other : Text → Any F T

-- the condition of the loop of rulesFor
unfoldable pub rule_applies_to : Text → Text → Rule → Bool
rule_applies_to operation field rule =
    rule.operation == operation
    && (if field == [] then key_of rule.field == [] else key_of rule.field == field)

-- rulesFor
unfoldable pub rules_for : Evaluator → Text → Text → List Rule
rules_for e operation field =
    keep (rule_applies_to (normalize_operation operation) (key_of field)) e.rules

-- scopeDecision's two results
pub record Verdict : Type 0 where
  pub has_rules : Bool
  pub allowed : Bool

-- the loop of scopeDecision
unfoldable pub first_match : (Rule → Bool) → List Rule → Bool
first_match matches [] = false
first_match matches (rule ∷ rules) =
    if matches rule then rule_allows rule else first_match matches rules

module _ (go : GoRuntime) where
  abbrev pub Record : Type 0
  Record = List (Text × Any go.Float go.Time)

  -- fmt.Sprint of a value that is neither nil nor a string
  unfoldable pub text_of : Any go.Float go.Time → Text
  text_of nil = []
  text_of (str s) = s
  text_of (boolean true) = txt "true"
  text_of (boolean false) = txt "false"
  text_of (integer s) = s
  text_of (single x) = go.sprint_float x
  text_of (double x) = go.sprint_float x
  text_of (instant t) = go.sprint_time t
  text_of (other s) = s

  -- securityRecordValues
  unfoldable pub record_values : Record → List (Text × Text)
  record_values [] = []
  record_values ((k, v) ∷ r) = (k, text_of v) ∷ record_values r

  -- `err == nil && ok`
  unfoldable pub passed : Result Failure Bool → Bool
  passed (ok b) = b
  passed (err e) = false

  module _ (now : go.Time) where
    -- securityRuleConditionPasses
    unfoldable pub condition_passes : Text → List (Text × Text) → Text → Bool
    condition_passes condition values field =
        if trim condition == []
        then true
        else passed (evaluate_boolean_expression go now (trim condition) values (trim field))

    -- the two `continue`s of the loop
    unfoldable pub rule_matches : Evaluator → List (Text × Text) → Text → Rule → Bool
    rule_matches e values field rule =
        user_has_role e rule.role && condition_passes rule.condition values field

    -- scopeDecision
    unfoldable pub scope_decision : Evaluator → Text → Text → Record → Verdict
    scope_decision e operation field r =
        if null (rules_for e operation field)
        then record { has_rules = false; allowed = true }
        else record {
          has_rules = true;
          allowed =
              first_match (rule_matches e (record_values r) field) (rules_for e operation field);
        }
