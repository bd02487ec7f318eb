-- ===== src/Security/Model.antt =====
-- The data of the rules: AppDefinitionSecurityRule, RegisteredApp and TableSecurityEvaluator.
pub mod Operations
use velm.Base.{
  ℕ, List, [], ◌∷◌, Text, txt, trim, lower, upper, ◌==◌, ◌||◌, if◌then◌else◌, Bool, not,
}

-- `order` is the int of the definition, shifted by 2^63 so that no value is negative: the rules are
-- only ever compared by it.
pub record Rule : Type 0 where
  pub name : Text
  pub order : ℕ
  pub effect : Text
  pub operation : Text
  pub table : Text
  pub field : Text
  pub condition : Text
  pub role : Text

pub record App : Type 0 where
  pub id : Text
  pub name : Text
  pub namespace : Text

-- `user_roles` is the set of the user's role names.
pub record Evaluator : Type 0 where
  pub app : App
  pub table_name : Text
  pub role_gate : List Text
  pub rules : List Rule
  pub user_roles : List Text

-- membership in a list of texts, by `==`
unfoldable pub member : Text → List Text → Bool
member x [] = Bool.false
member x (y ∷ ys) = x == y || member x ys

-- strings.TrimSpace(strings.ToLower(s))
abbrev pub key_of : Text → Text
key_of s = trim (lower s)

-- the switch of normalizeSecurityOperation
unfoldable pub canonical_operation : Text → Text
canonical_operation op =
    if op == txt "C" || op == txt "CREATE" || op == txt "INSERT"
    then txt "C"
    else if op == txt "R" || op == txt "READ" || op == txt "SELECT" || op == txt "VIEW"
    then txt "R"
    else if op == txt "U" || op == txt "UPDATE" || op == txt "WRITE" || op == txt "EDIT"
    then txt "U"
    else if op == txt "D" || op == txt "DELETE" || op == txt "REMOVE"
    then txt "D"
    else op

-- normalizeSecurityOperation
unfoldable pub normalize_operation : Text → Text
normalize_operation operation = canonical_operation (trim (upper operation))

-- normalizeSecurityEffect
unfoldable pub normalize_effect : Text → Text
normalize_effect effect =
    let e = key_of effect in
    if e == txt ""
      || e == txt "allow"
      || e == txt "allowed"
      || e == txt "permit"
      || e == txt "permitted"
      || e == txt "grant"
      || e == txt "granted"
    then (if e == txt "" then [] else txt "allow")
    else if e == txt "deny"
        || e == txt "denied"
        || e == txt "block"
        || e == txt "blocked"
        || e == txt "forbid"
        || e == txt "forbidden"
    then txt "deny"
    else e

-- securityRuleAllows
unfoldable pub rule_allows : Rule → Bool
rule_allows rule = not (normalize_effect rule.effect == txt "deny")

-- securityRuleTableName
unfoldable pub rule_table_name : Rule → Text → Text
rule_table_name rule fallback =
    if key_of rule.table == [] then key_of fallback else key_of rule.table
