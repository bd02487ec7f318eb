-- ===== src/Security/Loading.antt =====
-- loadSecurityEvaluatorForConfig: the evaluator of a table, form or page. The query for the user's
-- effective role names is the argument `role_names`, which answers `none` where the query fails.
pub mod Ordering
use velm.Base.{ℕ, Bool, true, false, ◌&&◌, not, if◌then◌else◌, Option, none, some, ltb, nat_eq}
use velm.Base.{List, [], ◌∷◌, Text, trim, ◌==◌, text_lt, keep, null, sort_by}
use velm.Security.Model.{Rule, App, Evaluator, key_of, rule_table_name}

-- the order of sort.SliceStable: by order, then by name
unfoldable pub rule_less : Rule → Rule → Bool
rule_less a b = if nat_eq a.order b.order then text_lt a.name b.name else ltb a.order b.order

-- the rules of a table, in the order in which they are tried
unfoldable pub ordered_rules : Text → List Rule → List Rule
ordered_rules table rules =
    sort_by rule_less (keep (λ rule. rule_table_name rule table == table) rules)

unfoldable pub evaluator_for : App → Text → List Text → List Rule → List Text → Option Evaluator
evaluator_for app table roles rules user_roles =
    let ordered = ordered_rules table rules in
    if null roles && null ordered
    then none
    else some (record {
      app = app;
      table_name = table;
      role_gate = roles;
      rules = ordered;
      user_roles = user_roles;
    })

-- loadSecurityEvaluatorForConfig; the outer `none` is its error
unfoldable pub load_security_evaluator :
    (Text → Text → Option (List Text))
    → App
    → Text
    → List Text
    → List Rule
    → Text
    → Option (Option Evaluator)
load_security_evaluator role_names app table roles rules user =
    if trim user == []
    then some (evaluator_for app (key_of table) roles rules [])
    else elim (role_names (trim user) app.id) [
      | none ↦ none
      | some names ↦ some (evaluator_for app (key_of table) roles rules names)
    ]
