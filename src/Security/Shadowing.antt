-- ===== src/Security/Shadowing.antt =====
-- validateSecurityRuleShadowing of AppDefinition.go: a definition is refused where one of its rules
-- can never decide anything. The refusal is the pair of the rules that its message names.
pub mod Found
pub mod Inert
use velm.Base.{ℕ, Bool, true, false, ◌&&◌, ◌||◌, not, if◌then◌else◌, Option, none, some, ltb}
use velm.Base.{List, [], ◌∷◌, ◌++◌, Text, ◌==◌, sort_by, length}
use velm.Security.Model.{Rule, key_of}
use velm.Security.Loading.{rule_less}

-- securityRuleScopeKey: the parts are joined by zero bytes
unfoldable pub scope_key : Rule → Text → Text
scope_key rule expected_table =
    (if key_of rule.table == [] then key_of expected_table else key_of rule.table)
    ++ (0 ∷ (rule.operation ++ (0 ∷ key_of rule.field)))

-- the tests of the inner loop: `earlier` takes every record that `later` could decide
unfoldable pub shadows : Text → Rule → Rule → Bool
shadows expected_table earlier later =
    scope_key earlier expected_table == scope_key later expected_table
    && earlier.role == later.role
    && (earlier.condition == [] || earlier.condition == later.condition)

-- the inner loop: the first of the earlier rules that shadows the rule
unfoldable pub shadowing : Text → Rule → List Rule → Option (Rule × Rule)
shadowing expected_table later [] = none
shadowing expected_table later (earlier ∷ more) =
    if shadows expected_table earlier later
    then some (earlier, later)
    else shadowing expected_table later more

-- the outer loop, with the rules that stand before the one it is at
unfoldable pub shadowed_from : Text → List Rule → List Rule → Option (Rule × Rule)
shadowed_from expected_table before [] = none
shadowed_from expected_table before (later ∷ rules) =
    let onwards = shadowed_from expected_table (before ++ later ∷ []) rules in
    elim (shadowing expected_table later before) [ some found ↦ some found | none ↦ onwards ]

-- validateSecurityRuleShadowing
unfoldable pub find_shadowed : Text → List Rule → Option (Rule × Rule)
find_shadowed expected_table rules =
    if ltb (length rules) 2 then none else shadowed_from expected_table [] (sort_by rule_less rules)
