-- ===== src/Tests/Rules.antt =====
-- The properties of security rules at one evaluator: a table of orders, where a user may read what
-- is open, and nobody may read the cost.
use velm.Base.{
  ℕ, Bool, true, false, ◌≡◌, ◌≢◌, ◌↔◌, ◌⊎◌, refl, Option, none, some, List, [], ◌∷◌, Text, txt,
  ◌==◌,
}
use velm.Base.{arith, All, null, any, keep, lookup, IsSorted, sort_by}
use velm.Runtime.{whole_numbers}
use velm.Security.Model.{Rule, App, Evaluator, rule_table_name, rule_allows}
use velm.Security.Decision.{str, Record, rules_for, scope_decision}
use velm.Security.Decision.FirstMatch.{FirstMatch, Unmatched, is_match, scope_decision_cases}
use velm.Security.Access.{allows_record, allows_field, allows_fields}
use velm.Security.Access.Gates.{RecordGranted, allows_record_iff}
use velm.Security.Access.Fields.{allows_fields_iff}
use velm.Security.Loading.{rule_less, ordered_rules}
use velm.Security.Loading.Ordering.{AreInOrder, has_rank, ordered_rules_lem}
use velm.Schema.DataTypes.{Column}
use velm.Security.Records.{changed_record_fields, merge_record_snapshot, filter_readable_record}
use velm.Security.Records.Filtering.{shown, filter_readable_record_cases}
use velm.Security.Previews.{Preview, save_preview}
use velm.Security.Previews.Laws.{operation_of, save_preview_iff}
use velm.Security.Shadowing.{find_shadowed}
use velm.Security.Shadowing.Found.{without_later, find_shadowed-Shadowed}
use velm.Security.Shadowing.Inert.{HasPlainKey, find_shadowed_inert}
use mathlib.Core.List.{Perm}

abbrev orders_app : App
orders_app = record { id = txt "1"; name = txt "orders"; namespace = txt "orders" }

abbrev read_open : Rule
read_open = record {
  name = txt "read_open";
  order = 10;
  effect = txt "allow";
  operation = txt "R";
  table = txt "orders";
  field = [];
  condition = txt "status == 'open'";
  role = txt "clerk";
}

abbrev hide_cost : Rule
hide_cost = record {
  name = txt "hide_cost";
  order = 20;
  effect = txt "deny";
  operation = txt "R";
  table = txt "orders";
  field = txt "cost";
  condition = [];
  role = [];
}

-- never reached: `hide_cost` comes first
abbrev show_cost : Rule
show_cost = record hide_cost { name = txt "show_cost"; order = 30; effect = txt "allow" }

abbrev declared : List Rule
declared = show_cost ∷ read_open ∷ hide_cost ∷ []

abbrev clerk : Evaluator
clerk = record {
  app = orders_app;
  table_name = txt "orders";
  role_gate = txt "clerk" ∷ [];
  rules = sort_by rule_less declared;
  user_roles = txt "orders.clerk" ∷ [];
}

abbrev order_row : Record whole_numbers
order_row = (txt "status", str (txt "open")) ∷ (txt "cost", str (txt "12")) ∷ []

abbrev text_column : Text → Column
text_column name = record {
  name = name;
  data_type = txt "text";
  is_nullable = true;
  default_value = none;
  validation_regex = none;
  validation_expr = none;
  condition_expr = none;
  validation_msg = [];
  prefix = [];
  choices = [];
}

abbrev columns : List Column
columns = text_column (txt "status") ∷ text_column (txt "cost") ∷ []

abbrev closing_form : List (Text × Text)
closing_form = (txt "status", txt "closed") ∷ []

abbrev saved_preview : Preview
saved_preview = record {
  operation = txt "U";
  save_allowed = true;
  record_allowed = true;
  changed_fields = txt "status" ∷ [];
  blocked_fields = [];
}

abbrev blocked_preview : Preview
blocked_preview = record saved_preview { save_allowed = false; blocked_fields = txt "cost" ∷ [] }

allows_record_iff_example :
    (allows_record whole_numbers 5 (some clerk) (txt "read") order_row ≡ true)
    ↔ RecordGranted whole_numbers 5 clerk (txt "read") order_row
allows_record_iff_example = allows_record_iff whole_numbers 5 clerk (txt "read") order_row

scope_decision_cases_example :
    ((rules_for clerk (txt "R") (txt "cost") ≡ [])
      × (scope_decision whole_numbers 5 clerk (txt "R") (txt "cost") order_row
          ≡ record { has_rules = false; allowed = true }))
    ⊎ ((rules_for clerk (txt "R") (txt "cost") ≢ [])
        × Unmatched
            (is_match whole_numbers 5 clerk (txt "R") (txt "cost") order_row)
            (rules_for clerk (txt "R") (txt "cost"))
        × (scope_decision whole_numbers 5 clerk (txt "R") (txt "cost") order_row
            ≡ record { has_rules = true; allowed = false }))
    ⊎ ((rule : Rule) × FirstMatch
          (is_match whole_numbers 5 clerk (txt "R") (txt "cost") order_row)
          (rules_for clerk (txt "R") (txt "cost"))
          rule
        × (scope_decision whole_numbers 5 clerk (txt "R") (txt "cost") order_row
            ≡ record { has_rules = true; allowed = rule_allows rule }))
scope_decision_cases_example =
    scope_decision_cases whole_numbers 5 clerk (txt "R") (txt "cost") order_row

filter_readable_record_cases_example :
    ((allows_record whole_numbers 5 (some clerk) (txt "R") order_row ≡ false)
      × (filter_readable_record whole_numbers 5 (some clerk) order_row ≡ none))
    ⊎ ((allows_record whole_numbers 5 (some clerk) (txt "R") order_row ≡ true)
        × (out : Record whole_numbers) × (filter_readable_record whole_numbers 5
              (some clerk)
              order_row
            ≡ some out)
        × ((k : Text)
            → lookup k out ≡ shown whole_numbers 5 (some clerk) order_row k (lookup k order_row)))
filter_readable_record_cases_example = filter_readable_record_cases whole_numbers 5 clerk order_row

declared_are_shadowed : find_shadowed (txt "orders") declared ≡ some (hide_cost, show_cost)
unfolding find_shadowed velm.Security.Shadowing.shadowed_from sort_by rule_less
    velm.Security.Shadowing.shadowing velm.Security.Shadowing.shadows ◌==◌
    velm.Security.Shadowing.scope_key velm.Base.trim velm.Base.lower txt
declared_are_shadowed = refl

-- neither the name of the table nor the operation holds a zero byte
orders_key : HasPlainKey (txt "orders") hide_cost
unfolding txt ◌==◌ velm.Base.trim velm.Base.lower velm.Base.is_space
orders_key = (
  (omega arith, (omega arith, (omega arith, (omega arith, (omega arith, (omega arith, tt)))))),
  (omega arith, tt),
)

find_shadowed_inert_example :
    scope_decision whole_numbers 5 clerk (txt "R") (txt "cost") order_row
    ≡ scope_decision whole_numbers 5
        (record clerk {
          rules = without_later (
              find_shadowed-Shadowed
                (txt "orders")
                declared
                hide_cost
                show_cost
                declared_are_shadowed);
        })
        (txt "R")
        (txt "cost")
        order_row
find_shadowed_inert_example =
    find_shadowed_inert whole_numbers 5 (txt "orders") declared hide_cost show_cost
      declared_are_shadowed orders_key orders_key clerk (txt "R") (txt "cost") order_row refl

allows_fields_iff_example :
    (allows_fields whole_numbers 5
        (some clerk)
        (txt "R")
        (txt "status" ∷ [] ∷ txt "cost" ∷ txt "status" ∷ [])
        order_row
      ≡ true)
    ↔ ((allows_record whole_numbers 5 (some clerk) (txt "R") order_row ≡ true)
        × All
            (λ f. allows_field whole_numbers 5 (some clerk) (txt "R") f order_row ≡ true)
            (txt "status" ∷ [] ∷ txt "cost" ∷ txt "status" ∷ []))
allows_fields_iff_example =
    allows_fields_iff whole_numbers 5 clerk (txt "R")
      (txt "status" ∷ [] ∷ txt "cost" ∷ txt "status" ∷ []) order_row

save_preview_iff_example :
    ((save_preview whole_numbers 5 columns
        (some clerk)
        false
        order_row
        closing_form
        []).save_allowed
      ≡ true)
    ↔ (((false ≡ false)
          × (null (changed_record_fields whole_numbers columns order_row closing_form []) ≡ true))
        ⊎ ((allows_record whole_numbers 5
                (some clerk)
                (operation_of whole_numbers 5 columns clerk false)
                (merge_record_snapshot whole_numbers order_row closing_form [])
              ≡ true)
            × All
                (λ f.
                  allows_field whole_numbers 5
                    (some clerk)
                    (operation_of whole_numbers 5 columns clerk false)
                    f
                    (merge_record_snapshot whole_numbers order_row closing_form [])
                  ≡ true)
                (changed_record_fields whole_numbers columns order_row closing_form [])))
save_preview_iff_example =
    save_preview_iff whole_numbers 5 columns clerk false order_row closing_form []

ordered_rules_lem_example :
    Perm
      (ordered_rules (txt "orders") declared)
      (keep (λ rule. rule_table_name rule (txt "orders") == txt "orders") declared)
    × AreInOrder (ordered_rules (txt "orders") declared)
    × ((order : ℕ) (name : Text)
        → keep (has_rank order name) (ordered_rules (txt "orders") declared)
          ≡ keep
              (has_rank order name)
              (keep (λ rule. rule_table_name rule (txt "orders") == txt "orders") declared))
ordered_rules_lem_example = ordered_rules_lem (txt "orders") declared
