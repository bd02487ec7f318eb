-- ===== src/App/Triggers.antt =====
-- AppRuntime.go: the triggers of a table.
pub mod Order
use velm.Base.{
  ℕ, Bool, true, false, not, ◌&&◌, ◌||◌, if◌then◌else◌, Option, none, some, Result, ok, err, ◌>>◌,
  List, [], ◌∷◌, ◌++◌, Text, txt, trim, lower, upper, ◌==◌, has_prefix, any, null, keep, nat_eq,
  ltb, text_lt, sort_by,
}
use velm.Security.Model.{App, member, key_of}
use velm.Security.Roles.{app_role_candidates}
use velm.App.Definition.{Trigger, Table, Method, Service, Endpoint, Definition, RegisteredApp}
use velm.App.Registry.{runtime_definition, runtime_dependency_apps, tables_of}

-- the tests on a trigger of the definition, and on one of a table
unfoldable pub fires_on : Text → Text → Trigger → Bool
unfolding lower trim ◌==◌
fires_on table_name event t = t.enabled && key_of t.table == table_name && key_of t.event == event

abbrev pub on_table : Text → Trigger → Trigger
on_table table_name t = if trim t.table == [] then record t { table = table_name } else t

unfoldable pub on_table_each : Text → List Trigger → List Trigger
unfolding trim ◌==◌
on_table_each name [] = []
on_table_each name (g ∷ triggers) = on_table name g ∷ on_table_each name triggers

-- the loop over the tables, which ends after the first of the name
unfoldable pub table_triggers : Text → Text → List Table → List Trigger
unfolding lower trim ◌==◌ keep on_table_each
table_triggers table_name event [] = []
table_triggers table_name event (t ∷ tables) =
    let rest = table_triggers table_name event tables in
    if key_of t.name == table_name
    then on_table_each t.name (keep (λ g. g.enabled && key_of g.event == event) t.triggers)
    else rest

unfoldable pub has_table : Text → List Table → Bool
unfolding lower trim ◌==◌
has_table name tables = any (λ t. key_of t.name == name) tables

-- the loops of resolveRuntimeAppByTableWithApps
unfoldable pub app_by_table : List RegisteredApp → Text → Option RegisteredApp
unfolding has_table runtime_definition
app_by_table [] name = none
app_by_table (a ∷ apps) name =
    if has_table name (tables_of (runtime_definition a)) then some a else app_by_table apps name

unfoldable pub trigger_less : Trigger → Trigger → Bool
unfolding text_lt
trigger_less x y = if nat_eq x.order y.order then text_lt x.name y.name else ltb x.order y.order

abbrev pub triggers_in : Text → Text → Option Definition → List Trigger
triggers_in table_name event none = []
triggers_in table_name event (some d) =
    sort_by trigger_less
      (keep (fires_on table_name event) d.triggers ++ table_triggers table_name event d.tables)

-- resolveRuntimeTriggersWithApps: the app that has the table, and the triggers, all of that app
unfoldable pub resolve_triggers :
    List RegisteredApp → Text → Text → Option (RegisteredApp × List Trigger)
unfolding app_by_table table_triggers fires_on trigger_less sort_by runtime_definition lower trim
    ◌==◌ keep
resolve_triggers apps table_name event =
    if key_of table_name == [] || key_of event == []
    then none
    else elim (app_by_table apps (key_of table_name)) [
      | none ↦ none
      | some owner ↦
          some (owner, triggers_in (key_of table_name) (key_of event) (runtime_definition owner))
    ]
