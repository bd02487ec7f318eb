-- ===== src/App/Triggers/Order.antt =====
-- Which triggers run, and in which order.
use velm.Base.{
  ◌≡◌, arith, Bool, true, false, ◌&&◌, ◌||◌, Option, none, some, List, [], ◌∷◌, Text, trim, ◌==◌,
  keep, All, All-append, All-keep_test, All-imp, Holds, text_lt-asym, IsSorted, sort_by-IsSorted,
  sort_by-All, inl, inr, Bool-cases,
}
use mathlib.Core.Path.{subst}
use velm.Security.Model.{key_of}
use velm.App.Definition.{Trigger, Table, Definition, RegisteredApp}
use velm.App.Registry.{runtime_definition, tables_of}
use velm.App.Triggers.{
  fires_on, on_table, on_table_each, table_triggers, has_table, app_by_table, trigger_less,
  triggers_in, resolve_triggers,
}

trigger_less-asym : (x y : Trigger) → trigger_less x y ≡ true → trigger_less y x ≡ false
unfolding trigger_less
trigger_less-asym x y h = ground (arith, text_lt-asym x.name y.name)

-- A trigger that is enabled and of the event.
abbrev Fires : Text → Trigger → Type 0
Fires event t = (t.enabled && key_of t.event == event) ≡ true

on_table-Fires : (name event : Text) (t : Trigger) → Fires event t → Fires event (on_table name t)
on_table-Fires name event t h = elim (Bool-cases (trim t.table == [])) [
  | inl e ↦ rw e h
  | inr e ↦ rw e h
]

on_table_each-Fires :
    (name event : Text) (triggers : List Trigger)
    → All (Fires event) triggers
    → All (Fires event) (on_table_each name triggers)
unfolding on_table_each
on_table_each-Fires name event [] h = tt
on_table_each-Fires name event (t ∷ triggers) (h, more) =
    (on_table-Fires name event t h, on_table_each-Fires name event triggers more)

table_triggers-Fires :
    (name event : Text) (tables : List Table) → All (Fires event) (table_triggers name event tables)
unfolding table_triggers
table_triggers-Fires name event [] = tt
table_triggers-Fires name event (t ∷ tables) = elim (Bool-cases (key_of t.name == name)) [
  | inl e ↦ rw e (on_table_each-Fires t.name event _ (All-keep_test _ t.triggers))
  | inr e ↦ rw e (table_triggers-Fires name event tables)
]

fires_on-Fires : (name event : Text) (t : Trigger) → fires_on name event t ≡ true → Fires event t
unfolding fires_on
fires_on-Fires name event t h =
    without_middle t.enabled (key_of t.table == name) (key_of t.event == event) h
  where
    without_middle : (a b c : Bool) → (a && b && c) ≡ true → (a && c) ≡ true
    without_middle a b c k = ground arith

-- The app has the table, and its triggers are enabled, of the event and in order.
abbrev Ordered : Text → Text → RegisteredApp × List Trigger → Type 0
Ordered name event (owner, triggers) =
    (has_table name (tables_of (runtime_definition owner)) ≡ true)
    × All (Fires event) triggers
    × IsSorted trigger_less triggers

triggers_in-Fires :
    (name event : Text) (d : Option Definition) → All (Fires event) (triggers_in name event d)
triggers_in-Fires name event none = tt
triggers_in-Fires name event (some d) = sort_by-All trigger_less (Fires event) _ (
    All-append (Fires event) (keep (fires_on name event) d.triggers)
      (table_triggers name event d.tables)
      (All-imp _ (Fires event) (fires_on-Fires name event) _
        (All-keep_test (fires_on name event) d.triggers))
      (table_triggers-Fires name event d.tables))

triggers_in-IsSorted :
    (name event : Text) (d : Option Definition) → IsSorted trigger_less (triggers_in name event d)
triggers_in-IsSorted name event none = tt
triggers_in-IsSorted name event (some d) = sort_by-IsSorted trigger_less trigger_less-asym _

app_by_table-Holds :
    (apps : List RegisteredApp) (name : Text)
    → Holds (λ a. has_table name (tables_of (runtime_definition a)) ≡ true) (app_by_table apps name)
unfolding app_by_table
app_by_table-Holds [] name = tt
app_by_table-Holds (a ∷ apps) name =
    elim (Bool-cases (has_table name (tables_of (runtime_definition a)))) [
      | inl e ↦ rw e e
      | inr e ↦ rw e (app_by_table-Holds apps name)
    ]

resolve-Ordered :
    (apps : List RegisteredApp) (table event : Text)
    → Holds (Ordered (key_of table) (key_of event)) (resolve_triggers apps table event)
unfolding resolve_triggers
resolve-Ordered apps table event = elim (Bool-cases (key_of table == [] || key_of event == [])) [
  | inl e ↦ rw e tt
  | inr e ↦ rw e (go (app_by_table apps (key_of table)) (app_by_table-Holds apps (key_of table)))
]
  where
    go :
        (o : Option RegisteredApp)
        → Holds (λ a. has_table (key_of table) (tables_of (runtime_definition a)) ≡ true) o
        → Holds (Ordered (key_of table) (key_of event)) (elim o [
          | none ↦ none
          | some owner ↦
              some (owner, triggers_in (key_of table) (key_of event) (runtime_definition owner))
        ])
    go none h = tt
    go (some owner) h = (
      h,
      triggers_in-Fires (key_of table) (key_of event) (runtime_definition owner),
      triggers_in-IsSorted (key_of table) (key_of event) (runtime_definition owner),
    )

-- The triggers that run for a table's event are of an app that has the table; each is enabled and of the
-- event, and they run by rising order, and by name within one order.
pub resolve_triggers-IsSorted :
    (apps : List RegisteredApp) (table event : Text) (owner : RegisteredApp)
    (triggers : List Trigger)
    → resolve_triggers apps table event ≡ some (owner, triggers)
    → (has_table (key_of table) (tables_of (runtime_definition owner)) ≡ true)
      × All (λ t. (t.enabled && key_of t.event == key_of event) ≡ true) triggers
      × IsSorted trigger_less triggers
resolve_triggers-IsSorted apps table event owner triggers h =
    subst (Holds (Ordered (key_of table) (key_of event))) h (resolve-Ordered apps table event)
