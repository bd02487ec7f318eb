-- ===== src/App/Registry.antt =====
-- The registered apps: AppDefinition.go, AppRuntime.go, OOTBApp.go and ScriptScope.go.
use velm.Base.{
  Bool, true, false, not, ◌&&◌, ◌||◌, if◌then◌else◌, Option, none, some, List, [], ◌∷◌, ◌++◌, Text,
  txt, trim, lower, ◌==◌, insert,
}
use velm.App.Definition.{Table, Definition, RegisteredApp}

-- normalizeIdentifier
unfoldable pub normalize_identifier : Text → Text
unfolding lower trim
normalize_identifier value = lower (trim value)

-- strings.EqualFold
abbrev pub equal_fold : Text → Text → Bool
equal_fold a b = lower a == lower b

-- isOOTBBaseAppName
unfoldable pub is_ootb_base_app_name : Text → Text → Bool
unfolding normalize_identifier txt ◌==◌
is_ootb_base_app_name app_name namespace =
    normalize_identifier namespace == [] && normalize_identifier app_name == txt "base"

-- IsOOTBBaseApp
unfoldable pub is_ootb_base_app : RegisteredApp → Bool
unfolding is_ootb_base_app_name
is_ootb_base_app a = is_ootb_base_app_name a.app.name a.app.namespace

-- the first app that a test accepts
unfoldable pub first_app : (RegisteredApp → Bool) → List RegisteredApp → Option RegisteredApp
first_app p [] = none
first_app p (a ∷ apps) = if p a then some a else first_app p apps

-- findExactRegisteredAppByNameOrNamespace
unfoldable pub find_exact_app : List RegisteredApp → Text → Option RegisteredApp
unfolding normalize_identifier first_app ◌==◌ lower
find_exact_app apps raw_name =
    let name = normalize_identifier raw_name in
    if name == []
    then none
    else first_app (λ a. equal_fold a.app.name name || equal_fold a.app.namespace name) apps

-- findRegisteredAppByNameOrNamespace
unfoldable pub find_app : List RegisteredApp → Text → Option RegisteredApp
unfolding find_exact_app normalize_identifier is_ootb_base_app first_app txt ◌==◌
find_app apps raw_name = elim (find_exact_app apps raw_name) [
  | some a ↦ some a
  | none ↦
      if normalize_identifier raw_name == txt "system"
      then first_app is_ootb_base_app apps
      else none
]

abbrev pub or_else : Option Definition → Option Definition → Option Definition
or_else (some d) other = some d
or_else none other = other

-- effectiveRegisteredAppDefinition
unfoldable pub effective_definition : RegisteredApp → Option Definition
effective_definition a = or_else a.draft_definition a.definition

-- runtimeDefinitionForApp
unfoldable pub runtime_definition : RegisteredApp → Option Definition
runtime_definition a = or_else a.definition a.draft_definition

abbrev same_app : RegisteredApp → RegisteredApp → Bool
same_app a candidate =
    let name = trim (lower a.app.name) in
    let namespace = trim (lower a.app.namespace) in
    equal_fold candidate.app.name name
    || (not (namespace == []) && equal_fold candidate.app.namespace namespace)

-- the loop of mergeRegisteredApps: whether an app was replaced, and the apps
unfoldable pub merge_loop : RegisteredApp → List RegisteredApp → Bool × List RegisteredApp
unfolding lower trim ◌==◌
merge_loop a [] = (false, [])
merge_loop a (candidate ∷ apps) =
    let rest = merge_loop a apps in
    if same_app a candidate then (true, a ∷ rest.1) else (rest.0, candidate ∷ rest.1)

-- mergeRegisteredApps
unfoldable pub merge_registered_apps : List RegisteredApp → RegisteredApp → List RegisteredApp
unfolding merge_loop
merge_registered_apps apps a =
    let merged = merge_loop a apps in if merged.0 then merged.1 else merged.1 ++ a ∷ []

abbrev pub with_dependency :
    Option RegisteredApp → List (Text × RegisteredApp) → List (Text × RegisteredApp)
with_dependency none found = found
with_dependency (some a) found = insert a.app.name a found

-- the loop over the dependencies, with the apps found so far by their names; the map is gone through in
-- the order of its keys' first insertion, one of the orders that Go may take
unfoldable pub dependencies_from :
    List RegisteredApp → List Text → List (Text × RegisteredApp) → List (Text × RegisteredApp)
unfolding find_app insert
dependencies_from apps [] found = found
dependencies_from apps (d ∷ dependencies) found =
    dependencies_from apps dependencies (with_dependency (find_app apps d) found)

abbrev pub dependencies_of : List RegisteredApp → Option Definition → List (Text × RegisteredApp)
dependencies_of apps none = []
dependencies_of apps (some d) = dependencies_from apps d.dependencies []

-- dependencyAppsForRegisteredApp
unfoldable pub dependency_apps : List RegisteredApp → RegisteredApp → List (Text × RegisteredApp)
unfolding dependencies_from effective_definition
dependency_apps apps owner = dependencies_of apps (effective_definition owner)

-- runtimeDependencyApps
unfoldable pub runtime_dependency_apps :
    List RegisteredApp → RegisteredApp → List (Text × RegisteredApp)
unfolding dependencies_from runtime_definition
runtime_dependency_apps apps owner = dependencies_of apps (runtime_definition owner)

-- the loop over a definition's tables
unfoldable pub first_table : Text → List Table → Option Table
unfolding ◌==◌
first_table name [] = none
first_table name (t ∷ tables) = if t.name == name then some t else first_table name tables

abbrev pub tables_of : Option Definition → List Table
tables_of none = []
tables_of (some d) = d.tables

abbrev pub owned_by {ℓ} : {A : Type ℓ} → A → Option Table → Option (A × Table)
owned_by a none = none
owned_by a (some t) = some (a, t)

-- the loop over the dependencies' tables
unfoldable pub dependency_table :
    Text → List (Text × RegisteredApp) → Option (RegisteredApp × Table)
unfolding first_table effective_definition
dependency_table name [] = none
dependency_table name ((key, a) ∷ apps) =
    let rest = dependency_table name apps in
    elim (owned_by a (first_table name (tables_of (effective_definition a)))) [
      | some found ↦ some found
      | none ↦ rest
    ]

abbrev pub table_among :
    RegisteredApp
    → List (Text × RegisteredApp)
    → Text
    → Option Definition
    → Option (RegisteredApp × Table)
table_among current dependencies name none = none
table_among current dependencies name (some d) =
    elim (owned_by current (first_table name d.tables)) [
      | some found ↦ some found
      | none ↦ dependency_table name dependencies
    ]

-- resolveValidationTable
unfoldable pub resolve_validation_table :
    RegisteredApp
    → Option Definition
    → List (Text × RegisteredApp)
    → Text
    → Option (RegisteredApp × Table)
unfolding dependency_table effective_definition lower trim first_table
resolve_validation_table current definition dependencies table_name =
    table_among current dependencies (trim (lower table_name))
      (or_else definition (effective_definition current))
