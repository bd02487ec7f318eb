-- ===== src/App/Inheritance.antt =====
-- The columns of a table that extends others: AppDefinition.go, AppPublish.go and AutoNumber.go. The set
-- of the visited tables, from which a call takes its table when it returns, is an argument of the calls.
pub mod Counting
pub mod Known
pub mod Reached
pub mod Ancestors
pub mod Prefixes
pub mod Fuel
use velm.Base.{
  ℕ, zero, suc, ◌-◌, Bool, true, false, not, ◌&&◌, ◌||◌, if◌then◌else◌, Option, none, some, Result,
  ok, err, ◌>>=◌, List, [], ◌∷◌, ◌++◌, Text, txt, trim, lower, ◌==◌, has_prefix, cut_prefix, length,
  null, leb, nat_eq, is_lower_letter, is_upper_letter, take_bytes,
}
use velm.Security.Model.{member, key_of}
use velm.Schema.DataTypes.{is_data_type}
use velm.App.Definition.{DefinitionColumn, Table, Definition, RegisteredApp}
use velm.App.Registry.{effective_definition, dependency_apps, tables_of, resolve_validation_table}

pub data Failure : Type 0 where
  name_required : Failure
  cyclic : Text → Failure
  no_definition : Text → Failure
  not_found : Text → Failure
  -- the model's own: a chain of tables was given too few steps
  out_of_fuel : Failure

-- the key of a table among the visited ones
unfoldable pub table_key : RegisteredApp → Table → Text
unfolding lower trim txt
table_key owner table = key_of owner.app.name ++ txt ":" ++ key_of table.name

abbrev pub all_tables : List RegisteredApp → List Table
all_tables [] = []
all_tables (a ∷ apps) = tables_of a.definition ++ (tables_of a.draft_definition ++ all_tables apps)

-- A step for each table that is registered, one for the table itself and one more.
abbrev pub enough : List RegisteredApp → RegisteredApp → ℕ
enough apps owner = suc (suc (length (all_tables (owner ∷ apps))))

-- definitionTableExtendsTargetWithApps; `none` is the model's own, for too few steps
unfoldable pub extends_target :
    ℕ → List RegisteredApp → RegisteredApp → Table → Text → List Text → Option Bool
unfolding table_key lower trim ◌==◌ resolve_validation_table dependency_apps member
extends_target zero apps owner table target visited = none
extends_target (suc f) apps owner table target visited =
    let name = key_of table.name in
    if name == key_of target
    then some true
    else if name == [] || member (table_key owner table) visited || trim table.extends == []
    then some false
    else elim owner.definition [
      | none ↦ some false
      | some d ↦
          elim (resolve_validation_table owner (some d) (dependency_apps apps owner)
            table.extends) [
              | none ↦ some false
              | some (parent_app, parent) ↦
                  extends_target f apps parent_app parent (key_of target)
                    (table_key owner table ∷ visited)
            ]
    ]

-- compactAutoNumberPrefixCandidate, after the spaces are gone
unfoldable pub compact_prefix : Text → Text
compact_prefix [] = []
compact_prefix (c ∷ s) =
    let rest = compact_prefix s in
    if is_lower_letter c then (c - 32) ∷ rest else if is_upper_letter c then c ∷ rest else rest

-- the loop over the prefixes of scriptScopeAliasForTable
unfoldable pub alias_by : List Text → Text → Option Text
unfolding cut_prefix ◌==◌
alias_by [] name = none
alias_by (p ∷ prefixes) name =
    let rest = alias_by prefixes name in
    elim (cut_prefix name p) [ none ↦ rest | some alias ↦ if alias == [] then rest else some alias ]

-- a name without the underscore before it, if that leaves something
abbrev without_underscore : Text → Text
without_underscore [] = []
without_underscore (c ∷ []) = c ∷ []
without_underscore (c ∷ d ∷ s) = if nat_eq c 95 then d ∷ s else c ∷ d ∷ s

abbrev scope_prefix : Text → Text
scope_prefix scope = scope ++ txt "_"

-- scriptScopeAliasForTable
unfoldable pub script_scope_alias_for_table : RegisteredApp → Text → Text
unfolding alias_by lower trim txt ◌==◌
script_scope_alias_for_table owner table_name =
    let name = key_of table_name in
    let namespace = key_of owner.app.namespace in
    let app_name = key_of owner.app.name in
    let prefixes =
      (if namespace == [] then [] else scope_prefix namespace ∷ [])
      ++ (if app_name == [] || app_name == namespace then [] else scope_prefix app_name ∷ []) in
    if name == []
    then []
    else elim (alias_by prefixes name) [ some alias ↦ alias | none ↦ without_underscore name ]

-- the loop of derivedTaskAutoNumberPrefix
unfoldable pub first_prefix : List Text → Text
unfolding compact_prefix trim take_bytes txt
first_prefix [] = txt "TASK"
first_prefix (candidate ∷ candidates) =
    let rest = first_prefix candidates in
    let prefix = compact_prefix (trim candidate) in
    if leb 4 (length prefix)
    then take_bytes 4 prefix
    else if nat_eq (length prefix) 3
    then prefix
    else rest

-- derivedTaskAutoNumberPrefix
unfoldable pub derived_task_auto_number_prefix : RegisteredApp → Table → Text
unfolding first_prefix script_scope_alias_for_table trim
derived_task_auto_number_prefix owner table =
    first_prefix
      (trim table.label_singular ∷ script_scope_alias_for_table owner table.name ∷ table.name ∷ [])

-- the loop of applyDerivedTaskAutoNumberPrefix
unfoldable pub with_prefix : Text → List DefinitionColumn → List DefinitionColumn
unfolding lower trim txt ◌==◌ is_data_type
with_prefix prefix [] = []
with_prefix prefix (c ∷ columns) =
    let rest = with_prefix prefix columns in
    if key_of c.name == txt "number" && is_data_type (txt "autnumber") c.data_type
    then record { name = c.name; data_type = c.data_type; prefix = prefix } ∷ columns
    else c ∷ rest

abbrev pub prefixed : Option Bool → Text → List DefinitionColumn → List DefinitionColumn
prefixed (some true) prefix columns = with_prefix prefix columns
prefixed _ prefix columns = columns

-- applyDerivedTaskAutoNumberPrefix
unfoldable pub apply_derived_prefix :
    List RegisteredApp → RegisteredApp → Table → List DefinitionColumn → List DefinitionColumn
unfolding extends_target derived_task_auto_number_prefix with_prefix lower trim txt ◌==◌
apply_derived_prefix apps owner table columns =
    if key_of table.name == [] || key_of table.name == txt "base_task"
    then columns
    else prefixed (extends_target (enough apps owner) apps owner table (txt "base_task") [])
        (derived_task_auto_number_prefix owner table) columns

abbrev pub found_or :
    Failure → Option (RegisteredApp × Table) → Result {0, 0} Failure (RegisteredApp × Table)
found_or failure none = err failure
found_or failure (some p) = ok p

-- the table that a table extends, and its app
unfoldable pub parent_of :
    List RegisteredApp → RegisteredApp → Table → Result {0, 0} Failure (RegisteredApp × Table)
unfolding effective_definition resolve_validation_table dependency_apps
parent_of apps owner table = elim (effective_definition owner) [
  | none ↦ err (no_definition owner.app.name)
  | some d ↦
      found_or (not_found table.extends)
        (resolve_validation_table owner (some d) (dependency_apps apps owner) table.extends)
]

-- resolveDefinitionColumnsWithApps
unfoldable pub resolve_columns :
    ℕ
    → List RegisteredApp
    → RegisteredApp
    → Table
    → List Text
    → Result {0, 0} Failure (List DefinitionColumn)
unfolding table_key lower trim ◌==◌ member parent_of apply_derived_prefix
resolve_columns zero apps owner table visited = err out_of_fuel
resolve_columns (suc f) apps owner table visited =
    if key_of table.name == []
    then err name_required
    else if member (table_key owner table) visited
    then err (cyclic (key_of table.name))
    else if trim table.extends == []
    then ok table.columns
    else parent_of apps owner table
      >>= (λ parent. resolve_columns f apps parent.0 parent.1 (table_key owner table ∷ visited))
      >>= (λ inherited. ok (apply_derived_prefix apps owner table (inherited ++ table.columns)))
