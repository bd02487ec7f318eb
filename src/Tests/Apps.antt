-- ===== src/Tests/Apps.antt =====
-- Apps on concrete inputs: one with tables of tasks, and one that depends on it.
use velm.Base.{true, ◌≡◌, ◌≢◌, refl, none, some, ok, err, List, [], ◌∷◌, Text, txt}
use velm.Schema.DataTypes.{is_auto_number_prefix}
use velm.App.Definition.{DefinitionColumn, Trigger, Table, Method, Endpoint, RegisteredApp}
use velm.App.Inheritance.{
  out_of_fuel, cyclic, enough, resolve_columns, derived_task_auto_number_prefix,
}
use velm.App.Inheritance.Ancestors.{Inherits, typed_names, resolve_columns-Inherits}
use velm.App.Inheritance.Fuel.{resolve_columns_total}
use velm.App.Inheritance.Prefixes.{derived_prefix-valid}
use velm.App.Descendants.{descendant_table_names}

abbrev pub column : Text → Text → DefinitionColumn
column name data_type = record { name = name; data_type = data_type; prefix = txt "TASK" }

abbrev pub base_task : Table
base_task = record {
  name = txt "base_task";
  extends = [];
  label_singular = txt "Task";
  columns = column (txt "number") (txt "autnumber") ∷ column (txt "title") (txt "text") ∷ [];
  triggers = [];
}

abbrev pub notify : Trigger
notify = record {
  name = txt "notify";
  event = txt "created";
  table = txt "it_incident";
  call = txt "mail.send";
  order = 1;
  enabled = true;
}

abbrev pub incident : Table
incident = record {
  name = txt "it_incident";
  extends = txt "base_task";
  label_singular = txt "Incident";
  columns = column (txt "severity") (txt "text") ∷ [];
  triggers = [];
}

abbrev pub loop_table : Table
loop_table = record {
  name = txt "it_loop";
  extends = txt "it_loop";
  label_singular = txt "Loop";
  columns = [];
  triggers = [];
}

abbrev pub ping : Endpoint
ping = record {
  name = txt "ping";
  method = txt "get";
  path = txt "ping/";
  call = txt "mail.send";
  roles = txt "authenticated" ∷ [];
  enabled = true;
}

abbrev pub send : Method
send = record { name = txt "send"; visibility = txt "public"; roles = txt "clerk" ∷ [] }

abbrev pub tasks_app : RegisteredApp
tasks_app = record {
  app = record { id = txt "1"; name = txt "tasks"; namespace = txt "tasks" };
  definition = some (record {
    dependencies = [];
    tables = base_task ∷ [];
    endpoints = [];
    triggers = [];
    services = record { name = txt "mail"; methods = send ∷ [] } ∷ [];
  });
  draft_definition = none;
}

abbrev pub it_app : RegisteredApp
it_app = record {
  app = record { id = txt "2"; name = txt "it"; namespace = txt "it" };
  definition = some (record {
    dependencies = txt "tasks" ∷ [];
    tables = incident ∷ loop_table ∷ [];
    endpoints = ping ∷ [];
    triggers = notify ∷ [];
    services = [];
  });
  draft_definition = none;
}

abbrev pub apps : List RegisteredApp
apps = tasks_app ∷ it_app ∷ []

abbrev pub incident_columns : List DefinitionColumn
incident_columns =
    record { name = txt "number"; data_type = txt "autnumber"; prefix = txt "INCI" }
    ∷ column (txt "title") (txt "text")
    ∷ column (txt "severity") (txt "text")
    ∷ []

columns_of_incident :
    resolve_columns (enough apps it_app) apps it_app incident [] ≡ ok incident_columns
unfolding resolve_columns
columns_of_incident = refl

loop_is_refused :
    resolve_columns (enough apps it_app) apps it_app loop_table [] ≡ err (cyclic (txt "it_loop"))
unfolding resolve_columns
loop_is_refused = refl

descendants_of_task : descendant_table_names apps (txt "base_task") ≡ txt "it_incident" ∷ []
unfolding descendant_table_names
descendants_of_task = refl

resolve_columns_total_example :
    resolve_columns (enough apps it_app) apps it_app loop_table [] ≢ err out_of_fuel
resolve_columns_total_example = resolve_columns_total apps it_app loop_table

resolve_columns-Inherits_example :
    (inherited : List DefinitionColumn) × Inherits apps it_app incident inherited
    × (typed_names incident_columns ≡ typed_names inherited)
unfolding resolve_columns
resolve_columns-Inherits_example =
    resolve_columns-Inherits apps it_app incident incident_columns refl

derived_prefix-valid_example :
    is_auto_number_prefix (derived_task_auto_number_prefix it_app incident) ≡ true
derived_prefix-valid_example = derived_prefix-valid it_app incident
