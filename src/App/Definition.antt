-- ===== src/App/Definition.antt =====
-- AppDefinition.go: the definition of an app, the fields that the model reads.
use velm.Base.{ℕ, Bool, Option, List, Text}
use velm.Security.Model.{App}

-- AppDefinitionColumn
pub record DefinitionColumn : Type 0 where
  pub name : Text
  pub data_type : Text
  pub prefix : Text

-- AppDefinitionTrigger; the order is the int of the definition shifted by 2^63
pub record Trigger : Type 0 where
  pub name : Text
  pub event : Text
  pub table : Text
  pub call : Text
  pub order : ℕ
  pub enabled : Bool

-- AppDefinitionTable
pub record Table : Type 0 where
  pub name : Text
  pub extends : Text
  pub label_singular : Text
  pub columns : List DefinitionColumn
  pub triggers : List Trigger

-- AppDefinitionMethod
pub record Method : Type 0 where
  pub name : Text
  pub visibility : Text
  pub roles : List Text

-- AppDefinitionService
pub record Service : Type 0 where
  pub name : Text
  pub methods : List Method

-- AppDefinitionEndpoint
pub record Endpoint : Type 0 where
  pub name : Text
  pub method : Text
  pub path : Text
  pub call : Text
  pub roles : List Text
  pub enabled : Bool

-- AppDefinition
pub record Definition : Type 0 where
  pub dependencies : List Text
  pub tables : List Table
  pub services : List Service
  pub endpoints : List Endpoint
  pub triggers : List Trigger

-- RegisteredApp: `app` has its id, name and namespace
pub record RegisteredApp : Type 0 where
  pub app : App
  pub definition : Option Definition
  pub draft_definition : Option Definition
