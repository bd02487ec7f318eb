-- ===== src/Task/Model.antt =====
-- TaskDefinition, TaskSpawnRule, the rows of base_task, and the operations on a database that may
-- fail.
use velm.Base.{ℕ, Bool, not, ◌&&◌, if◌then◌else◌, Option, none, some}
use velm.Base.{Result, ok, err, List, [], ◌∷◌, Text, ◌==◌}

-- A JSON value: `scalar` is a number, a Boolean or an array, by its text.
mutual
  pub data Json : Type 0 where
    null : Json
    text : Text → Json
    scalar : Text → Json
    object : Members → Json

  pub data Members : Type 0 where
    no_members : Members
    member : Text → Json → Members → Members

unfoldable pub find_member : Text → Members → Option Json
find_member k no_members = none
find_member k (member j v m) = if j == k then some v else find_member k m

unfoldable pub put_member : Text → Json → Members → Members
put_member k v no_members = member k v no_members
put_member k v (member j w m) = if j == k then member k v m else member j w (put_member k v m)

-- `v.(map[string]any)`
abbrev pub as_object : Option Json → Option Members
as_object none = none
as_object (some (object m)) = some m
as_object (some null) = none
as_object (some (text s)) = none
as_object (some (scalar s)) = none

pub record SpawnRule : Type 0 where
  pub on : Text
  pub definition_slug : Text
  pub input_mapping : Members
  pub assign : Text

-- `is_deleted` is whether the row's `_deleted_at` is set, here and below.
pub record Definition : Type 0 where
  pub id : Text
  pub slug : Text
  pub display_name : Text
  pub is_container : Bool
  pub script_text : Text
  pub run_if_script : Text
  pub default_group_id : Text
  pub spawn_rules : List SpawnRule
  pub is_active : Bool
  pub is_deleted : Bool

-- The columns of base_task that the engine reads or writes; a null text is `none`.
pub record Task : Type 0 where
  pub id : Text
  pub number : ℕ
  pub title : Text
  pub state : Text
  pub parent_task_id : Option Text
  pub assignment_group_id : Option Text
  pub requested_by_user_id : Option Text
  pub definition_id : Option Text
  pub variables : Members
  pub closure_reason : Text
  pub is_deleted : Bool

-- A row of base_task_definition_child, in the order of its query.
pub record ChildRow : Type 0 where
  pub container_id : Text
  pub child_definition_id : Text

pub record Db : Type 0 where
  pub tasks : List Task
  pub definitions : List Definition
  pub children : List ChildRow
  pub next_number : ℕ

pub data Failure : Type 0 where
  no_such_task : Text → Failure
  invalid_transition : Text → Text → Failure
  no_such_definition : Text → Failure
  inactive_definition : Text → Failure
  unknown_follow_on : Text → Failure
  not_a_boolean : Failure
  script_failed : Failure
  -- the model's own: containers are nested deeper than the fuel
  out_of_fuel : Failure

-- A step of a transaction.
abbrev pub Tx : Type 0 → Type 0
Tx A = Db → Result Failure (A × Db)

infixl 5 ◌>>=◌ ◌>>◌
abbrev pub ◌>>=◌ : {A B : Type 0} → Tx A → (A → Tx B) → Tx B
◌>>=◌ m f db = elim (m db) [ err e ↦ err e | ok p ↦ f (p.0) (p.1) ]

abbrev pub ◌>>◌ : {A B : Type 0} → Tx A → Tx B → Tx B
m >> n = m >>= λ _. n

abbrev pub return : {A : Type 0} → A → Tx A
return a db = ok (a, db)

abbrev pub fail : {A : Type 0} → Failure → Tx A
fail e db = err e

-- Begin, then Commit, or Rollback on an error: the database after it, and the error.
-- The tables and the counters of ids are as before if it fails; a sequence of the database would
-- keep what it gave out.
abbrev pub transaction : {A : Type 0} → Tx A → Db → Result Failure A × Db
transaction m db = elim (m db) [ err e ↦ (err e, db) | ok p ↦ (ok (p.0), p.1) ]

-- the row of an id, and the row that is not deleted
unfoldable pub task_by_id : Text → List Task → Option Task
task_by_id id [] = none
task_by_id id (t ∷ ts) = if t.id == id then some t else task_by_id id ts

-- UPDATE base_task SET … WHERE _id = …
unfoldable pub update_task : Text → (Task → Task) → List Task → List Task
update_task id f [] = []
update_task id f (t ∷ ts) = (if t.id == id then f t else t) ∷ update_task id f ts

unfoldable pub definition_by_id : Text → List Definition → Option Definition
definition_by_id id [] = none
definition_by_id id (d ∷ ds) =
    if d.id == id && not d.is_deleted then some d else definition_by_id id ds

unfoldable pub definition_by_slug : Text → List Definition → Option Definition
definition_by_slug slug [] = none
definition_by_slug slug (d ∷ ds) =
    if d.slug == slug && d.is_active && not d.is_deleted then some d else definition_by_slug slug ds

unfoldable pub children_of : Text → List ChildRow → List Text
children_of id [] = []
children_of id (c ∷ cs) =
    let rest = children_of id cs in
    if c.container_id == id then c.child_definition_id ∷ rest else rest
