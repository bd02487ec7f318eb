-- ===== src/Task/Spawning.antt =====
-- spawnTaskForDefinition, and SpawnTaskInstance. A container spawns its children at once, each by
-- the same function; the fuel bounds how deep containers are nested. `new_id` is the id that the
-- database gives to the row with a number.
pub mod Ready
pub mod Depth
use velm.Base.{
  ℕ, zero, suc, ◌+◌, Bool, true, false, not, if◌then◌else◌, Option, none, some, Result, ok, err,
}
use velm.Base.{List, [], ◌∷◌, ◌++◌, Text, txt, ◌==◌}
use velm.Task.Model.{
  Json, object, Members, no_members, member, Definition, Task, Db, Tx, Failure, inactive_definition,
  no_such_definition, out_of_fuel, definition_by_id, children_of, ◌>>=◌, ◌>>◌, return, fail,
}

-- the closure `nullable`
abbrev pub nullable : Text → Option Text
nullable s = if s == [] then none else some s

-- the variables of a new task
abbrev pub initial_variables : Members → Members
initial_variables inputs = member (txt "inputs") (object inputs) (
    member (txt "locals") (object no_members)
      (member (txt "outputs") (object no_members) no_members))

-- getTaskDefinition
unfoldable pub get_task_definition : Text → Tx Definition
get_task_definition id db = elim (definition_by_id id db.definitions) [
  | none ↦ err (no_such_definition id)
  | some d ↦ ok (d, db)
]

module _ (new_id : ℕ → Text) where
  -- INSERT INTO base_task … RETURNING _id
  unfoldable pub insert_task : Definition → Text → Text → Members → Tx Text
  insert_task def parent requested_by inputs db =
      let id = new_id db.next_number in
      let row : Task = record {
        id = id;
        number = db.next_number;
        title = def.display_name;
        state = txt "ready";
        parent_task_id = nullable parent;
        assignment_group_id = nullable def.default_group_id;
        requested_by_user_id = nullable requested_by;
        definition_id = some def.id;
        variables = initial_variables inputs;
        closure_reason = [];
        is_deleted = false;
      } in
      ok (id, record db { tasks = db.tasks ++ row ∷ []; next_number = db.next_number + 1 })

  -- the loop over the children, each spawned by the function `spawn`
  unfoldable pub spawn_each : (Text → Tx Text) → List Text → Tx (Unit {0})
  spawn_each spawn [] = return tt
  spawn_each spawn (child ∷ children) = do spawn child; spawn_each spawn children

  -- the children of a container
  unfoldable pub spawn_children : (Text → Tx Text) → Definition → Tx (Unit {0})
  spawn_children spawn def db =
      if def.is_container then spawn_each spawn (children_of def.id db.children) db else ok (tt, db)

  -- spawnTaskForDefinition
  unfoldable pub spawn_task_for_definition : ℕ → Definition → Text → Text → Members → Tx Text
  spawn_task_for_definition zero def parent requested_by inputs db = err out_of_fuel
  spawn_task_for_definition (suc fuel) def parent requested_by inputs db =
      let spawn_child : Text → Text → Tx Text = λ task_id child_id.
        (get_task_definition child_id >>= λ child.
        spawn_task_for_definition fuel child task_id requested_by no_members) in
      if not def.is_active
      then err (inactive_definition def.slug)
      else (insert_task def parent requested_by inputs >>= λ task_id.
            spawn_children (spawn_child task_id) def >>= λ _. return task_id)
          db

  -- SpawnTaskInstance, and spawnTaskForDefinitionByID
  unfoldable pub spawn_task_instance : ℕ → Text → Text → Text → Members → Tx Text
  spawn_task_instance fuel definition_id parent requested_by inputs = do
    def ← get_task_definition definition_id
    spawn_task_for_definition fuel def parent requested_by inputs
