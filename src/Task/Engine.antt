-- ===== src/Task/Engine.antt =====
-- StartTask, CompleteTask and what they run. A script is run by the JavaScript engine: it is the
-- argument `run_script` of the code, the task, its variables and the actor, which may write to the
-- database and answers with a value or an error.
pub mod Transitions
pub mod Steps
pub mod Starting
pub mod Completing
pub mod Closing
use velm.Base.{ℕ, Bool, true, false, not, ◌&&◌, if◌then◌else◌, Option, none, some, Result, ok, err}
use velm.Base.{List, [], ◌∷◌, Text, txt, trim, ◌==◌}
use velm.Task.States.{allowed_task_transition}
use velm.Task.Model.{
  Json, object, Members, no_members, find_member, put_member, as_object, SpawnRule, Definition,
  Task, Db, Tx, Failure, no_such_task, invalid_transition, unknown_follow_on, not_a_boolean,
  task_by_id, update_task, definition_by_slug, ◌>>=◌, ◌>>◌, return, fail, transaction,
}
use velm.Task.Scope.{bind_inputs}
use velm.Task.Spawning.{get_task_definition, spawn_task_for_definition}

-- `result.(bool)`
pub data ScriptValue : Type 0 where
  boolean : Bool → ScriptValue
  other_value : ScriptValue

-- the row that a query with `_deleted_at IS NULL` finds
abbrev pub live : Option Task → Option Task
live none = none
live (some t) = if t.is_deleted then none else some t

abbrev pub set_state : Text → Task → Task
set_state state t = record t { state = state }

-- the second half of transitionTaskInTx
unfoldable pub transition_from : Text → Text → Option Task → Tx (Unit {0})
transition_from id to none db = err (no_such_task id)
transition_from id to (some t) db =
    if allowed_task_transition t.state to
    then ok (tt, record db { tasks = update_task id (set_state to) db.tasks })
    else err (invalid_transition t.state to)

-- transitionTaskInTx
unfoldable pub transition_task : Text → Text → Tx (Unit {0})
transition_task id to db = transition_from id to (live (task_by_id id db.tasks)) db

abbrev pub text_or_empty : Option Text → Text
text_or_empty none = []
text_or_empty (some s) = s

abbrev pub definition_of : Option Task → Text
definition_of none = []
definition_of (some t) = text_or_empty t.definition_id

-- getDefinitionIDByTaskID, empty where there is none
unfoldable pub get_definition_id : Text → Db → Text
get_definition_id id db = definition_of (task_by_id id db.tasks)

abbrev pub variables_of : Text → Option Task → Tx Members
variables_of id none db = err (no_such_task id)
variables_of id (some t) db = ok (t.variables, db)

-- readTaskVariables
unfoldable pub read_task_variables : Text → Tx Members
read_task_variables id db = variables_of id (task_by_id id db.tasks) db

abbrev pub as_boolean : ScriptValue → Tx Bool
as_boolean (boolean b) = return b
as_boolean other_value = fail not_a_boolean

-- the parent of a task, and the object of its outputs
abbrev pub outputs_of : Task → Option Members
outputs_of t = as_object (find_member (txt "outputs") t.variables)

abbrev pub or_no_members : Option Members → Members
or_no_members none = no_members
or_no_members (some m) = m

-- parentVars with the outputs of the child of a slug
unfoldable pub with_outputs : Text → Members → Members → Members
with_outputs slug outputs vars =
    put_member (txt "outputs")
      (object (
        put_member slug (object outputs)
          (or_no_members (as_object (find_member (txt "outputs") vars)))))
      vars

-- SELECT slug … WHERE _id: of a deleted definition too
unfoldable pub slug_by_id : Text → List Definition → Option Text
slug_by_id id [] = none
slug_by_id id (d ∷ ds) = if d.id == id then some d.slug else slug_by_id id ds

abbrev pub publish_to : Text → Option Members → Option Text → Db → Db
publish_to parent none slug db = db
publish_to parent (some outputs) none db = db
publish_to parent (some outputs) (some slug) db = if parent == [] then db else record db {
  tasks =
      update_task parent (λ t. record t { variables = with_outputs slug outputs t.variables })
        db.tasks;
}

-- the publishing part of onTaskClosed
unfoldable pub publish_outputs : Task → Db → Db
publish_outputs t db =
    publish_to (text_or_empty t.parent_task_id) (outputs_of t)
      (if text_or_empty t.definition_id == []
        then none
        else slug_by_id (text_or_empty t.definition_id) db.definitions)
      db

-- the group that a follow-on is made with
abbrev pub with_group : Option Text → Definition → Definition
with_group none def = def
with_group (some group) def = record def { default_group_id = group }

module _ (new_id : ℕ → Text) (fuel : ℕ)
    (run_script : Text → Text → Members → Text → Tx ScriptValue) where
  -- evalTaskCondition
  unfoldable pub eval_task_condition : Text → Text → Members → Text → Tx Bool
  eval_task_condition id code vars actor = do
    value ← run_script code id vars actor
    as_boolean value

  -- the script of a definition, if it has one
  unfoldable pub run_task_script : Definition → Text → Members → Text → Tx (Unit {0})
  run_task_script def id vars actor =
      if trim def.script_text == []
      then return tt
      else do run_script def.script_text id vars actor; return tt

  -- runTaskHooks after it has found the definition and the variables
  unfoldable pub run_hooks_of : Definition → Text → Members → Text → Tx (Unit {0})
  run_hooks_of def id vars actor =
      if trim def.run_if_script == [] then run_task_script def id vars actor else do
        allowed ← eval_task_condition id def.run_if_script vars actor
        if allowed then run_task_script def id vars actor else transition_task id (txt "skipped")

  -- runTaskHooks
  unfoldable pub run_task_hooks : Text → Text → Tx (Unit {0})
  run_task_hooks id actor db =
      if get_definition_id id db == []
      then ok (tt, db)
      else (get_task_definition (get_definition_id id db) >>= λ def.
            read_task_variables id >>= λ vars. run_hooks_of def id vars actor)
          db

  -- the body of StartTask
  unfoldable pub start_in_tx : Text → Text → Tx (Unit {0})
  start_in_tx id actor = do transition_task id (txt "in_progress"); run_task_hooks id actor

  -- StartTask
  unfoldable pub start_task : Text → Text → Db → Result Failure (Unit {0}) × Db
  start_task id actor = transaction (start_in_tx id actor)

  unfoldable pub follow_on_of :
      Text → Option Text → Text → Members → Option Definition → Tx (Unit {0})
  follow_on_of slug group requested_by inputs none = fail (unknown_follow_on slug)
  follow_on_of slug group requested_by inputs (some d) = do
    def ← get_task_definition (d.id)
    spawn_task_for_definition new_id fuel (with_group group def) [] requested_by inputs
    return tt

  -- spawnFollowOn
  unfoldable pub spawn_follow_on : Text → Option Text → Text → Members → Tx (Unit {0})
  spawn_follow_on slug group requested_by inputs db =
      follow_on_of slug group requested_by inputs (definition_by_slug slug db.definitions) db

  -- the loop of fireSpawnRules: the group is a variable outside the loop, which a rule of the pool
  -- sets to nil
  unfoldable pub fire_rules : Text → Text → Members → Option Text → List SpawnRule → Tx (Unit {0})
  fire_rules reason actor vars group [] = return tt
  fire_rules reason actor vars group (rule ∷ rules) =
      let group' = if rule.assign == txt "pool" then none else group in
      if not (rule.on == reason) then fire_rules reason actor vars group rules else do
        spawn_follow_on rule.definition_slug group' actor
            (bind_inputs vars no_members rule.input_mapping)
        fire_rules reason actor vars group' rules

  abbrev pub group_of : Option Task → Option Text
  group_of none = none
  group_of (some t) = t.assignment_group_id

  -- fireSpawnRules
  unfoldable pub fire_spawn_rules : Text → Text → Text → Tx (Unit {0})
  fire_spawn_rules id reason actor db =
      if get_definition_id id db == []
      then ok (tt, db)
      else (get_task_definition (get_definition_id id db) >>= λ def.
            read_task_variables id >>= λ vars.
            fire_rules reason actor vars (group_of (task_by_id id db.tasks)) def.spawn_rules)
          db

  abbrev pub closed_task : Text → Text → Option Task → Tx (Unit {0})
  closed_task id actor none db = err (no_such_task id)
  closed_task id actor (some t) db =
      fire_spawn_rules id (txt "completed") actor (publish_outputs t db)

  -- onTaskClosed
  unfoldable pub on_task_closed : Text → Text → Tx (Unit {0})
  on_task_closed id actor db = closed_task id actor (task_by_id id db.tasks) db

  -- UPDATE base_task SET closure_reason = 'completed'
  unfoldable pub set_closure_reason : Text → Tx (Unit {0})
  set_closure_reason id db = ok (
    tt,
    record db {
      tasks = update_task id (λ t. record t { closure_reason = txt "completed" }) db.tasks;
    },
  )

  -- the body of CompleteTask
  unfoldable pub complete_in_tx : Text → Text → Tx (Unit {0})
  complete_in_tx id actor = do
    transition_task id (txt "closed")
    set_closure_reason id
    on_task_closed id actor

  -- CompleteTask
  unfoldable pub complete_task : Text → Text → Db → Result Failure (Unit {0}) × Db
  complete_task id actor = transaction (complete_in_tx id actor)
