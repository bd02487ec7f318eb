-- ===== src/Tests/Tasks.antt =====
-- The properties of the task engine at a database with one task, and scripts that answer true.
use velm.Base.{arith, if◌then◌else◌, ◌≢◌}
use velm.Base.{
  ℕ, true, false, ◌≡◌, ◌⊎◌, refl, Option, none, some, ok, err, [], ◌∷◌, Text, txt, ◌==◌,
}
use velm.Task.States.{allowed_task_transition}
use velm.Task.States.Runs.{Run, here, edge}
use velm.Task.Model.{
  Members, no_members, SpawnRule, Definition, Task, ChildRow, Db, Tx, Failure, no_such_task,
  invalid_transition, out_of_fuel, return,
}
use velm.Task.Spawning.{initial_variables, spawn_task_instance}
use velm.Task.Spawning.Depth.{spawn_task_instance_total}
use velm.Task.Spawning.Ready.{Spawned, spawn_task_instance-Spawned}
use velm.Task.Engine.{ScriptValue, boolean, start_task, fire_rules}
use velm.Task.Engine.Transitions.{state_in}
use velm.Task.Engine.Starting.{LeavesState, Keeps-return, start_task_outcome}
use velm.Task.Engine.{complete_task}
use velm.Task.Engine.Closing.{complete_task_outcome}
use velm.Task.Engine.Completing.{pool_forgets_group}

abbrev number_as_id : ℕ → Text
number_as_id n = n ∷ []

abbrev yes_script : Text → Text → Members → Text → Tx ScriptValue
yes_script code id vars actor = return (boolean true)

abbrev to_pool : SpawnRule
to_pool = record {
  on = txt "completed";
  definition_slug = txt "review";
  input_mapping = no_members;
  assign = txt "pool";
}

abbrev review : Definition
review = record {
  id = txt "d1";
  slug = txt "review";
  display_name = txt "Review";
  is_container = true;
  script_text = txt "log()";
  run_if_script = txt "true";
  default_group_id = [];
  spawn_rules = to_pool ∷ [];
  is_active = true;
  is_deleted = false;
}

abbrev first_task : Task
first_task = record {
  id = txt "t1";
  number = 1;
  title = txt "Review";
  state = txt "ready";
  parent_task_id = none;
  assignment_group_id = some (txt "g1");
  requested_by_user_id = none;
  definition_id = some (txt "d1");
  variables = no_members;
  closure_reason = [];
  is_deleted = false;
}

abbrev child_definition : Definition
child_definition = record review { id = txt "d2"; slug = txt "sign"; is_container = false }

abbrev one_task : Db
one_task = record {
  tasks = first_task ∷ [];
  definitions = review ∷ child_definition ∷ [];
  children = record { container_id = txt "d1"; child_definition_id = txt "d2" } ∷ [];
  next_number = 2;
}

scripts_leave_states : LeavesState yes_script
scripts_leave_states code id vars actor = Keeps-return (boolean true)

start_task_outcome_example :
    ((e : Failure) × (start_task number_as_id 3 yes_script (txt "t1") (txt "u1") one_task
        ≡ (err e, one_task)))
    ⊎ ((after : Db) × (start_task number_as_id 3 yes_script (txt "t1") (txt "u1") one_task
          ≡ (ok tt, after))
        × (from : Text) × (state_in (txt "t1") one_task ≡ some from)
        × (allowed_task_transition from (txt "in_progress") ≡ true)
        × ((state_in (txt "t1") after ≡ some (txt "in_progress"))
            ⊎ (state_in (txt "t1") after ≡ some (txt "skipped"))))
start_task_outcome_example =
    start_task_outcome number_as_id 3 yes_script scripts_leave_states (txt "t1") (txt "u1") one_task

ready_starts : allowed_task_transition (txt "ready") (txt "in_progress") ≡ true
unfolding allowed_task_transition txt ◌==◌
ready_starts = refl

started_closes : allowed_task_transition (txt "in_progress") (txt "closed") ≡ true
unfolding allowed_task_transition txt ◌==◌
started_closes = refl

started_and_closed : Run (txt "ready") (txt "in_progress" ∷ txt "closed" ∷ []) (txt "closed")
started_and_closed = edge ready_starts (edge started_closes here)

abbrev spawned_task : Text → ℕ → Text → Text → Option Text → Task
spawned_task id number definition_id title parent = record {
  id = id;
  number = number;
  title = title;
  state = txt "ready";
  parent_task_id = parent;
  assignment_group_id = none;
  requested_by_user_id = some (txt "u1");
  definition_id = some definition_id;
  variables = initial_variables no_members;
  closure_reason = [];
  is_deleted = false;
}

-- a container and its child
abbrev three_tasks : Db
three_tasks = record one_task {
  tasks =
      first_task
      ∷ spawned_task (2 ∷ []) 2 (txt "d1") (txt "Review") none
      ∷ spawned_task (3 ∷ []) 3 (txt "d2") (txt "Review") (some (2 ∷ []))
      ∷ [];
  next_number = 4;
}

container_spawns :
    spawn_task_instance number_as_id 3 (txt "d1") [] (txt "u1") no_members one_task
    ≡ ok (2 ∷ [], three_tasks)
unfolding spawn_task_instance velm.Task.Spawning.get_task_definition
    velm.Task.Model.definition_by_id ◌==◌ txt velm.Task.Spawning.spawn_task_for_definition
    velm.Task.Spawning.insert_task velm.Task.Spawning.spawn_children velm.Task.Spawning.spawn_each
    velm.Task.Model.children_of
container_spawns = refl

spawn_task_instance-Spawned_example : Spawned one_task three_tasks
spawn_task_instance-Spawned_example =
    spawn_task_instance-Spawned number_as_id 3 (txt "d1") [] (txt "u1") no_members one_task (2 ∷ [])
      three_tasks container_spawns

pool_forgets_group_example :
    fire_rules number_as_id 3 yes_script
      (txt "completed")
      (txt "u1")
      no_members
      (some (txt "g1"))
      (to_pool ∷ [])
    ≡ fire_rules number_as_id 3 yes_script
        (txt "completed")
        (txt "u1")
        no_members
        none
        (to_pool ∷ [])
unfolding txt ◌==◌
pool_forgets_group_example =
    pool_forgets_group number_as_id 3 yes_script (txt "completed") (txt "u1") no_members
      (some (txt "g1")) to_pool [] refl refl

abbrev depth_below : Text → ℕ
depth_below id = if id == txt "d1" then 1 else 0

spawn_task_instance_total_example :
    spawn_task_instance number_as_id 2 (txt "d1") [] (txt "u1") no_members one_task
    ≢ err out_of_fuel
unfolding txt ◌==◌
spawn_task_instance_total_example =
    spawn_task_instance_total number_as_id depth_below 2 (txt "d1") [] (txt "u1") no_members
      one_task (omega arith, tt) (omega arith)

abbrev task_in_progress : Db
task_in_progress = record one_task { tasks = record first_task { state = txt "in_progress" } ∷ [] }

complete_task_outcome_example :
    ((e : Failure) × (complete_task number_as_id 3 yes_script (txt "t1") (txt "u1") task_in_progress
        ≡ (err e, task_in_progress)))
    ⊎ ((after : Db) × (complete_task number_as_id 3 yes_script
            (txt "t1")
            (txt "u1")
            task_in_progress
          ≡ (ok tt, after))
        × (from : Text) × (state_in (txt "t1") task_in_progress ≡ some from)
        × (allowed_task_transition from (txt "closed") ≡ true)
        × (state_in (txt "t1") after ≡ some (txt "closed")))
complete_task_outcome_example =
    complete_task_outcome number_as_id 3 yes_script (txt "t1") (txt "u1") task_in_progress
