-- ===== src/Task/Engine/Closing.antt =====
-- CompleteTask, whatever its outcome.
use velm.Base.{ℕ, true, ◌≡◌, ◌⊎◌, inl, inr, refl, sym, ap, ◌∙◌, arith, Bool-cases, Option-cases}
use velm.Base.{
  Result-cases, ok, err, Option, none, some, List, [], ◌∷◌, ◌++◌, Text, txt, ◌==◌, if◌then◌else◌,
}
use mathlib.Core.Path.{subst}
use velm.Task.States.{allowed_task_transition}
use velm.Task.Model.{
  Members, Definition, SpawnRule, Task, Db, Tx, Failure, task_by_id, update_task,
  definition_by_slug, ◌>>=◌,
}
use velm.Task.Spawning.Ready.{
  Spawned, Spawned-refl, Spawns, Spawns-bind, Spawns-return, Spawns-get_task_definition,
  spawn-Spawns,
}
use velm.Task.Engine.{
  ScriptValue, live, transition_task, publish_to, publish_outputs, with_group, get_definition_id,
  read_task_variables, follow_on_of, spawn_follow_on, fire_rules, fire_spawn_rules, on_task_closed,
  set_closure_reason, complete_in_tx, complete_task,
}
use velm.Task.Engine.Transitions.{state_of, state_in, transition_task_cases}
use velm.Task.Engine.Steps.{snd_path, bind_parts, rolled_back, committed}

-- An update of rows that keeps their id, state and deletion keeps the state of every task.
state-update_other :
    (id key : Text) (f : Task → Task)
    → ((t : Task) → ((f t).id ≡ t.id) × ((f t).state ≡ t.state) × ((f t).is_deleted ≡ t.is_deleted))
    → (ts : List Task)
    → state_of (live (task_by_id id (update_task key f ts))) ≡ state_of (live (task_by_id id ts))
unfolding task_by_id update_task
state-update_other id key f same [] = refl
state-update_other id key f same (t ∷ ts) =
    let (ids, states, deleted) = same t in
    ground (arith, ids, states, deleted, state-update_other id key f same ts)

-- Rows that are added after the others change the state of no task that was there.
state-append :
    (id s : Text) (ts new : List Task)
    → state_of (live (task_by_id id ts)) ≡ some s
    → state_of (live (task_by_id id (ts ++ new))) ≡ some s
unfolding task_by_id
state-append id s [] new h = cc
state-append id s (t ∷ ts) new h = ground (arith, state-append id s ts new)

state-Spawned :
    (id s : Text) {db after : Db}
    → Spawned db after
    → state_in id db ≡ some s
    → state_in id after ≡ some s
state-Spawned id s {db} k h =
    ap (λ ts. state_of (live (task_by_id id ts))) k.tasks ∙ state-append id s db.tasks k.new h

state-publish_to :
    (id parent : Text) (outputs : Option Members) (slug : Option Text) (db : Db)
    → state_in id (publish_to parent outputs slug db) ≡ state_in id db
state-publish_to id parent none slug db = refl
state-publish_to id parent (some outputs) none db = refl
state-publish_to id parent (some outputs) (some slug) db = elim (Bool-cases (parent == [])) [
  | inl e ↦ rw e refl
  | inr e ↦ rw e (state-update_other id parent _ (λ t. (refl, refl, refl)) db.tasks)
]

Spawns-read_task_variables : (id : Text) → Spawns (read_task_variables id)
unfolding read_task_variables
Spawns-read_task_variables id = record {
  at = λ db vars after e. elim (Option-cases (task_by_id id db.tasks)) [
    | inl h ↦ cc (rw (h, read_task_variables) at e)
    | inr (t, h) ↦
        subst (Spawned db) (snd_path (rw (h, read_task_variables) at e)) (Spawned-refl db)
  ];
}

module _ (new_id : ℕ → Text) (fuel : ℕ)
    (run_script : Text → Text → Members → Text → Tx ScriptValue) where
  Spawns-follow_on_of :
      (slug : Text) (group : Option Text) (requested_by : Text) (inputs : Members)
      (d : Option Definition)
      → Spawns (follow_on_of new_id fuel run_script slug group requested_by inputs d)
  unfolding follow_on_of
  Spawns-follow_on_of slug group requested_by inputs none = record { at = λ db u after e. cc }
  Spawns-follow_on_of slug group requested_by inputs (some d) =
      Spawns-bind (Spawns-get_task_definition d.id) (λ def.
        Spawns-bind (spawn-Spawns new_id fuel (with_group group def) [] requested_by inputs)
          (λ id. Spawns-return tt))

  Spawns-spawn_follow_on :
      (slug : Text) (group : Option Text) (requested_by : Text) (inputs : Members)
      → Spawns (spawn_follow_on new_id fuel run_script slug group requested_by inputs)
  unfolding spawn_follow_on
  Spawns-spawn_follow_on slug group requested_by inputs = record {
    at = λ db u after e.
        (Spawns-follow_on_of slug group requested_by inputs
            (definition_by_slug slug db.definitions)).at
          db u after e;
  }

  Spawns-fire_rules :
      (reason actor : Text) (vars : Members) (group : Option Text) (rules : List SpawnRule)
      → Spawns (fire_rules new_id fuel run_script reason actor vars group rules)
  unfolding fire_rules
  Spawns-fire_rules reason actor vars group [] = Spawns-return tt
  Spawns-fire_rules reason actor vars group (rule ∷ rules) = record {
    at = λ db u after e. elim (Bool-cases (rule.on == reason)) [
      | inr h ↦ (Spawns-fire_rules reason actor vars group rules).at db u after (rw h at e)
      | inl h ↦
          (Spawns-bind (Spawns-spawn_follow_on rule.definition_slug _ actor _) (λ v.
              Spawns-fire_rules reason actor vars
                (if rule.assign == txt "pool" then none else group) rules)).at
            db u after (rw h at e)
    ];
  }

  Spawns-fire_spawn_rules :
      (id reason actor : Text) → Spawns (fire_spawn_rules new_id fuel run_script id reason actor)
  unfolding fire_spawn_rules
  Spawns-fire_spawn_rules id reason actor = record {
    at = λ db u after e. elim (Bool-cases (get_definition_id id db == [])) [
      | inl bare ↦
          subst (Spawned db) (snd_path (rw (bare, fire_spawn_rules) at e)) (Spawned-refl db)
      | inr made ↦
          (Spawns-bind (Spawns-get_task_definition (get_definition_id id db)) (λ def.
              Spawns-bind (Spawns-read_task_variables id)
                (λ vars. Spawns-fire_rules reason actor vars _ def.spawn_rules))).at
            db u after (rw (made, fire_spawn_rules) at e)
    ];
  }

  state-on_task_closed :
      (id actor s : Text) (db : Db) (u : Unit {0}) (after : Db)
      → state_in id db ≡ some s
      → on_task_closed new_id fuel run_script id actor db ≡ ok (u, after)
      → state_in id after ≡ some s
  unfolding on_task_closed publish_outputs
  state-on_task_closed id actor s db u after h e = elim (Option-cases (task_by_id id db.tasks)) [
    | inl missing ↦ cc
    | inr (t, found) ↦
        state-Spawned id s
          ((Spawns-fire_spawn_rules id (txt "completed") actor).at (publish_outputs t db) u after
            (rw (found, on_task_closed) at e))
          (state-publish_to id _ _ _ db ∙ h)
  ]

  completed :
      (id actor : Text) (db : Db) (u : Unit {0}) (after : Db)
      → complete_in_tx new_id fuel run_script id actor db ≡ ok (u, after)
      → (from : Text) × (state_in id db ≡ some from)
        × (allowed_task_transition from (txt "closed") ≡ true)
        × (state_in id after ≡ some (txt "closed"))
  unfolding complete_in_tx set_closure_reason
  completed id actor db u after e =
      let (v, moved, first, rest) =
        bind_parts (transition_task id (txt "closed"))
          (λ _. set_closure_reason new_id fuel run_script id >>= λ _.
            on_task_closed new_id fuel run_script id actor)
          db u after e in
      let (w, marked, second, third) =
        bind_parts (set_closure_reason new_id fuel run_script id)
          (λ _. on_task_closed new_id fuel run_script id actor) moved u after rest in
      elim (transition_task_cases id (txt "closed") db) [
        | inl (_, r) ↦ cc (sym r ∙ first)
        | inr (inl (_, _, _, r)) ↦ cc (sym r ∙ first)
        | inr (inr (from, is_from, allowed, m, r, s)) ↦ (
          from,
          is_from,
          allowed,
          state-on_task_closed id actor (txt "closed") marked u after
              (ap (state_in id) (sym (snd_path second))
                ∙ state-update_other id id _ (λ t. (refl, refl, refl)) moved.tasks
                ∙ ap (state_in id) (sym (snd_path (sym r ∙ first)))
                ∙ s)
              third,
        )
      ]

  -- Completing a task either fails and leaves the database as it was, or succeeds: then the task was
  -- there in a state from which it may be closed, and it is now closed.
  pub complete_task_outcome :
      (id actor : Text) (db : Db)
      → ((e : Failure) × (complete_task new_id fuel run_script id actor db ≡ (err e, db)))
        ⊎ ((after : Db) × (complete_task new_id fuel run_script id actor db ≡ (ok tt, after))
            × (from : Text) × (state_in id db ≡ some from)
            × (allowed_task_transition from (txt "closed") ≡ true)
            × (state_in id after ≡ some (txt "closed")))
  unfolding complete_task
  complete_task_outcome id actor db =
      elim (Result-cases (complete_in_tx new_id fuel run_script id actor db)) [
        | inl (e, h) ↦ inl (e, rolled_back (complete_in_tx new_id fuel run_script id actor) db e h)
        | inr ((u, after), h) ↦
            let (from, is_from, allowed, closed) = completed id actor db u after h in
            inr (
              after,
              committed (complete_in_tx new_id fuel run_script id actor) db u after h,
              from,
              is_from,
              allowed,
              closed,
            )
      ]
