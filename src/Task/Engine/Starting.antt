-- ===== src/Task/Engine/Starting.antt =====
-- StartTask, whatever its outcome.
use velm.Base.{
  ℕ, Bool, true, false, ◌≡◌, ◌⊎◌, inl, inr, refl, sym, ap, ◌∙◌, Bool-cases, Option-cases,
  if◌then◌else◌,
}
use velm.Base.{Result-cases, ok, err, some, [], Text, txt, ◌==◌}
use velm.Task.States.{allowed_task_transition}
use velm.Task.Model.{Members, Definition, Db, Tx, Failure, task_by_id, ◌>>=◌, return}
use velm.Task.Model.{definition_by_id}
use velm.Task.Spawning.{get_task_definition}
use velm.Task.Engine.Transitions.{state_in, transition_task_cases}
use velm.Task.Engine.Steps.{snd_path, bind_parts, rolled_back, committed}
use velm.Task.Engine.{
  ScriptValue, boolean, other_value, as_boolean, transition_task, get_definition_id,
  read_task_variables, eval_task_condition, run_task_script, run_hooks_of, run_task_hooks,
  start_in_tx, start_task,
}

-- An operation that, where it succeeds, leaves a task in its state.
pub record Keeps (id : Text) {A : Type 0} (m : Tx A) : Type 0 where
  pub at :
      (db : Db) (a : A) (after : Db) → m db ≡ ok (a, after) → state_in id after ≡ state_in id db

-- An operation that, where it succeeds on a task in progress, leaves it in progress or skipped.
pub record Settles (id : Text) {A : Type 0} (m : Tx A) : Type 0 where
  pub at :
      (db : Db) (a : A) (after : Db)
      → state_in id db ≡ some (txt "in_progress")
      → m db ≡ ok (a, after)
      → (state_in id after ≡ some (txt "in_progress")) ⊎ (state_in id after ≡ some (txt "skipped"))

Settles-bind :
    {id : Text} {A B : Type 0} {m : Tx A} {f : A → Tx B}
    → Keeps id m
    → ((a : A) → Settles id (f a))
    → Settles id (m >>= f)
Settles-bind {m} {f} k s = record {
  at = λ db b after h e.
      let (a, mid, e₁, e₂) = bind_parts m f db b after e in
      (s a).at mid b after (k.at db a mid e₁ ∙ h) e₂;
}

Settles-of_Keeps : {id : Text} {A : Type 0} {m : Tx A} → Keeps id m → Settles id m
Settles-of_Keeps k = record { at = λ db a after h e. inl (k.at db a after e ∙ h) }

pub Keeps-return : {id : Text} {A : Type 0} (a : A) → Keeps id (return a)
Keeps-return {id} a = record { at = λ db b after e. ap (state_in id) (sym (snd_path e)) }

Keeps-bind :
    {id : Text} {A B : Type 0} {m : Tx A} {f : A → Tx B}
    → Keeps id m
    → ((a : A) → Keeps id (f a))
    → Keeps id (m >>= f)
Keeps-bind {m} {f} k s = record {
  at = λ db b after e.
      let (a, mid, e₁, e₂) = bind_parts m f db b after e in
      (s a).at mid b after e₂ ∙ k.at db a mid e₁;
}

Keeps-get_task_definition :
    {id : Text} (definition : Text) → Keeps id (get_task_definition definition)
unfolding get_task_definition
Keeps-get_task_definition {id} definition = record {
  at = λ db d after e. elim (Option-cases (definition_by_id definition db.definitions)) [
    | inl h ↦ cc (rw (h, get_task_definition) at e)
    | inr (c, h) ↦ ap (state_in id) (sym (snd_path (rw (h, get_task_definition) at e)))
  ];
}

Keeps-read_task_variables : {id : Text} (task_id : Text) → Keeps id (read_task_variables task_id)
unfolding read_task_variables
Keeps-read_task_variables {id} task_id = record {
  at = λ db vars after e. elim (Option-cases (task_by_id task_id db.tasks)) [
    | inl h ↦ cc (rw (h, read_task_variables) at e)
    | inr (t, h) ↦ ap (state_in id) (sym (snd_path (rw (h, read_task_variables) at e)))
  ];
}

Settles-transition_task :
    {id : Text} (to : Text) → to ≡ txt "skipped" → Settles id (transition_task id to)
Settles-transition_task {id} to skip = record {
  at = λ db u after h e. elim (transition_task_cases id to db) [
    | inl (_, r) ↦ cc (sym r ∙ e)
    | inr (inl (_, _, _, r)) ↦ cc (sym r ∙ e)
    | inr (inr (_, _, _, mid, r, s)) ↦
        inr (ap (state_in id) (sym (snd_path (sym r ∙ e))) ∙ s ∙ ap some skip)
  ];
}

Settles-if :
    {id : Text} {A : Type 0} (b : Bool) (m n : Tx A)
    → Settles id m
    → Settles id n
    → Settles id (if b then m else n)
Settles-if true m n s t = s
Settles-if false m n s t = t

Keeps-as_boolean : {id : Text} (v : ScriptValue) → Keeps id (as_boolean v)
Keeps-as_boolean (boolean b) = Keeps-return b
Keeps-as_boolean other_value = record { at = λ db b after e. cc }

-- The assumption on scripts: one that runs for a task does not write that task's state.
abbrev pub LeavesState : (Text → Text → Members → Text → Tx ScriptValue) → Type 0
LeavesState run_script =
    (code id : Text) (vars : Members) (actor : Text) → Keeps id (run_script code id vars actor)

module _ (new_id : ℕ → Text) (fuel : ℕ) (run_script : Text → Text → Members → Text → Tx ScriptValue)
    (leaves : LeavesState run_script) where
  Settles-run_task_script :
      (def : Definition) (id : Text) (vars : Members) (actor : Text)
      → Settles id (run_task_script new_id fuel run_script def id vars actor)
  unfolding run_task_script
  Settles-run_task_script def id vars actor =
      Settles-if _ _ _ (Settles-of_Keeps (Keeps-return tt)) (
        Settles-bind (leaves def.script_text id vars actor)
          (λ v. Settles-of_Keeps (Keeps-return tt)))

  Settles-run_hooks_of :
      (def : Definition) (id : Text) (vars : Members) (actor : Text)
      → Settles id (run_hooks_of new_id fuel run_script def id vars actor)
  unfolding run_hooks_of eval_task_condition
  Settles-run_hooks_of def id vars actor =
      Settles-if _ _ _ (Settles-run_task_script def id vars actor) (
        Settles-bind (Keeps-bind (leaves def.run_if_script id vars actor) (λ v. Keeps-as_boolean v))
          (λ allowed.
            Settles-if allowed _ _ (Settles-run_task_script def id vars actor)
              (Settles-transition_task (txt "skipped") refl)))

  Settles-run_task_hooks :
      (id actor : Text) → Settles id (run_task_hooks new_id fuel run_script id actor)
  unfolding run_task_hooks
  Settles-run_task_hooks id actor = record {
    at = λ db u after h e. elim (Bool-cases (get_definition_id id db == [])) [
      | inl bare ↦ inl (ap (state_in id) (sym (snd_path (rw (bare, run_task_hooks) at e))) ∙ h)
      | inr made ↦
          (Settles-bind (Keeps-get_task_definition (get_definition_id id db)) (λ def.
              Settles-bind (Keeps-read_task_variables id)
                (λ vars. Settles-run_hooks_of def id vars actor))).at
            db u after h (rw (made, run_task_hooks) at e)
    ];
  }

  started :
      (id actor : Text) (db : Db) (u : Unit {0}) (after : Db)
      → start_in_tx new_id fuel run_script id actor db ≡ ok (u, after)
      → (from : Text) × (state_in id db ≡ some from)
        × (allowed_task_transition from (txt "in_progress") ≡ true)
        × ((state_in id after ≡ some (txt "in_progress"))
            ⊎ (state_in id after ≡ some (txt "skipped")))
  unfolding start_in_tx
  started id actor db u after e =
      let (v, mid, moved, ran) =
        bind_parts (transition_task id (txt "in_progress"))
          (λ _. run_task_hooks new_id fuel run_script id actor) db u after e in
      elim (transition_task_cases id (txt "in_progress") db) [
        | inl (_, r) ↦ cc (sym r ∙ moved)
        | inr (inl (_, _, _, r)) ↦ cc (sym r ∙ moved)
        | inr (inr (from, is_from, allowed, m, r, s)) ↦ (
          from,
          is_from,
          allowed,
          (Settles-run_task_hooks id actor).at mid u after
              (ap (state_in id) (sym (snd_path (sym r ∙ moved))) ∙ s) ran,
        )
      ]

  -- Starting a task either fails and leaves the database as it was, or succeeds: then the task was
  -- there in a state from which it may go in progress, and it is now in progress or skipped. Scripts
  -- do not write the state of the task that they run for.
  pub start_task_outcome :
      (id actor : Text) (db : Db)
      → ((e : Failure) × (start_task new_id fuel run_script id actor db ≡ (err e, db)))
        ⊎ ((after : Db) × (start_task new_id fuel run_script id actor db ≡ (ok tt, after))
            × (from : Text) × (state_in id db ≡ some from)
            × (allowed_task_transition from (txt "in_progress") ≡ true)
            × ((state_in id after ≡ some (txt "in_progress"))
                ⊎ (state_in id after ≡ some (txt "skipped"))))
  unfolding start_task
  start_task_outcome id actor db =
      elim (Result-cases (start_in_tx new_id fuel run_script id actor db)) [
        | inl (e, h) ↦ inl (e, rolled_back (start_in_tx new_id fuel run_script id actor) db e h)
        | inr ((u, after), h) ↦
            let (from, is_from, allowed, outcome) = started id actor db u after h in
            inr (
              after,
              committed (start_in_tx new_id fuel run_script id actor) db u after h,
              from,
              is_from,
              allowed,
              outcome,
            )
      ]
