-- ===== src/Task/Engine/Transitions.antt =====
-- transitionTaskInTx, whatever its outcome.
use velm.Base.{true, false, ◌≡◌, ◌⊎◌, inl, inr, refl, ap, arith, Bool-cases, Option-cases}
use velm.Base.{ok, err, Option, none, some, List, [], ◌∷◌, Text}
use velm.Task.States.{allowed_task_transition}
use velm.Task.Model.{Task, Db, no_such_task, invalid_transition, task_by_id, update_task}
use velm.Task.Engine.{live, set_state, transition_from, transition_task}

-- The state of a task that is not deleted.
abbrev pub state_of : Option Task → Option Text
state_of none = none
state_of (some t) = some t.state

abbrev pub state_in : Text → Db → Option Text
state_in id db = state_of (live (task_by_id id db.tasks))

state-update_task :
    (id to : Text) (ts : List Task) (s : Text)
    → state_of (live (task_by_id id ts)) ≡ some s
    → state_of (live (task_by_id id (update_task id (set_state to) ts))) ≡ some to
unfolding task_by_id update_task
state-update_task id to [] s h = cc
state-update_task id to (t ∷ ts) s h = ground (arith, state-update_task id to ts s)

-- A transition succeeds exactly along an edge from the state of a task that is there, and leaves
-- the task in the state it was asked for.
pub transition_task_cases :
    (id to : Text) (db : Db)
    → ((state_in id db ≡ none) × (transition_task id to db ≡ err (no_such_task id)))
      ⊎ ((from : Text) × (state_in id db ≡ some from)
          × (allowed_task_transition from to ≡ false)
          × (transition_task id to db ≡ err (invalid_transition from to)))
      ⊎ ((from : Text) × (state_in id db ≡ some from)
          × (allowed_task_transition from to ≡ true)
          × (after : Db) × (transition_task id to db ≡ ok (tt, after))
          × (state_in id after ≡ some to))
unfolding transition_task
transition_task_cases id to db = elim (Option-cases (live (task_by_id id db.tasks))) [
  | inl e ↦ inl (rw e refl, rw e (unfold transition_from in refl))
  | inr (t, e) ↦ elim (Bool-cases (allowed_task_transition t.state to)) [
    | inl h ↦ inr (
        inr (
          t.state,
          rw e refl,
          h,
          record db { tasks = update_task id (set_state to) db.tasks },
          rw e (unfold transition_from in rw h refl),
          state-update_task id to db.tasks t.state (ap state_of e),
        ))
    | inr h ↦ inr (inl (t.state, rw e refl, h, rw e (unfold transition_from in rw h refl)))
  ]
]
