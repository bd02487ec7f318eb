-- ===== src/Task/Spawning/Ready.antt =====
-- What spawning leaves in the tables.
use velm.Base.{ℕ, zero, suc, ◌≡◌, refl, sym, ap, ◌∙◌, ◌⊎◌, Bool-cases, Option-cases, inl, inr}
use velm.Base.{Result, ok, err, none, some, List, [], ◌∷◌, ◌++◌, Text, txt, All, All-append}
use mathlib.Core.Path.{subst}
use mathlib.Core.List.{append_assoc, append-nil}
use velm.Task.Model.{
  Members, Definition, Task, Db, Tx, Failure, definition_by_id, children_of, ◌>>=◌, return,
  no_members,
}
use velm.Task.Spawning.{
  get_task_definition, insert_task, spawn_each, spawn_children, spawn_task_for_definition,
  spawn_task_instance,
}

-- From one database to another: rows were added to the tasks, all of them ready, and nothing else
-- has changed.
pub record Spawned (db after : Db) : Type 0 where
  pub new : List Task
  pub tasks : after.tasks ≡ db.tasks ++ new
  pub ready : All (λ t. t.state ≡ txt "ready") new
  pub definitions : after.definitions ≡ db.definitions
  pub children : after.children ≡ db.children

pub Spawned-refl : (db : Db) → Spawned db db
Spawned-refl db = record {
  new = [];
  tasks = sym (append-nil db.tasks);
  ready = tt;
  definitions = refl;
  children = refl;
}

Spawned-trans : {a b c : Db} → Spawned a b → Spawned b c → Spawned a c
Spawned-trans {a} s t = record {
  new = s.new ++ t.new;
  tasks = t.tasks ∙ ap (λ ts. ts ++ t.new) s.tasks ∙ append_assoc a.tasks s.new t.new;
  ready = All-append _ s.new t.new s.ready t.ready;
  definitions = t.definitions ∙ s.definitions;
  children = t.children ∙ s.children;
}

snd_path :
    {A : Type 0} {a b : A} {x y : Db}
    → ◌≡◌ {A = Result Failure (A × Db)} (ok (a, x)) (ok (b, y))
    → x ≡ y
snd_path e = cc

-- An operation that, where it succeeds, only adds ready tasks.
pub record Spawns {A : Type 0} (m : Tx A) : Type 0 where
  pub at : (db : Db) (a : A) (after : Db) → m db ≡ ok (a, after) → Spawned db after

pub Spawns-bind :
    {A B : Type 0} {m : Tx A} {f : A → Tx B}
    → Spawns m
    → ((a : A) → Spawns (f a))
    → Spawns (m >>= f)
Spawns-bind {A} {B} {m} {f} s t = record { at = λ db b after e. go db b after (m db) refl e }
  where
    go :
        (db : Db) (b : B) (after : Db) (r : Result Failure (A × Db))
        → m db ≡ r
        → (elim r [ err x ↦ err x | ok p ↦ f (p.0) (p.1) ]) ≡ ok (b, after)
        → Spawned db after
    go db b after (err x) h e = cc
    go db b after (ok (a, mid)) h e = Spawned-trans (s.at db a mid h) ((t a).at mid b after e)

pub Spawns-return : {A : Type 0} (a : A) → Spawns (return a)
Spawns-return a = record {
  at = λ db b after e. let same : db ≡ after = cc in subst (Spawned db) same (Spawned-refl db);
}

pub Spawns-get_task_definition : (id : Text) → Spawns (get_task_definition id)
unfolding get_task_definition
Spawns-get_task_definition id = record { at = λ db d after e. go db d after (Option-cases _) e }
  where
    go :
        (db : Db) (d : Definition) (after : Db)
        → (definition_by_id id db.definitions ≡ none)
          ⊎ ((c : Definition) × (definition_by_id id db.definitions ≡ some c))
        → get_task_definition id db ≡ ok (d, after)
        → Spawned db after
    go db d after (inl missing) e = cc (rw (missing, get_task_definition) at e)
    go db d after (inr (c, found)) e =
        subst (Spawned db) (snd_path (rw (found, get_task_definition) at e)) (Spawned-refl db)

module _ (new_id : ℕ → Text) where
  pub Spawns-insert_task :
      (def : Definition) (parent requested_by : Text) (inputs : Members)
      → Spawns (insert_task new_id def parent requested_by inputs)
  unfolding insert_task
  Spawns-insert_task def parent requested_by inputs = record {
    at = λ db id after e. subst (Spawned db) (snd_path e) (record {
      new = _ ∷ [];
      tasks = refl;
      ready = (refl, tt);
      definitions = refl;
      children = refl;
    });
  }

  Spawns-spawn_each :
      (spawn : Text → Tx Text) (children : List Text)
      → ((c : Text) → Spawns (spawn c))
      → Spawns (spawn_each new_id spawn children)
  unfolding spawn_each
  Spawns-spawn_each spawn [] s = Spawns-return tt
  Spawns-spawn_each spawn (c ∷ children) s =
      Spawns-bind (s c) (λ _. Spawns-spawn_each spawn children s)

  pub Spawns-spawn_children :
      (spawn : Text → Tx Text) (def : Definition)
      → ((c : Text) → Spawns (spawn c))
      → Spawns (spawn_children new_id spawn def)
  unfolding spawn_children
  Spawns-spawn_children spawn def s = record {
    at = λ db u after e. elim (Bool-cases def.is_container) [
      | inl h ↦
          (Spawns-spawn_each spawn (children_of def.id db.children) s).at db u after (rw h at e)
      | inr h ↦ (Spawns-return tt).at db u after (rw h at e)
    ];
  }

  pub spawn-Spawns :
      (fuel : ℕ) (def : Definition) (parent requested_by : Text) (inputs : Members)
      → Spawns (spawn_task_for_definition new_id fuel def parent requested_by inputs)
  unfolding spawn_task_for_definition spawn_children insert_task
  spawn-Spawns zero def parent requested_by inputs = record { at = λ db id after e. cc }
  spawn-Spawns (suc fuel) def parent requested_by inputs = record {
    at = λ db id after e. elim (Bool-cases def.is_active) [
      | inr h ↦ cc (rw h at e)
      | inl h ↦
          (Spawns-bind (Spawns-insert_task def parent requested_by inputs) (λ task_id.
              Spawns-bind
                (Spawns-spawn_children _ def (λ c.
                  Spawns-bind (Spawns-get_task_definition c)
                    (λ child. spawn-Spawns fuel child task_id requested_by no_members)))
                (λ u. Spawns-return task_id))).at
            db id after (rw h at e)
    ];
  }

  -- A task instance that is spawned, with the children of a container and theirs, adds rows to the
  -- tasks, every one of them ready; no row that was there changes, and no definition.
  pub spawn_task_instance-Spawned :
      (fuel : ℕ) (definition_id parent requested_by : Text) (inputs : Members) (db : Db) (id : Text)
      (after : Db)
      → spawn_task_instance new_id fuel definition_id parent requested_by inputs db ≡ ok (id, after)
      → Spawned db after
  unfolding spawn_task_instance
  spawn_task_instance-Spawned fuel definition_id parent requested_by inputs db id after e =
      (Spawns-bind (Spawns-get_task_definition definition_id)
          (λ def. spawn-Spawns fuel def parent requested_by inputs)).at
        db id after e
