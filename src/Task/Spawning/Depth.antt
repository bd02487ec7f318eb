-- ===== src/Task/Spawning/Depth.antt =====
-- How much fuel spawning needs: as much as containers are nested deep.
use velm.Base.{
  ℕ, zero, suc, ◌<◌, ◌≡◌, ◌≢◌, ◌∙◌, refl, sym, Bool-cases, Option-cases, inl, inr, arith,
}
use velm.Base.{Result, ok, err, some, List, [], ◌∷◌, Text, All, ◌==◌, eq_iff}
use mathlib.Core.Path.{subst}
use velm.Task.Model.{
  Members, no_members, Definition, ChildRow, Db, Tx, Failure, out_of_fuel, definition_by_id,
  children_of, ◌>>=◌, return,
}
use velm.Task.Spawning.{
  get_task_definition, insert_task, spawn_each, spawn_children, spawn_task_for_definition,
  spawn_task_instance,
}
use velm.Task.Spawning.Ready.{
  Spawns, Spawns-bind, Spawns-get_task_definition, Spawns-insert_task, Spawns-spawn_children,
  spawn-Spawns,
}

-- An operation that does not run out of fuel on a database with these rows of children.
record Ends {A : Type 0} (rows : List ChildRow) (m : Tx A) : Type 0 where
  at : (db : Db) → db.children ≡ rows → m db ≢ err out_of_fuel

-- What an operation answers with has a property that the rest may need.
Ends-bind_with :
    {A B : Type 0} {rows : List ChildRow} {m : Tx A} {f : A → Tx B} (P : A → Type 0)
    → Ends rows m
    → Spawns m
    → ((db : Db) (a : A) (after : Db) → m db ≡ ok (a, after) → P a)
    → ((a : A) → P a → Ends rows (f a))
    → Ends rows (m >>= f)
Ends-bind_with {A} {B} {rows} {m} {f} P s keeps yields t = record {
  at = λ db e. go db e (m db) refl;
}
  where
    go :
        (db : Db)
        → db.children ≡ rows
        → (r : Result Failure (A × Db)) → m db ≡ r
        → (elim r [ err x ↦ err x | ok p ↦ f (p.0) (p.1) ]) ≢ err out_of_fuel
    go db e (err x) h bad = s.at db e (cc)
    go db e (ok (a, mid)) h bad =
        (t a (yields db a mid h)).at mid ((keeps.at db a mid h).children ∙ e) bad

Ends-bind :
    {A B : Type 0} {rows : List ChildRow} {m : Tx A} {f : A → Tx B}
    → Ends rows m
    → Spawns m
    → ((a : A) → Ends rows (f a))
    → Ends rows (m >>= f)
Ends-bind s keeps t = Ends-bind_with (λ a. Unit {0}) s keeps (λ db a after h. tt) (λ a u. t a)

Ends-return : {A : Type 0} {rows : List ChildRow} (a : A) → Ends rows (return a)
Ends-return a = record { at = λ db e bad. cc }

-- A definition that is found has the id that was looked for.
definition_by_id-id :
    (id : Text) (ds : List Definition) (d : Definition)
    → definition_by_id id ds ≡ some d
    → d.id ≡ id
unfolding definition_by_id
definition_by_id-id id [] d e = cc
definition_by_id-id id (c ∷ ds) d e = ground (arith, eq_iff c.id id, definition_by_id-id id ds d)

got_id :
    (id : Text) (db : Db) (d : Definition) (after : Db)
    → get_task_definition id db ≡ ok (d, after)
    → d.id ≡ id
unfolding get_task_definition
got_id id db d after e = elim (Option-cases (definition_by_id id db.definitions)) [
  | inl missing ↦ cc (rw (missing, get_task_definition) at e)
  | inr (c, found) ↦
      definition_by_id-id id db.definitions d (cc (rw (found, get_task_definition) at e))
]

Ends-get_task_definition : {rows : List ChildRow} (id : Text) → Ends rows (get_task_definition id)
unfolding get_task_definition
Ends-get_task_definition id = record {
  at = λ db e. elim (Option-cases (definition_by_id id db.definitions)) [
    | inl missing ↦ rw (missing, get_task_definition) (λ bad. cc)
    | inr (d, found) ↦ rw (found, get_task_definition) (λ bad. cc)
  ];
}

Ends-with_definition :
    {B : Type 0} {rows : List ChildRow} (id : Text) (f : Definition → Tx B)
    → ((d : Definition) → d.id ≡ id → Ends rows (f d))
    → Ends rows (get_task_definition id >>= f)
Ends-with_definition id f t =
    Ends-bind_with (λ d. d.id ≡ id) (Ends-get_task_definition id) (Spawns-get_task_definition id)
      (got_id id) t

module _ (new_id : ℕ → Text) (rank : Text → ℕ) where
  -- Every child ranks below its container.
  abbrev pub IsRanked : List ChildRow → Type 0
  IsRanked = All (λ row. rank row.child_definition_id < rank row.container_id)

  children_of-below :
      (id : Text) (rows : List ChildRow)
      → IsRanked rows
      → All (λ c. rank c < rank id) (children_of id rows)
  unfolding children_of
  children_of-below id [] h = tt
  children_of-below id (row ∷ rows) (p, h) = elim (Bool-cases (row.container_id == id)) [
    | inl e ↦
        let same : row.container_id ≡ id = (eq_iff row.container_id id).0 e in
        rw e (rw same at p, children_of-below id rows h)
    | inr e ↦ rw e (children_of-below id rows h)
  ]

  Ends-spawn_each :
      (rows : List ChildRow) (spawn : Text → Tx Text) (bound : ℕ) (children : List Text)
      → ((c : Text) → Spawns (spawn c))
      → ((c : Text) → rank c < bound → Ends rows (spawn c))
      → All (λ c. rank c < bound) children
      → Ends rows (spawn_each new_id spawn children)
  unfolding spawn_each
  Ends-spawn_each rows spawn bound [] keeps t h = Ends-return tt
  Ends-spawn_each rows spawn bound (c ∷ children) keeps t (p, h) =
      Ends-bind (t c p) (keeps c) (λ _. Ends-spawn_each rows spawn bound children keeps t h)

  Ends-spawn_children :
      (rows : List ChildRow) (spawn : Text → Tx Text) (def : Definition)
      → IsRanked rows
      → ((c : Text) → Spawns (spawn c))
      → ((c : Text) → rank c < rank def.id → Ends rows (spawn c))
      → Ends rows (spawn_children new_id spawn def)
  unfolding spawn_children
  Ends-spawn_children rows spawn def ranked keeps t = record {
    at = λ db e. elim (Bool-cases def.is_container) [
      | inl h ↦ rw h (
          subst (λ cs. spawn_each new_id spawn (children_of def.id cs) db ≢ err out_of_fuel) (sym e)
            ((Ends-spawn_each rows spawn (rank def.id) (children_of def.id rows) keeps t
                (children_of-below def.id rows ranked)).at
              db e))
      | inr h ↦ rw h (λ bad. cc)
    ];
  }

  Ends-insert_task :
      {rows : List ChildRow} (def : Definition) (parent requested_by : Text) (inputs : Members)
      → Ends rows (insert_task new_id def parent requested_by inputs)
  unfolding insert_task
  Ends-insert_task def parent requested_by inputs = record { at = λ db e bad. cc }

  spawn-Ends :
      (rows : List ChildRow) (fuel : ℕ) (def : Definition) (parent requested_by : Text)
      (inputs : Members)
      → IsRanked rows
      → rank def.id < fuel
      → Ends rows (spawn_task_for_definition new_id fuel def parent requested_by inputs)
  unfolding spawn_task_for_definition spawn_children insert_task
  spawn-Ends rows zero def parent requested_by inputs ranked enough = absurd (omega arith)
  spawn-Ends rows (suc fuel) def parent requested_by inputs ranked enough = record {
    at = λ db e. elim (Bool-cases def.is_active) [
      | inr h ↦ λ bad. cc (rw h at bad)
      | inl h ↦ λ bad.
          (Ends-bind (Ends-insert_task def parent requested_by inputs)
              (Spawns-insert_task new_id def parent requested_by inputs)
              (λ task_id.
                Ends-bind
                  (Ends-spawn_children rows _ def ranked
                    (λ c.
                      Spawns-bind (Spawns-get_task_definition c)
                        (λ child. spawn-Spawns new_id fuel child task_id requested_by no_members))
                    (λ c below. Ends-with_definition c _ (λ child same.
                      spawn-Ends rows fuel child task_id requested_by no_members ranked
                        (rw same (omega arith)))))
                  (Spawns-spawn_children new_id _ def (λ c.
                    Spawns-bind (Spawns-get_task_definition c)
                      (λ child. spawn-Spawns new_id fuel child task_id requested_by no_members)))
                  (λ u. Ends-return task_id))).at
            db e (rw h at bad)
    ];
  }

  -- Where every child ranks below its container, spawning a definition with more fuel than its rank
  -- does not run out of it.
  pub spawn_task_instance_total :
      (fuel : ℕ) (definition_id parent requested_by : Text) (inputs : Members) (db : Db)
      → IsRanked db.children
      → rank definition_id < fuel
      → spawn_task_instance new_id fuel definition_id parent requested_by inputs db
        ≢ err out_of_fuel
  unfolding spawn_task_instance
  spawn_task_instance_total fuel definition_id parent requested_by inputs db ranked enough =
      (Ends-with_definition definition_id _ (λ def same.
          spawn-Ends db.children fuel def parent requested_by inputs ranked (rw same enough))).at
        db refl
