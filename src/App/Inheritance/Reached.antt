-- ===== src/App/Inheritance/Reached.antt =====
-- What a lookup of a table reaches.
use velm.Base.{
  Holds, Bool, true, false, ◌≢◌, inl, inr, Bool-cases, Option, none, some, Result, ok, err, List,
  [], ◌∷◌, Text, txt, ◌==◌, insert, All, if◌then◌else◌,
}
use velm.Security.Model.{key_of}
use velm.App.Definition.{Table, Definition, RegisteredApp}
use velm.App.Registry.{
  normalize_identifier, is_ootb_base_app, first_app, find_exact_app, find_app, effective_definition,
  or_else, with_dependency, dependencies_from, dependencies_of, dependency_apps, first_table,
  tables_of, owned_by, dependency_table, resolve_validation_table,
}
use velm.App.Inheritance.{Failure, no_definition, not_found, out_of_fuel, found_or, parent_of}
use velm.App.Inheritance.Known.{Listed, Known}

module _ (P : RegisteredApp → Type 0) where
  first_app-Holds :
      (p : RegisteredApp → Bool) (apps : List RegisteredApp)
      → All P apps
      → Holds P (first_app p apps)
  unfolding first_app
  first_app-Holds p [] h = tt
  first_app-Holds p (a ∷ apps) (h, more) = elim (Bool-cases (p a)) [
    | inl e ↦ rw e h
    | inr e ↦ rw e (first_app-Holds p apps more)
  ]

  find_exact_app-Holds :
      (apps : List RegisteredApp) (name : Text) → All P apps → Holds P (find_exact_app apps name)
  unfolding find_exact_app
  find_exact_app-Holds apps name h = elim (Bool-cases (normalize_identifier name == [])) [
    | inl e ↦ rw e tt
    | inr e ↦ rw e (first_app-Holds _ apps h)
  ]

  find_app-Holds :
      (apps : List RegisteredApp) (name : Text) → All P apps → Holds P (find_app apps name)
  unfolding find_app
  find_app-Holds apps name h = go (find_exact_app apps name) (find_exact_app-Holds apps name h)
    where
      otherwise : (b : Bool) → Holds P (if b then first_app is_ootb_base_app apps else none)
      otherwise true = first_app-Holds is_ootb_base_app apps h
      otherwise false = tt

      go :
          (o : Option RegisteredApp)
          → Holds P o
          → Holds P (elim o [
            | some a ↦ some a
            | none ↦
                if normalize_identifier name == txt "system"
                then first_app is_ootb_base_app apps
                else none
          ])
      go (some a) k = k
      go none k = otherwise (normalize_identifier name == txt "system")

  insert-All :
      (key : Text) (a : RegisteredApp) (found : List (Text × RegisteredApp))
      → P a
      → All (λ e. P e.1) found
      → All (λ e. P e.1) (insert key a found)
  unfolding insert
  insert-All key a [] h k = (h, tt)
  insert-All key a ((other, b) ∷ found) h (k, more) = elim (Bool-cases (other == key)) [
    | inl e ↦ rw e (h, more)
    | inr e ↦ rw e (k, insert-All key a found h more)
  ]

  dependencies_from-All :
      (apps : List RegisteredApp) (names : List Text) (found : List (Text × RegisteredApp))
      → All P apps
      → All (λ e. P e.1) found
      → All (λ e. P e.1) (dependencies_from apps names found)
  unfolding dependencies_from
  dependencies_from-All apps [] found h k = k
  dependencies_from-All apps (n ∷ names) found h k =
      dependencies_from-All apps names _ h (add (find_app apps n) (find_app-Holds apps n h))
    where
      add : (o : Option RegisteredApp) → Holds P o → All (λ e. P e.1) (with_dependency o found)
      add none l = k
      add (some a) l = insert-All a.app.name a found l k

  dependency_apps-All :
      (apps : List RegisteredApp) (owner : RegisteredApp)
      → All P apps
      → All (λ e. P e.1) (dependency_apps apps owner)
  unfolding dependency_apps
  dependency_apps-All apps owner h = go (effective_definition owner)
    where
      go : (d : Option Definition) → All (λ e. P e.1) (dependencies_of apps d)
      go none = tt
      go (some d) = dependencies_from-All apps d.dependencies [] h tt

first_table-Holds :
    (P : Table → Type 0) (name : Text) (tables : List Table)
    → All P tables
    → Holds P (first_table name tables)
unfolding first_table
first_table-Holds P name [] h = tt
first_table-Holds P name (t ∷ tables) (h, more) = elim (Bool-cases (t.name == name)) [
  | inl e ↦ rw e h
  | inr e ↦ rw e (first_table-Holds P name tables more)
]

module _ (keys : List Text) where
  -- An app all of whose tables are listed, and one of its tables.
  abbrev pub Reached : RegisteredApp × Table → Type 0
  Reached (a, t) = Known keys a × Listed keys a t

  effective_tables-Listed :
      (a : RegisteredApp) → Known keys a → All (Listed keys a) (tables_of (effective_definition a))
  unfolding effective_definition
  effective_tables-Listed a (h, k) = go a.draft_definition k
    where
      go :
          (d : Option Definition)
          → All (Listed keys a) (tables_of d)
          → All (Listed keys a) (tables_of (or_else d a.definition))
      go none l = h
      go (some d) l = l

  owned_by-Reached :
      (a : RegisteredApp) (o : Option Table)
      → Known keys a
      → Holds (Listed keys a) o
      → Holds Reached (owned_by a o)
  owned_by-Reached a none h k = tt
  owned_by-Reached a (some t) h k = (h, k)

  first_of :
      (x y : Option (RegisteredApp × Table))
      → Holds Reached x
      → Holds Reached y
      → Holds Reached (elim x [ some found ↦ some found | none ↦ y ])
  first_of none y h k = k
  first_of (some p) y h k = h

  dependency_table-Reached :
      (name : Text) (apps : List (Text × RegisteredApp))
      → All (λ e. Known keys e.1) apps
      → Holds Reached (dependency_table name apps)
  unfolding dependency_table
  dependency_table-Reached name [] h = tt
  dependency_table-Reached name ((key, a) ∷ apps) (h, more) =
      first_of (owned_by a (first_table name (tables_of (effective_definition a)))) _
        (owned_by-Reached a _ h
          (first_table-Holds (Listed keys a) name _ (effective_tables-Listed a h)))
        (dependency_table-Reached name apps more)

  pub resolve_validation_table-Reached :
      (owner : RegisteredApp) (d : Definition) (apps : List RegisteredApp) (name : Text)
      → Known keys owner
      → All (Listed keys owner) d.tables
      → All (Known keys) apps
      → Holds Reached (resolve_validation_table owner (some d) (dependency_apps apps owner) name)
  unfolding resolve_validation_table
  resolve_validation_table-Reached owner d apps name h k l =
      first_of (owned_by owner (first_table (key_of name) d.tables)) _
        (owned_by-Reached owner _ h
          (first_table-Holds (Listed keys owner) (key_of name) d.tables k))
        (dependency_table-Reached (key_of name) (dependency_apps apps owner)
          (dependency_apps-All (Known keys) apps owner l))

  -- The table that a table extends is reached, or the error is not one of too few steps.
  abbrev pub Leads : Result {0, 0} Failure (RegisteredApp × Table) → Type 0
  Leads (ok p) = Reached p
  Leads (err e) = e ≢ out_of_fuel

  pub parent_of-Leads :
      (apps : List RegisteredApp) (owner : RegisteredApp) (table : Table)
      → Known keys owner
      → All (Known keys) apps
      → Leads (parent_of apps owner table)
  unfolding parent_of
  parent_of-Leads apps owner table h k =
      go (effective_definition owner) (effective_tables-Listed owner h)
    where
      lead :
          (o : Option (RegisteredApp × Table))
          → Holds Reached o
          → Leads (found_or (not_found table.extends) o)
      lead none l = λ e. cc
      lead (some p) l = l

      go :
          (d : Option Definition)
          → All (Listed keys owner) (tables_of d)
          → Leads (elim d [
            | none ↦ err (no_definition owner.app.name)
            | some d ↦
                found_or (not_found table.extends) (
                  resolve_validation_table owner
                    (some d)
                    (dependency_apps apps owner)
                    table.extends)
          ])
      go none l = λ e. cc
      go (some d) l = lead _ (resolve_validation_table-Reached owner d apps table.extends h l k)
