-- ===== src/App/Inheritance/Ancestors.antt =====
-- What the columns of a table that extends others are.
use velm.Base.{
  ℕ, zero, suc, Bool, true, false, ◌&&◌, ◌||◌, if◌then◌else◌, ◌≡◌, refl, sym, ap, ◌∙◌, inl, inr,
  Bool-cases, Option, none, some, Result, ok, err, ◌>>=◌, List, [], ◌∷◌, ◌++◌, Text, txt, trim,
  ◌==◌, Yields, eq_iff,
}
use mathlib.Core.Path.{subst}
use velm.Security.Model.{member, key_of}
use velm.Schema.DataTypes.{is_data_type}
use velm.App.Definition.{DefinitionColumn, Table, RegisteredApp}
use velm.App.Inheritance.{
  Failure, table_key, enough, extends_target, derived_task_auto_number_prefix, with_prefix,
  prefixed, apply_derived_prefix, parent_of, resolve_columns,
}

-- The columns of a table behind those of the tables that it extends, the first of them at the head.
pub data Inherits (apps : List RegisteredApp)
    : RegisteredApp → Table → List DefinitionColumn → Type 0 where
  root :
      {owner : RegisteredApp} {table : Table}
      → trim table.extends ≡ []
      → Inherits apps owner table table.columns
  extended :
      {owner : RegisteredApp} {table : Table} {parent : RegisteredApp × Table}
      {columns : List DefinitionColumn}
      → parent_of apps owner table ≡ ok parent
      → Inherits apps parent.0 parent.1 columns
      → Inherits apps owner table (columns ++ table.columns)

-- The names and types of columns: all but their prefixes.
unfoldable pub typed_names : List DefinitionColumn → List (Text × Text)
typed_names [] = []
typed_names (c ∷ columns) = (c.name, c.data_type) ∷ typed_names columns

typed_names-++ :
    (xs ys : List DefinitionColumn) → typed_names (xs ++ ys) ≡ typed_names xs ++ typed_names ys
unfolding typed_names
typed_names-++ [] ys = refl
typed_names-++ (x ∷ xs) ys = ap (λ names. (x.name, x.data_type) ∷ names) (typed_names-++ xs ys)

typed_names-with_prefix :
    (prefix : Text) (columns : List DefinitionColumn)
    → typed_names (with_prefix prefix columns) ≡ typed_names columns
unfolding typed_names with_prefix
typed_names-with_prefix prefix [] = refl
typed_names-with_prefix prefix (c ∷ columns) =
    elim (Bool-cases
      (key_of c.name == txt "number" && is_data_type (txt "autnumber") c.data_type)) [
        | inl e ↦ rw e refl
        | inr e ↦
            rw e
              (ap (λ names. (c.name, c.data_type) ∷ names) (typed_names-with_prefix prefix columns))
      ]

typed_names-apply_derived_prefix :
    (apps : List RegisteredApp) (owner : RegisteredApp) (table : Table)
    (columns : List DefinitionColumn)
    → typed_names (apply_derived_prefix apps owner table columns) ≡ typed_names columns
unfolding apply_derived_prefix
typed_names-apply_derived_prefix apps owner table columns =
    go (key_of table.name == [] || key_of table.name == txt "base_task")
      (extends_target (enough apps owner) apps owner table (txt "base_task") [])
      (derived_task_auto_number_prefix owner table)
  where
    go :
        (b : Bool) (o : Option Bool) (prefix : Text)
        → typed_names (if b then columns else prefixed o prefix columns) ≡ typed_names columns
    go true o prefix = refl
    go false (some true) prefix = typed_names-with_prefix prefix columns
    go false (some false) prefix = refl
    go false none prefix = refl

module _ (apps : List RegisteredApp) where
  -- The columns of the tables extended and the table's, with their names and types.
  abbrev Resolved : RegisteredApp → Table → List DefinitionColumn → Type 0
  Resolved owner table columns =
      (inherited : List DefinitionColumn) × Inherits apps owner table inherited
      × (typed_names columns ≡ typed_names inherited)

  chosen :
      (P : List DefinitionColumn → Type 0) (a b c : Bool) (x y : Failure)
      (z : List DefinitionColumn) (w : Result {0, 0} Failure (List DefinitionColumn))
      → (c ≡ true → P z)
      → Yields P w
      → Yields P (if a then err x else if b then err y else if c then ok z else w)
  chosen P true b c x y z w h k = tt
  chosen P false true c x y z w h k = tt
  chosen P false false true x y z w h k = h refl
  chosen P false false false x y z w h k = k

  follow :
      (f : ℕ) (owner : RegisteredApp) (table : Table) (visited : List Text)
      (r : Result {0, 0} Failure (RegisteredApp × Table))
      → parent_of apps owner table ≡ r
      → ((p : RegisteredApp × Table)
          → Yields (Resolved p.0 p.1) (resolve_columns f apps p.0 p.1 visited))
      → Yields (Resolved owner table) (
          r >>= (λ parent. resolve_columns f apps parent.0 parent.1 visited) >>= (λ inherited.
            ok (apply_derived_prefix apps owner table (inherited ++ table.columns))))
  follow f owner table visited (err e) found h = tt
  follow f owner table visited (ok p) found h =
      extend (resolve_columns f apps p.0 p.1 visited) (h p)
    where
      extend :
          (r : Result {0, 0} Failure (List DefinitionColumn))
          → Yields (Resolved p.0 p.1) r
          → Yields (Resolved owner table) (
              r >>= (λ inherited.
                ok (apply_derived_prefix apps owner table (inherited ++ table.columns))))
      extend (err e) k = tt
      extend (ok columns) (inherited, reached, same) = (
        inherited ++ table.columns,
        extended found reached,
        typed_names-apply_derived_prefix apps owner table (columns ++ table.columns)
            ∙ typed_names-++ columns table.columns
            ∙ ap (λ names. names ++ typed_names table.columns) same
            ∙ sym (typed_names-++ inherited table.columns),
      )

  resolve-Resolved :
      (f : ℕ) (owner : RegisteredApp) (table : Table) (visited : List Text)
      → Yields (Resolved owner table) (resolve_columns f apps owner table visited)
  unfolding resolve_columns
  resolve-Resolved zero owner table visited = tt
  resolve-Resolved (suc f) owner table visited =
      chosen (Resolved owner table) (key_of table.name == [])
        (member (table_key owner table) visited) (trim table.extends == []) _ _ _ _
        (λ x. (table.columns, root ((eq_iff (trim table.extends) []).0 x), refl))
        (follow f owner table (table_key owner table ∷ visited) (parent_of apps owner table) refl
          (λ p. resolve-Resolved f p.0 p.1 (table_key owner table ∷ visited)))

  -- The columns that are found for a table are, by their names and types, those of the tables that it
  -- extends, the first of them at the head, and then its own.
  pub resolve_columns-Inherits :
      (owner : RegisteredApp) (table : Table) (columns : List DefinitionColumn)
      → resolve_columns (enough apps owner) apps owner table [] ≡ ok columns
      → (inherited : List DefinitionColumn) × Inherits apps owner table inherited
        × (typed_names columns ≡ typed_names inherited)
  resolve_columns-Inherits owner table columns h =
      subst (Yields (Resolved owner table)) h (resolve-Resolved (enough apps owner) owner table [])
