-- ===== src/App/Inheritance/Fuel.antt =====
-- The steps of a walk from a table to the one that it extends.
use velm.Base.{
  Avoids, Avoids-bind, Avoids-ne, Holds, ℕ, zero, suc, ◌≤◌, Bool, true, false, ◌||◌, ◌≡◌, ◌≢◌, refl,
  arith, inl, inr, Bool-cases, Option, none, some, Result, ok, err, ◌>>=◌, List, [], ◌∷◌, Text,
  trim, ◌==◌, length, All, is_some,
}
use velm.Security.Model.{member, key_of}
use velm.App.Definition.{DefinitionColumn, Table, Definition, RegisteredApp}
use velm.App.Registry.{tables_of, dependency_apps, resolve_validation_table}
use velm.App.Inheritance.{
  Failure, out_of_fuel, table_key, all_tables, enough, extends_target, parent_of, resolve_columns,
}
use velm.App.Inheritance.Counting.{unseen, unseen_le, unseen-visit_new}
use velm.App.Inheritance.Known.{all_keys, length-all_keys, Listed, Known, all_keys-Known}
use velm.App.Inheritance.Reached.{Reached, resolve_validation_table-Reached, Leads, parent_of-Leads}

tail_of : (a b c : Bool) → (a || b || c) ≡ false → b ≡ false
tail_of a b c h = ground arith

module _ (apps : List RegisteredApp) (keys : List Text) (known : All (Known keys) apps) where
  follow :
      (r : Result {0, 0} Failure (RegisteredApp × Table))
      (k : RegisteredApp × Table → Result {0, 0} Failure (List DefinitionColumn))
      (g : List DefinitionColumn → List DefinitionColumn)
      → Leads keys r
      → ((p : RegisteredApp × Table) → Reached keys p → Avoids out_of_fuel (k p))
      → Avoids out_of_fuel (r >>= k >>= (λ columns. ok (g columns)))
  follow (err e) k g h f = h
  follow (ok p) k g h f =
      Avoids-bind out_of_fuel (k p) (λ columns. ok (g columns)) (f p h) (λ columns. tt)

  -- One step: the walk goes on from the table that this one extends, which is reached.
  resolve-step :
      (f : ℕ) (owner : RegisteredApp) (table : Table) (visited : List Text)
      → Known keys owner
      → ((p : RegisteredApp × Table)
          → Reached keys p
          → member (table_key owner table) visited ≡ false
          → Avoids out_of_fuel (resolve_columns f apps p.0 p.1 (table_key owner table ∷ visited)))
      → Avoids out_of_fuel (resolve_columns (suc f) apps owner table visited)
  unfolding resolve_columns
  resolve-step f owner table visited h go = elim (Bool-cases (key_of table.name == [])) [
    | inl e ↦ rw e (λ x. cc)
    | inr e ↦ elim (Bool-cases (member (table_key owner table) visited)) [
      | inl m ↦ rw (e, m) (λ x. cc)
      | inr m ↦ elim (Bool-cases (trim table.extends == [])) [
        | inl x ↦ rw (e, m, x) tt
        | inr x ↦
            rw (e, m, x)
              (follow (parent_of apps owner table) _ _
                (parent_of-Leads keys apps owner table h known) (λ p r. go p r m))
      ]
    ]
  ]

  resolve-Avoids :
      (f : ℕ) (owner : RegisteredApp) (table : Table) (visited : List Text)
      → Known keys owner
      → Listed keys owner table
      → suc (unseen keys visited) ≤ f
      → Avoids out_of_fuel (resolve_columns f apps owner table visited)
  resolve-Avoids zero owner table visited h l bound = absurd (omega arith)
  resolve-Avoids (suc f) owner table visited h l bound =
      resolve-step f owner table visited h (λ (p : RegisteredApp × Table) (r : Reached keys p) new.
        resolve-Avoids f p.0 p.1 (table_key owner table ∷ visited) r.0 r.1
          (omega (arith, unseen-visit_new (table_key owner table) keys visited l new)))

  -- A Boolean that was found.
  extends-step :
      (f : ℕ) (owner : RegisteredApp) (table : Table) (target : Text) (visited : List Text)
      → Known keys owner
      → ((p : RegisteredApp × Table)
          → Reached keys p
          → member (table_key owner table) visited ≡ false
          → is_some
              (extends_target f apps p.0 p.1 (key_of target) (table_key owner table ∷ visited))
            ≡ true)
      → is_some (extends_target (suc f) apps owner table target visited) ≡ true
  unfolding extends_target
  extends-step f owner table target visited (h, k) go =
      elim (Bool-cases (key_of table.name == key_of target)) [
        | inl e ↦ rw e refl
        | inr e ↦
            elim (Bool-cases (
              key_of table.name == []
              || member (table_key owner table) visited
              || trim table.extends == [])) [
                | inl x ↦ rw (e, x) refl
                | inr x ↦ rw (e, x) (from_definition owner.definition h (tail_of _ _ _ x))
              ]
      ]
    where
      from_parent :
          (o : Option (RegisteredApp × Table))
          → Holds (Reached keys) o
          → member (table_key owner table) visited ≡ false
          → is_some (elim o [
            | none ↦ some false
            | some (parent_app, parent) ↦
                extends_target f apps parent_app parent
                  (key_of target)
                  (table_key owner table ∷ visited)
          ])
            ≡ true
      from_parent none r new = refl
      from_parent (some p) r new = go p r new

      from_definition :
          (d : Option Definition)
          → All (Listed keys owner) (tables_of d)
          → member (table_key owner table) visited ≡ false
          → is_some (elim d [
            | none ↦ some false
            | some d ↦
                elim (resolve_validation_table owner
                  (some d)
                  (dependency_apps apps owner)
                  table.extends) [
                    | none ↦ some false
                    | some (parent_app, parent) ↦
                        extends_target f apps parent_app parent
                          (key_of target)
                          (table_key owner table ∷ visited)
                  ]
          ])
            ≡ true
      from_definition none l new = refl
      from_definition (some d) l new =
          from_parent _
            (resolve_validation_table-Reached keys owner d apps table.extends (h, k) l known) new

  extends-Avoids :
      (f : ℕ) (owner : RegisteredApp) (table : Table) (target : Text) (visited : List Text)
      → Known keys owner
      → Listed keys owner table
      → suc (unseen keys visited) ≤ f
      → is_some (extends_target f apps owner table target visited) ≡ true
  extends-Avoids zero owner table target visited h l bound = absurd (omega arith)
  extends-Avoids (suc f) owner table target visited h l bound =
      extends-step f owner table target visited h
        (λ (p : RegisteredApp × Table) (r : Reached keys p) new.
          extends-Avoids f p.0 p.1 (key_of target) (table_key owner table ∷ visited) r.0 r.1
            (omega (arith, unseen-visit_new (table_key owner table) keys visited l new)))

some_ne : (o : Option Bool) → is_some o ≡ true → o ≢ none
some_ne none h e = cc
some_ne (some b) h e = cc

module _ (apps : List RegisteredApp) (owner : RegisteredApp) (table : Table) where
  abbrev keys : List Text
  keys = all_keys (owner ∷ apps)

  known : All (Known keys) (owner ∷ apps)
  known = all_keys-Known (owner ∷ apps)

  bound :
      (visited : List Text) → suc (unseen keys visited) ≤ suc (length (all_tables (owner ∷ apps)))
  bound visited = omega (arith, unseen_le keys visited, length-all_keys (owner ∷ apps))

  -- The walk from a table of a registered app to the tables that it extends ends, for cyclic
  -- declarations too: the columns are found or an error says why not.
  pub resolve_columns_total :
      resolve_columns (enough apps owner) apps owner table [] ≢ err out_of_fuel
  resolve_columns_total = Avoids-ne out_of_fuel _ (
      resolve-step apps keys known.1 (suc (length (all_tables (owner ∷ apps)))) owner table []
        known.0
        (λ (p : RegisteredApp × Table) (r : Reached keys p) new.
          resolve-Avoids apps keys known.1 (suc (length (all_tables (owner ∷ apps)))) p.0 p.1 _ r.0
            r.1 (bound (table_key owner table ∷ []))))

  -- The test whether a table extends another ends, for cyclic declarations too.
  pub extends_target_total :
      (target : Text) → extends_target (enough apps owner) apps owner table target [] ≢ none
  extends_target_total target = some_ne _ (
      extends-step apps keys known.1 (suc (length (all_tables (owner ∷ apps)))) owner table target
        [] known.0
        (λ (p : RegisteredApp × Table) (r : Reached keys p) new.
          extends-Avoids apps keys known.1 (suc (length (all_tables (owner ∷ apps)))) p.0 p.1
            (key_of target) _ r.0 r.1 (bound (table_key owner table ∷ []))))
