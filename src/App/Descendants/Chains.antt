-- ===== src/App/Descendants/Chains.antt =====
-- What it means that a table extends another: a chain of tables.
use velm.Base.{
  ℕ, zero, suc, Bool, true, false, not, ◌&&◌, ◌||◌, ◌≡◌, ◌≢◌, ◌⊎◌, ◌↔◌, refl, sym, ◌∙◌, arith, inl,
  inr, Bool-cases, Option, none, some, List, [], ◌∷◌, Text, trim, ◌==◌, any, eq_iff,
  trim-lower_idempotent, and_left, and_right,
}
use mathlib.Core.Path.{subst}
use velm.Security.Model.{member, key_of}
use velm.App.Definition.{Table, Definition, RegisteredApp}
use velm.App.Registry.{effective_definition, dependency_apps, tables_of, resolve_validation_table}
use velm.App.Inheritance.{table_key, enough, extends_target}
use velm.App.Inheritance.Fuel.{extends_target_total}
use velm.App.Descendants.{
  extends_table, in_effect, has_descendant, is_true, descendant_table_names,
  descendant_table_names-any,
}

-- A table is the target, or it names a table that it extends, which is the target or extends another
-- in turn, and so on to the target. No table that extends another in the chain is nameless or occurs
-- twice: `gone` lists the keys of those before.
pub data Extends (apps : List RegisteredApp) (target : Text)
    : List Text → RegisteredApp → Table → Type 0 where
  itself :
      {gone : List Text} {owner : RegisteredApp} {table : Table}
      → key_of table.name ≡ target
      → Extends apps target gone owner table
  through :
      {gone : List Text} {owner : RegisteredApp} {table : Table} {d : Definition}
      {parent : RegisteredApp × Table}
      → (key_of table.name == []) ≡ false
      → member (table_key owner table) gone ≡ false
      → (trim table.extends == []) ≡ false
      → owner.definition ≡ some d
      → resolve_validation_table owner (some d) (dependency_apps apps owner) table.extends
        ≡ some parent
      → Extends apps target (table_key owner table ∷ gone) parent.0 parent.1
      → Extends apps target gone owner table

three : (a b c : Bool) → (a || b || c) ≡ false → (a ≡ false) × (b ≡ false) × (c ≡ false)
three a b c h = (ground arith, ground arith, ground arith)

none_of : (a b c : Bool) → a ≡ false → b ≡ false → c ≡ false → (a || b || c) ≡ false
none_of a b c h k l = ground arith

module _ (apps : List RegisteredApp) where
  extends_target_sound :
      (f : ℕ) (owner : RegisteredApp) (table : Table) (target : Text) (gone : List Text)
      → extends_target f apps owner table target gone ≡ some true
      → Extends apps (key_of target) gone owner table
  unfolding extends_target
  extends_target_sound zero owner table target gone h = absurd (cc h)
  extends_target_sound (suc f) owner table target gone h =
      elim (Bool-cases (key_of table.name == key_of target)) [
        | inl e ↦ itself ((eq_iff _ _).0 e)
        | inr e ↦
            elim (Bool-cases (
              key_of table.name == []
              || member (table_key owner table) gone
              || trim table.extends == [])) [
                | inl x ↦ absurd (cc (rw (e, x) at h))
                | inr x ↦
                    from_definition (three _ _ _ x)
                      (λ (p : RegisteredApp × Table) k.
                        subst (λ t. Extends apps t (table_key owner table ∷ gone) p.0 p.1)
                          (trim-lower_idempotent target)
                          (extends_target_sound f p.0 p.1 (key_of target)
                            (table_key owner table ∷ gone) k))
                      owner.definition refl (rw (e, x) at h)
              ]
      ]
    where
      from_definition :
          ((key_of table.name == []) ≡ false)
            × (member (table_key owner table) gone ≡ false)
            × ((trim table.extends == []) ≡ false)
          → ((p : RegisteredApp × Table)
              → extends_target f apps p.0 p.1 (key_of target) (table_key owner table ∷ gone)
                ≡ some true
              → Extends apps (key_of target) (table_key owner table ∷ gone) p.0 p.1)
          → (o : Option Definition) → owner.definition ≡ o
          → elim o [
            | none ↦ some false
            | some d ↦
                elim (resolve_validation_table owner
                  (some d)
                  (dependency_apps apps owner)
                  table.extends) [
                    | none ↦ some false
                    | some (parent_app, parent) ↦
                        extends_target f apps parent_app parent
                          (key_of target)
                          (table_key owner table ∷ gone)
                  ]
          ]
            ≡ some true
          → Extends apps (key_of target) gone owner table
      from_definition plain up none e h = absurd (cc h)
      from_definition (a, b, c) up (some d) e h =
          from_parent
            (resolve_validation_table owner (some d) (dependency_apps apps owner) table.extends)
            refl h
        where
          from_parent :
              (o : Option (RegisteredApp × Table))
              → resolve_validation_table owner (some d) (dependency_apps apps owner) table.extends
                ≡ o
              → elim o [
                | none ↦ some false
                | some (parent_app, parent) ↦
                    extends_target f apps parent_app parent
                      (key_of target)
                      (table_key owner table ∷ gone)
              ]
                ≡ some true
              → Extends apps (key_of target) gone owner table
          from_parent none k h = absurd (cc h)
          from_parent (some p) k h = through a b c e k (up p h)

  extends_target_complete :
      (f : ℕ) (goal : Text) (gone : List Text) (owner : RegisteredApp) (table : Table)
      (target : Text)
      → Extends apps goal gone owner table
      → key_of target ≡ goal
      → extends_target f apps owner table target gone ≢ some false
  unfolding extends_target
  extends_target_complete zero goal gone owner table target c g h = cc h
  extends_target_complete (suc f) goal gone owner table target (itself e) g h =
      cc (rw ((eq_iff (key_of table.name) (key_of target)).1 (e ∙ sym g)) at h)
  extends_target_complete (suc f) goal gone owner table target (through {parent = p} a b c e k up) g
        h =
      elim (Bool-cases (key_of table.name == key_of target)) [
        | inl x ↦ cc (rw x at h)
        | inr x ↦
            extends_target_complete f goal (table_key owner table ∷ gone) p.0 p.1 (key_of target) up
              (trim-lower_idempotent target ∙ g) (rw (x, none_of _ _ _ a b c, e, k) at h)
      ]

is_true-some : (o : Option Bool) → is_true o ≡ true → o ≡ some true
is_true-some none h = cc
is_true-some (some true) h = refl
is_true-some (some false) h = cc

some-is_true : (o : Option Bool) → o ≢ none → o ≢ some false → is_true o ≡ true
some-is_true none h k = absurd (h refl)
some-is_true (some true) h k = refl
some-is_true (some false) h k = absurd (k refl)

-- The test whether a table extends another is right.
pub extends_table_iff :
    (apps : List RegisteredApp) (owner : RegisteredApp) (target : Text) (table : Table)
    → (extends_table apps owner (key_of target) table ≡ true)
      ↔ Extends apps (key_of target) [] owner table
unfolding extends_table
extends_table_iff apps owner target table = (
  λ h.
      subst (λ t. Extends apps t [] owner table) (trim-lower_idempotent target)
        (extends_target_sound apps (enough apps owner) owner table (key_of target) []
          (is_true-some _ h)),
  λ c. some-is_true _ (extends_target_total apps owner table (key_of target)) (
      extends_target_complete apps (enough apps owner) (key_of target) [] owner table
        (key_of target) c (trim-lower_idempotent target)),
)

-- Some element of a list.
abbrev pub HasSome : {A : Type 0} → (A → Type 0) → List A → Type 0
HasSome P [] = ⊥
HasSome P (x ∷ xs) = P x ⊎ HasSome P xs

or_true : (b : Bool) → (b || true) ≡ true
or_true b = ground arith

any-HasSome :
    {A : Type 0} (p : A → Bool) (P : A → Type 0)
    → ((x : A) → (p x ≡ true) ↔ P x)
    → (xs : List A) → (any p xs ≡ true) ↔ HasSome P xs
any-HasSome p P same [] = (λ h. cc h, λ h. absurd h)
any-HasSome p P same (x ∷ xs) =
    let (to, from) = any-HasSome p P same xs in (λ h. split (p x) (same x).0 to h, λ h. join from h)
  where
    split :
        {R : Type 0} (b : Bool)
        → (b ≡ true → P x)
        → (any p xs ≡ true → R)
        → (b || any p xs) ≡ true
        → P x ⊎ R
    split true f g h = inl (f refl)
    split false f g h = inr (g h)

    join : (HasSome P xs → any p xs ≡ true) → P x ⊎ HasSome P xs → (p x || any p xs) ≡ true
    join from_more (inl h) = rw ((same x).1 h) refl
    join from_more (inr h) = rw (from_more h) (or_true (p x))

-- What a table must be to be listed under a name as a descendant of a target.
abbrev pub IsDescendant : List RegisteredApp → Text → Text → RegisteredApp → Table → Type 0
IsDescendant apps target name a t =
    (key_of t.name ≡ name) × Extends apps (key_of target) [] (in_effect a) t

tested :
    (apps : List RegisteredApp) (target name : Text) (a : RegisteredApp) (t : Table)
    → ((key_of t.name == name && extends_table apps (in_effect a) (key_of target) t) ≡ true)
      ↔ IsDescendant apps target name a t
tested apps target name a t = (
  λ h. (
    (eq_iff _ _).0 (and_left _ _ h),
    (extends_table_iff apps (in_effect a) target t).0 (and_right _ _ h),
  ),
  λ h. rw ((eq_iff _ _).1 h.0, (extends_table_iff apps (in_effect a) target t).1 h.1) refl,
)

tests :
    (a b c d : Bool)
    → ((not a && (not b && not c) && d) ≡ true)
      ↔ ((a ≡ false) × (b ≡ false) × (c ≡ false) × (d ≡ true))
tests a b c d = (
  λ h. (ground arith, ground arith, ground arith, ground arith),
  λ h. rw (h.0, h.1, h.2, h.3) refl,
)

-- A name is listed as a descendant of a table if and only if the table's name is not blank, the name is
-- not empty and not the table's own, and some app has a table of that name, in lower case and trimmed,
-- from which a chain of tables leads to a table of the target's name: each extends the next, none is
-- nameless, and none occurs twice.
pub descendant_table_names_iff :
    (apps : List RegisteredApp) (target name : Text)
    → (member name (descendant_table_names apps target) ≡ true) ↔ (
        ((key_of target == []) ≡ false)
        × ((name == []) ≡ false)
        × ((name == key_of target) ≡ false)
        × HasSome
            (λ a. HasSome (IsDescendant apps target name a) (tables_of (effective_definition a)))
            apps)
descendant_table_names_iff apps target name =
    let (to, from) =
      any-HasSome (has_descendant apps (key_of target) name) _
        (λ a.
          any-HasSome _ (IsDescendant apps target name a) (tested apps target name a)
            (tables_of (effective_definition a)))
        apps in
    let (split, join) = tests (key_of target == []) (name == []) (name == key_of target) _ in
    (
      λ h.
          let parts = split (sym (descendant_table_names-any apps target name) ∙ h) in
          (parts.0, parts.1, parts.2, to parts.3),
      λ h. descendant_table_names-any apps target name ∙ join (h.0, h.1, h.2, from h.3),
    )
