-- ===== src/App/Descendants.antt =====
-- TableInheritance.go: the tables that extend a table.
pub mod Chains
use velm.Base.{
  Bool, true, false, not, ◌&&◌, ◌||◌, if◌then◌else◌, ◌≡◌, refl, sym, ◌∙◌, arith, inl, inr,
  Bool-cases, Option, none, some, List, [], ◌∷◌, ◌++◌, Text, trim, lower, ◌==◌, text_lt, any,
  sort_by, sort_by-any, eq_iff, eq_refl,
}
use mathlib.Core.Path.{subst}
use velm.Security.Model.{member, key_of}
use velm.App.Definition.{Table, RegisteredApp}
use velm.App.Registry.{effective_definition, tables_of}
use velm.App.Inheritance.{enough, extends_target}

abbrev pub is_true : Option Bool → Bool
is_true none = false
is_true (some b) = b

-- definitionTableExtendsTargetWithApps on an app's table, no table visited
unfoldable pub extends_table : List RegisteredApp → RegisteredApp → Text → Table → Bool
unfolding extends_target
extends_table apps owner target table =
    is_true (extends_target (enough apps owner) apps owner table target [])

-- the loop over the tables of an app, with the names found so far
unfoldable pub descendants_in :
    List RegisteredApp → RegisteredApp → Text → List Text → List Table → List Text
unfolding extends_table lower trim ◌==◌ member
descendants_in apps owner target found [] = found
descendants_in apps owner target found (t ∷ tables) =
    let name = key_of t.name in
    descendants_in apps owner target
      (if name == [] || member name (target ∷ found) || not (extends_table apps owner target t)
        then found
        else found ++ name ∷ [])
      tables

-- `ownerApp`: the app with the definition in effect as its definition
abbrev pub in_effect : RegisteredApp → RegisteredApp
in_effect a = record {
  app = a.app;
  definition = effective_definition a;
  draft_definition = a.draft_definition;
}

-- the loop over the apps
unfoldable pub descendants_from :
    List RegisteredApp → Text → List Text → List RegisteredApp → List Text
unfolding descendants_in effective_definition
descendants_from apps target found [] = found
descendants_from apps target found (a ∷ more) =
    descendants_from apps target
      (descendants_in apps (in_effect a) target found (tables_of (effective_definition a))) more

-- descendantTableNamesFromApps
unfoldable pub descendant_table_names : List RegisteredApp → Text → List Text
unfolding descendants_from lower trim ◌==◌ text_lt sort_by
descendant_table_names apps target =
    if key_of target == []
    then []
    else sort_by text_lt (descendants_from apps (key_of target) [] apps)

-- Whether an app has a table of the name that extends the target.
abbrev pub has_descendant : List RegisteredApp → Text → Text → RegisteredApp → Bool
has_descendant apps target name a =
    any (λ t. key_of t.name == name && extends_table apps (in_effect a) target t)
      (tables_of (effective_definition a))

member-any : (x : Text) (ys : List Text) → member x ys ≡ any (λ y. x == y) ys
unfolding member
member-any x [] = refl
member-any x (y ∷ ys) = rw (member-any x ys) refl

member-snoc : (x y : Text) (ys : List Text) → member x (ys ++ y ∷ []) ≡ (member x ys || x == y)
unfolding member
member-snoc x y [] = ground arith
member-snoc x y (z ∷ ys) = rw (member-snoc x y ys) (ground arith)

module _ (apps : List RegisteredApp) (target name : Text) where
  -- A name that may be listed at all.
  abbrev is_other : Bool
  is_other = not (name == []) && not (name == target)

  adds_name :
      (blank self extends : Bool) (found : List Text)
      → member name (
          if blank || (self || member name found) || not extends then found else found ++ name ∷ [])
        ≡ (member name found || ((not blank && not self) && extends))
  adds_name true self extends found = ground arith
  adds_name false true extends found = ground arith
  adds_name false false false found = ground arith
  adds_name false false true found = elim (Bool-cases (member name found)) [
    | inl e ↦ rw e e
    | inr e ↦ rw (e, member-snoc name name found, e, eq_refl name) refl
  ]

  adds_other :
      (k : Text) (stays : Bool) (found : List Text)
      → (k == name) ≡ false
      → member name (if stays then found else found ++ k ∷ [])
        ≡ (member name found || (is_other && false))
  adds_other k true found e = ground arith
  adds_other k false found e =
      rw (member-snoc name k found) (ground (arith, eq_iff name k, eq_iff k name))

  round_adds :
      (k : Text) (extends : Bool) (found : List Text)
      → member name
          (if k == [] || member k (target ∷ found) || not extends then found else found ++ k ∷ [])
        ≡ (member name found || (is_other && (k == name && extends)))
  unfolding member
  round_adds k extends found = elim (Bool-cases (k == name)) [
    | inl e ↦
        subst
          (λ x.
            member name (
              if x == [] || (x == target || member x found) || not extends
              then found
              else found ++ x ∷ [])
            ≡ (member name found || (is_other && (x == name && extends))))
          (sym ((eq_iff k name).0 e))
          (rw (eq_refl name) (adds_name (name == []) (name == target) extends found))
    | inr e ↦
        rw e (adds_other k (k == [] || (k == target || member k found) || not extends) found e)
  ]

  tables_add :
      (owner : RegisteredApp) (tables : List Table) (found : List Text)
      → member name (descendants_in apps owner target found tables) ≡ (
          member name found
          || (is_other
              && any (λ t. key_of t.name == name && extends_table apps owner target t) tables))
  unfolding descendants_in
  tables_add owner [] found = ground arith
  tables_add owner (t ∷ tables) found =
      tables_add owner tables _
      ∙ regroup _ (member name found) is_other
          (key_of t.name == name && extends_table apps owner target t) _
          (round_adds (key_of t.name) (extends_table apps owner target t) found)
    where
      regroup : (a b c d e : Bool) → a ≡ (b || (c && d)) → (a || (c && e)) ≡ (b || (c && (d || e)))
      regroup a b c d e h = ground arith

  apps_add :
      (more : List RegisteredApp) (found : List Text)
      → member name (descendants_from apps target found more)
        ≡ (member name found || (is_other && any (has_descendant apps target name) more))
  unfolding descendants_from
  apps_add [] found = ground arith
  apps_add (a ∷ more) found =
      apps_add more _
      ∙ regroup _ (member name found) is_other (has_descendant apps target name a) _
          (tables_add (in_effect a) (tables_of (effective_definition a)) found)
    where
      regroup : (a b c d e : Bool) → a ≡ (b || (c && d)) → (a || (c && e)) ≡ (b || (c && (d || e)))
      regroup a b c d e h = ground arith

-- A name is listed as a descendant of a table if and only if it is not empty, not the table's own, and
-- some app has a table of that name for which the test whether it extends the table succeeds.
pub descendant_table_names-any :
    (apps : List RegisteredApp) (target name : Text)
    → member name (descendant_table_names apps target) ≡ (
        not (key_of target == [])
        && (not (name == []) && not (name == key_of target))
        && any (has_descendant apps (key_of target) name) apps)
unfolding descendant_table_names
descendant_table_names-any apps target name = elim (Bool-cases (key_of target == [])) [
  | inl e ↦ rw e refl
  | inr e ↦ rw e (
      member-any name (sort_by text_lt (descendants_from apps (key_of target) [] apps))
      ∙ sort_by-any text_lt (λ y. name == y) (descendants_from apps (key_of target) [] apps)
      ∙ sym (member-any name (descendants_from apps (key_of target) [] apps))
      ∙ apps_add apps (key_of target) name apps [])
]
