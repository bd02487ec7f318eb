-- ===== src/App/EntryPoints/Roles.antt =====
-- Who may use an entry point of an app.
use velm.Base.{
  Bool, true, false, not, ◌&&◌, ◌||◌, if◌then◌else◌, ◌≡◌, refl, ap, ◌∙◌, arith, inl, inr,
  Bool-cases, List, [], ◌∷◌, Text, txt, trim, lower, ◌==◌, any, null, keep, trim-lower, eq_iff,
}
use mathlib.Core.Path.{subst}
use velm.Security.Model.{App, key_of}
use velm.Security.Roles.{candidates_from, app_role_candidates}
use velm.App.Definition.{RegisteredApp}
use velm.App.EntryPoints.{
  is_reserved_role_name, roles_grant_any_authenticated_user, declared_roles, role_names,
  user_has_any_role, entry_point_access_allowed,
}

blank-key : (r : Text) → trim r == [] ≡ true → key_of r ≡ []
unfolding lower
blank-key r h = trim-lower r ∙ ap lower ((eq_iff (trim r) []).0 h)

-- A reserved name is not blank.
reserved-declared :
    (roles : List Text)
    → any is_reserved_role_name roles ≡ true
    → null (declared_roles roles) ≡ false
unfolding declared_roles keep is_reserved_role_name
reserved-declared [] h = cc
reserved-declared (r ∷ roles) h = elim (Bool-cases (trim r == [])) [
  | inl e ↦ rw e (reserved-declared roles (in_rest (blank-key r e) h))
  | inr e ↦ rw e refl
]
  where
    in_rest :
        key_of r ≡ []
        → ((key_of r == txt "authenticated") || any (λ s. key_of s == txt "authenticated") roles)
          ≡ true
        → any is_reserved_role_name roles ≡ true
    in_rest e k =
        subst
          (λ x.
            ((x == txt "authenticated") || any (λ s. key_of s == txt "authenticated") roles) ≡ true)
          e k

-- Blank names give no candidates.
blank-candidates :
    (app : App) (names : List Text) (roles : List Text)
    → null (declared_roles roles) ≡ true
    → candidates_from app names roles ≡ names
unfolding declared_roles keep candidates_from
blank-candidates app names [] h = refl
blank-candidates app names (r ∷ roles) h =
    let (blank, more) = all_blank (trim r == []) (declared_roles roles) h in
    rw (blank-key r blank) (blank-candidates app names roles more)
  where
    all_blank :
        (b : Bool) (rest : List Text)
        → null (if not b then r ∷ rest else rest) ≡ true
        → ((b ≡ true) × (null rest ≡ true))
    all_blank true rest k = (refl, k)
    all_blank false rest k = absurd (ground arith)

no_candidates :
    (app : App) (roles : List Text)
    → null (declared_roles roles) ≡ true
    → null (app_role_candidates app roles) ≡ true
unfolding app_role_candidates
no_candidates app roles h = rw (blank-candidates app [] roles h) refl

candidates-declared :
    (app : App) (roles : List Text)
    → null (app_role_candidates app roles) ≡ false
    → null (declared_roles roles) ≡ false
candidates-declared app roles h = elim (Bool-cases (null (declared_roles roles))) [
  | inl e ↦ absurd (ground (arith, h, no_candidates app roles e))
  | inr e ↦ e
]

module _ (has_role : Text → Text → List Text → Bool) where
  signed_in :
      (user app_id : Text) (names : List Text)
      → user_has_any_role has_role user app_id names ≡ true
      → (trim user == []) ≡ false
  unfolding user_has_any_role
  signed_in user app_id names h =
      first (trim user == []) (null names) (null (role_names [] names)) _ h
    where
      first : (a b c d : Bool) → (not a && not b && not c && d) ≡ true → a ≡ false
      first a b c d k = ground arith

  -- Whoever may use an entry point is signed in, and the entry point declares a role: a list of roles that
  -- is empty or blank opens it to no one.
  pub entry_point_access-declared :
      (owner : RegisteredApp) (roles : List Text) (user : Text)
      → entry_point_access_allowed has_role owner roles user ≡ true
      → ((trim user == [] ≡ false) × (null (declared_roles roles) ≡ false))
  unfolding entry_point_access_allowed
  entry_point_access-declared owner roles user h =
      by_roles (roles_grant_any_authenticated_user roles)
        (null (app_role_candidates owner.app roles)) (trim user == [])
        (user_has_any_role has_role user owner.app.id (app_role_candidates owner.app roles)) h
        (signed_in user owner.app.id (app_role_candidates owner.app roles))
        (reserved-declared roles) (candidates-declared owner.app roles)
    where
      by_roles :
          {P : Type 0} (reserved none_left blank asked : Bool)
          → (if reserved then not blank else if none_left then false else asked) ≡ true
          → (asked ≡ true → blank ≡ false)
          → (reserved ≡ true → P)
          → (none_left ≡ false → P)
          → ((blank ≡ false) × P)
      by_roles true n b a k u f g = (ground arith, f refl)
      by_roles false false b a k u f g = (u k, g refl)
      by_roles false true b a k u f g = absurd (ground arith)
