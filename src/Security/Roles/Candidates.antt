-- ===== src/Security/Roles/Candidates.antt =====
-- The user's roles against the names that a role may go by: with the set of seen names and without.
use velm.Base.{Bool, true, ◌&&◌, ◌||◌, not, ◌≡◌, refl, arith, Bool-cases, inl, inr}
use velm.Base.{List, [], ◌∷◌, ◌++◌, Text, ◌==◌, eq_iff, any}
use velm.Security.Model.{App, Evaluator, member, key_of}
use velm.Security.Roles.{
  app_scoped_role_name, add_candidate, candidates_from, app_role_candidates, holds_candidate,
}

any-append : (p : Text → Bool) (xs ys : List Text) → any p (xs ++ ys) ≡ (any p xs || any p ys)
any-append p [] ys = refl
any-append p (x ∷ xs) ys = ground (arith, any-append p xs ys)

any-member :
    (p : Text → Bool) (c : Text) (xs : List Text)
    → member c xs ≡ true
    → p c ≡ true
    → any p xs ≡ true
unfolding member
any-member p c [] h k = cc
any-member p c (x ∷ xs) h k = ground (arith, eq_iff c x, any-member p c xs)

-- A candidate counts if it is not empty and the user has it.
abbrev pub counts : (Text → Bool) → Text → Bool
counts p candidate = not (key_of candidate == []) && p (key_of candidate)

any-add_candidate :
    (p : Text → Bool) (names : List Text) (candidate : Text)
    → any p (add_candidate names candidate) ≡ (any p names || counts p candidate)
unfolding add_candidate
any-add_candidate p names candidate =
    ground
      (arith, any-append p names (key_of candidate ∷ []), any-member p (key_of candidate) names)

-- A role counts if it has a name and one of its two names counts: the one scoped to the app, or the
-- bare one.
abbrev pub role_counts : (Text → Bool) → App → Text → Bool
role_counts p app role =
    not (key_of role == [])
    && (counts p (app_scoped_role_name app (key_of role)) || counts p (key_of role))

any-candidates_from :
    (p : Text → Bool) (app : App) (names roles : List Text)
    → any p (candidates_from app names roles) ≡ (any p names || any (role_counts p app) roles)
unfolding candidates_from
any-candidates_from p app names [] = ground arith
any-candidates_from p app names (role ∷ roles) = elim (Bool-cases (key_of role == [])) [
  | inl e ↦ rw e (any-candidates_from p app names roles)
  | inr e ↦
      rw
        (
          e,
          any-candidates_from p app
              (add_candidate (add_candidate names (app_scoped_role_name app (key_of role)))
                (key_of role))
              roles,
          any-add_candidate p (add_candidate names (app_scoped_role_name app (key_of role)))
              (key_of role),
          any-add_candidate p names (app_scoped_role_name app (key_of role)),
        )
        (ground arith)
]

-- The user passes a list of roles exactly if one of them has a name, and the user has that role
-- under its bare name or under the name scoped to the app: skipping names that were seen loses
-- nothing.
pub holds_candidate-any :
    (e : Evaluator) (roles : List Text)
    → holds_candidate e roles ≡ any (role_counts (λ c. member c e.user_roles) e.app) roles
unfolding holds_candidate app_role_candidates
holds_candidate-any e roles = any-candidates_from (λ c. member c e.user_roles) e.app [] roles
