-- ===== src/Security/Roles.antt =====
-- appScopedRoleName and appRoleCandidates of AppRuntime.go, and the tests on the user's roles.
pub mod Candidates
use velm.Base.{
  List, [], ◌∷◌, ◌++◌, Text, txt, trim, lower, ◌==◌, ◌||◌, if◌then◌else◌, Bool, true, false, any,
  null,
}
use velm.Security.Model.{App, Evaluator, member, key_of}

unfoldable pub app_scoped_role_name : App → Text → Text
app_scoped_role_name app role_name =
    let role = key_of role_name in
    let scope = if key_of app.namespace == [] then key_of app.name else key_of app.namespace in
    if role == [] then [] else if scope == [] then role else scope ++ (txt "." ++ role)

-- one round of the inner loop: a candidate that is not empty and not seen is added
unfoldable pub add_candidate : List Text → Text → List Text
add_candidate names candidate =
    let c = key_of candidate in if c == [] || member c names then names else names ++ c ∷ []

unfoldable pub candidates_from : App → List Text → List Text → List Text
candidates_from app names [] = names
candidates_from app names (role ∷ roles) =
    candidates_from app
      (if key_of role == []
        then names
        else add_candidate (add_candidate names (app_scoped_role_name app (key_of role)))
            (key_of role))
      roles

-- appRoleCandidates
unfoldable pub app_role_candidates : App → List Text → List Text
app_role_candidates app roles = candidates_from app [] roles

-- the loops of userHasRole and allowsRoleGate
unfoldable pub holds_candidate : Evaluator → List Text → Bool
holds_candidate e roles = any (λ c. member c e.user_roles) (app_role_candidates e.app roles)

-- userHasRole
unfoldable pub user_has_role : Evaluator → Text → Bool
user_has_role e role = holds_candidate e (role ∷ [])

-- allowsRoleGate
unfoldable pub allows_role_gate : Evaluator → Bool
allows_role_gate e = null e.role_gate || holds_candidate e e.role_gate

-- hasAdminReadBypass
unfoldable pub has_admin_read_bypass : Evaluator → Bool
has_admin_read_bypass e = member (txt "admin") e.user_roles
