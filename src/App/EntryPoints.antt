-- ===== src/App/EntryPoints.antt =====
-- The ways into an app's code: AppRuntime.go, and the checks of AppDefinition.go on what it declares.
pub mod Roles
pub mod Served
use velm.Base.{
  ℕ, Bool, true, false, not, ◌&&◌, ◌||◌, if◌then◌else◌, Option, none, some, Result, ok, err, ◌>>◌,
  List, [], ◌∷◌, ◌++◌, Text, txt, trim, lower, upper, ◌==◌, has_prefix, any, null, keep, nat_eq,
  ltb, text_lt, sort_by,
}
use velm.Security.Model.{App, member, key_of}
use velm.Security.Roles.{app_role_candidates}
use velm.App.Definition.{Trigger, Table, Method, Service, Endpoint, Definition, RegisteredApp}
use velm.App.Registry.{runtime_definition, runtime_dependency_apps, tables_of}

-- normalizeHTTPMethod
unfoldable pub normalize_http_method : Text → Text
unfolding upper trim
normalize_http_method method = trim (upper method)

-- strings.TrimRight(path, "/")
unfoldable pub trim_slashes : Text → Text
trim_slashes [] = []
trim_slashes (c ∷ s) =
    let rest = trim_slashes s in if nat_eq c 47 && null rest then [] else c ∷ rest

-- normalizeRuntimePath
unfoldable pub normalize_runtime_path : Text → Text
unfolding trim has_prefix trim_slashes txt ◌==◌
normalize_runtime_path path =
    let p = trim path in
    let rooted = if has_prefix p (txt "/") then p else txt "/" ++ p in
    if p == [] then txt "/" else if rooted == txt "/" then rooted else trim_slashes rooted

-- isReservedRoleName
unfoldable pub is_reserved_role_name : Text → Bool
unfolding lower trim txt ◌==◌
is_reserved_role_name name = key_of name == txt "authenticated"

-- rolesGrantAnyAuthenticatedUser
unfoldable pub roles_grant_any_authenticated_user : List Text → Bool
unfolding is_reserved_role_name
roles_grant_any_authenticated_user roles = any is_reserved_role_name roles

-- declaredRoles
unfoldable pub declared_roles : List Text → List Text
unfolding trim ◌==◌ keep
declared_roles roles = keep (λ r. not (trim r == [])) roles

-- the names that UserHasAnyRole asks for
unfoldable pub role_names : List Text → List Text → List Text
unfolding lower trim ◌==◌ member
role_names seen [] = []
role_names seen (r ∷ roles) =
    let name = key_of r in
    let rest = role_names seen roles in
    let others = role_names (name ∷ seen) roles in
    if name == [] || member name seen then rest else name ∷ others

module _ (has_role : Text → Text → List Text → Bool) where
  -- UserHasAnyRole; its query, of a user, an app and role names, is the parameter
  unfoldable pub user_has_any_role : Text → Text → List Text → Bool
  unfolding trim ◌==◌ role_names
  user_has_any_role user app_id names =
      not (trim user == [])
      && not (null names)
      && not (null (role_names [] names))
      && has_role (trim user) (trim app_id) (role_names [] names)

  -- appEntryPointAccessAllowed
  unfoldable pub entry_point_access_allowed : RegisteredApp → List Text → Text → Bool
  unfolding roles_grant_any_authenticated_user app_role_candidates user_has_any_role trim ◌==◌
  entry_point_access_allowed owner roles user =
      let names = app_role_candidates owner.app roles in
      if roles_grant_any_authenticated_user roles
      then not (trim user == [])
      else if null names
      then false
      else user_has_any_role user owner.app.id names

-- a declaration that validateAppEntryPointRoleDeclarations refuses
pub data Undeclared : Type 0 where
  undeclared_method : Text → Text → Undeclared
  undeclared_endpoint : Text → Undeclared

-- the test on a method and that on an endpoint
unfoldable pub method_declares : Text → Method → Result {0, 0} Undeclared Unit
unfolding txt ◌==◌ declared_roles
method_declares service m =
    if not (m.visibility == txt "public")
    then ok tt
    else if null (declared_roles m.roles)
    then err (undeclared_method m.name service)
    else ok tt

unfoldable pub endpoint_declares : Endpoint → Result {0, 0} Undeclared Unit
unfolding declared_roles
endpoint_declares e =
    if not e.enabled
    then ok tt
    else if null (declared_roles e.roles)
    then err (undeclared_endpoint e.name)
    else ok tt

-- a loop that ends at the first error
unfoldable pub each_passes {ℓ} :
    {A : Type ℓ} → (A → Result {0, 0} Undeclared Unit) → List A → Result {0, 0} Undeclared Unit
each_passes check [] = ok tt
each_passes check (x ∷ xs) = check x >> each_passes check xs

-- validateAppEntryPointRoleDeclarations
unfoldable pub validate_entry_point_roles : Definition → Result {0, 0} Undeclared Unit
unfolding each_passes method_declares endpoint_declares
validate_entry_point_roles d =
    each_passes (λ s. each_passes (method_declares s.name) s.methods) d.services
    >> each_passes endpoint_declares d.endpoints

-- the tests on an endpoint, and the loops over the apps and their endpoints
unfoldable pub answers_to : Text → Text → Endpoint → Bool
unfolding normalize_http_method normalize_runtime_path ◌==◌
answers_to method path e =
    e.enabled && normalize_http_method e.method == method && normalize_runtime_path e.path == path

unfoldable pub first_endpoint : Text → Text → List Endpoint → Option Endpoint
unfolding answers_to
first_endpoint method path [] = none
first_endpoint method path (e ∷ endpoints) =
    if answers_to method path e then some e else first_endpoint method path endpoints

abbrev pub endpoints_of : Option Definition → List Endpoint
endpoints_of none = []
endpoints_of (some d) = d.endpoints

unfoldable pub endpoint_among : Text → Text → List RegisteredApp → Option (RegisteredApp × Endpoint)
unfolding first_endpoint runtime_definition
endpoint_among method path [] = none
endpoint_among method path (a ∷ apps) =
    let rest = endpoint_among method path apps in
    elim (first_endpoint method path (endpoints_of (runtime_definition a))) [
      | some e ↦ some (a, e)
      | none ↦ rest
    ]

-- resolveAppRuntimeEndpointWithApps; the answer without an app is `none`
unfoldable pub resolve_endpoint :
    List RegisteredApp → Text → Text → Option (RegisteredApp × Endpoint)
unfolding endpoint_among normalize_http_method normalize_runtime_path
resolve_endpoint apps method path =
    endpoint_among (normalize_http_method method) (normalize_runtime_path path) apps
