-- ===== src/App/Methods.antt =====
-- AppRuntime.go: the service methods that a call reaches.
pub mod Allowed
use velm.Base.{
  ℕ, Bool, true, false, not, ◌&&◌, ◌||◌, if◌then◌else◌, Option, none, some, Result, ok, err, ◌>>◌,
  List, [], ◌∷◌, ◌++◌, Text, txt, trim, lower, upper, ◌==◌, has_prefix, any, null, keep, nat_eq,
  ltb, text_lt, sort_by,
}
use velm.Security.Model.{App, member, key_of}
use velm.Security.Roles.{app_role_candidates}
use velm.App.Definition.{Trigger, Table, Method, Service, Endpoint, Definition, RegisteredApp}
use velm.App.Registry.{runtime_definition, runtime_dependency_apps, tables_of}

-- strings.Cut at a full stop
unfoldable pub cut_dot : Text → Option (Text × Text)
cut_dot [] = none
cut_dot (c ∷ s) =
    let rest = cut_dot s in
    if nat_eq c 46
    then some ([], s)
    else elim rest [ none ↦ none | some (before, after) ↦ some (c ∷ before, after) ]

unfoldable pub first_method : Text → List Method → Option Method
unfolding lower trim ◌==◌
first_method name [] = none
first_method name (m ∷ methods) =
    if key_of m.name == name then some m else first_method name methods

-- the loops of findRuntimeServiceMethod: a service of the name without the method is passed over
unfoldable pub service_method : Text → Text → List Service → Option Method
unfolding first_method lower trim ◌==◌
service_method service name [] = none
service_method service name (s ∷ services) =
    let rest = service_method service name services in
    if key_of s.name == service
    then elim (first_method name s.methods) [ some m ↦ some m | none ↦ rest ]
    else rest

abbrev pub services_of : Option Definition → List Service
services_of none = []
services_of (some d) = d.services

-- findRuntimeServiceMethod
unfoldable pub find_service_method : RegisteredApp → Text → Text → Option Method
unfolding service_method runtime_definition
find_service_method owner service name =
    service_method service name (services_of (runtime_definition owner))

-- the loop over the dependencies
unfoldable pub dependency_method :
    Text → Text → List (Text × RegisteredApp) → Option (RegisteredApp × Method)
unfolding find_service_method lower trim txt ◌==◌
dependency_method service name [] = none
dependency_method service name ((key, a) ∷ apps) =
    let rest = dependency_method service name apps in
    elim (find_service_method a service name) [
      | none ↦ rest
      | some m ↦ if key_of m.visibility == txt "public" then some (a, m) else rest
    ]

abbrev pub is_callable : Bool → Method → Bool
is_callable require_public m =
    not require_public || key_of m.visibility == txt "public" || key_of m.visibility == []

abbrev pub method_among :
    RegisteredApp
    → List (Text × RegisteredApp)
    → Text
    → Text
    → Bool
    → Option (RegisteredApp × Method)
method_among owner dependencies service name require_public =
    elim (find_service_method owner service name) [
      | some m ↦ if is_callable require_public m then some (owner, m) else none
      | none ↦ dependency_method service name dependencies
    ]

-- resolveRuntimeServiceMethodWithApps
unfoldable pub resolve_service_method :
    List RegisteredApp → RegisteredApp → Text → Bool → Option (RegisteredApp × Method)
unfolding cut_dot find_service_method dependency_method runtime_dependency_apps lower trim ◌==◌ txt
resolve_service_method apps owner call require_public = elim (cut_dot (key_of call)) [
  | none ↦ none
  | some (service, name) ↦
      if service == [] || name == []
      then none
      else method_among owner (runtime_dependency_apps apps owner) service name require_public
]
