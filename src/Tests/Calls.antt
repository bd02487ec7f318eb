-- ===== src/Tests/Calls.antt =====
-- Calls of apps, requests and security sections on concrete inputs.
use velm.Base.{
  Bool, true, false, not, ◌&&◌, ◌||◌, ◌≡◌, ◌≢◌, refl, none, some, err, List, [], ◌∷◌, Text, txt,
  trim, ◌==◌, null, is_some, ◌↔◌, any, nat_eq,
}
use velm.Runtime.{whole_numbers}
use velm.Expression.{parse_boolean_expression}
use velm.Expression.Syntax
use velm.Expression.Total.{parse_boolean_expression_total}
use velm.Security.Model.{Rule, member, key_of}
use velm.Security.Roles.{candidates_from, add_candidate, app_scoped_role_name}
use velm.Expression.Scanner.{scan_expression}
use velm.Expression.Parser.{parse_tokens}
use velm.Security.Shadowing.{find_shadowed}
use velm.Security.Validation.{validate_security}
use velm.Security.Validation.Accepted.{
  is_ok, all_pass, is_known_role, is_sound, all_distinct, names_of, validate_security_iff,
}
use velm.App.Registry.{runtime_dependency_apps, effective_definition, tables_of}
use velm.App.Identifiers.{yaml_table_id, parse_yaml_table_id}
use velm.App.Identifiers.RoundTrip.{parse_yaml_table_id_iff}
use velm.App.Descendants.{descendant_table_names}
use velm.App.Descendants.Chains.{HasSome, IsDescendant, descendant_table_names_iff}
use velm.App.EntryPoints.{
  normalize_http_method, normalize_runtime_path, validate_entry_point_roles,
  entry_point_access_allowed, declared_roles, resolve_endpoint,
}
use velm.App.Methods.{resolve_service_method}
use velm.App.Triggers.{resolve_triggers}
use velm.App.EntryPoints.Roles.{entry_point_access-declared}
use velm.App.EntryPoints.Served.{Answer, resolve_endpoint-Answer}
use velm.App.Methods.Allowed.{Allowed, resolve_service_method-Allowed}
use velm.Tests.Apps.{notify, ping, send, tasks_app, it_app, apps}

descendant_table_names_iff_example :
    (member (txt "it_incident") (descendant_table_names apps (txt "base_task")) ≡ true) ↔ (
      ((key_of (txt "base_task") == []) ≡ false)
      × ((txt "it_incident" == []) ≡ false)
      × ((txt "it_incident" == key_of (txt "base_task")) ≡ false)
      × HasSome
          (λ a.
            HasSome
              (IsDescendant apps (txt "base_task") (txt "it_incident") a)
              (tables_of (effective_definition a)))
          apps)
descendant_table_names_iff_example =
    descendant_table_names_iff apps (txt "base_task") (txt "it_incident")

incident_is_listed :
    member (txt "it_incident") (descendant_table_names apps (txt "base_task")) ≡ true
unfolding descendant_table_names
incident_is_listed = refl

-- Every user holds every role.
abbrev all_roles : Text → Text → List Text → Bool
all_roles user app_id names = true

entry_point_access-declared_example :
    ((trim (txt "u1") == []) ≡ false) × (null (declared_roles (txt "clerk" ∷ [])) ≡ false)
unfolding entry_point_access_allowed candidates_from add_candidate app_scoped_role_name
entry_point_access-declared_example =
    entry_point_access-declared all_roles it_app (txt "clerk" ∷ []) (txt "u1") refl

blank_roles_deny : entry_point_access_allowed all_roles it_app (txt "  " ∷ []) (txt "u1") ≡ false
unfolding entry_point_access_allowed candidates_from
blank_roles_deny = refl

resolve_endpoint-Answer_example :
    Answer
      (normalize_http_method (txt "GET"))
      (normalize_runtime_path (txt "/ping"))
      apps
      (resolve_endpoint apps (txt "GET") (txt "/ping"))
unfolding validate_entry_point_roles velm.App.Registry.runtime_definition
resolve_endpoint-Answer_example =
    resolve_endpoint-Answer apps (txt "GET") (txt "/ping") (refl, (refl, tt))

ping_is_found : resolve_endpoint apps (txt "GET") (txt "/ping") ≡ some (it_app, ping)
unfolding resolve_endpoint
ping_is_found = refl

resolve_service_method-Allowed_example :
    Allowed it_app
      (runtime_dependency_apps apps it_app)
      true
      (txt "mail")
      (txt "send")
      (tasks_app, send)
unfolding resolve_service_method
resolve_service_method-Allowed_example =
    resolve_service_method-Allowed apps it_app (txt " Mail.send ") (txt "mail") (txt "send") true
      (tasks_app, send) refl refl

triggers_of_incident :
    resolve_triggers apps (txt "it_incident") (txt "created") ≡ some (it_app, notify ∷ [])
unfolding resolve_triggers txt
triggers_of_incident = refl

parse_yaml_table_id_iff_example :
    (parse_yaml_table_id (txt "yaml:table:it:it_incident") ≡ some (txt "it", txt "it_incident")) ↔ (
      (txt "yaml:table:it:it_incident" ≡ yaml_table_id (txt "it") (txt "it_incident"))
      × (any (λ c. nat_eq c 58) (txt "it") ≡ false)
      × ((txt "it" == [] || txt "it_incident" == []) ≡ false))
parse_yaml_table_id_iff_example =
    parse_yaml_table_id_iff (txt "yaml:table:it:it_incident") (txt "it") (txt "it_incident")

abbrev reading : Rule
reading = record {
  name = txt "read";
  order = 1;
  effect = txt "allow";
  operation = txt "R";
  table = [];
  field = [];
  condition = txt "owner == 'u1'";
  role = txt "clerk";
}

validate_security_iff_example :
    is_ok (
      validate_security whole_numbers
        (txt "clerk" ∷ [])
        (txt "it_incident")
        none
        (txt "authenticated" ∷ [])
        (reading ∷ []))
    ≡ (all_pass (is_known_role (txt "clerk" ∷ [])) (txt "authenticated" ∷ [])
        && (all_pass
              (is_sound whole_numbers (txt "clerk" ∷ []) (txt "it_incident") none)
              (reading ∷ [])
            && all_distinct (names_of (reading ∷ [])))
        && not (is_some (find_shadowed (txt "it_incident") (reading ∷ []))))
validate_security_iff_example =
    validate_security_iff whole_numbers (txt "clerk" ∷ []) (txt "it_incident") none
      (txt "authenticated" ∷ []) (reading ∷ [])

reading_is_accepted :
    is_ok (
      validate_security whole_numbers
        (txt "clerk" ∷ [])
        (txt "it_incident")
        none
        (txt "authenticated" ∷ [])
        (reading ∷ []))
    ≡ true
unfolding validate_security scan_expression parse_tokens
reading_is_accepted = refl

parse_boolean_expression_total_example :
    parse_boolean_expression whole_numbers (txt "a == 'b") ≢ err Syntax.out_of_fuel
parse_boolean_expression_total_example =
    parse_boolean_expression_total whole_numbers (txt "a == 'b")
