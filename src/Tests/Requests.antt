-- ===== src/Tests/Requests.antt =====
-- The properties of the gateway at one request: a signed-in user posts a form with its token.
use velm.Base.{true, false, ◌≡◌, ◌↔◌, none, some, [], ◌∷◌, txt, ◌==◌}
use velm.Gateway.Model.{Session, Request, Services, served}
use velm.Gateway.Layers.{with_auth}
use velm.Gateway.Layers.Served.{is_served}
use velm.Gateway.Layers.Admission.{IsAdmitted, with_auth-served}
use velm.Gateway.Redirects.{login_redirect_target}
use velm.Gateway.Redirects.Local.{IsRooted, IsFrom, login_redirect_target-IsRooted}

abbrev ada_only : Services
ada_only = record {
  query_escape = λ s. s;
  parse_url = λ s. none;
  sha256 = λ s. s;
  lookup_agent_token = λ hash. none;
  touch_agent_token = λ id. false;
  user_identity = λ user. (txt "ada@example.org", txt "Ada");
  user_session_version = λ user. some 3;
  user_has_permission = λ user permission app. some (user == txt "ada");
}

abbrev session_of_ada : Session
session_of_ada = record {
  authenticated = true;
  user_id = txt "ada";
  user_email = txt "ada@example.org";
  user_name = txt "Ada";
  user_role = txt "clerk";
  csrf_token = txt "secret";
  session_version = some 3;
}

abbrev posted : Request
posted = record {
  method = txt "POST";
  headers = (txt "X-Csrf-Token", txt "secret") ∷ (txt "Referer", txt "//evil.example/x") ∷ [];
  request_uri = txt "/t/orders";
  app_id_query = txt "orders";
  form_token = none;
  stored = some session_of_ada;
  renewed = none;
}

with_auth-served_example :
    (is_served (with_auth ada_only posted (txt "orders.write") served) ≡ true)
    ↔ IsAdmitted ada_only posted (txt "orders.write")
with_auth-served_example = with_auth-served ada_only posted (txt "orders.write")

login_redirect_target-IsRooted_example :
    IsRooted (login_redirect_target ada_only posted)
    × IsFrom ada_only posted (login_redirect_target ada_only posted)
login_redirect_target-IsRooted_example = login_redirect_target-IsRooted ada_only posted
