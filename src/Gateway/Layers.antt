-- ===== src/Gateway/Layers.antt =====
-- The layers around a handler, each a function of the handler inside it, and the two chains of
-- routes.go. The layers that only write logs, RequestLog and Audit, pass a request on as it is.
pub mod Served
pub mod Admission
use velm.Base.{
  ℕ, Bool, true, false, not, ◌&&◌, ◌||◌, if◌then◌else◌, Option, none, some, Result, ok, err, List,
  [], ◌∷◌, ◌++◌, Text, txt, trim, ◌==◌, nat_eq, length, leb, every, is_letter, is_digit,
}
use velm.Gateway.Model.{
  Session, Request, Context, no_context, Services, Outcome, refused, redirected, hx_redirected,
  Handler, or_blank, header,
}
use velm.Gateway.Redirects.{redirect_to_login}
use velm.Gateway.Tokens.{parse_bearer, is_bearer_request, resolve_agent_token}

-- WithUserContext for the user of a session
abbrev pub user_context : Session → Context → Context
user_context s ctx = record ctx {
  user_id = s.user_id;
  user_email = s.user_email;
  user_name = s.user_name;
  user_role = if s.user_role == [] then txt "unknown" else s.user_role;
}

-- the conditions of RequireAuth and of resolveSession on a session
unfoldable pub is_signed_in : Session → Bool
unfolding ◌==◌
is_signed_in s = s.authenticated && not (s.user_id == [])

-- requiresCSRFCheck
unfoldable pub requires_csrf_check : Text → Bool
unfolding txt ◌==◌
requires_csrf_check method =
    method == txt "POST" || method == txt "PUT" || method == txt "PATCH" || method == txt "DELETE"

-- ^[A-Za-z0-9_-]{1,64}$
unfoldable pub is_app_id : Text → Bool
unfolding every
is_app_id s =
    leb 1 (length s)
    && leb (length s) 64
    && every (λ c. is_letter c || is_digit c || nat_eq c 95 || nat_eq c 45) s

module _ (services : Services) (r : Request) where
  -- RequireAuth after store.Get
  unfoldable pub enter : Option Session → Handler → Handler
  unfolding redirect_to_login is_signed_in
  enter none next ctx = redirect_to_login services r
  enter (some s) next ctx =
      if is_signed_in s then next (user_context s ctx) else redirect_to_login services r

  -- RequireAuth
  unfoldable pub require_auth : Handler → Handler
  unfolding enter
  require_auth next ctx = enter r.stored next ctx

  -- resolveSession
  unfoldable pub resolve_session : Context → Option Context
  unfolding is_signed_in
  resolve_session ctx = elim r.stored [
    | none ↦ none
    | some s ↦ if is_signed_in s then some (user_context s ctx) else none
  ]

  -- resolveAgent
  unfoldable pub resolve_agent : Text → Context → Option Context
  unfolding resolve_agent_token txt
  resolve_agent token ctx = elim (resolve_agent_token services token) [
    | err e ↦ none
    | ok user ↦ some (record ctx {
      user_id = user;
      user_email = (services.user_identity user).0;
      user_name = (services.user_identity user).1;
      user_role = txt "unknown";
      is_agent = true;
    })
  ]

  -- resolveSessionOrAgent
  unfoldable pub resolve_session_or_agent : Context → Option Context
  unfolding parse_bearer header txt ◌==◌ resolve_agent resolve_session
  resolve_session_or_agent ctx =
      let token = parse_bearer (header (txt "Authorization") r) in
      if not (token == []) then resolve_agent token ctx else resolve_session ctx

  -- RequireAuthWithAgents
  unfoldable pub require_auth_with_agents : Handler → Handler
  unfolding resolve_session_or_agent redirect_to_login
  require_auth_with_agents next ctx = elim (resolve_session_or_agent ctx) [
    | none ↦ redirect_to_login services r
    | some inner ↦ next inner
  ]

  -- the version of the stored session
  abbrev pub version_of : Option Session → Option ℕ
  version_of none = none
  version_of (some s) = s.session_version

  -- the versions of requireFreshSession: that of the session and the user's current one
  unfoldable pub compare_versions : Option ℕ → Option ℕ → Handler → Handler
  unfolding redirect_to_login txt
  compare_versions none current next ctx = redirect_to_login services r
  compare_versions (some version) none next ctx = refused 500 (txt "Session security check failed")
  compare_versions (some version) (some current) next ctx =
      if nat_eq version current then next ctx else redirect_to_login services r

  -- requireFreshSession; forceLogin sends where redirectToLogin does
  unfoldable pub require_fresh_session : Handler → Handler
  unfolding compare_versions ◌==◌
  require_fresh_session next ctx =
      if ctx.user_id == [] || ctx.is_agent
      then next ctx
      else compare_versions (version_of r.stored) (services.user_session_version ctx.user_id) next
          ctx

  -- redirectForbidden
  unfoldable pub redirect_forbidden : Text → Context → Outcome
  unfolding header txt ◌==◌
  redirect_forbidden permission ctx =
      let target =
        txt "/forbidden?required="
        ++ services.query_escape permission
        ++ (if ctx.app_id == [] then [] else txt "&app_id=" ++ services.query_escape ctx.app_id) in
      if header (txt "Hx-Request") r == [] then redirected target else hx_redirected 403 target

  abbrev pub is_granted : Option Bool → Bool
  is_granted none = false
  is_granted (some b) = b

  -- RequirePermission
  unfoldable pub require_permission : Text → Handler → Handler
  unfolding redirect_forbidden ◌==◌
  require_permission permission next ctx =
      if ctx.user_id == []
      then redirect_forbidden permission ctx
      else if is_granted (services.user_has_permission ctx.user_id permission ctx.app_id)
      then next ctx
      else redirect_forbidden permission ctx

  -- the app that a request names
  unfoldable pub requested_app : Text
  unfolding header trim txt ◌==◌
  requested_app =
      if trim r.app_id_query == [] then trim (header (txt "X-App-Id") r) else trim r.app_id_query

  -- WithAppScope
  unfoldable pub with_app_scope : Handler → Handler
  unfolding requested_app is_app_id txt ◌==◌
  with_app_scope next ctx =
      if not (requested_app == []) && not (is_app_id requested_app)
      then refused 400 (txt "Invalid app_id")
      else next (record ctx { app_id = requested_app })

  -- getOrResetSession
  abbrev pub get_or_reset : Option Session → Option Session → Option Session
  get_or_reset (some s) renewed = some s
  get_or_reset none renewed = renewed

  -- the token that a request provides
  unfoldable pub provided_token : Text
  unfolding header trim txt ◌==◌
  provided_token =
      if trim (header (txt "X-Csrf-Token") r) == []
      then trim (or_blank r.form_token)
      else trim (header (txt "X-Csrf-Token") r)

  -- RequireCSRF after it has found a session
  unfoldable pub compare_tokens : Option Session → Handler → Handler
  unfolding provided_token txt ◌==◌
  compare_tokens none next ctx = refused 403 (txt "Invalid session")
  compare_tokens (some s) next ctx =
      if s.csrf_token == []
      then refused 403 (txt "Missing CSRF token")
      else if provided_token == s.csrf_token
      then next ctx
      else refused 403 (txt "CSRF validation failed")

  -- RequireCSRF; tokens are compared whole
  unfoldable pub require_csrf : Handler → Handler
  unfolding is_bearer_request requires_csrf_check compare_tokens
  require_csrf next ctx =
      if is_bearer_request r
      then next ctx
      else if not (requires_csrf_check r.method)
      then next ctx
      else compare_tokens (get_or_reset r.stored r.renewed) next ctx

  -- withAuth of routes.go
  unfoldable pub with_auth : Text → Handler → Outcome
  unfolding require_auth require_fresh_session require_permission with_app_scope require_csrf
  with_auth permission handler =
      require_auth
        (require_fresh_session
          (require_permission permission (with_app_scope (require_csrf handler))))
        no_context

  -- withAuthOrAgentOnly of routes.go
  unfoldable pub with_auth_or_agent_only : Handler → Outcome
  unfolding require_auth_with_agents require_fresh_session require_csrf
  with_auth_or_agent_only handler =
      require_auth_with_agents (require_fresh_session (require_csrf handler)) no_context
