-- ===== src/Gateway/Model.antt =====
-- A request as the layers see it, the context that they pass on, and how a request ends.
use velm.Base.{ℕ, Bool, false, Option, none, some, List, [], Text, lookup}

-- `authenticated` is whether the value is the Boolean true; the version is `none` where the session
-- has no number of it. A text that is missing is empty.
pub record Session : Type 0 where
  pub authenticated : Bool
  pub user_id : Text
  pub user_email : Text
  pub user_name : Text
  pub user_role : Text
  pub csrf_token : Text
  pub session_version : Option ℕ

-- `stored` is the answer of the store's Get for the session's cookie and `renewed` that of its New,
-- each `none` for an error; `app_id_query` is the parameter app_id of the URL; `form_token` the value
-- csrf_token of the form, `none` where the form cannot be parsed. Header names are canonical.
pub record Request : Type 0 where
  pub method : Text
  pub headers : List (Text × Text)
  pub request_uri : Text
  pub app_id_query : Text
  pub form_token : Option Text
  pub stored : Option Session
  pub renewed : Option Session

abbrev pub or_blank : Option Text → Text
or_blank none = []
or_blank (some s) = s

-- r.Header.Get
unfoldable pub header : Text → Request → Text
unfolding lookup
header name r = or_blank (lookup name r.headers)

-- the values of WithUserContext, WithAppContext and WithAgentContext
pub record Context : Type 0 where
  pub user_id : Text
  pub user_email : Text
  pub user_name : Text
  pub user_role : Text
  pub app_id : Text
  pub is_agent : Bool

abbrev pub no_context : Context
no_context = record {
  user_id = [];
  user_email = [];
  user_name = [];
  user_role = [];
  app_id = [];
  is_agent = false;
}

-- AgentToken
pub record AgentToken : Type 0 where
  pub id : Text
  pub user_id : Text
  pub is_revoked : Bool
  pub is_expired : Bool

-- What the layers ask of the libraries and of the database: url.QueryEscape; EscapedPath and RawQuery
-- of url.Parse; the hexadecimal SHA-256; the token store; the identity, session version and
-- permissions of a user. `none` and `false` are errors.
pub record Services : Type 0 where
  pub query_escape : Text → Text
  pub parse_url : Text → Option (Text × Text)
  pub sha256 : Text → Text
  pub lookup_agent_token : Text → Option AgentToken
  pub touch_agent_token : Text → Bool
  pub user_identity : Text → Text × Text
  pub user_session_version : Text → Option ℕ
  pub user_has_permission : Text → Text → Text → Option Bool

-- How a request ends: served by the handler, or answered by a layer with a status and a message, with
-- a redirect, or with the header HX-Redirect and a status.
pub data Outcome : Type 0 where
  served : Context → Outcome
  refused : ℕ → Text → Outcome
  redirected : Text → Outcome
  hx_redirected : ℕ → Text → Outcome

abbrev pub Handler : Type 0
Handler = Context → Outcome
