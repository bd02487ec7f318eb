-- ===== src/Gateway/Redirects.antt =====
-- RequireAuth.go: where a request without a session is sent, and where it comes back to.
pub mod Local
use velm.Base.{
  ℕ, Bool, true, false, not, ◌&&◌, ◌||◌, if◌then◌else◌, Option, none, some, List, [], ◌∷◌, ◌++◌,
  Text, txt, trim, ◌==◌, has_prefix,
}
use velm.Gateway.Model.{Request, Services, Outcome, redirected, hx_redirected, header}

module _ (services : Services) where
  -- the path and query of an absolute URL
  abbrev path_and_query : Option (Text × Text) → Text
  path_and_query none = []
  path_and_query (some (path, query)) = if query == [] then path else path ++ txt "?" ++ query

  -- the checks after the path is known
  unfoldable pub local_target : Text → Text
  unfolding txt ◌==◌ has_prefix
  local_target target =
      if target == [] || target == txt "/login" || has_prefix target (txt "/login?")
      then []
      else if not (has_prefix target (txt "/")) || has_prefix target (txt "//")
      then []
      else target

  -- sanitizeLoginRedirectTarget
  unfoldable pub sanitize_login_redirect_target : Text → Text
  unfolding trim txt ◌==◌ has_prefix local_target
  sanitize_login_redirect_target raw =
      if trim raw == []
      then []
      else if has_prefix (trim raw) (txt "/")
      then local_target (trim raw)
      else local_target (path_and_query (services.parse_url (trim raw)))

  -- loginRedirectTarget
  unfoldable pub login_redirect_target : Request → Text
  unfolding trim txt ◌==◌ header sanitize_login_redirect_target
  login_redirect_target r =
      let current = sanitize_login_redirect_target (trim (header (txt "Hx-Current-Url") r)) in
      if trim (header (txt "Hx-Request") r) == []
      then sanitize_login_redirect_target r.request_uri
      else if not (current == [])
      then current
      else sanitize_login_redirect_target (trim (header (txt "Referer") r))

  -- redirectToLogin
  unfoldable pub redirect_to_login : Request → Outcome
  unfolding txt ◌==◌ header login_redirect_target
  redirect_to_login r =
      let next = login_redirect_target r in
      let target =
        if next == [] then txt "/login" else txt "/login?next=" ++ services.query_escape next in
      if header (txt "Hx-Request") r == [] then redirected target else hx_redirected 401 target
