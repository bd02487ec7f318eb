-- ===== src/Gateway/Layers/Admission.antt =====
-- Which requests reach the handler inside withAuth.
use velm.Base.{
  Bool, true, false, not, ◌&&◌, if◌then◌else◌, ◌≡◌, ◌↔◌, refl, Option, none, some, [], Text, ◌==◌,
}
use mathlib.Core.Path.{subst}
use velm.Gateway.Model.{Session, Request, no_context, Services, served, Handler}
use velm.Gateway.Redirects.{redirect_to_login}
use velm.Gateway.Layers.{
  user_context, is_signed_in, is_app_id, enter, require_auth, require_fresh_session, is_granted,
  require_permission, requested_app, with_app_scope, require_csrf, with_auth,
}
use velm.Gateway.Layers.Served.{
  login_unserved, require_csrf-served, require_permission-served, with_app_scope-served,
  require_fresh_session-served, IsFresh, IsGenuine, is_served, guarded, signed_in_parts,
}

module _ (services : Services) (r : Request) where
  -- A request that withAuth lets through to its handler.
  pub record IsAdmitted (permission : Text) : Type 0 where
    pub session : Session
    pub found : r.stored ≡ some session
    pub signed_in : is_signed_in session ≡ true
    pub fresh : IsFresh services r session
    pub granted : services.user_has_permission session.user_id permission [] ≡ some true
    pub app :
        (not (requested_app services r == []) && not (is_app_id (requested_app services r))) ≡ false
    pub genuine : IsGenuine services r session

  granted-some : (o : Option Bool) → (is_granted services r o ≡ true) ↔ (o ≡ some true)
  granted-some none = (λ h. cc, λ h. cc)
  granted-some (some b) = (λ h. cc, λ h. cc)

  inside-served :
      (permission : Text) (s : Session)
      → r.stored ≡ some s
      → is_signed_in s ≡ true
      → (is_served (
            require_fresh_session services r
              (require_permission services r permission
                (with_app_scope services r (require_csrf services r served)))
              (user_context s no_context))
          ≡ true)
        ↔ (IsFresh services r s
            × (services.user_has_permission s.user_id permission [] ≡ some true)
            × ((not (requested_app services r == []) && not (is_app_id (requested_app services r)))
                ≡ false)
            × IsGenuine services r s)
  inside-served permission s found signed =
      let known = signed_in_parts s signed in
      let ctx = user_context s no_context in
      let fresh =
        require_fresh_session-served services r s
          (require_permission services r permission
            (with_app_scope services r (require_csrf services r served)))
          ctx found refl known refl in
      let allowed =
        require_permission-served services r permission
          (with_app_scope services r (require_csrf services r served)) ctx known in
      let scoped = with_app_scope-served services r (require_csrf services r served) ctx in
      let token =
        require_csrf-served services r s served (record ctx { app_id = requested_app services r })
          found in
      let grant = granted-some (services.user_has_permission s.user_id permission []) in
      (
        λ p.
            let (a, p₁) = fresh.0 p in
            let (b, p₂) = allowed.0 p₁ in
            let (c, p₃) = scoped.0 p₂ in (a, grant.0 b, c, (token.0 p₃).0),
        λ (a, b, c, d). fresh.1 (a, allowed.1 (grant.1 b, scoped.1 (c, token.1 (d, refl)))),
      )

  enter-served :
      (o : Option Session) (next : Handler)
      → (is_served (enter services r o next no_context) ≡ true) ↔ (
          (s : Session) × (o ≡ some s)
          × (is_signed_in s ≡ true)
          × (is_served (next (user_context s no_context)) ≡ true))
  unfolding enter
  enter-served none next = (λ p. cc (login_unserved services r), λ (s, e, a, p). cc)
  enter-served (some s) next =
      let test =
        guarded (is_signed_in s) (next (user_context s no_context)) _ (login_unserved services r) in
      (
        λ p. let (a, q) = test.0 p in (s, refl, a, q),
        λ (t, e, a, p).
            let same : s ≡ t = cc in
            subst
              (λ u.
                (is_signed_in u ≡ true) × (is_served (next (user_context u no_context)) ≡ true)
                → is_served (
                    if is_signed_in s
                    then next (user_context s no_context)
                    else redirect_to_login services r)
                  ≡ true)
              same (λ (b, q). test.1 (b, q)) (a, p),
      )

  -- A request reaches the handler inside withAuth exactly if its session is there and signed in, is of
  -- the user's current version, the user holds the permission in no particular app, the app that the
  -- request names is well formed, and a request that could change something shows the session's token
  -- or a bearer credential.
  pub with_auth-served :
      (permission : Text)
      → (is_served (with_auth services r permission served) ≡ true) ↔ IsAdmitted permission
  unfolding with_auth require_auth
  with_auth-served permission =
      let door = enter-served r.stored (
        require_fresh_session services r (
          require_permission services r permission
            (with_app_scope services r (require_csrf services r served)))) in
      (
        λ p.
            let (s, found, signed, q) = door.0 p in
            let (a, b, c, d) = (inside-served permission s found signed).0 q in
            record {
              session = s;
              found = found;
              signed_in = signed;
              fresh = a;
              granted = b;
              app = c;
              genuine = d;
            },
        λ h. door.1 (
          h.session,
          h.found,
          h.signed_in,
          (inside-served permission h.session h.found h.signed_in).1
              (h.fresh, h.granted, h.app, h.genuine),
        ),
      )
