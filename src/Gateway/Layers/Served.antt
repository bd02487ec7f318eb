-- ===== src/Gateway/Layers/Served.antt =====
-- What each layer asks of a request that it passes on.
use velm.Base.{
  ℕ, Bool, true, false, not, ◌&&◌, ◌||◌, if◌then◌else◌, ◌≡◌, ◌↔◌, ◌⊎◌, sym, ap, refl, arith,
  Bool-cases, inl, inr, nat_eq-eq, Option, none, some, [], Text, txt, ◌==◌, nat_eq,
}
use mathlib.Core.Path.{subst}
use velm.Gateway.Model.{
  Session, Request, Context, Services, Outcome, served, refused, redirected, hx_redirected, Handler,
  header,
}
use velm.Gateway.Redirects.{redirect_to_login}
use velm.Gateway.Tokens.{is_bearer_request}
use velm.Gateway.Layers.{
  is_signed_in, requires_csrf_check, is_app_id, compare_versions, version_of, require_fresh_session,
  redirect_forbidden, is_granted, require_permission, requested_app, with_app_scope, get_or_reset,
  provided_token, compare_tokens, require_csrf,
}

-- The request reached the handler.
abbrev pub is_served : Outcome → Bool
is_served (served ctx) = true
is_served (refused status text) = false
is_served (redirected target) = false
is_served (hx_redirected status target) = false

-- A layer that tests, and answers itself where the test fails.
pub guarded :
    (b : Bool) (inside answer : Outcome)
    → is_served answer ≡ false
    → (is_served (if b then inside else answer) ≡ true) ↔ ((b ≡ true) × (is_served inside ≡ true))
guarded true inside answer h = (λ p. (refl, p), λ p. p.1)
guarded false inside answer h = (λ p. cc, λ p. cc)

guarded_not :
    (b : Bool) (inside answer : Outcome)
    → is_served answer ≡ false
    → (is_served (if b then answer else inside) ≡ true) ↔ ((b ≡ false) × (is_served inside ≡ true))
guarded_not true inside answer h = (λ p. cc, λ p. cc)
guarded_not false inside answer h = (λ p. (refl, p), λ p. p.1)

neither : (b c : Bool) → b ≡ false → c ≡ false → (b || c) ≡ false
neither b c h k = ground arith

pub signed_in_parts : (s : Session) → is_signed_in s ≡ true → (s.user_id == []) ≡ false
unfolding is_signed_in
signed_in_parts s h = ground arith

module _ (services : Services) (r : Request) where
  pub login_unserved : is_served (redirect_to_login services r) ≡ false
  unfolding redirect_to_login
  login_unserved = elim (Bool-cases (header (txt "Hx-Request") r == [])) [
    | inl e ↦ rw e refl
    | inr e ↦ rw e refl
  ]

  pub forbidden_unserved :
      (permission : Text) (ctx : Context)
      → is_served (redirect_forbidden services r permission ctx) ≡ false
  unfolding redirect_forbidden
  forbidden_unserved permission ctx = elim (Bool-cases (header (txt "Hx-Request") r == [])) [
    | inl e ↦ rw e refl
    | inr e ↦ rw e refl
  ]

  -- The session's version is the user's current one.
  abbrev pub IsFresh : Session → Type 0
  IsFresh s =
      (version : ℕ) × (s.session_version ≡ some version)
      × (services.user_session_version s.user_id ≡ some version)

  -- A request that could change something shows the session's token, or is a bearer's.
  abbrev pub IsGenuine : Session → Type 0
  IsGenuine s =
      (is_bearer_request r ≡ true)
      ⊎ (requires_csrf_check r.method ≡ false)
      ⊎ (((s.csrf_token == []) ≡ false) × ((provided_token services r == s.csrf_token) ≡ true))

  pub compare_versions-served :
      (stored current : Option ℕ) (next : Handler) (ctx : Context)
      → (is_served (compare_versions services r stored current next ctx) ≡ true) ↔ (
          ((version : ℕ) × (stored ≡ some version) × (current ≡ some version))
          × (is_served (next ctx) ≡ true))
  unfolding compare_versions
  compare_versions-served none current next ctx = (λ p. cc (login_unserved), λ ((v, a, b), p). cc)
  compare_versions-served (some version) none next ctx = (λ p. cc, λ ((v, a, b), p). cc)
  compare_versions-served (some version) (some now) next ctx =
      let test = guarded (nat_eq version now) (next ctx) _ login_unserved in
      (
        λ p.
            let (same, q) = test.0 p in
            ((version, refl, ap some (sym (nat_eq-eq version now same))), q),
        λ ((v, a, b), p). test.1 (ground (arith, a, b), p),
      )

  pub compare_tokens-served :
      (s : Session) (next : Handler) (ctx : Context)
      → (is_served (compare_tokens services r (some s) next ctx) ≡ true) ↔ (
          (((s.csrf_token == []) ≡ false) × ((provided_token services r == s.csrf_token) ≡ true))
          × (is_served (next ctx) ≡ true))
  unfolding compare_tokens
  compare_tokens-served s next ctx =
      let inner = guarded (provided_token services r == s.csrf_token) (next ctx) _ refl in
      let outer = guarded_not (s.csrf_token == []) _ _ refl in
      (
        λ p. let (a, q) = outer.0 p in let (b, k) = inner.0 q in ((a, b), k),
        λ ((a, b), k). outer.1 (a, inner.1 (b, k)),
      )

  pub require_csrf-served :
      (s : Session) (next : Handler) (ctx : Context)
      → r.stored ≡ some s
      → (is_served (require_csrf services r next ctx) ≡ true)
        ↔ (IsGenuine s × (is_served (next ctx) ≡ true))
  unfolding require_csrf
  require_csrf-served s next ctx found = elim (Bool-cases (is_bearer_request r)) [
    | inl bearer ↦ rw bearer (λ p. (inl refl, p), λ (g, p). p)
    | inr cookie ↦ elim (Bool-cases (requires_csrf_check r.method)) [
      | inr reads ↦ rw (cookie, reads) (λ p. (inr (inl refl), p), λ (g, p). p)
      | inl writes ↦
          let tokens =
            subst
              (λ o.
                (is_served
                    (compare_tokens services r (get_or_reset services r o r.renewed) next ctx)
                  ≡ true)
                ↔ ((((s.csrf_token == []) ≡ false)
                      × ((provided_token services r == s.csrf_token) ≡ true))
                    × (is_served (next ctx) ≡ true)))
              (sym found) (compare_tokens-served s next ctx) in
          rw (cookie, writes)
            (
              λ p. let (a, q) = tokens.0 p in (inr (inr a), q),
              λ (g, p). elim g [
                | inl bad ↦ cc
                | inr (inl bad) ↦ cc
                | inr (inr a) ↦ tokens.1 (a, p)
              ],
            )
    ]
  ]

  pub require_permission-served :
      (permission : Text) (next : Handler) (ctx : Context)
      → (ctx.user_id == []) ≡ false
      → (is_served (require_permission services r permission next ctx) ≡ true) ↔ (
          (is_granted services r (services.user_has_permission ctx.user_id permission ctx.app_id)
            ≡ true)
          × (is_served (next ctx) ≡ true))
  unfolding require_permission
  require_permission-served permission next ctx known =
      rw known (guarded _ (next ctx) _ (forbidden_unserved permission ctx))

  pub with_app_scope-served :
      (next : Handler) (ctx : Context)
      → (is_served (with_app_scope services r next ctx) ≡ true) ↔ (
          ((not (requested_app services r == []) && not (is_app_id (requested_app services r)))
            ≡ false)
          × (is_served (next (record ctx { app_id = requested_app services r })) ≡ true))
  unfolding with_app_scope
  with_app_scope-served next ctx = guarded_not _ _ _ refl

  pub require_fresh_session-served :
      (s : Session) (next : Handler) (ctx : Context)
      → r.stored ≡ some s
      → ctx.user_id ≡ s.user_id
      → (ctx.user_id == []) ≡ false
      → ctx.is_agent ≡ false
      → (is_served (require_fresh_session services r next ctx) ≡ true)
        ↔ (IsFresh s × (is_served (next ctx) ≡ true))
  unfolding require_fresh_session
  require_fresh_session-served s next ctx found same known human =
      subst
        (λ t.
          (is_served (
              if t
              then next ctx
              else compare_versions services r (version_of services r r.stored)
                  (services.user_session_version ctx.user_id) next ctx)
            ≡ true)
          ↔ (IsFresh s × (is_served (next ctx) ≡ true)))
        (sym (neither (ctx.user_id == []) ctx.is_agent known human))
        (subst
          (λ o.
            (is_served (
                compare_versions services r (version_of services r o)
                  (services.user_session_version ctx.user_id) next ctx)
              ≡ true)
            ↔ (IsFresh s × (is_served (next ctx) ≡ true)))
          (sym found)
          (subst
            (λ u.
              (is_served (
                  compare_versions services r s.session_version
                    (services.user_session_version ctx.user_id) next ctx)
                ≡ true)
              ↔ (((version : ℕ) × (s.session_version ≡ some version)
                    × (services.user_session_version u ≡ some version))
                  × (is_served (next ctx) ≡ true)))
            same
            (compare_versions-served s.session_version (services.user_session_version ctx.user_id)
              next ctx)))
