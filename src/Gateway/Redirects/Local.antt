-- ===== src/Gateway/Redirects/Local.antt =====
-- The form of a target that a login comes back to. A backslash is an ordinary byte here, as in
-- `sanitizeLoginRedirectTarget`; the login page, which is not modelled, turns it into a slash and checks
-- the target again.
use velm.Base.{
  Bool, true, false, not, ◌||◌, if◌then◌else◌, ◌≡◌, ◌⊎◌, refl, inl, inr, [], Text, txt, trim, ◌==◌,
  has_prefix,
}
use velm.Gateway.Model.{Request, Services, header}
use velm.Gateway.Redirects.{
  local_target, path_and_query, sanitize_login_redirect_target, login_redirect_target,
}

-- No target, or one that begins with one slash only and is not the login page.
abbrev pub IsRooted : Text → Type 0
IsRooted t =
    (t ≡ [])
    ⊎ ((has_prefix t (txt "/") ≡ true)
        × (has_prefix t (txt "//") ≡ false)
        × ((t == txt "/login") ≡ false)
        × (has_prefix t (txt "/login?") ≡ false))

chosen :
    (empty login query slash slashes : Bool) (t : Text)
    → (has_prefix t (txt "/") ≡ slash)
    → (has_prefix t (txt "//") ≡ slashes)
    → ((t == txt "/login") ≡ login)
    → (has_prefix t (txt "/login?") ≡ query)
    → IsRooted (if empty || login || query then [] else if not slash || slashes then [] else t)
chosen true login query slash slashes t a b c d = inl refl
chosen false true query slash slashes t a b c d = inl refl
chosen false false true slash slashes t a b c d = inl refl
chosen false false false false slashes t a b c d = inl refl
chosen false false false true true t a b c d = inl refl
chosen false false false true false t a b c d = inr (a, b, c, d)

IsRooted-if : (b : Bool) (s t : Text) → IsRooted s → IsRooted t → IsRooted (if b then s else t)
IsRooted-if true s t h k = h
IsRooted-if false s t h k = k

module _ (services : Services) where
  local_target-IsRooted : (t : Text) → IsRooted (local_target services t)
  unfolding local_target
  local_target-IsRooted t = chosen (t == []) _ _ _ _ t refl refl refl refl

  sanitize-IsRooted : (raw : Text) → IsRooted (sanitize_login_redirect_target services raw)
  unfolding sanitize_login_redirect_target
  sanitize-IsRooted raw = IsRooted-if (trim raw == []) _ _ (inl refl) (
      IsRooted-if (has_prefix (trim raw) (txt "/")) _ _ (local_target-IsRooted (trim raw))
        (local_target-IsRooted (path_and_query services (services.parse_url (trim raw)))))

  target-IsRooted : (r : Request) → IsRooted (login_redirect_target services r)
  unfolding login_redirect_target
  target-IsRooted r =
      let current = trim (header (txt "Hx-Current-Url") r) in
      IsRooted-if (trim (header (txt "Hx-Request") r) == []) _ _ (sanitize-IsRooted r.request_uri) (
        IsRooted-if (not (sanitize_login_redirect_target services current == [])) _ _
          (sanitize-IsRooted current) (sanitize-IsRooted (trim (header (txt "Referer") r))))

  -- What a source gives: nothing, itself if it begins with a slash, or the path and query of its URL.
  abbrev pub IsTaken : Text → Text → Type 0
  IsTaken raw t =
      (t ≡ [])
      ⊎ ((has_prefix (trim raw) (txt "/") ≡ true) × (t ≡ trim raw))
      ⊎ ((has_prefix (trim raw) (txt "/") ≡ false)
          × (t ≡ path_and_query services (services.parse_url (trim raw))))

  local_target-kept : (t : Text) → (local_target services t ≡ []) ⊎ (local_target services t ≡ t)
  unfolding local_target
  local_target-kept t = kept (t == [] || t == txt "/login" || has_prefix t (txt "/login?")) _
    where
      kept :
          (a b : Bool)
          → ((if a then [] else if b then [] else t) ≡ [])
            ⊎ ((if a then [] else if b then [] else t) ≡ t)
      kept true b = inl refl
      kept false true = inl refl
      kept false false = inr refl

  chosen_from :
      (blank slash : Bool) (own parsed x y : Text)
      → (x ≡ []) ⊎ (x ≡ own)
      → (y ≡ []) ⊎ (y ≡ parsed)
      → ((if blank then [] else if slash then x else y) ≡ [])
        ⊎ ((slash ≡ true) × ((if blank then [] else if slash then x else y) ≡ own))
        ⊎ ((slash ≡ false) × ((if blank then [] else if slash then x else y) ≡ parsed))
  chosen_from true slash own parsed x y h k = inl refl
  chosen_from false true own parsed x y (inl h) k = inl h
  chosen_from false true own parsed x y (inr h) k = inr (inl (refl, h))
  chosen_from false false own parsed x y h (inl k) = inl k
  chosen_from false false own parsed x y h (inr k) = inr (inr (refl, k))

  sanitize-IsTaken : (raw : Text) → IsTaken raw (sanitize_login_redirect_target services raw)
  unfolding sanitize_login_redirect_target
  sanitize-IsTaken raw =
      chosen_from (trim raw == []) (has_prefix (trim raw) (txt "/")) (trim raw)
        (path_and_query services (services.parse_url (trim raw))) _ _ (local_target-kept (trim raw))
        (local_target-kept (path_and_query services (services.parse_url (trim raw))))

  -- The address that a login comes back from: the request's own, or for a request of htmx that of the
  -- page it was sent from.
  abbrev pub IsFrom : Request → Text → Type 0
  IsFrom r t =
      (((trim (header (txt "Hx-Request") r) == []) ≡ true) × IsTaken r.request_uri t)
      ⊎ (((trim (header (txt "Hx-Request") r) == []) ≡ false)
          × (IsTaken (trim (header (txt "Hx-Current-Url") r)) t
              ⊎ IsTaken (trim (header (txt "Referer") r)) t))

  from_one :
      (P Q R : Text → Type 0) (plain here : Bool) (uri current referer : Text)
      → P uri
      → Q current
      → R referer
      → ((plain ≡ true) × P (if plain then uri else if here then current else referer))
        ⊎ ((plain ≡ false)
            × (Q (if plain then uri else if here then current else referer)
                ⊎ R (if plain then uri else if here then current else referer)))
  from_one P Q R true here uri current referer p q r = inl (refl, p)
  from_one P Q R false true uri current referer p q r = inr (refl, inl q)
  from_one P Q R false false uri current referer p q r = inr (refl, inr r)

  login_redirect_target-IsFrom : (r : Request) → IsFrom r (login_redirect_target services r)
  unfolding login_redirect_target
  login_redirect_target-IsFrom r =
      let current = trim (header (txt "Hx-Current-Url") r) in
      let referer = trim (header (txt "Referer") r) in
      from_one (IsTaken r.request_uri) (IsTaken current) (IsTaken referer)
        (trim (header (txt "Hx-Request") r) == [])
        (not (sanitize_login_redirect_target services current == [])) _ _ _
        (sanitize-IsTaken r.request_uri) (sanitize-IsTaken current) (sanitize-IsTaken referer)

  -- Whatever the request's headers and address say, the target that a login comes back to is empty, or
  -- it begins with one slash that no second one follows and is not /login, alone or with a query. If it
  -- is not empty, it is the request's own address, or for a request of htmx the address of the page it
  -- was sent from or else of its referrer: as it stands if it begins with a slash, else its path and
  -- query.
  pub login_redirect_target-IsRooted :
      (r : Request)
      → IsRooted (login_redirect_target services r) × IsFrom r (login_redirect_target services r)
  login_redirect_target-IsRooted r = (target-IsRooted r, login_redirect_target-IsFrom r)
