-- ===== src/Provider/Destinations/Public.antt =====
-- What the checks of a URL and the dialer let through.
use velm.Base.{
  Yields, Yields-bind, ℕ, Bool, true, false, if◌then◌else◌, ◌≡◌, ◌⊎◌, refl, inl, inr, arith,
  Bool-cases, Option, none, some, List, [], ◌∷◌, Text, txt, lower, ◌==◌, any, Result, ok, err,
  ◌>>=◌, All,
}
use velm.Provider.Addresses.{Address, is_blocked_provider_ip}
use velm.Provider.Destinations.{
  Url, Failure, Internet, allow_private_provider_destinations, addresses_of, public_only,
  resolve_allowed_provider_ips, check_scheme, check_url, dial_first, connected, dial_parts,
  dial_context, malformed_url, has_credentials, missing_host,
}

-- The address may be dialled.
abbrev pub IsDiallable : Bool → Address → Type 0
IsDiallable allow ip = (allow ≡ true) ⊎ (is_blocked_provider_ip ip ≡ false)

none_blocked :
    (ips : List Address)
    → any is_blocked_provider_ip ips ≡ false
    → All (λ ip. is_blocked_provider_ip ip ≡ false) ips
none_blocked [] h = tt
none_blocked (ip ∷ ips) h = (ground arith, none_blocked ips (ground arith))

permitted : (ips : List Address) → All (IsDiallable true) ips
permitted [] = tt
permitted (ip ∷ ips) = (inl refl, permitted ips)

blocked_out :
    (ips : List Address)
    → All (λ ip. is_blocked_provider_ip ip ≡ false) ips
    → All (IsDiallable false) ips
blocked_out [] h = tt
blocked_out (ip ∷ ips) (p, h) = (inr p, blocked_out ips h)

module _ (net : Internet) where
  public_only-IsDiallable :
      (allow : Bool) (o : Option (List Address))
      → Yields (All (IsDiallable allow)) (public_only net allow o)
  public_only-IsDiallable allow none = tt
  public_only-IsDiallable allow (some []) = tt
  public_only-IsDiallable true (some (ip ∷ ips)) = permitted (ip ∷ ips)
  public_only-IsDiallable false (some (ip ∷ ips)) =
      elim (Bool-cases (any is_blocked_provider_ip (ip ∷ ips))) [
        | inl e ↦ rw e tt
        | inr e ↦ rw e (blocked_out (ip ∷ ips) (none_blocked (ip ∷ ips) e))
      ]

  -- the first that answers is one of them
  dial_first-All :
      (P : Address → Type 0) (port : Text) (ips : List Address)
      → All P ips
      → Yields P (connected net (dial_first net port ips))
  unfolding dial_first
  dial_first-All P port [] h = tt
  dial_first-All P port (ip ∷ ips) (p, h) = elim (Bool-cases (net.dial ip port)) [
    | inl e ↦ rw e p
    | inr e ↦ rw e (dial_first-All P port ips h)
  ]

  dial_parts-IsDiallable :
      (now : ℕ) (allow : Bool) (o : Option (Text × Text))
      → Yields (IsDiallable allow) (dial_parts net now allow o)
  unfolding resolve_allowed_provider_ips
  dial_parts-IsDiallable now allow none = tt
  dial_parts-IsDiallable now allow (some (host, port)) =
      Yields-bind (All (IsDiallable allow)) (IsDiallable allow) _ _
        (public_only-IsDiallable allow (addresses_of net now host))
        (dial_first-All (IsDiallable allow) port)

  pub dial_context-IsDiallable :
      (now : ℕ) (setting addr : Text)
      → Yields
          (IsDiallable (allow_private_provider_destinations setting))
          (dial_context net now setting addr)
  unfolding dial_context
  dial_context-IsDiallable now setting addr =
      dial_parts-IsDiallable now (allow_private_provider_destinations setting)
        (net.split_host_port addr)

  -- The schemes that are let through.
  abbrev pub HasScheme : Bool → Text → Type 0
  HasScheme allow scheme =
      (lower scheme == txt "https" ≡ true) ⊎ ((allow ≡ true) × (lower scheme == txt "http" ≡ true))

  check_scheme-HasScheme :
      (allow : Bool) (scheme : Text)
      → Yields (λ _. HasScheme allow scheme) (check_scheme net allow scheme)
  unfolding check_scheme
  check_scheme-HasScheme allow scheme = elim (Bool-cases (lower scheme == txt "https")) [
    | inl e ↦ rw e (inl refl)
    | inr e ↦ elim (Bool-cases (lower scheme == txt "http")) [
      | inl f ↦ elim (Bool-cases allow) [
        | inl a ↦ rw (e, f, a) (inr (refl, refl))
        | inr a ↦ rw (e, f, a) tt
      ]
      | inr f ↦ rw (e, f) tt
    ]
  ]

  abbrev pub IsAcceptable : Bool → Url → Type 0
  IsAcceptable allow u = (u.has_user ≡ false) × HasScheme allow u.scheme

  url_tests :
      (empty user nameless allow : Bool) (u : Url) (scheme : Result {0, 0} Failure Unit)
      (ips : Result Failure (List Address))
      → u.has_user ≡ user
      → Yields (λ _. HasScheme allow u.scheme) scheme
      → Yields (IsAcceptable allow) (
          if empty
          then err malformed_url
          else if user
          then err has_credentials
          else scheme >>= (λ _. if nameless then err missing_host else ips >>= (λ _. ok u)))
  url_tests true user nameless allow u scheme ips e h = tt
  url_tests false true nameless allow u scheme ips e h = tt
  url_tests false false nameless allow u (err f) ips e h = tt
  url_tests false false true allow u (ok t) ips e h = tt
  url_tests false false false allow u (ok t) (err f) e h = tt
  url_tests false false false allow u (ok t) (ok v) e h = (e, h)

  -- The check lets an URL through unchanged, with an acceptable scheme and no user.
  pub check_url-IsAcceptable :
      (now : ℕ) (allow : Bool) (o : Option Url)
      → Yields (IsAcceptable allow) (check_url net now allow o)
  check_url-IsAcceptable now allow none = tt
  check_url-IsAcceptable now allow (some u) =
      url_tests (u.host == []) u.has_user (net.hostname u == []) allow u
        (check_scheme net allow u.scheme)
        (resolve_allowed_provider_ips net now (net.hostname u) allow) refl
        (check_scheme-HasScheme allow u.scheme)
