-- ===== src/Provider/Client/Reached.antt =====
-- Where the provider's key travels.
use velm.Base.{
  Yields, ℕ, ◌||◌, not, ◌≡◌, refl, inl, inr, Bool-cases, Option, none, some, [], Text, trim, ◌==◌,
  Result, ok, err, ◌>>=◌, All,
}
use velm.Provider.Addresses.{Address}
use velm.Provider.Destinations.{
  Url, Failure, Internet, allow_private_provider_destinations, validate_provider_url,
}
use velm.Provider.Client.{
  Request, Remote, Sent, join_url, provider_request_url, request_headers, exchange, send_to,
  request_models, list_models,
}
use velm.Provider.Destinations.Public.{
  IsDiallable, IsAcceptable, dial_context-IsDiallable, check_url-IsAcceptable,
}

module _ (net : Internet) where
  join_url_same :
      (base : Url) (o : Option Url)
      → Yields (λ t. (t.host ≡ base.host) × (t.scheme ≡ base.scheme)) (join_url base o)
  join_url_same base none = tt
  join_url_same base (some rel) =
      elim (Bool-cases (not (rel.scheme == []) || not (rel.host == []))) [
        | inl e ↦ rw e tt
        | inr e ↦ rw e (refl, refl)
      ]

module _ (net : Internet) (remote : Remote) (setting : Text) where
  -- The request went to an address that may be dialled, for an URL with the accepted base's host and
  -- scheme.
  abbrev pub IsAllowed : ℕ → Text → Sent → Type 0
  IsAllowed before base_url sent =
      let allow = allow_private_provider_destinations setting in
      IsDiallable allow sent.address
      × ((base : Url) × (target : Url) × (validate_provider_url net before setting base_url
            ≡ ok base)
          × (remote.new_request_url target ≡ some sent.request.url)
          × (target.host ≡ base.host)
          × (target.scheme ≡ base.scheme)
          × IsAcceptable net allow base)

  accepted_url :
      (before : ℕ) (base_url : Text)
      → Yields
          (IsAcceptable net (allow_private_provider_destinations setting))
          (validate_provider_url net before setting base_url)
  unfolding validate_provider_url
  accepted_url before base_url =
      check_url-IsAcceptable net before (allow_private_provider_destinations setting)
        (net.parse_url (trim base_url))

  module _ (before now : ℕ) (base_url key : Text) (meta : Text → Text) where
    module _ (base target : Url)
        (accepted : validate_provider_url net before setting base_url ≡ ok base)
        (acceptable : IsAcceptable net (allow_private_provider_destinations setting) base)
        (host : target.host ≡ base.host) (scheme : target.scheme ≡ base.scheme) where
      after_dial :
          (request : Request) (r : Result Failure Address)
          → remote.new_request_url target ≡ some request.url
          → Yields (IsDiallable (allow_private_provider_destinations setting)) r
          → All (IsAllowed before base_url) (exchange net remote setting request r).0
      after_dial request (err failure) e h = tt
      after_dial request (ok address) e h =
          ((h, (base, target, accepted, e, host, scheme, acceptable)), tt)

      after_request :
          (o : Option Url)
          → remote.new_request_url target ≡ o
          → All (IsAllowed before base_url) (send_to net remote setting now meta key o).0
      after_request none e = tt
      after_request (some url) e =
          after_dial (record { url = url; headers = request_headers meta key }) _ e
            (dial_context-IsDiallable net now setting (remote.dial_address url))

    after_join :
        (base : Url) (r : Result Failure Url)
        → validate_provider_url net before setting base_url ≡ ok base
        → IsAcceptable net (allow_private_provider_destinations setting) base
        → Yields (λ t. (t.host ≡ base.host) × (t.scheme ≡ base.scheme)) r
        → All (IsAllowed before base_url) (request_models net remote setting now meta key r).0
    after_join base (err failure) e h same = tt
    after_join base (ok target) e h (host, scheme) =
        after_request base target e h host scheme (remote.new_request_url target) refl

    after_check :
        (list_path : Text) (r : Result Failure Url)
        → validate_provider_url net before setting base_url ≡ r
        → Yields (IsAcceptable net (allow_private_provider_destinations setting)) r
        → All
            (IsAllowed before base_url)
            (request_models net remote setting now meta key
              (r >>= (λ base. provider_request_url net base list_path))).0
    unfolding provider_request_url
    after_check list_path (err failure) e h = tt
    after_check list_path (ok base) e h =
        after_join base (provider_request_url net base list_path) e h
          (join_url_same net base (net.parse_url (trim list_path)))

  -- Whatever is sent to a provider, with the key in it, goes to an address that is not blocked unless
  -- the deployment has opted in, even where the name resolves otherwise at the dial than at the check;
  -- it is for an address with the host and scheme of the base URL, which was accepted: it has no
  -- credentials, and its scheme is https, or http after opting in.
  pub list_models-IsAllowed :
      (before now : ℕ) (base_url list_path key : Text) (meta : Text → Text)
      → All
          (IsAllowed before base_url)
          (list_models net remote setting before now base_url list_path key meta).0
  unfolding list_models
  list_models-IsAllowed before now base_url list_path key meta =
      after_check before now base_url key meta list_path
        (validate_provider_url net before setting base_url) refl (accepted_url before base_url)
