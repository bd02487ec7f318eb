-- ===== src/Provider/Destinations.antt =====
-- ProviderDestination.go: the checks of a provider's URL, and the dialer. DNS, parsers of net and
-- net/url, and the connections are the fields of `Internet`; a lookup may answer otherwise each time.
pub mod Public
use velm.Base.{
  ℕ, Bool, true, false, ◌&&◌, ◌||◌, not, if◌then◌else◌, Option, none, some, List, [], ◌∷◌, Text,
  txt, trim, lower, ◌==◌, any, null, Result, ok, err, ◌>>=◌,
}
use velm.Provider.Addresses.{Address, is_blocked_provider_ip}

-- url.URL
pub record Url : Type 0 where
  pub scheme : Text
  pub has_user : Bool
  pub host : Text
  pub path : Text
  pub raw_query : Text
  pub fragment : Text

-- ErrProviderDestination and ErrProviderRequest, with their causes, and the statuses that are refused
pub data Failure : Type 0 where
  malformed_url has_credentials plain_http missing_host unresolved non_public : Failure
  unsupported_scheme : Text → Failure
  malformed_list_path list_path_is_url : Failure
  not_permitted bad_address unreachable bad_request unreadable_body : Failure
  redirect_refused bad_status : ℕ → Failure
  malformed_models : Failure

pub record Internet : Type 0 where
  pub parse_url : Text → Option Url
  pub hostname : Url → Text
  pub parse_ip : Text → Option Address
  -- the answer to the lookup that is made at an instant
  pub lookup_ip : ℕ → Text → Option (List Address)
  pub split_host_port : Text → Option (Text × Text)
  -- whether a connection to an address and port comes about
  pub dial : Address → Text → Bool

-- allowPrivateProviderDestinations, of the variable's value
unfoldable pub allow_private_provider_destinations : Text → Bool
unfolding trim lower txt ◌==◌
allow_private_provider_destinations value =
    let v = lower (trim value) in v == txt "1" || v == txt "true" || v == txt "yes" || v == txt "on"

module _ (net : Internet) where
  -- the addresses of a host, before the test
  unfoldable pub addresses_of : ℕ → Text → Option (List Address)
  addresses_of now host = elim (net.parse_ip host) [
    | some literal ↦ some (literal ∷ [])
    | none ↦ net.lookup_ip now host
  ]

  abbrev pub public_only : Bool → Option (List Address) → Result Failure (List Address)
  public_only allow_private none = err unresolved
  public_only allow_private (some ips) =
      if null ips
      then err unresolved
      else if allow_private
      then ok ips
      else if any is_blocked_provider_ip ips
      then err non_public
      else ok ips

  -- resolveAllowedProviderIPs
  unfoldable pub resolve_allowed_provider_ips : ℕ → Text → Bool → Result Failure (List Address)
  unfolding addresses_of
  resolve_allowed_provider_ips now host allow_private =
      public_only allow_private (addresses_of now host)

  -- the switch over the scheme
  unfoldable pub check_scheme : Bool → Text → Result {0, 0} Failure Unit
  unfolding lower txt ◌==◌
  check_scheme allow_private scheme =
      if lower scheme == txt "https"
      then ok tt
      else if lower scheme == txt "http"
      then if allow_private then ok tt else err plain_http
      else err (unsupported_scheme scheme)

  abbrev pub check_url : ℕ → Bool → Option Url → Result Failure Url
  check_url now allow_private none = err malformed_url
  check_url now allow_private (some u) =
      if u.host == []
      then err malformed_url
      else if u.has_user
      then err has_credentials
      else check_scheme allow_private u.scheme >>= (λ _.
        if net.hostname u == []
        then err missing_host
        else resolve_allowed_provider_ips now (net.hostname u) allow_private >>= (λ _. ok u))

  -- validateProviderURL, at an instant; the second argument is the environment's variable
  unfoldable pub validate_provider_url : ℕ → Text → Text → Result Failure Url
  unfolding trim ◌==◌ check_scheme resolve_allowed_provider_ips allow_private_provider_destinations
  validate_provider_url now setting raw =
      check_url now (allow_private_provider_destinations setting) (net.parse_url (trim raw))

  -- ValidateProviderDestination
  unfoldable pub validate_provider_destination : ℕ → Text → Text → Result {0, 0} Failure Unit
  unfolding validate_provider_url
  validate_provider_destination now setting raw =
      validate_provider_url now setting raw >>= (λ _. ok tt)

  -- the loop of the dialer: the first address that answers
  unfoldable pub dial_first : Text → List Address → Option Address
  dial_first port [] = none
  dial_first port (ip ∷ ips) =
      let rest = dial_first port ips in if net.dial ip port then some ip else rest

  abbrev pub connected : Option Address → Result Failure Address
  connected none = err unreachable
  connected (some ip) = ok ip

  abbrev pub dial_parts : ℕ → Bool → Option (Text × Text) → Result Failure Address
  dial_parts now allow_private none = err bad_address
  dial_parts now allow_private (some (host, port)) =
      resolve_allowed_provider_ips now host allow_private
      >>= (λ ips. connected (dial_first port ips))

  -- DialContext of safeProviderTransport: the address that is connected to
  unfoldable pub dial_context : ℕ → Text → Text → Result Failure Address
  unfolding dial_first resolve_allowed_provider_ips allow_private_provider_destinations
  dial_context now setting addr =
      dial_parts now (allow_private_provider_destinations setting) (net.split_host_port addr)
