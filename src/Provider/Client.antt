-- ===== src/Provider/Client.antt =====
-- ProviderClient.go: the call for a provider's list of models. `Remote` is what stands behind the
-- connections: printing an address and reading it again, the server's answer, and the reader of JSON.
pub mod Reached
use velm.Base.{
  ℕ, ◌/◌, ◌^◌, Bool, true, false, ◌&&◌, ◌||◌, not, if◌then◌else◌, Option, none, some, List, [], ◌∷◌,
  ◌++◌, Text, txt, trim, ◌==◌, has_prefix, nat_eq, null, Result, ok, err, ◌>>=◌, take_bytes,
  drop_bytes,
}
use velm.Provider.Addresses.{Address}
use velm.Provider.Destinations.{
  Url, Failure, malformed_list_path, list_path_is_url, bad_request, unreachable, non_public,
  unresolved, unreadable_body, redirect_refused, bad_status, malformed_models, not_permitted,
  Internet, validate_provider_url, dial_context,
}

-- the headers that are set, in order
pub record Request : Type 0 where
  pub url : Url
  pub headers : List (Text × Text)

-- The body is missing where reading it fails.
pub record Response : Type 0 where
  pub status : ℕ
  pub body : Option Text

-- ProviderModel, without its metadata
pub record ProviderModel : Type 0 where
  pub model_id : Text
  pub display_name : Text

pub record Remote : Type 0 where
  -- http.NewRequest of the printed URL
  pub new_request_url : Url → Option Url
  -- the host and port that net/http dials for a URL
  pub dial_address : Url → Text
  -- the answer of the server at an address
  pub respond : Address → Request → Option Response
  pub parse_model_list : Text → Option (List ProviderModel)

-- A request that was sent over a connection to an address, with the key in its headers.
pub record Sent : Type 0 where
  pub address : Address
  pub request : Request

-- strings.TrimSuffix(path, "/")
unfoldable pub trim_slash_end : Text → Text
unfolding ◌==◌ txt
trim_slash_end [] = []
trim_slash_end (c ∷ path) =
    let rest = trim_slash_end path in if nat_eq c 47 && null path then [] else c ∷ rest

abbrev pub trim_slash_start : Text → Text
trim_slash_start path = if has_prefix path (txt "/") then drop_bytes 1 path else path

abbrev pub join_url : Url → Option Url → Result Failure Url
join_url base none = err malformed_list_path
join_url base (some rel) =
    if not (rel.scheme == []) || not (rel.host == [])
    then err list_path_is_url
    else ok (record base {
      path = trim_slash_end base.path ++ txt "/" ++ trim_slash_start rel.path;
      raw_query = rel.raw_query;
      fragment = [];
    })

-- providerRequestURL
unfoldable pub provider_request_url : Internet → Url → Text → Result Failure Url
unfolding trim ◌==◌ txt has_prefix drop_bytes trim_slash_end
provider_request_url net base list_path = join_url base (net.parse_url (trim list_path))

-- the headers that ListModelsContext sets; `meta` answers "" for a key that holds no string
unfoldable pub request_headers : (Text → Text) → Text → List (Text × Text)
unfolding ◌==◌ txt
request_headers meta key =
    let auth = meta (txt "auth_header") in
    let version = meta (txt "version_header") in
    ((if auth == txt "Authorization"
        then (auth, txt "Bearer " ++ key)
        else if auth == []
        then (txt "x-api-key", key)
        else (auth, key))
      ∷ (if version == [] then [] else (version, meta (txt "version_value")) ∷ []))
    ++ (txt "Accept", txt "application/json") ∷ []

module _ (net : Internet) (remote : Remote) (setting : Text) where
  -- what the caller learns of a failure to connect
  abbrev pub hidden : Failure → Failure
  hidden unresolved = not_permitted
  hidden non_public = not_permitted
  hidden failure = unreachable

  -- the part after the answer
  abbrev pub read_models : Option Response → Result Failure (List ProviderModel)
  read_models none = err unreachable
  read_models (some response) = elim response.body [
    | none ↦ err unreadable_body
    | some body ↦
        if not (nat_eq response.status 200)
        then if nat_eq (response.status / 100) 3
          then err (redirect_refused response.status)
          else err (bad_status response.status)
        else elim (remote.parse_model_list (take_bytes (2 ^ 20) body)) [
          | none ↦ err malformed_models
          | some models ↦ ok models
        ]
  ]

  -- safe.Do and what follows: the requests that were sent, and the result
  abbrev pub exchange :
      Request → Result Failure Address → List Sent × Result Failure (List ProviderModel)
  exchange request (err failure) = ([], err (hidden failure))
  exchange request (ok address) = (
    record { address = address; request = request } ∷ [],
    read_models (remote.respond address request),
  )

  abbrev pub send_to :
      ℕ → (Text → Text) → Text → Option Url → List Sent × Result Failure (List ProviderModel)
  send_to now meta key none = ([], err bad_request)
  send_to now meta key (some url) =
      exchange (record { url = url; headers = request_headers meta key })
        (dial_context net now setting (remote.dial_address url))

  abbrev pub request_models :
      ℕ
      → (Text → Text)
      → Text
      → Result Failure Url
      → List Sent × Result Failure (List ProviderModel)
  request_models now meta key (err failure) = ([], err failure)
  request_models now meta key (ok target) = send_to now meta key (remote.new_request_url target)

  -- ListModelsContext: the URL is checked at `before`, and dialled at `now`
  unfoldable pub list_models :
      ℕ → ℕ → Text → Text → Text → (Text → Text) → List Sent × Result Failure (List ProviderModel)
  unfolding request_headers dial_context provider_request_url validate_provider_url take_bytes
  list_models before now base_url list_path key meta = request_models now meta key (
      validate_provider_url net before setting base_url
      >>= (λ base. provider_request_url net base list_path))
