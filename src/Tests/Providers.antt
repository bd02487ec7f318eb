-- ===== src/Tests/Providers.antt =====
-- The property of calls of providers at a name that is public when it is checked, and private when
-- it is dialled.
use velm.Base.{
  has_prefix, length, ℕ, true, false, if◌then◌else◌, ◌≡◌, refl, Option, none, some, List, [], ◌∷◌,
  txt, All,
}
use velm.Provider.Addresses.{Address, is_blocked_provider_ip}
use velm.Provider.Destinations.{Url, Internet}
use velm.Provider.Client.{Remote, list_models}
use velm.Provider.Client.Reached.{IsAllowed, list_models-IsAllowed}

abbrev base : Url
base = record {
  scheme = txt "https";
  has_user = false;
  host = txt "ai.example";
  path = txt "/v1";
  raw_query = [];
  fragment = [];
}

abbrev relative : Url
relative = record {
  scheme = [];
  has_user = false;
  host = [];
  path = txt "/models";
  raw_query = [];
  fragment = [];
}

-- From instant 1 on the name answers with 8.8.8.8 in place of 9.9.9.9, and from 2 on with 10.0.0.1.
abbrev changing_name : ℕ → Option (List Address)
changing_name ℕ.zero = some ((9 ∷ 9 ∷ 9 ∷ 9 ∷ []) ∷ [])
changing_name (ℕ.suc ℕ.zero) = some ((8 ∷ 8 ∷ 8 ∷ 8 ∷ []) ∷ [])
changing_name (ℕ.suc (ℕ.suc n)) = some ((10 ∷ 0 ∷ 0 ∷ 1 ∷ []) ∷ [])

abbrev small_internet : Internet
small_internet = record {
  parse_url = λ raw. if has_prefix raw (txt "/") then some relative else some base;
  hostname = λ u. u.host;
  parse_ip = λ host. none;
  lookup_ip = λ now host. changing_name now;
  split_host_port = λ addr. some (addr, txt "443");
  dial = λ ip port. true;
}

abbrev small_remote : Remote
small_remote = record {
  new_request_url = λ u. some u;
  dial_address = λ u. u.host;
  respond = λ ip request. some (record { status = 200; body = some (txt "[]") });
  parse_model_list = λ body. some [];
}

list_models-IsAllowed_example :
    All
      (IsAllowed small_internet small_remote [] 0 (txt "https://ai.example/v1"))
      (list_models small_internet small_remote [] 0 1
        (txt "https://ai.example/v1")
        (txt "/models")
        (txt "key")
        (λ name. [])).0
list_models-IsAllowed_example =
    list_models-IsAllowed small_internet small_remote [] 0 1 (txt "https://ai.example/v1")
      (txt "/models") (txt "key") (λ name. [])

one_request :
    length
      (list_models small_internet small_remote [] 0 1
        (txt "https://ai.example/v1")
        (txt "/models")
        (txt "key")
        (λ name. [])).0
    ≡ 1
unfolding list_models is_blocked_provider_ip
one_request = refl

no_request :
    (list_models small_internet small_remote [] 0 2
      (txt "https://ai.example/v1")
      (txt "/models")
      (txt "key")
      (λ name. [])).0
    ≡ []
unfolding list_models is_blocked_provider_ip
no_request = refl
