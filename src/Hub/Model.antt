-- ===== src/Hub/Model.antt =====
-- Event, PresenceView, subscriber, presenceEntry and Hub. An instant is its number of nanoseconds,
-- as is the time to live, which `newHub` makes positive; `now.Sub(t)` of a later `t` is then `0` here
-- and negative there, below the time to live in both.
use velm.Base.{ℕ, ◌*◌, if◌then◌else◌, Option, none, some}
use velm.Base.{List, [], ◌∷◌, ◌++◌, Text, txt, trim, lower, ◌==◌, nat_eq}

pub record PresenceView : Type 0 where
  pub user_id : Text
  pub user_name : Text
  pub status : Text

-- `at` is the instant that the field At formats.
pub record Event : Type 0 where
  pub type : Text
  pub table : Text
  pub record_id : Text
  pub kind : Text
  pub actor_user_id : Text
  pub actor_client_id : Text
  pub at : ℕ
  pub presence : List PresenceView

-- A subscription's channel is named by the subscription's id.
pub record Subscriber : Type 0 where
  pub id : ℕ
  pub table : Text
  pub record_id : Text

pub record PresenceEntry : Type 0 where
  pub client_id : Text
  pub user_id : Text
  pub user_name : Text
  pub status : Text
  pub last_seen : ℕ

-- A channel outlives its subscription: its reader may still drain it.
pub record Channel : Type 0 where
  pub id : ℕ
  pub queue : List Event

pub record Hub : Type 0 where
  pub presence_ttl : ℕ
  pub subscriptions : List Subscriber
  pub next_sub_id : ℕ
  pub presence_by_key : List (Text × List (Text × PresenceEntry))
  pub channels : List Channel

-- 35 * time.Second
abbrev pub default_ttl : ℕ
default_ttl = 35 * 1000000000

-- the capacity of a subscriber's channel
abbrev pub capacity : ℕ
capacity = 12

-- newHub
unfoldable pub new_hub : ℕ → Hub
new_hub ttl = record {
  presence_ttl = if nat_eq ttl 0 then default_ttl else ttl;
  subscriptions = [];
  next_sub_id = 0;
  presence_by_key = [];
  channels = [];
}

-- normalizeTable
unfoldable pub normalize_table : Text → Text
normalize_table table = trim (lower table)

-- normalizePresenceStatus
unfoldable pub normalize_presence_status : Text → Text
normalize_presence_status status =
    if lower (trim status) == txt "editing" then txt "editing" else txt "viewing"

-- presenceKey
unfoldable pub presence_key : Text → Text → Text
presence_key table record_id = normalize_table table ++ (58 ∷ trim record_id)

-- strings.SplitN(key, ":", 2): the parts before and after the first colon, if there is one
unfoldable pub cut : Text → Option (Text × Text)
cut [] = none
cut (c ∷ s) =
    let later = cut s in
    if nat_eq c 58 then some ([], s) else elim later [ none ↦ none | some (a, b) ↦ some (c ∷ a, b) ]

-- splitPresenceKey
unfoldable pub split_presence_key : Text → Text × Text
split_presence_key key = elim (cut key) [
  | none ↦ (trim key, [])
  | some (table, record_id) ↦ (trim table, trim record_id)
]
