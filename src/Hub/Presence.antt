-- ===== src/Hub/Presence.antt =====
-- UpsertPresence, PresenceSnapshot and cleanupStalePresence.
pub mod Expiry
use velm.Base.{ℕ, Bool, true, false, not, ◌&&◌, ◌||◌, if◌then◌else◌, Option, none, some}
use velm.Base.{List, [], ◌∷◌, ◌++◌, Text, txt, trim, ◌==◌, null, keep, lookup, insert}
use velm.Hub.Model.{
  Event, PresenceView, PresenceEntry, Hub, normalize_table, normalize_presence_status, presence_key,
  split_presence_key,
}
use velm.Hub.Snapshot.{is_stale, snapshot_from_entries}
use velm.Hub.Delivery.{broadcast}

abbrev pub Entries : Type 0
Entries = List (Text × PresenceEntry)

-- the entries of a key, none where there is no such key
abbrev pub entries_or_empty : Option Entries → Entries
entries_or_empty none = []
entries_or_empty (some entries) = entries

-- `!exists || existing.Status != status || …`
unfoldable pub presence_changed : Option PresenceEntry → PresenceEntry → Bool
presence_changed none entry = true
presence_changed (some old) entry =
    not (old.status == entry.status)
    || not (old.user_name == entry.user_name)
    || not (old.user_id == entry.user_id)

abbrev pub presence_event : ℕ → Text → Text → List PresenceView → Event
presence_event now table record_id views = record {
  type = txt "presence.updated";
  table = table;
  record_id = record_id;
  kind = [];
  actor_user_id = [];
  actor_client_id = [];
  at = now;
  presence = views;
}

unfoldable pub broadcast_all : List Event → Hub → Hub
broadcast_all [] h = h
broadcast_all (event ∷ events) h = broadcast_all events (broadcast event h)

-- what UpsertPresence does under its lock, with its arguments normalised: the hub, and the event to be
-- broadcast after the lock is given up, if there is one
unfoldable pub put_presence : ℕ → Text → Text → PresenceEntry → Hub → Hub × List Event
put_presence now table record_id entry h =
    let key = presence_key table record_id in
    let old = entries_or_empty (lookup key h.presence_by_key) in
    let new = insert entry.client_id entry old in
    (
      record h { presence_by_key = insert key new h.presence_by_key },
      if presence_changed (lookup entry.client_id old) entry
          then presence_event now table record_id (snapshot_from_entries new now h.presence_ttl)
            ∷ []
          else [],
    )

-- UpsertPresence up to its unlock
unfoldable pub upsert_locked : ℕ → Text → Text → Text → Text → Text → Text → Hub → Hub × List Event
upsert_locked now table record_id client_id user_id user_name status h =
    if normalize_table table == []
      || trim record_id == []
      || trim client_id == []
      || trim user_id == []
    then (h, [])
    else put_presence now (normalize_table table) (trim record_id)
        (record {
          client_id = trim client_id;
          user_id = trim user_id;
          user_name = trim user_name;
          status = normalize_presence_status status;
          last_seen = now;
        })
        h

-- UpsertPresence with no other operation between its unlock and its broadcast
unfoldable pub upsert_presence : ℕ → Text → Text → Text → Text → Text → Text → Hub → Hub
upsert_presence now table record_id client_id user_id user_name status h =
    let (stored, events) = upsert_locked now table record_id client_id user_id user_name status h in
    broadcast_all events stored

-- PresenceSnapshot
unfoldable pub presence_snapshot : ℕ → Text → Text → Hub → List PresenceView
presence_snapshot now table record_id h =
    if normalize_table table == [] || trim record_id == []
    then []
    else snapshot_from_entries
        (entries_or_empty
          (lookup (presence_key (normalize_table table) (trim record_id)) h.presence_by_key))
        now h.presence_ttl

-- the entries of a key that are not stale
unfoldable pub fresh_entries : ℕ → ℕ → Entries → Entries
fresh_entries now ttl = keep (λ e. not (is_stale now ttl (e.1)))

-- `changed` of cleanupStalePresence
unfoldable pub has_stale : ℕ → ℕ → Entries → Bool
has_stale now ttl [] = false
has_stale now ttl ((client, entry) ∷ entries) = is_stale now ttl entry || has_stale now ttl entries

-- the map after the loop over the keys
unfoldable pub swept : ℕ → ℕ → List (Text × Entries) → List (Text × Entries)
swept now ttl [] = []
swept now ttl ((key, entries) ∷ m) =
    if null (fresh_entries now ttl entries)
    then swept now ttl m
    else (key, fresh_entries now ttl entries) ∷ swept now ttl m

-- the events of the loop over the keys
unfoldable pub sweep_events : ℕ → ℕ → List (Text × Entries) → List Event
sweep_events now ttl [] = []
sweep_events now ttl ((key, entries) ∷ m) =
    let rest = sweep_events now ttl m in
    if has_stale now ttl entries
    then presence_event now (split_presence_key key).0 (split_presence_key key).1
        (snapshot_from_entries (fresh_entries now ttl entries) now ttl)
      ∷ rest
    else rest

-- cleanupStalePresence up to its unlock
unfoldable pub cleanup_locked : ℕ → Hub → Hub × List Event
cleanup_locked now h = (
  record h { presence_by_key = swept now h.presence_ttl h.presence_by_key },
  sweep_events now h.presence_ttl h.presence_by_key,
)

-- cleanupStalePresence with no other operation between its unlock and its broadcasts
unfoldable pub cleanup_stale_presence : ℕ → Hub → Hub
cleanup_stale_presence now h =
    let (stored, events) = cleanup_locked now h in broadcast_all events stored
