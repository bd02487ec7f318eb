-- ===== src/Tests/Presence.antt =====
-- The properties of the hub at one history: two users on one record, one of them long gone.
use velm.Base.{
  ℕ, ◌≡◌, refl, arith, if◌then◌else◌, none, some, List, [], ◌∷◌, Text, txt, any, lookup,
}
use velm.Hub.Model.{Event, PresenceEntry, Hub, new_hub}
use velm.Hub.Delivery.{subscribe, unsubscribe, broadcast}
use velm.Hub.Delivery.Queues.{queue_of, offered, hears, queue_of-broadcast}
use velm.Hub.Presence.{presence_event, upsert_locked, presence_snapshot, cleanup_stale_presence}
use velm.Hub.Presence.Expiry.{presence_snapshot-cleanup}
use velm.Hub.Reachable.{start, next, subscribed, unsubscribed, upserted, announced}
use velm.Hub.Reachable.Fresh.{is_for, subscribe-Fresh}

abbrev entry_of : Text → ℕ → PresenceEntry
entry_of user at = record {
  client_id = txt "tab";
  user_id = user;
  user_name = user;
  status = txt "editing";
  last_seen = at;
}

abbrev two_entries : List (Text × PresenceEntry)
two_entries = (txt "tab", entry_of (txt "u1") 5) ∷ (txt "phone", entry_of (txt "u2") 90) ∷ []

abbrev presence_hub : Hub
presence_hub = record (new_hub 50) { presence_by_key = (txt "orders:7", two_entries) ∷ [] }

abbrev change : Event
change = presence_event 5 (txt "orders") (txt "7") []

abbrev two_subscriptions : Hub
two_subscriptions = record (new_hub 50) {
  subscriptions =
      record { id = 1; table = txt "orders"; record_id = [] }
      ∷ record { id = 2; table = txt "parts"; record_id = [] }
      ∷ [];
  channels = record { id = 1; queue = [] } ∷ record { id = 2; queue = [] } ∷ [];
}

-- Two subscriptions, a presence that is announced, and the end of the first.
abbrev one_ended : Hub
one_ended = unsubscribe 1 (
    broadcast change
      (upsert_locked 5 (txt "orders") (txt "7") (txt "tab") (txt "u1") (txt "Ann") (txt "editing")
        (subscribe (txt "Orders") (txt "7") (subscribe (txt "parts") [] (new_hub 100)).0).0).0)

subscribe-Fresh_example :
    ((unsubscribe
        (subscribe (txt "Orders") (txt "7") one_ended).1
        (subscribe (txt "Orders") (txt "7") one_ended).0).subscriptions
      ≡ one_ended.subscriptions)
    × (queue_of (subscribe (txt "Orders") (txt "7") one_ended).1 one_ended.channels ≡ none)
    × (queue_of
          (subscribe (txt "Orders") (txt "7") one_ended).1
          (broadcast change (subscribe (txt "Orders") (txt "7") one_ended).0).channels
        ≡ some (if is_for (txt "Orders") (txt "7") change then change ∷ [] else []))
subscribe-Fresh_example =
    subscribe-Fresh
      (next
        (next
          (next (subscribed (subscribed start (txt "parts") []) (txt "Orders") (txt "7")) (
            upserted 5 (txt "orders") (txt "7") (txt "tab") (txt "u1") (txt "Ann") (txt "editing")))
          (announced change))
        (unsubscribed 1))
      (omega arith) (txt "Orders") (txt "7") change

queue_of-broadcast_example : queue_of 1 (broadcast change two_subscriptions).channels ≡ (
    if any (hears change 1) two_subscriptions.subscriptions
    then offered change (queue_of 1 two_subscriptions.channels)
    else queue_of 1 two_subscriptions.channels)
queue_of-broadcast_example = queue_of-broadcast change two_subscriptions 1 (refl, (refl, tt))

presence_snapshot-cleanup_example :
    presence_snapshot 95 (txt "orders") (txt "7") (cleanup_stale_presence 90 presence_hub)
    ≡ presence_snapshot 95 (txt "orders") (txt "7") presence_hub
unfolding lookup
presence_snapshot-cleanup_example =
    presence_snapshot-cleanup 90 95 (txt "orders") (txt "7") presence_hub (refl, tt) (omega arith)
