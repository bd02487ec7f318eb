-- ===== src/Hub/Reachable.antt =====
-- Any sequence of the hub's operations, and the hubs that they lead to. What is done under a lock is a step, and so is each broadcast: an operation that gives up the lock before it
-- broadcasts is several steps, between which others may come. A broadcast, of any event here, reads
-- the subscriptions and sends in one step.
pub mod Sound
pub mod Fresh
use velm.Base.{ℕ, suc, List, [], ◌∷◌, Text}
use velm.Hub.Model.{Event, Hub, new_hub}
use velm.Hub.Delivery.{subscribe, unsubscribe, broadcast, publish_record_change, drain}
use velm.Hub.Presence.{
  upsert_locked, cleanup_locked, broadcast_all, upsert_presence, cleanup_stale_presence,
}

pub data Step (h : Hub) : Hub → Type 0 where
  unsubscribed : (id : ℕ) → Step h (unsubscribe id h)
  published :
      (now : ℕ) (table record_id kind user client : Text)
      → Step h (publish_record_change now table record_id kind user client h)
  upserted :
      (now : ℕ) (table record_id client user name status : Text)
      → Step h (upsert_locked now table record_id client user name status h).0
  cleaned : (now : ℕ) → Step h (cleanup_locked now h).0
  announced : (event : Event) → Step h (broadcast event h)
  drained_by : (id : ℕ) → Step h (drain id h)

-- The hubs after a number of subscriptions, and of other operations among them.
pub data Reach (ttl : ℕ) : ℕ → Hub → Type 0 where
  start : Reach ttl 0 (new_hub ttl)
  subscribed :
      {n : ℕ} {h : Hub}
      → Reach ttl n h
      → (table record_id : Text) → Reach ttl (suc n) (subscribe table record_id h).0
  next : {n : ℕ} {h k : Hub} → Reach ttl n h → Step h k → Reach ttl n k

-- The operations that broadcast after their lock are such steps when nothing comes between them.
broadcast_all-Reach :
    {ttl n : ℕ} (events : List Event) (h : Hub)
    → Reach ttl n h
    → Reach ttl n (broadcast_all events h)
unfolding broadcast_all
broadcast_all-Reach [] h r = r
broadcast_all-Reach (event ∷ events) h r =
    broadcast_all-Reach events (broadcast event h) (next r (announced event))

upsert_presence-Reach :
    {ttl n : ℕ} (now : ℕ) (table record_id client user name status : Text) (h : Hub)
    → Reach ttl n h
    → Reach ttl n (upsert_presence now table record_id client user name status h)
unfolding upsert_presence
upsert_presence-Reach now table record_id client user name status h r =
    broadcast_all-Reach _ _ (next r (upserted now table record_id client user name status))

cleanup_stale_presence-Reach :
    {ttl n : ℕ} (now : ℕ) (h : Hub) → Reach ttl n h → Reach ttl n (cleanup_stale_presence now h)
unfolding cleanup_stale_presence
cleanup_stale_presence-Reach now h r = broadcast_all-Reach _ _ (next r (cleaned now))
