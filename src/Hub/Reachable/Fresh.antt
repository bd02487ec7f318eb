-- ===== src/Hub/Reachable/Fresh.antt =====
-- A subscription, its channel and its end, in a hub that has given out other ids.
use velm.Base.{
  ℕ, suc, ◌+◌, ◌%◌, ◌^◌, ◌≤◌, ◌<◌, Bool, true, false, not, ◌&&◌, ◌||◌, ◌≡◌, refl, ap, ◌∙◌, arith,
  if◌then◌else◌, none, some, List, [], ◌∷◌, Text, trim, ◌==◌, nat_eq, any, keep, All,
}
use velm.Hub.Model.{Event, Subscriber, Channel, Hub, normalize_table}
use velm.Hub.Delivery.{subscribe, unsubscribe, listens_to, broadcast}
use velm.Hub.Delivery.Queues.{queue_of, offered, hears, unheard, queue_of-broadcast}
use velm.Hub.Reachable.{Reach, subscribed}
use velm.Hub.Reachable.Sound.{Reach-IsSound, keep_others}

-- The id is above those of a list.
above : (id n : ℕ) → id ≡ suc n → (j : ℕ) → j ≤ n → nat_eq j id ≡ false
above id n e j h = ground arith

keep_unheld :
    (id n : ℕ) (subs : List Subscriber)
    → id ≡ suc n
    → All (λ s. s.id ≤ n) subs
    → keep (λ s. not (nat_eq s.id id)) subs ≡ subs
unfolding keep
keep_unheld id n [] e h = refl
keep_unheld id n (s ∷ subs) e (p, h) =
    rw (above id n e s.id p) (ap (λ xs. s ∷ xs) (keep_unheld id n subs e h))

no_queue :
    (id n : ℕ) (channels : List Channel)
    → id ≡ suc n
    → All (λ c. c.id ≤ n) channels
    → queue_of id channels ≡ none
unfolding queue_of
no_queue id n [] e h = refl
no_queue id n (c ∷ channels) e (p, h) = rw (above id n e c.id p) (no_queue id n channels e h)

eq_self : (id : ℕ) → nat_eq id id ≡ true
eq_self id = ground arith

-- Whether a subscription to a table and a record id, empty for all records, is for an event.
abbrev pub is_for : Text → Text → Event → Bool
is_for table record_id event =
    normalize_table table == event.table
    && (trim record_id == [] || trim record_id == event.record_id)

module _ {ttl n : ℕ} {h : Hub} (r : Reach ttl n h) (few : n + 1 < 2 ^ 64)
    (table record_id : Text) where
  abbrev id : ℕ
  id = (h.next_sub_id + 1) % 2 ^ 64

  id_is : id ≡ suc n
  id_is = omega (arith, (Reach-IsSound r).last_id)

  ended :
      (unsubscribe (subscribe table record_id h).1 (subscribe table record_id h).0).subscriptions
      ≡ h.subscriptions
  unfolding subscribe unsubscribe keep
  ended =
      rw
        (
          eq_self id,
          keep_unheld id n h.subscriptions id_is ((Reach-IsSound r).subscription_ids (omega arith)),
          keep_unheld id n h.subscriptions id_is ((Reach-IsSound r).subscription_ids (omega arith)),
        )
        refl

  unused : queue_of (subscribe table record_id h).1 h.channels ≡ none
  unfolding subscribe
  unused = no_queue id n h.channels id_is ((Reach-IsSound r).channel_ids (omega arith))

  heard :
      (event : Event)
      → any (hears event id) (subscribe table record_id h).0.subscriptions
        ≡ is_for table record_id event
  unfolding subscribe listens_to
  heard event = rw (eq_self id, unheard id event _ (keep_others id h.subscriptions)) (ground arith)

  opened : queue_of id (subscribe table record_id h).0.channels ≡ some []
  unfolding subscribe queue_of
  opened = rw (eq_self id) refl

  chosen :
      (b : Bool) (event : Event)
      → (if b then offered event (some []) else some []) ≡ some (if b then event ∷ [] else [])
  chosen true event = refl
  chosen false event = refl

  received :
      (event : Event)
      → queue_of
          (subscribe table record_id h).1
          (broadcast event (subscribe table record_id h).0).channels
        ≡ some (if is_for table record_id event then event ∷ [] else [])
  unfolding subscribe ◌==◌
  received event =
      queue_of-broadcast event (subscribe table record_id h).0 (subscribe table record_id h).1
        (Reach-IsSound (subscribed r table record_id)).own_ids
      ∙ rw (heard event, opened) (chosen (is_for table record_id event) event)

-- Whatever came before, as long as fewer than 2^64 - 1 subscriptions did: no channel has the id of a
-- new subscription, its end leaves the subscriptions that were there before it, and after an event
-- that is broadcast next its channel holds that event alone, or nothing: the event exactly if it is of
-- the subscription's table, and of its record or the subscription is to all records.
pub subscribe-Fresh :
    {ttl n : ℕ} {h : Hub} (r : Reach ttl n h)
    → n + 1 < 2 ^ 64
    → (table record_id : Text) (event : Event)
    → ((unsubscribe (subscribe table record_id h).1 (subscribe table record_id h).0).subscriptions
        ≡ h.subscriptions)
      × (queue_of (subscribe table record_id h).1 h.channels ≡ none)
      × (queue_of
            (subscribe table record_id h).1
            (broadcast event (subscribe table record_id h).0).channels
          ≡ some (if is_for table record_id event then event ∷ [] else []))
subscribe-Fresh r few table record_id event = (
  ended r few table record_id,
  unused r few table record_id,
  received r few table record_id event,
)
