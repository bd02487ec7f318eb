-- ===== src/Hub/Reachable/Sound.antt =====
-- What holds of every hub that is reached.
use velm.Base.{
  ℕ, suc, ◌<◌, ◌≤◌, ◌+◌, ◌%◌, ◌^◌, Bool, true, false, not, ◌≡◌, refl, arith, Bool-cases, inl, inr,
  if◌then◌else◌,
}
use velm.Base.{List, [], ◌∷◌, Text, nat_eq, any, keep, All, All-keep, length, ltb}
use velm.Base.{HasKeysOnce, insert-HasKeysOnce, insert}
use velm.Hub.Model.{Event, Subscriber, Channel, capacity, Hub, new_hub}
use velm.Hub.Delivery.{
  subscribe, unsubscribe, broadcast, publish_record_change, offer, send_to, send_all, drained,
  drain,
}
use velm.Hub.Delivery.Queues.{HasOwnIds, IsBounded, broadcast-IsBounded, drained-IsBounded}
use velm.Hub.Presence.{Entries, upsert_locked, put_presence, cleanup_locked}
use velm.Hub.Presence.Expiry.{swept-HasKeysOnce}
use velm.Hub.Reachable.{
  Step, unsubscribed, published, upserted, cleaned, announced, drained_by, Reach, start, subscribed,
  next,
}

-- What holds after `n` subscriptions. The ids are those that were counted, of the subscriptions and
-- of the channels, which outlive them.
pub record IsSound (n : ℕ) (h : Hub) : Type 0 where
  pub last_id : h.next_sub_id ≡ n % 2 ^ 64
  pub channel_ids : n < 2 ^ 64 → All (λ c. c.id ≤ n) h.channels
  pub subscription_ids : n < 2 ^ 64 → All (λ s. s.id ≤ n) h.subscriptions
  pub bounded : IsBounded h.channels
  pub own_ids : HasOwnIds h.subscriptions
  pub keys_once : HasKeysOnce h.presence_by_key

send_to-All :
    (n id : ℕ) (event : Event) (channels : List Channel)
    → All (λ c. c.id ≤ n) channels
    → All (λ c. c.id ≤ n) (send_to id event channels)
unfolding send_to offer
send_to-All n id event [] h = tt
send_to-All n id event (c ∷ channels) (p, h) = elim (Bool-cases (nat_eq c.id id)) [
  | inl e ↦ elim (Bool-cases (ltb (length c.queue) capacity)) [
    | inl f ↦ rw (e, f) (p, h)
    | inr f ↦ rw (e, f) (p, h)
  ]
  | inr e ↦ rw e (p, send_to-All n id event channels h)
]

send_all-All :
    (n : ℕ) (ids : List ℕ) (event : Event) (channels : List Channel)
    → All (λ c. c.id ≤ n) channels
    → All (λ c. c.id ≤ n) (send_all ids event channels)
unfolding send_all
send_all-All n [] event channels h = h
send_all-All n (id ∷ ids) event channels h =
    send_all-All n ids event _ (send_to-All n id event channels h)

drained-All :
    (n id : ℕ) (channels : List Channel)
    → All (λ c. c.id ≤ n) channels
    → All (λ c. c.id ≤ n) (drained id channels)
unfolding drained
drained-All n id [] h = tt
drained-All n id (c ∷ channels) (p, h) = elim (Bool-cases (nat_eq c.id id)) [
  | inl e ↦ rw e (p, drained-All n id channels h)
  | inr e ↦ rw e (p, drained-All n id channels h)
]

channels_below_suc :
    (n : ℕ) (xs : List Channel) → All (λ c. c.id ≤ n) xs → All (λ c. c.id ≤ suc n) xs
channels_below_suc n [] h = tt
channels_below_suc n (x ∷ xs) (p, h) = (omega arith, channels_below_suc n xs h)

subscriptions_below_suc :
    (n : ℕ) (xs : List Subscriber) → All (λ s. s.id ≤ n) xs → All (λ s. s.id ≤ suc n) xs
subscriptions_below_suc n [] h = tt
subscriptions_below_suc n (x ∷ xs) (p, h) = (omega arith, subscriptions_below_suc n xs h)

any-keep-false :
    (p q : Subscriber → Bool) (subs : List Subscriber)
    → any p subs ≡ false
    → any p (keep q subs) ≡ false
unfolding keep
any-keep-false p q [] h = refl
any-keep-false p q (s ∷ subs) h = ground (arith, any-keep-false p q subs)

keep-HasOwnIds :
    (q : Subscriber → Bool) (subs : List Subscriber) → HasOwnIds subs → HasOwnIds (keep q subs)
unfolding keep
keep-HasOwnIds q [] h = tt
keep-HasOwnIds q (s ∷ subs) (fresh, h) = elim (Bool-cases (q s)) [
  | inl e ↦ rw e (any-keep-false (λ t. nat_eq t.id s.id) q subs fresh, keep-HasOwnIds q subs h)
  | inr e ↦ rw e (keep-HasOwnIds q subs h)
]

pub keep_others :
    (id : ℕ) (subs : List Subscriber)
    → any (λ t. nat_eq t.id id) (keep (λ s. not (nat_eq s.id id)) subs) ≡ false
unfolding keep
keep_others id [] = refl
keep_others id (s ∷ subs) = ground (arith, keep_others id subs)

subscribe-IsSound :
    {n : ℕ} (table record_id : Text) (h : Hub)
    → IsSound n h
    → IsSound (suc n) (subscribe table record_id h).0
unfolding subscribe
subscribe-IsSound table record_id h s = record {
  last_id = omega (arith, s.last_id);
  channel_ids =
      λ x. (omega (arith, s.last_id), channels_below_suc _ _ (s.channel_ids (omega arith)));
  subscription_ids = λ x. (
    omega (arith, s.last_id),
    subscriptions_below_suc _ _ (All-keep _ _ h.subscriptions (s.subscription_ids (omega arith))),
  );
  bounded = (omega arith, s.bounded);
  own_ids = (
    keep_others ((h.next_sub_id + 1) % 2 ^ 64) h.subscriptions,
    keep-HasOwnIds _ h.subscriptions s.own_ids,
  );
  keys_once = s.keys_once;
}

broadcast-IsSound : {n : ℕ} (event : Event) (h : Hub) → IsSound n h → IsSound n (broadcast event h)
broadcast-IsSound event h s = record {
  last_id = unfold broadcast in s.last_id;
  channel_ids = λ x. unfold broadcast in send_all-All _ _ event h.channels (s.channel_ids x);
  subscription_ids = λ x. unfold broadcast in s.subscription_ids x;
  bounded = broadcast-IsBounded event h s.bounded;
  own_ids = unfold broadcast in s.own_ids;
  keys_once = unfold broadcast in s.keys_once;
}

if-IsSound :
    {n : ℕ} (b : Bool) (h k : Hub) → IsSound n h → IsSound n k → IsSound n (if b then h else k)
if-IsSound true h k s t = s
if-IsSound false h k s t = t

store_presence-IsSound :
    {n : ℕ} (key : Text) (entries : Entries) (h : Hub)
    → IsSound n h
    → IsSound n (record h { presence_by_key = insert key entries h.presence_by_key })
store_presence-IsSound key entries h s = record {
  last_id = s.last_id;
  channel_ids = s.channel_ids;
  subscription_ids = s.subscription_ids;
  bounded = s.bounded;
  own_ids = s.own_ids;
  keys_once = insert-HasKeysOnce key entries h.presence_by_key s.keys_once;
}

upsert-IsSound :
    {n : ℕ} (b : Bool) (h : Hub) (put : Hub × List Event)
    → IsSound n h
    → IsSound n put.0
    → IsSound n (if b then (h, []) else put).0
upsert-IsSound true h put s t = s
upsert-IsSound false h put s t = t

Step-IsSound : {n : ℕ} {h k : Hub} → Step h k → IsSound n h → IsSound n k
unfolding unsubscribe publish_record_change upsert_locked put_presence cleanup_locked drain
Step-IsSound {h = h} (unsubscribed id) s = record {
  last_id = s.last_id;
  channel_ids = s.channel_ids;
  subscription_ids = λ x. All-keep _ _ h.subscriptions (s.subscription_ids x);
  bounded = s.bounded;
  own_ids = keep-HasOwnIds _ h.subscriptions s.own_ids;
  keys_once = s.keys_once;
}
Step-IsSound {h = h} (published now table record_id kind user client) s =
    if-IsSound _ _ _ s (broadcast-IsSound _ h s)
Step-IsSound {h = h} (upserted now table record_id client user name status) s =
    upsert-IsSound _ h _ s (store_presence-IsSound _ _ h s)
Step-IsSound {h = h} (announced event) s = broadcast-IsSound event h s
Step-IsSound {h = h} (cleaned now) s = record {
  last_id = s.last_id;
  channel_ids = s.channel_ids;
  subscription_ids = s.subscription_ids;
  bounded = s.bounded;
  own_ids = s.own_ids;
  keys_once = swept-HasKeysOnce now h.presence_ttl h.presence_by_key s.keys_once;
}
Step-IsSound {h = h} (drained_by id) s = record {
  last_id = s.last_id;
  channel_ids = λ x. drained-All _ id h.channels (s.channel_ids x);
  subscription_ids = s.subscription_ids;
  bounded = drained-IsBounded id h.channels s.bounded;
  own_ids = s.own_ids;
  keys_once = s.keys_once;
}

-- Whatever the sequence of operations on a new hub, no channel holds more events than its capacity,
-- no two subscriptions have one id, no record is twice in the map of presence, and the ids that were
-- given out are those that were counted.
pub Reach-IsSound : {ttl n : ℕ} {h : Hub} → Reach ttl n h → IsSound n h
unfolding new_hub
Reach-IsSound start = record {
  last_id = omega arith;
  channel_ids = λ x. tt;
  subscription_ids = λ x. tt;
  bounded = tt;
  own_ids = tt;
  keys_once = tt;
}
Reach-IsSound (subscribed {h = h} r table record_id) =
    subscribe-IsSound table record_id h (Reach-IsSound r)
Reach-IsSound (next r step) = Step-IsSound step (Reach-IsSound r)
