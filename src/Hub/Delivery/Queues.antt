-- ===== src/Hub/Delivery/Queues.antt =====
-- Who gets an event.
use velm.Base.{ℕ, ◌≤◌, Bool, false, ◌&&◌, ◌≡◌, refl, arith, Bool-cases, inl, inr, if◌then◌else◌}
use velm.Base.{
  List, [], ◌∷◌, ◌++◌, nat_eq, ltb, any, length, length-append, All, Option, none, some,
}
use velm.Hub.Model.{Event, Subscriber, Channel, Hub, capacity}
use velm.Hub.Delivery.{listens_to, receivers, offer, send_to, send_all, broadcast, drained}

-- The queue of a channel.
unfoldable pub queue_of : ℕ → List Channel → Option (List Event)
queue_of id [] = none
queue_of id (c ∷ channels) = if nat_eq c.id id then some c.queue else queue_of id channels

-- A queue after an event was offered to it.
abbrev pub offered : Event → Option (List Event) → Option (List Event)
offered event none = none
offered event (some q) = some (if ltb (length q) capacity then q ++ event ∷ [] else q)

queue_of-send_to :
    (id j : ℕ) (event : Event) (channels : List Channel)
    → queue_of id (send_to j event channels)
      ≡ (if nat_eq j id then offered event (queue_of id channels) else queue_of id channels)
unfolding queue_of send_to offer
queue_of-send_to id j event [] = ground arith
queue_of-send_to id j event (c ∷ channels) = ground (arith, queue_of-send_to id j event channels)

abbrev pub is_one_of : ℕ → List ℕ → Bool
is_one_of id ids = any (λ j. nat_eq j id) ids

abbrev pub Distinct : List ℕ → Type 0
Distinct [] = Unit
Distinct (j ∷ ids) = (is_one_of j ids ≡ false) × Distinct ids

queue_of-send_all :
    (id : ℕ) (ids : List ℕ) (event : Event) (channels : List Channel)
    → Distinct ids
    → queue_of id (send_all ids event channels)
      ≡ (if is_one_of id ids then offered event (queue_of id channels) else queue_of id channels)
unfolding send_all
queue_of-send_all id [] event channels d = refl
queue_of-send_all id (j ∷ ids) event channels (fresh, d) =
    let ih = queue_of-send_all id ids event (send_to j event channels) d in
    let here = queue_of-send_to id j event channels in
    elim (Bool-cases (nat_eq j id)) [
      | inl e ↦
          let same : j ≡ id = ground arith in
          let alone : is_one_of id ids ≡ false = rw (← same) fresh in rw (ih, alone, here, e) refl
      | inr e ↦ rw (ih, here, e) refl
    ]

-- The subscription of an id listens to an event.
abbrev pub hears : Event → ℕ → Subscriber → Bool
hears event id s = nat_eq s.id id && listens_to event s

is_one_of-receivers :
    (id : ℕ) (event : Event) (subs : List Subscriber)
    → is_one_of id (receivers event subs) ≡ any (hears event id) subs
unfolding receivers
is_one_of-receivers id event [] = refl
is_one_of-receivers id event (s ∷ subs) = ground (arith, is_one_of-receivers id event subs)

-- Each subscription has an id of its own.
abbrev pub HasOwnIds : List Subscriber → Type 0
HasOwnIds [] = Unit
HasOwnIds (s ∷ subs) = (any (λ t. nat_eq t.id s.id) subs ≡ false) × HasOwnIds subs

pub unheard :
    (id : ℕ) (event : Event) (subs : List Subscriber)
    → any (λ t. nat_eq t.id id) subs ≡ false
    → any (hears event id) subs ≡ false
unheard id event [] h = refl
unheard id event (s ∷ subs) h = ground (arith, unheard id event subs)

receivers-Distinct :
    (event : Event) (subs : List Subscriber) → HasOwnIds subs → Distinct (receivers event subs)
unfolding receivers
receivers-Distinct event [] h = tt
receivers-Distinct event (s ∷ subs) (fresh, h) = elim (Bool-cases (listens_to event s)) [
  | inl e ↦ rw e (
    rw (is_one_of-receivers s.id event subs) (unheard s.id event subs fresh),
    receivers-Distinct event subs h,
  )
  | inr e ↦ rw e (receivers-Distinct event subs h)
]

-- A broadcast puts its event at the end of the queue of every channel whose subscription listens to
-- it and whose queue has room, once, and changes no other queue. The subscriptions have ids of their
-- own.
pub queue_of-broadcast :
    (event : Event) (h : Hub) (id : ℕ)
    → HasOwnIds h.subscriptions
    → queue_of id (broadcast event h).channels ≡ (
        if any (hears event id) h.subscriptions
        then offered event (queue_of id h.channels)
        else queue_of id h.channels)
unfolding broadcast
queue_of-broadcast event h id own =
    rw
      (
        queue_of-send_all id (receivers event h.subscriptions) event h.channels
            (receivers-Distinct event h.subscriptions own),
        is_one_of-receivers id event h.subscriptions,
      )
      refl

-- No queue holds more than a channel can.
abbrev pub IsBounded : List Channel → Type 0
IsBounded = All (λ c. length c.queue ≤ capacity)

send_to-IsBounded :
    (id : ℕ) (event : Event) (channels : List Channel)
    → IsBounded channels
    → IsBounded (send_to id event channels)
unfolding send_to offer
send_to-IsBounded id event [] h = tt
send_to-IsBounded id event (c ∷ channels) h =
    ground (arith, length-append c.queue (event ∷ []), send_to-IsBounded id event channels)

send_all-IsBounded :
    (ids : List ℕ) (event : Event) (channels : List Channel)
    → IsBounded channels
    → IsBounded (send_all ids event channels)
unfolding send_all
send_all-IsBounded [] event channels h = h
send_all-IsBounded (id ∷ ids) event channels h =
    send_all-IsBounded ids event (send_to id event channels) (send_to-IsBounded id event channels h)

pub broadcast-IsBounded :
    (event : Event) (h : Hub) → IsBounded h.channels → IsBounded (broadcast event h).channels
unfolding broadcast
broadcast-IsBounded event h b = send_all-IsBounded _ event h.channels b

pub drained-IsBounded :
    (id : ℕ) (channels : List Channel) → IsBounded channels → IsBounded (drained id channels)
unfolding drained
drained-IsBounded id [] h = tt
drained-IsBounded id (c ∷ channels) h = ground (arith, drained-IsBounded id channels)
