-- ===== src/Hub/Delivery.antt =====
-- Subscribe, the function that it returns, broadcast and PublishRecordChange. A send to a channel
-- that is full is dropped.
pub mod Queues
use velm.Base.{ℕ, zero, suc, ◌+◌, ◌%◌, ◌^◌, Bool, true, false, not, ◌&&◌, ◌||◌, if◌then◌else◌}
use velm.Base.{List, [], ◌∷◌, ◌++◌, Text, txt, trim, ◌==◌, ltb, nat_eq, keep, any, length}
use velm.Hub.Model.{Event, Subscriber, Channel, Hub, capacity, normalize_table}

-- Subscribe: the hub, and the id of the subscription and its channel. `nextSubID` is an int64, kept
-- here as its bit pattern.
unfoldable pub subscribe : Text → Text → Hub → Hub × ℕ
subscribe table record_id h =
    let id = (h.next_sub_id + 1) % 2 ^ 64 in
    (
      record h {
        next_sub_id = id;
        subscriptions =
            record { id = id; table = normalize_table table; record_id = trim record_id }
            ∷ keep (λ s. not (nat_eq s.id id)) h.subscriptions;
        channels = record { id = id; queue = [] } ∷ h.channels;
      },
      id,
    )

-- the function that Subscribe returns
unfoldable pub unsubscribe : ℕ → Hub → Hub
unsubscribe id h = record h { subscriptions = keep (λ s. not (nat_eq s.id id)) h.subscriptions }

-- the two `continue`s of the loop of broadcast
unfoldable pub listens_to : Event → Subscriber → Bool
listens_to event s = s.table == event.table && (s.record_id == [] || s.record_id == event.record_id)

-- the ids of the subscriptions that an event is for
unfoldable pub receivers : Event → List Subscriber → List ℕ
receivers event [] = []
receivers event (s ∷ subs) =
    let rest = receivers event subs in if listens_to event s then s.id ∷ rest else rest

-- a send that does not wait
unfoldable pub offer : Event → Channel → Channel
offer event c =
    if ltb (length c.queue) capacity then record c { queue = c.queue ++ event ∷ [] } else c

unfoldable pub send_to : ℕ → Event → List Channel → List Channel
send_to id event [] = []
send_to id event (c ∷ channels) =
    if nat_eq c.id id then offer event c ∷ channels else c ∷ send_to id event channels

unfoldable pub send_all : List ℕ → Event → List Channel → List Channel
send_all [] event channels = channels
send_all (id ∷ ids) event channels = send_all ids event (send_to id event channels)

-- broadcast
unfoldable pub broadcast : Event → Hub → Hub
broadcast event h = record h {
  channels = send_all (receivers event h.subscriptions) event h.channels;
}

-- PublishRecordChange; `now` is the reading of the clock
unfoldable pub publish_record_change : ℕ → Text → Text → Text → Text → Text → Hub → Hub
publish_record_change now table record_id kind actor_user_id actor_client_id h =
    if normalize_table table == [] || trim record_id == []
    then h
    else broadcast
        (record {
          type = txt "record.changed";
          table = normalize_table table;
          record_id = trim record_id;
          kind = trim kind;
          actor_user_id = trim actor_user_id;
          actor_client_id = trim actor_client_id;
          at = now;
          presence = [];
        })
        h

-- a reader takes what its channel holds
unfoldable pub drained : ℕ → List Channel → List Channel
drained id [] = []
drained id (c ∷ channels) =
    (if nat_eq c.id id then record c { queue = [] } else c) ∷ drained id channels

unfoldable pub drain : ℕ → Hub → Hub
drain id h = record h { channels = drained id h.channels }
