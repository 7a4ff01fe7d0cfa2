-- ===== src/Core/EventBus.antt =====
-- vishwakarma/core/eventbus.py: the queues of the subscribers. A `queue.Queue` is the list of its
-- events, oldest first, under the number that tells it from the others; `wire` holds what went out
-- over Redis, in order. The thread of the listener is the operation `relay`.
mod Delivery
mod Tests
use vishwakarma.Prelude.{
  ℕ, ◌+◌, Bool, not, Option, none, some, List, [], ◌∷◌, ◌++◌, map, ltb, nat_eq, if◌then◌else◌,
  length, keep,
}

abbrev pub subscriber_queue_max : ℕ
subscriber_queue_max = 1000

pub record Subscriber (E : Type 0) : Type 0 where
  pub number : ℕ
  pub events : List E

pub record Bus (E : Type 0) : Type 0 where
  pub subscribers : List (Subscriber E)
  pub created : ℕ
  pub wire : List E

module _ {E : Type 0} where
  unfoldable pub new_bus : Bus E
  new_bus = record { subscribers = []; created = 0; wire = [] }

  -- q.put_nowait(evt): `none` is queue.Full
  unfoldable pub put_nowait : ℕ → E → List E → Option (List E)
  put_nowait maxsize evt events =
      if ltb (length events) maxsize then some (events ++ (evt ∷ [])) else none

  -- q.get_nowait() on a queue, without what it returns: nothing to drop is queue.Empty
  unfoldable pub drop_oldest : List E → Option (List E)
  drop_oldest [] = none
  drop_oldest (e ∷ events) = some events

  -- the queue after the `except queue.Full` branch, in which an exception is swallowed
  unfoldable pub make_room : ℕ → E → List E → List E
  unfolding drop_oldest
  make_room maxsize evt events = elim (drop_oldest events) [
    | none ↦ events
    | some rest ↦ elim (put_nowait maxsize evt rest) [ none ↦ rest | some events' ↦ events' ]
  ]

  unfoldable pub deliver : ℕ → E → List E → List E
  unfolding put_nowait make_room
  deliver maxsize evt events = elim (put_nowait maxsize evt events) [
    | some events' ↦ events'
    | none ↦ make_room maxsize evt events
  ]

  unfoldable pub delivered : E → Subscriber E → Subscriber E
  unfolding deliver
  delivered evt s = record s { events = deliver subscriber_queue_max evt s.events }

  unfoldable pub deliver_local : E → Bus E → Bus E
  unfolding delivered
  deliver_local evt bus = record bus { subscribers = map (delivered evt) bus.subscribers }

  -- `sent` tells whether Redis is configured and its publish returns
  unfoldable pub publish : Bool → E → Bus E → Bus E
  publish sent evt bus =
      if sent then record bus { wire = bus.wire ++ (evt ∷ []) } else deliver_local evt bus

  -- the new queue's number is the number of queues that were made before
  unfoldable pub subscribe : Bus E → ℕ × Bus E
  subscribe bus =
      let q : Subscriber E = record { number = bus.created; events = [] } in
      (
        bus.created,
        record bus { subscribers = bus.subscribers ++ (q ∷ []); created = bus.created + 1 },
      )

  unfoldable pub unsubscribe : ℕ → Bus E → Bus E
  unsubscribe number bus = record bus {
    subscribers = keep (λ s. not (nat_eq s.number number)) bus.subscribers;
  }

  -- a message off the wire; one that cannot be decoded is skipped
  unfoldable pub relay : (E → Option E) → Bus E → Bus E
  relay decode bus = elim bus.wire [
    | [] ↦ bus
    | evt ∷ rest ↦
        let read = record bus { wire = rest } in
        elim (decode evt) [ none ↦ read | some e ↦ deliver_local e read ]
  ]
