-- ===== src/Core/EventBus/Tests.antt =====
-- A run of core/eventbus.py.
use vishwakarma.Prelude.{ℕ, ◌≡◌, refl, true, false, some, [], ◌∷◌, leb, length, all}
use vishwakarma.Core.EventBus.{
  Bus, subscriber_queue_max, new_bus, put_nowait, drop_oldest, make_room, deliver, delivered,
  deliver_local, publish, subscribe, unsubscribe, relay,
}
use vishwakarma.Core.EventBus.Delivery.{publish_all}

program : Unit {0}
unfolding new_bus put_nowait drop_oldest make_room deliver delivered deliver_local publish subscribe
    unsubscribe relay publish_all
program = tt

abbrev watched : Bus ℕ
watched = (subscribe new_bus).1

-- over Redis an event reaches the subscriber when the listener reads it
relayed :
    (relay some (publish true 5 (publish false 4 watched))).subscribers
    ≡ record { number = 0; events = 4 ∷ 5 ∷ [] } ∷ []
unfolding program
relayed = refl

left : (unsubscribe 0 watched).subscribers ≡ []
unfolding program
left = refl

-- a full queue loses its oldest event
overflow : deliver {E = ℕ} 2 3 (1 ∷ 2 ∷ []) ≡ 2 ∷ 3 ∷ []
unfolding program
overflow = refl

watched-small :
    all (λ s. leb (length s.events) subscriber_queue_max) (publish false 4 watched).subscribers
    ≡ true
unfolding program
watched-small = refl
