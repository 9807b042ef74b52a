-- ===== src/Events/Tests.antt =====
-- document/events.go: a full queue of two events, and the theorem applied to it.
use docengine.History.Ring.{window, slot}
use docengine.Events.Replays.{Retains, subscribe_lem}
use docengine.Events.Subscribe.{
  SubscribeOptions, subscribe, replayed, offer_retained, next_subscription_id,
}
use docengine.Prelude.{pos, false, refl, ℕ, ◌+◌, ◌≤◌, ◌≡◌, [], ◌∷◌, arith, length}
use docengine.Events.Hub.{
  EventHub, drain, saturating_add, SessionEvent, SubscriptionState, offer_event,
}
use docengine.Events.Delivery.{accounted, offer_event_lem}

abbrev event_at : ℕ → ℕ → SessionEvent ℕ
event_at sequence dropped = record { sequence = sequence; dropped = dropped; body = 3 }

abbrev full_queue : SubscriptionState ℕ
full_queue = record { events = event_at 4 2 ∷ event_at 5 0 ∷ []; capacity = 2; pending_dropped = 0 }

offer_event_lem_example :
    (accounted (offer_event full_queue (event_at 6 0)).0 ≡ accounted full_queue + 1)
    × (length (offer_event full_queue (event_at 6 0)).0.events
          + (offer_event full_queue (event_at 6 0)).1
        ≡ length full_queue.events + 1)
    × (length (offer_event full_queue (event_at 6 0)).0.events ≤ 2)
offer_event_lem_example =
    offer_event_lem full_queue (event_at 6 0) (omega arith) (omega arith) (omega arith)

-- A hub that retains the events 7 to 9, and a subscriber that asks for those behind 4.
abbrev small_hub : EventHub ℕ
small_hub = record {
  closed = false;
  sequence = 9;
  next_id = 0;
  history = event_at 9 0 ∷ event_at 7 0 ∷ event_at 8 0 ∷ [];
  history_start = 1;
  history_count = 3;
  subscribers = [];
  max_subscribers = 5;
  discarded = 0;
  history_gaps = 0;
  exhausted = false;
}

abbrev from_four : SubscribeOptions
from_four = record { buffer = pos 2; after_sequence = 4; future_only = false }

abbrev told_five : SubscriptionState ℕ
told_five = record { events = event_at 9 4 ∷ []; capacity = 2; pending_dropped = 0 }

abbrev hub_after : EventHub ℕ
hub_after = record small_hub {
  next_id = 1;
  subscribers = (1, told_five) ∷ [];
  discarded = 2;
  history_gaps = 2;
}

small_hub-Retains : Retains (event_at 0 0) small_hub
unfolding window slot
small_hub-Retains = record {
  numbered = (refl, (refl, (refl, tt)));
  counted_events = refl;
  bounded = omega arith;
  sequence_fits = omega arith;
  some_kept = λ h. omega arith;
}

subscribe_lem_example : accounted told_five ≡ 5
unfolding subscribe replayed offer_retained offer_event drain saturating_add next_subscription_id
    window slot
subscribe_lem_example =
    subscribe_lem (event_at 0 0) small_hub from_four (1, told_five, hub_after) small_hub-Retains
      refl
