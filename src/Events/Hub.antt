-- ===== src/Events/Hub.antt =====
-- document/events.go: eventHub with publish, unsubscribe, close and stats. `B` holds the fields of an
-- event that the hub does not read. A channel is its queue and capacity; the mutex makes each
-- operation one step, and a consumer receives between steps.
use docengine.Prelude.{
  ℕ, ◌+◌, ◌-◌, ◌%◌, Bool, true, ltb, ◌==◌, if◌then◌else◌, List, [], ◌∷◌, ◌++◌, length, max_uint64,
}
use docengine.History.Ring.{set_at}

pub record SessionEvent {ℓ} (B : Type ℓ) : Type ℓ where
  pub sequence : ℕ
  pub dropped : ℕ
  pub body : B

pub record SubscriptionState {ℓ} (B : Type ℓ) : Type ℓ where
  pub events : List (SessionEvent B)
  pub capacity : ℕ
  pub pending_dropped : ℕ

pub record EventHub {ℓ} (B : Type ℓ) : Type ℓ where
  pub closed : Bool
  pub sequence : ℕ
  pub next_id : ℕ
  pub history : List (SessionEvent B)
  pub history_start : ℕ
  pub history_count : ℕ
  pub subscribers : List (ℕ × SubscriptionState B)
  pub max_subscribers : ℕ
  pub discarded : ℕ
  pub history_gaps : ℕ
  pub exhausted : Bool

pub record EventStats : Type 0 where
  pub sequence : ℕ
  pub history_entries : ℕ
  pub maximum_history : ℕ
  pub subscriptions : ℕ
  pub maximum_subscriptions : ℕ
  pub discarded_deliveries : ℕ
  pub history_gap_events : ℕ
  pub sequence_exhausted : Bool
  pub closed : Bool

unfoldable pub saturating_add : ℕ → ℕ → ℕ
saturating_add value increment =
    if ltb (max_uint64 - value) increment then max_uint64 else value + increment

module _ {ℓ} {B : Type ℓ} where
  -- The loop of offerEvent that empties a full queue.
  unfoldable pub drain : ℕ → List (SessionEvent B) → ℕ
  drain dropped [] = dropped
  drain dropped (e ∷ es) = drain (saturating_add dropped (saturating_add e.dropped 1)) es

  -- The subscriber behind the offer, and the deliveries that were discarded.
  unfoldable pub offer_event : SubscriptionState B → SessionEvent B → SubscriptionState B × ℕ
  offer_event s e =
      if ltb (length s.events) s.capacity
      then (
        record s {
          events = s.events ++ record e { dropped = s.pending_dropped } ∷ [];
          pending_dropped = 0;
        },
        0,
      )
      else (
        record s {
          events = record e { dropped = drain s.pending_dropped s.events } ∷ [];
          pending_dropped = 0;
        },
        length s.events,
      )

  unfoldable pub append_history : EventHub B → SessionEvent B → EventHub B
  append_history h e =
      if ltb h.history_count (length h.history)
      then record h {
        history = set_at h.history ((h.history_start + h.history_count) % length h.history) e;
        history_count = h.history_count + 1;
      }
      else record h {
        history = set_at h.history h.history_start e;
        history_start = (h.history_start + 1) % length h.history;
      }

  -- The loop of publish over the subscribers, with the count of discarded deliveries.
  unfoldable pub offer_all :
      ℕ → List (ℕ × SubscriptionState B) → SessionEvent B → List (ℕ × SubscriptionState B) × ℕ
  offer_all discarded [] e = ([], discarded)
  offer_all discarded (s ∷ ss) e =
      let (s', n) = offer_event s.1 e in
      let rest = offer_all (saturating_add discarded n) ss e in ((s.0, s') ∷ rest.0, rest.1)

  unfoldable pub publish : EventHub B → SessionEvent B → EventHub B
  publish h e =
      let e' : SessionEvent B = record e { sequence = h.sequence + 1; dropped = 0 } in
      let h' = append_history (record h { sequence = h.sequence + 1 }) e' in
      let offered = offer_all h'.discarded h'.subscribers e' in
      if h.closed
      then h
      else if h.sequence == max_uint64
      then record h { exhausted = true; closed = true; subscribers = [] }
      else record h' { subscribers = offered.0; discarded = offered.1 }

  unfoldable pub without : ℕ → List (ℕ × SubscriptionState B) → List (ℕ × SubscriptionState B)
  without id [] = []
  without id (s ∷ ss) = let rest = without id ss in if s.0 == id then rest else s ∷ rest

  unfoldable pub unsubscribe : EventHub B → ℕ → EventHub B
  unsubscribe h id = record h { subscribers = without id h.subscribers }

  unfoldable pub close : EventHub B → EventHub B
  close h = if h.closed then h else record h { closed = true; subscribers = [] }

  unfoldable pub event_stats : EventHub B → EventStats
  event_stats h = record {
    sequence = h.sequence;
    history_entries = h.history_count;
    maximum_history = length h.history;
    subscriptions = length h.subscribers;
    maximum_subscriptions = h.max_subscribers;
    discarded_deliveries = h.discarded;
    history_gap_events = h.history_gaps;
    sequence_exhausted = h.exhausted;
    closed = h.closed;
  }
