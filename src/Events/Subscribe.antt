-- ===== src/Events/Subscribe.antt =====
-- document/events.go: eventHub.subscribe, which replays the retained events to a new subscriber.
use docengine.Prelude.{
  ℕ, zero, suc, ◌+◌, ◌-◌, ◌%◌, Bool, false, not, ◌&&◌, ◌||◌, ltb, leb, ◌==◌, if◌then◌else◌, List,
  [], ◌∷◌, ◌++◌, length, u64_mod, ℤ, is_negative, is_zero, to_ℕ, Result, ok, err,
}
use docengine.History.Ring.{window}
use docengine.Events.Hub.{SessionEvent, SubscriptionState, EventHub, saturating_add, offer_event}

abbrev pub default_subscription_buffer : ℕ
default_subscription_buffer = 64

abbrev pub maximum_subscription_buffer : ℕ
maximum_subscription_buffer = 4096

pub data SubscribeError : Type 0 where
  invalid_subscription hub_closed event_sequence limit_exceeded : SubscribeError

pub record SubscribeOptions : Type 0 where
  pub buffer : ℤ
  pub after_sequence : ℕ
  pub future_only : Bool

module _ {ℓ} {B : Type ℓ} where
  abbrev pub has_id : ℕ → List (ℕ × SubscriptionState B) → Bool
  has_id id [] = false
  has_id id (s ∷ ss) = s.0 == id || has_id id ss

  -- nextSubscriptionID: the ids are tried in turn, 0 left out. One more than there are subscribers is
  -- the number of rounds.
  unfoldable pub next_subscription_id : ℕ → ℕ → List (ℕ × SubscriptionState B) → ℕ
  next_subscription_id zero id ss = id
  next_subscription_id (suc fuel) id ss =
      let up = (id + 1) % u64_mod in
      let tried = if up == 0 then 1 else up in
      let rest = next_subscription_id fuel tried ss in if has_id tried ss then rest else tried

  -- The loop over the retained events, with the count of discarded deliveries.
  unfoldable pub offer_retained :
      ℕ → SubscriptionState B → ℕ → List (SessionEvent B) → SubscriptionState B × ℕ
  offer_retained after s discarded [] = (s, discarded)
  offer_retained after s discarded (e ∷ es) =
      let o = offer_event s e in
      let offered = offer_retained after o.0 (saturating_add discarded o.1) es in
      let skipped_over = offer_retained after s discarded es in
      if ltb after e.sequence then offered else skipped_over

  -- The events behind `after` that are not retained any more.
  abbrev pub gap_before : EventHub B → ℕ → ℕ
  gap_before h after =
      let earliest = h.sequence - h.history_count + 1 in
      if ltb after (earliest - 1) then earliest - after - 1 else 0

  -- The new subscriber with its replay, and the hub with the counts of it.
  unfoldable pub replayed : SessionEvent B → EventHub B → ℕ → ℕ → SubscriptionState B × EventHub B
  replayed z h after buffer =
      let gap = gap_before h after in
      let blank : SubscriptionState B = record {
        events = [];
        capacity = buffer;
        pending_dropped = 0;
      } in
      let r =
        offer_retained after (record blank { pending_dropped = gap }) h.discarded
          (window z h.history h.history_start 0 h.history_count) in
      if ltb 0 h.history_count && ltb after h.sequence
      then (
        r.0,
        record h {
          discarded = r.1;
          history_gaps = if gap == 0 then h.history_gaps else saturating_add h.history_gaps gap;
        },
      )
      else (blank, h)

  abbrev pub subscribed :
      SubscriptionState B × EventHub B → ℕ → ℕ × SubscriptionState B × EventHub B
  subscribed (s, h) id =
      (id, s, record h { next_id = id; subscribers = h.subscribers ++ (id, s) ∷ [] })

  unfoldable pub subscribe :
      SessionEvent B
      → EventHub B
      → SubscribeOptions
      → Result SubscribeError (ℕ × SubscriptionState B × EventHub B)
  subscribe z h options =
      let buffer =
        if is_zero options.buffer then ℤ.pos default_subscription_buffer else options.buffer in
      let after = if options.future_only then h.sequence else options.after_sequence in
      let id = next_subscription_id (length h.subscribers + 1) h.next_id h.subscribers in
      if is_negative buffer
        || (ltb maximum_subscription_buffer (to_ℕ buffer)
            || (options.future_only && not (options.after_sequence == 0)))
      then err invalid_subscription
      else if h.closed
      then err hub_closed
      else if ltb h.sequence options.after_sequence
      then err event_sequence
      else if leb h.max_subscribers (length h.subscribers)
      then err limit_exceeded
      else ok (subscribed (replayed z h after (to_ℕ buffer)) id)
