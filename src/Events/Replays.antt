-- ===== src/Events/Replays.antt =====
-- document/events.go: a new subscriber is told of every event behind the one that it asks for.
use docengine.Prelude.{
  passed, ||_false, ℕ, zero, suc, ◌+◌, ◌-◌, max, ◌≤◌, ◌<◌, ◌≡◌, refl, ◌∙◌, subst, Bool, true, false,
  not, ◌&&◌, ◌||◌, ◌==◌, leb, ltb, ltb→lt, ltb→ge, lt→ltb, Bool-cases, if◌then◌else◌, inl, inr,
  List, [], ◌∷◌, arith, length, max_uint64, is_negative, is_zero, to_ℕ, ℤ, ok, ok-injective,
}
use docengine.History.Ring.{window}
use docengine.Events.Hub.{SessionEvent, SubscriptionState, EventHub, saturating_add, offer_event}
use docengine.Events.Delivery.{accounted, offer_event_lem}
use docengine.Events.Subscribe.{
  SubscribeOptions, gap_before, offer_retained, replayed, subscribe, subscribed,
  default_subscription_buffer, maximum_subscription_buffer, next_subscription_id,
  invalid_subscription, hub_closed, event_sequence, limit_exceeded,
}

buffer_room :
    (b : ℤ)
    → is_negative (if is_zero b then ℤ.pos default_subscription_buffer else b) ≡ false
    → 0 < to_ℕ (if is_zero b then ℤ.pos default_subscription_buffer else b)
buffer_room (ℤ.pos zero) h = omega arith
buffer_room (ℤ.pos (suc n)) h = omega arith
buffer_room (ℤ.negsuc n) h = cc

&&_false_right : (a : Bool) → (a && false) ≡ false
&&_false_right true = refl
&&_false_right false = refl

module _ {ℓ} {B : Type ℓ} where
  -- Events that are numbered one after the other, the first behind `from`.
  abbrev pub Numbered : ℕ → List (SessionEvent B) → Type 0
  Numbered from [] = Unit {0}
  Numbered from (e ∷ es) = (e.sequence ≡ from + 1) × Numbered (from + 1) es

  offer_event-capacity :
      (s : SubscriptionState B) (e : SessionEvent B) → (offer_event s e).0.capacity ≡ s.capacity
  unfolding offer_event
  offer_event-capacity s e = elim (Bool-cases (ltb (length s.events) s.capacity)) [
    | inl h ↦ rw h refl
    | inr h ↦ rw h refl
  ]

  offer_retained_lem :
      (after from discarded : ℕ) (s : SubscriptionState B) (es : List (SessionEvent B))
      → Numbered from es
      → length s.events ≤ s.capacity
      → 0 < s.capacity
      → accounted s + length es ≤ max_uint64
      → accounted (offer_retained after s discarded es).0
        ≡ accounted s + (from + length es - max after from)
  unfolding offer_retained
  offer_retained_lem after from discarded s [] n fits some_room few = omega arith
  offer_retained_lem after from discarded s (e ∷ es) n fits some_room few =
      elim (Bool-cases (ltb after e.sequence)) [
        | inl h ↦
            let o = offer_event_lem s e fits some_room (omega (arith, few)) in
            let c = offer_event-capacity s e in
            let less = ltb→lt _ _ h in
            rw h (
              offer_retained_lem after (from + 1) (saturating_add discarded (offer_event s e).1)
                (offer_event s e).0 es n.1 (omega (arith, o.2, c)) (omega (arith, some_room, c))
                (omega (arith, few, o.0))
              ∙ omega (arith, o.0, less, n.0))
        | inr h ↦
            let more = ltb→ge _ _ h in
            rw h (
              offer_retained_lem after (from + 1) discarded s es n.1 fits some_room
                (omega (arith, few))
              ∙ omega (arith, more, n.0))
      ]

  -- A hub that retains its last events, one at least where it has published any.
  pub record Retains (z : SessionEvent B) (h : EventHub B) : Type ℓ where
    pub numbered :
        Numbered
          (h.sequence - h.history_count)
          (window z h.history h.history_start 0 h.history_count)
    pub counted_events :
        length (window z h.history h.history_start 0 h.history_count) ≡ h.history_count
    pub bounded : h.history_count ≤ h.sequence
    pub sequence_fits : h.sequence ≤ max_uint64
    pub some_kept : 0 < h.sequence → 0 < h.history_count

  replayed_lem :
      (z : SessionEvent B) (h : EventHub B) (after buffer : ℕ)
      → Retains z h
      → after ≤ h.sequence
      → 0 < buffer
      → accounted (replayed z h after buffer).0 ≡ h.sequence - after
  unfolding replayed
  replayed_lem z h after buffer v le some_room =
      let from = h.sequence - h.history_count in
      let events = window z h.history h.history_start 0 h.history_count in
      let blank : SubscriptionState B = record {
        events = [];
        capacity = buffer;
        pending_dropped = gap_before h after;
      } in
      let gap : gap_before h after ≡ max after from - after = ground (arith, v.bounded) in
      elim (Bool-cases (ltb after h.sequence)) [
        | inr e ↦ rw (e, &&_false_right (ltb 0 h.history_count)) (omega (arith, ltb→ge _ _ e))
        | inl e ↦
            let kept = v.some_kept (omega (arith, ltb→lt _ _ e)) in
            rw (e, lt→ltb 0 h.history_count kept)
              (offer_retained_lem after from h.discarded blank events v.numbered (omega arith)
                  some_room (omega (arith, gap, v.counted_events, v.bounded, v.sequence_fits, le))
                ∙ omega (arith, gap, v.counted_events, v.bounded, le))
      ]

  subscribed_lem :
      {n : ℕ} (p : SubscriptionState B × EventHub B) (id : ℕ)
      → accounted p.0 ≡ n
      → accounted (subscribed p id).1 ≡ n
  subscribed_lem (s, h) id e = e

  -- Where subscribe of a hub that retains its last events succeeds, the events in the new
  -- subscriber's queue and those that it is told were dropped are, in number, exactly the events
  -- published behind the one that it asked to resume after; none for a subscription to future
  -- events only.
  pub subscribe_lem :
      (z : SessionEvent B) (h : EventHub B) (options : SubscribeOptions)
      (r : ℕ × SubscriptionState B × EventHub B)
      → Retains z h
      → subscribe z h options ≡ ok r
      → accounted r.1
        ≡ h.sequence - (if options.future_only then h.sequence else options.after_sequence)
  unfolding subscribe
  subscribe_lem z h options r v e =
      let buffer =
        if is_zero options.buffer then ℤ.pos default_subscription_buffer else options.buffer in
      let after = if options.future_only then h.sequence else options.after_sequence in
      let id = next_subscription_id (length h.subscribers + 1) h.next_id h.subscribers in
      let (g1, h1) =
        passed
          (is_negative buffer
            || (ltb maximum_subscription_buffer (to_ℕ buffer)
                || (options.future_only && not (options.after_sequence == 0))))
          invalid_subscription _ e in
      let (g2, h2) = passed h.closed hub_closed _ h1 in
      let (g3, h3) = passed (ltb h.sequence options.after_sequence) event_sequence _ h2 in
      let (g4, h4) = passed (leb h.max_subscribers (length h.subscribers)) limit_exceeded _ h3 in
      let some_room = buffer_room options.buffer (||_false _ _ g1).0 in
      let le : after ≤ h.sequence = ground (arith, g3) in
      let same = ok-injective h4 in
      subst (λ (q : ℕ × SubscriptionState B × EventHub B). accounted q.1 ≡ h.sequence - after) same
        (subscribed_lem (replayed z h after (to_ℕ buffer)) id
          (replayed_lem z h after (to_ℕ buffer) v le some_room))
