-- ===== src/Events/Delivery.antt =====
-- document/events.go: what a subscriber is told of the events that it lost.
use docengine.Prelude.{
  ℕ, ◌+◌, ◌≤◌, ◌<◌, ◌≡◌, ◌∙◌, ltb, Bool-cases, inl, inr, List, [], ◌∷◌, ◌++◌, arith, length,
  max_uint64, ltb→lt, length-append,
}
use docengine.Events.Hub.{SessionEvent, SubscriptionState, saturating_add, drain, offer_event}

saturating_add_exact : (a b : ℕ) → a + b ≤ max_uint64 → saturating_add a b ≡ a + b
unfolding saturating_add
saturating_add_exact a b h = ground arith

module _ {ℓ} {B : Type ℓ} where
  -- The events that a queue stands for: those in it, and those that it reports as dropped.
  abbrev pub counted : List (SessionEvent B) → ℕ
  counted [] = 0
  counted (e ∷ es) = e.dropped + 1 + counted es

  abbrev pub accounted : SubscriptionState B → ℕ
  accounted s = s.pending_dropped + counted s.events

  counted-append : (xs ys : List (SessionEvent B)) → counted (xs ++ ys) ≡ counted xs + counted ys
  counted-append [] ys = omega arith
  counted-append (x ∷ xs) ys = omega (arith, counted-append xs ys)

  drain_lem :
      (n : ℕ) (es : List (SessionEvent B))
      → n + counted es ≤ max_uint64
      → drain n es ≡ n + counted es
  unfolding drain
  drain_lem n [] h = omega arith
  drain_lem n (e ∷ es) h =
      let one = saturating_add_exact e.dropped 1 (omega arith) in
      let both = saturating_add_exact n (e.dropped + 1) (omega arith) in
      rw (one, both) (drain_lem (n + (e.dropped + 1)) es (omega arith) ∙ omega arith)

  -- For a queue within a positive capacity whose count of events fits a uint64, an offer counts
  -- exactly one event more, as queued or as reported dropped; it discards exactly as many
  -- deliveries as the queue loses; and the queue stays within its capacity.
  pub offer_event_lem :
      (s : SubscriptionState B) (e : SessionEvent B)
      → length s.events ≤ s.capacity
      → 0 < s.capacity
      → accounted s ≤ max_uint64
      → (accounted (offer_event s e).0 ≡ accounted s + 1)
        × (length (offer_event s e).0.events + (offer_event s e).1 ≡ length s.events + 1)
        × (length (offer_event s e).0.events ≤ s.capacity)
  unfolding offer_event
  offer_event_lem s e fits some_room few = elim (Bool-cases (ltb (length s.events) s.capacity)) [
    | inl h ↦
        let e' : SessionEvent B = record e { dropped = s.pending_dropped } in
        let n = length-append s.events (e' ∷ []) in
        let k = counted-append s.events (e' ∷ []) in
        let room = ltb→lt _ _ h in rw h (omega (arith, k), omega (arith, n), omega (arith, n, room))
    | inr h ↦
        let d = drain_lem s.pending_dropped s.events few in
        rw (h, d) (omega arith, omega arith, omega arith)
  ]
