-- ===== src/Store/Auto.antt =====
-- document/store/tree.go: the automatic compaction pass of maybeAutoCompactLocked.
use docengine.Prelude.{
  ℕ, ◌+◌, ◌≤◌, ◌<◌, ◌%◌, ◌≡◌, ◌≢◌, refl, sym, ap, ◌∙◌, ◌⊎◌, inl, inr, ltb, ◌==◌, Bool-cases, ltb→lt,
  ltb→ge, ==→eq, ==→ne, arith, max_int64, u64_mod, min, subst,
}
use docengine.Store.Node.{node_piece_count, pieces}
use docengine.Store.Content.{cells}
use docengine.Store.Compact.{IsCompact}
use docengine.Store.Tree.{Tree, compact_locked, schedule_next, maybe_auto_compact}
use docengine.Store.Invariant.{
  IsValid, document, compact_locked-Compacts, schedule_next-IsValid, schedule_next-root,
  Compacts-IsValid,
}

module _ {ℓ} {R : Type ℓ} where
  -- The tree after a pass that ran.
  abbrev passed : Tree R → Tree R
  passed t =
      let t' = (compact_locked t).0 in
      schedule_next (record t' { auto_compactions = (t'.auto_compactions + 1) % u64_mod })
        (compact_locked t).1.after_pieces

  maybe_auto_compact_cases {κ} :
      (P : Tree R → Type κ) (t : Tree R)
      → (t.auto_compact_pieces ≡ 0 → P t)
      → (node_piece_count t.root < t.auto_compact_pieces
          → P (record t { next_auto_compact_pieces = t.auto_compact_pieces }))
      → (node_piece_count t.root < t.next_auto_compact_pieces → P t)
      → (t.auto_compact_pieces ≢ 0
          → t.next_auto_compact_pieces ≤ node_piece_count t.root
          → P (passed t))
      → P (maybe_auto_compact t)
  unfolding maybe_auto_compact
  maybe_auto_compact_cases P t off low backoff pass =
      elim (Bool-cases (t.auto_compact_pieces == 0)) [
        | inl e ↦ rw e (off (==→eq _ _ e))
        | inr e ↦ elim (Bool-cases (ltb (node_piece_count t.root) t.auto_compact_pieces)) [
          | inl f ↦ rw (e, f) (low (ltb→lt _ _ f))
          | inr f ↦ elim (Bool-cases (ltb (node_piece_count t.root) t.next_auto_compact_pieces)) [
            | inl g ↦ rw (e, f, g) (backoff (ltb→lt _ _ g))
            | inr g ↦ rw (e, f, g) (pass (==→ne _ _ e) (ltb→ge _ _ g))
          ]
        ]
      ]

  counted-IsValid : (t : Tree R) (k : ℕ) → IsValid t → IsValid (record t { auto_compactions = k })
  counted-IsValid t k v = ground arith

  -- On a valid tree the automatic compaction pass keeps the invariant and the document on every
  -- branch.
  pub maybe_auto_compact_lem :
      (t : Tree R)
      → IsValid t
      → IsValid (maybe_auto_compact t) × (document (maybe_auto_compact t) ≡ document t)
  maybe_auto_compact_lem t v =
      let c = compact_locked-Compacts t v.sound in
      let t' = (compact_locked t).0 in
      maybe_auto_compact_cases (λ z. IsValid z × (document z ≡ document t)) t (λ _. (v, refl))
        (λ _. (ground arith, refl)) (λ _. (v, refl))
        (λ _ _. (
          schedule_next-IsValid _ _ (counted-IsValid t' _ (Compacts-IsValid t t' _ c v)),
          ap cells (schedule_next-root _ _) ∙ c.same_document,
        ))

  -- The trigger of a tree is set anew: the limit below it, and from it on the piece count and as
  -- many again as the limit, as far as an int64 goes.
  abbrev pub IsScheduled : Tree R → Type 0
  IsScheduled t =
      ((node_piece_count t.root < t.auto_compact_pieces)
        × (t.next_auto_compact_pieces ≡ t.auto_compact_pieces))
      ⊎ ((t.auto_compact_pieces ≤ node_piece_count t.root)
          × (t.next_auto_compact_pieces
              ≡ min max_int64 (node_piece_count t.root + t.auto_compact_pieces)))

  schedule_next-IsScheduled :
      (t : Tree R) (n : ℕ)
      → node_piece_count t.root ≡ n
      → t.auto_compact_pieces ≢ 0
      → t.auto_compact_pieces ≤ max_int64
      → IsScheduled (schedule_next t n)
  unfolding schedule_next
  schedule_next-IsScheduled t n e h fits = ground arith

  -- On a valid tree with automatic compaction on, the automatic step either finds the piece count
  -- below the next trigger and changes nothing, or leaves the trigger set anew for the new piece
  -- count: at the limit where the count is below the limit, and otherwise at the count and the
  -- limit together, or at the largest int64 where that is less.
  pub maybe_auto_compact_bounded :
      (t : Tree R)
      → IsValid t
      → t.auto_compact_pieces ≢ 0
      → ((node_piece_count t.root < t.next_auto_compact_pieces) × (maybe_auto_compact t ≡ t))
        ⊎ IsScheduled (maybe_auto_compact t)
  maybe_auto_compact_bounded t v h =
      let c = compact_locked-Compacts t v.sound in
      maybe_auto_compact_cases
        (λ z. ((node_piece_count t.root < t.next_auto_compact_pieces) × (z ≡ t)) ⊎ IsScheduled z) t
        (λ e. absurd (h e)) (λ e. inr (inl (e, refl))) (λ e. inl (e, refl))
        (λ _ _. inr (
          schedule_next-IsScheduled _ _ c.counted (λ e. h (sym c.same_limit ∙ e))
            (omega (arith, c.same_limit, v.limit_fits))))

  -- A pass that is due joins what can be joined.
  pub due-IsCompact :
      (t : Tree R)
      → IsValid t
      → t.next_auto_compact_pieces ≡ t.auto_compact_pieces
      → (t.auto_compact_pieces ≡ 0)
        ⊎ (node_piece_count t.root < t.auto_compact_pieces)
        ⊎ IsCompact (pieces (maybe_auto_compact t).root)
  due-IsCompact t v e =
      let c = compact_locked-Compacts t v.sound in
      maybe_auto_compact_cases
        (λ z.
          (t.auto_compact_pieces ≡ 0)
          ⊎ (node_piece_count t.root < t.auto_compact_pieces)
          ⊎ IsCompact (pieces z.root))
        t (λ off. inl off) (λ low. inr (inl low)) (λ low. inr (inl (omega (arith, low, e))))
        (λ _ _.
          inr (inr (subst (λ n. IsCompact (pieces n)) (sym (schedule_next-root _ _)) c.no_joins)))
