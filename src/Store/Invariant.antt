-- ===== src/Store/Invariant.antt =====
-- document/store/tree.go: what every operation of the tree keeps.
use docengine.Prelude.{
  ℕ, ◌≤◌, ◌<◌, ◌≡◌, ◌≢◌, refl, sym, ap, ◌∙◌, subst, inl, inr, ltb→lt, ltb, Bool-cases, List, [],
  ◌∷◌, arith, length, All, max_int64, max_uint64,
}
use docengine.Store.Node.{Piece, Node, nil, node_bytes, node_piece_count, pieces}
use docengine.Store.Content.{Cell, cells, cells_of, cells-pieces, IsCached, node_bytes-length}
use docengine.Store.Order.{IsPiece, IsHeap, AllPieces}
use docengine.Store.Compact.{
  IsCompact, coalesce-cells, coalesce-IsCompact, coalesce-IsPiece, length-coalesce-le,
}
use docengine.Store.Rebuild.{
  node_piece_count-length, rebuild-pieces, rebuild-IsCached, rebuild-IsHeap,
}
use docengine.Store.Tree.{Tree, compact_locked, schedule_next, compact, coalesce, rebuild}

module _ {ℓ} {R : Type ℓ} where
  -- The document of a tree: each byte by the source that holds it.
  abbrev pub document : Tree R → List Cell
  document t = cells t.root

pub record IsSound (root : Node) : Type 0 where
  pub cached : IsCached root
  pub heap : IsHeap max_uint64 root
  pub valid_pieces : AllPieces root

pub record IsValid {ℓ} {R : Type ℓ} (t : Tree R) : Type 0 where
  pub sound : IsSound t.root
  pub fits : node_bytes t.root ≤ max_int64
  pub limit : t.auto_compact_pieces ≢ 1
  pub limit_fits : t.auto_compact_pieces ≤ max_int64
  pub scheduled : t.auto_compact_pieces ≤ t.next_auto_compact_pieces

-- The root that `compactLocked` builds.
abbrev pub compacted : ℕ → Node → Node
compacted rng root = (rebuild rng nil (coalesce (pieces root))).1

compacted-pieces : (rng : ℕ) (root : Node) → pieces (compacted rng root) ≡ coalesce (pieces root)
unfolding pieces
compacted-pieces rng root = rebuild-pieces rng nil (coalesce (pieces root))

pub compacted-cells : (rng : ℕ) (root : Node) → cells (compacted rng root) ≡ cells root
compacted-cells rng root =
    cells-pieces (compacted rng root)
    ∙ ap cells_of (compacted-pieces rng root)
    ∙ coalesce-cells (pieces root)
    ∙ sym (cells-pieces root)

pub compacted-IsSound : (rng : ℕ) (root : Node) → IsSound root → IsSound (compacted rng root)
compacted-IsSound rng root s = record {
  cached = rebuild-IsCached rng nil (coalesce (pieces root)) tt;
  heap = rebuild-IsHeap rng nil (coalesce (pieces root)) tt;
  valid_pieces =
      subst (All IsPiece) (sym (compacted-pieces rng root))
        (coalesce-IsPiece (pieces root) s.valid_pieces);
}

compacted-bytes :
    (rng : ℕ) (root : Node) → IsSound root → node_bytes (compacted rng root) ≡ node_bytes root
compacted-bytes rng root s =
    node_bytes-length (compacted rng root) (compacted-IsSound rng root s).cached
    ∙ ap length (compacted-cells rng root)
    ∙ sym (node_bytes-length root s.cached)

compacted-count :
    (rng : ℕ) (root : Node)
    → IsSound root
    → node_piece_count (compacted rng root) ≡ length (coalesce (pieces root))
compacted-count rng root s =
    node_piece_count-length (compacted rng root) (compacted-IsSound rng root s).cached
    ∙ ap length (compacted-pieces rng root)

IsCompact-few : (ps : List Piece) → length ps < 2 → IsCompact ps
IsCompact-few [] h = tt
IsCompact-few (p ∷ []) h = tt
IsCompact-few (p ∷ q ∷ ps) h = absurd (omega arith)

-- What compaction does: `t'` is the tree behind it, and `n` the count that it reports.
pub record Compacts {ℓ} {R : Type ℓ} (t t' : Tree R) (n : ℕ) : Type ℓ where
  pub same_document : document t' ≡ document t
  pub sound : IsSound t'.root
  pub same_bytes : node_bytes t'.root ≡ node_bytes t.root
  pub counted : node_piece_count t'.root ≡ n
  pub shrinks : n ≤ node_piece_count t.root
  pub no_joins : IsCompact (pieces t'.root)
  pub same_sources : t'.sources ≡ t.sources
  pub same_limit : t'.auto_compact_pieces ≡ t.auto_compact_pieces
  pub same_next : t'.next_auto_compact_pieces ≡ t.next_auto_compact_pieces

module _ {ℓ} {R : Type ℓ} where
  pub compact_locked-Compacts :
      (t : Tree R)
      → IsSound t.root
      → Compacts t (compact_locked t).0 (compact_locked t).1.after_pieces
  unfolding compact_locked
  compact_locked-Compacts t s = elim (Bool-cases (ltb (node_piece_count t.root) 2)) [
    | inl e ↦
        rw (e, compact_locked)
          (record {
            same_document = refl;
            sound = s;
            same_bytes = refl;
            counted = refl;
            shrinks = omega arith;
            no_joins =
                IsCompact-few (pieces t.root)
                  (omega (arith, node_piece_count-length t.root s.cached, ltb→lt _ _ e));
            same_sources = refl;
            same_limit = refl;
            same_next = refl;
          })
    | inr e ↦
        rw (e, compact_locked)
          (record {
            same_document = compacted-cells t.rng t.root;
            sound = compacted-IsSound t.rng t.root s;
            same_bytes = compacted-bytes t.rng t.root s;
            counted = compacted-count t.rng t.root s;
            shrinks = omega (
              arith,
              node_piece_count-length t.root s.cached,
              length-coalesce-le (pieces t.root),
            );
            no_joins =
                subst IsCompact (sym (compacted-pieces t.rng t.root))
                  (coalesce-IsCompact (pieces t.root));
            same_sources = refl;
            same_limit = refl;
            same_next = refl;
          })
  ]

  pub schedule_next-IsValid : (t : Tree R) (n : ℕ) → IsValid t → IsValid (schedule_next t n)
  unfolding schedule_next
  schedule_next-IsValid t n v = ground arith

  schedule_next-document : (t : Tree R) (n : ℕ) → document (schedule_next t n) ≡ document t
  unfolding schedule_next
  schedule_next-document t n = ground arith

  pub schedule_next-root : (t : Tree R) (n : ℕ) → (schedule_next t n).root ≡ t.root
  unfolding schedule_next
  schedule_next-root t n = ground arith

  pub Compacts-IsValid : (t t' : Tree R) (n : ℕ) → Compacts t t' n → IsValid t → IsValid t'
  Compacts-IsValid t t' n c v = record {
    sound = c.sound;
    fits = omega (arith, c.same_bytes, v.fits);
    limit = λ e. v.limit (sym c.same_limit ∙ e);
    limit_fits = omega (arith, c.same_limit, v.limit_fits);
    scheduled = omega (arith, c.same_limit, c.same_next, v.scheduled);
  }

  -- On a valid tree Compact keeps the invariant and the document, leaves no two neighbouring pieces
  -- that are contiguous bytes of one source, and reports the new piece count, which is at most the
  -- old one.
  pub compact_lem :
      (t : Tree R)
      → IsValid t
      → IsValid (compact t).0
        × (document (compact t).0 ≡ document t)
        × IsCompact (pieces (compact t).0.root)
        × (node_piece_count (compact t).0.root ≡ (compact t).1.after_pieces)
        × ((compact t).1.after_pieces ≤ node_piece_count t.root)
  unfolding compact
  compact_lem t v =
      let (t', result) = compact_locked t in
      let c = compact_locked-Compacts t v.sound in
      let e = schedule_next-root t' result.after_pieces in
      (
        schedule_next-IsValid t' result.after_pieces (Compacts-IsValid t t' _ c v),
        ap cells e ∙ c.same_document,
        subst (λ n. IsCompact (pieces n)) (sym e) c.no_joins,
        ap node_piece_count e ∙ c.counted,
        c.shrinks,
      )
