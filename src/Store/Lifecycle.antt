-- ===== src/Store/Lifecycle.antt =====
-- document/store/tree.go: the constructor, Restore and SetSource.
use docengine.Prelude.{
  >>=-eq-ok, >>-eq-ok, ok-injective, ok, fail_if, ℕ, ◌≤◌, ◌<◌, ◌≡◌, ◌≢◌, refl, ◌&&◌, ltb, arith,
  max_int64, to_ℕ, Option, ap, subst, length, ◌⊎◌,
}
use docengine.Store.Node.{source_base, Piece, node_piece_count, pieces}
use docengine.Store.Content.{piece_cells, node_bytes-length, length-run_cells}
use docengine.Store.Splice.{middle-cells, middle-IsSound}
use docengine.Store.Edit.{piece_of-IsPiece}
use docengine.Store.Tree.{
  initial, unknown_source, Tree, PieceArg, Options, resolve_options, normalize_piece,
  validate_piece, piece_of, new_with_base_piece_options, restore, set_source, snapshot, is_nil,
  maybe_auto_compact,
}
use docengine.Store.Order.{IsPiece}
use docengine.Store.Compact.{IsCompact}
use docengine.Store.Auto.{due-IsCompact}
use docengine.Store.Invariant.{IsValid, document}

-- A resolved limit is off or at least 2.
pub resolve_options_lem :
    (o : Options) {n : ℕ}
    → to_ℕ o.auto_compact_pieces ≤ max_int64
    → resolve_options o ≡ ok n
    → (n ≢ 1) × (n ≤ max_int64)
unfolding resolve_options
resolve_options_lem o k h = ground arith

normalize_piece-length : (p : PieceArg) → (normalize_piece p).length ≡ p.length
unfolding normalize_piece
normalize_piece-length p = ground arith

module _ {ℓ} {R : Type ℓ} where
  restore-IsValid :
      (t : Tree R) (s : Tree R) → IsValid t → IsValid s → IsValid (restore t (snapshot s))
  unfolding restore snapshot
  restore-IsValid t s v w = ground arith

  -- Restoring the snapshot of a valid tree into a valid tree gives a valid tree whose snapshot is
  -- that one, with the sources, and whose document is that of the snapshot; and where automatic
  -- compaction is on and the restored tree has at least as many pieces as the limit, the next
  -- automatic step leaves no two neighbouring pieces that are contiguous bytes of one source.
  pub restore_lem :
      (t : Tree R) (s : Tree R)
      → IsValid t
      → IsValid s
      → IsValid (restore t (snapshot s))
        × (snapshot (restore t (snapshot s)) ≡ snapshot s)
        × (document (restore t (snapshot s)) ≡ document s)
        × ((t.auto_compact_pieces ≡ 0)
            ⊎ (node_piece_count s.root < t.auto_compact_pieces)
            ⊎ IsCompact (pieces (maybe_auto_compact (restore t (snapshot s))).root))
  unfolding restore snapshot
  restore_lem t s v w =
      let valid : IsValid (restore t (snapshot s)) = restore-IsValid t s v w in
      (valid, refl, refl, due-IsCompact (restore t (snapshot s)) valid refl)

  pub set_source-IsValid :
      (t : Tree R) (id : ℕ) (source : Option R) → IsValid t → IsValid (set_source t id source)
  unfolding set_source
  set_source-IsValid t id source v = ground arith

  initial_lem :
      (base : Option R) (p : Piece) (limit : ℕ)
      → (0 < p.length → IsPiece p)
      → p.length ≤ max_int64
      → limit ≢ 1
      → limit ≤ max_int64
      → IsValid (initial base p limit) × (document (initial base p limit) ≡ piece_cells p)
  unfolding initial
  initial_lem base p limit h fits off two =
      let s = middle-IsSound 0x9e3779b97f4a7c15 p h in
      let c = middle-cells 0x9e3779b97f4a7c15 p in
      (
        record {
          sound = s;
          fits = omega (
            arith,
            node_bytes-length _ s.cached,
            ap length c,
            length-run_cells p.source p.offset p.length,
          );
          limit = off;
          limit_fits = two;
          scheduled = omega arith;
        },
        c,
      )

  -- A tree that the constructor returns, from an int64 option and piece length, satisfies the
  -- invariant and stands for the whole base piece.
  pub new_lem :
      (base : Option R) (piece : PieceArg) (o : Options) (t : Tree R)
      → to_ℕ o.auto_compact_pieces ≤ max_int64
      → to_ℕ piece.length ≤ max_int64
      → new_with_base_piece_options base piece o ≡ ok t
      → IsValid t
        × (document t
            ≡ piece_cells (piece_of (normalize_piece (record piece { source = source_base }))))
  unfolding new_with_base_piece_options
  new_lem base piece o t ho hp h =
      let p = normalize_piece (record piece { source = source_base }) in
      let (limit, resolved, h1) = >>=-eq-ok (resolve_options o) _ h in
      let (checked, h2) = >>-eq-ok (validate_piece p) _ h1 in
      let (found, h3) =
        >>-eq-ok (fail_if (ltb 0 (to_ℕ p.length) && is_nil base) unknown_source) _ h2 in
      let l = resolve_options_lem o ho resolved in
      let small : to_ℕ p.length ≤ max_int64 =
        rw (normalize_piece-length (record piece { source = source_base })) hp in
      subst (λ z. IsValid z × (document z ≡ piece_cells (piece_of p))) (ok-injective h3)
        (initial_lem base (piece_of p) limit (λ k. piece_of-IsPiece _ checked k small) small l.0
          l.1)
