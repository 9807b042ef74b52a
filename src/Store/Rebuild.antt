-- ===== src/Store/Rebuild.antt =====
-- document/store/tree.go: the pieces of a tree that is built anew, and of a new node.
use docengine.Prelude.{
  ℕ, ◌≡◌, refl, sym, ap, ◌∙◌, List, [], ◌∷◌, ◌++◌, append-nil, append_assoc, arith, length,
  length-append, max_uint64,
}
use docengine.Store.Node.{
  Piece, Node, nil, node, node_piece_count, Summary, merge, pieces, priority_of,
}
use docengine.Store.Content.{IsCached, pieces-merge, merge-IsCached}
use docengine.Store.Order.{IsHeap, merge-IsHeap}
use docengine.Store.Tree.{rebuild, make_node}

-- The piece count that a node caches is the number of its pieces.
pub node_piece_count-length : (t : Node) → IsCached t → node_piece_count t ≡ length (pieces t)
unfolding pieces
node_piece_count-length nil c = refl
node_piece_count-length (node p pr l r s) c = omega (
  arith,
  ap (λ (z : Summary). z.piece_count) c.0,
  node_piece_count-length l c.1,
  node_piece_count-length r c.2,
  length-append (pieces l) (p ∷ pieces r),
)

-- A new node: its piece alone, with fresh totals and a priority below 2^64.
pub make_node-pieces : (rng : ℕ) (p : Piece) → pieces (make_node rng p nil nil).1 ≡ p ∷ []
unfolding make_node pieces
make_node-pieces rng p = refl

pub make_node-IsCached : (rng : ℕ) (p : Piece) → IsCached (make_node rng p nil nil).1
unfolding make_node
make_node-IsCached rng p = (refl, tt, tt)

pub make_node-IsHeap : (rng : ℕ) (p : Piece) → IsHeap max_uint64 (make_node rng p nil nil).1
unfolding make_node priority_of
make_node-IsHeap rng p = (omega arith, tt, tt)

pub rebuild-pieces :
    (rng : ℕ) (root : Node) (ps : List Piece) → pieces (rebuild rng root ps).1 ≡ pieces root ++ ps
unfolding rebuild
rebuild-pieces rng root [] = sym (append-nil (pieces root))
rebuild-pieces rng root (p ∷ ps) =
    let n = (make_node rng p nil nil).1 in
    rebuild-pieces (make_node rng p nil nil).0 (merge root n) ps
    ∙ ap (◌++ ps) (pieces-merge root n ∙ ap (pieces root ++◌) (make_node-pieces rng p))
    ∙ append_assoc (pieces root) (p ∷ []) ps

pub rebuild-IsCached :
    (rng : ℕ) (root : Node) (ps : List Piece) → IsCached root → IsCached (rebuild rng root ps).1
unfolding rebuild
rebuild-IsCached rng root [] c = c
rebuild-IsCached rng root (p ∷ ps) c =
    rebuild-IsCached (make_node rng p nil nil).0 (merge root (make_node rng p nil nil).1) ps
      (merge-IsCached root (make_node rng p nil nil).1 c (make_node-IsCached rng p))

pub rebuild-IsHeap :
    (rng : ℕ) (root : Node) (ps : List Piece)
    → IsHeap max_uint64 root
    → IsHeap max_uint64 (rebuild rng root ps).1
unfolding rebuild
rebuild-IsHeap rng root [] c = c
rebuild-IsHeap rng root (p ∷ ps) c =
    rebuild-IsHeap (make_node rng p nil nil).0 (merge root (make_node rng p nil nil).1) ps
      (merge-IsHeap root (make_node rng p nil nil).1 max_uint64 c (make_node-IsHeap rng p))
