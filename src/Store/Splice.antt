-- ===== src/Store/Splice.antt =====
-- document/store/tree.go: the two cuts and two merges of ReplacePiece.
use docengine.Prelude.{
  ℕ, ◌+◌, ◌<◌, ◌≡◌, sym, ap, ap₂, ◌∙◌, inl, inr, ltb, Bool-cases, ltb→lt, ltb→ge, ◌++◌, append-nil,
  append_assoc, arith, take, drop, drop-drop, max_uint64, if◌then◌else◌, All, subst,
}
use docengine.Store.Node.{Piece, Node, nil, merge, pieces, split}
use docengine.Store.Content.{
  cells, piece_cells, cells-pieces, cells_of, cells-merge, IsCached, merge-IsCached,
}
use docengine.Store.Split.{split-Cuts, split-IsCached}
use docengine.Store.Order.{IsPiece, merge-IsHeap, merge-pieces, split-IsHeap, split-AllPieces}
use docengine.Store.Rebuild.{make_node-pieces, make_node-IsCached, make_node-IsHeap}
use docengine.Store.Tree.{spliced, make_node}
use docengine.Store.Invariant.{IsSound}

-- The node that the edit puts between the two cuts.
abbrev pub middle : ℕ → Piece → Node
middle rng p = if ltb 0 p.length then (make_node rng p nil nil).1 else nil

spliced-root :
    (rng : ℕ) (root : Node) (start deleted : ℕ) (p : Piece)
    → (spliced rng root start deleted p).1
      ≡ merge (merge (split root start).0 (middle rng p)) (split (split root start).1 deleted).1
unfolding spliced
spliced-root rng root start deleted p = ground arith

make_node-cells : (rng : ℕ) (p : Piece) → cells (make_node rng p nil nil).1 ≡ piece_cells p
unfolding cells_of
make_node-cells rng p =
    cells-pieces _ ∙ ap cells_of (make_node-pieces rng p) ∙ append-nil (piece_cells p)

pub middle-cells : (rng : ℕ) (p : Piece) → cells (middle rng p) ≡ piece_cells p
unfolding cells
middle-cells rng p = elim (Bool-cases (ltb 0 p.length)) [
  | inl e ↦ rw e (make_node-cells rng p)
  | inr e ↦ let z : p.length ≡ 0 = omega (arith, ltb→ge _ _ e) in rw (e, z)
]

pub middle-IsSound : (rng : ℕ) (p : Piece) → (0 < p.length → IsPiece p) → IsSound (middle rng p)
unfolding pieces
middle-IsSound rng p h = elim (Bool-cases (ltb 0 p.length)) [
  | inl e ↦ rw e (record {
    cached = make_node-IsCached rng p;
    heap = make_node-IsHeap rng p;
    valid_pieces = subst (All IsPiece) (sym (make_node-pieces rng p)) (h (ltb→lt _ _ e), tt);
  })
  | inr e ↦ rw e (record { cached = tt; heap = tt; valid_pieces = tt })
]

-- The document behind the two cuts and the two merges.
pub spliced-cells :
    (rng : ℕ) (root : Node) (start deleted : ℕ) (p : Piece)
    → IsCached root
    → cells (spliced rng root start deleted p).1
      ≡ take start (cells root) ++ (piece_cells p ++ drop (start + deleted) (cells root))
spliced-cells rng root start deleted p c =
    let (left_cut, tail_cut) = split-Cuts root start c in
    let (_, right_cut) = split-Cuts (split root start).1 deleted (split-IsCached root start c).1 in
    ap cells (spliced-root rng root start deleted p)
    ∙ cells-merge _ _
    ∙ ap₂ (◌++◌) (cells-merge _ _ ∙ ap₂ (◌++◌) left_cut (middle-cells rng p))
        (right_cut ∙ ap (drop deleted) tail_cut ∙ drop-drop deleted start (cells root))
    ∙ append_assoc (take start (cells root)) (piece_cells p) (drop (start + deleted) (cells root))

pub spliced-IsSound :
    (rng : ℕ) (root : Node) (start deleted : ℕ) (p : Piece)
    → IsSound root
    → (0 < p.length → IsPiece p)
    → IsSound (spliced rng root start deleted p).1
spliced-IsSound rng root start deleted p s h =
    let m = middle-IsSound rng p h in
    let c = split-IsCached root start s.cached in
    let o = split-IsHeap root start max_uint64 s.heap in
    let v = split-AllPieces root start s.valid_pieces in
    rw (spliced-root rng root start deleted p) (record {
      cached =
          merge-IsCached _ _ (merge-IsCached _ _ c.0 m.cached) (split-IsCached _ deleted c.1).1;
      heap =
          merge-IsHeap _ _ max_uint64 (merge-IsHeap _ _ max_uint64 o.0 m.heap)
            (split-IsHeap _ deleted max_uint64 o.1).1;
      valid_pieces =
          merge-pieces _ _ (merge-pieces _ _ v.0 m.valid_pieces) (split-AllPieces _ deleted v.1).1;
    })
