-- ===== src/Store/Node.antt =====
-- document/store/tree.go: Piece, node and the treap functions on them.
-- A nil pointer is `nil`; the cached totals of a node are its `Summary`. All quantities of a piece
-- in the tree have passed `validate_piece`, so they are natural numbers.
use docengine.Prelude.{
  ℕ, ◌+◌, ◌-◌, ◌*◌, ◌/◌, ◌%◌, ◌^◌, bit_xor, Bool, true, false, ◌&&◌, ltb, leb, ◌==◌, if◌then◌else◌,
  List, [], ◌∷◌, ◌++◌, u64_mod,
}

-- SourceID; the code's two constants are 1 and 2.
abbrev pub SourceId : Type 0
SourceId = ℕ

abbrev pub source_base : SourceId
source_base = 1

abbrev pub source_journal : SourceId
source_journal = 2

pub record Piece : Type 0 where
  pub source : SourceId
  pub offset : ℕ
  pub length : ℕ
  pub newlines : ℕ
  pub newlines_known : Bool

pub record Summary : Type 0 where
  pub bytes : ℕ
  pub newlines : ℕ
  pub newlines_known : Bool
  pub piece_count : ℕ

pub data Node : Type 0 where
  nil : Node
  node : Piece → ℕ → Node → Node → Summary → Node

abbrev pub node_bytes : Node → ℕ
node_bytes nil = 0
node_bytes (node p pr l r s) = s.bytes

abbrev pub node_piece_count : Node → ℕ
node_piece_count nil = 0
node_piece_count (node p pr l r s) = s.piece_count

abbrev pub node_newlines : Node → ℕ
node_newlines nil = 0
node_newlines (node p pr l r s) = s.newlines

abbrev pub node_newlines_known : Node → Bool
node_newlines_known nil = true
node_newlines_known (node p pr l r s) = s.newlines_known

-- What `recalc` stores in a node with this piece and these children.
abbrev pub summary : Piece → Node → Node → Summary
summary p l r = record {
  bytes = node_bytes l + p.length + node_bytes r;
  newlines = node_newlines l + p.newlines + node_newlines r;
  newlines_known = node_newlines_known l && p.newlines_known && node_newlines_known r;
  piece_count = node_piece_count l + 1 + node_piece_count r;
}

-- A node whose totals are recalculated.
abbrev pub recalc : Piece → ℕ → Node → Node → Node
recalc p pr l r = node p pr l r (summary p l r)

-- `cloneNode`: a copy of the node with other children.
abbrev pub clone_node : Node → Node → Node → Node
clone_node nil l r = nil
clone_node (node p pr _ _ s) l r = recalc p pr l r

unfoldable pub merge : Node → Node → Node
merge nil right = right
merge (node p pr l r s) nil = node p pr l r s
merge (node p pr l r s) (node q qr m t u) =
    let down_left = merge r (node q qr m t u) in
    let down_right = merge (node p pr l r s) m in
    if leb qr pr
    then clone_node (node p pr l r s) l down_left
    else clone_node (node q qr m t u) down_right t

-- The two halves of a piece that a split at `k` bytes cuts.
abbrev pub left_piece : Piece → ℕ → Piece
left_piece p k = record p { length = k; newlines = 0; newlines_known = false }

abbrev pub right_piece : Piece → ℕ → Piece
right_piece p k = record p {
  offset = p.offset + k;
  length = p.length - k;
  newlines = 0;
  newlines_known = false;
}

unfoldable pub split : Node → ℕ → Node × Node
unfolding merge
split nil pos = (nil, nil)
split (node p pr l r s) pos =
    let left_bytes = node_bytes l in
    let piece_end = left_bytes + p.length in
    let in_left = split l pos in
    let in_right = split r (pos - piece_end) in
    if ltb pos left_bytes
    then (in_left.0, clone_node (node p pr l r s) in_left.1 r)
    else if ltb piece_end pos
    then (clone_node (node p pr l r s) l in_right.0, in_right.1)
    else if pos == left_bytes
    then (l, clone_node (node p pr l r s) nil r)
    else if pos == piece_end
    then (clone_node (node p pr l r s) l nil, r)
    else (
      merge l (recalc (left_piece p (pos - left_bytes)) pr nil nil),
      merge (recalc (right_piece p (pos - left_bytes)) pr nil nil) r,
    )

-- The pieces in document order: what `walk` visits.
unfoldable pub pieces : Node → List Piece
pieces nil = []
pieces (node p pr l r s) = pieces l ++ p ∷ pieces r

-- One step of the xorshift64* generator: the new state, and the priority drawn from it.
unfoldable pub next_rng : ℕ → ℕ
next_rng x =
    let a = bit_xor x (x / 2 ^ 12) in
    let b = bit_xor a ((a * 2 ^ 25) % u64_mod) in bit_xor b (b / 2 ^ 27)

unfoldable pub priority_of : ℕ → ℕ
priority_of x = (x * 0x2545f4914f6cdd1d) % u64_mod
