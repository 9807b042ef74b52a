-- ===== src/Store/Tree.antt =====
-- document/store/tree.go: Tree, Snapshot and their operations. `R` is the type of the readers
-- (io.ReaderAt), which the tree only passes on; the mutex makes each operation one step.
use docengine.Prelude.{
  ℕ, ◌+◌, ◌-◌, ◌%◌, Bool, true, false, ◌&&◌, ◌||◌, ltb, ◌==◌, if◌then◌else◌, List, [], ◌∷◌, Option,
  none, some, Result, ok, err, ◌>>=◌, ◌>>◌, fail_if, u64_mod, max_int64, ℤ, pos, is_negative, to_ℕ,
  is_zero, length,
}
use mathlib.Core.List.{reverse}
use docengine.Store.Node.{
  SourceId, source_base, Piece, Node, nil, node_bytes, node_piece_count, node_newlines,
  node_newlines_known, recalc, merge, split, pieces, next_rng, priority_of,
}

pub data Error : Type 0 where
  invalid_range invalid_piece invalid_options length_overflow unknown_source : Error

-- A piece as a caller passes it, with signed fields.
pub record PieceArg : Type 0 where
  pub source : SourceId
  pub offset : ℤ
  pub length : ℤ
  pub newlines : ℤ
  pub newlines_known : Bool

pub record Options : Type 0 where
  pub auto_compact_pieces : ℤ
  pub disable_auto_compact : Bool

abbrev pub default_auto_compact_pieces : ℕ
default_auto_compact_pieces = 4096

unfoldable pub resolve_options : Options → Result Error ℕ
resolve_options o =
    if o.disable_auto_compact
    then (if is_zero o.auto_compact_pieces then ok 0 else err invalid_options)
    else if is_zero o.auto_compact_pieces
    then ok default_auto_compact_pieces
    else if is_negative o.auto_compact_pieces || ltb (to_ℕ o.auto_compact_pieces) 2
    then err invalid_options
    else ok (to_ℕ o.auto_compact_pieces)

unfoldable pub normalize_piece : PieceArg → PieceArg
normalize_piece p = if p.newlines_known then p else record p { newlines = pos 0 }

unfoldable pub validate_piece : PieceArg → Result Error (Unit {0})
validate_piece p =
    if is_zero p.length
    then ok tt
    else if is_negative p.length
        || (is_negative p.offset || ltb (max_int64 - to_ℕ p.length) (to_ℕ p.offset))
    then err invalid_piece
    else if p.newlines_known && (is_negative p.newlines || ltb (to_ℕ p.length) (to_ℕ p.newlines))
    then err invalid_piece
    else ok tt

-- The fields of a piece that was validated.
abbrev pub piece_of : PieceArg → Piece
piece_of p = record {
  source = p.source;
  offset = to_ℕ p.offset;
  length = to_ℕ p.length;
  newlines = to_ℕ p.newlines;
  newlines_known = p.newlines_known;
}

abbrev pub Sources {ℓ} : Type ℓ → Type ℓ
Sources R = SourceId → Option R

pub record Snapshot {ℓ} (R : Type ℓ) : Type ℓ where
  pub root : Node
  pub sources : Sources R

pub record Tree {ℓ} (R : Type ℓ) : Type ℓ where
  pub root : Node
  pub sources : Sources R
  pub rng : ℕ
  pub auto_compact_pieces : ℕ
  pub next_auto_compact_pieces : ℕ
  pub auto_compactions : ℕ

pub record CompactResult : Type 0 where
  pub before_pieces : ℕ
  pub after_pieces : ℕ

pub record Stats : Type 0 where
  pub byte_length : ℕ
  pub piece_count : ℕ
  pub line_breaks : ℕ
  pub line_breaks_known : Bool
  pub auto_compact_pieces : ℕ
  pub next_auto_compact_pieces : ℕ
  pub auto_compactions : ℕ

-- `makeNode`: the next state of the generator, and a node with the priority drawn from it.
unfoldable pub make_node : ℕ → Piece → Node → Node → ℕ × Node
make_node rng p l r = let rng' = next_rng rng in (rng', recalc p (priority_of rng') l r)

-- The visit of `compactLocked`; the head of the list is the last piece so far.
unfoldable pub joins : Piece → Piece → Bool
joins p q = p.source == q.source && p.offset + p.length == q.offset

abbrev pub joined : Piece → Piece → Piece
joined p q = record p {
  length = p.length + q.length;
  newlines = if p.newlines_known && q.newlines_known then p.newlines + q.newlines else 0;
  newlines_known = p.newlines_known && q.newlines_known;
}

unfoldable pub visit : List Piece → Piece → List Piece
visit [] q = q ∷ []
visit (p ∷ done) q = if joins p q then joined p q ∷ done else q ∷ p ∷ done

unfoldable pub visit_all : List Piece → List Piece → List Piece
visit_all done [] = done
visit_all done (q ∷ qs) = visit_all (visit done q) qs

unfoldable pub coalesce : List Piece → List Piece
coalesce ps = reverse (visit_all [] ps)

unfoldable pub rebuild : ℕ → Node → List Piece → ℕ × Node
rebuild rng root [] = (rng, root)
rebuild rng root (p ∷ ps) =
    let (rng', n) = make_node rng p nil nil in rebuild rng' (merge root n) ps

-- The root after the cuts and merges of ReplacePiece, and the generator's state.
unfoldable pub spliced : ℕ → Node → ℕ → ℕ → Piece → ℕ × Node
spliced rng root start deleted p =
    let (left, tail) = split root start in
    let (_, right) = split tail deleted in
    let (rng', n) = make_node rng p nil nil in
    if ltb 0 p.length
    then (rng', merge (merge left n) right)
    else (rng, merge (merge left nil) right)

module _ {ℓ} {R : Type ℓ} where
  unfoldable pub compact_locked : Tree R → Tree R × CompactResult
  compact_locked t =
      let before = node_piece_count t.root in
      let ps = coalesce (pieces t.root) in
      let (rng', root') = rebuild t.rng nil ps in
      if ltb before 2 then (t, record { before_pieces = before; after_pieces = before }) else (
        record t { root = root'; rng = rng' },
        record { before_pieces = before; after_pieces = length ps },
      )

  unfoldable pub schedule_next : Tree R → ℕ → Tree R
  schedule_next t n =
      if t.auto_compact_pieces == 0
      then record t { next_auto_compact_pieces = 0 }
      else if ltb n t.auto_compact_pieces
      then record t { next_auto_compact_pieces = t.auto_compact_pieces }
      else if ltb (max_int64 - t.auto_compact_pieces) n
      then record t { next_auto_compact_pieces = max_int64 }
      else record t { next_auto_compact_pieces = n + t.auto_compact_pieces }

  unfoldable pub compact : Tree R → Tree R × CompactResult
  compact t = let (t', result) = compact_locked t in (schedule_next t' result.after_pieces, result)

  unfoldable pub maybe_auto_compact : Tree R → Tree R
  maybe_auto_compact t =
      let n = node_piece_count t.root in
      let (t', result) = compact_locked t in
      if t.auto_compact_pieces == 0
      then t
      else if ltb n t.auto_compact_pieces
      then record t { next_auto_compact_pieces = t.auto_compact_pieces }
      else if ltb n t.next_auto_compact_pieces
      then t
      else schedule_next (record t' { auto_compactions = (t'.auto_compactions + 1) % u64_mod })
          result.after_pieces

  unfoldable pub snapshot : Tree R → Snapshot R
  snapshot t = record { root = t.root; sources = t.sources }

  unfoldable pub restore : Tree R → Snapshot R → Tree R
  restore t s = record t {
    root = s.root;
    sources = s.sources;
    next_auto_compact_pieces = t.auto_compact_pieces;
  }

  unfoldable pub set_source : Tree R → SourceId → Option R → Tree R
  set_source t id source = record t { sources = λ j. if j == id then source else t.sources j }

  unfoldable pub stats : Tree R → Stats
  stats t = record {
    byte_length = node_bytes t.root;
    piece_count = node_piece_count t.root;
    line_breaks = node_newlines t.root;
    line_breaks_known = node_newlines_known t.root;
    auto_compact_pieces = t.auto_compact_pieces;
    next_auto_compact_pieces = t.next_auto_compact_pieces;
    auto_compactions = t.auto_compactions;
  }

  abbrev pub is_nil : Option R → Bool
  is_nil none = true
  is_nil (some r) = false

  -- The tree of a base and its validated piece.
  unfoldable pub initial : Option R → Piece → ℕ → Tree R
  initial base p limit =
      let (rng', n) = make_node 0x9e3779b97f4a7c15 p nil nil in
      record {
        root = if ltb 0 p.length then n else nil;
        sources = λ j. if j == source_base then base else none;
        rng = if ltb 0 p.length then rng' else 0x9e3779b97f4a7c15;
        auto_compact_pieces = limit;
        next_auto_compact_pieces = limit;
        auto_compactions = 0;
      }

  unfoldable pub new_with_base_piece_options : Option R → PieceArg → Options → Result Error (Tree R)
  new_with_base_piece_options base piece options = do
    limit ← resolve_options options
    let p = normalize_piece (record piece { source = source_base })
    validate_piece p
    fail_if (ltb 0 (to_ℕ p.length) && is_nil base) unknown_source
    ok (initial base (piece_of p) limit)

  -- The guards of ReplacePiece, in order; `p` is normalized.
  unfoldable pub check_edit : Tree R → ℤ → ℤ → PieceArg → Result Error (Unit {0})
  check_edit t start deleted p = do
    let n = node_bytes t.root
    fail_if
        (is_negative start
          || (is_negative deleted || (ltb n (to_ℕ start) || ltb (n - to_ℕ start) (to_ℕ deleted))))
        invalid_range
    validate_piece p
    fail_if (ltb 0 (to_ℕ p.length) && is_nil (t.sources p.source)) unknown_source
    fail_if (ltb (max_int64 - (n - to_ℕ deleted)) (to_ℕ p.length)) length_overflow

  -- The tree after the edit, and the snapshots before and after it.
  unfoldable pub replace_piece :
      Tree R → ℤ → ℤ → PieceArg → Result Error (Tree R × Snapshot R × Snapshot R)
  replace_piece t start deleted piece =
      let p = normalize_piece piece in
      let (rng', root') = spliced t.rng t.root (to_ℕ start) (to_ℕ deleted) (piece_of p) in
      let t' = maybe_auto_compact (record t { root = root'; rng = rng' }) in
      let before = snapshot t in
      check_edit t start deleted p
      >> (if is_zero deleted && is_zero p.length
          then ok (t, before, before)
          else ok (t', before, snapshot t'))
