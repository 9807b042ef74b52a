-- ===== src/Store/Read.antt =====
-- document/store/tree.go: readNode, Snapshot.ReadAt and Snapshot.WriteTo. A reader (io.ReaderAt) is
-- a parameter: `read_at r want off` gives the bytes that it stored in a buffer of `want` bytes, and
-- its error. The buffer's filled part is the list that is returned.
use docengine.Prelude.{
  ℕ, ◌+◌, ◌-◌, min, Bool, true, false, ◌&&◌, not, ltb, leb, ◌==◌, if◌then◌else◌, List, [], ◌∷◌,
  ◌++◌, Option, none, some, length, ℤ, is_negative, to_ℕ,
}
use docengine.Store.Node.{Piece, Node, nil, node, node_bytes, pieces}
use docengine.Store.Tree.{Sources, Snapshot}

-- io.EOF, ErrInvalidRange, ErrUnknownSource, and any other error of a reader or writer.
pub data Fault : Type 0 where
  end_of_file invalid_range unknown_source failed : Fault

abbrev pub is_eof : Fault → Bool
is_eof end_of_file = true
is_eof _ = false

-- The count with its error, as a pair.
abbrev pub Outcome : Type 0
Outcome = List ℕ × Option Fault

-- `err != nil && !errors.Is(err, io.EOF)`.
abbrev pub stops : Option Fault → Bool
stops none = false
stops (some e) = not (is_eof e)

-- `err != nil && !(errors.Is(err, io.EOF) && int64(count) == want)`.
abbrev pub fails_short : Option Fault → ℕ → ℕ → Bool
fails_short none count want = false
fails_short (some e) count want = not (is_eof e && count == want)

abbrev pub before : List ℕ → Outcome → Outcome
before done r = (done ++ r.0, r.1)

-- The returns of readNode, in order: `left` comes from the left child, `piece` from the node's
-- piece, of which `piece_want` bytes were asked, and `rest` from the right child.
unfoldable pub assemble : ℕ → ℕ → Outcome → Outcome → Outcome → Outcome
assemble want piece_want left piece rest =
    if want == 0
    then ([], none)
    else if stops left.1
    then left
    else if length left.0 == want
    then (left.0, none)
    else if fails_short piece.1 (length piece.0) piece_want
    then before left.0 piece
    else if length (left.0 ++ piece.0) == want
    then (left.0 ++ piece.0, none)
    else before (left.0 ++ piece.0) rest

module _ {ℓ} {R : Type ℓ} (read_at : R → ℕ → ℕ → Outcome) (sources : Sources R) where
  -- The part of a piece that a read of `want` bytes at `off` of the piece takes.
  unfoldable pub read_piece : Piece → ℕ → ℕ → Outcome
  read_piece p off want = elim (sources p.source) [
    | none ↦ ([], some unknown_source)
    | some r ↦ read_at r (min want (p.length - off)) (p.offset + off)
  ]

  unfoldable pub read_node : Node → ℕ → ℕ → Outcome
  read_node nil off want = ([], none)
  read_node (node p pr l r s) off want =
      let left_bytes = node_bytes l in
      let in_left = read_node l off want in
      let left = if ltb off left_bytes then in_left else ([], none) in
      let off1 = if ltb off left_bytes then 0 else off - left_bytes in
      let want1 = want - length left.0 in
      let in_piece = read_piece p off1 want1 in
      let piece = if ltb off1 p.length then in_piece else ([], none) in
      let off2 = if ltb off1 p.length then 0 else off1 - p.length in
      let written = left.0 ++ piece.0 in
      let rest = read_node r off2 (want - length written) in
      assemble want (min want1 (p.length - off1)) left piece rest

-- Snapshot.ReadAt of a buffer of `size` bytes.
unfoldable pub snapshot_read_at {ℓ} :
    {R : Type ℓ} → (R → ℕ → ℕ → Outcome) → Snapshot R → ℕ → ℤ → Outcome
snapshot_read_at read_at s size off =
    let len = node_bytes s.root in
    let wanted = min size (len - to_ℕ off) in
    let r = read_node read_at s.sources s.root (to_ℕ off) wanted in
    if is_negative off
    then ([], some invalid_range)
    else if size == 0
    then ([], none)
    else if leb len (to_ℕ off)
    then ([], some end_of_file)
    else elim r.1 [
      | some e ↦ r
      | none ↦ if ltb (length r.0) size then (r.0, some end_of_file) else r
    ]

-- Snapshot.WriteTo. `copy r off n` is io.CopyN of a section: what reached the writer, and the error.
unfoldable pub write_pieces {ℓ} :
    {R : Type ℓ} → (R → ℕ → ℕ → Outcome) → Sources R → List Piece → Outcome
write_pieces copy sources [] = ([], none)
write_pieces copy sources (p ∷ ps) =
    let rest = write_pieces copy sources ps in
    elim (sources p.source) [
      | none ↦ ([], some unknown_source)
      | some r ↦
          let piece = copy r p.offset p.length in
          elim piece.1 [ some e ↦ piece | none ↦ before piece.0 rest ]
    ]

unfoldable pub write_to {ℓ} : {R : Type ℓ} → (R → ℕ → ℕ → Outcome) → Snapshot R → Outcome
write_to copy s = write_pieces copy s.sources (pieces s.root)
