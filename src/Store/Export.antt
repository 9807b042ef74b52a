-- ===== src/Store/Export.antt =====
-- document/store/tree.go: Snapshot.ReadAt and Snapshot.WriteTo against the content of the document,
-- and what a source that ends early does to a read.
use docengine.Prelude.{
  ℕ, ◌+◌, ◌-◌, ◌≤◌, ◌<◌, ◌≡◌, refl, sym, ap, ◌∙◌, min, ltb, leb, lt→ltb, if◌then◌else◌, List, [],
  ◌∷◌, ◌++◌, append-nil, map-append, length-map, slice, length-slice, slice-min, slice_past,
  slice_none, Option, none, some, arith, length, length-append, ◌==◌, pos, All,
}
use docengine.Store.Node.{SourceId, Piece, Node, nil, node_bytes, pieces, recalc}
use docengine.Store.Content.{
  Cell, cells, cells_of, cells-pieces, run_cells, piece_cells, IsCached, node_bytes-length,
}
use docengine.Store.Tree.{Sources, Snapshot}
use docengine.Store.Read.{
  Fault, Outcome, end_of_file, read_piece, read_node, snapshot_read_at, write_pieces, write_to,
  assemble,
}
use docengine.Store.Reading.{content, AllServed, read_node_lem}

-- Reads of at most what is left of the document succeed; longer ones give the rest and io.EOF.
abbrev pub read_end : ℕ → ℕ → ℕ → Option Fault
read_end len size off =
    if size == 0 then none else if leb (off + size) len then none else some end_of_file

finish_read :
    (len size off : ℕ) (xs : List ℕ) (got : Outcome)
    → length xs ≡ len
    → got ≡ (slice (min size (len - off)) off xs, none)
    → (if size == 0
        then ([], none)
        else if leb len off
        then ([], some end_of_file)
        else elim got.1 [
          | some e ↦ got
          | none ↦ if ltb (length got.0) size then (got.0, some end_of_file) else got
        ])
      ≡ (slice size off xs, read_end len size off)
finish_read len size off xs got h e =
    let ys = slice (min size (len - off)) off xs in
    let same : slice size off xs ≡ ys =
      slice-min size off xs ∙ ap (λ k. slice (min size (k - off)) off xs) h in
    let n : length ys ≡ min size (len - off) =
      omega (arith, length-slice (min size (len - off)) off xs) in
    rw (e, same)
      (ground (
        arith,
        n,
        slice_past (min size (len - off)) off xs,
        slice_none (min size (len - off)) off xs,
      ))

module _ {ℓ} {R : Type ℓ} (read_at : R → ℕ → ℕ → Outcome) (byte : SourceId → ℕ → ℕ) where
  -- ReadAt, at a nonnegative offset, of a snapshot whose byte counts are right and whose readers
  -- hold its pieces gives the bytes of the document from the offset, at most as many as the buffer
  -- holds, and io.EOF exactly for a nonempty buffer that reaches past the end.
  pub snapshot_read_at_lem :
      (s : Snapshot R) (size off : ℕ)
      → IsCached s.root
      → AllServed read_at byte s.sources s.root
      → snapshot_read_at read_at s size (pos off)
        ≡ (slice size off (content byte (cells s.root)), read_end (length (cells s.root)) size off)
  unfolding snapshot_read_at
  snapshot_read_at_lem s size off c served =
      let n = node_bytes-length s.root c in
      finish_read (node_bytes s.root) size off (content byte (cells s.root)) _
        (length-map (λ (x : Cell). byte x.0 x.1) (cells s.root) ∙ sym n)
        (read_node_lem read_at byte s.sources s.root off (min size (node_bytes s.root - off)) c
          served)
      ∙ ap (λ k. (slice size off (content byte (cells s.root)), read_end k size off)) n

-- io.CopyN of a section of a reader: a section inside the reader's `[0, size)` is copied whole.
module _ {ℓ} {R : Type ℓ} (copy : R → ℕ → ℕ → Outcome) (byte : SourceId → ℕ → ℕ) where
  abbrev pub Copies : R → SourceId → ℕ → Type 0
  Copies r src size =
      (off n : ℕ) → off + n ≤ size → copy r off n ≡ (content byte (run_cells src off n), none)

  abbrev pub IsCopied : Sources R → Piece → Type ℓ
  IsCopied sources p =
      (r : R) × (sources p.source ≡ some r) × Copies r p.source (p.offset + p.length)

  write_pieces_lem :
      (sources : Sources R) (ps : List Piece)
      → All (IsCopied sources) ps
      → write_pieces copy sources ps ≡ (content byte (cells_of ps), none)
  unfolding write_pieces cells_of
  write_pieces_lem sources [] h = refl
  write_pieces_lem sources (p ∷ ps) h =
      let (r, found, copies) = h.0 in
      let e = copies p.offset p.length (omega arith) in
      let ih = write_pieces_lem sources ps h.1 in
      rw (found, write_pieces, e, ih)
        (ap (λ (o : Outcome). (o.0 ++ content byte (cells_of ps), none)) e
          ∙ ap (λ xs. (xs, none)) (sym (map-append _ (piece_cells p) (cells_of ps))))

  -- WriteTo writes the whole document, in order and with no error, where the copy of each section
  -- of the pieces is complete.
  pub write_to_lem :
      (s : Snapshot R)
      → All (IsCopied s.sources) (pieces s.root)
      → write_to copy s ≡ (content byte (cells s.root), none)
  unfolding write_to
  write_to_lem s h =
      write_pieces_lem s.sources (pieces s.root) h
      ∙ ap (λ xs. (content byte xs, none)) (sym (cells-pieces s.root))

-- A tree of two pieces, the first one in the left child.
abbrev pub two_pieces : Piece → Piece → ℕ → ℕ → Node
two_pieces q p child_pr pr = recalc p pr (recalc q child_pr nil nil) nil

module _ {ℓ} {R : Type ℓ} (read_at : R → ℕ → ℕ → Outcome) (s : Snapshot R) (q p : Piece)
    (child_pr pr : ℕ) (rq rp : R) where
  -- A read from the start of a node whose left child was read to its end.
  behind_left :
      (x : Piece) (rx : R) (l : Node) (w k : ℕ) (done : List ℕ)
      → s.sources x.source ≡ some rx
      → 0 < node_bytes l
      → 0 < x.length
      → min (w - length done) x.length ≡ k
      → read_node read_at s.sources l 0 w ≡ (done, some end_of_file)
      → read_node read_at s.sources (recalc x pr l nil) 0 w
        ≡ assemble w k (done, some end_of_file) (read_at rx k x.offset) ([], none)
  unfolding read_node read_piece
  behind_left x rx l w k done found full some_x hk at_left =
      let n : min (w - length done) (x.length - 0) ≡ k = omega arith in
      let o : x.offset + 0 ≡ x.offset = omega arith in
      let b = lt→ltb 0 (node_bytes l) full in
      rw (b, at_left, lt→ltb 0 x.length some_x, found, read_piece, b, at_left, n, o)

  leaf :
      (x : Piece) (rx : R) (w : ℕ)
      → s.sources x.source ≡ some rx
      → 0 < x.length
      → x.length ≤ w
      → read_node read_at s.sources (recalc x child_pr nil nil) 0 w
        ≡ assemble w x.length ([], none) (read_at rx x.length x.offset) ([], none)
  unfolding read_node read_piece
  leaf x rx w found some_x enough =
      let n : min (w - 0) (x.length - 0) ≡ x.length = omega arith in
      let o : x.offset + 0 ≡ x.offset = omega arith in
      rw (lt→ltb 0 x.length some_x, found, read_piece, n, o)

  -- ReadAt of a tree of two pieces, the first one in the left child of the second, where the first
  -- one's source ends early, with io.EOF, returns, into a buffer of as many bytes as both readers
  -- deliver, the next piece in the place of the missing bytes and no error.
  pub snapshot_read_at_early_end :
      (bs cs : List ℕ)
      → s.root ≡ two_pieces q p child_pr pr
      → s.sources q.source ≡ some rq
      → s.sources p.source ≡ some rp
      → read_at rq q.length q.offset ≡ (bs, some end_of_file)
      → read_at rp p.length p.offset ≡ (cs, none)
      → length bs < q.length
      → length cs ≡ p.length
      → 0 < p.length
      → q.length ≤ length bs + p.length
      → snapshot_read_at read_at s (length bs + p.length) (pos 0) ≡ (bs ++ cs, none)
  unfolding snapshot_read_at assemble
  snapshot_read_at_early_end bs cs root hq hp eq ep short full some_p enough =
      let w = length bs + p.length in
      let w' : min w (node_bytes s.root - 0) ≡ w = rw root (omega arith) in
      let left : read_node read_at s.sources (recalc q child_pr nil nil) 0 w
          ≡ (bs, some end_of_file) =
        leaf q rq w hq (omega arith) enough ∙ rw eq (ground arith) in
      let all : read_node read_at s.sources s.root 0 w ≡ (bs ++ cs, none) = rw root (
        behind_left p rp (recalc q child_pr nil nil) w p.length bs hp (omega arith) some_p
          (omega arith) left
        ∙ rw ep (ground (arith, length-append bs cs, append-nil (bs ++ cs)))) in
      rw (w', all) (ground (arith, length-append bs cs, root))
