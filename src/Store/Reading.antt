-- ===== src/Store/Reading.antt =====
-- document/store/tree.go: reading a tree whose readers serve its pieces gives its content.
use docengine.Prelude.{
  ℕ, zero, suc, ◌+◌, ◌-◌, ◌≤◌, ◌<◌, ◌≡◌, ◌⊎◌, refl, sym, ap, ap₂, ◌∙◌, inl, inr, min, false, ltb,
  Bool-cases, ltb→lt, ltb→ge, if◌then◌else◌, List, [], ◌∷◌, ◌++◌, append-nil, append_assoc, map,
  map-append, length-map, take_nil, drop_nil, slice, slice-append, slice_none, slice_past, map-take,
  map-drop, Option, none, some, arith, length, take, drop, length-append,
}
use docengine.Store.Node.{SourceId, Piece, Node, nil, node, node_bytes}
use docengine.Store.Content.{
  Cell, cells, run_cells, piece_cells, IsCached, node_bytes-length, length-run_cells,
}
use docengine.Store.Tree.{Sources}
use docengine.Store.Read.{assemble, fails_short, Fault, Outcome, end_of_file, read_piece, read_node}

-- The byte that a cell names, given the content of each source.
module _ (byte : SourceId → ℕ → ℕ) where
  abbrev pub content : List Cell → List ℕ
  content = map (λ c. byte c.0 c.1)

-- A reader that holds `[0, size)` of its source: a read inside gives those bytes, with no error or,
-- as io.ReaderAt allows, with io.EOF.
module _ {ℓ} {R : Type ℓ} (read_at : R → ℕ → ℕ → Outcome) (byte : SourceId → ℕ → ℕ) where
  abbrev pub Serves : R → SourceId → ℕ → Type 0
  Serves r src size =
      (want off : ℕ)
      → off + want ≤ size
      → ((read_at r want off).0 ≡ content byte (run_cells src off want))
        × (((read_at r want off).1 ≡ none) ⊎ ((read_at r want off).1 ≡ some end_of_file))

  abbrev pub IsServed : Sources R → Piece → Type ℓ
  IsServed sources p =
      (r : R) × (sources p.source ≡ some r) × Serves r p.source (p.offset + p.length)

  abbrev pub AllServed : Sources R → Node → Type ℓ
  AllServed sources nil = Unit
  AllServed sources (node p pr l r s) =
      AllServed sources l × IsServed sources p × AllServed sources r

drop-run_cells : (src off n a : ℕ) → drop a (run_cells src off n) ≡ run_cells src (off + a) (n - a)
drop-run_cells src off n zero =
    let e : off ≡ off + 0 = omega arith in
    let f : n ≡ n - 0 = omega arith in ap₂ (run_cells src) e f
drop-run_cells src off zero (suc a) =
    let f : 0 ≡ 0 - suc a = omega arith in ap (run_cells src (off + suc a)) f
drop-run_cells src off (suc n) (suc a) =
    let e : off + 1 + a ≡ off + suc a = omega arith in
    let f : n - a ≡ suc n - suc a = omega arith in
    drop-run_cells src (off + 1) n a ∙ ap₂ (run_cells src) e f

take-run_cells : (src off n k : ℕ) → take k (run_cells src off n) ≡ run_cells src off (min k n)
take-run_cells src off n zero = let f : 0 ≡ min 0 n = omega arith in ap (run_cells src off) f
take-run_cells src off zero (suc k) =
    let f : 0 ≡ min (suc k) 0 = omega arith in ap (run_cells src off) f
take-run_cells src off (suc n) (suc k) =
    let f : suc (min k n) ≡ min (suc k) (suc n) = omega arith in
    ap ((src, off) ∷◌) (take-run_cells src (off + 1) n k) ∙ ap (run_cells src off) f

slice-run_cells :
    (src off n a k : ℕ) → slice k a (run_cells src off n) ≡ run_cells src (off + a) (min k (n - a))
slice-run_cells src off n a k =
    ap (take k) (drop-run_cells src off n a) ∙ take-run_cells src (off + a) (n - a) k

-- The three parts of a read, where nothing fails.
assemble_lem :
    (want k : ℕ) (left piece rest : Outcome) (xs ys zs : List ℕ)
    → left ≡ (xs, none)
    → piece.0 ≡ ys
    → fails_short piece.1 (length ys) k ≡ false
    → rest ≡ (zs, none)
    → (want ≡ 0 → xs ++ (ys ++ zs) ≡ [])
    → (length xs ≡ want → ys ++ zs ≡ [])
    → (length (xs ++ ys) ≡ want → zs ≡ [])
    → assemble want k left piece rest ≡ (xs ++ (ys ++ zs), none)
unfolding assemble
assemble_lem want k left piece rest xs ys zs e f g h nothing only_left no_right =
    ground (arith, append_assoc xs ys zs, append-nil xs, append-nil ys)

clean_end :
    (e : Option Fault) (n k : ℕ)
    → n ≡ k
    → (e ≡ none) ⊎ (e ≡ some end_of_file)
    → fails_short e n k ≡ false
clean_end e n k h c = ground arith

-- What is left of an offset behind a part of `n` bytes.
offset_behind : (off n : ℕ) → (if ltb off n then 0 else off - n) ≡ off - n
offset_behind off n = ground arith

-- The parts of a read of `xs ++ (ys ++ zs)` make up the slice.
three_parts :
    (want n m off off1 off2 k : ℕ) (left piece rest : Outcome) (xs ys zs : List ℕ)
    → length xs ≡ n
    → length ys ≡ m
    → off1 ≡ off - n
    → off2 ≡ off1 - m
    → left ≡ (slice want off xs, none)
    → piece.0 ≡ slice (want - length left.0) off1 ys
    → fails_short piece.1 (length piece.0) k ≡ false
    → rest ≡ (slice (want - length (left.0 ++ piece.0)) off2 zs, none)
    → assemble want k left piece rest ≡ (slice want off (xs ++ (ys ++ zs)), none)
three_parts want n m off off1 off2 k left piece rest xs ys zs hx hy h1 h2 hl hp hf hr =
    let l = slice want off xs in
    let y = slice (want - length l) (off - length xs) ys in
    let z = slice (want - length l - length y) (off - length xs - length ys) zs in
    let left_bytes : left.0 ≡ l = ap (λ (o : Outcome). o.0) hl in
    let o1 : off1 ≡ off - length xs = omega arith in
    let o2 : off2 ≡ off - length xs - length ys = omega arith in
    let piece_bytes : piece.0 ≡ y = hp ∙ ap₂ (λ a b. slice (want - length a) b ys) left_bytes o1 in
    let w2 : want - length (left.0 ++ piece.0) ≡ want - length l - length y =
      omega (arith, ap length left_bytes, ap length piece_bytes, length-append left.0 piece.0) in
    let rest_bytes : rest ≡ (z, none) = hr ∙ ap₂ (λ a b. (slice a b zs, none)) w2 o2 in
    let whole : slice want off (xs ++ (ys ++ zs)) ≡ l ++ (y ++ z) =
      slice-append want off xs (ys ++ zs)
      ∙ ap (l ++◌) (slice-append (want - length l) (off - length xs) ys zs) in
    assemble_lem want k left piece rest l y z hl piece_bytes
      (ap (λ a. fails_short piece.1 (length a) k) (sym piece_bytes) ∙ hf) rest_bytes
      (λ h. sym whole ∙ slice_none want off (xs ++ (ys ++ zs)) h)
      (λ h.
        ap₂ (◌++◌) (slice_none (want - length l) (off - length xs) ys (omega arith))
          (slice_none (want - length l - length y) (off - length xs - length ys) zs (omega arith)))
      (λ h.
        slice_none (want - length l - length y) (off - length xs - length ys) zs
          (omega (arith, length-append l y)))
    ∙ ap (λ a. (a, none)) (sym whole)

module _ {ℓ} {R : Type ℓ} (read_at : R → ℕ → ℕ → Outcome) (byte : SourceId → ℕ → ℕ)
    (sources : Sources R) where
  -- The part of a piece that is read.
  read_piece_lem :
      (p : Piece) (off want : ℕ)
      → IsServed read_at byte sources p
      → off < p.length
      → let got = read_piece read_at sources p off want in
        (got.0 ≡ slice want off (content byte (piece_cells p)))
        × (fails_short got.1 (length got.0) (min want (p.length - off)) ≡ false)
  unfolding read_piece
  read_piece_lem p off want (r, found, serves) h =
      let k = min want (p.length - off) in
      let (bytes, clean) = serves k (p.offset + off) (omega arith) in
      let e : content byte (run_cells p.source (p.offset + off) k)
          ≡ slice want off (content byte (piece_cells p)) =
        ap (content byte) (sym (slice-run_cells p.source p.offset p.length off want))
        ∙ map-take _ want (drop off (piece_cells p))
        ∙ ap (take want) (map-drop _ off (piece_cells p)) in
      let n : length (read_at r k (p.offset + off)).0 ≡ k =
        ap length bytes
        ∙ length-map _ (run_cells p.source (p.offset + off) k)
        ∙ length-run_cells p.source (p.offset + off) k in
      rw (found, read_piece) (bytes ∙ e, clean_end _ _ k n clean)

  content-node :
      (p : Piece) (l r : Node)
      → content byte (cells l ++ (piece_cells p ++ cells r))
        ≡ content byte (cells l) ++ (content byte (piece_cells p) ++ content byte (cells r))
  content-node p l r =
      map-append _ (cells l) (piece_cells p ++ cells r)
      ∙ ap (content byte (cells l) ++◌) (map-append _ (piece_cells p) (cells r))

  left_stage :
      (l : Node) (off want : ℕ)
      → IsCached l
      → read_node read_at sources l off want ≡ (slice want off (content byte (cells l)), none)
      → (if ltb off (node_bytes l) then read_node read_at sources l off want else ([], none))
        ≡ (slice want off (content byte (cells l)), none)
  left_stage l off want c ih = elim (Bool-cases (ltb off (node_bytes l))) [
    | inl e ↦ rw e ih
    | inr e ↦ rw e (
        ap (λ xs. (xs, none))
          (slice_past want off (content byte (cells l)) (
            omega (
              arith,
              ltb→ge _ _ e,
              length-map (λ (x : Cell). byte x.0 x.1) (cells l),
              node_bytes-length l c,
            ))))
  ]

  piece_stage :
      (p : Piece) (off want : ℕ)
      → IsServed read_at byte sources p
      → let got =
          (if ltb off p.length then read_piece read_at sources p off want else ([], none)) in
        (got.0 ≡ slice want off (content byte (piece_cells p)))
        × (fails_short got.1 (length got.0) (min want (p.length - off)) ≡ false)
  piece_stage p off want served = elim (Bool-cases (ltb off p.length)) [
    | inl e ↦ rw e (read_piece_lem p off want served (ltb→lt _ _ e))
    | inr e ↦ rw e (
      slice_past want off (content byte (piece_cells p)) (
          omega (
            arith,
            ltb→ge _ _ e,
            length-map (λ (c : Cell). byte c.0 c.1) (piece_cells p),
            length-run_cells p.source p.offset p.length,
          )),
      refl,
    )
  ]

  -- A read of a tree whose readers hold its pieces: exactly the bytes of the document from `off` on,
  -- as many as fit, and no error.
  pub read_node_lem :
      (t : Node) (off want : ℕ)
      → IsCached t
      → AllServed read_at byte sources t
      → read_node read_at sources t off want ≡ (slice want off (content byte (cells t)), none)
  unfolding read_node cells
  read_node_lem nil off want c served =
      ap (λ xs. (xs, none)) (sym (ap (take want) (drop_nil off) ∙ take_nil want))
  read_node_lem (node p pr l r s) off want c served =
      let below = ltb off (node_bytes l) in
      let left = (if below then read_node read_at sources l off want else ([], none)) in
      let off1 = (if below then 0 else off - node_bytes l) in
      let want1 = want - length left.0 in
      let within = ltb off1 p.length in
      let piece = (if within then read_piece read_at sources p off1 want1 else ([], none)) in
      let off2 = (if within then 0 else off1 - p.length) in
      let want2 = want - length (left.0 ++ piece.0) in
      let at_piece = piece_stage p off1 want1 served.1 in
      let at_right = read_node_lem r off2 want2 c.2 served.2 in
      let at_left = left_stage l off want c.1 (read_node_lem l off want c.1 served.0) in
      three_parts want (node_bytes l) p.length off off1 off2 (min want1 (p.length - off1)) left
        piece (read_node read_at sources r off2 want2) (content byte (cells l))
        (content byte (piece_cells p)) (content byte (cells r))
        (length-map (λ (x : Cell). byte x.0 x.1) (cells l) ∙ sym (node_bytes-length l c.1))
        (length-map (λ (x : Cell). byte x.0 x.1) (piece_cells p)
          ∙ length-run_cells p.source p.offset p.length)
        (offset_behind off (node_bytes l)) (offset_behind off1 p.length) at_left at_piece.0
        at_piece.1 at_right
      ∙ ap (λ xs. (slice want off xs, none)) (sym (content-node p l r))
