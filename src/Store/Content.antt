-- ===== src/Store/Content.antt =====
-- document/store/tree.go: what a tree stands for, and that merge and split act on it as on a list.
use docengine.Prelude.{
  ℕ, zero, suc, ◌+◌, ◌-◌, ◌≤◌, ◌<◌, ◌≡◌, refl, sym, ap, ap₂, ◌∙◌, inl, inr, ltb, leb, ◌==◌,
  Bool-cases, leb→le, ltb→lt, ==→eq, List, [], ◌∷◌, ◌++◌, append-nil, append_assoc, arith, length,
  length-append,
}
use docengine.Store.Node.{
  SourceId, Piece, Summary, Node, nil, node, node_bytes, summary, recalc, merge, split, pieces,
  left_piece, right_piece,
}

-- One byte of a document: the source that holds it, and its offset there.
abbrev pub Cell : Type 0
Cell = SourceId × ℕ

abbrev pub run_cells : SourceId → ℕ → ℕ → List Cell
run_cells src off zero = []
run_cells src off (suc n) = (src, off) ∷ run_cells src (off + 1) n

abbrev pub piece_cells : Piece → List Cell
piece_cells p = run_cells p.source p.offset p.length

unfoldable pub cells_of : List Piece → List Cell
cells_of [] = []
cells_of (p ∷ ps) = piece_cells p ++ cells_of ps

-- The document that a tree stands for.
unfoldable pub cells : Node → List Cell
cells nil = []
cells (node p pr l r s) = cells l ++ (piece_cells p ++ cells r)

-- Every cached summary is the one that `recalc` would store.
abbrev pub IsCached : Node → Type 0
IsCached nil = Unit {0}
IsCached (node p pr l r s) = (s ≡ summary p l r) × IsCached l × IsCached r

pub length-run_cells : (src off n : ℕ) → length (run_cells src off n) ≡ n
length-run_cells src off zero = refl
length-run_cells src off (suc n) = ap suc (length-run_cells src (off + 1) n)

pub run_cells-add :
    (src off m n : ℕ) → run_cells src off (m + n) ≡ run_cells src off m ++ run_cells src (off + m) n
run_cells-add src off zero n =
    let e : 0 + n ≡ n = omega arith in
    let f : off ≡ off + 0 = omega arith in ap₂ (λ a k. run_cells src a k) f e
run_cells-add src off (suc m) n =
    let e : suc m + n ≡ suc (m + n) = omega arith in
    let f : off + 1 + m ≡ off + suc m = omega arith in
    ap (run_cells src off) e
    ∙ ap ((src, off) ∷◌) (
        run_cells-add src (off + 1) m n
        ∙ ap (λ a. run_cells src (off + 1) m ++ run_cells src a n) f)

-- The halves of a cut piece hold its bytes.
pub piece_cells-cut :
    (p : Piece) (k : ℕ)
    → k ≤ p.length
    → piece_cells p ≡ piece_cells (left_piece p k) ++ piece_cells (right_piece p k)
piece_cells-cut p k h =
    let e : p.length ≡ k + (p.length - k) = omega arith in
    ap (run_cells p.source p.offset) e ∙ run_cells-add p.source p.offset k (p.length - k)

pub cells_of-append : (ps qs : List Piece) → cells_of (ps ++ qs) ≡ cells_of ps ++ cells_of qs
unfolding cells_of
cells_of-append [] qs = refl
cells_of-append (p ∷ ps) qs =
    rw (cells_of-append ps qs) (sym (append_assoc (piece_cells p) (cells_of ps) (cells_of qs)))

pub cells-pieces : (t : Node) → cells t ≡ cells_of (pieces t)
unfolding cells cells_of pieces
cells-pieces nil = refl
cells-pieces (node p pr l r s) =
    rw (cells-pieces l, cells-pieces r) (sym (cells_of-append (pieces l) (p ∷ pieces r)))

-- The cached byte count is the length of the document.
pub node_bytes-length : (t : Node) → IsCached t → node_bytes t ≡ length (cells t)
unfolding cells
node_bytes-length nil c = refl
node_bytes-length (node p pr l r s) c = omega (
  arith,
  ap (λ (z : Summary). z.bytes) c.0,
  node_bytes-length l c.1,
  node_bytes-length r c.2,
  length-append (cells l) (piece_cells p ++ cells r),
  length-append (piece_cells p) (cells r),
  length-run_cells p.source p.offset p.length,
)

-- `merge` in its four cases.
pub merge_cases {ℓ} :
    (P : Node → Node → Node → Type ℓ)
    → ((r : Node) → P nil r r)
    → ((l : Node) → P l nil l)
    → ((p : Piece) (pr : ℕ) (l r : Node) (s : Summary) (q : Piece) (qr : ℕ) (m t : Node)
          (u : Summary) (z : Node)
        → qr ≤ pr
        → P r (node q qr m t u) z
        → P (node p pr l r s) (node q qr m t u) (recalc p pr l z))
    → ((p : Piece) (pr : ℕ) (l r : Node) (s : Summary) (q : Piece) (qr : ℕ) (m t : Node)
          (u : Summary) (z : Node)
        → pr < qr
        → P (node p pr l r s) m z
        → P (node p pr l r s) (node q qr m t u) (recalc q qr z t))
    → (l r : Node) → P l r (merge l r)
unfolding merge
merge_cases P empty_left empty_right go_right go_left nil right = empty_left right
merge_cases P empty_left empty_right go_right go_left (node p pr l r s) nil =
    empty_right (node p pr l r s)
merge_cases P empty_left empty_right go_right go_left (node p pr l r s) (node q qr m t u) =
    elim (Bool-cases (leb qr pr)) [
      | inl e ↦ rw e (
          go_right p pr l r s q qr m t u _ (leb→le _ _ e)
            (merge_cases P empty_left empty_right go_right go_left r (node q qr m t u)))
      | inr e ↦ rw e (
          go_left p pr l r s q qr m t u _ (ground arith)
            (merge_cases P empty_left empty_right go_right go_left (node p pr l r s) m))
    ]

-- Merging two trees gives a tree that stands for their documents one after the other.
pub cells-merge : (l r : Node) → cells (merge l r) ≡ cells l ++ cells r
unfolding cells
cells-merge =
    merge_cases (λ l r m. cells m ≡ cells l ++ cells r) (λ r. refl)
      (λ l. sym (append-nil (cells l))) (λ p pr l r s q qr m t u z h ih. rw ih (simp append_assoc))
      (λ p pr l r s q qr m t u z h ih. rw ih (simp append_assoc))

pub pieces-merge : (l r : Node) → pieces (merge l r) ≡ pieces l ++ pieces r
unfolding pieces
pieces-merge =
    merge_cases (λ l r m. pieces m ≡ pieces l ++ pieces r) (λ r. refl)
      (λ l. sym (append-nil (pieces l))) (λ p pr l r s q qr m t u z h ih. rw ih (simp append_assoc))
      (λ p pr l r s q qr m t u z h ih. rw ih (simp append_assoc))

pub merge-IsCached : (l r : Node) → IsCached l → IsCached r → IsCached (merge l r)
merge-IsCached =
    merge_cases (λ l r m. IsCached l → IsCached r → IsCached m) (λ r cl cr. cr) (λ l cl cr. cl)
      (λ p pr l r s q qr m t u z h ih cl cr. (refl, cl.1, ih cl.2 cr))
      (λ p pr l r s q qr m t u z h ih cl cr. (refl, ih cl cr.1, cr.2))

-- `split` in the cases of its node: below the piece, above it, at its two ends, and inside it.
pub split_cases {ℓ} :
    (P : Node × Node → Type ℓ) (p : Piece) (pr : ℕ) (l r : Node) (s : Summary) (pos : ℕ)
    → (pos < node_bytes l → P ((split l pos).0, recalc p pr (split l pos).1 r))
    → (node_bytes l + p.length < pos
        → P (
          recalc p pr l (split r (pos - (node_bytes l + p.length))).0,
          (split r (pos - (node_bytes l + p.length))).1,
        ))
    → (pos ≡ node_bytes l → P (l, recalc p pr nil r))
    → (pos ≡ node_bytes l + p.length → P (recalc p pr l nil, r))
    → (node_bytes l < pos
        → pos < node_bytes l + p.length
        → P (
          merge l (recalc (left_piece p (pos - node_bytes l)) pr nil nil),
          merge (recalc (right_piece p (pos - node_bytes l)) pr nil nil) r,
        ))
    → P (split (node p pr l r s) pos)
unfolding split
split_cases P p pr l r s pos below above at_start at_end inside =
    elim (Bool-cases (ltb pos (node_bytes l))) [
      | inl e ↦ rw e (below (ltb→lt _ _ e))
      | inr e ↦ elim (Bool-cases (ltb (node_bytes l + p.length) pos)) [
        | inl f ↦ rw (e, f) (above (ltb→lt _ _ f))
        | inr f ↦ elim (Bool-cases (pos == node_bytes l)) [
          | inl g ↦ rw (e, f, g) (at_start (==→eq _ _ g))
          | inr g ↦ elim (Bool-cases (pos == node_bytes l + p.length)) [
            | inl h ↦ rw (e, f, g, h) (at_end (==→eq _ _ h))
            | inr h ↦ rw (e, f, g, h) (inside (ground arith) (ground arith))
          ]
        ]
      ]
    ]
