-- ===== src/Store/Order.antt =====
-- document/store/tree.go: the heap order of the treap, and what every piece in it satisfies.
use docengine.Prelude.{
  ℕ, ◌+◌, ◌-◌, ◌≤◌, ◌<◌, ◌≡◌, sym, subst, true, false, ◌∷◌, arith, All, All-append, All-append_inv,
  max_int64,
}
use docengine.Store.Node.{
  Piece, Summary, Node, nil, node, node_bytes, recalc, merge, split, pieces, left_piece,
  right_piece,
}
use docengine.Store.Content.{pieces-merge, merge_cases, split_cases}

-- Priorities fall along every path from the root, and stay at most `b`.
abbrev pub IsHeap : ℕ → Node → Type 0
IsHeap b nil = Unit {0}
IsHeap b (node p pr l r s) = (pr ≤ b) × IsHeap pr l × IsHeap pr r

IsHeap-mono : (b c : ℕ) (t : Node) → b ≤ c → IsHeap b t → IsHeap c t
IsHeap-mono b c nil h k = tt
IsHeap-mono b c (node p pr l r s) h k = (omega arith, k.1, k.2)

pub merge-IsHeap : (l r : Node) (b : ℕ) → IsHeap b l → IsHeap b r → IsHeap b (merge l r)
merge-IsHeap =
    merge_cases (λ l r m. (b : ℕ) → IsHeap b l → IsHeap b r → IsHeap b m) (λ r b hl hr. hr)
      (λ l b hl hr. hl)
      (λ p pr l r s q qr m t u z h ih b hl hr. (hl.0, hl.1, ih pr hl.2 (h, hr.1, hr.2)))
      (λ p pr l r s q qr m t u z h ih b hl hr. (hr.0, ih qr (omega arith, hl.1, hl.2) hr.1, hr.2))

-- Splitting a tree in heap order under a bound gives two trees in heap order under that bound.
pub split-IsHeap :
    (t : Node) (pos b : ℕ) → IsHeap b t → IsHeap b (split t pos).0 × IsHeap b (split t pos).1
unfolding split
split-IsHeap nil pos b h = (tt, tt)
split-IsHeap (node p pr l r s) pos b h =
    split_cases (λ z. IsHeap b z.0 × IsHeap b z.1) p pr l r s pos
      (λ _.
        let ih = split-IsHeap l pos pr h.1 in
        (IsHeap-mono pr b (split l pos).0 h.0 ih.0, (h.0, ih.1, h.2)))
      (λ _.
        let ih = split-IsHeap r (pos - (node_bytes l + p.length)) pr h.2 in
        ((h.0, h.1, ih.0), IsHeap-mono pr b _ h.0 ih.1))
      (λ _. (IsHeap-mono pr b l h.0 h.1, (h.0, tt, h.2)))
      (λ _. ((h.0, h.1, tt), IsHeap-mono pr b r h.0 h.2))
      (λ _ _.
        let one : pr ≤ pr = omega arith in
        (
          IsHeap-mono pr b _ h.0 (
              merge-IsHeap l (recalc (left_piece p (pos - node_bytes l)) pr nil nil) pr h.1
                (one, tt, tt)),
          IsHeap-mono pr b _ h.0 (
              merge-IsHeap (recalc (right_piece p (pos - node_bytes l)) pr nil nil) r pr
                (one, tt, tt) h.2),
        ))

-- What `validatePiece` admits, for a piece that is not empty.
pub record IsPiece (p : Piece) : Type 0 where
  pub not_empty : 0 < p.length
  pub in_range : p.offset + p.length ≤ max_int64
  pub newlines_fit : p.newlines_known ≡ true → p.newlines ≤ p.length
  pub unknown_zero : p.newlines_known ≡ false → p.newlines ≡ 0

left_piece-IsPiece :
    (p : Piece) (k : ℕ) → IsPiece p → 0 < k → k < p.length → IsPiece (left_piece p k)
left_piece-IsPiece p k v h g = ground arith

right_piece-IsPiece :
    (p : Piece) (k : ℕ) → IsPiece p → 0 < k → k < p.length → IsPiece (right_piece p k)
right_piece-IsPiece p k v h g = ground arith

pub merge-pieces :
    (l r : Node)
    → All IsPiece (pieces l)
    → All IsPiece (pieces r)
    → All IsPiece (pieces (merge l r))
merge-pieces l r h k =
    subst (All IsPiece) (sym (pieces-merge l r)) (All-append IsPiece (pieces l) (pieces r) h k)

abbrev pub AllPieces : Node → Type 0
AllPieces t = All IsPiece (pieces t)

pub AllPieces-node :
    (p : Piece) (pr : ℕ) (l r : Node) (s : Summary)
    → AllPieces l
    → IsPiece p
    → AllPieces r
    → AllPieces (node p pr l r s)
unfolding pieces
AllPieces-node p pr l r s hl hp hr = All-append IsPiece (pieces l) (p ∷ pieces r) hl (hp, hr)

AllPieces-parts :
    (p : Piece) (pr : ℕ) (l r : Node) (s : Summary)
    → AllPieces (node p pr l r s)
    → AllPieces l × IsPiece p × AllPieces r
unfolding pieces
AllPieces-parts p pr l r s h =
    let z = All-append_inv IsPiece (pieces l) (p ∷ pieces r) h in (z.0, z.1.0, z.1.1)

pub AllPieces-nil : AllPieces nil
unfolding pieces
AllPieces-nil = tt

-- Splitting a tree of valid, nonempty pieces leaves valid, nonempty pieces in both halves.
pub split-AllPieces :
    (t : Node) (pos : ℕ) → AllPieces t → AllPieces (split t pos).0 × AllPieces (split t pos).1
unfolding split
split-AllPieces nil pos h = (AllPieces-nil, AllPieces-nil)
split-AllPieces (node p pr l r s) pos h =
    let (hl, hp, hr) = AllPieces-parts p pr l r s h in
    split_cases (λ z. AllPieces z.0 × AllPieces z.1) p pr l r s pos
      (λ _. let ih = split-AllPieces l pos hl in (ih.0, AllPieces-node p pr _ r _ ih.1 hp hr))
      (λ _.
        let ih = split-AllPieces r (pos - (node_bytes l + p.length)) hr in
        (AllPieces-node p pr l _ _ hl hp ih.0, ih.1))
      (λ _. (hl, AllPieces-node p pr nil r _ AllPieces-nil hp hr))
      (λ _. (AllPieces-node p pr l nil _ hl hp AllPieces-nil, hr))
      (λ a b. (
        merge-pieces l _ hl (
            AllPieces-node (left_piece p (pos - node_bytes l)) pr nil nil _ AllPieces-nil
              (left_piece-IsPiece p _ hp (omega arith) (omega arith)) AllPieces-nil),
        merge-pieces _ r
            (AllPieces-node (right_piece p (pos - node_bytes l)) pr nil nil _ AllPieces-nil
              (right_piece-IsPiece p _ hp (omega arith) (omega arith)) AllPieces-nil)
            hr,
      ))
