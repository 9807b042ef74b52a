-- ===== src/Store/Split.antt =====
-- document/store/tree.go: split cuts the document that a tree stands for.
use docengine.Prelude.{
  ℕ, ◌+◌, ◌-◌, ◌≤◌, ◌<◌, ◌≡◌, refl, sym, ap, ◌∙◌, List, [], ◌++◌, append-nil, append_assoc, arith,
  length, take_nil, drop_nil, take, drop, take-append_le, drop-append_le, take-append_ge,
  drop-append_ge, take-append_add, drop-append_add,
}
use docengine.Store.Node.{
  Piece, Node, nil, node, node_bytes, recalc, split, left_piece, right_piece,
}
use docengine.Store.Content.{
  Cell, cells, piece_cells, length-run_cells, piece_cells-cut, IsCached, node_bytes-length,
  cells-merge, merge-IsCached, split_cases,
}

abbrev Cuts : ℕ → List Cell → Node × Node → Type 0
Cuts pos xs r = (cells r.0 ≡ take pos xs) × (cells r.1 ≡ drop pos xs)

module _ {ℓ} {A : Type ℓ} where
  take_third :
      (xs ys zs : List A) (n : ℕ)
      → length xs + length ys ≤ n
      → take n (xs ++ (ys ++ zs)) ≡ xs ++ (ys ++ take (n - (length xs + length ys)) zs)
  take_third xs ys zs n h =
      let e : n - length xs - length ys ≡ n - (length xs + length ys) = omega arith in
      take-append_ge n xs (ys ++ zs) (omega arith)
      ∙ ap (xs ++◌)
          (take-append_ge (n - length xs) ys zs (omega arith) ∙ ap (λ k. ys ++ take k zs) e)

  drop_third :
      (xs ys zs : List A) (n : ℕ)
      → length xs + length ys ≤ n
      → drop n (xs ++ (ys ++ zs)) ≡ drop (n - (length xs + length ys)) zs
  drop_third xs ys zs n h =
      let e : n - length xs - length ys ≡ n - (length xs + length ys) = omega arith in
      drop-append_ge n xs (ys ++ zs) (omega arith)
      ∙ drop-append_ge (n - length xs) ys zs (omega arith)
      ∙ ap (λ k. drop k zs) e

  take_second :
      (xs ys us zs : List A) {n : ℕ}
      → n ≡ length xs + length ys
      → xs ++ ys ≡ take n (xs ++ ((ys ++ us) ++ zs))
  take_second xs ys us zs h =
      rw (h, append_assoc ys us zs)
        (sym (
          take_third xs ys (us ++ zs) (length xs + length ys) (omega arith)
          ∙ (let e : length xs + length ys - (length xs + length ys) ≡ 0 = omega arith in
              rw (e, append-nil ys))))

  drop_second :
      (xs ys us zs : List A) {n : ℕ}
      → n ≡ length xs + length ys
      → us ++ zs ≡ drop n (xs ++ ((ys ++ us) ++ zs))
  drop_second xs ys us zs h =
      rw (h, append_assoc ys us zs)
        (sym (
          drop_third xs ys (us ++ zs) (length xs + length ys) (omega arith)
          ∙ (let e : length xs + length ys - (length xs + length ys) ≡ 0 = omega arith in rw e)))

-- The five cuts of a node: `n` bytes lie left of the piece.
module _ (p : Piece) (l r : Node) (pos : ℕ) (n : ℕ) (left_bytes : length (cells l) ≡ n) where
  abbrev doc : List Cell
  doc = cells l ++ (piece_cells p ++ cells r)

  piece_bytes : length (piece_cells p) ≡ p.length
  piece_bytes = length-run_cells p.source p.offset p.length

  cut_below :
      (a b : List Cell)
      → pos < n
      → a ≡ take pos (cells l)
      → b ≡ drop pos (cells l)
      → (a ≡ take pos doc) × (b ++ (piece_cells p ++ cells r) ≡ drop pos doc)
  cut_below a b h e f = (
    e ∙ sym (take-append_le pos (cells l) _ (omega arith)),
    rw f (sym (drop-append_le pos (cells l) _ (omega arith))),
  )

  cut_above :
      (a b : List Cell)
      → n + p.length ≤ pos
      → a ≡ take (pos - (n + p.length)) (cells r)
      → b ≡ drop (pos - (n + p.length)) (cells r)
      → (cells l ++ (piece_cells p ++ a) ≡ take pos doc) × (b ≡ drop pos doc)
  cut_above a b h e f =
      let m : length (cells l) + length (piece_cells p) ≡ n + p.length =
        omega (arith, piece_bytes) in
      (
        rw (e, ← m) (sym (take_third (cells l) (piece_cells p) (cells r) pos (omega arith))),
        rw (f, ← m) (sym (drop_third (cells l) (piece_cells p) (cells r) pos (omega arith))),
      )

  cut_start : pos ≡ n → (cells l ≡ take pos doc) × (piece_cells p ++ cells r ≡ drop pos doc)
  cut_start h =
      let e : pos ≡ length (cells l) + 0 = omega arith in
      (
        rw (e, take-append_add (cells l) (piece_cells p ++ cells r) 0) (sym (append-nil (cells l))),
        rw (e, drop-append_add (cells l) (piece_cells p ++ cells r) 0),
      )

  cut_end :
      pos ≡ n + p.length
      → (cells l ++ (piece_cells p ++ []) ≡ take pos doc) × (cells r ≡ drop pos doc)
  cut_end h =
      let e : pos - (n + p.length) ≡ 0 = omega arith in
      cut_above [] (cells r) (omega arith) (rw e) (rw e)

  cut_inside :
      n ≤ pos
      → pos ≤ n + p.length
      → (cells l ++ piece_cells (left_piece p (pos - n)) ≡ take pos doc)
        × (piece_cells (right_piece p (pos - n)) ++ cells r ≡ drop pos doc)
  cut_inside h k =
      let e = length-run_cells p.source p.offset (pos - n) in
      let m : length (cells l) + length (piece_cells (left_piece p (pos - n))) ≡ pos =
        omega (arith, e) in
      let c = piece_cells-cut p (pos - n) (omega arith) in
      (
        take_second (cells l) (piece_cells (left_piece p (pos - n)))
              (piece_cells (right_piece p (pos - n))) (cells r) (sym m)
            ∙ ap (λ y. take pos (cells l ++ (y ++ cells r))) (sym c),
        drop_second (cells l) (piece_cells (left_piece p (pos - n)))
              (piece_cells (right_piece p (pos - n))) (cells r) (sym m)
            ∙ ap (λ y. drop pos (cells l ++ (y ++ cells r))) (sym c),
      )

abbrev cut_right : Piece → ℕ → ℕ → Node
cut_right p pr k = recalc (right_piece p k) pr nil nil

-- Splitting a tree whose cached counts are right, at any position, gives trees that stand for the
-- document up to that position and from it on.
pub split-Cuts : (t : Node) (pos : ℕ) → IsCached t → Cuts pos (cells t) (split t pos)
unfolding cells split
split-Cuts nil pos c = (sym (take_nil pos), sym (drop_nil pos))
split-Cuts (node p pr l r s) pos c =
    let n = node_bytes l in
    let lb = sym (node_bytes-length l c.1) in
    split_cases (Cuts pos (cells (node p pr l r s))) p pr l r s pos
      (λ h. let ih = split-Cuts l pos c.1 in cut_below p l r pos n lb _ _ h ih.0 ih.1)
      (λ h.
        let ih = split-Cuts r (pos - (n + p.length)) c.2 in
        cut_above p l r pos n lb _ _ (omega arith) ih.0 ih.1)
      (λ h. cut_start p l r pos n lb h) (λ h. cut_end p l r pos n lb h)
      (λ h k.
        let ih = cut_inside p l r pos n lb (omega arith) (omega arith) in
        (
          cells-merge l _ ∙ ap (cells l ++◌) (append-nil _) ∙ ih.0,
          cells-merge (cut_right p pr (pos - n)) r ∙ ap (◌++ cells r) (append-nil _) ∙ ih.1,
        ))

pub split-IsCached :
    (t : Node) (pos : ℕ) → IsCached t → IsCached (split t pos).0 × IsCached (split t pos).1
unfolding split
split-IsCached nil pos c = (tt, tt)
split-IsCached (node p pr l r s) pos c =
    split_cases (λ z. IsCached z.0 × IsCached z.1) p pr l r s pos
      (λ h. let ih = split-IsCached l pos c.1 in (ih.0, (refl, ih.1, c.2)))
      (λ h. let ih = split-IsCached r _ c.2 in ((refl, c.1, ih.0), ih.1))
      (λ h. (c.1, (refl, tt, c.2))) (λ h. ((refl, c.1, tt), c.2))
      (λ h k. (
        merge-IsCached l _ c.1 (refl, tt, tt),
        merge-IsCached (cut_right p pr (pos - node_bytes l)) r (refl, tt, tt) c.2,
      ))
