-- ===== src/Store/Compact.antt =====
-- document/store/tree.go: the walk of compactLocked joins neighbours and keeps the document.
use mathlib.Core.List.{reverse, reverse-cons}
use docengine.Prelude.{
  suc, ◌+◌, ◌≤◌, ◌≡◌, refl, sym, ap, ◌∙◌, subst, inl, inr, true, false, ◌==◌, Bool-cases, ==→eq,
  &&_true, List, [], ◌∷◌, ◌++◌, append-nil, append_assoc, arith, length, length-append, All,
  All-append,
}
use docengine.Store.Node.{Piece}
use docengine.Store.Content.{cells_of, cells_of-append, piece_cells, run_cells-add}
use docengine.Store.Order.{IsPiece}
use docengine.Store.Tree.{joins, joined, visit, visit_all, coalesce}

joined-cells :
    (p q : Piece) → joins p q ≡ true → piece_cells (joined p q) ≡ piece_cells p ++ piece_cells q
unfolding joins
joined-cells p q h =
    let e = &&_true (p.source == q.source) _ h in
    rw (← ==→eq _ _ e.0, ← ==→eq _ _ e.1) (run_cells-add p.source p.offset p.length q.length)

cells_reverse-cons :
    (p : Piece) (ps : List Piece)
    → cells_of (reverse (p ∷ ps)) ≡ cells_of (reverse ps) ++ piece_cells p
unfolding cells_of
cells_reverse-cons p ps =
    ap cells_of (reverse-cons p ps)
    ∙ cells_of-append (reverse ps) (p ∷ [])
    ∙ ap (cells_of (reverse ps) ++◌) (append-nil (piece_cells p))

visit-cells :
    (done : List Piece) (q : Piece)
    → cells_of (reverse (visit done q)) ≡ cells_of (reverse done) ++ piece_cells q
unfolding visit
visit-cells [] q = cells_reverse-cons q []
visit-cells (p ∷ done) q = elim (Bool-cases (joins p q)) [
  | inl e ↦
      rw (e, visit)
        (cells_reverse-cons (joined p q) done
          ∙ ap (cells_of (reverse done) ++◌) (joined-cells p q e)
          ∙ sym (append_assoc (cells_of (reverse done)) (piece_cells p) (piece_cells q))
          ∙ ap (◌++ piece_cells q) (sym (cells_reverse-cons p done)))
  | inr e ↦ rw (e, visit) (cells_reverse-cons q (p ∷ done))
]

visit_all-cells :
    (done ps : List Piece)
    → cells_of (reverse (visit_all done ps)) ≡ cells_of (reverse done) ++ cells_of ps
unfolding visit_all cells_of
visit_all-cells done [] = sym (append-nil _)
visit_all-cells done (q ∷ qs) =
    visit_all-cells (visit done q) qs
    ∙ ap (◌++ cells_of qs) (visit-cells done q)
    ∙ append_assoc (cells_of (reverse done)) (piece_cells q) (cells_of qs)

-- Joining neighbours keeps the document.
pub coalesce-cells : (ps : List Piece) → cells_of (coalesce ps) ≡ cells_of ps
unfolding coalesce cells_of
coalesce-cells ps = visit_all-cells [] ps

-- No two neighbours of the list can be joined; the head is the later one.
abbrev IsApart : List Piece → Type 0
IsApart [] = Unit {0}
IsApart (q ∷ []) = Unit {0}
IsApart (q ∷ p ∷ ps) = (joins p q ≡ false) × IsApart (p ∷ ps)

visit-IsApart : (done : List Piece) (q : Piece) → IsApart done → IsApart (visit done q)
unfolding visit joins
visit-IsApart [] q h = tt
visit-IsApart (p ∷ []) q h = ground arith
visit-IsApart (p ∷ o ∷ done) q h = ground arith

visit_all-IsApart : (done ps : List Piece) → IsApart done → IsApart (visit_all done ps)
unfolding visit_all
visit_all-IsApart done [] h = h
visit_all-IsApart done (q ∷ qs) h = visit_all-IsApart (visit done q) qs (visit-IsApart done q h)

visit-IsPiece :
    (done : List Piece) (q : Piece) → All IsPiece done → IsPiece q → All IsPiece (visit done q)
unfolding visit joins
visit-IsPiece [] q h v = (v, tt)
visit-IsPiece (p ∷ done) q (hp, hd) v = ground arith

visit_all-IsPiece :
    (done ps : List Piece) → All IsPiece done → All IsPiece ps → All IsPiece (visit_all done ps)
unfolding visit_all
visit_all-IsPiece done [] h k = h
visit_all-IsPiece done (q ∷ qs) h k =
    visit_all-IsPiece (visit done q) qs (visit-IsPiece done q h k.0) k.1

visit-length : (done : List Piece) (q : Piece) → length (visit done q) ≤ suc (length done)
unfolding visit
visit-length [] q = omega arith
visit-length (p ∷ done) q = ground arith

visit_all-length : (done ps : List Piece) → length (visit_all done ps) ≤ length done + length ps
unfolding visit_all
visit_all-length done [] = omega arith
visit_all-length done (q ∷ qs) =
    omega (arith, visit_all-length (visit done q) qs, visit-length done q)

-- A piece goes on, in its source, where another one ends.
abbrev pub IsContiguous : Piece → Piece → Type 0
IsContiguous p q = (p.source ≡ q.source) × (p.offset + p.length ≡ q.offset)

-- No two neighbours of a document's pieces are contiguous.
abbrev pub IsCompact : List Piece → Type 0
IsCompact [] = Unit {0}
IsCompact (p ∷ []) = Unit {0}
IsCompact (p ∷ q ∷ ps) = ¬ (IsContiguous p q) × IsCompact (q ∷ ps)

apart-IsContiguous : (p q : Piece) → joins p q ≡ false → ¬ (IsContiguous p q)
unfolding joins
apart-IsContiguous p q h c = ground (arith, h, c.0, c.1)

IsCompact-snoc :
    (xs : List Piece) (p q : Piece)
    → IsCompact (xs ++ p ∷ [])
    → ¬ (IsContiguous p q)
    → IsCompact (xs ++ p ∷ q ∷ [])
IsCompact-snoc [] p q c h = (h, tt)
IsCompact-snoc (x ∷ []) p q c h = (c.0, (h, tt))
IsCompact-snoc (x ∷ y ∷ xs) p q c h = (c.0, IsCompact-snoc (y ∷ xs) p q c.1 h)

IsApart-reverse : (ps : List Piece) → IsApart ps → IsCompact (reverse ps)
IsApart-reverse [] h = tt
IsApart-reverse (q ∷ []) h = tt
IsApart-reverse (q ∷ p ∷ ps) h =
    let e : reverse (q ∷ p ∷ ps) ≡ reverse ps ++ p ∷ q ∷ [] =
      reverse-cons q (p ∷ ps)
      ∙ ap (◌++ q ∷ []) (reverse-cons p ps)
      ∙ append_assoc (reverse ps) (p ∷ []) (q ∷ []) in
    subst IsCompact (sym e) (
      IsCompact-snoc (reverse ps) p q
        (subst IsCompact (reverse-cons p ps) (IsApart-reverse (p ∷ ps) h.1))
        (apart-IsContiguous p q h.0))

-- One pass leaves no neighbours to join.
pub coalesce-IsCompact : (ps : List Piece) → IsCompact (coalesce ps)
unfolding coalesce
coalesce-IsCompact ps = IsApart-reverse (visit_all [] ps) (visit_all-IsApart [] ps tt)

All-reverse : (ps : List Piece) → All IsPiece ps → All IsPiece (reverse ps)
All-reverse [] h = tt
All-reverse (p ∷ ps) h =
    rw (reverse-cons p ps) (All-append IsPiece (reverse ps) (p ∷ []) (All-reverse ps h.1) (h.0, tt))

pub coalesce-IsPiece : (ps : List Piece) → All IsPiece ps → All IsPiece (coalesce ps)
unfolding coalesce
coalesce-IsPiece ps h = All-reverse (visit_all [] ps) (visit_all-IsPiece [] ps tt h)

length-reverse : (ps : List Piece) → length (reverse ps) ≡ length ps
length-reverse [] = refl
length-reverse (p ∷ ps) =
    omega
      (arith, ap length (reverse-cons p ps), length-append (reverse ps) (p ∷ []), length-reverse ps)

pub length-coalesce-le : (ps : List Piece) → length (coalesce ps) ≤ length ps
unfolding coalesce
length-coalesce-le ps = omega (arith, length-reverse (visit_all [] ps), visit_all-length [] ps)
