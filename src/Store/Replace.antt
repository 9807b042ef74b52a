-- ===== src/Store/Replace.antt =====
-- document/store/tree.go: ReplacePiece as its callers see it.
use docengine.Prelude.{◌+◌, ◌≡◌, refl, ◌++◌, take, drop, to_ℕ, ℤ, ok}
use docengine.Store.Content.{piece_cells}
use docengine.Store.Tree.{Tree, PieceArg, snapshot, replace_piece, normalize_piece, piece_of}
use docengine.Store.Invariant.{IsValid, document}
use docengine.Store.Edit.{Accepts, edited, edited-document, replace_piece_iff}

module _ {ℓ} {R : Type ℓ} where
  -- On a valid tree an accepted ReplacePiece succeeds, keeps the invariant of the tree, turns the
  -- document into the old one with the range replaced by the piece, and returns the snapshots of
  -- the old and of the new tree.
  pub replace_piece_lem :
      (t : Tree R) (start deleted : ℤ) (p : PieceArg)
      → IsValid t
      → Accepts t start deleted (normalize_piece p)
      → (t' : Tree R) × (replace_piece t start deleted p ≡ ok (t', snapshot t, snapshot t'))
        × IsValid t'
        × (document t'
            ≡ take (to_ℕ start) (document t)
              ++ (piece_cells (piece_of (normalize_piece p))
                  ++ drop (to_ℕ start + to_ℕ deleted) (document t)))
  replace_piece_lem t start deleted p v a =
      let e = edited-document t start deleted p v a in
      (edited t start deleted p, (replace_piece_iff t start deleted p _ v).1 (a, refl), e.0, e.1)
