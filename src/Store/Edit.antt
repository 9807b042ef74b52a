-- ===== src/Store/Edit.antt =====
-- document/store/tree.go: ReplacePiece.
use docengine.Prelude.{
  >>-eq-ok, ok-injective, four_checks, ok, ℕ, ◌+◌, ◌-◌, ◌≤◌, ◌<◌, ◌≡◌, ◌↔◌, sym, ap, ◌∙◌, inl, inr,
  Bool, true, false, ◌&&◌, ◌||◌, ltb, Bool-cases, List, ◌++◌, arith, length, length-append,
  length-take, length-drop, take, drop, take-append-drop, max_int64, ℤ, is_negative, to_ℕ, is_zero,
  if◌then◌else◌,
}
use docengine.Store.Node.{Piece, node_bytes}
use docengine.Store.Content.{
  Cell, cells, piece_cells, length-run_cells, run_cells, node_bytes-length,
}
use docengine.Store.Order.{IsPiece}
use docengine.Store.Tree.{
  check_edit, Tree, Snapshot, PieceArg, snapshot, spliced, replace_piece, maybe_auto_compact,
  normalize_piece, validate_piece, piece_of, is_nil,
}
use docengine.Store.Invariant.{IsValid, document}
use docengine.Store.Auto.{maybe_auto_compact_lem}
use docengine.Store.Splice.{spliced-cells, spliced-IsSound}

-- What ReplacePiece asks of its arguments.
pub record Accepts {ℓ} {R : Type ℓ} (t : Tree R) (start deleted : ℤ) (p : PieceArg) : Type 0 where
  pub start_sign : is_negative start ≡ false
  pub deleted_sign : is_negative deleted ≡ false
  pub in_range : to_ℕ start + to_ℕ deleted ≤ node_bytes t.root
  pub piece_ok : validate_piece p ≡ ok tt
  pub source_ok : 0 < to_ℕ p.length → is_nil (t.sources p.source) ≡ false
  pub room : node_bytes t.root - to_ℕ deleted + to_ℕ p.length ≤ max_int64

range_test :
    (n : ℕ) (start deleted : ℤ)
    → ((is_negative start
          || (is_negative deleted || (ltb n (to_ℕ start) || ltb (n - to_ℕ start) (to_ℕ deleted))))
        ≡ false)
      ↔ ((is_negative start ≡ false)
          × (is_negative deleted ≡ false)
          × (to_ℕ start + to_ℕ deleted ≤ n))
range_test n start deleted = ground arith

source_test : (n : ℕ) (b : Bool) → ((ltb 0 n && b) ≡ false) ↔ (0 < n → b ≡ false)
source_test n b = ground arith

room_test : (n k : ℕ) → n ≤ max_int64 → (ltb (max_int64 - n) k ≡ false) ↔ (n + k ≤ max_int64)
room_test n k h = ground arith

pub piece_of-IsPiece :
    (p : PieceArg)
    → validate_piece (normalize_piece p) ≡ ok tt
    → 0 < to_ℕ (normalize_piece p).length
    → to_ℕ (normalize_piece p).length ≤ max_int64
    → IsPiece (piece_of (normalize_piece p))
unfolding validate_piece normalize_piece
piece_of-IsPiece p h k m = ground arith

-- An edit that changes nothing.
noop_document :
    (xs : List Cell) (start : ℕ) (d n : ℤ) (src off : ℕ)
    → (is_zero d && is_zero n) ≡ true
    → xs ≡ take start xs ++ (run_cells src off (to_ℕ n) ++ drop (start + to_ℕ d) xs)
noop_document xs start d n src off h =
    let z : (to_ℕ d ≡ 0) × (to_ℕ n ≡ 0) = ground arith in
    let e : start + 0 ≡ start = omega arith in rw (z.0, z.1, e) (sym (take-append-drop start xs))

module _ {ℓ} {R : Type ℓ} where
  -- The tree that an accepted edit leaves.
  abbrev pub edited : Tree R → ℤ → ℤ → PieceArg → Tree R
  edited t start deleted p =
      let (rng', root') =
        spliced t.rng t.root (to_ℕ start) (to_ℕ deleted) (piece_of (normalize_piece p)) in
      if is_zero deleted && is_zero (normalize_piece p).length
      then t
      else maybe_auto_compact (record t { root = root'; rng = rng' })

  -- The guards pass exactly on the edits that are accepted.
  check_edit_iff :
      (t : Tree R) (start deleted : ℤ) (p : PieceArg)
      → node_bytes t.root ≤ max_int64
      → (check_edit t start deleted p ≡ ok tt) ↔ Accepts t start deleted p
  unfolding check_edit
  check_edit_iff t start deleted p fits = (
    λ h.
        let z = (four_checks _ _ _ _ _ _ _).0 h in
        let r = (range_test (node_bytes t.root) start deleted).0 z.0 in
        record {
          start_sign = r.0;
          deleted_sign = r.1;
          in_range = r.2;
          piece_ok = z.1;
          source_ok = (source_test (to_ℕ p.length) (is_nil (t.sources p.source))).0 z.2;
          room = (room_test (node_bytes t.root - to_ℕ deleted) (to_ℕ p.length) (omega arith)).0 z.3;
        },
    λ a. (four_checks _ _ _ _ _ _ _).1 (
      (range_test (node_bytes t.root) start deleted).1 (a.start_sign, a.deleted_sign, a.in_range),
      a.piece_ok,
      (source_test (to_ℕ p.length) (is_nil (t.sources p.source))).1 a.source_ok,
      (room_test (node_bytes t.root - to_ℕ deleted) (to_ℕ p.length) (omega arith)).1 a.room,
    ),
  )

  replace_piece-eq-ok :
      (t : Tree R) (start deleted : ℤ) (p : PieceArg) (r : Tree R × Snapshot R × Snapshot R)
      → replace_piece t start deleted p ≡ ok r
      → (check_edit t start deleted (normalize_piece p) ≡ ok tt)
        × ((edited t start deleted p, snapshot t, snapshot (edited t start deleted p)) ≡ r)
  unfolding replace_piece
  replace_piece-eq-ok t start deleted p r h =
      let (checked, h') = >>-eq-ok (check_edit t start deleted (normalize_piece p)) _ h in
      (
        checked,
        elim (Bool-cases (is_zero deleted && is_zero (normalize_piece p).length)) [
          | inl e ↦ rw e (ok-injective (rw e at h'))
          | inr e ↦ rw e (ok-injective (rw e at h'))
        ],
      )

  replace_piece_runs :
      (t : Tree R) (start deleted : ℤ) (p : PieceArg)
      → check_edit t start deleted (normalize_piece p) ≡ ok tt
      → replace_piece t start deleted p
        ≡ ok (edited t start deleted p, snapshot t, snapshot (edited t start deleted p))
  unfolding replace_piece
  replace_piece_runs t start deleted p h =
      elim (Bool-cases (is_zero deleted && is_zero (normalize_piece p).length)) [
        | inl e ↦ rw (h, e)
        | inr e ↦ rw (h, e)
      ]

  spliced_tree-IsValid :
      (t : Tree R) (start deleted : ℕ) (p : Piece)
      → IsValid t
      → (0 < p.length → IsPiece p)
      → start + deleted ≤ node_bytes t.root
      → node_bytes t.root - deleted + p.length ≤ max_int64
      → IsValid (record t {
        root = (spliced t.rng t.root start deleted p).1;
        rng = (spliced t.rng t.root start deleted p).0;
      })
  spliced_tree-IsValid t start deleted p v h in_range room =
      let s = spliced-IsSound t.rng t.root start deleted p v.sound h in
      record {
        sound = s;
        fits = omega (
          arith,
          node_bytes-length (spliced t.rng t.root start deleted p).1 s.cached,
          ap length (spliced-cells t.rng t.root start deleted p v.sound.cached),
          length-append (take start (cells t.root))
              (piece_cells p ++ drop (start + deleted) (cells t.root)),
          length-append (piece_cells p) (drop (start + deleted) (cells t.root)),
          length-take start (cells t.root),
          length-drop (start + deleted) (cells t.root),
          length-run_cells p.source p.offset p.length,
          node_bytes-length t.root v.sound.cached,
        );
        limit = v.limit;
        limit_fits = v.limit_fits;
        scheduled = v.scheduled;
      }

  -- An accepted edit keeps the invariant, and the document after it is the old one with the range
  -- replaced by the piece, also where nothing changes and where the automatic compaction runs.
  pub edited-document :
      (t : Tree R) (start deleted : ℤ) (p : PieceArg)
      → IsValid t
      → Accepts t start deleted (normalize_piece p)
      → IsValid (edited t start deleted p)
        × (document (edited t start deleted p)
            ≡ take (to_ℕ start) (document t)
              ++ (piece_cells (piece_of (normalize_piece p))
                  ++ drop (to_ℕ start + to_ℕ deleted) (document t)))
  edited-document t start deleted p v a =
      elim (Bool-cases (is_zero deleted && is_zero (normalize_piece p).length)) [
        | inl e ↦ rw e (
          v,
          noop_document (cells t.root) (to_ℕ start) deleted (normalize_piece p).length
              (normalize_piece p).source (to_ℕ (normalize_piece p).offset) e,
        )
        | inr e ↦
            let q = piece_of (normalize_piece p) in
            let w =
              spliced_tree-IsValid t (to_ℕ start) (to_ℕ deleted) q v
                (λ k. piece_of-IsPiece p a.piece_ok k (omega arith)) a.in_range a.room in
            let m = maybe_auto_compact_lem _ w in
            rw e
              (m.0, m.1 ∙ spliced-cells t.rng t.root (to_ℕ start) (to_ℕ deleted) q v.sound.cached)
      ]

  -- On a valid tree ReplacePiece returns a result exactly when its arguments are accepted (signs,
  -- range, piece, source, total length), and the result is the edited tree with the two snapshots.
  pub replace_piece_iff :
      (t : Tree R) (start deleted : ℤ) (p : PieceArg) (r : Tree R × Snapshot R × Snapshot R)
      → IsValid t
      → (replace_piece t start deleted p ≡ ok r) ↔ (
          Accepts t start deleted (normalize_piece p)
          × ((edited t start deleted p, snapshot t, snapshot (edited t start deleted p)) ≡ r))
  replace_piece_iff t start deleted p r v =
      let c = check_edit_iff t start deleted (normalize_piece p) v.fits in
      (
        λ h. let z = replace_piece-eq-ok t start deleted p r h in (c.0 z.0, z.1),
        λ a. replace_piece_runs t start deleted p (c.1 a.0) ∙ ap ok a.1,
      )
