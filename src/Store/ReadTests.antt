-- ===== src/Store/ReadTests.antt =====
-- document/store/tree.go: reads of small snapshots, and the theorems applied to them.
use docengine.Prelude.{
  ℕ, ◌+◌, ◌-◌, ◌==◌, ◌≤◌, ◌≡◌, refl, ap, pos, false, List, [], ◌∷◌, none, some, arith, length,
  slice, leb, if◌then◌else◌, min,
}
use docengine.Store.Node.{SourceId, source_base, source_journal, Piece, pieces}
use docengine.Store.Content.{cells, run_cells}
use docengine.Store.Tree.{Snapshot}
use docengine.Store.Read.{Outcome, end_of_file, snapshot_read_at, write_to}
use docengine.Store.Reading.{content, Serves}
use docengine.Store.Export.{
  snapshot_read_at_early_end, snapshot_read_at_lem, write_to_lem, read_end, two_pieces, Copies,
}

-- A reader of the alphabet's first `size` letters, and a section copy of it.
abbrev letter : SourceId → ℕ → ℕ
letter src i = 97 + i

abbrev read_letters : ℕ → ℕ → ℕ → Outcome
read_letters size want off = (
  content letter (run_cells source_base off (min want (size - off))),
  if leb (off + want) size then none else some end_of_file,
)

abbrev copy_letters : ℕ → ℕ → ℕ → Outcome
copy_letters size off n = read_letters size n off

abbrev piece_at : SourceId → ℕ → ℕ → Piece
piece_at src off n = record {
  source = src;
  offset = off;
  length = n;
  newlines = 0;
  newlines_known = false;
}

abbrev letters : Snapshot ℕ
letters = record {
  root = two_pieces (piece_at source_base 3 2) (piece_at source_base 0 3) 5 7;
  sources = λ j. some 20;
}

read_letters-Serves : (size : ℕ) → size ≤ 20 → Serves read_letters letter 20 source_base size
read_letters-Serves size fits want off h =
    let e : min want (20 - off) ≡ want = omega arith in
    (ap (λ n. content letter (run_cells source_base off n)) e, ground arith)

copy_letters-Copies : (size : ℕ) → size ≤ 20 → Copies copy_letters letter 20 source_base size
copy_letters-Copies size fits off n h =
    let e : min n (20 - off) ≡ n = omega arith in rw e (ground arith)

snapshot_read_at_lem_example :
    snapshot_read_at read_letters letters 3 (pos 1)
    ≡ (slice 3 1 (content letter (cells letters.root)), read_end (length (cells letters.root)) 3 1)
snapshot_read_at_lem_example =
    snapshot_read_at_lem read_letters letter letters 3 1 (refl, (refl, tt, tt), tt)
      (
        (tt, (20, refl, read_letters-Serves 5 (omega arith)), tt),
        (20, refl, read_letters-Serves 3 (omega arith)),
        tt,
      )

write_to_lem_example : write_to copy_letters letters ≡ (content letter (cells letters.root), none)
unfolding pieces
write_to_lem_example = write_to_lem copy_letters letter letters (
  (20, refl, copy_letters-Copies 5 (omega arith)),
  ((20, refl, copy_letters-Copies 3 (omega arith)), tt),
)

-- A base that has lost all but one of its bytes, before a piece of the journal.
abbrev list_read : List ℕ → ℕ → ℕ → Outcome
list_read r want off =
    (slice want off r, if leb (off + want) (length r) then none else some end_of_file)

abbrev cut_short : Snapshot (List ℕ)
cut_short = record {
  root = two_pieces (piece_at source_base 0 3) (piece_at source_journal 0 2) 5 7;
  sources = λ j. if j == source_base then some (97 ∷ []) else some (120 ∷ 121 ∷ 122 ∷ []);
}

snapshot_read_at_early_end_example :
    snapshot_read_at list_read cut_short 3 (pos 0) ≡ (97 ∷ 120 ∷ 121 ∷ [], none)
snapshot_read_at_early_end_example =
    snapshot_read_at_early_end list_read cut_short (piece_at source_base 0 3)
      (piece_at source_journal 0 2) 5 7 (97 ∷ []) (120 ∷ 121 ∷ 122 ∷ []) (97 ∷ []) (120 ∷ 121 ∷ [])
      refl refl refl refl refl (omega arith) refl (omega arith) (omega arith)
