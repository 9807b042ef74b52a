-- ===== src/Store/Tests.antt =====
-- document/store/tree.go: a small tree of two sources, and the theorems applied to it.
use docengine.Prelude.{
  ℕ, ◌+◌, ◌≤◌, ◌<◌, max_uint64, ◌≡◌, ◌↔◌, ◌⊎◌, refl, ◌++◌, take, drop, pos, ok, true, false, List,
  [], ◌∷◌, some, arith,
}
use docengine.Store.Node.{source_base, source_journal, node_piece_count, split, pieces}
use docengine.Store.Content.{run_cells, piece_cells}
use docengine.Store.Order.{IsHeap, split-IsHeap}
use docengine.Store.Tree.{
  Tree, Snapshot, PieceArg, Options, snapshot, replace_piece, normalize_piece, piece_of, initial,
  new_with_base_piece_options, resolve_options, validate_piece, set_source, make_node, compact,
  maybe_auto_compact, restore,
}
use docengine.Store.Compact.{IsCompact}
use docengine.Store.Invariant.{IsValid, document, compact_lem}
use docengine.Store.Auto.{maybe_auto_compact_lem, maybe_auto_compact_bounded, IsScheduled}
use docengine.Store.Edit.{Accepts, edited, edited-document, replace_piece_iff}
use docengine.Store.Replace.{replace_piece_lem}
use docengine.Store.Lifecycle.{new_lem, restore_lem, set_source-IsValid}

abbrev bytes : List ℕ
bytes = 104 ∷ 101 ∷ 108 ∷ 108 ∷ 111 ∷ 10 ∷ []

abbrev base_arg : PieceArg
base_arg = record {
  source = source_base;
  offset = pos 0;
  length = pos 6;
  newlines = pos 1;
  newlines_known = true;
}

abbrev word_arg : PieceArg
word_arg = record {
  source = source_journal;
  offset = pos 1;
  length = pos 3;
  newlines = pos 0;
  newlines_known = false;
}

abbrev limits : Options
limits = record { auto_compact_pieces = pos 2; disable_auto_compact = false }

abbrev small_tree : Tree (List ℕ)
small_tree = initial (some bytes) (piece_of base_arg) 2

new_lem_example : IsValid small_tree × (document small_tree ≡ run_cells source_base 0 6)
unfolding new_with_base_piece_options normalize_piece validate_piece resolve_options
new_lem_example = new_lem (some bytes) base_arg limits small_tree (omega arith) (omega arith) refl

small_tree-IsValid : IsValid small_tree
unfolding new_with_base_piece_options normalize_piece validate_piece resolve_options
small_tree-IsValid =
    (new_lem (some bytes) base_arg limits small_tree (omega arith) (omega arith) refl).0

abbrev two_sources : Tree (List ℕ)
two_sources = set_source small_tree source_journal (some bytes)

two_sources-IsValid : IsValid two_sources
two_sources-IsValid = set_source-IsValid small_tree source_journal (some bytes) small_tree-IsValid

word_accepted : Accepts two_sources (pos 2) (pos 1) (normalize_piece word_arg)
unfolding set_source initial make_node validate_piece normalize_piece
word_accepted = record {
  start_sign = refl;
  deleted_sign = refl;
  in_range = omega arith;
  piece_ok = refl;
  source_ok = λ _. refl;
  room = omega arith;
}

replace_piece_lem_example :
    (t' : Tree (List ℕ)) × (replace_piece two_sources (pos 2) (pos 1) word_arg
      ≡ ok (t', snapshot two_sources, snapshot t'))
    × IsValid t'
    × (document t'
        ≡ take 2 (document two_sources)
          ++ (piece_cells (piece_of (normalize_piece word_arg))
              ++ drop (2 + 1) (document two_sources)))
replace_piece_lem_example =
    replace_piece_lem two_sources (pos 2) (pos 1) word_arg two_sources-IsValid word_accepted

abbrev edited_tree : Tree (List ℕ)
edited_tree = edited two_sources (pos 2) (pos 1) word_arg

abbrev after_edit : Tree (List ℕ) × Snapshot (List ℕ) × Snapshot (List ℕ)
after_edit = (edited_tree, snapshot two_sources, snapshot edited_tree)

replace_piece_iff_example :
    (replace_piece two_sources (pos 2) (pos 1) word_arg ≡ ok after_edit)
    ↔ (Accepts two_sources (pos 2) (pos 1) (normalize_piece word_arg) × (after_edit ≡ after_edit))
replace_piece_iff_example =
    replace_piece_iff two_sources (pos 2) (pos 1) word_arg after_edit two_sources-IsValid

edited_tree-IsValid : IsValid edited_tree
edited_tree-IsValid =
    (edited-document two_sources (pos 2) (pos 1) word_arg two_sources-IsValid word_accepted).0

compact_lem_example :
    IsValid (compact edited_tree).0
    × (document (compact edited_tree).0 ≡ document edited_tree)
    × IsCompact (pieces (compact edited_tree).0.root)
    × (node_piece_count (compact edited_tree).0.root ≡ (compact edited_tree).1.after_pieces)
    × ((compact edited_tree).1.after_pieces ≤ node_piece_count edited_tree.root)
compact_lem_example = compact_lem edited_tree edited_tree-IsValid

maybe_auto_compact_lem_example :
    IsValid (maybe_auto_compact edited_tree)
    × (document (maybe_auto_compact edited_tree) ≡ document edited_tree)
maybe_auto_compact_lem_example = maybe_auto_compact_lem edited_tree edited_tree-IsValid

maybe_auto_compact_bounded_example :
    ((node_piece_count small_tree.root < small_tree.next_auto_compact_pieces)
      × (maybe_auto_compact small_tree ≡ small_tree))
    ⊎ IsScheduled (maybe_auto_compact small_tree)
unfolding initial
maybe_auto_compact_bounded_example =
    maybe_auto_compact_bounded small_tree small_tree-IsValid (omega arith)

restore_lem_example :
    IsValid (restore edited_tree (snapshot small_tree))
    × (snapshot (restore edited_tree (snapshot small_tree)) ≡ snapshot small_tree)
    × (document (restore edited_tree (snapshot small_tree)) ≡ document small_tree)
    × ((edited_tree.auto_compact_pieces ≡ 0)
        ⊎ (node_piece_count small_tree.root < edited_tree.auto_compact_pieces)
        ⊎ IsCompact (pieces (maybe_auto_compact (restore edited_tree (snapshot small_tree))).root))
restore_lem_example = restore_lem edited_tree small_tree edited_tree-IsValid small_tree-IsValid

split-IsHeap_example :
    IsHeap max_uint64 (split small_tree.root 2).0 × IsHeap max_uint64 (split small_tree.root 2).1
split-IsHeap_example = split-IsHeap small_tree.root 2 max_uint64 small_tree-IsValid.sound.heap
