-- ===== src/History/Tests.antt =====
-- document/change_history.go: a history of two maps in a ring of two, and the theorems applied to it.
use docengine.Prelude.{◌≡◌, refl, [], ◌∷◌, arith, length, ok, if◌then◌else◌}
use docengine.Coordinate.ChangeMap.{identity, new_change_map, check_edits}
use docengine.Coordinate.Compose.{compose_all, compose_loop}
use docengine.Coordinate.Tests.{
  first_map, second_map, both_maps, first_map-IsValid, second_map-IsValid,
}
use docengine.History.Ring.{set_at, slot, window, zeroes}
use docengine.History.Changes.{
  ChangeHistory, new_change_history, append, pushed, reset, retained, continues, between,
  boundary_length, find_boundary, collect, joined_chain,
}
use docengine.History.Retention.{IsRetained, kept}
use docengine.History.Append.{new_change_history-IsRetained, append-IsRetained, append_lem}
use docengine.History.Between.{Goes, between_lem}

abbrev fresh : ChangeHistory
fresh = new_change_history 2 4 4

fresh-IsRetained : IsRetained fresh
fresh-IsRetained = new_change_history-IsRetained 2 4 4 (omega arith) (omega arith)

abbrev one_change : ChangeHistory
one_change = append fresh first_map

one_change-IsRetained : IsRetained one_change
one_change-IsRetained =
    append-IsRetained fresh first_map fresh-IsRetained first_map-IsValid (λ _. omega arith)

abbrev two_changes : ChangeHistory
two_changes = append one_change second_map

two_changes-IsRetained : IsRetained two_changes
two_changes-IsRetained =
    append-IsRetained one_change second_map one_change-IsRetained second_map-IsValid
      (λ _. omega arith)

append-IsRetained_example : IsRetained two_changes
append-IsRetained_example =
    append-IsRetained one_change second_map one_change-IsRetained second_map-IsValid
      (λ _. omega arith)

append_lem_example :
    (two_changes.current_revision ≡ 6)
    × (two_changes.current_length ≡ 6)
    × (retained two_changes ≡ (
        if continues one_change second_map
        then kept (length one_change.entries) (retained one_change) second_map
        else second_map ∷ []))
append_lem_example =
    append_lem one_change second_map one_change-IsRetained second_map-IsValid (omega arith)

between_both : between two_changes 4 6 ≡ ok both_maps
unfolding between boundary_length find_boundary collect joined_chain retained append pushed reset
    new_change_history set_at slot window zeroes identity new_change_map check_edits compose_all
    compose_loop
between_both = refl

between_lem_example : Goes both_maps 4 6
between_lem_example = between_lem two_changes 4 6 both_maps two_changes-IsRetained between_both
