-- ===== src/Coordinate/Suffix.antt =====
-- document/coordinate/changemap.go: stableSuffix.
use docengine.Prelude.{
  ℕ, ◌+◌, ◌-◌, not, ◌||◌, ltb, leb, ◌==◌, if◌then◌else◌, List, [], ◌∷◌, Option, none, some,
  max_int64,
}
use docengine.Coordinate.ChangeMap.{Edit, ChangeMap}

-- The loop of stableSuffix: the boundary in the old and in the current document, and the current
-- length; none where it gives up.
unfoldable pub suffix_loop : ℕ → ℕ → ℕ → List Edit → Option (ℕ × ℕ × ℕ)
suffix_loop old_start current_start len [] = some (old_start, current_start, len)
suffix_loop old_start current_start len (e ∷ es) =
    let end = e.start + e.old_length in
    let kept = leb end current_start in
    let old' = if kept then old_start else old_start + (end - current_start) in
    let current' =
      if kept then current_start + e.new_length - e.old_length else e.start + e.new_length in
    let rest = suffix_loop old' current' (len - e.old_length + e.new_length) es in
    if ltb len e.start || ltb (len - e.start) e.old_length
    then none
    else if ltb (max_int64 - (len - e.old_length)) e.new_length
    then none
    else rest

unfoldable pub stable_suffix : ChangeMap → Option (ℕ × ℕ)
stable_suffix m = elim (suffix_loop 0 0 m.before_length m.edits) [
  | none ↦ none
  | some (old, current, len) ↦
      if not (len == m.after_length) || not (m.before_length + current == m.after_length + old)
      then none
      else some (old, current)
]
