-- ===== src/Coordinate/Compose.antt =====
-- document/coordinate/changemap.go: ComposeAll, Compose and Invert.
use docengine.Prelude.{
  ℕ, ◌+◌, ◌-◌, not, ltb, ◌==◌, List, [], ◌∷◌, ◌++◌, map, length, Result, ok, ◌>>=◌, ◌>>◌, fail_if,
}
use mathlib.Core.List.{reverse}
use docengine.Coordinate.ChangeMap.{
  maximum_edits, Error, revision_mismatch, length_mismatch, too_complex, Edit, ChangeMap,
}

-- The loop of ComposeAll: the revision and length reached, the edits counted, and the edits.
unfoldable pub compose_loop : ℕ → ℕ → ℕ → List ChangeMap → Result Error (ℕ × ℕ × List Edit)
compose_loop revision len total [] = ok (revision, len, [])
compose_loop revision len total (c ∷ cs) = do
  fail_if (not (revision == c.before_revision)) revision_mismatch
  fail_if (not (len == c.before_length)) length_mismatch
  fail_if (ltb (maximum_edits - total) (length c.edits)) too_complex
  rest ← compose_loop c.after_revision c.after_length (total + length c.edits) cs
  ok (rest.0, rest.1, c.edits ++ rest.2)

unfoldable pub compose_all : ChangeMap → List ChangeMap → Result Error ChangeMap
compose_all m next = do
  r ← compose_loop m.after_revision m.after_length (length m.edits) next
  ok (record m { after_revision = r.0; after_length = r.1; edits = m.edits ++ r.2 })

unfoldable pub compose : ChangeMap → ChangeMap → Result Error ChangeMap
unfolding compose_all
compose m next = compose_all m (next ∷ [])

abbrev pub invert_edit : Edit → Edit
invert_edit e = record e { old_length = e.new_length; new_length = e.old_length }

unfoldable pub invert : ChangeMap → ChangeMap
invert m = record {
  before_revision = m.after_revision;
  after_revision = m.before_revision;
  before_length = m.after_length;
  after_length = m.before_length;
  edits = map invert_edit (reverse m.edits);
}
