-- ===== src/Coordinate/Batch.antt =====
-- document/coordinate/changemap.go: batches of anchors, ranges and annotations, with no context.
use docengine.Prelude.{
  ℕ, ◌*◌, ◌/◌, Bool, true, false, ◌||◌, ltb, ◌==◌, if◌then◌else◌, List, [], ◌∷◌, map, length, pos,
  to_ℕ, ltz, Result, ok, ◌>>=◌, ◌>>◌, fail_if,
}
use docengine.Coordinate.ChangeMap.{
  maximum_transform_steps, Error, invalid_range, inverted_range, too_complex, Anchor, AnchoredRange,
  Annotation, Edit, ChangeMap, transform_offset, check_anchor, transform,
}

unfoldable pub transform_too_complex : ℕ → ℕ → ℕ → Bool
transform_too_complex edits items factor =
    if edits == 0 || items == 0
    then false
    else if ltb (maximum_transform_steps / edits) factor
    then true
    else ltb (maximum_transform_steps / (edits * factor)) items

-- transformAnchors: the anchors are checked first, then each edit moves all of them.
unfoldable pub check_anchors : ℕ → List Anchor → Result Error (Unit {0})
check_anchors len [] = ok tt
check_anchors len (a ∷ as') = check_anchor len a >> check_anchors len as'

abbrev pub move_by : Edit → Anchor → Anchor
move_by e a = record a { offset = pos (transform_offset (to_ℕ a.offset) a.affinity e) }

unfoldable pub move_all : List Edit → List Anchor → List Anchor
move_all [] as' = as'
move_all (e ∷ es) as' = move_all es (map (move_by e) as')

unfoldable pub transform_anchors : ChangeMap → List Anchor → Result Error (List Anchor)
transform_anchors m as' = do
  fail_if (transform_too_complex (length m.edits) (length as') 1) too_complex
  check_anchors m.before_length as'
  ok (move_all m.edits as')

-- `value.Start.Offset > value.End.Offset`.
abbrev pub is_inverted : AnchoredRange → Bool
is_inverted r = ltz r.end.offset r.start.offset

unfoldable pub transform_range : ChangeMap → AnchoredRange → Result Error AnchoredRange
transform_range m r = do
  fail_if (is_inverted r) invalid_range
  start ← transform m r.start
  end ← transform m r.end
  let moved_range : AnchoredRange = record { start = start; end = end }
  fail_if (is_inverted moved_range) inverted_range
  ok moved_range

-- transformRanges: the anchors of all ranges are moved in one batch, and paired up again.
unfoldable pub flatten_ranges : List AnchoredRange → Result Error (List Anchor)
flatten_ranges [] = ok []
flatten_ranges (r ∷ rs) =
    let rest = flatten_ranges rs in
    fail_if (is_inverted r) invalid_range >> (rest >>= λ as'. ok (r.start ∷ r.end ∷ as'))

unfoldable pub pair_up : List Anchor → Result Error (List AnchoredRange)
pair_up [] = ok []
pair_up (a ∷ []) = ok []
pair_up (a ∷ b ∷ as') =
    let rest = pair_up as' in
    let r : AnchoredRange = record { start = a; end = b } in
    fail_if (is_inverted r) inverted_range >> (rest >>= λ rs. ok (r ∷ rs))

unfoldable pub transform_ranges : ChangeMap → List AnchoredRange → Result Error (List AnchoredRange)
transform_ranges m rs = do
  fail_if (transform_too_complex (length m.edits) (length rs) 2) too_complex
  anchors ← flatten_ranges rs
  moved_anchors ← transform_anchors m anchors
  pair_up moved_anchors

-- TransformAnnotations: the values stay with their ranges.
unfoldable pub with_values {ℓ} :
    {T : Type ℓ} → List AnchoredRange → List (Annotation T) → List (Annotation T)
with_values [] vs = []
with_values (r ∷ rs) [] = []
with_values (r ∷ rs) (v ∷ vs) = record v { range = r } ∷ with_values rs vs

unfoldable pub transform_annotations {ℓ} :
    {T : Type ℓ} → ChangeMap → List (Annotation T) → Result Error (List (Annotation T))
transform_annotations m vs = do
  ranges ← transform_ranges m (map (λ v. v.range) vs)
  ok (with_values ranges vs)
