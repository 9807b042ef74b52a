-- ===== src/Coordinate/Tests.antt =====
-- document/coordinate/changemap.go: two small maps, and the theorems applied to them.
use docengine.Prelude.{
  ℕ, ◌+◌, ◌*◌, ◌≤◌, ◌<◌, ◌≡◌, ◌↔◌, refl, drop, pos, true, List, [], ◌∷◌, map, some, arith, length,
  get_elem?, err, ltb, if◌then◌else◌,
}
use mathlib.Core.List.{reverse}
use docengine.Coordinate.ChangeMap.{
  Anchor, ChangeMap, Edit, EditArg, affinity_after, affinity_before, new_change_map, check_edits,
  check_edit, transform, transform_all, transform_offset, check_anchor, maximum_transform_steps,
  too_complex, is_affinity,
}
use docengine.Coordinate.Batch.{transform_anchors, transform_too_complex}
use docengine.Coordinate.Compose.{compose, compose_all, compose_loop, invert_edit}
use docengine.Coordinate.Suffix.{stable_suffix, suffix_loop}
use docengine.Coordinate.Validity.{IsValid, new_change_map-IsValid, compose_all-IsValid}
use docengine.Coordinate.Transform.{transform_all_mono, transform_all-invert, Survives}
use docengine.Coordinate.Documents.{Rewrites, get_elem?-transform_all}
use docengine.Coordinate.Stable.{stable_suffix-drop, stable_suffix-total}
use docengine.Coordinate.Batches.{
  transform-compose, transform_each, transform_anchors-each, transform_too_complex_iff,
}

-- The replacement of two bytes at 1 by three, and an insertion of one byte at 0.
abbrev replacement : EditArg
replacement = record { start = pos 1; old_length = pos 2; new_length = pos 3 }

abbrev replaced : Edit
replaced = record { start = 1; old_length = 2; new_length = 3 }

abbrev inserted : Edit
inserted = record { start = 0; old_length = 0; new_length = 1 }

abbrev pub first_map : ChangeMap
first_map = record {
  before_revision = 4;
  after_revision = 5;
  before_length = 4;
  after_length = 5;
  edits = replaced ∷ [];
}

abbrev pub second_map : ChangeMap
second_map = record {
  before_revision = 5;
  after_revision = 6;
  before_length = 5;
  after_length = 6;
  edits = inserted ∷ [];
}

abbrev pub both_maps : ChangeMap
both_maps = record {
  before_revision = 4;
  after_revision = 6;
  before_length = 4;
  after_length = 6;
  edits = replaced ∷ inserted ∷ [];
}

pub first_map-IsValid : IsValid first_map
unfolding new_change_map check_edits check_edit
first_map-IsValid =
    new_change_map-IsValid 4 5 (pos 4) (replacement ∷ []) first_map (omega arith) refl

pub second_map-IsValid : IsValid second_map
second_map-IsValid = ground arith

compose_all-IsValid_example : IsValid both_maps
unfolding compose_all compose_loop
compose_all-IsValid_example =
    compose_all-IsValid first_map (second_map ∷ []) both_maps first_map-IsValid
      (second_map-IsValid, tt) refl

transform_all_mono_example :
    transform_all 1 affinity_before (replaced ∷ []) ≤ transform_all 2 affinity_after (replaced ∷ [])
transform_all_mono_example =
    transform_all_mono (replaced ∷ []) 1 2 affinity_before affinity_after (omega arith) (λ _. refl)

last_Survives : Survives 3 (replaced ∷ [])
last_Survives = ground arith

transform_all-invert_example :
    transform_all
      (transform_all 3 affinity_after (replaced ∷ []))
      affinity_after
      (map invert_edit (reverse (replaced ∷ [])))
    ≡ 3
transform_all-invert_example = transform_all-invert 3 (replaced ∷ []) last_Survives

abbrev old_text : List ℕ
old_text = 97 ∷ 98 ∷ 99 ∷ 100 ∷ []

abbrev new_text : List ℕ
new_text = 97 ∷ 120 ∷ 121 ∷ 122 ∷ 100 ∷ []

text_rewritten : Rewrites old_text (replaced ∷ []) new_text
text_rewritten = (120 ∷ 121 ∷ 122 ∷ [], refl, omega arith, refl)

get_elem?-transform_all_example :
    get_elem? new_text (transform_all 3 affinity_after (replaced ∷ [])) ≡ get_elem? old_text 3
get_elem?-transform_all_example =
    get_elem?-transform_all old_text (replaced ∷ []) new_text 3 text_rewritten last_Survives

stable_suffix-drop_example : drop 3 old_text ≡ drop 4 new_text
unfolding stable_suffix suffix_loop
stable_suffix-drop_example =
    stable_suffix-drop first_map old_text new_text (3, 4) text_rewritten refl

stable_suffix-total_example :
    (r : ℕ × ℕ) × (stable_suffix first_map ≡ some r) × (r.0 ≤ 4) × (4 + r.1 ≡ 5 + r.0)
stable_suffix-total_example = stable_suffix-total first_map first_map-IsValid

abbrev last_anchor : Anchor
last_anchor = record { offset = pos 3; affinity = 2 }

abbrev moved_anchor : Anchor
moved_anchor = record { offset = pos 4; affinity = 2 }

transform-compose_example : transform both_maps last_anchor ≡ transform second_map moved_anchor
unfolding compose compose_all compose_loop transform check_anchor is_affinity transform_all
    transform_offset
transform-compose_example =
    transform-compose first_map second_map both_maps last_anchor moved_anchor first_map-IsValid refl
      refl

transform_too_complex_iff_example :
    (transform_too_complex 4096 5000 1 ≡ true) ↔ (maximum_transform_steps < 5000 * (4096 * 1))
transform_too_complex_iff_example = transform_too_complex_iff 4096 5000 1 (omega arith)

abbrev two_anchors : List Anchor
two_anchors = last_anchor ∷ moved_anchor ∷ []

transform_anchors-each_example : transform_anchors first_map two_anchors ≡ (
    if ltb maximum_transform_steps (length two_anchors * length first_map.edits)
    then err too_complex
    else transform_each first_map two_anchors)
transform_anchors-each_example = transform_anchors-each first_map two_anchors
