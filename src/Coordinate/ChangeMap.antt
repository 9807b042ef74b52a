-- ===== src/Coordinate/ChangeMap.antt =====
-- document/coordinate/changemap.go: ChangeMap and its operations, for calls without a context.
-- Offsets and lengths that a caller passes are signed; those that a ChangeMap keeps are checked.
use docengine.Prelude.{
  ℕ, ◌+◌, ◌-◌, Bool, true, false, not, ◌&&◌, ◌||◌, ltb, ◌==◌, if◌then◌else◌, List, [], ◌∷◌, map,
  length, max_int64, ℤ, pos, is_negative, to_ℕ, Result, ok, err, ◌>>=◌, ◌>>◌, fail_if,
}

abbrev pub maximum_edits : ℕ
maximum_edits = 1048576

abbrev pub maximum_transform_steps : ℕ
maximum_transform_steps = 16777216

pub data Error : Type 0 where
  invalid_change invalid_affinity invalid_range inverted_range : Error
  revision_mismatch length_mismatch too_complex invalid_offset : Error

-- Affinity: 1 and 2 are the code's constants, any other value is invalid.
abbrev pub affinity_before : ℕ
affinity_before = 1

abbrev pub affinity_after : ℕ
affinity_after = 2

pub record Anchor : Type 0 where
  pub offset : ℤ
  pub affinity : ℕ

pub record AnchoredRange : Type 0 where
  pub start : Anchor
  pub end : Anchor

pub record Annotation {ℓ} (T : Type ℓ) : Type ℓ where
  pub range : AnchoredRange
  pub value : T

-- An edit as a caller passes it, and as a map keeps it.
pub record EditArg : Type 0 where
  pub start : ℤ
  pub old_length : ℤ
  pub new_length : ℤ

pub record Edit : Type 0 where
  pub start : ℕ
  pub old_length : ℕ
  pub new_length : ℕ

pub record ChangeMap : Type 0 where
  pub before_revision : ℕ
  pub after_revision : ℕ
  pub before_length : ℕ
  pub after_length : ℕ
  pub edits : List Edit

abbrev pub edit_of : EditArg → Edit
edit_of e = record {
  start = to_ℕ e.start;
  old_length = to_ℕ e.old_length;
  new_length = to_ℕ e.new_length;
}

-- The checks of NewChangeMap on one edit of a document of `n` bytes, and the length behind it.
unfoldable pub check_edit : ℕ → EditArg → Result Error ℕ
check_edit n e =
    if is_negative e.start
      || (is_negative e.old_length
          || (is_negative e.new_length
              || (ltb n (to_ℕ e.start) || ltb (n - to_ℕ e.start) (to_ℕ e.old_length))))
    then err invalid_change
    else if ltb (max_int64 - (n - to_ℕ e.old_length)) (to_ℕ e.new_length)
    then err invalid_change
    else ok (n - to_ℕ e.old_length + to_ℕ e.new_length)

unfoldable pub check_edits : ℕ → List EditArg → Result Error ℕ
check_edits n [] = ok n
check_edits n (e ∷ es) = check_edit n e >>= λ m. check_edits m es

abbrev pub is_empty {ℓ} : {A : Type ℓ} → List A → Bool
is_empty [] = true
is_empty (x ∷ xs) = false

unfoldable pub new_change_map : ℕ → ℕ → ℤ → List EditArg → Result Error ChangeMap
new_change_map before after len es = do
  fail_if (is_negative len || (is_empty es && not (before == after))) invalid_change
  fail_if (ltb maximum_edits (length es)) too_complex
  after_len ← check_edits (to_ℕ len) es
  ok (record {
    before_revision = before;
    after_revision = after;
    before_length = to_ℕ len;
    after_length = after_len;
    edits = map edit_of es;
  })

unfoldable pub identity : ℕ → ℤ → Result Error ChangeMap
unfolding new_change_map
identity revision len = new_change_map revision revision len []

unfoldable pub transform_offset : ℕ → ℕ → Edit → ℕ
transform_offset offset affinity e =
    let at_edit = if affinity == affinity_after then e.start + e.new_length else e.start in
    if ltb offset e.start
    then offset
    else if e.old_length == 0 && offset == e.start
    then at_edit
    else if offset == e.start || ltb offset (e.start + e.old_length)
    then at_edit
    else offset - e.old_length + e.new_length

-- The loop of Transform over the edits of a map.
unfoldable pub transform_all : ℕ → ℕ → List Edit → ℕ
transform_all offset affinity [] = offset
transform_all offset affinity (e ∷ es) =
    transform_all (transform_offset offset affinity e) affinity es

unfoldable pub is_affinity : ℕ → Bool
is_affinity a = a == affinity_before || a == affinity_after

unfoldable pub check_anchor : ℕ → Anchor → Result Error (Unit {0})
check_anchor len a = do
  fail_if (not (is_affinity a.affinity)) invalid_affinity
  fail_if (is_negative a.offset || ltb len (to_ℕ a.offset)) invalid_offset

abbrev pub moved : List Edit → Anchor → Anchor
moved es a = record a { offset = pos (transform_all (to_ℕ a.offset) a.affinity es) }

unfoldable pub transform : ChangeMap → Anchor → Result Error Anchor
transform m a = check_anchor m.before_length a >> ok (moved m.edits a)
