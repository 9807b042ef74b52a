-- ===== src/Coordinate/Transform.antt =====
-- document/coordinate/changemap.go: where Transform takes an offset.
use docengine.Prelude.{
  ℕ, ◌+◌, ◌-◌, ◌≤◌, ◌<◌, ◌≡◌, refl, ap, ◌∙◌, List, [], ◌∷◌, ◌++◌, arith, ◌⊎◌, map, map-append,
}
use mathlib.Core.List.{reverse, reverse-cons}
use docengine.Coordinate.ChangeMap.{Edit, affinity_after, transform_offset, transform_all}
use docengine.Coordinate.Compose.{invert_edit}
use docengine.Coordinate.Validity.{Chain}

transform_offset-le :
    (o a n : ℕ) (e : Edit)
    → e.start + e.old_length ≤ n
    → o ≤ n
    → transform_offset o a e ≤ n - e.old_length + e.new_length
unfolding transform_offset
transform_offset-le o a n e h k = ground arith

-- A chain of in-range edits takes an offset of the document before to an offset of the document
-- after.
pub transform_all-le :
    (n : ℕ) (es : List Edit) (m o a : ℕ) → Chain n es m → o ≤ n → transform_all o a es ≤ m
unfolding transform_all
transform_all-le n [] m o a c h = omega arith
transform_all-le n (e ∷ es) m o a c h =
    transform_all-le (n - e.old_length + e.new_length) es m (transform_offset o a e) a c.2
      (transform_offset-le o a n e c.0 h)

transform_offset_mono :
    (o p a b : ℕ) (e : Edit)
    → o ≤ p
    → (a ≡ affinity_after → b ≡ affinity_after)
    → transform_offset o a e ≤ transform_offset p b e
unfolding transform_offset
transform_offset_mono o p a b e h k = ground arith

-- Two offsets keep their order through the edits of a map unless the first has affinity After and
-- the second has not.
pub transform_all_mono :
    (es : List Edit) (o p a b : ℕ)
    → o ≤ p
    → (a ≡ affinity_after → b ≡ affinity_after)
    → transform_all o a es ≤ transform_all p b es
unfolding transform_all
transform_all_mono [] o p a b h k = h
transform_all_mono (e ∷ es) o p a b h k =
    transform_all_mono es (transform_offset o a e) (transform_offset p b e) a b
      (transform_offset_mono o p a b e h k) k

pub transform_all-append :
    (o a : ℕ) (es fs : List Edit)
    → transform_all o a (es ++ fs) ≡ transform_all (transform_all o a es) a fs
unfolding transform_all
transform_all-append o a [] fs = refl
transform_all-append o a (e ∷ es) fs = transform_all-append (transform_offset o a e) a es fs

-- The byte behind an offset survives every edit.
abbrev pub Survives : ℕ → List Edit → Type 0
Survives o [] = Unit {0}
Survives o (e ∷ es) =
    ((o < e.start) ⊎ (e.start + e.old_length ≤ o))
    × Survives (transform_offset o affinity_after e) es

transform_offset-invert :
    (o : ℕ) (e : Edit)
    → (o < e.start) ⊎ (e.start + e.old_length ≤ o)
    → transform_offset (transform_offset o affinity_after e) affinity_after (invert_edit e) ≡ o
unfolding transform_offset
transform_offset-invert o e h = ground arith

-- The inverse edits take an anchor with affinity After, behind which the byte survives each edit,
-- back to where it was.
pub transform_all-invert :
    (o : ℕ) (es : List Edit)
    → Survives o es
    → transform_all
        (transform_all o affinity_after es)
        affinity_after
        (map invert_edit (reverse es))
      ≡ o
unfolding transform_all
transform_all-invert o [] s = refl
transform_all-invert o (e ∷ es) s =
    let o' = transform_offset o affinity_after e in
    ap (transform_all (transform_all o' affinity_after es) affinity_after)
      (ap (map invert_edit) (reverse-cons e es) ∙ map-append invert_edit (reverse es) (e ∷ []))
    ∙ transform_all-append _ affinity_after (map invert_edit (reverse es)) (invert_edit e ∷ [])
    ∙ ap (λ k. transform_offset k affinity_after (invert_edit e)) (transform_all-invert o' es s.1)
    ∙ transform_offset-invert o e s.0
