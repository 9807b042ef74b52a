-- ===== src/Coordinate/Batches.antt =====
-- document/coordinate/changemap.go: Transform through a composed map, and batches against single calls.
use docengine.Prelude.{
  ℕ, ◌*◌, ◌/◌, ◌≤◌, ◌<◌, ◌≡◌, ◌↔◌, refl, sym, ap, List, [], ◌∷◌, ◌++◌, arith, map, length, true,
  false, ==→eq, ◌==◌, ltb, to_ℕ, pos-to_ℕ, check-cases, is_negative, Result, ok, err, ◌>>=◌, ◌>>◌,
  >>-eq-ok, ok-injective, append-nil, inl, inr, Bool-cases, ltb→lt, lt→ltb, ◌||◌, if◌then◌else◌,
}
use native.Mathlib.Nat.{div-lt_iff_lt-mul, mul_comm, mul-zero, zero-mul}
use docengine.Coordinate.ChangeMap.{
  Error, Anchor, ChangeMap, Edit, transform, transform_all, check_anchor, moved, is_affinity,
  maximum_transform_steps, too_complex,
}
use docengine.Coordinate.Batch.{
  transform_anchors, transform_too_complex, check_anchors, move_all, move_by,
}
use docengine.Coordinate.Compose.{compose, compose_all, compose_loop}
use docengine.Coordinate.Validity.{IsValid}
use docengine.Coordinate.Transform.{transform_all-le, transform_all-append}

-- What a successful Compose returns.
compose-eq-ok :
    (m n r : ChangeMap)
    → compose m n ≡ ok r
    → (m.after_length ≡ n.before_length)
      × (r.before_length ≡ m.before_length)
      × (r.edits ≡ m.edits ++ n.edits)
unfolding compose compose_all compose_loop
compose-eq-ok m n r h = ground (arith, append-nil n.edits)

check_anchor_iff :
    (len : ℕ) (a : Anchor)
    → (check_anchor len a ≡ ok tt)
      ↔ ((is_affinity a.affinity ≡ true) × (is_negative a.offset ≡ false) × (to_ℕ a.offset ≤ len))
unfolding check_anchor
check_anchor_iff len a = ground arith

-- Where the first map is valid, the two maps compose, and the first takes an anchor to another, the
-- composed map moves the anchor exactly as the second map moves that other one, errors included.
pub transform-compose :
    (m n r : ChangeMap) (a b : Anchor)
    → IsValid m
    → compose m n ≡ ok r
    → transform m a ≡ ok b
    → transform r a ≡ transform n b
unfolding transform
transform-compose m n r a b v h t =
    let c = compose-eq-ok m n r h in
    let (checked, got) = >>-eq-ok (check_anchor m.before_length a) _ t in
    let e : moved m.edits a ≡ b = ok-injective got in
    let fine = (check_anchor_iff m.before_length a).0 checked in
    let o = transform_all (to_ℕ a.offset) a.affinity m.edits in
    let first : check_anchor r.before_length a ≡ ok tt = rw c.1 checked in
    let second : check_anchor n.before_length (moved m.edits a) ≡ ok tt =
      (check_anchor_iff n.before_length (moved m.edits a)).1 (
        fine.0,
        refl,
        omega (
          arith,
          c.0,
          transform_all-le m.before_length m.edits m.after_length (to_ℕ a.offset) a.affinity v.chain
              fine.2,
        ),
      ) in
    rw (← e, first, second, c.2, transform_all-append (to_ℕ a.offset) a.affinity m.edits n.edits)

-- One Transform after the other; the first error ends it.
unfoldable pub transform_each : ChangeMap → List Anchor → Result Error (List Anchor)
transform_each m [] = ok []
transform_each m (a ∷ as') =
    let rest = transform_each m as' in transform m a >>= λ b. rest >>= λ bs. ok (b ∷ bs)

move_all-nil : (es : List Edit) → move_all es [] ≡ []
unfolding move_all
move_all-nil [] = refl
move_all-nil (e ∷ es) = move_all-nil es

move_all-cons :
    (es : List Edit) (a : Anchor) (as' : List Anchor)
    → is_negative a.offset ≡ false
    → move_all es (a ∷ as') ≡ moved es a ∷ move_all es as'
unfolding move_all transform_all
move_all-cons [] a as' h = ap (λ o. record a { offset = o } ∷ as') (sym (pos-to_ℕ a.offset h))
move_all-cons (e ∷ es) a as' h = move_all-cons es (move_by e a) (map (move_by e) as') refl

transform_each_lem :
    (m : ChangeMap) (as' : List Anchor)
    → transform_each m as' ≡ (check_anchors m.before_length as' >> ok (move_all m.edits as'))
unfolding transform_each check_anchors transform
transform_each_lem m [] = ap ok (sym (move_all-nil m.edits))
transform_each_lem m (a ∷ as') = elim (check-cases (check_anchor m.before_length a)) [
  | inr (x, e) ↦ rw e
  | inl e ↦
      let fine = (check_anchor_iff m.before_length a).0 e in
      let ih = transform_each_lem m as' in
      let both = move_all-cons m.edits a as' fine.1 in
      elim (check-cases (check_anchors m.before_length as')) [
        | inl f ↦ rw (e, ih, f, both)
        | inr (x, f) ↦ rw (e, ih, f)
      ]
]

mul_pos_lt : (limit a b : ℕ) → limit < a → 0 < b → limit < b * a
mul_pos_lt limit a b h k = grind arith

-- The test is exact: it asks whether the steps of the batch exceed the bound, with no overflow.
bound_test :
    (limit edits items factor : ℕ)
    → 0 < edits
    → 0 < items
    → 0 < factor
    → ((if ltb (limit / edits) factor then true else ltb (limit / (edits * factor)) items) ≡ true)
      ↔ (limit < items * (edits * factor))
bound_test limit edits items factor he hi hf =
    let pos_product : 0 < edits * factor = grind arith in
    elim (Bool-cases (ltb (limit / edits) factor)) [
      | inl e ↦
          let big = (div-lt_iff_lt-mul he).0 (ltb→lt _ _ e) in
          rw e (
            λ _. mul_pos_lt limit (edits * factor) items (rw (mul_comm edits factor) big) hi,
            λ _. refl,
          )
      | inr e ↦ rw e (
        λ h. (div-lt_iff_lt-mul pos_product).0 (ltb→lt _ _ h),
        λ h. lt→ltb _ _ ((div-lt_iff_lt-mul pos_product).1 h),
      )
    ]

no_steps : (edits items factor : ℕ) → edits == 0 || items == 0 ≡ true → items * (edits * factor) ≡ 0
no_steps edits items factor e = elim (Bool-cases (edits == 0)) [
  | inl h ↦ let k : edits ≡ 0 = ==→eq _ _ h in rw (k, zero-mul factor) (mul-zero items)
  | inr h ↦ let k : items ≡ 0 = ground arith in rw k (zero-mul (edits * factor))
]

-- For a positive factor the complexity test holds exactly when items times edits times factor
-- exceeds the bound.
pub transform_too_complex_iff :
    (edits items factor : ℕ)
    → 0 < factor
    → (transform_too_complex edits items factor ≡ true)
      ↔ (maximum_transform_steps < items * (edits * factor))
unfolding transform_too_complex
transform_too_complex_iff edits items factor hf = elim (Bool-cases (edits == 0 || items == 0)) [
  | inl e ↦ let z = no_steps edits items factor e in (λ h. cc, λ h. absurd (omega (arith, z)))
  | inr e ↦
      let n : (0 < edits) × (0 < items) = ground arith in
      rw e (bound_test maximum_transform_steps edits items factor n.0 n.1 hf)
]

-- A batch of anchors moves as each anchor alone would, in order, with the error of the first that
-- fails; a batch above the step bound is refused as too complex.
pub transform_anchors-each :
    (m : ChangeMap) (as' : List Anchor)
    → transform_anchors m as' ≡ (
        if ltb maximum_transform_steps (length as' * length m.edits)
        then err too_complex
        else transform_each m as')
unfolding transform_anchors
transform_anchors-each m as' =
    let exact = transform_too_complex_iff (length m.edits) (length as') 1 (omega arith) in
    elim (Bool-cases (transform_too_complex (length m.edits) (length as') 1)) [
      | inl e ↦
          let big : ltb maximum_transform_steps (length as' * length m.edits) ≡ true =
            lt→ltb _ _ (omega (arith, exact.0 e)) in
          rw (e, big)
      | inr e ↦
          let small : ltb maximum_transform_steps (length as' * length m.edits) ≡ false =
            elim (Bool-cases (ltb maximum_transform_steps (length as' * length m.edits))) [
              | inl f ↦ let steps = ltb→lt _ _ f in let big = exact.1 (omega (arith, steps)) in cc
              | inr f ↦ f
            ] in
          rw (e, small, transform_each_lem m as') refl
    ]
