-- ===== src/Coordinate/Stable.antt =====
-- document/coordinate/changemap.go: stableSuffix finds a common suffix of the two documents.
use docengine.Prelude.{
  ℕ, Bool, Option-cases, ◌+◌, ◌-◌, ◌≤◌, ◌<◌, ◌≡◌, refl, sym, ap, ap₂, ◌∙◌, List, [], ◌∷◌, arith,
  Option, none, some, length, drop, drop-drop, Bool-cases, inl, inr, leb, leb→le, if◌then◌else◌,
  ltb, max_int64, false, ◌||◌, not, ◌==◌,
}
use docengine.Coordinate.ChangeMap.{Edit, ChangeMap}
use docengine.Coordinate.Suffix.{suffix_loop, stable_suffix}
use docengine.Coordinate.Validity.{Chain, IsValid}
use docengine.Coordinate.Documents.{Rewrites, rewritten, drop-rewritten}

some_inj {ℓ} : {A : Type ℓ} {a b : A} → some a ≡ some b → a ≡ b
some_inj h = cc

two_guards {ℓ} :
    {A : Type ℓ} (a b : Bool) (o : Option A) {r : A}
    → (if a then none else if b then none else o) ≡ some r
    → o ≡ some r
two_guards a b o h = ground arith

checked_pair :
    (b : Bool) (old cur : ℕ) (r : ℕ × ℕ)
    → (if b then none else some (old, cur)) ≡ some r
    → (old ≡ r.0) × (cur ≡ r.1)
checked_pair b old cur r h = ground arith

-- The loop never gives up on the edits of a valid map, and its boundaries leave equal lengths.
suffix_loop-total :
    (n old cur len : ℕ) (es : List Edit) (m : ℕ)
    → Chain len es m
    → len ≤ max_int64
    → old ≤ n
    → cur ≤ len
    → n + cur ≡ len + old
    → (r : ℕ × ℕ × ℕ) × (suffix_loop old cur len es ≡ some r)
      × (r.2 ≡ m)
      × (r.0 ≤ n)
      × (n + r.1 ≡ m + r.0)
unfolding suffix_loop
suffix_loop-total n old cur len [] m c fits a b d = ((old, cur, len), refl, c, a, omega (arith, c))
suffix_loop-total n old cur len (e ∷ es) m c fits a b d =
    let kept = leb (e.start + e.old_length) cur in
    let old' = (if kept then old else old + (e.start + e.old_length - cur)) in
    let cur' = (if kept then cur + e.new_length - e.old_length else e.start + e.new_length) in
    let len' = len - e.old_length + e.new_length in
    let g : (ltb len e.start || ltb (len - e.start) e.old_length) ≡ false = ground (arith, c.0) in
    let k : ltb (max_int64 - (len - e.old_length)) e.new_length ≡ false = ground (arith, c.1) in
    let i1 : old' ≤ n = ground (arith, c.0) in
    let i2 : cur' ≤ len' = ground (arith, c.0) in
    let i3 : n + cur' ≡ len' + old' = ground (arith, c.0) in
    let z = suffix_loop-total n old' cur' len' es m c.2 c.1 i1 i2 i3 in
    (z.0, rw (g, k) z.1, z.2, z.3, z.4)

module _ {ℓ} {A : Type ℓ} where
  suffix_step :
      (old cur : ℕ) (orig xs : List A) (e : Edit) (ins : List A)
      → length ins ≡ e.new_length
      → e.start + e.old_length ≤ length xs
      → drop old orig ≡ drop cur xs
      → let kept = leb (e.start + e.old_length) cur in
        drop (if kept then old else old + (e.start + e.old_length - cur)) orig
        ≡ drop
            (if kept then cur + e.new_length - e.old_length else e.start + e.new_length)
            (rewritten xs e ins)
  suffix_step old cur orig xs e ins n h same =
      elim (Bool-cases (leb (e.start + e.old_length) cur)) [
        | inl k ↦
            let j = cur - (e.start + e.old_length) in
            let le = leb→le _ _ k in
            let a : e.start + e.new_length + j ≡ cur + e.new_length - e.old_length = omega arith in
            let b : e.start + e.old_length + j ≡ cur = omega arith in
            rw k (
              same
              ∙ ap (λ z. drop z xs) (sym b)
              ∙ sym (drop-rewritten xs e ins j n h)
              ∙ ap (λ z. drop z (rewritten xs e ins)) a)
        | inr k ↦
            let d = e.start + e.old_length - cur in
            let lt : cur < e.start + e.old_length = ground arith in
            let a : cur + d ≡ e.start + e.old_length + 0 = omega arith in
            let b : e.start + e.new_length + 0 ≡ e.start + e.new_length = omega arith in
            rw k (
              sym (drop-drop d old orig)
              ∙ ap (drop d) same
              ∙ drop-drop d cur xs
              ∙ ap (λ z. drop z xs) a
              ∙ sym (drop-rewritten xs e ins 0 n h)
              ∙ ap (λ z. drop z (rewritten xs e ins)) b)
      ]

  suffix_loop-drop :
      (old cur len : ℕ) (es : List Edit) (orig xs ys : List A) (r : ℕ × ℕ × ℕ)
      → drop old orig ≡ drop cur xs
      → Rewrites xs es ys
      → suffix_loop old cur len es ≡ some r
      → drop r.0 orig ≡ drop r.1 ys
  unfolding suffix_loop
  suffix_loop-drop old cur len [] orig xs ys r same w h =
      let e : ◌≡◌ {A = ℕ × ℕ × ℕ} (old, cur, len) r = some_inj h in
      let a : old ≡ r.0 = ap (λ (z : ℕ × ℕ × ℕ). z.0) e in
      let b : cur ≡ r.1 = ap (λ (z : ℕ × ℕ × ℕ). z.1) e in
      ap (λ k. drop k orig) (sym a) ∙ same ∙ ap₂ drop b w
  suffix_loop-drop old cur len (e ∷ es) orig xs ys r same (ins, n, fit, w) h =
      suffix_loop-drop
        (if leb (e.start + e.old_length) cur then old else old + (e.start + e.old_length - cur))
        (if leb (e.start + e.old_length) cur
          then cur + e.new_length - e.old_length
          else e.start + e.new_length)
        (len - e.old_length + e.new_length) es orig (rewritten xs e ins) ys r
        (suffix_step old cur orig xs e ins n fit same) w
        (two_guards (ltb len e.start || ltb (len - e.start) e.old_length)
          (ltb (max_int64 - (len - e.old_length)) e.new_length) _ h)

  -- Where one document is the other rewritten by the edits of a map, the two are equal behind the
  -- two boundaries that stableSuffix returns.
  pub stable_suffix-drop :
      (m : ChangeMap) (xs ys : List A) (r : ℕ × ℕ)
      → Rewrites xs m.edits ys
      → stable_suffix m ≡ some r
      → drop r.0 xs ≡ drop r.1 ys
  unfolding stable_suffix
  stable_suffix-drop m xs ys r w h = elim (Option-cases (suffix_loop 0 0 m.before_length m.edits)) [
    | inl e ↦ cc
    | inr (z, e) ↦
        let p =
          checked_pair
            (not (z.2 == m.after_length) || not (m.before_length + z.1 == m.after_length + z.0)) z.0
            z.1 r (rw (e, stable_suffix) at h) in
        rw (← p.0, ← p.1) (suffix_loop-drop 0 0 m.before_length m.edits xs xs ys z refl w e)
  ]

-- On a valid map stableSuffix returns boundaries, the first inside the document before, that leave
-- suffixes of equal length.
pub stable_suffix-total :
    (m : ChangeMap)
    → IsValid m
    → (r : ℕ × ℕ) × (stable_suffix m ≡ some r)
      × (r.0 ≤ m.before_length)
      × (m.before_length + r.1 ≡ m.after_length + r.0)
unfolding stable_suffix
stable_suffix-total m v =
    let t =
      suffix_loop-total m.before_length 0 0 m.before_length m.edits m.after_length v.chain v.fits
        (omega arith) (omega arith) (omega arith) in
    let z = t.0 in
    let a : (not (z.2 == m.after_length) || not (m.before_length + z.1 == m.after_length + z.0))
        ≡ false =
      ground (arith, t.2, t.4) in
    ((z.0, z.1), rw (t.1, stable_suffix, a), t.3, t.4)
