-- ===== src/Coordinate/Documents.antt =====
-- document/coordinate/changemap.go: what a map says of two documents, one rewritten into the other.
use docengine.Prelude.{
  ℕ, zero, suc, ◌+◌, ◌-◌, ◌≤◌, ◌<◌, ◌≡◌, refl, sym, ap, ap₂, ◌∙◌, List, [], ◌∷◌, ◌++◌, arith, ◌⊎◌,
  inl, inr, length, get_elem?, take, drop, length-append, length-take, length-drop, drop-append_ge,
  drop-drop, append_assoc,
}
use docengine.Coordinate.ChangeMap.{Edit, affinity_after, transform_offset, transform_all}
use docengine.Coordinate.Transform.{Survives}

module _ {ℓ} {A : Type ℓ} where
  -- One edit of a document, that inserts `ins`.
  abbrev pub rewritten : List A → Edit → List A → List A
  rewritten xs e ins = take e.start xs ++ (ins ++ drop (e.start + e.old_length) xs)

  -- `ys` is `xs` behind the edits, with some text of the stated length inserted by each.
  abbrev pub Rewrites : List A → List Edit → List A → Type ℓ
  Rewrites xs [] ys = xs ≡ ys
  Rewrites xs (e ∷ es) ys =
      (ins : List A) × (length ins ≡ e.new_length)
      × (e.start + e.old_length ≤ length xs)
      × Rewrites (rewritten xs e ins) es ys

  get_elem?-drop : (n i : ℕ) (xs : List A) → get_elem? (drop n xs) i ≡ get_elem? xs (n + i)
  get_elem?-drop zero i xs = let e : i ≡ 0 + i = omega arith in ap (get_elem? xs) e
  get_elem?-drop (suc n) i [] = let e : suc (n + i) ≡ suc n + i = omega arith in ap (get_elem? []) e
  get_elem?-drop (suc n) i (x ∷ xs) =
      let e : suc (n + i) ≡ suc n + i = omega arith in
      get_elem?-drop n i xs ∙ ap (get_elem? (x ∷ xs)) e

  get_elem?-take_append :
      (n i : ℕ) (xs ys : List A)
      → i < n
      → n ≤ length xs
      → get_elem? (take n xs ++ ys) i ≡ get_elem? xs i
  get_elem?-take_append zero i xs ys h k = absurd (omega arith)
  get_elem?-take_append (suc n) i [] ys h k = absurd (omega arith)
  get_elem?-take_append (suc n) zero (x ∷ xs) ys h k = refl
  get_elem?-take_append (suc n) (suc i) (x ∷ xs) ys h k =
      get_elem?-take_append n i xs ys (omega arith) (omega arith)

  -- Behind an edit the document goes on as it did.
  pub drop-rewritten :
      (xs : List A) (e : Edit) (ins : List A) (j : ℕ)
      → length ins ≡ e.new_length
      → e.start + e.old_length ≤ length xs
      → drop (e.start + e.new_length + j) (rewritten xs e ins)
        ≡ drop (e.start + e.old_length + j) xs
  drop-rewritten xs e ins j n h =
      let t : length (take e.start xs) ≡ e.start = omega (arith, length-take e.start xs) in
      let k : length (take e.start xs ++ ins) + j ≡ e.start + e.new_length + j =
        omega (arith, length-append (take e.start xs) ins) in
      ap₂ drop (sym k) (sym (append_assoc (take e.start xs) ins (drop (e.start + e.old_length) xs)))
      ∙ drop-append_ge (length (take e.start xs ++ ins) + j) (take e.start xs ++ ins) _
          (omega arith)
      ∙ (let f : length (take e.start xs ++ ins) + j - length (take e.start xs ++ ins) ≡ j =
            omega arith in
          ap (λ z. drop z (drop (e.start + e.old_length) xs)) f)
      ∙ drop-drop j (e.start + e.old_length) xs

  length-rewritten :
      (xs : List A) (e : Edit) (ins : List A)
      → length ins ≡ e.new_length
      → e.start + e.old_length ≤ length xs
      → length (rewritten xs e ins) ≡ length xs - e.old_length + e.new_length
  length-rewritten xs e ins n h = omega (
    arith,
    length-append (take e.start xs) (ins ++ drop (e.start + e.old_length) xs),
    length-append ins (drop (e.start + e.old_length) xs),
    length-take e.start xs,
    length-drop (e.start + e.old_length) xs,
  )

  get_elem?-rewritten :
      (xs : List A) (e : Edit) (ins : List A) (o : ℕ)
      → length ins ≡ e.new_length
      → e.start + e.old_length ≤ length xs
      → (o < e.start) ⊎ (e.start + e.old_length ≤ o)
      → get_elem? (rewritten xs e ins) (transform_offset o affinity_after e) ≡ get_elem? xs o
  unfolding transform_offset
  get_elem?-rewritten xs e ins o n h (inl k) =
      let t : transform_offset o affinity_after e ≡ o = ground arith in
      ap (get_elem? (rewritten xs e ins)) t ∙ get_elem?-take_append e.start o xs _ k (omega arith)
  get_elem?-rewritten xs e ins o n h (inr k) =
      let t : transform_offset o affinity_after e
          ≡ e.start + e.new_length + (o - (e.start + e.old_length)) =
        ground arith in
      let u : e.start + e.old_length + (o - (e.start + e.old_length)) ≡ o = omega arith in
      let j = o - (e.start + e.old_length) in
      let z : e.start + e.new_length + j + 0 ≡ e.start + e.new_length + j = omega arith in
      let y : e.start + e.old_length + j + 0 ≡ o = omega arith in
      ap (get_elem? (rewritten xs e ins)) (t ∙ sym z)
      ∙ sym (get_elem?-drop (e.start + e.new_length + j) 0 (rewritten xs e ins))
      ∙ ap (λ l. get_elem? l 0) (drop-rewritten xs e ins j n h)
      ∙ get_elem?-drop (e.start + e.old_length + j) 0 xs
      ∙ ap (get_elem? xs) y

  -- Where one document is the other rewritten by the edits of a map, an anchor with affinity After
  -- is carried through the edits of a map to the place before the same byte, as long as that byte
  -- survives each edit.
  pub get_elem?-transform_all :
      (xs : List A) (es : List Edit) (ys : List A) (o : ℕ)
      → Rewrites xs es ys
      → Survives o es
      → get_elem? ys (transform_all o affinity_after es) ≡ get_elem? xs o
  unfolding transform_all
  get_elem?-transform_all xs [] ys o r s = ap (λ l. get_elem? l o) (sym r)
  get_elem?-transform_all xs (e ∷ es) ys o (ins, n, h, r) s =
      get_elem?-transform_all (rewritten xs e ins) es ys (transform_offset o affinity_after e) r s.1
      ∙ get_elem?-rewritten xs e ins o n h s.0
