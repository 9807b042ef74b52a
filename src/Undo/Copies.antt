-- ===== src/Undo/Copies.antt =====
-- document/undo_store.go: a rewrite keeps every text that it is asked to keep.
use docengine.Prelude.{
  ℕ, zero, suc, ◌+◌, ◌-◌, min, ◌≤◌, ◌≡◌, refl, sym, ap, ap₂, ◌∙◌, subst, ◌⊎◌, inl, inr, true, false,
  ltb, ◌==◌, ge→ltb, ==_self, List, [], ◌∷◌, ◌++◌, append-nil, append_assoc, arith, map, length,
  take, slice, slice_split, length-append, length-slice, take-append_le, drop-append_le, take-all,
  drop-all, All, ok, Source, read_stops_lem, Holds,
}
use docengine.Undo.Store.{TextRef}
use docengine.Undo.Rewrite.{Writer, copy_reference, copy_references, undo_rewrite_buffer_bytes}

-- A file whose writes store what they are given.
abbrev pub Writes : Writer → Type 0
Writes write =
    (destination bs : List ℕ) → write destination bs ≡ record { count = length bs; failed = false }

abbrev pub total_length : List TextRef → ℕ
total_length [] = 0
total_length (r ∷ rs) = r.length_of + total_length rs

module _ (read_at : Source) (write : Writer) (contents : List ℕ) (holds : Holds read_at contents)
    (writes : Writes write) where
  stops_at_end :
      {A B : Type 0} (at want m : ℕ)
      → at + suc m ≤ length contents
      → A ⊎ (B × (at + want ≡ length contents))
      → A ⊎ (B × ((suc m - want == 0) ≡ true))
  stops_at_end at want m h (inl a) = inl a
  stops_at_end at want m h (inr b) = inr (b.0, ground (arith, h, b.1))

  copied_on :
      (at want left : ℕ) (destination : List ℕ)
      → want ≤ left
      → at + left ≤ length contents
      → (destination ++ take want (slice want at contents))
          ++ slice (left - want) (at + want) contents
        ≡ destination ++ slice left at contents
  copied_on at want left destination h k =
      let got = slice want at contents in
      append_assoc destination (take want got) _
      ∙ ap (λ g. destination ++ (g ++ slice (left - want) (at + want) contents))
          (take-all want got (omega (arith, length-slice want at contents)))
      ∙ ap (destination ++◌) (slice_split want left at contents h k)

  copy_reference_lem :
      (fuel at left : ℕ) (destination : List ℕ)
      → left ≤ fuel
      → at + left ≤ length contents
      → copy_reference read_at write fuel at left destination
        ≡ ok (destination ++ slice left at contents)
  unfolding copy_reference
  copy_reference_lem zero at left destination h k =
      let z : left ≡ 0 = omega (arith, h) in rw z (ap ok (sym (append-nil destination)))
  copy_reference_lem (suc fuel) at zero destination h k = ap ok (sym (append-nil destination))
  copy_reference_lem (suc fuel) at (suc m) destination h k =
      let want = min undo_rewrite_buffer_bytes (suc m) in
      let got = slice want at contents in
      let (bytes, stop) = holds at want (omega (arith, k)) in
      let n : length got ≡ want = length-slice want at contents ∙ omega (arith, k) in
      let some_want : (want == 0) ≡ false = ground arith in
      let left : (suc m == 0) ≡ false = ground arith in
      let in_want : ltb want want ≡ false = ge→ltb want want (omega arith) in
      let stops =
        read_stops_lem (read_at at want).1 (suc m - want == 0) (stops_at_end at want m k stop) in
      let ih =
        copy_reference_lem fuel (at + want) (suc m - want) (destination ++ take want got)
          (omega (arith, h)) (omega (arith, k)) in
      rw (left, bytes, n, in_want, some_want, writes destination got, n, ==_self want, stops)
        (ih ∙ ap ok (copied_on at want (suc m) destination (omega arith) k))

  -- A mapping of references into a file that starts with the bytes so far.
  abbrev pub Maps : List ℕ → TextRef × TextRef → Type 0
  Maps now p =
      (p.1.offset + p.1.length_of ≤ length now)
      × (slice p.1.length_of p.1.offset now ≡ slice p.0.length_of p.0.offset contents)

  -- The texts of the references, one after the other.
  abbrev pub texts : List TextRef → List ℕ
  texts [] = []
  texts (r ∷ rs) = slice r.length_of r.offset contents ++ texts rs

  pub record Copied (rs : List TextRef) (destination : List ℕ) (size : ℕ) : Type 0 where
    pub mapping : List (TextRef × TextRef)
    pub copies :
        copy_references read_at write rs destination size
        ≡ ok (mapping, destination ++ texts rs, size + total_length rs)
    pub of_all : map (λ (p : TextRef × TextRef). p.0) mapping ≡ rs
    pub maps : All (Maps (destination ++ texts rs)) mapping

  abbrev pub InFile : TextRef → Type 0
  InFile r = r.offset + r.length_of ≤ length contents

  copied_first :
      (r : TextRef) (destination more : List ℕ)
      → InFile r
      → Maps
          (destination ++ (slice r.length_of r.offset contents ++ more))
          (r, record { offset = length destination; length_of = r.length_of })
  copied_first r destination more h =
      let text = slice r.length_of r.offset contents in
      let n : length text ≡ r.length_of =
        length-slice r.length_of r.offset contents ∙ omega (arith, h) in
      (
        omega (arith, n, length-append destination (text ++ more), length-append text more),
        ap (take r.length_of) (
              drop-append_le (length destination) destination (text ++ more) (omega arith)
              ∙ ap (λ k. k ++ (text ++ more))
                  (drop-all (length destination) destination (omega arith)))
            ∙ take-append_le r.length_of text more (omega (arith, n))
            ∙ take-all r.length_of text (omega (arith, n)),
      )

  pub copy_references_lem :
      (rs : List TextRef) (destination : List ℕ) (size : ℕ)
      → size ≡ length destination
      → All InFile rs
      → Copied rs destination size
  unfolding copy_references
  copy_references_lem [] destination size h a =
      let z : size ≡ size + 0 = omega arith in
      record {
        mapping = [];
        copies = ap₂ (λ c k. ok ([], c, k)) (sym (append-nil destination)) z;
        of_all = refl;
        maps = tt;
      }
  copy_references_lem (r ∷ rs) destination size h a =
      let text = slice r.length_of r.offset contents in
      let n : length text ≡ r.length_of =
        length-slice r.length_of r.offset contents ∙ omega (arith, a.0) in
      let first =
        copy_reference_lem r.length_of r.offset r.length_of destination (omega arith) a.0 in
      let rest =
        copy_references_lem rs (destination ++ text) (size + r.length_of)
          (omega (arith, h, n, length-append destination text)) a.1 in
      let joined : (destination ++ text) ++ texts rs ≡ destination ++ texts (r ∷ rs) =
        append_assoc destination text (texts rs) in
      let added : size + r.length_of + total_length rs ≡ size + total_length (r ∷ rs) =
        omega arith in
      let p : TextRef × TextRef = (r, record { offset = size; length_of = r.length_of }) in
      record {
        mapping = p ∷ rest.mapping;
        copies =
            rw (copy_references, first, rest.copies)
              (ap₂ (λ c k. ok (p ∷ rest.mapping, c, k)) joined added);
        of_all = ap (r ∷◌) rest.of_all;
        maps = (
          subst
              (λ k.
                Maps (destination ++ texts (r ∷ rs))
                  (r, record { offset = k; length_of = r.length_of }))
              (sym h) (copied_first r destination (texts rs) a.0),
          subst (λ c. All (Maps c) rest.mapping) joined rest.maps,
        );
      }

  pub length-texts : (rs : List TextRef) → All InFile rs → length (texts rs) ≡ total_length rs
  length-texts [] a = refl
  length-texts (r ∷ rs) a = omega (
    arith,
    a.0,
    length-append (slice r.length_of r.offset contents) (texts rs),
    length-slice r.length_of r.offset contents,
    length-texts rs a.1,
  )
