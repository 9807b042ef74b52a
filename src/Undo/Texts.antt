-- ===== src/Undo/Texts.antt =====
-- document/undo_store.go: an appended text is read back, and so are those before it.
use docengine.Prelude.{
  slice-append_le, skipped, taken, ℕ, ◌+◌, ◌-◌, ◌≤◌, ◌≡◌, refl, sym, ap, ap₂, ◌∙◌, subst, inl, inr,
  Bool, true, false, ltb, ◌==◌, ltb→lt, ltb→ge, Bool-cases, if◌then◌else◌, List, [], ◌∷◌, ◌++◌,
  append-nil, Option, some, arith, length, take, drop, slice, length-append, length-take,
  length-slice, drop-append_le, take-all, drop-all, Result, ok, err, ok-injective, Source, Written,
  Holds, ==_self, ==→eq, slice_none, read_stops_full,
}
use docengine.Undo.Store.{
  UndoError, UndoStore, TextRef, no_text, written_at, append_stored, append_text, on_store,
  read_text, file_failed, undo_quota,
}

-- The store that is open: as many bytes as its size, within the quota.
pub record IsStore (s : UndoStore) : Type 0 where
  pub sized : length s.contents ≡ s.size
  pub bounded : s.size ≤ s.quota
  pub opened : s.closed ≡ false

abbrev pub InStore : UndoStore → TextRef → Type 0
InStore s r = r.offset + r.length_of ≤ s.size

abbrev pub text_at : UndoStore → TextRef → List ℕ
text_at s r = slice r.length_of r.offset s.contents

-- io.WriterAt: it stores at most what it is given, and all of it unless it fails.
pub record IsWriteOf (w : Written) (bs : List ℕ) : Type 0 where
  pub part : w.count ≤ length bs
  pub whole : w.failed ≡ false → w.count ≡ length bs

-- What an append leaves: a store that still gives the texts before, and the new one where it succeeds.
pub record AppendsText (w : Written) (s : UndoStore) (value : List ℕ)
    (z : Result UndoError TextRef × Option UndoStore) : Type 0 where
  pub after : UndoStore
  pub stored : z.1 ≡ some after
  pub store : IsStore after
  pub same_quota : after.quota ≡ s.quota
  pub grows : s.size ≤ after.size
  pub kept : (r : TextRef) → InStore s r → text_at after r ≡ text_at s r
  pub found : (r : TextRef) → z.0 ≡ ok r → InStore after r × (text_at after r ≡ value)
  pub succeeds : length value ≤ s.quota - s.size → w.failed ≡ false → (r : TextRef) × (z.0 ≡ ok r)

drop_whole : (xs ys : List ℕ) → drop (length xs) (xs ++ ys) ≡ ys
drop_whole xs ys =
    drop-append_le (length xs) xs ys (omega arith)
    ∙ ap (λ k. k ++ ys) (drop-all (length xs) xs (omega arith))

written_at_end :
    (n : ℕ) (bs contents : List ℕ)
    → written_at (length contents) n bs contents ≡ contents ++ take n bs
unfolding written_at
written_at_end n bs contents =
    ap₂ (λ xs ys. xs ++ (take n bs ++ ys)) (take-all (length contents) contents (omega arith))
      (drop-all (length contents + n) contents (omega arith))
    ∙ ap (contents ++◌) (append-nil (take n bs))

stored_ref :
    (b : Bool) (a r : TextRef)
    → ◌≡◌ {A = Result UndoError TextRef} (if b then err file_failed else ok a) (ok r)
    → (b ≡ false) × (a ≡ r)
stored_ref false a r h = (refl, ok-injective h)
stored_ref true a r h = cc

append_stored_lem :
    (w : Written) (s : UndoStore) (value : List ℕ)
    → IsStore s
    → IsWriteOf w value
    → length value ≤ s.quota - s.size
    → AppendsText w s value (on_store (append_stored w s value))
unfolding append_stored
append_stored_lem w s value v o fits =
    let now : written_at s.size w.count value s.contents ≡ s.contents ++ take w.count value =
      ap (λ k. written_at k w.count value s.contents) (sym v.sized)
      ∙ written_at_end w.count value s.contents in
    record {
      after = _;
      stored = refl;
      store = record {
        sized =
            ap length now
            ∙ length-append s.contents (take w.count value)
            ∙ omega (arith, length-take w.count value, o.part, v.sized);
        bounded = omega (arith, o.part, fits, v.bounded);
        opened = v.opened;
      };
      same_quota = refl;
      grows = omega arith;
      kept = λ r h.
          ap (λ c. slice r.length_of r.offset c) now
          ∙ slice-append_le r.length_of r.offset s.contents _ (omega (arith, h, v.sized));
      found = λ r h.
          let (worked, same) = stored_ref w.failed _ r h in
          let all : take w.count value ≡ value =
            take-all w.count value (omega (arith, o.whole worked)) in
          let there : slice (length value) s.size (written_at s.size w.count value s.contents)
              ≡ value =
            ap (λ c. slice (length value) s.size c) now
            ∙ ap (take (length value)) (
                ap (λ k. drop k (s.contents ++ take w.count value)) (sym v.sized)
                ∙ drop_whole s.contents (take w.count value)
                ∙ all)
            ∙ take-all (length value) value (omega arith) in
          subst
            (λ (q : TextRef).
              (q.offset + q.length_of ≤ s.size + w.count)
              × (slice q.length_of q.offset (written_at s.size w.count value s.contents) ≡ value))
            same (omega (arith, o.whole worked), there);
      succeeds = λ h g. (record { offset = s.size; length_of = length value }, rw g refl);
    }

unchanged :
    (w : Written) (s : UndoStore) (value : List ℕ) (x : UndoError)
    → IsStore s
    → (length value ≤ s.quota - s.size → ⊥)
    → AppendsText w s value (err x, some s)
unchanged w s value x v full = record {
  after = s;
  stored = refl;
  store = v;
  same_quota = refl;
  grows = omega arith;
  kept = λ r h. refl;
  found = λ r h. cc;
  succeeds = λ h g. absurd (full h);
}

-- Appending bytes to an open store, with a write that stores no more than it is given, and all of
-- it unless it fails, leaves an open store of as many bytes as it counts, within its quota, that
-- gives every text it gave before; the reference that it returns gives the bytes appended; and it
-- returns one where the bytes fit the quota and the write does not fail.
pub append_text_lem :
    (w : Written) (s : UndoStore) (value : List ℕ)
    → IsStore s
    → IsWriteOf w value
    → AppendsText w s value (append_text w (some s) value)
unfolding append_text
append_text_lem w s [] v o = record {
  after = s;
  stored = refl;
  store = v;
  same_quota = refl;
  grows = omega arith;
  kept = λ r h. refl;
  found = λ r h.
      subst
        (λ (q : TextRef).
          (q.offset + q.length_of ≤ s.size) × (slice q.length_of q.offset s.contents ≡ []))
        (ok-injective h) (omega arith, refl);
  succeeds = λ h g. (no_text, refl);
}
append_text_lem w s (b ∷ bs) v o = elim (Bool-cases (ltb (s.quota - s.size) (length (b ∷ bs)))) [
  | inl g ↦
      subst (AppendsText w s (b ∷ bs)) (sym (skipped s.closed _ _ v.opened ∙ taken _ _ _ g))
        (unchanged w s (b ∷ bs) undo_quota v (λ h. omega (arith, h, ltb→lt _ _ g)))
  | inr g ↦
      subst (AppendsText w s (b ∷ bs)) (sym (skipped s.closed _ _ v.opened ∙ skipped _ _ _ g))
        (append_stored_lem w s (b ∷ bs) v o (ltb→ge _ _ g))
]

-- Reading a reference inside an open store, from a file that holds its bytes, returns the bytes
-- that the reference names.
pub read_text_lem :
    (read_at : Source) (s : UndoStore) (r : TextRef)
    → IsStore s
    → Holds read_at s.contents
    → InStore s r
    → read_text read_at (some s) r ≡ ok (text_at s r)
unfolding read_text
read_text_lem read_at s r v holds h = elim (Bool-cases (r.length_of == 0)) [
  | inl e ↦ rw e (ap ok (sym (slice_none r.length_of r.offset s.contents (==→eq _ _ e))))
  | inr e ↦
      let inside : r.offset + r.length_of ≤ length s.contents = omega (arith, h, v.sized) in
      let (bytes, stop) = holds r.offset r.length_of inside in
      let n : length (read_at r.offset r.length_of).0 ≡ r.length_of =
        ap length bytes ∙ length-slice r.length_of r.offset s.contents ∙ omega (arith, inside) in
      rw (e, n, ==_self r.length_of, read_stops_full (read_at r.offset r.length_of).1 stop)
        (skipped s.closed _ _ v.opened ∙ ap ok bytes)
]
