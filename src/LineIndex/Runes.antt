-- ===== src/LineIndex/Runes.antt =====
-- document/coordinate/index.go: the rune boundaries of a text, from which an index answers.
use docengine.Prelude.{
  ℕ, zero, suc, ◌+◌, ◌-◌, ◌*◌, ◌%◌, ◌≤◌, ◌<◌, ◌≡◌, refl, sym, ap, ◌∙◌, subst, ◌⊎◌, inl, inr, ◌||◌,
  ltb, ◌==◌, Bool-cases, List, [], ◌∷◌, ◌++◌, arith, length, drop, ==→ne,
}
use docengine.LineIndex.Utf8.{Decoded, decode, continuation, incomplete, invalid, rune, rune_size}
use docengine.LineIndex.State.{Checkpoint, advance}

abbrev rune_of : Decoded → ℕ × ℕ
rune_of (rune r n) = (r, n)
rune_of _ = (0, 0)

abbrev IsRune : Decoded → Type 0
IsRune (rune r n) = Unit {0}
IsRune _ = ⊥

continuation_lem :
    (n k low high r : ℕ) (bs : List ℕ) (q m : ℕ)
    → continuation n k low high r bs ≡ rune q m
    → (m ≡ n) × (k ≤ length bs)
unfolding continuation
continuation_lem n zero low high r bs q m h = (sym (ap (λ d. (rune_of d).1) h), omega arith)
continuation_lem n (suc k) low high r [] q m h = absurd (subst IsRune (sym h) tt)
continuation_lem n (suc k) low high r (b ∷ bs) q m h = elim (Bool-cases (ltb b low || ltb high b)) [
  | inl e ↦ let z : invalid ≡ rune q m = rw e at h in absurd (subst IsRune (sym z) tt)
  | inr e ↦
      let ih = continuation_lem n k 128 191 (r * 64 + b % 64) bs q m (rw e at h) in
      (ih.0, omega (arith, ih.1))
]

-- The result hangs on the announced bytes alone.
continuation-append :
    (n k low high r : ℕ) (xs ys : List ℕ)
    → k ≤ length xs
    → continuation n k low high r (xs ++ ys) ≡ continuation n k low high r xs
unfolding continuation
continuation-append n zero low high r xs ys h = refl
continuation-append n (suc k) low high r [] ys h = absurd (omega arith)
continuation-append n (suc k) low high r (b ∷ xs) ys h =
    rw (continuation-append n k 128 191 (r * 64 + b % 64) xs ys (omega arith))

pub decode_lem : (bs : List ℕ) (r n : ℕ) → decode bs ≡ rune r n → (0 < n) × (n ≤ length bs)
unfolding decode
decode_lem [] r n h = absurd (subst IsRune (sym h) tt)
decode_lem (b ∷ bs) r n h = elim (Bool-cases (rune_size b == 0)) [
  | inl e ↦ let z : invalid ≡ rune r n = rw e at h in absurd (subst IsRune (sym z) tt)
  | inr e ↦
      let c = continuation_lem (rune_size b) (rune_size b - 1) _ _ _ bs r n (rw e at h) in
      (omega (arith, c.0, ==→ne _ _ e), omega (arith, c.0, c.1))
]

-- A rune that ends inside a part of the bytes is decoded from that part.
pub decode-append :
    (xs ys : List ℕ) (r n : ℕ) → decode (xs ++ ys) ≡ rune r n → n ≤ length xs → decode xs ≡ rune r n
unfolding decode
decode-append [] ys r n h k = absurd (omega (arith, (decode_lem ys r n h).0))
decode-append (b ∷ xs) ys r n h k = elim (Bool-cases (rune_size b == 0)) [
  | inl e ↦ let z : invalid ≡ rune r n = rw e at h in absurd (subst IsRune (sym z) tt)
  | inr e ↦
      let h' = rw e at h in
      let c = continuation_lem (rune_size b) (rune_size b - 1) _ _ _ (xs ++ ys) r n h' in
      rw e (
        sym (continuation-append (rune_size b) (rune_size b - 1) _ _ _ xs ys (omega (arith, c.0)))
        ∙ h')
]

-- A state reaches another by decoding runes of the text.
pub data Reaches (text : List ℕ) : Checkpoint → Checkpoint → Type 0 where
  here : {s : Checkpoint} → Reaches text s s
  next :
      {s t : Checkpoint} (r n : ℕ)
      → decode (drop s.byte_offset text) ≡ rune r n
      → Reaches text (advance s r n) t
      → Reaches text s t

-- A state before another, in each of its coordinates.
pub record Before (s t : Checkpoint) : Type 0 where
  pub bytes : s.byte_offset < t.byte_offset
  pub runes : s.rune_offset < t.rune_offset
  pub lines : (s.line < t.line) ⊎ ((s.line ≡ t.line) × (s.column < t.column))

advance-Before : (s : Checkpoint) (r n : ℕ) → 0 < n → Before s (advance s r n)
unfolding advance
advance-Before s r n h = ground arith

Before-trans : (s t u : Checkpoint) → Before s t → Before t u → Before s u
Before-trans s t u a b = ground arith

pub Reaches-cases : {text : List ℕ} {s t : Checkpoint} → Reaches text s t → (s ≡ t) ⊎ Before s t
Reaches-cases here = inl refl
Reaches-cases {text} {s} {t} (next r n h rest) =
    let first = advance-Before s r n (decode_lem _ r n h).0 in
    elim (Reaches-cases rest) [
      | inl e ↦ inr (subst (Before s) e first)
      | inr b ↦ inr (Before-trans s (advance s r n) t first b)
    ]

continuation_short :
    (n k low high r : ℕ) (xs ys : List ℕ) (q m : ℕ)
    → continuation n k low high r (xs ++ ys) ≡ rune q m
    → length xs < k
    → continuation n k low high r xs ≡ incomplete
unfolding continuation
continuation_short n zero low high r xs ys q m h k = absurd (omega arith)
continuation_short n (suc j) low high r [] ys q m h k = refl
continuation_short n (suc j) low high r (b ∷ xs) ys q m h k =
    elim (Bool-cases (ltb b low || ltb high b)) [
      | inl e ↦ let z : invalid ≡ rune q m = rw e at h in absurd (subst IsRune (sym z) tt)
      | inr e ↦
          rw e
            (continuation_short n j 128 191 (r * 64 + b % 64) xs ys q m (rw e at h) (omega arith))
    ]

-- A part of a rune's bytes is incomplete.
pub decode_short :
    (xs ys : List ℕ) (r n : ℕ)
    → decode (xs ++ ys) ≡ rune r n
    → length xs < n
    → decode xs ≡ incomplete
unfolding decode
decode_short [] ys r n h k = refl
decode_short (b ∷ xs) ys r n h k = elim (Bool-cases (rune_size b == 0)) [
  | inl e ↦ let z : invalid ≡ rune r n = rw e at h in absurd (subst IsRune (sym z) tt)
  | inr e ↦
      let h' = rw e at h in
      let c = continuation_lem (rune_size b) (rune_size b - 1) _ _ _ (xs ++ ys) r n h' in
      rw e
        (continuation_short (rune_size b) (rune_size b - 1) _ _ _ xs ys r n h' (omega (arith, c.0)))
]

rune_size-le : (b : ℕ) → rune_size b ≤ 4
unfolding rune_size
rune_size-le b = ground arith

pub decode-le : (bs : List ℕ) (r n : ℕ) → decode bs ≡ rune r n → n ≤ 4
unfolding decode
decode-le [] r n h = absurd (subst IsRune (sym h) tt)
decode-le (b ∷ bs) r n h = elim (Bool-cases (rune_size b == 0)) [
  | inl e ↦ let z : invalid ≡ rune r n = rw e at h in absurd (subst IsRune (sym z) tt)
  | inr e ↦
      let c = continuation_lem (rune_size b) (rune_size b - 1) _ _ _ bs r n (rw e at h) in
      omega (arith, c.0, rune_size-le b)
]

-- The rune behind a boundary that is not the last.
pub first_rune :
    {text : List ℕ} {s t : Checkpoint}
    → Reaches text s t
    → s.byte_offset < t.byte_offset
    → (r : ℕ) × (n : ℕ) × (decode (drop s.byte_offset text) ≡ rune r n)
      × Reaches text (advance s r n) t
first_rune here h = absurd (omega arith)
first_rune (next r n e rest) h = (r, n, e, rest)
