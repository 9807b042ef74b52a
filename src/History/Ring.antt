-- ===== src/History/Ring.antt =====
-- The ring buffers of document/change_history.go and document/events.go: a slice of a fixed length,
-- the index of its oldest entry and a count.
use docengine.Prelude.{
  ℕ, zero, suc, ◌+◌, ◌-◌, ◌%◌, ◌≤◌, ◌<◌, ◌≡◌, ◌≢◌, refl, sym, ap, ap₂, ◌∙◌, List, [], ◌∷◌, ◌++◌,
  arith, length, drop, ◌⊎◌, inl, inr, Bool-cases, ltb, ltb→lt, ltb→ge,
}
use native.Mathlib.Nat.{mod-eq_of_lt, add-mod_right, mod-lt, mod-add-mod}

-- `xs[i] = x`, and `xs[i]`; the zero value stands past the end, which the code never reaches.
unfoldable pub set_at {ℓ} : {A : Type ℓ} → List A → ℕ → A → List A
set_at [] i x = []
set_at (y ∷ ys) zero x = x ∷ ys
set_at (y ∷ ys) (suc i) x = y ∷ set_at ys i x

unfoldable pub slot {ℓ} : {A : Type ℓ} → A → List A → ℕ → A
slot z [] i = z
slot z (y ∷ ys) zero = y
slot z (y ∷ ys) (suc i) = slot z ys i

unfoldable pub zeroes {ℓ} : {A : Type ℓ} → A → ℕ → List A
zeroes z zero = []
zeroes z (suc n) = z ∷ zeroes z n

-- The entries at `(start + i) % limit`, for the `n` indices from `i` on.
unfoldable pub window {ℓ} : {A : Type ℓ} → A → List A → ℕ → ℕ → ℕ → List A
window z xs start i zero = []
window z xs start i (suc n) = slot z xs ((start + i) % length xs) ∷ window z xs start (i + 1) n

pub length-set_at {ℓ} :
    {A : Type ℓ} (xs : List A) (i : ℕ) (x : A) → length (set_at xs i x) ≡ length xs
unfolding set_at
length-set_at [] i x = refl
length-set_at (y ∷ ys) zero x = refl
length-set_at (y ∷ ys) (suc i) x = ap suc (length-set_at ys i x)

slot-set_at {ℓ} :
    {A : Type ℓ} (z : A) (xs : List A) (i : ℕ) (x : A)
    → i < length xs
    → slot z (set_at xs i x) i ≡ x
unfolding set_at slot
slot-set_at z [] i x h = absurd (omega arith)
slot-set_at z (y ∷ ys) zero x h = refl
slot-set_at z (y ∷ ys) (suc i) x h = slot-set_at z ys i x (omega arith)

slot_other {ℓ} :
    {A : Type ℓ} (z : A) (xs : List A) (i j : ℕ) (x : A)
    → i ≢ j
    → slot z (set_at xs i x) j ≡ slot z xs j
unfolding set_at slot
slot_other z [] i j x h = refl
slot_other z (y ∷ ys) zero zero x h = absurd (h refl)
slot_other z (y ∷ ys) zero (suc j) x h = refl
slot_other z (y ∷ ys) (suc i) zero x h = refl
slot_other z (y ∷ ys) (suc i) (suc j) x h = slot_other z ys i j x (λ e. h (ap suc e))

pub length-zeroes {ℓ} : {A : Type ℓ} (z : A) (n : ℕ) → length (zeroes z n) ≡ n
unfolding zeroes
length-zeroes z zero = refl
length-zeroes z (suc n) = ap suc (length-zeroes z n)

-- An index of the ring, without the remainder.
ring_index :
    (limit start i : ℕ)
    → start < limit
    → i < limit
    → ((start + i < limit) × ((start + i) % limit ≡ start + i))
      ⊎ ((limit ≤ start + i) × ((start + i) % limit ≡ start + i - limit))
ring_index limit start i h k = elim (Bool-cases (ltb (start + i) limit)) [
  | inl e ↦ inl (ltb→lt _ _ e, mod-eq_of_lt (ltb→lt _ _ e))
  | inr e ↦
      let above = ltb→ge _ _ e in
      let wrapped : start + i ≡ (start + i - limit) + limit = omega (arith, above) in
      inr (
        above,
        ap (λ n. n % limit) wrapped
            ∙ add-mod_right (start + i - limit) limit
            ∙ mod-eq_of_lt (omega arith),
      )
]

ring_apart :
    (limit start i j : ℕ)
    → start < limit
    → i < j
    → j < limit
    → (start + j) % limit ≢ (start + i) % limit
ring_apart limit start i j h k l e = elim (ring_index limit start i h (omega arith)) [
  | inl a ↦ elim (ring_index limit start j h l) [
    | inl b ↦ omega (arith, a.1, b.1, e)
    | inr b ↦ omega (arith, a.1, b.1, e, a.0, b.0)
  ]
  | inr a ↦ elim (ring_index limit start j h l) [
    | inl b ↦ omega (arith, a.1, b.1, e, a.0, b.0)
    | inr b ↦ omega (arith, a.1, b.1, e, a.0, b.0)
  ]
]

module _ {ℓ} {A : Type ℓ} (z : A) where
  window-set_at :
      (xs : List A) (start j : ℕ) (x : A) (i n : ℕ)
      → ((k : ℕ) → i ≤ k → k < i + n → j ≢ (start + k) % length xs)
      → window z (set_at xs j x) start i n ≡ window z xs start i n
  unfolding window
  window-set_at xs start j x i zero h = refl
  window-set_at xs start j x i (suc n) h =
      rw
        (
          length-set_at xs j x,
          slot_other z xs j ((start + i) % length xs) x (h i (omega arith) (omega arith)),
        )
        (ap (slot z xs ((start + i) % length xs) ∷◌)
          (window-set_at xs start j x (i + 1) n (λ k a b. h k (omega arith) (omega arith))))

  window_snoc :
      (xs : List A) (start i n : ℕ)
      → window z xs start i (suc n)
        ≡ window z xs start i n ++ slot z xs ((start + (i + n)) % length xs) ∷ []
  unfolding window
  window_snoc xs start i zero = let e : i + 0 ≡ i = omega arith in rw e refl
  window_snoc xs start i (suc n) =
      let e : i + 1 + n ≡ i + suc n = omega arith in
      ap (slot z xs ((start + i) % length xs) ∷◌) (
        window_snoc xs start (i + 1) n
        ∙ ap (λ k. window z xs start (i + 1) n ++ slot z xs ((start + k) % length xs) ∷ []) e)

  window_shift :
      (xs : List A) (start i n : ℕ)
      → window z xs ((start + 1) % length xs) i n ≡ window z xs start (i + 1) n
  unfolding window
  window_shift xs start i zero = refl
  window_shift xs start i (suc n) =
      let e : start + 1 + i ≡ start + (i + 1) = omega arith in
      ap₂ (λ k (ys : List A). slot z xs k ∷ ys)
        (mod-add-mod (start + 1) (length xs) i ∙ ap (λ k. k % length xs) e)
        (window_shift xs start (i + 1) n)

  -- A ring with room: the new entry stands behind the others.
  pub window_push :
      (xs : List A) (start n : ℕ) (x : A)
      → start < length xs
      → n < length xs
      → window z (set_at xs ((start + n) % length xs) x) start 0 (n + 1)
        ≡ window z xs start 0 n ++ x ∷ []
  window_push xs start n x h k =
      let j = (start + n) % length xs in
      let e : n + 1 ≡ suc n = omega arith in
      let o : start + (0 + n) ≡ start + n = omega arith in
      ap (window z (set_at xs j x) start 0) e
      ∙ window_snoc (set_at xs j x) start 0 n
      ∙ ap₂ (λ (ys : List A) (y : A). ys ++ y ∷ [])
          (window-set_at xs start j x 0 n
            (λ i a b. ring_apart (length xs) start i n h (omega arith) k))
          (ap₂ (λ a l. slot z (set_at xs j x) (a % l)) o (length-set_at xs j x)
            ∙ slot-set_at z xs j x (mod-lt (start + n) (omega arith)))

  -- A full ring: the new entry takes the place of the oldest, and the others keep their order.
  pub window_turn :
      (xs : List A) (start n : ℕ) (x : A)
      → start < length xs
      → suc n ≡ length xs
      → window z (set_at xs start x) ((start + 1) % length xs) 0 (suc n)
        ≡ drop 1 (window z xs start 0 (suc n)) ++ x ∷ []
  unfolding window
  window_turn xs start n x h full =
      let first : (start + 0) % length xs ≡ start =
        ap (λ k. k % length xs) (omega arith) ∙ mod-eq_of_lt h in
      let round : (start + (1 + n)) % length xs ≡ start =
        ap (λ k. (start + k) % length xs) (omega (arith, full))
        ∙ add-mod_right start (length xs)
        ∙ mod-eq_of_lt h in
      ap (λ l. window z (set_at xs start x) ((start + 1) % l) 0 (suc n))
        (sym (length-set_at xs start x))
      ∙ window_shift (set_at xs start x) start 0 (suc n)
      ∙ window_snoc (set_at xs start x) start 1 n
      ∙ ap₂ (λ (ys : List A) (y : A). ys ++ y ∷ [])
          (window-set_at xs start start x 1 n (λ k a b e.
            ring_apart (length xs) start 0 k h (omega arith) (omega (arith, full))
              (sym e ∙ sym first)))
          (ap (λ l. slot z (set_at xs start x) ((start + (1 + n)) % l)) (length-set_at xs start x)
            ∙ ap (slot z (set_at xs start x)) round
            ∙ slot-set_at z xs start x h)
