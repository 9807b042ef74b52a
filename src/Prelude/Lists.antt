-- ===== src/Prelude/Lists.antt =====
-- Lists measured and indexed by native numbers, under the library's names.
use Prim.Native.Nat.{ℕ, zero, suc, ◌+◌, ◌-◌, ◌≤◌, min}
use mathlib.Core.Path.{◌≡◌, refl, sym, ap, ap₂, ◌∙◌}
use mathlib.Core.List.{List, [], ◌∷◌, ◌++◌, map}
use mathlib.Core.Option.{Option, none, some}
use native.Mathlib.Omega.{arith}

module _ {ℓ} {A : Type ℓ} where
  abbrev pub length : List A → ℕ
  length [] = 0
  length (x ∷ xs) = suc (length xs)

  abbrev pub get_elem? : List A → ℕ → Option A
  get_elem? [] i = none
  get_elem? (x ∷ xs) zero = some x
  get_elem? (x ∷ xs) (suc i) = get_elem? xs i

  abbrev pub take : ℕ → List A → List A
  take zero xs = []
  take (suc n) [] = []
  take (suc n) (x ∷ xs) = x ∷ take n xs

  abbrev pub drop : ℕ → List A → List A
  drop zero xs = xs
  drop (suc n) [] = []
  drop (suc n) (x ∷ xs) = drop n xs

  abbrev pub All {κ} : (A → Type κ) → List A → Type κ
  All P [] = Unit
  All P (x ∷ xs) = P x × All P xs

  pub length-append : (xs ys : List A) → length (xs ++ ys) ≡ length xs + length ys
  length-append [] ys = omega arith
  length-append (x ∷ xs) ys = omega (arith, length-append xs ys)

  pub take-append-drop : (n : ℕ) (xs : List A) → take n xs ++ drop n xs ≡ xs
  take-append-drop zero xs = refl
  take-append-drop (suc n) [] = refl
  take-append-drop (suc n) (x ∷ xs) = rw (take-append-drop n xs)

  pub length-take : (n : ℕ) (xs : List A) → length (take n xs) ≡ min n (length xs)
  length-take zero xs = omega arith
  length-take (suc n) [] = omega arith
  length-take (suc n) (x ∷ xs) = omega (arith, length-take n xs)

  pub length-drop : (n : ℕ) (xs : List A) → length (drop n xs) ≡ length xs - n
  length-drop zero xs = omega arith
  length-drop (suc n) [] = omega arith
  length-drop (suc n) (x ∷ xs) = omega (arith, length-drop n xs)

  -- A cut inside the first of two lists, and one inside the second.
  pub take-append_le : (n : ℕ) (xs ys : List A) → n ≤ length xs → take n (xs ++ ys) ≡ take n xs
  take-append_le zero xs ys h = refl
  take-append_le (suc n) [] ys h = absurd (omega arith)
  take-append_le (suc n) (x ∷ xs) ys h = ap (x ∷◌) (take-append_le n xs ys (omega arith))

  pub drop-append_le :
      (n : ℕ) (xs ys : List A) → n ≤ length xs → drop n (xs ++ ys) ≡ drop n xs ++ ys
  drop-append_le zero xs ys h = refl
  drop-append_le (suc n) [] ys h = absurd (omega arith)
  drop-append_le (suc n) (x ∷ xs) ys h = drop-append_le n xs ys (omega arith)

  pub take-append_add : (xs ys : List A) (n : ℕ) → take (length xs + n) (xs ++ ys) ≡ xs ++ take n ys
  take-append_add [] ys n = let e : 0 + n ≡ n = omega arith in ap (λ k. take k ys) e
  take-append_add (x ∷ xs) ys n =
      let e : suc (length xs) + n ≡ suc (length xs + n) = omega arith in
      ap (λ k. take k (x ∷ xs ++ ys)) e ∙ ap (x ∷◌) (take-append_add xs ys n)

  pub drop-append_add : (xs ys : List A) (n : ℕ) → drop (length xs + n) (xs ++ ys) ≡ drop n ys
  drop-append_add [] ys n = let e : 0 + n ≡ n = omega arith in ap (λ k. drop k ys) e
  drop-append_add (x ∷ xs) ys n =
      let e : suc (length xs) + n ≡ suc (length xs + n) = omega arith in
      ap (λ k. drop k (x ∷ xs ++ ys)) e ∙ drop-append_add xs ys n

  pub take-append_ge :
      (n : ℕ) (xs ys : List A) → length xs ≤ n → take n (xs ++ ys) ≡ xs ++ take (n - length xs) ys
  take-append_ge n xs ys h =
      let e : n ≡ length xs + (n - length xs) = omega arith in
      ap (λ k. take k (xs ++ ys)) e ∙ take-append_add xs ys (n - length xs)

  pub drop-append_ge :
      (n : ℕ) (xs ys : List A) → length xs ≤ n → drop n (xs ++ ys) ≡ drop (n - length xs) ys
  drop-append_ge n xs ys h =
      let e : n ≡ length xs + (n - length xs) = omega arith in
      ap (λ k. drop k (xs ++ ys)) e ∙ drop-append_add xs ys (n - length xs)

  pub take-all : (n : ℕ) (xs : List A) → length xs ≤ n → take n xs ≡ xs
  take-all zero [] h = refl
  take-all zero (x ∷ xs) h = absurd (omega arith)
  take-all (suc n) [] h = refl
  take-all (suc n) (x ∷ xs) h = ap (x ∷◌) (take-all n xs (omega arith))

  pub drop-all : (n : ℕ) (xs : List A) → length xs ≤ n → drop n xs ≡ []
  drop-all zero [] h = refl
  drop-all zero (x ∷ xs) h = absurd (omega arith)
  drop-all (suc n) [] h = refl
  drop-all (suc n) (x ∷ xs) h = drop-all n xs (omega arith)

  pub take_nil : (n : ℕ) → take n [] ≡ []
  take_nil zero = refl
  take_nil (suc n) = refl

  pub drop_nil : (n : ℕ) → drop n [] ≡ []
  drop_nil zero = refl
  drop_nil (suc n) = refl

  pub take-append :
      (n : ℕ) (xs ys : List A) → take n (xs ++ ys) ≡ take n xs ++ take (n - length xs) ys
  take-append zero xs ys = let e : 0 ≡ 0 - length xs = omega arith in ap (λ k. take k ys) e
  take-append (suc n) [] ys = let e : suc n ≡ suc n - 0 = omega arith in ap (λ k. take k ys) e
  take-append (suc n) (x ∷ xs) ys =
      let e : n - length xs ≡ suc n - suc (length xs) = omega arith in
      ap (x ∷◌) (take-append n xs ys ∙ ap (λ k. take n xs ++ take k ys) e)

  pub drop-append :
      (n : ℕ) (xs ys : List A) → drop n (xs ++ ys) ≡ drop n xs ++ drop (n - length xs) ys
  drop-append zero xs ys = let e : 0 ≡ 0 - length xs = omega arith in ap (λ k. xs ++ drop k ys) e
  drop-append (suc n) [] ys = let e : suc n ≡ suc n - 0 = omega arith in ap (λ k. drop k ys) e
  drop-append (suc n) (x ∷ xs) ys =
      let e : n - length xs ≡ suc n - suc (length xs) = omega arith in
      drop-append n xs ys ∙ ap (λ k. drop n xs ++ drop k ys) e

  -- `want` elements from `off` on.
  abbrev pub slice : ℕ → ℕ → List A → List A
  slice want off xs = take want (drop off xs)

  pub length-slice :
      (want off : ℕ) (xs : List A) → length (slice want off xs) ≡ min want (length xs - off)
  length-slice want off xs = omega (arith, length-take want (drop off xs), length-drop off xs)

  pub take-min : (n : ℕ) (xs : List A) → take n xs ≡ take (min n (length xs)) xs
  take-min zero xs = let e : 0 ≡ min 0 (length xs) = omega arith in ap (λ k. take k xs) e
  take-min (suc n) [] = sym (take_nil (min (suc n) 0))
  take-min (suc n) (x ∷ xs) =
      let e : suc (min n (length xs)) ≡ min (suc n) (suc (length xs)) = omega arith in
      ap (x ∷◌) (take-min n xs) ∙ ap (λ k. take k (x ∷ xs)) e

  -- A slice that is cut to what is there.
  pub slice-min :
      (want off : ℕ) (xs : List A) → slice want off xs ≡ slice (min want (length xs - off)) off xs
  slice-min want off xs =
      take-min want (drop off xs) ∙ ap (λ k. take (min want k) (drop off xs)) (length-drop off xs)

  pub slice_none : (want off : ℕ) (xs : List A) → want ≡ 0 → slice want off xs ≡ []
  slice_none want off xs h = rw h

  pub slice_past : (want off : ℕ) (xs : List A) → length xs ≤ off → [] ≡ slice want off xs
  slice_past want off xs h = sym (ap (take want) (drop-all off xs h) ∙ take_nil want)

  pub slice-append :
      (want off : ℕ) (xs ys : List A)
      → slice want off (xs ++ ys)
        ≡ slice want off xs ++ slice (want - length (slice want off xs)) (off - length xs) ys
  slice-append want off xs ys =
      let e : want - length (drop off xs) ≡ want - length (slice want off xs) =
        omega (arith, length-take want (drop off xs)) in
      ap (take want) (drop-append off xs ys)
      ∙ take-append want (drop off xs) (drop (off - length xs) ys)
      ∙ ap (λ k. slice want off xs ++ slice k (off - length xs) ys) e

  pub drop-drop : (m n : ℕ) (xs : List A) → drop m (drop n xs) ≡ drop (n + m) xs
  drop-drop m zero xs = let e : m ≡ 0 + m = omega arith in ap (λ k. drop k xs) e
  drop-drop zero (suc n) [] = let e : suc n + 0 ≡ suc n = omega arith in sym (ap (λ k. drop k []) e)
  drop-drop (suc m) (suc n) [] =
      let e : suc n + suc m ≡ suc (n + suc m) = omega arith in sym (ap (λ k. drop k []) e)
  drop-drop m (suc n) (x ∷ xs) =
      let e : suc (n + m) ≡ suc n + m = omega arith in
      drop-drop m n xs ∙ ap (λ k. drop k (x ∷ xs)) e

  -- Two slices that follow each other.
  pub slice_split :
      (a b off : ℕ) (xs : List A)
      → a ≤ b
      → off + b ≤ length xs
      → slice a off xs ++ slice (b - a) (off + a) xs ≡ slice b off xs
  slice_split a b off xs h k =
      let n : length (slice a off xs) ≡ a = length-slice a off xs ∙ omega (arith, h, k) in
      let e : b ≡ length (slice a off xs) + (b - a) = omega (arith, n, h) in
      ap (λ m. slice a off xs ++ take (b - a) m) (sym (drop-drop a off xs))
      ∙ sym (take-append_add (slice a off xs) (drop a (drop off xs)) (b - a))
      ∙ ap₂ take (sym e) (take-append-drop a (drop off xs))

  pub slice-append_le :
      (want off : ℕ) (xs ys : List A)
      → off + want ≤ length xs
      → slice want off (xs ++ ys) ≡ slice want off xs
  slice-append_le want off xs ys h =
      ap (take want) (drop-append_le off xs ys (omega (arith, h)))
      ∙ take-append_le want (drop off xs) ys (omega (arith, length-drop off xs, h))

  pub All-append {κ} : (P : A → Type κ) (xs ys : List A) → All P xs → All P ys → All P (xs ++ ys)
  All-append P [] ys h k = k
  All-append P (x ∷ xs) ys h k = (h.0, All-append P xs ys h.1 k)

  pub All-append_inv {κ} :
      (P : A → Type κ) (xs ys : List A) → All P (xs ++ ys) → All P xs × All P ys
  All-append_inv P [] ys h = (tt, h)
  All-append_inv P (x ∷ xs) ys h = let r = All-append_inv P xs ys h.1 in ((h.0, r.0), r.1)

pub length-map {ℓ κ} :
    {A : Type ℓ} {B : Type κ} (f : A → B) (xs : List A) → length (map f xs) ≡ length xs
length-map f [] = refl
length-map f (x ∷ xs) = ap suc (length-map f xs)

module _ {ℓ κ} {A : Type ℓ} {B : Type κ} (f : A → B) where
  pub map-take : (n : ℕ) (xs : List A) → map f (take n xs) ≡ take n (map f xs)
  map-take zero xs = refl
  map-take (suc n) [] = refl
  map-take (suc n) (x ∷ xs) = ap (f x ∷◌) (map-take n xs)

  pub map-drop : (n : ℕ) (xs : List A) → map f (drop n xs) ≡ drop n (map f xs)
  map-drop zero xs = refl
  map-drop (suc n) [] = refl
  map-drop (suc n) (x ∷ xs) = map-drop n xs
