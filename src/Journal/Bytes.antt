-- ===== src/Journal/Bytes.antt =====
-- encoding/binary's little-endian integers, as recovery/journal.go puts them into its headers and
-- records: fields of a fixed width.
use docengine.Prelude.{
  ℕ, zero, suc, ◌+◌, ◌*◌, ◌/◌, ◌%◌, ◌<◌, ◌≡◌, refl, ap, ◌∙◌, List, [], ◌∷◌, arith, length,
}
use native.Mathlib.Nat.{mod-add-div, div-lt_iff_lt-mul, mul_comm}

unfoldable pub put_le : ℕ → ℕ → List ℕ
put_le zero n = []
put_le (suc w) n = n % 256 ∷ put_le w (n / 256)

unfoldable pub get_le : List ℕ → ℕ
get_le [] = 0
get_le (b ∷ bs) = b + 256 * get_le bs

-- The first number that `w` bytes cannot hold.
unfoldable pub le_limit : ℕ → ℕ
le_limit zero = 1
le_limit (suc w) = 256 * le_limit w

pub length-put_le : (w n : ℕ) → length (put_le w n) ≡ w
unfolding put_le
length-put_le zero n = refl
length-put_le (suc w) n = ap suc (length-put_le w (n / 256))

-- A number that fits its field is read back.
pub get_le-put_le : (w n : ℕ) → n < le_limit w → get_le (put_le w n) ≡ n
unfolding get_le put_le le_limit
get_le-put_le zero n h = omega arith
get_le-put_le (suc w) n h =
    let some_base : 0 < 256 = omega arith in
    let small = (div-lt_iff_lt-mul some_base).1 (rw (mul_comm (le_limit w) 256) h) in
    ap (λ k. n % 256 + 256 * k) (get_le-put_le w (n / 256) small) ∙ mod-add-div n 256
