-- ===== src/Prelude/Words.antt =====
-- Machine integers: the bounds of int64 and uint64, and signed arguments. A signed value that the
-- code checks against 0 enters as `ℤ`; behind its check it is the natural number that it holds.
use Prim.Native.Nat.{ℕ, zero, suc, ◌-◌, ◌^◌}
use mathlib.Core.Bool.{Bool, true, false}
use mathlib.Core.Path.{◌≡◌, refl}
use docengine.Prelude.Tests.{ltb}

-- math.MaxInt64, math.MaxUint64 and 2^64.
abbrev pub max_int64 : ℕ
max_int64 = 2 ^ 63 - 1

abbrev pub max_uint64 : ℕ
max_uint64 = 2 ^ 64 - 1

abbrev pub u64_mod : ℕ
u64_mod = 2 ^ 64

-- `negsuc n` is -(n + 1).
pub data ℤ : Type 0 where
  pos : ℕ → ℤ
  negsuc : ℕ → ℤ

abbrev pub is_negative : ℤ → Bool
is_negative (pos n) = false
is_negative (negsuc n) = true

-- The value of a signed number that is not negative.
abbrev pub to_ℕ : ℤ → ℕ
to_ℕ (pos n) = n
to_ℕ (negsuc n) = 0

abbrev pub is_zero : ℤ → Bool
is_zero (pos zero) = true
is_zero (pos (suc n)) = false
is_zero (negsuc n) = false

-- a < b.
abbrev pub ltz : ℤ → ℤ → Bool
ltz (pos m) (pos n) = ltb m n
ltz (pos m) (negsuc n) = false
ltz (negsuc m) (pos n) = true
ltz (negsuc m) (negsuc n) = ltb n m

pub pos-to_ℕ : (a : ℤ) → is_negative a ≡ false → pos (to_ℕ a) ≡ a
pos-to_ℕ (pos n) h = refl
pos-to_ℕ (negsuc n) h = cc
