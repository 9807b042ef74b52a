-- ===== src/LineIndex/Utf8.antt =====
-- utf8.FullRune and utf8.DecodeRune of Go's standard library, as document/coordinate/index.go uses
-- them: one result tells a rune, a malformed one and one that is cut off apart.
use docengine.Prelude.{
  ℕ, zero, suc, ◌+◌, ◌-◌, ◌*◌, ◌%◌, ◌||◌, ltb, ◌==◌, if◌then◌else◌, List, [], ◌∷◌,
}

-- `incomplete`: not utf8.FullRune. `invalid`: RuneError of size 1. `rune r n`: a rune of `n` bytes.
pub data Decoded : Type 0 where
  incomplete invalid : Decoded
  rune : ℕ → ℕ → Decoded

-- The continuation bytes of a rune of `n` bytes: the first lies in `[low, high]`.
unfoldable pub continuation : ℕ → ℕ → ℕ → ℕ → ℕ → List ℕ → Decoded
continuation n zero low high r bs = rune r n
continuation n (suc k) low high r [] = incomplete
continuation n (suc k) low high r (b ∷ bs) =
    let rest = continuation n k 128 191 (r * 64 + b % 64) bs in
    if ltb b low || ltb high b then invalid else rest

-- The size that the first byte announces; 0 for a byte that starts no rune.
unfoldable pub rune_size : ℕ → ℕ
rune_size b =
    if ltb b 128
    then 1
    else if ltb b 194
    then 0
    else if ltb b 224
    then 2
    else if ltb b 240
    then 3
    else if ltb b 245
    then 4
    else 0

unfoldable pub lead_bits : ℕ → ℕ
lead_bits b =
    if ltb b 128 then b else if ltb b 224 then b % 32 else if ltb b 240 then b % 16 else b % 8

unfoldable pub second_low : ℕ → ℕ
second_low b = if b == 224 then 160 else if b == 240 then 144 else 128

unfoldable pub second_high : ℕ → ℕ
second_high b = if b == 237 then 159 else if b == 244 then 143 else 191

unfoldable pub decode : List ℕ → Decoded
decode [] = incomplete
decode (b ∷ bs) =
    let n = rune_size b in
    let rest = continuation n (n - 1) (second_low b) (second_high b) (lead_bits b) bs in
    if n == 0 then invalid else rest
