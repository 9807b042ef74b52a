-- ===== src/LineIndex/Boundaries.antt =====
-- document/coordinate/index.go: the rune boundaries of a text lie on one line, and the decoding loop
-- finds the one that it is sent for.
use docengine.Prelude.{
  ℕ, zero, suc, ◌+◌, ◌-◌, ◌≤◌, ◌≡◌, refl, sym, ap, ◌∙◌, subst, inl, inr, false, Bool, List, [], ◌∷◌,
  ◌++◌, Option, none, some, Result, ok, arith, length, drop, drop-drop, length-drop, drop-append_le,
}
use docengine.LineIndex.Utf8.{Decoded, decode, rune}
use docengine.LineIndex.State.{Checkpoint, Position, IndexError, advance}
use docengine.LineIndex.Query.{seek}
use docengine.LineIndex.Runes.{
  Reaches, here, next, Before, Reaches-cases, decode_lem, decode-append,
}

rune_size_of : Decoded → ℕ × ℕ
rune_size_of (rune r n) = (r, n)
rune_size_of _ = (0, 0)

pub rune-injective : {r n q m : ℕ} → rune r n ≡ rune q m → (r ≡ q) × (n ≡ m)
unfolding rune_size_of
rune-injective h = (ap (λ d. (rune_size_of d).0) h, ap (λ d. (rune_size_of d).1) h)

module _ {text : List ℕ} where
  pub Reaches-le : {s t : Checkpoint} → Reaches text s t → s.byte_offset ≤ t.byte_offset
  Reaches-le {s} {t} r = elim (Reaches-cases r) [
    | inl e ↦ omega (arith, ap (λ (c : Checkpoint). c.byte_offset) e)
    | inr b ↦ omega (arith, b.bytes)
  ]

  -- Of two boundaries the one that is not behind reaches the other.
  pub Reaches-linear :
      {s a b : Checkpoint}
      → Reaches text s a
      → Reaches text s b
      → a.byte_offset ≤ b.byte_offset
      → Reaches text a b
  unfolding advance
  Reaches-linear here rb h = rb
  Reaches-linear {s} {a} {b} (next r n e ra) here h =
      absurd (omega (arith, Reaches-le ra, (decode_lem _ r n e).0))
  Reaches-linear {s} {a} {b} (next r n e ra) (next q m f rb) h =
      let same = rune-injective (sym f ∙ e) in
      Reaches-linear ra
        (subst (λ k. Reaches text (advance s k n) b) same.0
          (subst (λ k. Reaches text (advance s q k) b) same.1 rb))
        h

  pub Reaches-same : {s t : Checkpoint} → Reaches text s t → t.byte_offset ≤ s.byte_offset → s ≡ t
  Reaches-same {s} {t} r h = elim (Reaches-cases r) [
    | inl e ↦ e
    | inr b ↦ absurd (omega (arith, b.bytes))
  ]

  pub Reaches-trans : {s t u : Checkpoint} → Reaches text s t → Reaches text t u → Reaches text s u
  Reaches-trans here r = r
  Reaches-trans (next r n e rest) q = next r n e (Reaches-trans rest q)

  pub Reaches-in :
      {s t : Checkpoint}
      → Reaches text s t
      → s.byte_offset ≤ length text
      → t.byte_offset ≤ length text
  unfolding advance
  Reaches-in here h = h
  Reaches-in {s} {t} (next r n e rest) h =
      let d = decode_lem _ r n e in
      let k = length-drop s.byte_offset text in Reaches-in rest (omega (arith, d.1, k))

-- What the loop is sent for: it goes on at the boundaries before `t`, and stops at `t`.
pub record Finds (text : List ℕ) (done : Checkpoint → Option (Result IndexError Position))
    (overruns : Checkpoint → ℕ → Bool) (t : Checkpoint) : Type 0 where
  pub stops : done t ≡ some (ok t)
  pub goes_on : (u : Checkpoint) → Reaches text u t → Before u t → done u ≡ none
  pub fits : (u : Checkpoint) (n : ℕ) → u.byte_offset + n ≤ t.byte_offset → overruns u n ≡ false

module _ (done : Checkpoint → Option (Result IndexError Position))
    (overruns : Checkpoint → ℕ → Bool) (at_end : IndexError) where
  seek_stop :
      (s : Checkpoint) (bs : List ℕ) (r : Result IndexError Position)
      → done s ≡ some r
      → seek done overruns at_end s 0 bs ≡ r
  unfolding seek
  seek_stop s [] r h = rw (h, seek)
  seek_stop s (b ∷ bs) r h = rw (h, seek)

  seek_skip :
      (s : Checkpoint) (k : ℕ) (bs : List ℕ)
      → k ≤ length bs
      → seek done overruns at_end s k bs ≡ seek done overruns at_end s 0 (drop k bs)
  unfolding seek
  seek_skip s zero bs h = refl
  seek_skip s (suc k) [] h = absurd (omega arith)
  seek_skip s (suc k) (b ∷ bs) h = seek_skip s k bs (omega arith)

  seek_step :
      (s : Checkpoint) (bs : List ℕ) (r n : ℕ)
      → done s ≡ none
      → decode bs ≡ rune r n
      → overruns s n ≡ false
      → seek done overruns at_end s 0 bs ≡ seek done overruns at_end (advance s r n) 0 (drop n bs)
  unfolding seek
  seek_step s [] r n h e f = absurd (omega (arith, decode_lem [] r n e))
  seek_step s (b ∷ bs) r n h e f =
      let d = decode_lem (b ∷ bs) r n e in
      let k : suc (n - 1) ≡ n = omega (arith, d.0) in
      rw (h, seek, e, f)
        (seek_skip (advance s r n) (n - 1) bs (omega (arith, d.1))
          ∙ ap (λ j. seek done overruns at_end (advance s r n) 0 (drop j (b ∷ bs))) k)

  -- The loop finds it in any window of the text that reaches so far.
  pub seek_lem :
      {text : List ℕ} {s t : Checkpoint} (window more : List ℕ)
      → Reaches text s t
      → Finds text done overruns t
      → drop s.byte_offset text ≡ window ++ more
      → t.byte_offset ≤ s.byte_offset + length window
      → seek done overruns at_end s 0 window ≡ ok t
  unfolding advance
  seek_lem {text} {s} window more here f w h = seek_stop s window _ f.stops
  seek_lem {text} {s} {t} window more (next r n e rest) f w h =
      let d = decode_lem _ r n e in
      let le = Reaches-le rest in
      let small : n ≤ length window = omega (arith, h, le) in
      let first = decode-append window more r n (subst (λ k. decode k ≡ rune r n) w e) small in
      let before : Before s t = elim (Reaches-cases (next r n e rest)) [
        | inl z ↦ absurd (omega (arith, ap (λ (c : Checkpoint). c.byte_offset) z, le, d.0))
        | inr b ↦ b
      ] in
      let moved : drop (s.byte_offset + n) text ≡ drop n window ++ more =
        sym (drop-drop n s.byte_offset text) ∙ ap (drop n) w ∙ drop-append_le n window more small in
      seek_step s window r n (f.goes_on s (next r n e rest) before) first (f.fits s n le)
      ∙ seek_lem (drop n window) more rest f moved (omega (arith, length-drop n window, small, h))
