-- ===== src/LineIndex/Chunks.antt =====
-- document/coordinate/index.go: the inner loop of scanSegment walks from rune boundary to rune boundary.
use docengine.Prelude.{
  ℕ, zero, suc, ◌+◌, ◌-◌, ◌*◌, ◌/◌, ◌≤◌, ◌<◌, ◌≡◌, refl, sym, ap, ◌∙◌, subst, ◌⊎◌, inl, inr, ltb,
  leb, leb→gt, Bool-cases, List, [], ◌∷◌, ◌++◌, arith, length, drop, drop-drop, max_int64, ltb→lt,
  ltb→ge, Result, ok,
}
use native.Mathlib.Nat.{mod-lt, mod-add-div', div-mul-le_self}
use docengine.LineIndex.Utf8.{decode, incomplete, rune}
use docengine.LineIndex.State.{
  Checkpoint, IndexError, start_checkpoint, advance, next_checkpoint_after,
}
use docengine.LineIndex.Scan.{ScanState, scan_rune, scan_data}
use docengine.LineIndex.Runes.{
  Reaches, here, next, decode_lem, decode-append, decode_short, decode-le, first_rune,
}
use docengine.LineIndex.Boundaries.{Reaches-linear, Reaches-trans}

-- The checkpoints so far, up to the last of them.
abbrev pub SpacedTo : List ℕ → ℕ → Checkpoint → List Checkpoint → Checkpoint → Type 0
SpacedTo text block c [] e = c ≡ e
SpacedTo text block c (d ∷ ds) e =
    Reaches text c d × (d.byte_offset ≤ c.byte_offset + (block + 4)) × SpacedTo text block d ds e

SpacedTo-snoc :
    (text : List ℕ) (block : ℕ) (c : Checkpoint) (ds : List Checkpoint) (e f : Checkpoint)
    → SpacedTo text block c ds e
    → Reaches text e f
    → f.byte_offset ≤ e.byte_offset + (block + 4)
    → SpacedTo text block c (ds ++ f ∷ []) f
SpacedTo-snoc text block c [] e f s r h =
    subst (λ k. Reaches text k f × (f.byte_offset ≤ k.byte_offset + (block + 4)) × (f ≡ f)) (sym s)
      (r, h, refl)
SpacedTo-snoc text block c (d ∷ ds) e f s r h =
    (s.0, s.1, SpacedTo-snoc text block d ds e f s.2 r h)

abbrev pub at_offset : ℕ → ScanState → Checkpoint
at_offset absolute s = record s.state { byte_offset = absolute }

-- The scan stands at a rune boundary of the text.
pub record IsAt (text : List ℕ) (block absolute : ℕ) (s : ScanState) : Type 0 where
  pub rest : List Checkpoint
  pub last : Checkpoint
  pub starts : s.checkpoints ≡ start_checkpoint ∷ rest
  pub spaced : SpacedTo text block start_checkpoint rest last
  pub from_last : Reaches text last (at_offset absolute s)
  pub next_near : s.next_checkpoint ≤ last.byte_offset + block
  pub near_next : absolute ≤ s.next_checkpoint + 3

next_multiple :
    (offset block : ℕ)
    → 0 < block
    → (offset < (offset / block + 1) * block) × ((offset / block + 1) * block ≤ offset + block)
next_multiple offset block h =
    let e : (offset / block + 1) * block ≡ offset / block * block + block = grind arith in
    (
      omega (arith, e, mod-lt offset h, mod-add-div' offset block),
      omega (arith, e, div-mul-le_self offset block),
    )

pub next_checkpoint_after_lem :
    (offset block : ℕ)
    → 0 < block
    → offset < max_int64
    → (offset < next_checkpoint_after offset block)
      × (next_checkpoint_after offset block ≤ offset + block)
unfolding next_checkpoint_after
next_checkpoint_after_lem offset block h k =
    let m = next_multiple offset block h in
    elim (Bool-cases (ltb (max_int64 - block) offset)) [
      | inl e ↦ let l = ltb→lt _ _ e in rw e (k, omega (arith, l))
      | inr e ↦ rw e m
    ]

-- The same at the greatest offset too.
pub next_checkpoint_near :
    (offset block : ℕ)
    → 0 < block
    → offset ≤ max_int64
    → (offset ≤ next_checkpoint_after offset block)
      × (next_checkpoint_after offset block ≤ offset + block)
unfolding next_checkpoint_after
next_checkpoint_near offset block h k =
    let m = next_multiple offset block h in
    elim (Bool-cases (ltb (max_int64 - block) offset)) [
      | inl e ↦ let l = ltb→lt _ _ e in rw e (k, omega (arith, l))
      | inr e ↦ rw e (omega (arith, m.0), m.1)
    ]

scan_rune-IsAt :
    (text : List ℕ) (block absolute r n : ℕ) (s : ScanState)
    → 0 < block
    → absolute < max_int64
    → IsAt text block absolute s
    → decode (drop absolute text) ≡ rune r n
    → n ≤ 4
    → IsAt text block (absolute + n) (scan_rune block absolute r s)
unfolding scan_rune advance
scan_rune-IsAt text block absolute r n s some_block fits v e small =
    elim (Bool-cases (leb s.next_checkpoint absolute)) [
      | inr f ↦ rw f (record {
        rest = v.rest;
        last = v.last;
        starts = v.starts;
        spaced = v.spaced;
        from_last = Reaches-trans v.from_last (next r n e here);
        next_near = v.next_near;
        near_next = omega (arith, leb→gt _ _ f, small);
      })
      | inl f ↦
          let c = at_offset absolute s in
          let near = next_checkpoint_after_lem absolute block some_block fits in
          rw f (record {
            rest = v.rest ++ c ∷ [];
            last = c;
            starts = ap (◌++ (c ∷ [])) v.starts;
            spaced =
                SpacedTo-snoc text block start_checkpoint v.rest v.last c v.spaced v.from_last
                  (omega (arith, v.near_next, v.next_near));
            from_last = next r n e here;
            next_near = near.1;
            near_next = omega (arith, near.0, small);
          })
    ]

pub SpacedTo-Reaches :
    (text : List ℕ) (block : ℕ) (c : Checkpoint) (ds : List Checkpoint) (e : Checkpoint)
    → SpacedTo text block c ds e
    → Reaches text c e
SpacedTo-Reaches text block c [] e s = subst (Reaches text c) s here
SpacedTo-Reaches text block c (d ∷ ds) e s =
    Reaches-trans s.0 (SpacedTo-Reaches text block d ds e s.2)

pub IsAt-Reaches :
    (text : List ℕ) (block absolute : ℕ) (s : ScanState)
    → IsAt text block absolute s
    → Reaches text start_checkpoint (at_offset absolute s)
IsAt-Reaches text block absolute s v =
    Reaches-trans (SpacedTo-Reaches text block start_checkpoint v.rest v.last v.spaced) v.from_last

-- What the inner loop leaves of a chunk: a boundary, and the part of a rune behind it.
abbrev pub Scanned : List ℕ → ℕ → ℕ → List ℕ → Result IndexError (ScanState × List ℕ) → Type 0
Scanned text block chunk_end more result =
    (s : ScanState) × (pending : List ℕ) × (absolute : ℕ) × (result ≡ ok (s, pending))
    × IsAt text block absolute s
    × (absolute + length pending ≡ chunk_end)
    × (drop absolute text ≡ pending ++ more)
    × ((pending ≡ []) ⊎ (decode pending ≡ incomplete))

module _ (text : List ℕ) (block : ℕ) (e : Checkpoint) (more : List ℕ) (some_block : 0 < block)
    (fits : e.byte_offset ≤ max_int64) (valid : Reaches text start_checkpoint e) where
  pub scan_data_lem :
      (bytes : List ℕ) (absolute skip : ℕ) (s : ScanState)
      → IsAt text block (absolute + skip) s
      → skip ≤ length bytes
      → drop absolute text ≡ bytes ++ more
      → absolute + length bytes ≤ e.byte_offset
      → Scanned text block (absolute + length bytes) more (scan_data block absolute skip s bytes)
  unfolding scan_data
  scan_data_lem [] absolute skip s v h w k =
      let z : absolute + skip ≡ absolute = omega (arith, h) in
      (s, [], absolute, refl, subst (λ a. IsAt text block a s) z v, refl, w, inl refl)
  scan_data_lem (b ∷ bs) absolute (suc skip) s v h w k =
      let a : absolute + suc skip ≡ absolute + 1 + skip = omega arith in
      let l : absolute + 1 + length bs ≡ absolute + suc (length bs) = omega arith in
      let moved : drop (absolute + 1) text ≡ bs ++ more =
        sym (drop-drop 1 absolute text) ∙ ap (drop 1) w in
      subst (λ m. Scanned text block m more (scan_data block (absolute + 1) skip s bs)) l
        (scan_data_lem bs (absolute + 1) skip s (subst (λ m. IsAt text block m s) a v) (omega arith)
          moved (omega arith))
  scan_data_lem (b ∷ bs) absolute zero s v h w k =
      let z : absolute + 0 ≡ absolute = omega arith in
      let v' = subst (λ m. IsAt text block m s) z v in
      let inside : absolute < e.byte_offset = omega (arith, k) in
      let (r, n, f, after) =
        first_rune
          (Reaches-linear (IsAt-Reaches text block absolute s v') valid (omega (arith, inside)))
          inside in
      let f' : decode ((b ∷ bs) ++ more) ≡ rune r n = subst (λ t. decode t ≡ rune r n) w f in
      elim (Bool-cases (ltb (length (b ∷ bs)) n)) [
        | inl cut ↦
            let short = decode_short (b ∷ bs) more r n f' (ltb→lt _ _ cut) in
            (s, b ∷ bs, absolute, rw (short, scan_data) refl, v', refl, w, inr short)
        | inr whole ↦
            let small : n ≤ length (b ∷ bs) = ltb→ge _ _ whole in
            let f'' = decode-append (b ∷ bs) more r n f' small in
            let d = decode_lem (b ∷ bs) r n f'' in
            let a : absolute + n ≡ absolute + 1 + (n - 1) = omega (arith, d.0) in
            let l : absolute + 1 + length bs ≡ absolute + length (b ∷ bs) = omega arith in
            let t = scan_rune block absolute r s in
            let at =
              subst (λ m. IsAt text block m t) a
                (scan_rune-IsAt text block absolute r n s some_block (omega (arith, inside, fits))
                  v' f (decode-le _ r n f)) in
            let moved : drop (absolute + 1) text ≡ bs ++ more =
              sym (drop-drop 1 absolute text) ∙ ap (drop 1) w in
            let rest =
              scan_data_lem bs (absolute + 1) (n - 1) t at (omega (arith, small, d.0)) moved
                (omega (arith, k)) in
            rw (f'', scan_data)
              (subst (λ m. Scanned text block m more (scan_data block (absolute + 1) (n - 1) t bs))
                l rest)
      ]
