-- ===== src/LineIndex/Reads.antt =====
-- document/coordinate/index.go: scanSegment reads a valid text to its end, with as many rounds as bytes.
use docengine.Prelude.{
  read_stops_lem, Holds, Source, read_stops, ℕ, zero, suc, ◌+◌, ◌-◌, ◌≤◌, ◌<◌, min, ◌≡◌, refl, sym,
  ap, ap₂, ◌∙◌, subst, ◌⊎◌, inl, inr, true, false, ◌&&◌, ◌==◌, ltb, ltb→lt, ltb→ge, lt→ltb, ge→ltb,
  Bool-cases, List, [], ◌∷◌, ◌++◌, append_assoc, Result, ok, arith, length, drop, drop-drop, slice,
  length-slice, length-append, take-append-drop, max_int64,
}
use docengine.LineIndex.Utf8.{Decoded, decode, incomplete, rune}
use docengine.LineIndex.State.{Checkpoint, IndexError, start_checkpoint, advance}
use docengine.LineIndex.Scan.{
  ScanState, scan_data, scan_end_check, scan_reads, build_read_buffer_size,
}
use docengine.LineIndex.Runes.{Reaches, decode-append, first_rune}
use docengine.LineIndex.Boundaries.{Reaches-le, Reaches-linear}
use docengine.LineIndex.Chunks.{IsAt, IsAt-Reaches, scan_data_lem}

abbrev IsCut : Decoded → Type 0
IsCut incomplete = Unit {0}
IsCut _ = ⊥

empty_list : (bs : List ℕ) → length bs ≡ 0 → bs ≡ []
empty_list [] h = refl
empty_list (b ∷ bs) h = absurd (omega (arith, h))

module _ (read_at : Source) (text : List ℕ) (block : ℕ) (e : Checkpoint) (some_block : 0 < block)
    (fits : e.byte_offset ≤ max_int64) (valid : Reaches text start_checkpoint e)
    (inside : e.byte_offset ≤ length text) (holds : Holds read_at text) where
  -- Between two reads: the scan stands at a boundary, and keeps the bytes behind it.
  pub record Between (absolute read_offset : ℕ) (pending : List ℕ) (s : ScanState) : Type 0 where
    pub at : IsAt text block absolute s
    pub kept : absolute + length pending ≡ read_offset
    pub holds_kept : drop absolute text ≡ pending ++ drop read_offset text
    pub cut : (pending ≡ []) ⊎ (decode pending ≡ incomplete)

  -- Nothing is kept at a boundary.
  nothing_pending :
      (absolute : ℕ) (pending : List ℕ) (s : ScanState)
      → Between absolute e.byte_offset pending s
      → (pending ≡ []) × (absolute ≡ e.byte_offset)
  unfolding advance
  nothing_pending absolute pending s v =
      let le : absolute ≤ e.byte_offset = omega (arith, v.kept) in
      elim (Bool-cases (ltb absolute e.byte_offset)) [
        | inr f ↦ (
          empty_list pending (omega (arith, v.kept, ltb→ge _ _ f)),
          omega (arith, le, ltb→ge _ _ f),
        )
        | inl f ↦
            let less = ltb→lt _ _ f in
            let (r, n, g, after) =
              first_rune (Reaches-linear (IsAt-Reaches text block absolute s v.at) valid le) less in
            let small : n ≤ length pending = omega (arith, Reaches-le after, v.kept) in
            let whole =
              decode-append pending _ r n (subst (λ t. decode t ≡ rune r n) v.holds_kept g) small in
            elim v.cut [
              | inl z ↦ absurd (omega (arith, ap length z, v.kept, less))
              | inr z ↦ absurd (subst IsCut (sym z ∙ whole) tt)
            ]
      ]

  -- Where the scan of the whole ends.
  abbrev pub Complete : Result IndexError ScanState → Type 0
  Complete result =
      (s : ScanState) × (result ≡ ok s)
      × IsAt text block e.byte_offset s
      × (s.state.byte_offset ≡ e.byte_offset)

  scan_end_check_lem :
      (len absolute : ℕ) (pending : List ℕ) (s : ScanState)
      → Between absolute e.byte_offset pending s
      → Complete (scan_end_check len e.byte_offset pending s)
  unfolding scan_end_check
  scan_end_check_lem len absolute pending s v =
      let none_left = nothing_pending absolute pending s v in
      let t = record s { state = record s.state { byte_offset = e.byte_offset } } in
      let at = subst (λ m. IsAt text block m s) none_left.1 v.at in
      rw none_left.0 (
        t,
        refl,
        record {
          rest = at.rest;
          last = at.last;
          starts = at.starts;
          spaced = at.spaced;
          from_last = at.from_last;
          next_near = at.next_near;
          near_next = at.near_next;
        },
        refl,
      )

  abbrev want_at : ℕ → ℕ
  want_at read_offset = min build_read_buffer_size (e.byte_offset - read_offset)

  scan_reads_step :
      (fuel read_offset : ℕ) (pending pending' : List ℕ) (s s' : ScanState)
      → read_offset < e.byte_offset
      → 0 < want_at read_offset
      → length (read_at read_offset (want_at read_offset)).0 ≡ want_at read_offset
      → read_stops
          (read_at read_offset (want_at read_offset)).1
          (read_offset + want_at read_offset == e.byte_offset && e.byte_offset == length text)
        ≡ false
      → scan_data block
          (read_offset - length pending)
          0
          s
          (pending ++ (read_at read_offset (want_at read_offset)).0)
        ≡ ok (s', pending')
      → scan_reads read_at block (length text) (suc fuel) read_offset e.byte_offset pending s
        ≡ scan_reads read_at block
            (length text)
            fuel
            (read_offset + want_at read_offset)
            e.byte_offset
            pending'
            s'
  unfolding scan_reads
  scan_reads_step fuel read_offset pending pending' s s' less some_want n stops scanned =
      let z : (want_at read_offset == 0) ≡ false = ground arith in
      rw
        (
          n,
          lt→ltb _ _ less,
          ge→ltb (want_at read_offset) (want_at read_offset) (omega arith),
          scanned,
          n,
          stops,
          z,
        )
        refl

  at_end_of_text :
      {A B : Type 0} (read_offset want : ℕ)
      → read_offset + want ≤ e.byte_offset
      → A ⊎ (B × (read_offset + want ≡ length text))
      → A ⊎ (B × ((read_offset + want == e.byte_offset && e.byte_offset == length text) ≡ true))
  at_end_of_text read_offset want le (inl h) = inl h
  at_end_of_text read_offset want le (inr h) = inr (h.0, ground (arith, inside, h.1))

  split_at :
      (read_offset want : ℕ) (got : List ℕ)
      → got ≡ slice want read_offset text
      → drop read_offset text ≡ got ++ drop (read_offset + want) text
  split_at read_offset want got bytes =
      sym (take-append-drop want (drop read_offset text))
      ∙ ap₂ (λ xs ys. xs ++ ys) (sym bytes) (drop-drop want read_offset text)

  pub scan_reads_lem :
      (fuel read_offset absolute : ℕ) (pending : List ℕ) (s : ScanState)
      → Between absolute read_offset pending s
      → read_offset ≤ e.byte_offset
      → e.byte_offset - read_offset ≤ fuel
      → Complete (scan_reads read_at block (length text) fuel read_offset e.byte_offset pending s)
  unfolding scan_reads
  scan_reads_lem zero read_offset absolute pending s v le enough =
      let z : read_offset ≡ e.byte_offset = omega (arith, le, enough) in
      rw (ge→ltb read_offset e.byte_offset (omega (arith, z))) (
        scan_end_check_lem (length text) absolute pending s
          (subst (λ m. Between absolute m pending s) z v))
  scan_reads_lem (suc fuel) read_offset absolute pending s v le enough =
      elim (Bool-cases (ltb read_offset e.byte_offset)) [
        | inr f ↦
            let z : read_offset ≡ e.byte_offset = omega (arith, le, ltb→ge _ _ f) in
            rw f (
              scan_end_check_lem (length text) absolute pending s
                (subst (λ m. Between absolute m pending s) z v))
        | inl f ↦
            let less = ltb→lt _ _ f in
            let want = want_at read_offset in
            let some_want : 0 < want = omega (arith, less) in
            let want_le : read_offset + want ≤ e.byte_offset = omega (arith, less) in
            let (bytes, stop) = holds read_offset want (omega (arith, want_le, inside)) in
            let got = (read_at read_offset want).0 in
            let n : length got ≡ want =
              ap length bytes
              ∙ length-slice want read_offset text
              ∙ omega (arith, want_le, inside) in
            let stops =
              read_stops_lem (read_at read_offset want).1
                (read_offset + want == e.byte_offset && e.byte_offset == length text)
                (at_end_of_text read_offset want want_le stop) in
            let a : read_offset - length pending ≡ absolute = omega (arith, v.kept) in
            let more = drop (read_offset + want) text in
            let w : drop absolute text ≡ (pending ++ got) ++ more =
              v.holds_kept
              ∙ ap (pending ++◌) (split_at read_offset want got bytes)
              ∙ sym (append_assoc pending got more) in
            let l : absolute + length (pending ++ got) ≡ read_offset + want =
              omega (arith, length-append pending got, n, v.kept) in
            let z : absolute ≡ absolute + 0 = omega arith in
            let (s', pending', absolute', scanned, at, kept, holds_kept, cut) =
              scan_data_lem text block e more some_block fits valid (pending ++ got) absolute 0 s
                (subst (λ m. IsAt text block m s) z v.at) (omega arith) w
                (omega (arith, l, want_le)) in
            let scanned' : scan_data block (read_offset - length pending) 0 s (pending ++ got)
                ≡ ok (s', pending') =
              ap (λ m. scan_data block m 0 s (pending ++ got)) a ∙ scanned in
            subst Complete
              (sym (
                scan_reads_step fuel read_offset pending pending' s s' less some_want n stops
                  scanned'))
              (scan_reads_lem fuel (read_offset + want) absolute' pending' s'
                (record { at = at; kept = kept ∙ l; holds_kept = holds_kept; cut = cut }) want_le
                (omega (arith, some_want, enough)))
      ]
