-- ===== src/LineIndex/Positions.antt =====
-- document/coordinate/index.go: ByteToPosition, RuneToByte and PositionToByte at every rune boundary.
use docengine.Prelude.{
  Holds, Source, ℕ, ◌+◌, ◌≤◌, ◌≡◌, refl, sym, ap, ◌⊎◌, inl, inr, true, Bool-cases, ◌&&◌, ◌||◌, ◌==◌,
  ltb, leb, if◌then◌else◌, List, ok, err, ok-injective, subst, Bool, false, arith, ltb→lt, ltb→ge,
  pos, ==_self, ==→eq, Result,
}
use docengine.LineIndex.State.{
  Index, IndexError, Checkpoint, Position, start_checkpoint, source_inconsistent, invalid_position,
}
use docengine.LineIndex.Query.{
  at_byte, at_rune, at_position, is_past, byte_to_position, rune_to_byte, position_to_byte, byte_of,
}
use docengine.LineIndex.Runes.{Reaches, Before, Reaches-cases}
use docengine.LineIndex.Boundaries.{Reaches-linear, Reaches-in, Finds}
use docengine.LineIndex.Answers.{IsIndexOf, Asks, query_lem}

not_past : (c t : Checkpoint) → Before t c → is_past t.line t.column c ≡ true
not_past c t b = ground (arith, b.lines)

is_past-Before : (c t : Checkpoint) → Before c t → is_past t.line t.column c ≡ false
is_past-Before c t b = ground (arith, b.lines)

at_position-Before :
    (c t : Checkpoint) → Before c t → (c.line == t.line && c.column == t.column) ≡ false
at_position-Before c t b = ground (arith, b.lines)

guarded {ℓ} :
    {A : Type ℓ} (closed bad : Bool) (a b c : A)
    → closed ≡ false
    → bad ≡ false
    → (if closed then a else if bad then b else c) ≡ c
guarded closed bad a b c e f = rw (e, f)

byte_of_lem :
    (text : List ℕ) (z : Result IndexError Position × Index) (p : Checkpoint)
    → z.0 ≡ ok p
    → IsIndexOf text z.1
    → ((byte_of z).0 ≡ ok p.byte_offset) × IsIndexOf text (byte_of z).1
byte_of_lem text (ok q, i) p e v = (ap (λ (k : Checkpoint). ok k.byte_offset) (ok-injective e), v)
byte_of_lem text (err x, i) p e v = cc

module _ {text : List ℕ} where
  Reaches-order :
      {s c t : Checkpoint}
      → Reaches text s c
      → Reaches text s t
      → (c.byte_offset ≤ t.byte_offset) ⊎ Before t c
  Reaches-order {s} {c} {t} rc rt = elim (Bool-cases (ltb t.byte_offset c.byte_offset)) [
    | inr e ↦ inl (ltb→ge _ _ e)
    | inl e ↦
        let less = ltb→lt _ _ e in
        elim (Reaches-cases (Reaches-linear rt rc (omega (arith, less)))) [
          | inl z ↦ absurd (omega (arith, less, ap (λ (k : Checkpoint). k.byte_offset) z))
          | inr b ↦ inr b
        ]
  ]

  Reaches-runes : {s t : Checkpoint} → Reaches text s t → s.rune_offset ≤ t.rune_offset
  Reaches-runes {s} {t} r = elim (Reaches-cases r) [
    | inl e ↦ omega (arith, ap (λ (c : Checkpoint). c.rune_offset) e)
    | inr b ↦ omega (arith, b.runes)
  ]

  Reaches-lines : {s t : Checkpoint} → Reaches text s t → s.line ≤ t.line
  Reaches-lines {s} {t} r = elim (Reaches-cases r) [
    | inl e ↦ omega (arith, ap (λ (c : Checkpoint). c.line) e)
    | inr b ↦ ground (arith, b.lines)
  ]

  at_byte-Asks :
      (t : Checkpoint)
      → Asks text (λ c. ltb t.byte_offset c.byte_offset) (λ c. c.byte_offset == t.byte_offset) t
  at_byte-Asks t = record {
    start_before = ground arith;
    before = λ c r h. ltb→ge _ _ h;
    behind = λ c r h. omega (arith, ltb→lt _ _ h);
    exact = λ c r h. omega (arith, ==→eq _ _ h);
  }

  at_byte-Finds :
      (t : Checkpoint)
      → Finds text (at_byte t.byte_offset) (λ s n. ltb t.byte_offset (s.byte_offset + n)) t
  at_byte-Finds t = record {
    stops = rw (==_self t.byte_offset) refl;
    goes_on = λ u r b. ground (arith, b.bytes);
    fits = λ u n h. ground (arith, h);
  }

  at_rune-Asks :
      (t : Checkpoint)
      → Reaches text start_checkpoint t
      → Asks text (λ c. ltb t.rune_offset c.rune_offset) (λ c. c.rune_offset == t.rune_offset) t
  at_rune-Asks t rt = record {
    start_before = ground arith;
    before = λ c r h. elim (Reaches-order r rt) [
      | inl e ↦ e
      | inr b ↦ absurd (omega (arith, b.runes, ltb→ge _ _ h))
    ];
    behind = λ c r h. elim (Reaches-order rt r) [
      | inl e ↦ e
      | inr b ↦ absurd (omega (arith, b.runes, ltb→lt _ _ h))
    ];
    exact = λ c r h. elim (Reaches-order rt r) [
      | inl e ↦ e
      | inr b ↦ absurd (omega (arith, b.runes, ==→eq _ _ h))
    ];
  }

  at_rune-Finds : (t : Checkpoint) → Finds text (at_rune t.rune_offset) (λ s n. false) t
  at_rune-Finds t = record {
    stops = rw (==_self t.rune_offset) refl;
    goes_on = λ u r b. ground (arith, b.runes);
    fits = λ u n h. refl;
  }

  at_position-Asks :
      (t : Checkpoint)
      → Reaches text start_checkpoint t
      → Asks text (is_past t.line t.column) (λ c. c.line == t.line && c.column == t.column) t
  at_position-Asks t rt = record {
    start_before = ground arith;
    before =
        λ c r h. elim (Reaches-order r rt) [ inl e ↦ e | inr b ↦ let z = not_past c t b in cc ];
    behind = λ c r h. elim (Reaches-order rt r) [
      | inl e ↦ e
      | inr b ↦ let z = is_past-Before c t b in cc
    ];
    exact = λ c r h. elim (Reaches-order rt r) [
      | inl e ↦ e
      | inr b ↦ let z = at_position-Before c t b in cc
    ];
  }

  at_position-Finds : (t : Checkpoint) → Finds text (at_position t.line t.column) (λ s n. false) t
  at_position-Finds t = record {
    stops = rw (==_self t.line, ==_self t.column) refl;
    goes_on = λ u r b. rw (at_position-Before u t b, is_past-Before u t b) refl;
    fits = λ u n h. refl;
  }

module _ (read_at : Source) (text : List ℕ) (i : Index) (p : Checkpoint) where
  -- On an index of a text, with a source that holds it, ByteToPosition of the byte offset of a rune
  -- boundary returns that boundary, its rune offset, line and column included, and leaves an index
  -- of the same text, whatever its cache held.
  pub byte_to_position_lem :
      Holds read_at text
      → IsIndexOf text i
      → Reaches text start_checkpoint p
      → ((byte_to_position read_at i (pos p.byte_offset)).0 ≡ ok p)
        × IsIndexOf text (byte_to_position read_at i (pos p.byte_offset)).1
  unfolding byte_to_position
  byte_to_position_lem holds v r =
      let inside : ltb i.byte_length p.byte_offset ≡ false =
        ground (arith, v.whole, Reaches-in r (omega arith)) in
      let q =
        query_lem read_at text i _ _ _ _ source_inconsistent p holds v r (at_byte-Asks p)
          (at_byte-Finds p) in
      subst (λ (z : Result IndexError Position × Index). (z.0 ≡ ok p) × IsIndexOf text z.1)
        (sym (guarded i.closed _ _ _ _ v.opened inside)) q

  -- On an index of a text, with a source that holds it, RuneToByte of the rune offset of a rune
  -- boundary returns the byte offset of that boundary, and leaves an index of the same text.
  pub rune_to_byte_lem :
      Holds read_at text
      → IsIndexOf text i
      → Reaches text start_checkpoint p
      → ((rune_to_byte read_at i (pos p.rune_offset)).0 ≡ ok p.byte_offset)
        × IsIndexOf text (rune_to_byte read_at i (pos p.rune_offset)).1
  unfolding rune_to_byte
  rune_to_byte_lem holds v r =
      let last = Reaches-linear r v.reached (omega (arith, v.at_end, Reaches-in r (omega arith))) in
      let inside : ltb i.rune_count p.rune_offset ≡ false =
        ground (arith, v.runes, Reaches-runes last) in
      let q =
        query_lem read_at text i _ _ _ _ source_inconsistent p holds v r (at_rune-Asks p r)
          (at_rune-Finds p) in
      subst (λ (z : Result IndexError ℕ × Index). (z.0 ≡ ok p.byte_offset) × IsIndexOf text z.1)
        (sym (guarded i.closed _ _ _ _ v.opened inside)) (byte_of_lem text _ p q.0 q.1)

  -- On an index of a text, with a source that holds it, PositionToByte of the line and column of a
  -- rune boundary returns the byte offset of that boundary, and leaves an index of the same text.
  pub position_to_byte_lem :
      Holds read_at text
      → IsIndexOf text i
      → Reaches text start_checkpoint p
      → ((position_to_byte read_at i (pos p.line) (pos p.column)).0 ≡ ok p.byte_offset)
        × IsIndexOf text (position_to_byte read_at i (pos p.line) (pos p.column)).1
  unfolding position_to_byte
  position_to_byte_lem holds v r =
      let last = Reaches-linear r v.reached (omega (arith, v.at_end, Reaches-in r (omega arith))) in
      let inside : (leb i.line_count p.line || false) ≡ false =
        ground (arith, v.lines, Reaches-lines last) in
      let q =
        query_lem read_at text i _ _ _ _ invalid_position p holds v r (at_position-Asks p r)
          (at_position-Finds p) in
      subst (λ (z : Result IndexError ℕ × Index). (z.0 ≡ ok p.byte_offset) × IsIndexOf text z.1)
        (sym (guarded i.closed _ _ _ _ v.opened inside)) (byte_of_lem text _ p q.0 q.1)
