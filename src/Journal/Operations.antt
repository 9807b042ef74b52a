-- ===== src/Journal/Operations.antt =====
-- recovery/journal.go: the operations of a batch are read back as they were encoded.
use docengine.Prelude.{
  ℕ, ◌+◌, ◌-◌, ◌*◌, ◌≤◌, ◌≡◌, refl, sym, ap, ◌∙◌, false, ◌||◌, ltb, ==_self, List, [], ◌∷◌, ◌++◌,
  arith, length, map, take, drop, Option, some, to_ℕ, length-append, max_int64, All, ok,
  take-append_le, take-all, >>=-eq-ok, ok-injective,
}
use docengine.Journal.Bytes.{put_le, get_le, le_limit, get_le-put_le}
use docengine.Journal.Payload.{
  ReplaceOperation, Operation, decoded, batch_record_size, batch_payload_size, encode_batch_payload,
  encode_record, encode_records, inserted_bytes, relative_offsets, decode_records,
  decode_batch_operations,
}

-- An operation as Go holds it: int64 fields, and a slice, whose length is one.
abbrev pub Fits : ReplaceOperation → Type 0
Fits o =
    (to_ℕ o.start ≤ max_int64)
    × (to_ℕ o.delete_length ≤ max_int64)
    × (length o.inserted ≤ max_int64)

-- The operations with their inserted bytes laid out from `cursor` on.
abbrev pub placed : ℕ → List ReplaceOperation → List Operation
placed cursor [] = []
placed cursor (o ∷ os) =
    record {
      start = to_ℕ o.start;
      delete_length = to_ℕ o.delete_length;
      insert_length = length o.inserted;
      payload_offset = cursor;
    }
    ∷ placed (cursor + length o.inserted) os

number_guard :
    (a b c : ℕ)
    → a ≤ max_int64
    → b ≤ max_int64
    → c ≤ max_int64
    → (ltb max_int64 a || (ltb max_int64 b || ltb max_int64 c)) ≡ false
number_guard a b c h k l = ground arith

room_guard : (cursor n rest : ℕ) → ltb (cursor + (n + rest) - cursor) n ≡ false
room_guard cursor n rest = ground arith

-- The numbers of a record.
record_numbers :
    (o : ReplaceOperation) (more : List ℕ)
    → Fits o
    → (get_le (take 8 (encode_record o ++ more)) ≡ to_ℕ o.start)
      × (get_le (take 8 (drop 8 (encode_record o ++ more))) ≡ to_ℕ o.delete_length)
      × (get_le (take 8 (drop 16 (encode_record o ++ more))) ≡ length o.inserted)
      × (drop 24 (encode_record o ++ more) ≡ more)
unfolding encode_record put_le le_limit
record_numbers o more f = (
  get_le-put_le 8 (to_ℕ o.start) (omega (arith, f.0)),
  get_le-put_le 8 (to_ℕ o.delete_length) (omega (arith, f.1)),
  get_le-put_le 8 (length o.inserted) (omega (arith, f.2)),
  refl,
)

same_operation :
    {a a' b b' c c' cursor : ℕ} (os : List Operation)
    → a ≡ a'
    → b ≡ b'
    → c ≡ c'
    → ◌≡◌ {A = Option (List Operation)}
        (some (
          record { start = a; delete_length = b; insert_length = c; payload_offset = cursor } ∷ os))
        (some (
          record { start = a'; delete_length = b'; insert_length = c'; payload_offset = cursor }
          ∷ os))
same_operation os e f g = rw (e, f, g)

pub decode_records-encode_records :
    (os : List ReplaceOperation) (cursor : ℕ)
    → All Fits os
    → decode_records (encode_records os) (length os) cursor (cursor + length (inserted_bytes os))
      ≡ some (placed cursor os)
unfolding decode_records encode_records inserted_bytes
decode_records-encode_records [] cursor f =
    let e : cursor + 0 ≡ cursor = omega arith in rw (e, ==_self cursor)
decode_records-encode_records (o ∷ os) cursor f =
    let r = record_numbers o (encode_records os) f.0 in
    let n = length-append o.inserted (inserted_bytes os) in
    let g =
      number_guard (to_ℕ o.start) (to_ℕ o.delete_length) (length o.inserted) f.0.0 f.0.1 f.0.2 in
    let room = room_guard cursor (length o.inserted) (length (inserted_bytes os)) in
    let ends : cursor + (length o.inserted + length (inserted_bytes os))
        ≡ cursor + length o.inserted + length (inserted_bytes os) =
      omega arith in
    let ih = decode_records-encode_records os (cursor + length o.inserted) f.1 in
    rw (r.0, r.1, r.2, r.3, n, g, room, ends, ih) (same_operation _ r.0 r.1 r.2)

pub length-encode_records :
    (os : List ReplaceOperation) → length (encode_records os) ≡ length os * 24
unfolding encode_records encode_record put_le
length-encode_records [] = omega arith
length-encode_records (o ∷ os) = omega (arith, length-encode_records os)

short_guard : (a b c : ℕ) → a ≡ b + c → ltb a b ≡ false
short_guard a b c h = ground (arith, h)

-- Where the operations have int64 fields, their payload is encoded, and the file gives the
-- payload's metadata at an offset, decodeBatchOperations returns the operations, in order, with
-- their inserted bytes laid out behind the metadata.
pub decode_batch_operations-encode_batch_payload :
    (read : ℕ → ℕ → Option (List ℕ)) (first_revision group off : ℕ) (os : List ReplaceOperation)
    (payload offsets : List ℕ)
    → All Fits os
    → encode_batch_payload first_revision group os ≡ ok (payload, offsets)
    → read off (length os * batch_record_size) ≡ some (take (length os * batch_record_size) payload)
    → decode_batch_operations read (length os) off (length payload)
      ≡ decoded (placed (off + length os * batch_record_size) os)
unfolding decode_batch_operations encode_batch_payload
decode_batch_operations-encode_batch_payload read first_revision group off os payload offsets f e
      served =
    let (total, sized, h) = >>=-eq-ok (batch_payload_size first_revision group os) _ e in
    let same : encode_records os ++ inserted_bytes os ≡ payload =
      ap (λ (z : List ℕ × List ℕ). z.0) (ok-injective h) in
    let n = length-encode_records os in
    let long : length payload ≡ length os * 24 + length (inserted_bytes os) =
      ap length (sym same)
      ∙ length-append (encode_records os) (inserted_bytes os)
      ∙ ap (λ k. k + length (inserted_bytes os)) n in
    let records : take (length os * 24) payload ≡ encode_records os =
      ap (take (length os * 24)) (sym same)
      ∙ take-append_le (length os * 24) (encode_records os) (inserted_bytes os) (omega (arith, n))
      ∙ take-all (length os * 24) (encode_records os) (omega (arith, n)) in
    let guard : ltb (length payload) (length os * 24) ≡ false = short_guard _ _ _ long in
    let ends : off + length payload ≡ off + length os * 24 + length (inserted_bytes os) =
      omega (arith, long) in
    rw (guard, served, records, ends, decode_records-encode_records os (off + length os * 24) f)

-- The payload offsets of operations laid out from a position behind the start of a payload are the
-- relative offsets that encodeBatchPayload counts from that position, moved by the start.
pub placed-relative_offsets :
    (off cursor : ℕ) (os : List ReplaceOperation)
    → map (λ (o : Operation). o.payload_offset) (placed (off + cursor) os)
      ≡ map (off +◌) (relative_offsets cursor os)
unfolding relative_offsets
placed-relative_offsets off cursor [] = refl
placed-relative_offsets off cursor (o ∷ os) =
    let e : off + cursor + length o.inserted ≡ off + (cursor + length o.inserted) = omega arith in
    ap ((off + cursor) ∷◌) (
      ap (λ k. map (λ (q : Operation). q.payload_offset) (placed k os)) e
      ∙ placed-relative_offsets off (cursor + length o.inserted) os)
