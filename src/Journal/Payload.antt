-- ===== src/Journal/Payload.antt =====
-- recovery/journal.go: batchPayloadSize, encodeBatchPayload and decodeBatchOperations. `read off n`
-- is a full ReadAt of the journal file; none where it fails.
use docengine.Prelude.{
  ℕ, zero, suc, ◌+◌, ◌-◌, ◌*◌, ◌||◌, ltb, ◌==◌, if◌then◌else◌, List, [], ◌∷◌, ◌++◌, Option, none,
  some, length, take, drop, ℤ, is_negative, to_ℕ, Result, ok, ◌>>=◌, ◌>>◌, fail_if, max_int64,
  max_uint64,
}
use docengine.Journal.Bytes.{put_le, get_le}

abbrev pub batch_record_size : ℕ
batch_record_size = 24

abbrev pub maximum_batch_size : ℕ
maximum_batch_size = 256

abbrev pub maximum_batch_payload : ℕ
maximum_batch_payload = 1073741824

-- ErrInvalidBatch.
pub data BatchError : Type 0 where
  invalid_batch : BatchError

pub record ReplaceOperation : Type 0 where
  pub start : ℤ
  pub delete_length : ℤ
  pub inserted : List ℕ

pub record Operation : Type 0 where
  pub start : ℕ
  pub delete_length : ℕ
  pub insert_length : ℕ
  pub payload_offset : ℕ

-- The loop of batchPayloadSize.
unfoldable pub payload_total : ℕ → List ReplaceOperation → Result BatchError ℕ
payload_total total [] = ok total
payload_total total (o ∷ os) = do
  fail_if
      (is_negative o.start
        || (is_negative o.delete_length || ltb (maximum_batch_payload - total) (length o.inserted)))
      invalid_batch
  payload_total (total + length o.inserted) os

unfoldable pub batch_payload_size : ℕ → ℕ → List ReplaceOperation → Result BatchError ℕ
batch_payload_size first_revision group os = do
  fail_if
      (length os == 0
        || (ltb maximum_batch_size (length os)
            || (first_revision == 0
                || (group == 0 || ltb (max_uint64 - (length os - 1)) first_revision))))
      invalid_batch
  payload_total (length os * batch_record_size) os

unfoldable pub batch_encoded_size : ℕ → ℕ → List ReplaceOperation → Result BatchError ℕ
batch_encoded_size first_revision group os =
    batch_payload_size first_revision group os >>= λ n. ok (64 + n)

-- The records of encodeBatchPayload, in order, each `batch_record_size` bytes; then the inserted
-- bytes, and where each operation's bytes start.
unfoldable pub encode_record : ReplaceOperation → List ℕ
encode_record o =
    put_le 8 (to_ℕ o.start) ++ (put_le 8 (to_ℕ o.delete_length) ++ put_le 8 (length o.inserted))

unfoldable pub encode_records : List ReplaceOperation → List ℕ
encode_records [] = []
encode_records (o ∷ os) = encode_record o ++ encode_records os

unfoldable pub inserted_bytes : List ReplaceOperation → List ℕ
inserted_bytes [] = []
inserted_bytes (o ∷ os) = o.inserted ++ inserted_bytes os

unfoldable pub relative_offsets : ℕ → List ReplaceOperation → List ℕ
relative_offsets cursor [] = []
relative_offsets cursor (o ∷ os) = cursor ∷ relative_offsets (cursor + length o.inserted) os

unfoldable pub encode_batch_payload :
    ℕ → ℕ → List ReplaceOperation → Result BatchError (List ℕ × List ℕ)
encode_batch_payload first_revision group os = do
  total ← batch_payload_size first_revision group os
  ok (encode_records os ++ inserted_bytes os, relative_offsets (length os * batch_record_size) os)

-- The loop of decodeBatchOperations over the records that are left; none where it finds one invalid.
unfoldable pub decode_records : List ℕ → ℕ → ℕ → ℕ → Option (List Operation)
decode_records metadata zero cursor payload_end = if cursor == payload_end then some [] else none
decode_records metadata (suc n) cursor payload_end =
    let start = get_le (take 8 metadata) in
    let deleted = get_le (take 8 (drop 8 metadata)) in
    let inserted = get_le (take 8 (drop 16 metadata)) in
    let o : Operation = record {
      start = start;
      delete_length = deleted;
      insert_length = inserted;
      payload_offset = cursor;
    } in
    let rest = decode_records (drop 24 metadata) n (cursor + inserted) payload_end in
    if ltb max_int64 start || (ltb max_int64 deleted || ltb max_int64 inserted)
    then none
    else if ltb (payload_end - cursor) inserted
    then none
    else elim rest [ none ↦ none | some os ↦ some (o ∷ os) ]

pub data Decoding : Type 0 where
  read_failed malformed : Decoding
  decoded : List Operation → Decoding

unfoldable pub decode_batch_operations : (ℕ → ℕ → Option (List ℕ)) → ℕ → ℕ → ℕ → Decoding
decode_batch_operations read count payload_offset payload_length =
    let n = count * batch_record_size in
    if ltb payload_length n then malformed else elim (read payload_offset n) [
      | none ↦ read_failed
      | some metadata ↦
          elim (decode_records metadata count (payload_offset + n)
            (payload_offset + payload_length)) [ none ↦ malformed | some os ↦ decoded os ]
    ]
