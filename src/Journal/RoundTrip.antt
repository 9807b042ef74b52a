-- ===== src/Journal/RoundTrip.antt =====
-- recovery/journal.go: batches are read back as they were written.
use docengine.Prelude.{
  ℕ, ◌+◌, ◌-◌, ◌≤◌, ◌<◌, ◌≡◌, refl, true, false, not, ◌||◌, ltb, ◌==◌, List, arith, some, max_int64,
  max_uint64,
}
use docengine.Journal.Bytes.{put_le, get_le, le_limit, get_le-put_le}
use docengine.Journal.Header.{
  BatchHeader, decode_batch_header, encode_batch_header, field, header_fields, is_batch_header,
  same_bytes,
}

-- What decodeBatchHeader asks of the fields, all of them written by AppendBatch.
pub record IsWritable (b : BatchHeader) : Type 0 where
  pub some_revision : 0 < b.first_revision
  pub some_group : 0 < b.group
  pub group_fits : b.group ≤ max_uint64
  pub some_operations : 0 < b.count
  pub few_operations : b.count ≤ 256
  pub revisions_fit : b.first_revision + b.count ≤ max_uint64 + 1
  pub payload_fits : b.payload_length ≤ max_int64

count_guard :
    (count len : ℕ)
    → 0 < count
    → count ≤ 256
    → len ≤ max_int64
    → (count == 0 || (ltb 256 count || (not (24 == 24) || ltb max_int64 len))) ≡ false
count_guard count len h k l = ground arith

revision_guard :
    (first group count : ℕ)
    → 0 < first
    → 0 < group
    → first + count ≤ max_uint64 + 1
    → 0 < count
    → (first == 0 || (group == 0 || ltb (max_uint64 - (count - 1)) first)) ≡ false
revision_guard first group count h k l m = ground arith

-- The fields of an encoded header, from a checksum and its payload.
module _ (crc_update : ℕ → List ℕ → ℕ) (b : BatchHeader) (payload : List ℕ) where
  abbrev written : List ℕ
  written = encode_batch_header crc_update b payload

  abbrev checksum : ℕ
  checksum = crc_update (crc_update 0 (header_fields b)) payload

  written-is_batch_header : (is_batch_header written ≡ true) × (field 36 4 written ≡ 24)
  unfolding encode_batch_header header_fields is_batch_header same_bytes put_le get_le
  written-is_batch_header = (refl, refl)

  written_fields :
      IsWritable b
      → checksum < 4294967296
      → (field 16 8 written ≡ b.first_revision)
        × (field 24 8 written ≡ b.group)
        × (field 32 4 written ≡ b.count)
        × (field 40 8 written ≡ b.payload_length)
        × (field 56 4 written ≡ checksum)
  unfolding encode_batch_header header_fields put_le le_limit
  written_fields w small = (
    get_le-put_le 8 b.first_revision (omega (arith, w.revisions_fit, w.some_operations)),
    get_le-put_le 8 b.group (omega (arith, w.group_fits)),
    get_le-put_le 4 b.count (omega (arith, w.few_operations)),
    get_le-put_le 8 b.payload_length (omega (arith, w.payload_fits)),
    get_le-put_le 4 checksum small,
  )

  -- For a checksum that is a 32-bit number and a batch that AppendBatch can write,
  -- decodeBatchHeader reads back the header that encodeBatchHeader wrote, and its checksum of the
  -- fields and the payload.
  pub decode_batch_header-encode_batch_header :
      IsWritable b
      → ((c : ℕ) (bs : List ℕ) → crc_update c bs < 4294967296)
      → decode_batch_header (encode_batch_header crc_update b payload)
        ≡ some (record { batch = b; crc = crc_update (crc_update 0 (header_fields b)) payload })
  unfolding decode_batch_header
  decode_batch_header-encode_batch_header w small =
      let (fixed, records) = written-is_batch_header in
      let f = written_fields w (small _ payload) in
      let g1 =
        count_guard b.count b.payload_length w.some_operations w.few_operations w.payload_fits in
      let g2 =
        revision_guard b.first_revision b.group b.count w.some_revision w.some_group w.revisions_fit
          w.some_operations in
      rw (fixed, f.0, f.1, f.2, f.3, f.4, records, g1, g2)
