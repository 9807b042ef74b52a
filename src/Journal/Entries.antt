-- ===== src/Journal/Entries.antt =====
-- recovery/journal.go: the bytes of a batch that AppendBatch accepts, and what Replay finds there.
use docengine.Prelude.{
  ℕ, ◌+◌, ◌-◌, ◌*◌, ◌≤◌, ◌<◌, ◌≡◌, refl, ◌||◌, ltb, List, [], ◌∷◌, ◌++◌, arith, length, take,
  length-append, All, ok, fail_if, >>-eq-ok, ok-injective, is_negative, max_uint64,
}
use docengine.Journal.Bytes.{put_le}
use docengine.Journal.Header.{BatchHeader, encode_batch_header, header_fields}
use docengine.Journal.Payload.{
  ReplaceOperation, batch_payload_size, payload_total, encode_batch_payload, encode_records,
  inserted_bytes, relative_offsets, maximum_batch_payload, batch_record_size, invalid_batch,
}
use docengine.Journal.Operations.{Fits, length-encode_records}
use docengine.Journal.RoundTrip.{IsWritable}

-- A batch as a caller passes it.
pub record Entry : Type 0 where
  pub first_revision : ℕ
  pub group : ℕ
  pub operations : List ReplaceOperation

abbrev pub payload_of : Entry → List ℕ
payload_of e = encode_records e.operations ++ inserted_bytes e.operations

abbrev pub header_of : Entry → BatchHeader
header_of e = record {
  first_revision = e.first_revision;
  group = e.group;
  count = length e.operations;
  payload_length = length (payload_of e);
}

abbrev pub entry_bytes : (ℕ → List ℕ → ℕ) → Entry → List ℕ
entry_bytes crc_update e =
    encode_batch_header crc_update (header_of e) (payload_of e) ++ payload_of e

-- A batch that AppendBatch accepts, of Go's numbers.
pub record IsAccepted (e : Entry) : Type 0 where
  pub total : ℕ
  pub sized : batch_payload_size e.first_revision e.group e.operations ≡ ok total
  pub group_fits : e.group ≤ max_uint64
  pub operations_fit : All Fits e.operations

payload_total_lem :
    (total n : ℕ) (os : List ReplaceOperation)
    → total ≤ maximum_batch_payload
    → payload_total total os ≡ ok n
    → (n ≡ total + length (inserted_bytes os)) × (n ≤ maximum_batch_payload)
unfolding payload_total inserted_bytes
payload_total_lem total n [] h e = let z = ok-injective e in (omega (arith, z), omega (arith, z, h))
payload_total_lem total n (o ∷ os) h e =
    let p =
      >>-eq-ok
        (fail_if
          (is_negative o.start
            || (is_negative o.delete_length
                || ltb (maximum_batch_payload - total) (length o.inserted)))
          invalid_batch)
        _ e in
    let room : length o.inserted ≤ maximum_batch_payload - total = ground (arith, p.0) in
    let ih = payload_total_lem (total + length o.inserted) n os (omega (arith, room, h)) p.1 in
    (omega (arith, ih.0, length-append o.inserted (inserted_bytes os)), ih.1)

batch_payload_size_lem :
    (first group : ℕ) (os : List ReplaceOperation) (n : ℕ)
    → batch_payload_size first group os ≡ ok n
    → (0 < first)
      × (0 < group)
      × (0 < length os)
      × (length os ≤ 256)
      × (first + length os ≤ max_uint64 + 1)
      × (payload_total (length os * batch_record_size) os ≡ ok n)
unfolding batch_payload_size
batch_payload_size_lem first group os n h = ground arith

pub length-payload_of :
    (e : Entry)
    → length (payload_of e) ≡ length e.operations * 24 + length (inserted_bytes e.operations)
length-payload_of e = omega (
  arith,
  length-append (encode_records e.operations) (inserted_bytes e.operations),
  length-encode_records e.operations,
)

module _ (e : Entry) (v : IsAccepted e) where
  -- Of the payload: it has the bytes that batchPayloadSize counts, within the limit, and some.
  pub payload_size :
      (length (payload_of e) ≡ v.total)
      × (length (payload_of e) ≤ maximum_batch_payload)
      × (0 < length (payload_of e))
  payload_size =
      let s = batch_payload_size_lem e.first_revision e.group e.operations v.total v.sized in
      let t =
        payload_total_lem (length e.operations * batch_record_size) v.total e.operations
          (omega (arith, s.3)) s.5 in
      let n = length-payload_of e in
      (omega (arith, n, t.0), omega (arith, n, t.0, t.1), omega (arith, n, s.2))

  pub header_of-IsWritable : IsWritable (header_of e)
  header_of-IsWritable =
      let s = batch_payload_size_lem e.first_revision e.group e.operations v.total v.sized in
      record {
        some_revision = s.0;
        some_group = s.1;
        group_fits = v.group_fits;
        some_operations = s.2;
        few_operations = s.3;
        revisions_fit = s.4;
        payload_fits = omega (arith, payload_size.1);
      }

  pub encode_batch_payload-payload_of :
      encode_batch_payload e.first_revision e.group e.operations
      ≡ ok (payload_of e, relative_offsets (length e.operations * batch_record_size) e.operations)
  unfolding encode_batch_payload
  encode_batch_payload-payload_of = rw v.sized refl

pub length-encode_batch_header :
    (crc_update : ℕ → List ℕ → ℕ) (b : BatchHeader) (payload : List ℕ)
    → length (encode_batch_header crc_update b payload) ≡ 64
unfolding encode_batch_header header_fields put_le
length-encode_batch_header crc_update b payload = refl

pub take-encode_batch_header :
    (crc_update : ℕ → List ℕ → ℕ) (b : BatchHeader) (payload : List ℕ)
    → take 56 (encode_batch_header crc_update b payload) ≡ header_fields b
unfolding encode_batch_header header_fields put_le
take-encode_batch_header crc_update b payload = refl
