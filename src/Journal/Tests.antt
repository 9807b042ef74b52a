-- ===== src/Journal/Tests.antt =====
-- recovery/journal.go: a batch of two operations, and the theorems applied to it.
use docengine.Prelude.{
  ℕ, ◌+◌, ◌≡◌, refl, List, [], ◌∷◌, ◌++◌, arith, length, take, pos, Option, some,
}
use docengine.Journal.Payload.{
  ReplaceOperation, decoded, batch_payload_size, payload_total, encode_batch_payload,
  encode_records, inserted_bytes, relative_offsets, decode_batch_operations,
}
use docengine.Journal.Header.{BatchHeader, header_fields, encode_batch_header, decode_batch_header}
use docengine.Journal.Operations.{placed, decode_batch_operations-encode_batch_payload}
use docengine.Journal.RoundTrip.{IsWritable, decode_batch_header-encode_batch_header}

abbrev two_operations : List ReplaceOperation
two_operations =
    record { start = pos 5; delete_length = pos 2; inserted = 104 ∷ 105 ∷ [] }
    ∷ record { start = pos 300; delete_length = pos 0; inserted = 10 ∷ [] }
    ∷ []

abbrev two_payload : List ℕ
two_payload = encode_records two_operations ++ inserted_bytes two_operations

abbrev two_offsets : List ℕ
two_offsets = 48 ∷ 50 ∷ []

abbrev read_two : ℕ → ℕ → Option (List ℕ)
read_two off n = some (take n two_payload)

decode_batch_operations-encode_batch_payload_example :
    decode_batch_operations read_two 2 160 (length two_payload)
    ≡ decoded (placed (160 + 48) two_operations)
unfolding encode_batch_payload batch_payload_size payload_total relative_offsets
decode_batch_operations-encode_batch_payload_example =
    decode_batch_operations-encode_batch_payload read_two 9 3 160 two_operations two_payload
      two_offsets
      ((omega arith, omega arith, omega arith), ((omega arith, omega arith, omega arith), tt)) refl
      refl

abbrev two_header : BatchHeader
two_header = record { first_revision = 9; group = 3; count = 2; payload_length = 51 }

abbrev fixed_crc : ℕ → List ℕ → ℕ
fixed_crc c bs = 7

two_header-IsWritable : IsWritable two_header
two_header-IsWritable = ground arith

decode_batch_header-encode_batch_header_example :
    decode_batch_header (encode_batch_header fixed_crc two_header two_payload)
    ≡ some (record {
      batch = two_header;
      crc = fixed_crc (fixed_crc 0 (header_fields two_header)) two_payload;
    })
decode_batch_header-encode_batch_header_example =
    decode_batch_header-encode_batch_header fixed_crc two_header two_payload two_header-IsWritable
      (λ c bs. omega arith)
