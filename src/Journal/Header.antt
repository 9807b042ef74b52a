-- ===== src/Journal/Header.antt =====
-- recovery/journal.go: encodeBatchHeader and decodeBatchHeader. `crc_update crc bytes` is
-- crc32.Update with the Castagnoli table, a library function.
use docengine.Prelude.{
  ℕ, ◌-◌, Bool, true, false, not, ◌&&◌, ◌||◌, ltb, ◌==◌, if◌then◌else◌, List, [], ◌∷◌, ◌++◌, Option,
  none, some, length, slice, take, max_int64, max_uint64,
}
use docengine.Journal.Bytes.{put_le, get_le}

abbrev pub batch_magic : List ℕ
batch_magic = 68 ∷ 79 ∷ 67 ∷ 74 ∷ 78 ∷ 76 ∷ 48 ∷ 50 ∷ []

unfoldable pub same_bytes : List ℕ → List ℕ → Bool
same_bytes [] [] = true
same_bytes [] (y ∷ ys) = false
same_bytes (x ∷ xs) [] = false
same_bytes (x ∷ xs) (y ∷ ys) = x == y && same_bytes xs ys

pub record BatchHeader : Type 0 where
  pub first_revision : ℕ
  pub group : ℕ
  pub count : ℕ
  pub payload_length : ℕ

pub record StoredHeader : Type 0 where
  pub batch : BatchHeader
  pub crc : ℕ

-- The first 56 bytes of a header, which its checksum covers.
unfoldable pub header_fields : BatchHeader → List ℕ
header_fields b =
    batch_magic
    ++ (put_le 2 2
        ++ (put_le 2 0
            ++ (put_le 4 64
                ++ (put_le 8 b.first_revision
                    ++ (put_le 8 b.group
                        ++ (put_le 4 b.count
                            ++ (put_le 4 24 ++ (put_le 8 b.payload_length ++ put_le 8 0))))))))

unfoldable pub encode_batch_header : (ℕ → List ℕ → ℕ) → BatchHeader → List ℕ → List ℕ
encode_batch_header crc_update b payload =
    let crc = crc_update (crc_update 0 (header_fields b)) payload in
    header_fields b ++ (put_le 4 crc ++ put_le 4 0)

abbrev pub field : ℕ → ℕ → List ℕ → ℕ
field off width header = get_le (slice width off header)

-- Does the header have the fixed fields of the format?
unfoldable pub is_batch_header : List ℕ → Bool
is_batch_header header =
    length header == 64
    && (same_bytes (take 8 header) batch_magic
        && (field 8 2 header == 2
            && (field 10 2 header == 0
                && (field 12 4 header == 64
                    && (field 48 8 header == 0 && field 60 4 header == 0)))))

unfoldable pub decode_batch_header : List ℕ → Option StoredHeader
decode_batch_header header =
    let count = field 32 4 header in
    let payload_raw = field 40 8 header in
    let first_revision = field 16 8 header in
    let group = field 24 8 header in
    if not (is_batch_header header)
    then none
    else if count == 0
        || (ltb 256 count || (not (field 36 4 header == 24) || ltb max_int64 payload_raw))
    then none
    else if first_revision == 0 || (group == 0 || ltb (max_uint64 - (count - 1)) first_revision)
    then none
    else some (record {
      batch = record {
        first_revision = first_revision;
        group = group;
        count = count;
        payload_length = payload_raw;
      };
      crc = field 56 4 header;
    })
