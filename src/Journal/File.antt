-- ===== src/Journal/File.antt =====
-- recovery/journal.go: the operations of a Journal on its file. `crc_update crc bytes` is crc32.Update
-- with the Castagnoli table. What the file does at each call is a parameter, `FileFaults`.
use docengine.Prelude.{
  Written, ℕ, zero, suc, ◌+◌, ◌-◌, Bool, true, not, ◌&&◌, ◌||◌, ltb, ◌==◌, if◌then◌else◌, List, [],
  ◌∷◌, ◌++◌, map, Option, none, some, length, take, drop, slice, ℤ, is_negative, to_ℕ, Result, ok,
  err, max_int64, Source,
}
use docengine.Journal.Bytes.{put_le}
use docengine.Journal.Header.{BatchHeader, encode_batch_header, field, same_bytes}
use docengine.Journal.Payload.{ReplaceOperation, encode_batch_payload}

abbrev pub file_header_size : ℕ
file_header_size = 96

abbrev pub batch_header_size : ℕ
batch_header_size = 64

abbrev pub file_magic : List ℕ
file_magic = 68 ∷ 79 ∷ 67 ∷ 76 ∷ 79 ∷ 71 ∷ 48 ∷ 50 ∷ []

pub data JournalError : Type 0 where
  stale_journal unsupported_journal corrupt_journal journal_closed bad_batch : JournalError
  invalid_repair_offset short_write file_failed : JournalError

-- Which calls of the file fail, and how far its writes come.
pub record FileFaults : Type 0 where
  pub seek_fails : Bool
  pub truncate_fails : Bool
  pub sync_fails : Bool
  pub first_write : Written
  pub second_write : Written

-- `closed`: file is nil. A file is its bytes.
pub record JournalFile : Type 0 where
  pub closed : Bool
  pub contents : List ℕ

pub record BatchAppendResult : Type 0 where
  pub batch_offset : ℕ
  pub payload_offsets : List ℕ
  pub end_offset : ℕ

pub record Fingerprint : Type 0 where
  pub base_size : ℤ
  pub path_hash : List ℕ
  pub content_hash : List ℕ

abbrev pub is_short : Written → ℕ → Bool
is_short w n = w.failed || not (w.count == n)

abbrev pub write_error : Written → JournalError
write_error w = if w.failed then file_failed else short_write

-- rollback of appendBatch: the file is cut back to where it ended.
abbrev pub rolled_back : FileFaults → List ℕ → List ℕ → List ℕ
rolled_back faults contents now = if faults.truncate_fails then now else contents

unfoldable pub append_bytes :
    (ℕ → List ℕ → ℕ)
    → FileFaults
    → BatchHeader
    → List ℕ
    → List ℕ
    → Result JournalError (ℕ × ℕ) × List ℕ
append_bytes crc_update faults b payload contents =
    let header = encode_batch_header crc_update b payload in
    let with_header = contents ++ take faults.first_write.count header in
    let with_payload = with_header ++ take faults.second_write.count payload in
    if faults.seek_fails
    then (err file_failed, contents)
    else if is_short faults.first_write (length header)
    then (err (write_error faults.first_write), rolled_back faults contents with_header)
    else if not (length payload == 0) && is_short faults.second_write (length payload)
    then (err (write_error faults.second_write), rolled_back faults contents with_payload)
    else (ok (length contents, length contents + batch_header_size), with_payload)

abbrev pub append_result :
    JournalFile
    → List ℕ
    → ℕ
    → Result JournalError (ℕ × ℕ) × List ℕ
    → Result JournalError BatchAppendResult × JournalFile
append_result j offsets payload_length (err e, contents) = (err e, record j { contents = contents })
append_result j offsets payload_length (ok (batch_offset, payload_offset), contents) = (
  ok (record {
    batch_offset = batch_offset;
    payload_offsets = map (payload_offset +◌) offsets;
    end_offset = payload_offset + payload_length;
  }),
  record j { contents = contents },
)

unfoldable pub append_batch :
    (ℕ → List ℕ → ℕ)
    → FileFaults
    → JournalFile
    → ℕ
    → ℕ
    → List ReplaceOperation
    → Result JournalError BatchAppendResult × JournalFile
append_batch crc_update faults j first_revision group os =
    if j.closed
    then (err journal_closed, j)
    else elim (encode_batch_payload first_revision group os) [
      | err e ↦ (err bad_batch, j)
      | ok (payload, offsets) ↦ append_result j offsets (length payload) (
          append_bytes crc_update faults
            (record {
              first_revision = first_revision;
              group = group;
              count = length os;
              payload_length = length payload;
            })
            payload j.contents)
    ]

-- Truncate fills up with zeros where the file is shorter.
unfoldable pub zero_bytes : ℕ → List ℕ
zero_bytes zero = []
zero_bytes (suc n) = 0 ∷ zero_bytes n

unfoldable pub truncated_to : ℕ → List ℕ → List ℕ
truncated_to n contents = take n contents ++ zero_bytes (n - length contents)

unfoldable pub repair_tail :
    FileFaults → JournalFile → ℤ → Result JournalError (Unit {0}) × JournalFile
repair_tail faults j valid_bytes =
    if j.closed
    then (err journal_closed, j)
    else if is_negative valid_bytes || ltb (to_ℕ valid_bytes) file_header_size
    then (err invalid_repair_offset, j)
    else if faults.truncate_fails
    then (err file_failed, j)
    else (ok tt, record j { contents = truncated_to (to_ℕ valid_bytes) j.contents })

unfoldable pub sync_journal : FileFaults → JournalFile → Result JournalError (Unit {0})
sync_journal faults j =
    if j.closed then err journal_closed else if faults.sync_fails then err file_failed else ok tt

-- The first 92 bytes of the file header, which its checksum covers.
unfoldable pub fingerprint_fields : Fingerprint → List ℕ
fingerprint_fields f =
    file_magic
    ++ (put_le 4 2
        ++ (put_le 4 96
            ++ (put_le 8 (to_ℕ f.base_size) ++ (f.path_hash ++ (f.content_hash ++ put_le 4 0)))))

unfoldable pub file_header : (ℕ → List ℕ → ℕ) → Fingerprint → List ℕ
file_header crc_update f =
    let fields = fingerprint_fields f in fields ++ put_le 4 (crc_update 0 fields)

-- A write at the start of a file.
unfoldable pub written_at_start : ℕ → List ℕ → List ℕ → List ℕ
written_at_start n bytes contents = take n bytes ++ drop n contents

unfoldable pub write_file_header :
    (ℕ → List ℕ → ℕ) → FileFaults → Fingerprint → List ℕ → Result JournalError (Unit {0}) × List ℕ
write_file_header crc_update faults f contents =
    let now = written_at_start faults.first_write.count (file_header crc_update f) contents in
    if faults.first_write.failed
    then (err file_failed, now)
    else if faults.sync_fails
    then (err file_failed, now)
    else (ok tt, now)

abbrev pub with_contents :
    JournalFile
    → Result JournalError (Unit {0}) × List ℕ
    → Result JournalError (Unit {0}) × JournalFile
with_contents j (r, contents) = (r, record j { contents = contents })

unfoldable pub reset_journal :
    (ℕ → List ℕ → ℕ)
    → FileFaults
    → JournalFile
    → Fingerprint
    → Result JournalError (Unit {0}) × JournalFile
reset_journal crc_update faults j f =
    if j.closed
    then (err journal_closed, j)
    else if is_negative f.base_size
    then (err stale_journal, j)
    else if faults.truncate_fails
    then (err file_failed, j)
    else if faults.seek_fails
    then (err file_failed, record j { contents = [] })
    else with_contents j (write_file_header crc_update faults f [])

unfoldable pub close_journal : JournalFile → JournalFile
close_journal j = record j { closed = true }

unfoldable pub journal_size : Bool → JournalFile → Result JournalError ℕ
journal_size stat_fails j =
    if j.closed
    then err journal_closed
    else if stat_fails
    then err file_failed
    else ok (length j.contents)

-- A ReadAt whose error is taken for a failure, io.EOF too.
abbrev pub full_read : Source → ℕ → ℕ → Option (List ℕ)
full_read read_at off want = elim ((read_at off want).1) [
  | none ↦ some (read_at off want).0
  | some e ↦ none
]

-- Is it a header of this version, and do its checks hold?
unfoldable pub is_file_header : List ℕ → Bool
is_file_header header =
    same_bytes (take 8 header) file_magic && (field 8 4 header == 2 && field 12 4 header == 96)

unfoldable pub is_sound_header : (ℕ → List ℕ → ℕ) → List ℕ → Bool
is_sound_header crc_update header =
    field 88 4 header == 0 && field 92 4 header == crc_update 0 (take 92 header)

unfoldable pub read_file_header : (ℕ → List ℕ → ℕ) → Source → Result JournalError Fingerprint
read_file_header crc_update read_at = elim (full_read read_at 0 file_header_size) [
  | none ↦ err file_failed
  | some header ↦
      if not (is_file_header header)
      then err unsupported_journal
      else if not (is_sound_header crc_update header)
      then err corrupt_journal
      else if ltb max_int64 (field 16 8 header)
      then err corrupt_journal
      else ok (record {
        base_size = ℤ.pos (field 16 8 header);
        path_hash = slice 32 24 header;
        content_hash = slice 32 56 header;
      })
]
