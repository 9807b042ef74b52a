-- ===== src/Journal/Replay.antt =====
-- recovery/journal.go: Replay and openJournal. `size` is the length of the file.
use docengine.Prelude.{
  ℕ, zero, suc, ◌+◌, ◌-◌, min, Bool, true, false, not, ◌&&◌, ◌||◌, ltb, ◌==◌, if◌then◌else◌, List,
  [], ◌∷◌, Option, none, some, length, take, is_negative, to_ℕ, Result, ok, err, Source, read_stops,
}
use docengine.Journal.Header.{BatchHeader, StoredHeader, decode_batch_header, same_bytes}
use docengine.Journal.Payload.{
  Operation, Decoding, decoded, malformed, read_failed, decode_batch_operations,
  maximum_batch_payload,
}
use docengine.Journal.File.{
  JournalFile, JournalError, FileFaults, Fingerprint, file_header_size, batch_header_size,
  stale_journal, journal_closed, file_failed, full_read, write_file_header, read_file_header,
}

abbrev pub replay_buffer_size : ℕ
replay_buffer_size = 65536

pub record Batch : Type 0 where
  pub first_revision : ℕ
  pub group : ℕ
  pub operations : List Operation

pub record ReplayResult : Type 0 where
  pub batches : List Batch
  pub valid_bytes : ℕ
  pub truncated : Bool

-- The loop over a payload: its checksum, none where a read fails. Each round that goes on has read
-- at least one byte, so as many rounds as bytes are enough.
unfoldable pub payload_crc : (ℕ → List ℕ → ℕ) → Source → ℕ → ℕ → ℕ → ℕ → Option ℕ
payload_crc crc_update read_at zero crc cursor remaining = if remaining == 0 then some crc else none
payload_crc crc_update read_at (suc fuel) crc cursor remaining =
    let r = read_at cursor (min replay_buffer_size remaining) in
    let n = length r.0 in
    let rest =
      payload_crc crc_update read_at fuel (crc_update crc r.0) (cursor + n) (remaining - n) in
    if remaining == 0
    then some crc
    else if read_stops r.1 (remaining - n == 0) || (n == 0)
    then none
    else rest

-- What is at an offset: no whole batch, a read that fails, or a batch and its end.
pub data Found : Type 0 where
  torn unreadable : Found
  found : Batch → ℕ → Found

abbrev pub batch_of : BatchHeader → ℕ → Decoding → Found
batch_of b end read_failed = unreadable
batch_of b end malformed = torn
batch_of b end (decoded os) =
    found (record { first_revision = b.first_revision; group = b.group; operations = os }) end

-- The rest of a round of Replay behind a header that it decodes.
unfoldable pub read_batch : (ℕ → List ℕ → ℕ) → Source → ℕ → ℕ → List ℕ → StoredHeader → Found
read_batch crc_update read_at size offset header h =
    let payload_offset = offset + batch_header_size in
    let n = h.batch.payload_length in
    let operations = decode_batch_operations (full_read read_at) h.batch.count payload_offset n in
    if ltb maximum_batch_payload n
    then torn
    else if ltb (size - payload_offset) n
    then torn
    else elim (payload_crc crc_update read_at n (crc_update 0 (take 56 header)) payload_offset n) [
      | none ↦ unreadable
      | some crc ↦
          if not (crc == h.crc) then torn else batch_of h.batch (payload_offset + n) operations
    ]

-- A round of Replay.
unfoldable pub batch_at : (ℕ → List ℕ → ℕ) → Source → ℕ → ℕ → Found
batch_at crc_update read_at size offset =
    if ltb (size - offset) batch_header_size
    then torn
    else elim (full_read read_at offset batch_header_size) [
      | none ↦ unreadable
      | some header ↦ elim (decode_batch_header header) [
        | none ↦ torn
        | some h ↦ read_batch crc_update read_at size offset header h
      ]
    ]

abbrev pub with_batch : Batch → ReplayResult × Bool → ReplayResult × Bool
with_batch b (r, failed) = (record r { batches = b ∷ r.batches }, failed)

abbrev pub replay_end : ℕ → Bool → Bool → ReplayResult × Bool
replay_end valid_bytes truncated failed =
    (record { batches = []; valid_bytes = valid_bytes; truncated = truncated }, failed)

-- The loop of Replay from an offset, up to which the file is valid; and whether a read failed. Each
-- round that goes on has passed a header, so as many rounds as bytes are enough.
unfoldable pub replay_from : (ℕ → List ℕ → ℕ) → Source → ℕ → ℕ → ℕ → ReplayResult × Bool
replay_from crc_update read_at size zero offset = replay_end offset (ltb offset size) false
replay_from crc_update read_at size (suc fuel) offset =
    if not (ltb offset size)
    then replay_end offset false false
    else elim (batch_at crc_update read_at size offset) [
      | torn ↦ replay_end offset true false
      | unreadable ↦ replay_end offset false true
      | found b end ↦ with_batch b (replay_from crc_update read_at size fuel end)
    ]

unfoldable pub replay :
    (ℕ → List ℕ → ℕ) → Source → Bool → JournalFile → Result JournalError (ReplayResult × Bool)
replay crc_update read_at stat_fails j =
    let size = length j.contents in
    if j.closed
    then err journal_closed
    else if stat_fails
    then err file_failed
    else ok (replay_from crc_update read_at size size file_header_size)

abbrev pub is_same_fingerprint : Fingerprint → Fingerprint → Bool
is_same_fingerprint f g =
    not (is_negative g.base_size)
    && (to_ℕ f.base_size == to_ℕ g.base_size
        && (same_bytes f.path_hash g.path_hash && same_bytes f.content_hash g.content_hash))

abbrev pub opened_journal :
    JournalFile
    → Result JournalError (ReplayResult × Bool)
    → Result JournalError (JournalFile × ReplayResult)
opened_journal j (err e) = err e
opened_journal j (ok (r, true)) = err file_failed
opened_journal j (ok (r, false)) = ok (j, r)

-- The journal and its file behind a new header.
abbrev pub created_journal :
    Result JournalError (Unit {0}) × List ℕ → Result JournalError (JournalFile × ReplayResult)
created_journal (err e, contents) = err e
created_journal (ok tt, contents) = ok (
  record { closed = false; contents = contents },
  record { batches = []; valid_bytes = file_header_size; truncated = false },
)

-- `open_fails`: one of the calls that open the file and ask for its size does.
unfoldable pub open_journal :
    (ℕ → List ℕ → ℕ)
    → Source
    → FileFaults
    → Bool
    → Fingerprint
    → List ℕ
    → Result JournalError (JournalFile × ReplayResult)
open_journal crc_update read_at faults open_fails f contents =
    let j : JournalFile = record { closed = false; contents = contents } in
    if is_negative f.base_size
    then err stale_journal
    else if open_fails
    then err file_failed
    else if length contents == 0
    then created_journal (write_file_header crc_update faults f contents)
    else elim (read_file_header crc_update read_at) [
      | err e ↦ err e
      | ok stored ↦
          if not (is_same_fingerprint stored f)
          then err stale_journal
          else opened_journal j (replay crc_update read_at false j)
    ]
