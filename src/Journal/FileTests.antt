-- ===== src/Journal/FileTests.antt =====
-- recovery/journal.go: a journal of two batches, the second cut off, and the theorems applied to it.
use docengine.Prelude.{
  ℕ, ◌+◌, ◌%◌, ◌<◌, ◌≡◌, refl, false, true, none, List, [], ◌∷◌, ◌++◌, arith, length, take, slice,
  pos, ok, Source,
}
use docengine.Journal.Bytes.{put_le}
use docengine.Journal.Header.{encode_batch_header, header_fields}
use docengine.Journal.Payload.{
  batch_payload_size, payload_total, encode_record, encode_records, inserted_bytes,
}
use docengine.Journal.File.{
  FileFaults, JournalFile, Fingerprint, file_header, file_header_size, append_batch,
  read_file_header,
}
use docengine.Journal.Replay.{open_journal}
use docengine.Journal.Entries.{Entry, IsAccepted, entry_bytes}
use docengine.Journal.Recovery.{IsChecksum}
use docengine.Journal.Recovered.{entries_bytes, recovered, Repairs, repair_tail_lem}
use docengine.Journal.Appended.{AppendsEntry, append_batch_lem}
use docengine.Journal.Opening.{
  IsFingerprint, length-file_header, read_file_header-file_header, open_journal_lem,
}

-- A checksum for the tests: the sum of the bytes.
byte_sum : List ℕ → ℕ
byte_sum [] = 0
byte_sum (b ∷ bs) = b + byte_sum bs

sum_crc : ℕ → List ℕ → ℕ
sum_crc c bs = (c + byte_sum bs) % 4294967296

byte_sum-append : (xs ys : List ℕ) → byte_sum (xs ++ ys) ≡ byte_sum xs + byte_sum ys
unfolding byte_sum
byte_sum-append [] ys = omega arith
byte_sum-append (x ∷ xs) ys = omega (arith, byte_sum-append xs ys)

sum_crc-IsChecksum : IsChecksum sum_crc
unfolding sum_crc byte_sum
sum_crc-IsChecksum = record {
  small = λ c bs. omega arith;
  of_nothing = λ c h. omega (arith, h);
  goes_on = λ c xs ys. omega (arith, byte_sum-append xs ys);
}

abbrev first_entry : Entry
first_entry = record {
  first_revision = 9;
  group = 3;
  operations =
      record { start = pos 5; delete_length = pos 2; inserted = 104 ∷ 105 ∷ [] }
      ∷ record { start = pos 300; delete_length = pos 0; inserted = 10 ∷ [] }
      ∷ [];
}

abbrev second_entry : Entry
second_entry = record {
  first_revision = 11;
  group = 4;
  operations = record { start = pos 0; delete_length = pos 1; inserted = 65 ∷ [] } ∷ [];
}

first_entry-IsAccepted : IsAccepted first_entry
unfolding batch_payload_size payload_total
first_entry-IsAccepted = record {
  total = 51;
  sized = refl;
  group_fits = omega arith;
  operations_fit =
      ((omega arith, omega arith, omega arith), ((omega arith, omega arith, omega arith), tt));
}

second_entry-IsAccepted : IsAccepted second_entry
unfolding batch_payload_size payload_total
second_entry-IsAccepted = record {
  total = 25;
  sized = refl;
  group_fits = omega arith;
  operations_fit = ((omega arith, omega arith, omega arith), tt);
}

-- The second batch without its last nine bytes.
cut_inside : 80 < length (entry_bytes sum_crc second_entry)
unfolding encode_batch_header header_fields put_le encode_records encode_record inserted_bytes
cut_inside = omega arith

abbrev thirty_two : ℕ → List ℕ
thirty_two b =
    b ∷ b ∷ b ∷ b ∷ b ∷ b ∷ b ∷ b ∷ b ∷ b ∷ b ∷ b ∷ b ∷ b ∷ b ∷ b ∷ b ∷ b ∷ b ∷ b ∷ b ∷ b ∷ b ∷ b
    ∷ b ∷ b ∷ b ∷ b ∷ b ∷ b ∷ b ∷ b ∷ []

abbrev base : Fingerprint
base = record { base_size = pos 1000; path_hash = thirty_two 1; content_hash = thirty_two 2 }

base-IsFingerprint : IsFingerprint base
base-IsFingerprint = record {
  size = 1000;
  sized = refl;
  size_fits = omega arith;
  path_hash_length = refl;
  content_hash_length = refl;
}

abbrev torn_tail : List ℕ
torn_tail = take 80 (entry_bytes sum_crc second_entry)

abbrev torn_contents : List ℕ
torn_contents = file_header sum_crc base ++ (entries_bytes sum_crc (first_entry ∷ []) ++ torn_tail)

abbrev torn_journal : JournalFile
torn_journal = record { closed = false; contents = torn_contents }

abbrev read_torn : Source
read_torn off want = (slice want off torn_contents, none)

abbrev no_faults : FileFaults
no_faults = record {
  seek_fails = false;
  truncate_fails = false;
  sync_fails = false;
  first_write = record { count = 64; failed = false };
  second_write = record { count = 51; failed = false };
}

abbrev torn_write : FileFaults
torn_write = record no_faults {
  truncate_fails = true;
  second_write = record { count = 16; failed = true };
}

open_journal_lem_example :
    open_journal sum_crc read_torn no_faults false base torn_contents
    ≡ ok (torn_journal, recovered sum_crc file_header_size (first_entry ∷ []) 80)
open_journal_lem_example =
    open_journal_lem sum_crc base sum_crc-IsChecksum base-IsFingerprint read_torn no_faults
      (first_entry ∷ []) second_entry 80 torn_contents refl (λ off want h. refl)
      (first_entry-IsAccepted, tt) second_entry-IsAccepted cut_inside

abbrev repaired_contents : List ℕ
repaired_contents = file_header sum_crc base ++ entries_bytes sum_crc (first_entry ∷ [])

abbrev read_repaired : Source
read_repaired off want = (slice want off repaired_contents, none)

repair_tail_lem_example :
    Repairs sum_crc read_torn read_repaired no_faults torn_journal
      (file_header sum_crc base)
      (first_entry ∷ [])
repair_tail_lem_example =
    repair_tail_lem sum_crc read_torn read_repaired no_faults torn_journal
      (file_header sum_crc base) (first_entry ∷ []) second_entry 80 sum_crc-IsChecksum
      (λ off want h. refl) (λ off want h. refl) (first_entry-IsAccepted, tt) second_entry-IsAccepted
      cut_inside (length-file_header sum_crc base sum_crc-IsChecksum base-IsFingerprint) refl refl
      refl

append_batch_lem_example : AppendsEntry sum_crc torn_write (file_header sum_crc base) first_entry (
    append_batch sum_crc torn_write
      (record { closed = false; contents = file_header sum_crc base })
      9
      3
      first_entry.operations)
append_batch_lem_example =
    append_batch_lem sum_crc torn_write
      (record { closed = false; contents = file_header sum_crc base }) first_entry
      first_entry-IsAccepted refl

read_file_header-file_header_example : read_file_header sum_crc read_torn ≡ ok base
read_file_header-file_header_example =
    read_file_header-file_header sum_crc base sum_crc-IsChecksum base-IsFingerprint read_torn
      (entries_bytes sum_crc (first_entry ∷ []) ++ torn_tail) (λ off want h. refl)
