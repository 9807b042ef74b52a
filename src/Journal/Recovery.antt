-- ===== src/Journal/Recovery.antt =====
-- recovery/journal.go: Replay of a file of appended batches, the last of them perhaps cut off.
use docengine.Prelude.{
  slice_split, ℕ, zero, suc, ◌+◌, ◌-◌, ◌*◌, ◌≤◌, ◌<◌, min, ◌≡◌, refl, sym, ap, ap₂, ◌∙◌, true,
  false, ltb, ltb→lt, ltb→ge, lt→ltb, ge→ltb, ◌==◌, ==_self, Bool-cases, inl, inr, List, [], ◌++◌,
  append_assoc, Option, none, some, arith, length, take, drop, slice, length-slice, length-drop,
  length-append, length-take, drop-drop, take-append_le, take-append_ge, drop-append_ge, take-all,
  Source, ReadFault,
}
use docengine.Journal.Header.{encode_batch_header, decode_batch_header, header_fields}
use docengine.Journal.Payload.{batch_record_size, maximum_batch_payload}
use docengine.Journal.Operations.{placed, decode_batch_operations-encode_batch_payload}
use docengine.Journal.RoundTrip.{decode_batch_header-encode_batch_header}
use docengine.Journal.File.{full_read}
use docengine.Journal.Replay.{
  Batch, torn, found, payload_crc, read_batch, batch_at, replay_buffer_size,
}
use docengine.Journal.Entries.{
  Entry, IsAccepted, payload_of, header_of, entry_bytes, length-payload_of, payload_size,
  header_of-IsWritable, encode_batch_payload-payload_of, length-encode_batch_header,
  take-encode_batch_header,
}

-- A file that reads in full inside its bytes, without an error.
abbrev pub Reads : Source → List ℕ → Type 0
Reads read_at contents =
    (off want : ℕ)
    → off + want ≤ length contents
    → read_at off want ≡ (slice want off contents, none)

-- What crc32.Update is: a function to 32 bits that goes on where it stopped.
pub record IsChecksum (crc_update : ℕ → List ℕ → ℕ) : Type 0 where
  pub small : (c : ℕ) (bs : List ℕ) → crc_update c bs < 4294967296
  pub of_nothing : (c : ℕ) → c < 4294967296 → crc_update c [] ≡ c
  pub goes_on : (c : ℕ) (xs ys : List ℕ) → crc_update (crc_update c xs) ys ≡ crc_update c (xs ++ ys)

-- The batch of an entry, with its operations where they are in the file.
abbrev pub placed_batch : Entry → ℕ → Batch
placed_batch e offset = record {
  first_revision = e.first_revision;
  group = e.group;
  operations = placed (offset + 64 + length e.operations * batch_record_size) e.operations;
}

pub drop_whole : (xs ys : List ℕ) (n : ℕ) → length xs ≡ n → drop n (xs ++ ys) ≡ ys
drop_whole xs ys n h =
    let z : n - length xs ≡ 0 = omega (arith, h) in
    drop-append_ge n xs ys (omega (arith, h)) ∙ ap (λ k. drop k ys) z

pub take_whole : (xs ys : List ℕ) (n : ℕ) → length xs ≡ n → take n (xs ++ ys) ≡ xs
take_whole xs ys n h = take-append_le n xs ys (omega (arith, h)) ∙ take-all n xs (omega (arith, h))

module _ (crc_update : ℕ → List ℕ → ℕ) (read_at : Source) (contents : List ℕ)
    (checks : IsChecksum crc_update) (reads : Reads read_at contents) where
  -- The loop over a payload gives the checksum of all its bytes.
  payload_crc_lem :
      (fuel crc cursor remaining : ℕ)
      → crc < 4294967296
      → remaining ≤ fuel
      → cursor + remaining ≤ length contents
      → payload_crc crc_update read_at fuel crc cursor remaining
        ≡ some (crc_update crc (slice remaining cursor contents))
  unfolding payload_crc
  payload_crc_lem zero crc cursor remaining c h k =
      let z : remaining ≡ 0 = omega (arith, h) in rw z (ap some (sym (checks.of_nothing crc c)))
  payload_crc_lem (suc fuel) crc cursor zero c h k = ap some (sym (checks.of_nothing crc c))
  payload_crc_lem (suc fuel) crc cursor (suc m) c h k =
      let want = min replay_buffer_size (suc m) in
      let got = slice want cursor contents in
      let n : length got ≡ want = length-slice want cursor contents ∙ omega (arith, k) in
      let some_want : (want == 0) ≡ false = ground arith in
      let r = reads cursor want (omega (arith, k)) in
      let ih =
        payload_crc_lem fuel (crc_update crc got) (cursor + want) (suc m - want)
          (checks.small crc got) (omega (arith, h)) (omega (arith, k)) in
      let left : (suc m == 0) ≡ false = ground arith in
      rw (r, n, left, some_want)
        (ih
          ∙ ap some (
              checks.goes_on crc got _
              ∙ ap (crc_update crc) (slice_split want (suc m) cursor contents (omega arith) k)))

  pub full_read_lem :
      (off want : ℕ)
      → off + want ≤ length contents
      → full_read read_at off want ≡ some (slice want off contents)
  full_read_lem off want h =
      rw (full_read, reads off want h)
        (ap (λ (z : List ℕ × Option ReadFault). some z.0) (reads off want h))

  module _ (e : Entry) (v : IsAccepted e) (offset : ℕ) where
    abbrev header_bytes : List ℕ
    header_bytes = encode_batch_header crc_update (header_of e) (payload_of e)

    decoded_header :
        decode_batch_header header_bytes
        ≡ some (record {
          batch = header_of e;
          crc = crc_update (crc_update 0 (header_fields (header_of e))) (payload_of e);
        })
    decoded_header =
        decode_batch_header-encode_batch_header crc_update (header_of e) (payload_of e)
          (header_of-IsWritable e v) checks.small

    -- Where the file has a header, Replay goes on behind it.
    batch_at_header :
        (more : List ℕ)
        → drop offset contents ≡ header_bytes ++ more
        → batch_at crc_update read_at (length contents) offset
          ≡ read_batch crc_update read_at (length contents) offset header_bytes (record {
            batch = header_of e;
            crc = crc_update (crc_update 0 (header_fields (header_of e))) (payload_of e);
          })
    unfolding batch_at
    batch_at_header more w =
        let n = length-encode_batch_header crc_update (header_of e) (payload_of e) in
        let long : length contents - offset ≡ 64 + length more =
          sym (length-drop offset contents)
          ∙ ap length w
          ∙ length-append header_bytes more
          ∙ omega (arith, n) in
        let room : ltb (length contents - offset) 64 ≡ false = ge→ltb _ _ (omega (arith, long)) in
        let header : slice 64 offset contents ≡ header_bytes =
          ap (take 64) w
          ∙ take-append_le 64 header_bytes more (omega (arith, n))
          ∙ take-all 64 header_bytes (omega (arith, n)) in
        rw (room, full_read_lem offset 64 (omega (arith, long)), header, decoded_header)
          (ap
            (λ h. read_batch crc_update read_at (length contents) offset h (record {
              batch = header_of e;
              crc = crc_update (crc_update 0 (header_fields (header_of e))) (payload_of e);
            }))
            header)

    -- The bytes behind the header.
    behind_header :
        (more : List ℕ)
        → drop offset contents ≡ header_bytes ++ more
        → drop (offset + 64) contents ≡ more
    behind_header more w =
        sym (drop-drop 64 offset contents)
        ∙ ap (drop 64) w
        ∙ drop_whole header_bytes more 64
            (length-encode_batch_header crc_update (header_of e) (payload_of e))

    -- A whole batch behind its header.
    read_batch_lem :
        (more : List ℕ)
        → drop (offset + 64) contents ≡ payload_of e ++ more
        → read_batch crc_update read_at (length contents) offset header_bytes (record {
          batch = header_of e;
          crc = crc_update (crc_update 0 (header_fields (header_of e))) (payload_of e);
        })
          ≡ found (placed_batch e offset) (offset + 64 + length (payload_of e))
    unfolding read_batch
    read_batch_lem more w =
        let payload = payload_of e in
        let size = payload_size e v in
        let long : length contents - (offset + 64) ≡ length payload + length more =
          sym (length-drop (offset + 64) contents) ∙ ap length w ∙ length-append payload more in
        let inside : offset + 64 + length payload ≤ length contents = omega (arith, long, size.2) in
        let small : ltb maximum_batch_payload (length payload) ≡ false = ge→ltb _ _ size.1 in
        let room : ltb (length contents - (offset + 64)) (length payload) ≡ false =
          ge→ltb _ _ (omega (arith, long)) in
        let bytes : slice (length payload) (offset + 64) contents ≡ payload =
          ap (take (length payload)) w ∙ take_whole payload more (length payload) refl in
        let crc : payload_crc crc_update read_at (length payload)
              (crc_update 0 (take 56 header_bytes)) (offset + 64) (length payload)
            ≡ some (crc_update (crc_update 0 (header_fields (header_of e))) payload) =
          payload_crc_lem (length payload) _ (offset + 64) (length payload) (checks.small 0 _)
            (omega arith) inside
          ∙ ap₂ (λ fields bs. some (crc_update (crc_update 0 fields) bs))
              (take-encode_batch_header crc_update (header_of e) payload) bytes in
        let metadata_fits : length e.operations * 24 ≤ length payload =
          omega (arith, length-payload_of e) in
        let served : full_read read_at (offset + 64) (length e.operations * batch_record_size)
            ≡ some (take (length e.operations * batch_record_size) payload) =
          full_read_lem (offset + 64) (length e.operations * 24)
            (omega (arith, inside, metadata_fits))
          ∙ ap some (
              ap (take (length e.operations * 24)) w
              ∙ take-append_le (length e.operations * 24) payload more metadata_fits) in
        let operations =
          decode_batch_operations-encode_batch_payload (full_read read_at) e.first_revision e.group
            (offset + 64) e.operations payload _ v.operations_fit
            (encode_batch_payload-payload_of e v) served in
        rw
          (
            small,
            room,
            crc,
            ==_self (crc_update (crc_update 0 (header_fields (header_of e))) payload),
            operations,
          )
          refl

    -- A part of a batch behind its header.
    read_batch_torn :
        (k : ℕ)
        → drop (offset + 64) contents ≡ take k (payload_of e)
        → k < length (payload_of e)
        → read_batch crc_update read_at (length contents) offset header_bytes (record {
          batch = header_of e;
          crc = crc_update (crc_update 0 (header_fields (header_of e))) (payload_of e);
        })
          ≡ torn
    unfolding read_batch
    read_batch_torn k w cut =
        let long : length contents - (offset + 64) ≡ k =
          sym (length-drop (offset + 64) contents)
          ∙ ap length w
          ∙ length-take k (payload_of e)
          ∙ omega (arith, cut) in
        let small : ltb maximum_batch_payload (length (payload_of e)) ≡ false =
          ge→ltb _ _ (payload_size e v).1 in
        let short : ltb (length contents - (offset + 64)) (length (payload_of e)) ≡ true =
          lt→ltb _ _ (omega (arith, long, cut)) in
        rw (small, short) refl

    pub batch_at_entry :
        (more : List ℕ)
        → drop offset contents ≡ entry_bytes crc_update e ++ more
        → batch_at crc_update read_at (length contents) offset
          ≡ found (placed_batch e offset) (offset + length (entry_bytes crc_update e))
    batch_at_entry more w =
        let n = length-encode_batch_header crc_update (header_of e) (payload_of e) in
        let w' : drop offset contents ≡ header_bytes ++ (payload_of e ++ more) =
          w ∙ append_assoc header_bytes (payload_of e) more in
        let ends : offset + 64 + length (payload_of e)
            ≡ offset + length (entry_bytes crc_update e) =
          omega (arith, length-append header_bytes (payload_of e), n) in
        batch_at_header (payload_of e ++ more) w'
        ∙ read_batch_lem more (behind_header (payload_of e ++ more) w')
        ∙ ap (found (placed_batch e offset)) ends

    pub batch_at_torn :
        (k : ℕ)
        → drop offset contents ≡ take k (entry_bytes crc_update e)
        → k < length (entry_bytes crc_update e)
        → batch_at crc_update read_at (length contents) offset ≡ torn
    unfolding batch_at
    batch_at_torn k w cut =
        let n = length-encode_batch_header crc_update (header_of e) (payload_of e) in
        elim (Bool-cases (ltb k 64)) [
          | inl short ↦
              let long : length contents - offset ≡ k =
                sym (length-drop offset contents)
                ∙ ap length w
                ∙ length-take k (entry_bytes crc_update e)
                ∙ omega (arith, cut) in
              let no_room : ltb (length contents - offset) 64 ≡ true =
                lt→ltb _ _ (omega (arith, long, ltb→lt _ _ short)) in
              rw no_room refl
          | inr long ↦
              let m = k - 64 in
              let past : length header_bytes ≤ k = omega (arith, n, ltb→ge _ _ long) in
              let left : k - length header_bytes ≡ m = omega (arith, n) in
              let w' : drop offset contents ≡ header_bytes ++ take m (payload_of e) =
                w
                ∙ take-append_ge k header_bytes (payload_of e) past
                ∙ ap (λ j. header_bytes ++ take j (payload_of e)) left in
              batch_at_header (take m (payload_of e)) w'
              ∙ read_batch_torn m (behind_header (take m (payload_of e)) w')
                  (omega (arith, cut, n, past, length-append header_bytes (payload_of e)))
        ]
