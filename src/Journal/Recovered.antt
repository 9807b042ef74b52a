-- ===== src/Journal/Recovered.antt =====
-- recovery/journal.go: what Replay recovers of a journal.
use docengine.Journal.File.{
  FileFaults, repair_tail, truncated_to, zero_bytes, file_header_size, JournalFile,
}
use docengine.Prelude.{
  ok, pos, append-nil, ℕ, zero, suc, ◌+◌, ◌-◌, ◌≤◌, ◌<◌, ◌≡◌, refl, sym, ap, ◌∙◌, true, false, ltb,
  ltb→lt, ltb→ge, lt→ltb, ge→ltb, Bool-cases, inl, inr, List, [], ◌∷◌, ◌++◌, append_assoc, arith,
  length, take, drop, drop-drop, length-drop, length-append, length-take, All, Source,
}
use docengine.Journal.Replay.{replay, Batch, ReplayResult, with_batch, replay_from}
use docengine.Journal.Entries.{
  Entry, IsAccepted, payload_of, header_of, entry_bytes, length-encode_batch_header,
}
use docengine.Journal.Recovery.{
  Reads, IsChecksum, placed_batch, drop_whole, take_whole, batch_at_entry, batch_at_torn,
}

abbrev pub entries_bytes : (ℕ → List ℕ → ℕ) → List Entry → List ℕ
entries_bytes crc_update [] = []
entries_bytes crc_update (e ∷ es) = entry_bytes crc_update e ++ entries_bytes crc_update es

-- The batches of entries that follow each other in the file.
abbrev pub placed_batches : (ℕ → List ℕ → ℕ) → ℕ → List Entry → List Batch
placed_batches crc_update offset [] = []
placed_batches crc_update offset (e ∷ es) =
    placed_batch e offset
    ∷ placed_batches crc_update (offset + length (entry_bytes crc_update e)) es

abbrev pub recovered : (ℕ → List ℕ → ℕ) → ℕ → List Entry → ℕ → ReplayResult
recovered crc_update offset es k = record {
  batches = placed_batches crc_update offset es;
  valid_bytes = offset + length (entries_bytes crc_update es);
  truncated = ltb 0 k;
}

some_bytes : (crc_update : ℕ → List ℕ → ℕ) (e : Entry) → 64 ≤ length (entry_bytes crc_update e)
some_bytes crc_update e = omega (
  arith,
  length-append _ (payload_of e),
  length-encode_batch_header crc_update (header_of e) (payload_of e),
)

module _ (crc_update : ℕ → List ℕ → ℕ) (read_at : Source) (contents : List ℕ)
    (checks : IsChecksum crc_update) (reads : Reads read_at contents) (last : Entry)
    (v : IsAccepted last) (k : ℕ) (cut : k < length (entry_bytes crc_update last)) where
  cut_length :
      (offset : ℕ)
      → drop offset contents ≡ take k (entry_bytes crc_update last)
      → length contents - offset ≡ k
  cut_length offset w =
      sym (length-drop offset contents) ∙ ap length w ∙ length-take k _ ∙ omega (arith, cut)

  replay_end_lem :
      (fuel offset : ℕ)
      → drop offset contents ≡ take k (entry_bytes crc_update last)
      → offset ≤ length contents
      → length contents - offset ≤ fuel
      → replay_from crc_update read_at (length contents) fuel offset
        ≡ (recovered crc_update offset [] k, false)
  unfolding replay_from
  replay_end_lem zero offset w inside enough =
      let left = cut_length offset w in
      let z : offset + 0 ≡ offset = omega arith in
      let at_end : ltb offset (length contents) ≡ false = ge→ltb _ _ (omega (arith, enough)) in
      let nothing : ltb 0 k ≡ false = ge→ltb _ _ (omega (arith, left, enough)) in
      rw (at_end, nothing, z) refl
  replay_end_lem (suc fuel) offset w inside enough =
      let left = cut_length offset w in
      let z : offset + 0 ≡ offset = omega arith in
      elim (Bool-cases (ltb offset (length contents))) [
        | inr f ↦
            let nothing : ltb 0 k ≡ false = ge→ltb _ _ (omega (arith, left, ltb→ge _ _ f)) in
            rw (f, nothing, z) refl
        | inl f ↦
            let rest : ltb 0 k ≡ true = lt→ltb _ _ (omega (arith, left, ltb→lt _ _ f)) in
            let found_torn =
              batch_at_torn crc_update read_at contents checks reads last v offset k w cut in
            rw (f, rest, z, found_torn) refl
      ]

  whole_length :
      (offset : ℕ) (e : Entry) (es : List Entry)
      → drop offset contents
        ≡ entries_bytes crc_update (e ∷ es) ++ take k (entry_bytes crc_update last)
      → length (entry_bytes crc_update e) ≤ length contents - offset
  whole_length offset e es w = omega (
    arith,
    sym (length-drop offset contents) ∙ ap length w,
    length-append (entries_bytes crc_update (e ∷ es)) (take k (entry_bytes crc_update last)),
    length-append (entry_bytes crc_update e) (entries_bytes crc_update es),
  )

  replay_from_lem :
      (fuel offset : ℕ) (es : List Entry)
      → All IsAccepted es
      → drop offset contents ≡ entries_bytes crc_update es ++ take k (entry_bytes crc_update last)
      → offset ≤ length contents
      → length contents - offset ≤ fuel
      → replay_from crc_update read_at (length contents) fuel offset
        ≡ (recovered crc_update offset es k, false)
  unfolding replay_from
  replay_from_lem fuel offset [] a w inside enough = replay_end_lem fuel offset w inside enough
  replay_from_lem zero offset (e ∷ es) a w inside enough =
      absurd (omega (arith, whole_length offset e es w, some_bytes crc_update e, enough))
  replay_from_lem (suc fuel) offset (e ∷ es) a w inside enough =
      let n = length (entry_bytes crc_update e) in
      let rest = entries_bytes crc_update es ++ take k (entry_bytes crc_update last) in
      let w' : drop offset contents ≡ entry_bytes crc_update e ++ rest =
        w ∙ append_assoc (entry_bytes crc_update e) (entries_bytes crc_update es) _ in
      let long = whole_length offset e es w in
      let more = some_bytes crc_update e in
      let going : ltb offset (length contents) ≡ true = lt→ltb _ _ (omega (arith, long, more)) in
      let behind : drop (offset + n) contents ≡ rest =
        sym (drop-drop n offset contents)
        ∙ ap (drop n) w'
        ∙ drop_whole (entry_bytes crc_update e) rest n refl in
      let ih =
        replay_from_lem fuel (offset + n) es a.1 behind (omega (arith, long, more))
          (omega (arith, enough, more)) in
      let ends : offset + n + length (entries_bytes crc_update es)
          ≡ offset + length (entries_bytes crc_update (e ∷ es)) =
        omega (arith, length-append (entry_bytes crc_update e) (entries_bytes crc_update es)) in
      rw (going, batch_at_entry crc_update read_at contents checks reads e a.0 offset rest w')
        (ap (with_batch (placed_batch e offset)) ih
          ∙ ap
              (λ m. (
                record {
                  batches = placed_batches crc_update offset (e ∷ es);
                  valid_bytes = m;
                  truncated = ltb 0 k;
                },
                false,
              ))
              ends)

-- Replay of a journal that a crash has cut off.
pub replay_lem :
    (crc_update : ℕ → List ℕ → ℕ) (read_at : Source) (j : JournalFile) (header : List ℕ)
    (es : List Entry) (last : Entry) (k : ℕ)
    → IsChecksum crc_update
    → Reads read_at j.contents
    → All IsAccepted es
    → IsAccepted last
    → k < length (entry_bytes crc_update last)
    → length header ≡ file_header_size
    → j.contents ≡ header ++ (entries_bytes crc_update es ++ take k (entry_bytes crc_update last))
    → j.closed ≡ false
    → replay crc_update read_at false j ≡ ok (recovered crc_update file_header_size es k, false)
unfolding replay
replay_lem crc_update read_at j header es last k checks reads a v cut n w opened =
    let more = entries_bytes crc_update es ++ take k (entry_bytes crc_update last) in
    let inside : file_header_size ≤ length j.contents =
      omega (arith, ap length w, length-append header more, n) in
    rw opened (
      ap ok (
        replay_from_lem crc_update read_at j.contents checks reads last v k cut (length j.contents)
          file_header_size es a
          (ap (drop file_header_size) w ∙ drop_whole header more file_header_size n) inside
          (omega arith)))

-- A repair that cuts where the whole batches end.
repair_tail_whole :
    (crc_update : ℕ → List ℕ → ℕ) (faults : FileFaults) (j : JournalFile) (header : List ℕ)
    (es : List Entry) (more : List ℕ) (k : ℕ)
    → length header ≡ file_header_size
    → j.contents ≡ header ++ (entries_bytes crc_update es ++ more)
    → j.closed ≡ false
    → faults.truncate_fails ≡ false
    → repair_tail faults j (pos (recovered crc_update file_header_size es k).valid_bytes)
      ≡ (ok tt, record j { contents = header ++ entries_bytes crc_update es })
unfolding repair_tail truncated_to zero_bytes
repair_tail_whole crc_update faults j header es more k n w opened cuts =
    let kept = header ++ entries_bytes crc_update es in
    let size = file_header_size + length (entries_bytes crc_update es) in
    let whole : length kept ≡ size =
      omega (arith, length-append header (entries_bytes crc_update es), n) in
    let w' : j.contents ≡ kept ++ more = w ∙ sym (append_assoc header _ more) in
    let valid : ltb size file_header_size ≡ false = ge→ltb _ _ (omega arith) in
    let no_zeros : size - length j.contents ≡ 0 =
      omega (arith, ap length w', length-append kept more, whole) in
    let cut : take size j.contents ≡ kept = ap (take size) w' ∙ take_whole kept more size whole in
    rw (opened, valid, cuts, cut, no_zeros)
      (ap (λ c. (ok tt, record { closed = false; contents = c })) (append-nil kept))

-- What Replay and RepairTail do to a journal that a crash has cut off: `j` before, `header` its file
-- header, and `read_after` the reads of it behind the repair.
pub record Repairs (crc_update : ℕ → List ℕ → ℕ) (read_at read_after : Source) (faults : FileFaults)
    (j : JournalFile) (header : List ℕ) (es : List Entry) : Type 0 where
  pub found : ReplayResult
  pub replayed : replay crc_update read_at false j ≡ ok (found, false)
  pub batches : found.batches ≡ placed_batches crc_update file_header_size es
  pub repaired :
      repair_tail faults j (pos found.valid_bytes)
      ≡ (ok tt, record j { contents = header ++ entries_bytes crc_update es })
  pub again :
      replay crc_update read_after false (repair_tail faults j (pos found.valid_bytes)).1
      ≡ ok (record found { truncated = false }, false)

-- For a checksum that is one and an open journal that holds a header, batches that AppendBatch
-- accepted, and a proper part of one more, where Truncate does not fail: Replay reports the whole
-- batches; RepairTail to the valid bytes that it reports leaves exactly the header and these
-- batches; and Replay of the journal so repaired reports the same batches and valid bytes, and
-- nothing cut off.
pub repair_tail_lem :
    (crc_update : ℕ → List ℕ → ℕ) (read_at read_after : Source) (faults : FileFaults)
    (j : JournalFile) (header : List ℕ) (es : List Entry) (last : Entry) (k : ℕ)
    → IsChecksum crc_update
    → Reads read_at j.contents
    → Reads read_after (header ++ entries_bytes crc_update es)
    → All IsAccepted es
    → IsAccepted last
    → k < length (entry_bytes crc_update last)
    → length header ≡ file_header_size
    → j.contents ≡ header ++ (entries_bytes crc_update es ++ take k (entry_bytes crc_update last))
    → j.closed ≡ false
    → faults.truncate_fails ≡ false
    → Repairs crc_update read_at read_after faults j header es
repair_tail_lem crc_update read_at read_after faults j header es last k checks reads reads_after a v
      cut n w opened cuts =
    let kept = header ++ entries_bytes crc_update es in
    let cut_off =
      repair_tail_whole crc_update faults j header es (take k (entry_bytes crc_update last)) k n w
        opened cuts in
    let whole : kept ≡ header ++ (entries_bytes crc_update es ++ []) =
      ap (header ++◌) (sym (append-nil (entries_bytes crc_update es))) in
    let again =
      replay_lem crc_update read_after (record j { contents = kept }) header es last 0 checks
        reads_after a v (omega (arith, some_bytes crc_update last)) n whole opened in
    record {
      found = recovered crc_update file_header_size es k;
      replayed = replay_lem crc_update read_at j header es last k checks reads a v cut n w opened;
      batches = refl;
      repaired = cut_off;
      again = ap (λ z. replay crc_update read_after false z.1) cut_off ∙ again;
    }
