-- ===== src/Journal/Appended.antt =====
-- recovery/journal.go: what AppendBatch leaves in the file, whatever its writes do.
use docengine.Prelude.{
  skipped, Written, ok-injective, subst, ◌≢◌, ℕ, ◌+◌, ◌*◌, ◌≤◌, min, ◌≡◌, refl, sym, ap, ◌∙◌, ◌⊎◌,
  inl, inr, true, false, not, ◌&&◌, ◌==◌, Bool-cases, List, ◌++◌, map, append_assoc, arith, length,
  take, take-append_le, take-append_add, take-all, take-min, length-append, Result, ok, err,
}
use docengine.Journal.Header.{BatchHeader, encode_batch_header}
use docengine.Journal.Payload.{Operation, batch_record_size, relative_offsets}
use docengine.Journal.Operations.{placed-relative_offsets}
use docengine.Journal.File.{
  FileFaults, JournalFile, JournalError, BatchAppendResult, is_short, write_error, rolled_back,
  append_bytes, append_result, append_batch, file_failed,
}
use docengine.Journal.Entries.{
  Entry, IsAccepted, payload_of, header_of, entry_bytes, encode_batch_payload-payload_of,
  length-encode_batch_header,
}
use docengine.Journal.Recovery.{placed_batch}

-- The bytes behind a failed append: the file as it was, or, where it cannot be cut back, more of the batch.
abbrev pub Left : FileFaults → List ℕ → List ℕ → List ℕ → Type 0
Left faults contents bytes now =
    (now ≡ contents)
    ⊎ ((faults.truncate_fails ≡ true)
        × ((k : ℕ) × (k ≤ length bytes) × (now ≡ contents ++ take k bytes)))

-- What appendBatch may do.
abbrev pub Appends : FileFaults → List ℕ → List ℕ → Result JournalError (ℕ × ℕ) × List ℕ → Type 0
Appends faults contents bytes z =
    ((z.0 ≡ ok (length contents, length contents + 64)) × (z.1 ≡ contents ++ bytes))
    ⊎ ((x : JournalError) × (z.0 ≡ err x) × Left faults contents bytes z.1)

rolled_back_lem :
    (faults : FileFaults) (contents bytes now : List ℕ) (k : ℕ)
    → now ≡ contents ++ take k bytes
    → Left faults contents bytes (rolled_back faults contents now)
rolled_back_lem faults contents bytes now k h = elim (Bool-cases faults.truncate_fails) [
  | inr f ↦ inl (rw f refl)
  | inl f ↦
      inr (f, (min k (length bytes), omega arith, rw f (h ∙ ap (contents ++◌) (take-min k bytes))))
]

written_whole : (w : Written) (n : ℕ) → is_short w n ≡ false → w.count ≡ n
written_whole w n h = ground arith

payload_whole :
    (w : Written) (payload : List ℕ)
    → (not (length payload == 0) && is_short w (length payload)) ≡ false
    → length payload ≤ w.count
payload_whole w payload h = ground arith

append_bytes_lem :
    (crc_update : ℕ → List ℕ → ℕ) (faults : FileFaults) (b : BatchHeader)
    (payload contents : List ℕ)
    → Appends faults contents
        (encode_batch_header crc_update b payload ++ payload)
        (append_bytes crc_update faults b payload contents)
unfolding append_bytes
append_bytes_lem crc_update faults b payload contents =
    let header = encode_batch_header crc_update b payload in
    let w1 = faults.first_write in
    let w2 = faults.second_write in
    elim (Bool-cases faults.seek_fails) [
      | inl f ↦ rw f (inr (file_failed, refl, inl refl))
      | inr f ↦ elim (Bool-cases (is_short w1 (length header))) [
        | inl g ↦
            let part : take w1.count header
                ≡ take (min w1.count (length header)) (header ++ payload) =
              take-min w1.count header
              ∙ sym (take-append_le (min w1.count (length header)) header payload (omega arith)) in
            rw (f, g)
              (inr (
                write_error w1,
                refl,
                rolled_back_lem faults contents (header ++ payload) _ (min w1.count (length header))
                    (ap (contents ++◌) part),
              ))
        | inr g ↦
            let whole : take w1.count header ≡ header =
              take-all w1.count header (omega (arith, written_whole w1 (length header) g)) in
            let both : (contents ++ take w1.count header) ++ take w2.count payload
                ≡ contents ++ (header ++ take w2.count payload) =
              ap (λ h. (contents ++ h) ++ take w2.count payload) whole
              ∙ append_assoc contents header (take w2.count payload) in
            elim (Bool-cases (not (length payload == 0) && is_short w2 (length payload))) [
              | inl h ↦
                  rw (f, g, h)
                    (inr (
                      write_error w2,
                      refl,
                      rolled_back_lem faults contents (header ++ payload) _
                          (length header + w2.count)
                          (both
                            ∙ ap (contents ++◌) (sym (take-append_add header payload w2.count))),
                    ))
              | inr h ↦
                  let all = take-all w2.count payload (payload_whole w2 payload h) in
                  rw (f, g, h) (inl (refl, both ∙ ap (λ p. contents ++ (header ++ p)) all))
            ]
      ]
    ]

-- What AppendBatch of an entry may do to a file: it appends the entry's bytes, or fails.
abbrev pub AppendsEntry :
    (ℕ → List ℕ → ℕ)
    → FileFaults
    → List ℕ
    → Entry
    → Result JournalError BatchAppendResult × JournalFile
    → Type 0
AppendsEntry crc_update faults contents e z =
    ((r : BatchAppendResult) × (z.0 ≡ ok r)
      × (z.1.contents ≡ contents ++ entry_bytes crc_update e)
      × (r.batch_offset ≡ length contents)
      × (r.payload_offsets
          ≡ map (λ (o : Operation). o.payload_offset) (placed_batch e (length contents)).operations)
      × (r.end_offset ≡ length z.1.contents))
    ⊎ ((x : JournalError) × (z.0 ≡ err x)
        × Left faults contents (entry_bytes crc_update e) z.1.contents)

err_not_ok :
    {A : Type 0} (x : JournalError) (a : A) → ◌≢◌ {A = Result JournalError A} (err x) (ok a)
err_not_ok x a h = cc

append_result_lem :
    (crc_update : ℕ → List ℕ → ℕ) (faults : FileFaults) (j : JournalFile) (e : Entry)
    (z : Result JournalError (ℕ × ℕ) × List ℕ)
    → Appends faults j.contents (entry_bytes crc_update e) z
    → AppendsEntry crc_update faults j.contents e (
        append_result j
          (relative_offsets (length e.operations * batch_record_size) e.operations)
          (length (payload_of e))
          z)
append_result_lem crc_update faults j e (err x, contents) (inl h) = absurd (err_not_ok _ _ h.0)
append_result_lem crc_update faults j e (err x, contents) (inr h) = inr (x, refl, h.2)
append_result_lem crc_update faults j e (ok (batch_offset, payload_offset), contents) (inr h) =
    absurd (err_not_ok _ _ (sym h.1))
append_result_lem crc_update faults j e (ok (batch_offset, payload_offset), contents) (inl h) =
    let same = ok-injective h.0 in
    let start : batch_offset ≡ length j.contents = ap (λ (p : ℕ × ℕ). p.0) same in
    let behind : payload_offset ≡ length j.contents + 64 = ap (λ (p : ℕ × ℕ). p.1) same in
    let cursor = length e.operations * batch_record_size in
    inl (
      _,
      refl,
      h.1,
      start,
      ap (λ k. map (k +◌) (relative_offsets cursor e.operations)) behind
          ∙ sym (placed-relative_offsets (length j.contents + 64) cursor e.operations),
      omega (
        arith,
        behind,
        ap length h.1,
        length-append j.contents (entry_bytes crc_update e),
        length-append (encode_batch_header crc_update (header_of e) (payload_of e)) (payload_of e),
        length-encode_batch_header crc_update (header_of e) (payload_of e),
      ),
    )

-- Whatever the writes to an open journal do, AppendBatch of a batch that it accepts either appends
-- the whole batch to the file, and returns where the batch, its inserted bytes and the file end; or
-- it fails, and the file is as it was or, where the cut back fails too, has a part of the batch
-- appended.
pub append_batch_lem :
    (crc_update : ℕ → List ℕ → ℕ) (faults : FileFaults) (j : JournalFile) (e : Entry)
    → IsAccepted e
    → j.closed ≡ false
    → AppendsEntry crc_update faults j.contents e
        (append_batch crc_update faults j e.first_revision e.group e.operations)
unfolding append_batch
append_batch_lem crc_update faults j e v opened = rw (encode_batch_payload-payload_of e v) (
    subst (AppendsEntry crc_update faults j.contents e) (sym (skipped j.closed _ _ opened)) (
      append_result_lem crc_update faults j e _
        (append_bytes_lem crc_update faults (header_of e) (payload_of e) j.contents)))
