-- ===== src/Journal/Opening.antt =====
-- recovery/journal.go: the file header is read back, and openJournal recovers what the journal holds.
use docengine.Prelude.{
  subst, ℕ, ◌+◌, ◌≤◌, ◌<◌, ◌≡◌, refl, sym, ap, ◌∙◌, true, false, ◌==◌, ==_self, ltb, ge→ltb, List,
  [], ◌∷◌, ◌++◌, append_assoc, some, arith, length, take, drop, drop-drop, slice, length-append,
  All, ℤ, pos, is_negative, to_ℕ, max_int64, Source, Result, ok,
}
use docengine.Journal.Bytes.{put_le, get_le, le_limit, get_le-put_le, length-put_le}
use docengine.Journal.Header.{field, same_bytes}
use docengine.Journal.File.{
  FileFaults, JournalError, Fingerprint, file_header_size, fingerprint_fields, file_header,
  is_file_header, is_sound_header, read_file_header, full_read,
}
use docengine.Journal.Replay.{open_journal, is_same_fingerprint}
use docengine.Journal.Entries.{Entry, IsAccepted, entry_bytes}
use docengine.Journal.Recovery.{Reads, IsChecksum, full_read_lem, drop_whole, take_whole}
use docengine.Journal.Recovered.{entries_bytes, recovered, replay_lem}

-- A fingerprint as Go holds it: the size of a file, and two hashes of 32 bytes.
pub record IsFingerprint (f : Fingerprint) : Type 0 where
  pub size : ℕ
  pub sized : f.base_size ≡ pos size
  pub size_fits : size ≤ max_int64
  pub path_hash_length : length f.path_hash ≡ 32
  pub content_hash_length : length f.content_hash ≡ 32

same_bytes_self : (xs : List ℕ) → same_bytes xs xs ≡ true
unfolding same_bytes
same_bytes_self [] = refl
same_bytes_self (x ∷ xs) = rw (==_self x, same_bytes_self xs)

nonzero : (n : ℕ) → 0 < n → (n == 0) ≡ false
nonzero n h = ground (arith, h)

same_fingerprint :
    {a a' : ℤ} {b b' c c' : List ℕ}
    → a ≡ a'
    → b ≡ b'
    → c ≡ c'
    → ◌≡◌ {A = Result JournalError Fingerprint}
        (ok (record { base_size = a; path_hash = b; content_hash = c }))
        (ok (record { base_size = a'; path_hash = b'; content_hash = c' }))
same_fingerprint e g h = rw (e, g, h)

module _ (crc_update : ℕ → List ℕ → ℕ) (f : Fingerprint) (checks : IsChecksum crc_update)
    (v : IsFingerprint f) where
  crc_bytes : List ℕ
  crc_bytes = put_le 4 (crc_update 0 (fingerprint_fields f))

  behind_size :
      drop 24 (file_header crc_update f)
      ≡ f.path_hash ++ (f.content_hash ++ (put_le 4 0 ++ crc_bytes))
  unfolding file_header fingerprint_fields put_le crc_bytes
  behind_size =
      append_assoc f.path_hash (f.content_hash ++ put_le 4 0) crc_bytes
      ∙ ap (f.path_hash ++◌) (append_assoc f.content_hash (put_le 4 0) crc_bytes)

  behind_path : drop 56 (file_header crc_update f) ≡ f.content_hash ++ (put_le 4 0 ++ crc_bytes)
  behind_path =
      sym (drop-drop 32 24 (file_header crc_update f))
      ∙ ap (drop 32) behind_size
      ∙ drop_whole f.path_hash _ 32 v.path_hash_length

  behind_content : drop 88 (file_header crc_update f) ≡ put_le 4 0 ++ crc_bytes
  behind_content =
      sym (drop-drop 32 56 (file_header crc_update f))
      ∙ ap (drop 32) behind_path
      ∙ drop_whole f.content_hash _ 32 v.content_hash_length

  length-fingerprint_fields : length (fingerprint_fields f) ≡ 92
  unfolding fingerprint_fields put_le
  length-fingerprint_fields = omega (
    arith,
    length-append f.path_hash (f.content_hash ++ put_le 4 0),
    length-append f.content_hash (put_le 4 0),
    v.path_hash_length,
    v.content_hash_length,
  )

  pub length-file_header : length (file_header crc_update f) ≡ 96
  unfolding file_header
  length-file_header = omega (
    arith,
    length-append (fingerprint_fields f) (put_le 4 (crc_update 0 (fingerprint_fields f))),
    length-fingerprint_fields,
    length-put_le 4 (crc_update 0 (fingerprint_fields f)),
  )

  zero_field : field 88 4 (file_header crc_update f) ≡ 0
  unfolding put_le get_le
  zero_field = ap (λ k. get_le (take 4 k)) behind_content

  crc_field : field 92 4 (file_header crc_update f) ≡ crc_update 0 (fingerprint_fields f)
  unfolding put_le le_limit crc_bytes
  crc_field =
      ap (λ k. get_le (take 4 k))
        (sym (drop-drop 4 88 (file_header crc_update f)) ∙ ap (drop 4) behind_content)
      ∙ get_le-put_le 4 (crc_update 0 (fingerprint_fields f))
          (checks.small 0 (fingerprint_fields f))

  checked_bytes : take 92 (file_header crc_update f) ≡ fingerprint_fields f
  unfolding file_header
  checked_bytes = take_whole (fingerprint_fields f) _ 92 length-fingerprint_fields

  header_is_sound : is_sound_header crc_update (file_header crc_update f) ≡ true
  unfolding is_sound_header
  header_is_sound =
      rw (zero_field, crc_field, checked_bytes, ==_self (crc_update 0 (fingerprint_fields f))) refl

  size_field : field 16 8 (file_header crc_update f) ≡ v.size
  unfolding file_header fingerprint_fields put_le le_limit
  size_field =
      let e : to_ℕ f.base_size ≡ v.size = ap to_ℕ v.sized in
      get_le-put_le 8 (to_ℕ f.base_size) (omega (arith, e, v.size_fits)) ∙ e

  header_has_version : is_file_header (file_header crc_update f) ≡ true
  unfolding is_file_header file_header fingerprint_fields same_bytes put_le get_le
  header_has_version = refl

  -- For a checksum that is one and a fingerprint of a file, the header that is written for it is
  -- read back as that fingerprint from a file that starts with it.
  pub read_file_header-file_header :
      (read_at : Source) (more : List ℕ)
      → Reads read_at (file_header crc_update f ++ more)
      → read_file_header crc_update read_at ≡ ok f
  unfolding read_file_header
  read_file_header-file_header read_at more reads =
      let header = file_header crc_update f in
      let inside : 0 + 96 ≤ length (header ++ more) =
        omega (arith, length-append header more, length-file_header) in
      let got : full_read read_at 0 96 ≡ some header =
        full_read_lem crc_update read_at (header ++ more) checks reads 0 96 inside
        ∙ ap some (take_whole header more 96 length-file_header) in
      let fits : ltb max_int64 (field 16 8 header) ≡ false =
        ge→ltb _ _ (omega (arith, size_field, v.size_fits)) in
      let path : slice 32 24 header ≡ f.path_hash =
        ap (take 32) behind_size ∙ take_whole f.path_hash _ 32 v.path_hash_length in
      let content : slice 32 56 header ≡ f.content_hash =
        ap (take 32) behind_path ∙ take_whole f.content_hash _ 32 v.content_hash_length in
      let size : pos (field 16 8 header) ≡ f.base_size = ap pos size_field ∙ sym v.sized in
      rw (read_file_header, got, header_has_version, header_is_sound, fits)
        (same_fingerprint size path content)

  fingerprint_matches : is_same_fingerprint f f ≡ true
  fingerprint_matches =
      let e : is_negative f.base_size ≡ false = ap is_negative v.sized in
      rw
        (e, ==_self (to_ℕ f.base_size), same_bytes_self f.path_hash, same_bytes_self f.content_hash)

  -- For a checksum that is one and a fingerprint of a file, opening a file that holds this
  -- fingerprint's header, batches that AppendBatch accepted, and a proper part of one more,
  -- recovers exactly the whole batches, with their operations where they are in the file, and
  -- reports where they end and whether anything was cut off.
  pub open_journal_lem :
      (read_at : Source) (faults : FileFaults) (es : List Entry) (last : Entry) (k : ℕ)
      (contents : List ℕ)
      → contents
        ≡ file_header crc_update f
          ++ (entries_bytes crc_update es ++ take k (entry_bytes crc_update last))
      → Reads read_at contents
      → All IsAccepted es
      → IsAccepted last
      → k < length (entry_bytes crc_update last)
      → open_journal crc_update read_at faults false f contents
        ≡ ok (
          record { closed = false; contents = contents },
          recovered crc_update file_header_size es k,
        )
  unfolding open_journal
  open_journal_lem read_at faults es last k contents w reads a accepted cut =
      let e : is_negative f.base_size ≡ false = ap is_negative v.sized in
      let more = entries_bytes crc_update es ++ take k (entry_bytes crc_update last) in
      let some_bytes : (length contents == 0) ≡ false = nonzero _ (
        omega (
          arith,
          ap length w,
          length-append (file_header crc_update f) more,
          length-file_header,
        )) in
      let header = read_file_header-file_header read_at more (subst (Reads read_at) w reads) in
      let replayed =
        replay_lem crc_update read_at (record { closed = false; contents = contents })
          (file_header crc_update f) es last k checks reads a accepted cut length-file_header w
          refl in
      rw (e, some_bytes, header, fingerprint_matches, replayed) refl
