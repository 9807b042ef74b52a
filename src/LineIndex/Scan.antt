-- ===== src/LineIndex/Scan.antt =====
-- document/coordinate/index.go: the scan that places the checkpoints, and Build, for a context that is
-- not canceled. `len` is the length that the source reports.
use docengine.Prelude.{
  Source, read_stops, ℕ, zero, suc, ◌+◌, ◌-◌, min, Bool, true, false, not, ◌&&◌, ltb, leb, ◌==◌,
  if◌then◌else◌, List, [], ◌∷◌, ◌++◌, Option, length, ℤ, is_negative, to_ℕ, Result, ok, err, ◌>>=◌,
  ◌>>◌, fail_if,
}
use docengine.LineIndex.Utf8.{decode, incomplete, invalid, rune}
use docengine.LineIndex.State.{
  Index, IndexError, IndexOptions, Checkpoint, start_checkpoint, next_checkpoint_after,
  resolve_index_options, invalid_source, invalid_utf8, source_inconsistent, read_failed,
  unexpected_eof,
}

abbrev pub build_read_buffer_size : ℕ
build_read_buffer_size = 65536

-- The scan's state, the next place for a checkpoint, and the checkpoints so far. The code sets the
-- byte offset of the state only where it places a checkpoint, and at the end.
pub record ScanState : Type 0 where
  pub state : Checkpoint
  pub next_checkpoint : ℕ
  pub checkpoints : List Checkpoint

abbrev pub put_checkpoint : ℕ → ℕ → ScanState → ScanState
put_checkpoint block absolute s =
    let c = record s.state { byte_offset = absolute } in
    record {
      state = c;
      next_checkpoint = next_checkpoint_after absolute block;
      checkpoints = s.checkpoints ++ c ∷ [];
    }

abbrev pub counted_rune : ℕ → Checkpoint → Checkpoint
counted_rune r c = record c {
  rune_offset = c.rune_offset + 1;
  line = if r == 10 then c.line + 1 else c.line;
  column = if r == 10 then 0 else c.column + 1;
}

-- The body of the inner loop at a rune.
unfoldable pub scan_rune : ℕ → ℕ → ℕ → ScanState → ScanState
scan_rune block absolute r s =
    let s' = if leb s.next_checkpoint absolute then put_checkpoint block absolute s else s in
    record s' { state = counted_rune r s'.state }

-- The inner loop over the bytes at hand, the first at `absolute`; `skip` counts the bytes of the
-- current rune that are still to be passed. It returns the bytes that end in the middle of a rune.
unfoldable pub scan_data : ℕ → ℕ → ℕ → ScanState → List ℕ → Result IndexError (ScanState × List ℕ)
scan_data block absolute skip s [] = ok (s, [])
scan_data block absolute zero s (b ∷ bs) = elim (decode (b ∷ bs)) [
  | incomplete ↦ ok (s, b ∷ bs)
  | invalid ↦ err invalid_utf8
  | rune r n ↦ scan_data block (absolute + 1) (n - 1) (scan_rune block absolute r s) bs
]
scan_data block absolute (suc skip) s (b ∷ bs) = scan_data block (absolute + 1) skip s bs

abbrev pub is_pending : List ℕ → Bool
is_pending [] = false
is_pending (b ∷ bs) = true

unfoldable pub scan_end_check : ℕ → ℕ → List ℕ → ScanState → Result IndexError ScanState
scan_end_check len scan_end pending s = do
  fail_if (is_pending pending) (if scan_end == len then invalid_utf8 else source_inconsistent)
  ok (record s { state = record s.state { byte_offset = scan_end } })

-- The outer loop over the reads, which go on at `read_offset`; each round that goes on has read at
-- least one byte, so as many rounds as bytes are enough.
unfoldable pub scan_reads :
    Source → ℕ → ℕ → ℕ → ℕ → ℕ → List ℕ → ScanState → Result IndexError ScanState
scan_reads read_at block len zero read_offset scan_end pending s =
    if ltb read_offset scan_end then err unexpected_eof else scan_end_check len scan_end pending s
scan_reads read_at block len (suc fuel) read_offset scan_end pending s =
    let want = min build_read_buffer_size (scan_end - read_offset) in
    let r = read_at read_offset want in
    let n = length r.0 in
    let scanned = scan_data block (read_offset - length pending) 0 s (pending ++ r.0) in
    if not (ltb read_offset scan_end)
    then scan_end_check len scan_end pending s
    else if ltb want n
    then err source_inconsistent
    else elim scanned [
      | err x ↦ err x
      | ok (s', pending') ↦
          if read_stops r.1 (read_offset + n == scan_end && scan_end == len)
          then err read_failed
          else if n == 0 && ltb (read_offset + n) scan_end
          then err unexpected_eof
          else scan_reads read_at block len fuel (read_offset + n) scan_end pending' s'
    ]

unfoldable pub scan_segment :
    Source → ℕ → ℕ → List Checkpoint → Checkpoint → ℕ → ℕ → Result IndexError ScanState
scan_segment read_at block len checkpoints state scan_start scan_end =
    scan_reads read_at block len (scan_end - scan_start) scan_start scan_end [] (record {
      state = state;
      next_checkpoint = next_checkpoint_after scan_start block;
      checkpoints = checkpoints;
    })

-- The last checkpoint gives way to one at the same place.
unfoldable pub put_last : List Checkpoint → Checkpoint → List Checkpoint
put_last [] c = c ∷ []
put_last (d ∷ []) c = if d.byte_offset == c.byte_offset then c ∷ [] else d ∷ c ∷ []
put_last (d ∷ e ∷ ds) c = d ∷ put_last (e ∷ ds) c

unfoldable pub finish_scan : Index → ScanState → ℕ → Index
finish_scan i s scan_start =
    let end = record s.state { byte_offset = i.byte_length } in
    record i {
      checkpoints = put_last s.checkpoints end;
      rune_count = end.rune_offset;
      line_count = end.line + 1;
      scanned_bytes = i.byte_length - scan_start;
    }

-- The index of build before its scan.
abbrev pub unscanned : Bool → ℕ → ℕ → ℕ → ℕ → Option ℕ → Index
unscanned owned revision len block cache_bytes lineage = record {
  owned = owned;
  closed = false;
  revision = revision;
  byte_length = len;
  rune_count = 0;
  line_count = 0;
  checkpoint_bytes = block;
  checkpoints = start_checkpoint ∷ [];
  reused = 0;
  reused_prefix = 0;
  reused_suffix = 0;
  scanned_bytes = 0;
  lineage = lineage;
  cache = [];
  cache_bytes = 0;
  max_cache_bytes = cache_bytes;
  cache_hits = 0;
  cache_misses = 0;
}

unfoldable pub build : Source → ℤ → Bool → ℕ → IndexOptions → Result IndexError Index
build read_at len owned revision options = do
  fail_if (is_negative len) invalid_source
  sizes ← resolve_index_options options
  let i = unscanned owned revision (to_ℕ len) sizes.0 sizes.1 options.lineage
  s ← scan_segment read_at sizes.0 (to_ℕ len) i.checkpoints start_checkpoint 0 (to_ℕ len)
  ok (finish_scan i s 0)

-- The result, and whether the source is closed: not where the index owns it.
abbrev pub owned_result : Result IndexError Index → Result IndexError Index × Bool
owned_result (ok i) = (ok i, false)
owned_result (err x) = (err x, true)

unfoldable pub build_owned : Source → ℤ → ℕ → IndexOptions → Result IndexError Index × Bool
build_owned read_at len revision options = owned_result (build read_at len true revision options)
