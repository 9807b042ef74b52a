-- ===== src/LineIndex/Built.antt =====
-- document/coordinate/index.go: Build of a valid text makes the index of that text.
use docengine.Prelude.{
  Holds, Source, ℕ, ◌+◌, ◌≤◌, ◌<◌, ◌≡◌, refl, sym, ap, ◌∙◌, subst, inl, inr, true, false, Bool,
  ◌==◌, ==→eq, Bool-cases, List, [], ◌∷◌, ok, arith, length, max_int64, pos,
}
use docengine.LineIndex.State.{
  Index, Checkpoint, IndexOptions, start_checkpoint, resolve_index_options,
  maximum_checkpoint_bytes, maximum_cache_bytes,
}
use docengine.LineIndex.Scan.{ScanState, scan_segment, put_last, finish_scan, unscanned, build}
use docengine.LineIndex.Runes.{Reaches, here}
use docengine.LineIndex.Boundaries.{Reaches-same}
use docengine.LineIndex.Windows.{IsCacheOf}
use docengine.LineIndex.Answers.{Spaced, IsIndexOf}
use docengine.LineIndex.Chunks.{SpacedTo, IsAt, IsAt-Reaches, at_offset, next_checkpoint_near}
use docengine.LineIndex.Reads.{Complete, scan_reads_lem}

abbrev pub Closes : List ℕ → ℕ → Checkpoint → List Checkpoint → Type 0
Closes text block c result =
    (rest : List Checkpoint) × (result ≡ c ∷ rest) × Spaced text block c rest

-- The end of the text as the last checkpoint.
pub put_last_lem :
    (text : List ℕ) (block : ℕ) (c : Checkpoint) (ds : List Checkpoint) (last f : Checkpoint)
    → SpacedTo text block c ds last
    → Reaches text last f
    → f.byte_offset ≤ last.byte_offset + (block + 4)
    → f.byte_offset ≡ length text
    → Closes text block c (put_last (c ∷ ds) f)
unfolding put_last
put_last_lem text block c [] last f s r near at_end =
    let r' = subst (λ k. Reaches text k f) (sym s) r in
    let near' =
      subst (λ (k : Checkpoint). f.byte_offset ≤ k.byte_offset + (block + 4)) (sym s) near in
    elim (Bool-cases (c.byte_offset == f.byte_offset)) [
      | inl h ↦
          let same = ==→eq _ _ h in
          rw h ([], ap (λ k. k ∷ []) (sym (Reaches-same r' (omega (arith, same)))), same ∙ at_end)
      | inr h ↦ rw h (f ∷ [], refl, (r', near', at_end))
    ]
put_last_lem text block c (d ∷ ds) last f s r near at_end =
    let (rest, e, t) = put_last_lem text block d ds last f s.2 r near at_end in
    (d ∷ rest, ap (c ∷◌) e, (s.0, s.1, t))

module _ (read_at : Source) (text : List ℕ) (block : ℕ) (e : Checkpoint) (some_block : 0 < block)
    (fits : e.byte_offset ≤ max_int64) (valid : Reaches text start_checkpoint e)
    (inside : e.byte_offset ≤ length text) (holds : Holds read_at text) where
  -- A scan from a checkpoint to a later boundary.
  pub scan_segment_lem :
      (rest : List Checkpoint) (c : Checkpoint)
      → SpacedTo text block start_checkpoint rest c
      → c.byte_offset ≤ e.byte_offset
      → Complete read_at text block e some_block fits valid inside holds (
          scan_segment read_at block
            (length text)
            (start_checkpoint ∷ rest)
            c
            c.byte_offset
            e.byte_offset)
  unfolding scan_segment
  scan_segment_lem rest c s less =
      let near = next_checkpoint_near c.byte_offset block some_block (omega (arith, less, fits)) in
      scan_reads_lem read_at text block e some_block fits valid inside holds _ _ c.byte_offset [] _
        (record {
          at = record {
            rest = rest;
            last = c;
            starts = refl;
            spaced = s;
            from_last = here;
            next_near = near.1;
            near_next = omega (arith, near.0);
          };
          kept = omega arith;
          holds_kept = refl;
          cut = inl refl;
        })
        (omega (arith, less)) (omega arith)

-- Sizes that the options resolve to are within the limits of the code.
pub resolve_index_options_lem :
    (options : IndexOptions) (sizes : ℕ × ℕ)
    → resolve_index_options options ≡ ok sizes
    → (0 < sizes.0)
      × (sizes.0 ≤ maximum_checkpoint_bytes)
      × (sizes.1 ≤ maximum_cache_bytes)
      × (options.disable_cache ≡ true → sizes.1 ≡ 0)
unfolding resolve_index_options
resolve_index_options_lem options sizes h = ground arith

-- What finishScan makes of an index, where the scan has come to the end of the text.
pub finish_scan_lem :
    (text : List ℕ) (i : Index) (s : ScanState) (scan_start : ℕ)
    → IsAt text i.checkpoint_bytes (length text) s
    → i.byte_length ≡ length text
    → i.closed ≡ false
    → IsCacheOf text i
    → IsIndexOf text (finish_scan i s scan_start)
unfolding finish_scan
finish_scan_lem text i s scan_start v whole opened cached =
    let end = at_offset i.byte_length s in
    let at = subst (λ m. IsAt text i.checkpoint_bytes m s) (sym whole) v in
    let (rest, e, spaced) =
      put_last_lem text i.checkpoint_bytes start_checkpoint at.rest at.last end at.spaced
        at.from_last (omega (arith, at.near_next, at.next_near)) whole in
    record {
      rest = rest;
      starts = ap (λ cs. put_last cs end) at.starts ∙ e;
      spaced = spaced;
      whole = whole;
      end = end;
      reached = IsAt-Reaches text i.checkpoint_bytes i.byte_length s at;
      at_end = whole;
      runes = refl;
      lines = refl;
      opened = opened;
      cached = record {
        windows = cached.windows;
        counted = cached.counted;
        bounded = cached.bounded;
      };
    }

-- Build of a text that decodes to its end, with options that resolve, from a source that holds the
-- text, always succeeds, and the index is one of that text: its checkpoints are rune boundaries
-- from the start to the end of the text, each within a query window of the one before, and its
-- counts are those of the end.
pub build_lem :
    (read_at : Source) (text : List ℕ) (owned : Bool) (revision : ℕ) (options : IndexOptions)
    (sizes : ℕ × ℕ) (e : Checkpoint)
    → Holds read_at text
    → Reaches text start_checkpoint e
    → e.byte_offset ≡ length text
    → length text ≤ max_int64
    → resolve_index_options options ≡ ok sizes
    → (i : Index) × (build read_at (pos (length text)) owned revision options ≡ ok i)
      × IsIndexOf text i
unfolding build docengine.LineIndex.Cache.total_bytes
build_lem read_at text owned revision options sizes e holds valid at_end fits resolved =
    let some_block = (resolve_index_options_lem options sizes resolved).0 in
    let (s, scanned, at, z) =
      scan_segment_lem read_at text sizes.0 e some_block (omega (arith, at_end, fits)) valid
        (omega (arith, at_end)) holds [] start_checkpoint refl (omega arith) in
    let scanned' : scan_segment read_at sizes.0 (length text) (start_checkpoint ∷ [])
          start_checkpoint 0 (length text)
        ≡ ok s =
      ap (scan_segment read_at sizes.0 (length text) (start_checkpoint ∷ []) start_checkpoint 0)
        (sym at_end)
      ∙ scanned in
    let i = unscanned owned revision (length text) sizes.0 sizes.1 options.lineage in
    (
      finish_scan i s 0,
      rw (resolved, scanned') refl,
      finish_scan_lem text i s 0 (subst (λ m. IsAt text sizes.0 m s) at_end at) refl refl
          (record { windows = tt; counted = refl; bounded = omega arith }),
    )
