-- ===== src/LineIndex/Rebuild.antt =====
-- document/coordinate/index.go: rebuild, which takes over the checkpoints that an edit leaves, for a
-- context that is not canceled.
use docengine.Prelude.{
  Source, ℕ, ◌+◌, ◌-◌, Bool, true, false, not, ◌&&◌, ◌||◌, ltb, leb, ◌==◌, if◌then◌else◌, List, [],
  ◌∷◌, Option, none, some, length, ℤ, is_negative, to_ℕ, Result, ok, err, ◌>>=◌, ◌>>◌, fail_if,
}
use docengine.Coordinate.ChangeMap.{Edit, ChangeMap}
use docengine.Coordinate.Suffix.{stable_suffix}
use docengine.LineIndex.State.{
  Index, IndexError, Checkpoint, start_checkpoint, maximum_checkpoint_bytes, closed_index,
  invalid_index, invalid_source, index_revision_mismatch, index_length_mismatch,
}
use docengine.LineIndex.Scan.{
  ScanState, scan_segment, put_last, finish_scan, unscanned, owned_result,
}

-- The last of the prefix is the state from which the scan goes on.
pub record IncrementalPlan : Type 0 where
  pub checkpoint_bytes : ℕ
  pub cache_bytes : ℕ
  pub state : Checkpoint
  pub scan_end : ℕ
  pub prefix : List Checkpoint
  pub suffix : List Checkpoint
  pub lineage : Option ℕ

unfoldable pub stable_prefix : ℕ → List Edit → ℕ
stable_prefix n [] = n
stable_prefix n (e ∷ es) = stable_prefix (if ltb e.start n then e.start else n) es

abbrev pub is_start : Checkpoint → Bool
is_start c = c.byte_offset == 0 && (c.rune_offset == 0 && (c.line == 0 && c.column == 0))

abbrev pub starts_at_start : List Checkpoint → Bool
starts_at_start [] = false
starts_at_start (c ∷ cs) = is_start c

-- The checkpoints before the first for which the test holds, and those from it on (sort.Search).
unfoldable pub before_first : (Checkpoint → Bool) → List Checkpoint → List Checkpoint
before_first past [] = []
before_first past (c ∷ cs) = let rest = before_first past cs in if past c then [] else c ∷ rest

unfoldable pub from_first : (Checkpoint → Bool) → List Checkpoint → List Checkpoint
from_first past [] = []
from_first past (c ∷ cs) = let rest = from_first past cs in if past c then c ∷ cs else rest

abbrev pub last_or : Checkpoint → List Checkpoint → Checkpoint
last_or c [] = c
last_or c (d ∷ ds) = last_or d ds

-- The plan where the suffix starts at the boundaries `r` of the old and the new text. A suffix that
-- is the end of the text alone is scanned again.
unfoldable pub plan_suffix : ℕ × ℕ → List Checkpoint → IncrementalPlan → IncrementalPlan
plan_suffix r [] plan = plan
plan_suffix r (c ∷ []) plan = plan
plan_suffix r (c ∷ d ∷ ds) plan = record plan {
  scan_end = r.1 + c.byte_offset - r.0;
  suffix = c ∷ d ∷ ds;
}

unfoldable pub plan_edits :
    ChangeMap → List Checkpoint → IncrementalPlan → Result IndexError IncrementalPlan
plan_edits changes checkpoints plan = elim changes.edits [
  | [] ↦ ok (record plan {
    scan_end = plan.state.byte_offset;
    suffix = from_first (λ c. ltb changes.before_length c.byte_offset) checkpoints;
  })
  | e ∷ es ↦ elim (stable_suffix changes) [
    | none ↦ err invalid_index
    | some r ↦ ok (plan_suffix r (from_first (λ c. leb r.0 c.byte_offset) checkpoints) plan)
  ]
]

unfoldable pub plan_prefix :
    Index → ChangeMap → ℕ → ℕ → List Checkpoint → Result IndexError IncrementalPlan
plan_prefix previous changes after_length stable [] = err invalid_index
plan_prefix previous changes after_length stable (c ∷ cs) =
    let state = last_or c cs in
    let plan = plan_edits changes previous.checkpoints (record {
      checkpoint_bytes = previous.checkpoint_bytes;
      cache_bytes = previous.max_cache_bytes;
      state = state;
      scan_end = after_length;
      prefix = c ∷ cs;
      suffix = [];
      lineage = previous.lineage;
    }) in
    if ltb stable state.byte_offset || ltb after_length state.byte_offset
    then err invalid_index
    else plan

unfoldable pub incremental_seed : Index → ChangeMap → ℕ → Result IndexError IncrementalPlan
incremental_seed previous changes after_length =
    let stable = stable_prefix changes.before_length changes.edits in
    do
      fail_if previous.closed closed_index
      fail_if (not (previous.revision == changes.before_revision)) index_revision_mismatch
      fail_if
          (not (previous.byte_length == changes.before_length)
            || not (after_length == changes.after_length))
          index_length_mismatch
      fail_if
          (previous.checkpoint_bytes == 0
            || (ltb maximum_checkpoint_bytes previous.checkpoint_bytes
                || not (starts_at_start previous.checkpoints)))
          invalid_index
      plan_prefix previous changes after_length stable
          (before_first (λ c. ltb stable c.byte_offset) previous.checkpoints)

-- A checkpoint of the old text behind the seam, in the new text.
unfoldable pub translated : Checkpoint → Checkpoint → Checkpoint → Checkpoint
translated new_seam old_seam old = record {
  byte_offset = new_seam.byte_offset + old.byte_offset - old_seam.byte_offset;
  rune_offset = new_seam.rune_offset + old.rune_offset - old_seam.rune_offset;
  line = new_seam.line + old.line - old_seam.line;
  column =
      if old.line == old_seam.line
      then new_seam.column + old.column - old_seam.column
      else old.column;
}

unfoldable pub put_translated :
    Checkpoint → Checkpoint → List Checkpoint → List Checkpoint → List Checkpoint
put_translated new_seam old_seam [] checkpoints = checkpoints
put_translated new_seam old_seam (old ∷ suffix) checkpoints =
    put_translated new_seam old_seam suffix
      (put_last checkpoints (translated new_seam old_seam old))

-- The first of the suffix is the seam. It is not counted where a checkpoint of the scan is at its place.
unfoldable pub append_translated_suffix : Index → ScanState → Checkpoint → List Checkpoint → Index
append_translated_suffix i s old_seam more =
    let last = translated s.state old_seam (last_or old_seam more) in
    let reused_suffix =
      if (last_or start_checkpoint s.checkpoints).byte_offset == s.state.byte_offset
      then length more
      else length more + 1 in
    record i {
      checkpoints = put_translated s.state old_seam (old_seam ∷ more) s.checkpoints;
      rune_count = last.rune_offset;
      line_count = last.line + 1;
      reused_suffix = reused_suffix;
      reused = i.reused_prefix + reused_suffix;
    }

unfoldable pub rebuilt : Index → IncrementalPlan → ScanState → List Checkpoint → Index
rebuilt i plan s [] = finish_scan i s plan.state.byte_offset
rebuilt i plan s (old_seam ∷ more) = record (append_translated_suffix i s old_seam more) {
  scanned_bytes = plan.scan_end - plan.state.byte_offset;
}

unfoldable pub rebuild : Source → ℤ → Bool → Index → ChangeMap → Result IndexError Index
rebuild read_at len owned previous changes = do
  fail_if (is_negative len) invalid_source
  plan ← incremental_seed previous changes (to_ℕ len)
  let blank =
      unscanned owned changes.after_revision (to_ℕ len) plan.checkpoint_bytes plan.cache_bytes
        plan.lineage
  let i = record blank {
    checkpoints = plan.prefix;
    reused = length plan.prefix;
    reused_prefix = length plan.prefix;
  }
  s ←
      scan_segment read_at plan.checkpoint_bytes (to_ℕ len) plan.prefix plan.state
        plan.state.byte_offset plan.scan_end
  ok (rebuilt i plan s plan.suffix)

unfoldable pub rebuild_owned : Source → ℤ → Index → ChangeMap → Result IndexError Index × Bool
rebuild_owned read_at len previous changes =
    owned_result (rebuild read_at len true previous changes)
