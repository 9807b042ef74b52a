-- ===== src/LineIndex/State.antt =====
-- document/coordinate/index.go: the state of an Index, its options, Stats, BelongsTo and Close.
use docengine.Prelude.{
  ℕ, ◌+◌, ◌-◌, ◌*◌, ◌/◌, Bool, true, false, not, ◌&&◌, ◌||◌, ltb, ◌==◌, if◌then◌else◌, List, [],
  Option, none, some, length, ℤ, pos, is_negative, is_zero, to_ℕ, Result, ok, err, max_int64,
}

abbrev pub default_checkpoint_bytes : ℕ
default_checkpoint_bytes = 65536

abbrev pub maximum_checkpoint_bytes : ℕ
maximum_checkpoint_bytes = 67108864

abbrev pub default_cache_bytes : ℕ
default_cache_bytes = 1048576

abbrev pub maximum_cache_bytes : ℕ
maximum_cache_bytes = 268435456

pub data IndexError : Type 0 where
  invalid_source invalid_options invalid_utf8 invalid_offset not_rune_boundary : IndexError
  invalid_position closed_index source_inconsistent invalid_index : IndexError
  index_revision_mismatch index_length_mismatch unexpected_eof read_failed : IndexError

-- A lineage is a pointer, compared by identity.
pub record IndexOptions : Type 0 where
  pub checkpoint_bytes : ℤ
  pub cache_bytes : ℤ
  pub disable_cache : Bool
  pub lineage : Option ℕ

pub record Checkpoint : Type 0 where
  pub byte_offset : ℕ
  pub rune_offset : ℕ
  pub line : ℕ
  pub column : ℕ

-- Position has the fields of a checkpoint.
abbrev pub Position : Type 0
Position = Checkpoint

pub record CacheEntry : Type 0 where
  pub start : ℕ
  pub bytes : List ℕ

-- The source is a parameter of the operations that read it. `cache` is cacheList, its front first;
-- the map of the code is the search of that list by start. `owned`: release is not nil.
pub record Index : Type 0 where
  pub owned : Bool
  pub closed : Bool
  pub revision : ℕ
  pub byte_length : ℕ
  pub rune_count : ℕ
  pub line_count : ℕ
  pub checkpoint_bytes : ℕ
  pub checkpoints : List Checkpoint
  pub reused : ℕ
  pub reused_prefix : ℕ
  pub reused_suffix : ℕ
  pub scanned_bytes : ℕ
  pub lineage : Option ℕ
  pub cache : List CacheEntry
  pub cache_bytes : ℕ
  pub max_cache_bytes : ℕ
  pub cache_hits : ℕ
  pub cache_misses : ℕ

pub record IndexStats : Type 0 where
  pub revision : ℕ
  pub byte_length : ℕ
  pub rune_count : ℕ
  pub line_count : ℕ
  pub checkpoint_count : ℕ
  pub checkpoint_bytes : ℕ
  pub reused_checkpoints : ℕ
  pub reused_prefix_checkpoints : ℕ
  pub reused_suffix_checkpoints : ℕ
  pub scanned_bytes : ℕ
  pub cache_bytes : ℕ
  pub cache_entries : ℕ
  pub maximum_cache_bytes : ℕ
  pub cache_hits : ℕ
  pub cache_misses : ℕ

abbrev pub start_checkpoint : Checkpoint
start_checkpoint = record { byte_offset = 0; rune_offset = 0; line = 0; column = 0 }

unfoldable pub resolve_index_options : IndexOptions → Result IndexError (ℕ × ℕ)
resolve_index_options o =
    let checkpoint_bytes =
      if is_zero o.checkpoint_bytes then pos default_checkpoint_bytes else o.checkpoint_bytes in
    let cache_bytes =
      if not o.disable_cache && is_zero o.cache_bytes
      then pos default_cache_bytes
      else o.cache_bytes in
    if o.disable_cache && not (is_zero o.cache_bytes)
    then err invalid_options
    else if is_negative checkpoint_bytes
        || (ltb maximum_checkpoint_bytes (to_ℕ checkpoint_bytes)
            || (is_negative cache_bytes || ltb maximum_cache_bytes (to_ℕ cache_bytes)))
    then err invalid_options
    else ok (to_ℕ checkpoint_bytes, to_ℕ cache_bytes)

-- A line feed is 10.
unfoldable pub advance : Checkpoint → ℕ → ℕ → Checkpoint
advance s r size = record {
  byte_offset = s.byte_offset + size;
  rune_offset = s.rune_offset + 1;
  line = if r == 10 then s.line + 1 else s.line;
  column = if r == 10 then 0 else s.column + 1;
}

unfoldable pub next_checkpoint_after : ℕ → ℕ → ℕ
next_checkpoint_after offset block =
    if ltb (max_int64 - block) offset then max_int64 else (offset / block + 1) * block

unfoldable pub index_stats : Index → IndexStats
index_stats i = record {
  revision = i.revision;
  byte_length = i.byte_length;
  rune_count = i.rune_count;
  line_count = i.line_count;
  checkpoint_count = length i.checkpoints;
  checkpoint_bytes = i.checkpoint_bytes;
  reused_checkpoints = i.reused;
  reused_prefix_checkpoints = i.reused_prefix;
  reused_suffix_checkpoints = i.reused_suffix;
  scanned_bytes = i.scanned_bytes;
  cache_bytes = i.cache_bytes;
  cache_entries = length i.cache;
  maximum_cache_bytes = i.max_cache_bytes;
  cache_hits = i.cache_hits;
  cache_misses = i.cache_misses;
}

unfoldable pub belongs_to : Index → Option ℕ → Bool
belongs_to i none = false
belongs_to i (some l) = elim i.lineage [ none ↦ false | some m ↦ l == m ]

-- The index behind Close, and whether the source is released.
unfoldable pub close_index : Index → Index × Bool
close_index i =
    if i.closed
    then (i, false)
    else (record i { closed = true; cache = []; cache_bytes = 0; owned = false }, i.owned)
