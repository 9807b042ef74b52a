-- ===== src/LineIndex/Tests.antt =====
-- document/coordinate/index.go: the index of a text of two lines, and the theorems applied to it.
use docengine.Prelude.{
  Holds, Source, ℕ, ◌≡◌, refl, inl, false, none, List, [], ◌∷◌, arith, slice, ok, pos,
}
use docengine.LineIndex.Utf8.{decode, continuation, rune_size, lead_bits, second_low, second_high}
use docengine.LineIndex.State.{
  Index, IndexOptions, Checkpoint, start_checkpoint, advance, resolve_index_options,
}
use docengine.LineIndex.Cache.{total_bytes, store_window}
use docengine.LineIndex.Query.{byte_to_position, rune_to_byte, position_to_byte}
use docengine.LineIndex.Runes.{Reaches, here, next}
use docengine.LineIndex.Windows.{IsCacheOf, SameButCache, IsStored, store_window_lem}
use docengine.LineIndex.Answers.{IsIndexOf}
use docengine.LineIndex.Positions.{byte_to_position_lem, rune_to_byte_lem, position_to_byte_lem}
use docengine.LineIndex.Scan.{build}
use docengine.LineIndex.Built.{build_lem}

-- "a", a line feed, "é" and a line feed.
abbrev small_text : List ℕ
small_text = 97 ∷ 10 ∷ 195 ∷ 169 ∷ 10 ∷ []

abbrev read_small : Source
read_small off want = (slice want off small_text, none)

read_small-Holds : Holds read_small small_text
read_small-Holds off want h = (refl, inl refl)

abbrev second_line : Checkpoint
second_line = record { byte_offset = 2; rune_offset = 2; line = 1; column = 0 }

abbrev behind_e : Checkpoint
behind_e = record { byte_offset = 4; rune_offset = 3; line = 1; column = 1 }

abbrev small_end : Checkpoint
small_end = record { byte_offset = 5; rune_offset = 4; line = 2; column = 0 }

second_line_reached : Reaches small_text start_checkpoint second_line
unfolding decode continuation rune_size lead_bits advance
second_line_reached = next 97 1 refl (next 10 1 refl here)

behind_e_reached_next : Reaches small_text second_line behind_e
unfolding decode continuation rune_size lead_bits second_low second_high advance
behind_e_reached_next = next 233 2 refl here

small_end_reached_next : Reaches small_text behind_e small_end
unfolding decode continuation rune_size lead_bits advance
small_end_reached_next = next 10 1 refl here

behind_e_reached : Reaches small_text start_checkpoint behind_e
unfolding decode continuation rune_size lead_bits second_low second_high advance
behind_e_reached = next 97 1 refl (next 10 1 refl (next 233 2 refl here))

small_end_reached : Reaches small_text start_checkpoint small_end
unfolding decode continuation rune_size lead_bits second_low second_high advance
small_end_reached = next 97 1 refl (next 10 1 refl (next 233 2 refl (next 10 1 refl here)))

abbrev small_index : Index
small_index = record {
  owned = false;
  closed = false;
  revision = 7;
  byte_length = 5;
  rune_count = 4;
  line_count = 3;
  checkpoint_bytes = 2;
  checkpoints = start_checkpoint ∷ second_line ∷ behind_e ∷ small_end ∷ [];
  reused = 0;
  reused_prefix = 0;
  reused_suffix = 0;
  scanned_bytes = 5;
  lineage = none;
  cache = [];
  cache_bytes = 0;
  max_cache_bytes = 100;
  cache_hits = 0;
  cache_misses = 0;
}

abbrev second_window : List ℕ
second_window = 195 ∷ 169 ∷ 10 ∷ []

small_index-IsCacheOf : IsCacheOf small_text small_index
unfolding total_bytes
small_index-IsCacheOf = record { windows = tt; counted = refl; bounded = omega arith }

small_index-IsIndexOf : IsIndexOf small_text small_index
small_index-IsIndexOf = record {
  rest = second_line ∷ behind_e ∷ small_end ∷ [];
  starts = refl;
  spaced = (
    second_line_reached,
    omega arith,
    (behind_e_reached_next, omega arith, (small_end_reached_next, omega arith, refl)),
  );
  whole = refl;
  end = small_end;
  reached = small_end_reached;
  at_end = refl;
  runes = refl;
  lines = refl;
  opened = refl;
  cached = small_index-IsCacheOf;
}

byte_to_position_lem_example :
    ((byte_to_position read_small small_index (pos 4)).0 ≡ ok behind_e)
    × IsIndexOf small_text (byte_to_position read_small small_index (pos 4)).1
byte_to_position_lem_example =
    byte_to_position_lem read_small small_text small_index behind_e read_small-Holds
      small_index-IsIndexOf behind_e_reached

rune_to_byte_lem_example :
    ((rune_to_byte read_small small_index (pos 3)).0 ≡ ok 4)
    × IsIndexOf small_text (rune_to_byte read_small small_index (pos 3)).1
rune_to_byte_lem_example =
    rune_to_byte_lem read_small small_text small_index behind_e read_small-Holds
      small_index-IsIndexOf behind_e_reached

position_to_byte_lem_example :
    ((position_to_byte read_small small_index (pos 1) (pos 1)).0 ≡ ok 4)
    × IsIndexOf small_text (position_to_byte read_small small_index (pos 1) (pos 1)).1
position_to_byte_lem_example =
    position_to_byte_lem read_small small_text small_index behind_e read_small-Holds
      small_index-IsIndexOf behind_e_reached

abbrev small_options : IndexOptions
small_options = record {
  checkpoint_bytes = pos 2;
  cache_bytes = pos 100;
  disable_cache = false;
  lineage = none;
}

build_lem_example :
    (i : Index) × (build read_small (pos 5) false 7 small_options ≡ ok i) × IsIndexOf small_text i
unfolding resolve_index_options
build_lem_example =
    build_lem read_small small_text false 7 small_options (2, 100) small_end read_small-Holds
      small_end_reached refl (omega arith) refl

store_window_lem_example :
    IsCacheOf small_text (store_window small_index 2 second_window)
    × SameButCache small_index (store_window small_index 2 second_window)
    × IsStored small_index 2 second_window (store_window small_index 2 second_window)
store_window_lem_example =
    store_window_lem small_text small_index 2 second_window small_index-IsCacheOf refl
