-- ===== src/LineIndex/Query.antt =====
-- document/coordinate/index.go: ByteToPosition, RuneToByte, PositionToByte, LineStart and the window
-- of bytes that they decode, for a context that is not canceled. `read_at off want` is the source's
-- ReadAt: the bytes that it stored, and its error.
use docengine.Prelude.{
  Source, read_stops, ℕ, zero, suc, ◌+◌, ◌-◌, min, Bool, false, ◌&&◌, ◌||◌, ltb, leb, ◌==◌,
  if◌then◌else◌, List, [], ◌∷◌, ◌++◌, Option, none, some, length, ℤ, pos, is_negative, to_ℕ, Result,
  ok, err,
}
use docengine.LineIndex.Utf8.{decode, incomplete, invalid, rune}
use docengine.LineIndex.State.{
  Index, IndexError, Checkpoint, Position, start_checkpoint, advance, closed_index, invalid_offset,
  invalid_position, invalid_utf8, not_rune_boundary, source_inconsistent, unexpected_eof,
  read_failed,
}
use docengine.LineIndex.Cache.{cached_window, store_window}

-- The last checkpoint before the first one for which the test holds (sort.Search, less 1).
unfoldable pub last_before : (Checkpoint → Bool) → Checkpoint → List Checkpoint → Checkpoint
last_before past c [] = c
last_before past c (d ∷ ds) = let rest = last_before past d ds in if past d then c else rest

-- The checkpoints are never empty, and the first is at the start.
abbrev pub checkpoint_before : Index → (Checkpoint → Bool) → Checkpoint
checkpoint_before i past = last_before past start_checkpoint i.checkpoints

-- The loop that fills a window: each round that goes on has read at least one byte.
unfoldable pub fill : Source → ℕ → ℕ → ℕ → Result IndexError (List ℕ)
fill read_at zero off want = if want == 0 then ok [] else err unexpected_eof
fill read_at (suc fuel) off want =
    let r = read_at off want in
    let n = length r.0 in
    let rest = fill read_at fuel (off + n) (want - n) in
    if want == 0
    then ok []
    else if ltb want n
    then err source_inconsistent
    else if read_stops r.1 (n == want)
    then err read_failed
    else if n == 0
    then err unexpected_eof
    else elim rest [ err x ↦ err x | ok bs ↦ ok (r.0 ++ bs) ]

abbrev pub window_length : Index → ℕ → ℕ
window_length i start = min (i.checkpoint_bytes + 4) (i.byte_length - start)

-- readWindow behind its look into the cache.
unfoldable pub window_from :
    Source → ℕ → Option (List ℕ) × Index → Result IndexError (List ℕ) × Index
window_from read_at start (some bs, i) = (ok bs, i)
window_from read_at start (none, i) =
    elim (fill read_at (window_length i start) start (window_length i start)) [
      | err x ↦ (err x, i)
      | ok bs ↦ (ok bs, store_window i start bs)
    ]

unfoldable pub read_window : Source → Index → ℕ → Result IndexError (List ℕ) × Index
read_window read_at i start = window_from read_at start (cached_window i start)

-- The decoding loop of the three queries, from a checkpoint on: `done` looks at the state before each
-- rune, `overruns` at a rune's size, and `at_end` is the error where the bytes run out. `skip` counts
-- the bytes of the current rune that are still to be passed.
unfoldable pub seek :
    (Checkpoint → Option (Result IndexError Position))
    → (Checkpoint → ℕ → Bool)
    → IndexError
    → Checkpoint
    → ℕ
    → List ℕ
    → Result IndexError Position
seek done overruns at_end s zero [] = elim (done s) [ some r ↦ r | none ↦ err at_end ]
seek done overruns at_end s zero (b ∷ bs) = elim (done s) [
  | some r ↦ r
  | none ↦ elim (decode (b ∷ bs)) [
    | incomplete ↦ err source_inconsistent
    | invalid ↦ err invalid_utf8
    | rune r n ↦
        if overruns s n
        then err not_rune_boundary
        else seek done overruns at_end (advance s r n) (n - 1) bs
  ]
]
seek done overruns at_end s (suc skip) [] = err at_end
seek done overruns at_end s (suc skip) (b ∷ bs) = seek done overruns at_end s skip bs

abbrev pub at_byte : ℕ → Checkpoint → Option (Result IndexError Position)
at_byte offset s = if s.byte_offset == offset then some (ok s) else none

abbrev pub at_rune : ℕ → Checkpoint → Option (Result IndexError Position)
at_rune offset s = if s.rune_offset == offset then some (ok s) else none

-- Is the state behind the line and column?
abbrev pub is_past : ℕ → ℕ → Checkpoint → Bool
is_past line column s = ltb line s.line || (s.line == line && ltb column s.column)

abbrev pub at_position : ℕ → ℕ → Checkpoint → Option (Result IndexError Position)
at_position line column s =
    if s.line == line && s.column == column
    then some (ok s)
    else if is_past line column s
    then some (err invalid_position)
    else none

-- A query behind its guards: the checkpoint itself, or the loop over its window.
unfoldable pub query :
    Source
    → (Checkpoint → Bool)
    → (Checkpoint → Bool)
    → (Checkpoint → Option (Result IndexError Position))
    → (Checkpoint → ℕ → Bool)
    → IndexError
    → Index
    → Result IndexError Position × Index
query read_at past hits done overruns at_end i =
    let cp = checkpoint_before i past in
    let (window, i') = read_window read_at i cp.byte_offset in
    if hits cp
    then (ok cp, i)
    else elim window [ err x ↦ (err x, i') | ok bs ↦ (seek done overruns at_end cp 0 bs, i') ]

unfoldable pub byte_to_position : Source → Index → ℤ → Result IndexError Position × Index
byte_to_position read_at i offset =
    let o = to_ℕ offset in
    let found =
      query read_at (λ c. ltb o c.byte_offset) (λ c. c.byte_offset == o) (at_byte o)
        (λ s n. ltb o (s.byte_offset + n)) source_inconsistent i in
    if i.closed
    then (err closed_index, i)
    else if is_negative offset || ltb i.byte_length o
    then (err invalid_offset, i)
    else found

abbrev pub byte_of : Result IndexError Position × Index → Result IndexError ℕ × Index
byte_of (err x, i) = (err x, i)
byte_of (ok p, i) = (ok p.byte_offset, i)

unfoldable pub rune_to_byte : Source → Index → ℤ → Result IndexError ℕ × Index
rune_to_byte read_at i offset =
    let o = to_ℕ offset in
    let found =
      query read_at (λ c. ltb o c.rune_offset) (λ c. c.rune_offset == o) (at_rune o) (λ s n. false)
        source_inconsistent i in
    if i.closed
    then (err closed_index, i)
    else if is_negative offset || ltb i.rune_count o
    then (err invalid_offset, i)
    else byte_of found

unfoldable pub position_to_byte : Source → Index → ℤ → ℤ → Result IndexError ℕ × Index
position_to_byte read_at i line column =
    let l = to_ℕ line in
    let k = to_ℕ column in
    let found =
      query read_at (is_past l k) (λ c. c.line == l && c.column == k) (at_position l k)
        (λ s n. false) invalid_position i in
    if i.closed
    then (err closed_index, i)
    else if is_negative line || (leb i.line_count l || is_negative column)
    then (err invalid_position, i)
    else byte_of found

unfoldable pub line_start : Source → Index → ℤ → Result IndexError ℕ × Index
unfolding position_to_byte
line_start read_at i line = position_to_byte read_at i line (pos 0)
