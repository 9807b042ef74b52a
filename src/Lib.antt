-- ===== src/Lib.antt =====
-- The document engine keeps a large document as a tree of pieces of files on disk, journals the
-- edits, and carries coordinates of a host (anchors, ranges, annotations) across revisions.
--
-- Parts that are modelled, and where:
-- - document/store/tree.go, the piece tree: Store. `Node` holds the treap (split, merge, recalc,
--   walk, the generator of priorities), `Tree` the Tree, Snapshot and their operations, `Read` the
--   readers' side (readNode, ReadAt, WriteTo). Content says which document a tree stands for, a list
--   of cells (source, offset); the proofs stand in Split, Order, Compact, Rebuild, Invariant, Auto,
--   Splice, Edit, Replace, Lifecycle, Reading and Export.
-- - document/coordinate/changemap.go, the change maps: Coordinate. `ChangeMap` holds the map, its
--   constructor and Transform, `Batch` the batch calls, `Compose` ComposeAll and Invert, `Suffix`
--   stableSuffix; Documents relates a map to two documents, one rewritten into the other, and the
--   proofs stand there and in Validity, Transform, Stable and Batches.
-- - document/change_history.go, the change history: History. `Ring` holds the ring buffer and its
--   lemmas, `Changes` changeHistory and the transforms of Session that use it; the
--   proofs stand in Retention, Append, Chain and Between.
-- - document/events.go, the event hub: Events. `Hub` holds eventHub, its history ring and the offer of
--   an event to a subscriber, with a channel as a queue, `Subscribe` subscribe with its replay of
--   retained events; the proofs stand in Delivery and Replays.
-- - recovery/journal.go, the recovery journal: Journal. `Bytes` holds the little-endian fields, `Payload`
--   and `Header` the codecs of a batch, `File` the operations on the file (AppendBatch, RepairTail,
--   Reset and the file header), `Replay` Replay and openJournal. Entries and Recovery say what the bytes
--   of a batch are; the proofs stand there and in Operations, RoundTrip, Recovered, Appended and Opening.
-- - document/virtual/window.go, the windows over a text in pages: Virtual. `Window` holds the choice of
--   the pages within a budget, `Requests` what a request asks for; the proofs stand in Bounds,
--   Fragments, Choice and Pages. The reading of the pages, their cache and the publication of fragments are not modelled.
-- - document/undo_store.go, the undo store: Undo. `Store` holds the store with append and read, `Rewrite`
--   rewriteContext; the proofs stand in Texts, References, Copies and Rewritten.
-- - document/coordinate/index.go and cache.go, the line index: LineIndex. `Utf8` holds the decoding of a
--   rune, `State` the Index and its options, `Cache` the cache of windows, `Query` the three queries,
--   `Scan` Build and its scan, `Rebuild` the rebuild behind an edit. Runes and Boundaries define the
--   rune boundaries of a text; the proofs stand in Eviction, Windows, Answers, Positions, Chunks,
--   Reads and Built.
--
-- Prelude holds the shared names, tests, lists, machine words and the result type of fallible code.
-- Functions keep the source's names in snake case (Tree.compactLocked is compact_locked); `check_edit`
-- is the guards of ReplacePiece, `spliced` its cuts and merges.
--
-- Numbers: an int64 that a caller passes is an integer (ℤ) and is checked as the code does; lengths
-- and offsets that a structure keeps are natural numbers, and the validity records state that they
-- fit. A uint64 wraps (% 2 ^ 64). A subtraction is written where its guard has been passed. Every
-- loop is structural recursion on a tree, a list or a count, but for the loops that read from a source
-- or evict from a cache: their fuel is the number of bytes to read, of which each round reads one at
-- least, or of entries, of which each round takes one away.
--
-- The tree's mutex makes each operation one step. Node sharing needs no model, since nodes are never
-- changed after recalc. The readers (io.ReaderAt) and the copy of a section (io.CopyN) are parameters,
-- with hypotheses that state what a reader of a file in range does; so is the checksum. A file that
-- a journal writes is its bytes; which of its calls fail, and how far a write comes, is a parameter.
-- The variants with a context only add cancellation and are not modelled, nor are the thin accessors.
--
-- Not modelled: the session and the pager behind the windows, which put the parts above together;
-- saving and the platform files, which are I/O.
pub mod Prelude
pub mod Store
pub mod Coordinate
pub mod Events
pub mod History
pub mod Journal
pub mod LineIndex
pub mod Undo
pub mod Virtual
