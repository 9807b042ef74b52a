-- ===== src/Undo/Rewritten.antt =====
-- document/undo_store.go: what rewriteContext leaves of a store.
use docengine.Prelude.{ℕ, ◌+◌, ◌≤◌, ◌≡◌, ◌⊎◌, false, List, map, length, slice, All, Result, ok, pos}
use docengine.Undo.Store.{UndoError, UndoStore, TextRef}
use mathlib.Core.List.{Mem, Nodup}
use docengine.Undo.Rewrite.{RefArg, signed}
use docengine.Undo.Copies.{total_length}

-- A reference that is asked for is empty or is kept.
abbrev pub IsKept : List TextRef → RefArg → Type 0
IsKept kept r = (r.length_of ≡ pos 0) ⊎ ((q : TextRef) × (r ≡ signed q) × Mem q kept)

-- The references that are kept: none twice, all in the store and asked for (`P`), and none but empty
-- ones left out.
pub record Unique (P : TextRef → Type 0) (size : ℕ) (unique : List TextRef) (refs : List RefArg)
    (kept : List TextRef) (live : ℕ) : Type 0 where
  pub in_store : All (λ (r : TextRef). r.offset + r.length_of ≤ size) kept
  pub counted : total_length kept ≡ live
  pub distinct : Nodup kept
  pub asked : All P kept
  pub before : (r : TextRef) → Mem r unique → Mem r kept
  pub all_kept : All (IsKept kept) refs

abbrev pub keys : List (TextRef × TextRef) → List TextRef
keys mapping = map (λ (p : TextRef × TextRef). p.0) mapping

-- A rewritten store: it has the bytes of the references that are kept, each of which it gives; they
-- are the references asked for that are not empty, none twice.
pub record IsRewritten (s : UndoStore) (refs : List RefArg)
    (z : Result UndoError (List (TextRef × TextRef)) × UndoStore) : Type 0 where
  pub mapping : List (TextRef × TextRef)
  pub succeeds : z.0 ≡ ok mapping
  pub sized : length z.1.contents ≡ z.1.size
  pub live : z.1.size ≡ total_length (keys mapping)
  pub gives :
      All
        (λ (p : TextRef × TextRef).
          (p.1.offset + p.1.length_of ≤ length z.1.contents)
          × (slice p.1.length_of p.1.offset z.1.contents
              ≡ slice p.0.length_of p.0.offset s.contents))
        mapping
  pub distinct : Nodup (keys mapping)
  pub asked : All (λ (q : TextRef). Mem (signed q) refs) (keys mapping)
  pub keeps : All (IsKept (keys mapping)) refs
  pub still_open : z.1.closed ≡ false
