-- ===== src/Undo/Store.antt =====
-- document/undo_store.go: the undo store and its operations on a file. A nil store is `none`; a file is
-- its bytes.
use docengine.Prelude.{
  ℕ, ◌+◌, ◌-◌, Bool, true, false, not, ltb, ◌==◌, if◌then◌else◌, List, [], ◌∷◌, ◌++◌, Option, none,
  some, length, take, drop, Result, ok, err, Source, read_stops, Written,
}

pub data UndoError : Type 0 where
  undo_quota store_closed unexpected_end limit_exceeded file_failed short_write : UndoError

pub record TextRef : Type 0 where
  pub offset : ℕ
  pub length_of : ℕ

-- `closed`: file is nil.
pub record UndoStore : Type 0 where
  pub closed : Bool
  pub contents : List ℕ
  pub size : ℕ
  pub quota : ℕ

-- WriteAt at an offset inside the file: `n` bytes are stored.
unfoldable pub written_at : ℕ → ℕ → List ℕ → List ℕ → List ℕ
written_at off n bytes contents = take off contents ++ (take n bytes ++ drop (off + n) contents)

abbrev pub no_text : TextRef
no_text = record { offset = 0; length_of = 0 }

-- The append behind its guards. The size counts the bytes that were stored, an error or not.
unfoldable pub append_stored : Written → UndoStore → List ℕ → Result UndoError TextRef × UndoStore
append_stored w s value =
    let stored = record s {
      contents = written_at s.size w.count value s.contents;
      size = s.size + w.count;
    } in
    (
      if w.failed
          then err file_failed
          else ok (record { offset = s.size; length_of = length value }),
      stored,
    )

abbrev pub on_store :
    Result UndoError TextRef × UndoStore → Result UndoError TextRef × Option UndoStore
on_store (r, s) = (r, some s)

unfoldable pub append_text :
    Written → Option UndoStore → List ℕ → Result UndoError TextRef × Option UndoStore
append_text w store [] = (ok no_text, store)
append_text w none (b ∷ bs) = (err undo_quota, none)
append_text w (some s) (b ∷ bs) =
    if s.closed
    then (err store_closed, some s)
    else if ltb (s.quota - s.size) (length (b ∷ bs))
    then (err undo_quota, some s)
    else on_store (append_stored w s (b ∷ bs))

unfoldable pub read_text : Source → Option UndoStore → TextRef → Result UndoError (List ℕ)
read_text read_at none ref = if ref.length_of == 0 then ok [] else err undo_quota
read_text read_at (some s) ref =
    let r = read_at ref.offset ref.length_of in
    if ref.length_of == 0
    then ok []
    else if s.closed
    then err store_closed
    else if read_stops r.1 (length r.0 == ref.length_of)
    then err file_failed
    else ok r.0

unfoldable pub reset_store :
    Bool → Option UndoStore → Result UndoError (Unit {0}) × Option UndoStore
reset_store truncate_fails none = (ok tt, none)
reset_store truncate_fails (some s) =
    if s.closed
    then (err store_closed, some s)
    else if truncate_fails
    then (err file_failed, some s)
    else (ok tt, some (record s { contents = []; size = 0 }))

unfoldable pub store_bytes : Option UndoStore → ℕ
store_bytes none = 0
store_bytes (some s) = s.size

-- The store behind close, which also removes the file.
unfoldable pub close_store : Option UndoStore → Option UndoStore
close_store none = none
close_store (some s) = some (record s { closed = true })

-- `creates`: the directory and the file are made. No directory: no store.
unfoldable pub open_undo_store : Bool → Bool → ℕ → Result UndoError (Option UndoStore)
open_undo_store has_directory creates quota =
    if not has_directory
    then ok none
    else if creates
    then ok (some (record { closed = false; contents = []; size = 0; quota = quota }))
    else err file_failed
