-- ===== src/Undo/Rewrite.antt =====
-- document/undo_store.go: rewriteContext, for a context that is not canceled, without its reports.
use docengine.Prelude.{
  ℕ, zero, suc, ◌+◌, ◌-◌, min, Bool, false, not, ◌&&◌, ◌||◌, ltb, ◌==◌, if◌then◌else◌, List, [],
  ◌∷◌, ◌++◌, Option, none, some, length, take, max_int64, ℤ, pos, to_ℕ, is_zero, is_negative,
  Result, ok, err, Source, read_stops, Written,
}
use docengine.Undo.Store.{
  UndoError, UndoStore, TextRef, store_closed, unexpected_end, limit_exceeded, file_failed,
  short_write,
}

abbrev pub undo_rewrite_buffer_bytes : ℕ
undo_rewrite_buffer_bytes = 65536

-- What a Write does to a file of which it knows the bytes so far.
abbrev pub Writer : Type 0
Writer = List ℕ → List ℕ → Written

abbrev pub same_ref : TextRef → TextRef → Bool
same_ref a b = a.offset == b.offset && a.length_of == b.length_of

unfoldable pub has_ref : TextRef → List TextRef → Bool
has_ref r [] = false
has_ref r (s ∷ ss) = same_ref s r || has_ref r ss

-- A reference as a caller passes it, with signed fields; an unsigned one among them.
pub record RefArg : Type 0 where
  pub offset : ℤ
  pub length_of : ℤ

abbrev pub ref_of : RefArg → TextRef
ref_of r = record { offset = to_ℕ r.offset; length_of = to_ℕ r.length_of }

abbrev pub signed : TextRef → RefArg
signed q = record { offset = pos q.offset; length_of = pos q.length_of }

-- The loop that checks the references: those that are new, in order, and their bytes.
unfoldable pub unique_refs :
    ℕ → List TextRef → ℕ → List RefArg → Result UndoError (List TextRef × ℕ)
unique_refs size unique live_bytes [] = ok (unique, live_bytes)
unique_refs size unique live_bytes (r ∷ rs) =
    let skipped = unique_refs size unique live_bytes rs in
    let q = ref_of r in
    let added = unique_refs size (unique ++ q ∷ []) (live_bytes + q.length_of) rs in
    if is_zero r.length_of
    then skipped
    else if is_negative r.offset
        || (is_negative r.length_of || (ltb size q.offset || ltb (size - q.offset) q.length_of))
    then err unexpected_end
    else if has_ref q unique
    then skipped
    else if ltb (max_int64 - live_bytes) q.length_of
    then err limit_exceeded
    else added

-- copyUndoReference with `copied` bytes done and `left` bytes to go, of which each round that goes on
-- copies at least one: `fuel` is as many rounds.
unfoldable pub copy_reference : Source → Writer → ℕ → ℕ → ℕ → List ℕ → Result UndoError (List ℕ)
copy_reference read_at write zero at left destination =
    if left == 0 then ok destination else err unexpected_end
copy_reference read_at write (suc fuel) at left destination =
    let want = min undo_rewrite_buffer_bytes left in
    let r = read_at at want in
    let n = length r.0 in
    let w = write destination r.0 in
    let rest = copy_reference read_at write fuel (at + n) (left - n) (destination ++ take n r.0) in
    if left == 0
    then ok destination
    else if ltb want n
    then err unexpected_end
    else if not (n == 0) && w.failed
    then err file_failed
    else if not (n == 0) && not (w.count == n)
    then err short_write
    else if read_stops r.1 (left - n == 0)
    then err file_failed
    else if n == 0
    then err unexpected_end
    else rest

-- The loop over the references: the new file, and where each reference is in it.
unfoldable pub copy_references :
    Source
    → Writer
    → List TextRef
    → List ℕ
    → ℕ
    → Result UndoError (List (TextRef × TextRef) × List ℕ × ℕ)
copy_references read_at write [] destination size = ok ([], destination, size)
copy_references read_at write (r ∷ rs) destination size =
    elim (copy_reference read_at write r.length_of r.offset r.length_of destination) [
      | err x ↦ err x
      | ok copied ↦ elim (copy_references read_at write rs copied (size + r.length_of)) [
        | err x ↦ err x
        | ok (mapping, contents, end) ↦
            ok ((r, record { offset = size; length_of = r.length_of }) ∷ mapping, contents, end)
      ]
    ]

abbrev pub rewritten_store :
    UndoStore
    → Result UndoError (List (TextRef × TextRef) × List ℕ × ℕ)
    → Result UndoError (List (TextRef × TextRef)) × UndoStore
rewritten_store s (err x) = (err x, s)
rewritten_store s (ok (mapping, contents, size)) =
    (ok mapping, record s { contents = contents; size = size })

abbrev pub rewrite_unique :
    Source
    → Writer
    → Bool
    → Bool
    → UndoStore
    → List TextRef
    → Result UndoError (List (TextRef × TextRef)) × UndoStore
rewrite_unique read_at write truncate_fails creates s [] =
    if truncate_fails then (err file_failed, s) else (ok [], record s { contents = []; size = 0 })
rewrite_unique read_at write truncate_fails creates s (r ∷ rs) =
    if creates
    then rewritten_store s (copy_references read_at write (r ∷ rs) [] 0)
    else (err file_failed, s)

-- The result is the mapping, also where the old file cannot be removed.
unfoldable pub rewrite :
    Source
    → Writer
    → Bool
    → Bool
    → UndoStore
    → List RefArg
    → Result UndoError (List (TextRef × TextRef)) × UndoStore
rewrite read_at write truncate_fails creates s refs =
    if s.closed then (err store_closed, s) else elim (unique_refs s.size [] 0 refs) [
      | err x ↦ (err x, s)
      | ok (unique, live_bytes) ↦ rewrite_unique read_at write truncate_fails creates s unique
    ]

abbrev pub on_rewritten :
    Result UndoError (List (TextRef × TextRef)) × UndoStore
    → Result UndoError (List (TextRef × TextRef)) × Option UndoStore
on_rewritten (r, s) = (r, some s)

unfoldable pub rewrite_context :
    Source
    → Writer
    → Bool
    → Bool
    → Option UndoStore
    → List RefArg
    → Result UndoError (List (TextRef × TextRef)) × Option UndoStore
rewrite_context read_at write truncate_fails creates none refs = (ok [], none)
rewrite_context read_at write truncate_fails creates (some s) refs =
    on_rewritten (rewrite read_at write truncate_fails creates s refs)
