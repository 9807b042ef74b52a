-- ===== src/Undo/Tests.antt =====
-- document/undo_store.go: a store of six bytes, and the theorems applied to it.
use docengine.Prelude.{
  refl, false, none, some, List, [], ◌∷◌, arith, length, slice, pos, negsuc, Source,
}
use docengine.Undo.Store.{UndoStore, TextRef, append_text}
use docengine.Undo.Rewrite.{Writer, RefArg, signed}
use docengine.Undo.Texts.{IsStore, AppendsText, append_text_lem}

abbrev small_store : UndoStore
small_store = record {
  closed = false;
  contents = 10 ∷ 11 ∷ 12 ∷ 13 ∷ 14 ∷ 15 ∷ [];
  size = 6;
  quota = 10;
}

small_store-IsStore : IsStore small_store
small_store-IsStore = record { sized = refl; bounded = omega arith; opened = refl }

abbrev read_store : Source
read_store off want = (slice want off small_store.contents, none)

abbrev good_writes : Writer
good_writes destination bs = record { count = length bs; failed = false }

abbrev last_two : TextRef
last_two = record { offset = 4; length_of = 2 }

abbrev second_two : TextRef
second_two = record { offset = 1; length_of = 2 }

abbrev empty_ref : RefArg
empty_ref = record { offset = negsuc 3; length_of = pos 0 }

abbrev some_refs : List RefArg
some_refs = signed last_two ∷ empty_ref ∷ signed second_two ∷ signed last_two ∷ []

append_text_lem_example :
    AppendsText
      (record { count = 3; failed = false })
      small_store
      (7 ∷ 8 ∷ 9 ∷ [])
      (append_text (record { count = 3; failed = false }) (some small_store) (7 ∷ 8 ∷ 9 ∷ []))
append_text_lem_example =
    append_text_lem (record { count = 3; failed = false }) small_store (7 ∷ 8 ∷ 9 ∷ [])
      small_store-IsStore (record { part = omega arith; whole = λ h. refl })
