-- ===== src/Prelude/Readers.antt =====
-- io.ReaderAt and io.Writer: `read_at off want` is the bytes that a ReadAt of `want` bytes stored, and
-- its error.
use Prim.Native.Nat.{ℕ, ◌+◌, ◌≤◌}
use mathlib.Core.Path.{◌≡◌, refl}
use mathlib.Core.Logic.{◌⊎◌, inl, inr}
use docengine.Prelude.Lists.{length, slice}
use mathlib.Core.Bool.{Bool, true, false, not}
use mathlib.Core.Option.{Option, none, some}
use mathlib.Core.List.{List}

-- An error of ReadAt, io.EOF apart from the others.
pub data ReadFault : Type 0 where
  end_of_source read_fault : ReadFault

abbrev pub Source : Type 0
Source = ℕ → ℕ → List ℕ × Option ReadFault

-- `err != nil && !(errors.Is(err, io.EOF) && full)`.
abbrev pub read_stops : Option ReadFault → Bool → Bool
read_stops none full = false
read_stops (some end_of_source) full = not full
read_stops (some read_fault) full = true

-- A read in full does not stop.
pub read_stops_full :
    {P : Type 0} (e : Option ReadFault)
    → (e ≡ none) ⊎ ((e ≡ some end_of_source) × P)
    → read_stops e true ≡ false
read_stops_full e (inl h) = rw h refl
read_stops_full e (inr h) = rw h.0 refl

pub read_stops_lem :
    (e : Option ReadFault) (full : Bool)
    → (e ≡ none) ⊎ ((e ≡ some end_of_source) × (full ≡ true))
    → read_stops e full ≡ false
read_stops_lem e full (inl h) = rw h refl
read_stops_lem e full (inr h) = rw (h.0, h.1) refl

-- A source that holds the text: a read inside it is complete, with no error or, at its end, io.EOF.
abbrev pub Holds : Source → List ℕ → Type 0
Holds read_at text =
    (off want : ℕ)
    → off + want ≤ length text
    → ((read_at off want).0 ≡ slice want off text)
      × (((read_at off want).1 ≡ none)
          ⊎ (((read_at off want).1 ≡ some end_of_source) × (off + want ≡ length text)))

-- The bytes of one Write that reach the file, and whether it returns an error.
pub record Written : Type 0 where
  pub count : ℕ
  pub failed : Bool
