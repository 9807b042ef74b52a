-- ===== src/Virtual/Pages.antt =====
-- document/virtual/window.go: pageAtByte finds the page of an offset.
use docengine.Prelude.{
  ℕ, ◌≤◌, ◌<◌, ◌≡◌, refl, false, ltb, ltb→lt, ltb→ge, ◌==◌, Bool-cases, inl, inr, List, [], ◌∷◌,
  some, arith, length, get_elem?,
}
use docengine.Virtual.Window.{PageMeta}
use docengine.Virtual.Requests.{first_index, first_or_last, page_at_byte}

-- Pages that follow each other from an offset to the length of the text, none of them empty.
abbrev pub Tiles : ℕ → ℕ → List PageMeta → Type 0
Tiles len from [] = from ≡ len
Tiles len from (p ∷ ps) = (p.start ≡ from) × (from < p.end) × Tiles len p.end ps

abbrev pub HasByte : List PageMeta → ℕ → ℕ → Type 0
HasByte ps i offset =
    (p : PageMeta) × (get_elem? ps i ≡ some p) × (p.start ≤ offset) × (offset < p.end)

first_index_lem :
    (len from offset : ℕ) (ps : List PageMeta)
    → Tiles len from ps
    → from ≤ offset
    → offset < len
    → HasByte ps (first_index (λ (p : PageMeta). ltb offset p.end) ps) offset
      × (first_index (λ (p : PageMeta). ltb offset p.end) ps < length ps)
unfolding first_index
first_index_lem len from offset [] t h k = absurd (omega (arith, t, h, k))
first_index_lem len from offset (p ∷ ps) t h k = elim (Bool-cases (ltb offset p.end)) [
  | inl e ↦ rw e ((p, refl, omega (arith, t.0, h), ltb→lt _ _ e), omega arith)
  | inr e ↦
      let ih = first_index_lem len p.end offset ps t.2 (ltb→ge _ _ e) k in
      rw e (ih.0, omega (arith, ih.1))
]

-- Where the pages tile a text from its start to its end, none of them empty, pageAtByte of an
-- offset before the end is the index of a page that has the byte at this offset.
pub page_at_byte_lem :
    (ps : List PageMeta) (offset len : ℕ)
    → Tiles len 0 ps
    → offset < len
    → HasByte ps (page_at_byte ps offset len) offset
unfolding page_at_byte first_or_last
page_at_byte_lem ps offset len t k =
    let found = first_index_lem len 0 offset ps t (omega arith) k in
    let inside : (offset == len) ≡ false = ground (arith, k) in
    let not_last : (first_index (λ (p : PageMeta). ltb offset p.end) ps == length ps) ≡ false =
      ground (arith, found.1) in
    rw (inside, not_last) found.0
