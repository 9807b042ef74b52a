-- ===== src/Virtual/Requests.antt =====
-- document/virtual/window.go: the pages that a request by byte or by measure asks for.
use docengine.Prelude.{
  ℕ, suc, ◌+◌, ◌-◌, min, Bool, ◌&&◌, ◌||◌, ltb, leb, ◌==◌, if◌then◌else◌, List, [], ◌∷◌, none, some,
  length, get_elem?, max_int64, ℤ, is_negative, to_ℕ, Result, ok, err,
}
use docengine.Virtual.Window.{
  VirtualError, Budget, PageMeta, FragmentMeta, PagerState, Chosen, invalid_request, choose_pages,
}

-- The first for which the test holds (sort.Search), or the length.
unfoldable pub first_index {ℓ} : {A : Type ℓ} → (A → Bool) → List A → ℕ
first_index holds [] = 0
first_index holds (x ∷ xs) = let rest = first_index holds xs in if holds x then 0 else suc rest

-- The first for which the test holds, or the last.
unfoldable pub first_or_last {ℓ} : {A : Type ℓ} → (A → Bool) → List A → ℕ
first_or_last holds xs = let i = first_index holds xs in if i == length xs then length xs - 1 else i

unfoldable pub page_at_byte : List PageMeta → ℕ → ℕ → ℕ
page_at_byte ps offset len =
    if offset == len then length ps - 1 else first_or_last (λ (p : PageMeta). ltb offset p.end) ps

unfoldable pub page_before_byte : List PageMeta → ℕ → ℕ → ℕ
page_before_byte ps offset len =
    if offset == 0
    then 0
    else if leb len offset
    then length ps - 1
    else page_at_byte ps (offset - 1) len

-- min(offset + after, end), where the sum may not fit an int64.
abbrev pub reach_after : ℕ → ℕ → ℕ → ℕ
reach_after offset after end =
    if leb offset (max_int64 - after) && ltb (offset + after) end then offset + after else end

-- The part of WindowByByte behind capture, with the budget that it resolves.
unfoldable pub window_by_byte :
    PagerState → ℕ → ℤ → ℤ → ℤ → Result VirtualError Budget → Result VirtualError Chosen
window_by_byte state len offset before after budget =
    let o = to_ℕ offset in
    let anchor = page_at_byte state.pages o len in
    let first =
      if ltb 0 (to_ℕ before)
      then page_at_byte state.pages (o - min o (to_ℕ before)) len
      else anchor in
    let end = reach_after o (to_ℕ after) len in
    let last =
      if ltb 0 (to_ℕ after) && ltb o end then page_before_byte state.pages end len else anchor in
    if is_negative offset || (is_negative before || (is_negative after || ltb len o))
    then err invalid_request
    else elim budget [ err e ↦ err e | ok b ↦ choose_pages state anchor anchor first last b ]

pub data Affinity : Type 0 where
  affinity_before affinity_after : Affinity

abbrev pub fragment_before : List FragmentMeta → ℕ → ℕ
fragment_before fs offset =
    if offset == 0 then 0 else first_index (λ (f : FragmentMeta). leb offset f.measure_start) fs - 1

unfoldable pub fragments_end : List FragmentMeta → ℕ
fragments_end fs = elim (get_elem? fs (length fs - 1)) [
  | none ↦ 0
  | some f ↦ f.measure_start + f.measure
]

unfoldable pub fragment_at_measure : List FragmentMeta → ℕ → Affinity → ℕ
fragment_at_measure fs offset affinity_before =
    if length fs == 1
    then 0
    else if fragments_end fs == 0
    then length fs - 1
    else fragment_before fs offset
fragment_at_measure fs offset affinity_after =
    if length fs == 1
    then 0
    else if fragments_end fs == 0
    then 0
    else first_or_last (λ (f : FragmentMeta). ltb offset (f.measure_start + f.measure)) fs
