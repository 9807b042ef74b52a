-- ===== src/Virtual/Window.antt =====
-- document/virtual/window.go: the part of readWindow that chooses the pages, and resolveBudget of
-- document/virtual/pager.go. Pages and fragments have the fields by which a window is chosen.
use docengine.Prelude.{
  ℕ, zero, suc, ◌+◌, ◌-◌, Bool, true, false, not, ◌&&◌, ◌||◌, ltb, leb, ◌==◌, if◌then◌else◌, List,
  [], ◌∷◌, Option, none, some, length, get_elem?, ℤ, is_negative, is_zero, to_ℕ, Result, ok, err,
}

pub data VirtualError : Type 0 where
  invalid_request revision_mismatch stale_generation budget_exceeded : VirtualError
  fragment_not_found measure_unavailable pager_closed : VirtualError

pub record Budget : Type 0 where
  pub bytes : ℕ
  pub pages : ℕ
  pub fragments : ℕ
  pub measure : ℕ

-- `fragment`: none where the index of the code is negative.
pub record PageMeta : Type 0 where
  pub start : ℕ
  pub end : ℕ
  pub fragment : Option ℕ

pub record FragmentMeta : Type 0 where
  pub id : ℕ
  pub measure : ℕ
  pub measure_start : ℕ
  pub page_first : ℕ
  pub page_last : ℕ

pub record PagerState : Type 0 where
  pub generation : ℕ
  pub pages : List PageMeta
  pub fragments : List FragmentMeta
  pub total_measure : ℕ

-- `fragments`: the keys of the set.
pub record Usage : Type 0 where
  pub bytes : ℕ
  pub pages : ℕ
  pub fragments : List ℕ
  pub measure : ℕ

abbrev pub no_usage : Usage
no_usage = record { bytes = 0; pages = 0; fragments = []; measure = 0 }

unfoldable pub has_fragment : ℕ → List ℕ → Bool
has_fragment f [] = false
has_fragment f (g ∷ gs) = g == f || has_fragment f gs

-- The measure of a fragment of a page; a page names a fragment that is there.
unfoldable pub measure_of : List FragmentMeta → ℕ → ℕ
measure_of fs f = elim (get_elem? fs f) [ none ↦ 0 | some m ↦ m.measure ]

abbrev pub page_length : PageMeta → ℕ
page_length p = p.end - p.start

abbrev pub fits_fragment : List FragmentMeta → Budget → Usage → Option ℕ → Bool
fits_fragment fs budget current none = true
fits_fragment fs budget current (some f) =
    has_fragment f current.fragments
    || (ltb (length current.fragments) budget.fragments
        && leb (measure_of fs f) (budget.measure - current.measure))

unfoldable pub fits_page : List FragmentMeta → Budget → Usage → PageMeta → Bool
fits_page fs budget current p =
    not (leb budget.pages current.pages || ltb (budget.bytes - current.bytes) (page_length p))
    && fits_fragment fs budget current p.fragment

abbrev pub add_fragment : List FragmentMeta → Usage → Option ℕ → Usage
add_fragment fs current none = current
add_fragment fs current (some f) =
    if has_fragment f current.fragments then current else record current {
      fragments = f ∷ current.fragments;
      measure = current.measure + measure_of fs f;
    }

unfoldable pub add_page_usage : List FragmentMeta → Usage → PageMeta → Usage
add_page_usage fs current p =
    add_fragment fs
      (record current { bytes = current.bytes + page_length p; pages = current.pages + 1 })
      p.fragment

-- The three loops of readWindow over `n` pages: from an anchor on, all of which have to fit; backwards
-- from `first`, and forwards from `last`, as long as they fit. An index behind the pages, on which the
-- code would panic, ends them.
unfoldable pub take_anchor :
    List PageMeta → List FragmentMeta → Budget → ℕ → ℕ → Usage → Option Usage
take_anchor ps fs budget zero index current = some current
take_anchor ps fs budget (suc n) index current = elim (get_elem? ps index) [
  | none ↦ none
  | some p ↦
      let rest = take_anchor ps fs budget n (index + 1) (add_page_usage fs current p) in
      if fits_page fs budget current p then rest else none
]

pub record Extent : Type 0 where
  pub edge : ℕ
  pub used : Usage
  pub truncated : Bool

unfoldable pub extend_before : List PageMeta → List FragmentMeta → Budget → ℕ → ℕ → Usage → Extent
extend_before ps fs budget zero first current = record {
  edge = first;
  used = current;
  truncated = false;
}
extend_before ps fs budget (suc n) first current =
    let stopped : Extent = record { edge = first; used = current; truncated = true } in
    elim (get_elem? ps (first - 1)) [
      | none ↦ stopped
      | some p ↦
          let rest = extend_before ps fs budget n (first - 1) (add_page_usage fs current p) in
          if fits_page fs budget current p then rest else stopped
    ]

unfoldable pub extend_after : List PageMeta → List FragmentMeta → Budget → ℕ → ℕ → Usage → Extent
extend_after ps fs budget zero last current = record {
  edge = last;
  used = current;
  truncated = false;
}
extend_after ps fs budget (suc n) last current =
    let stopped : Extent = record { edge = last; used = current; truncated = true } in
    elim (get_elem? ps (last + 1)) [
      | none ↦ stopped
      | some p ↦
          let rest = extend_after ps fs budget n (last + 1) (add_page_usage fs current p) in
          if fits_page fs budget current p then rest else stopped
    ]

-- The window before its pages are read.
pub record Chosen : Type 0 where
  pub first : ℕ
  pub last : ℕ
  pub used : Usage
  pub truncated_before : Bool
  pub truncated_after : Bool

unfoldable pub choose_pages : PagerState → ℕ → ℕ → ℕ → ℕ → Budget → Result VirtualError Chosen
choose_pages state anchor_first anchor_last desired_first desired_last budget =
    let ps = state.pages in
    let fs = state.fragments in
    if ltb anchor_last anchor_first
      || (leb (length ps) anchor_last
          || (ltb anchor_first desired_first
              || (ltb desired_last anchor_last || leb (length ps) desired_last)))
    then err invalid_request
    else elim (take_anchor ps fs budget (anchor_last + 1 - anchor_first) anchor_first no_usage) [
      | none ↦ err budget_exceeded
      | some anchored ↦
          let before =
            extend_before ps fs budget (anchor_first - desired_first) anchor_first anchored in
          let after =
            extend_after ps fs budget (desired_last - anchor_last) anchor_last before.used in
          ok (record {
            first = before.edge;
            last = after.edge;
            used = after.used;
            truncated_before = before.truncated;
            truncated_after = after.truncated;
          })
    ]

-- A field of a request; 0 asks for the limit.
abbrev pub budget_field : ℤ → ℕ → ℤ
budget_field asked limit = if is_zero asked then ℤ.pos limit else asked

abbrev pub is_bad_field : ℤ → ℕ → Bool
is_bad_field asked limit = is_negative asked || (to_ℕ asked == 0 || ltb limit (to_ℕ asked))

unfoldable pub resolve_budget : Budget → ℤ → ℤ → ℤ → ℤ → Result VirtualError Budget
resolve_budget limits bytes pages fragments measure =
    let b = budget_field bytes limits.bytes in
    let p = budget_field pages limits.pages in
    let f = budget_field fragments limits.fragments in
    let m = budget_field measure limits.measure in
    if is_bad_field b limits.bytes
      || (is_bad_field p limits.pages
          || (is_bad_field f limits.fragments || is_bad_field m limits.measure))
    then err invalid_request
    else ok (record { bytes = to_ℕ b; pages = to_ℕ p; fragments = to_ℕ f; measure = to_ℕ m })
