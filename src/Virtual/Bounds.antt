-- ===== src/Virtual/Bounds.antt =====
-- document/virtual/window.go: a window has its anchor, stays within its budget, and says where it was cut.
use docengine.Prelude.{
  skipped, taken, ℕ, zero, suc, ◌+◌, ◌-◌, ◌≤◌, ◌≡◌, refl, sym, ap, ◌∙◌, subst, true, not, ◌||◌,
  &&_true, ltb, leb, leb→le, ltb→lt, Bool-cases, inl, inr, List, Option, Option-cases, none, some,
  arith, length, get_elem?,
}
use docengine.Virtual.Window.{
  Budget, PageMeta, FragmentMeta, Usage, has_fragment, measure_of, page_length, fits_fragment,
  fits_page, add_fragment, add_page_usage, take_anchor,
}

pub record Within (budget : Budget) (u : Usage) : Type 0 where
  pub bytes_fit : u.bytes ≤ budget.bytes
  pub pages_fit : u.pages ≤ budget.pages
  pub fragments_fit : length u.fragments ≤ budget.fragments
  pub measure_fits : u.measure ≤ budget.measure

-- The bytes of `n` pages from an index on.
unfoldable pub bytes_in : List PageMeta → ℕ → ℕ → ℕ
bytes_in ps first zero = 0
bytes_in ps first (suc n) =
    let rest = bytes_in ps (first + 1) n in
    elim (get_elem? ps first) [ none ↦ rest | some p ↦ page_length p + rest ]

add_fragment-Within :
    (fs : List FragmentMeta) (budget : Budget) (u : Usage) (o : Option ℕ)
    → Within budget u
    → fits_fragment fs budget u o ≡ true
    → Within budget (add_fragment fs u o)
add_fragment-Within fs budget u none v h = v
add_fragment-Within fs budget u (some f) v h = elim (Bool-cases (has_fragment f u.fragments)) [
  | inl e ↦ rw e v
  | inr e ↦
      let (room, measure_room) = &&_true _ _ (rw e at h) in
      let more : measure_of fs f ≤ budget.measure - u.measure = leb→le _ _ measure_room in
      rw e (record {
        bytes_fit = v.bytes_fit;
        pages_fit = v.pages_fit;
        fragments_fit = omega (arith, ltb→lt _ _ room);
        measure_fits = omega (arith, more, v.measure_fits);
      })
]

-- The test of a fragment looks at the fragments and the measure alone.
fragment_room :
    (fs : List FragmentMeta) (budget : Budget) (u u' : Usage) (o : Option ℕ)
    → u.fragments ≡ u'.fragments
    → u.measure ≡ u'.measure
    → fits_fragment fs budget u o ≡ true
    → fits_fragment fs budget u' o ≡ true
fragment_room fs budget u u' none e g h = refl
fragment_room fs budget u u' (some f) e g h = rw (← e, ← g) h

pub fits_page-Within :
    (fs : List FragmentMeta) (budget : Budget) (u : Usage) (p : PageMeta)
    → Within budget u
    → fits_page fs budget u p ≡ true
    → Within budget (add_page_usage fs u p)
unfolding fits_page add_page_usage
fits_page-Within fs budget u p v h =
    let (room, fragment_fits) =
      &&_true (not (leb budget.pages u.pages || ltb (budget.bytes - u.bytes) (page_length p)))
        (fits_fragment fs budget u p.fragment) h in
    let u' = record u { bytes = u.bytes + page_length p; pages = u.pages + 1 } in
    add_fragment-Within fs budget u' p.fragment
      (record {
        bytes_fit = ground (arith, room, v.bytes_fit);
        pages_fit = ground (arith, room);
        fragments_fit = v.fragments_fit;
        measure_fits = v.measure_fits;
      })
      (fragment_room fs budget u u' p.fragment refl refl fragment_fits)

pub add_page_usage_lem :
    (fs : List FragmentMeta) (u : Usage) (p : PageMeta)
    → ((add_page_usage fs u p).bytes ≡ u.bytes + page_length p)
      × ((add_page_usage fs u p).pages ≡ u.pages + 1)
unfolding add_page_usage
add_page_usage_lem fs u p = ground arith

-- Pages from one index to another, of which the usage counts the bytes and the number.
pub record Counts (ps : List PageMeta) (budget : Budget) (first last : ℕ) (u : Usage) : Type 0 where
  pub ordered : first ≤ last
  pub bytes_counted : u.bytes ≡ bytes_in ps first (last + 1 - first)
  pub pages_counted : u.pages ≡ last + 1 - first
  pub within : Within budget u

some_injective {ℓ} : {A : Type ℓ} {a b : A} → some a ≡ some b → a ≡ b
some_injective h = cc

pub bytes_in_here :
    (ps : List PageMeta) (n first : ℕ) (p : PageMeta)
    → get_elem? ps first ≡ some p
    → bytes_in ps first (suc n) ≡ page_length p + bytes_in ps (first + 1) n
unfolding bytes_in
bytes_in_here ps n first p h = rw (bytes_in, h) refl

bytes_in_past :
    (ps : List PageMeta) (n first : ℕ)
    → get_elem? ps first ≡ none
    → bytes_in ps first (suc n) ≡ bytes_in ps (first + 1) n
unfolding bytes_in
bytes_in_past ps n first h = rw (bytes_in, h) refl

pub bytes_in_end :
    (ps : List PageMeta) (n first : ℕ) (p : PageMeta)
    → get_elem? ps (first + n) ≡ some p
    → bytes_in ps first (suc n) ≡ bytes_in ps first n + page_length p
unfolding bytes_in
bytes_in_end ps zero first p h =
    let z : first ≡ first + 0 = omega arith in
    bytes_in_here ps zero first p (ap (get_elem? ps) z ∙ h) ∙ omega arith
bytes_in_end ps (suc n) first p h =
    let moved : first + 1 + n ≡ first + suc n = omega arith in
    let ih = bytes_in_end ps n (first + 1) p (ap (get_elem? ps) moved ∙ h) in
    elim (Option-cases (get_elem? ps first)) [
      | inl e ↦
          bytes_in_past ps (suc n) first e
          ∙ ih
          ∙ ap (λ k. k + page_length p) (sym (bytes_in_past ps n first e))
      | inr (q, e) ↦
          omega (arith, bytes_in_here ps (suc n) first q e, ih, bytes_in_here ps n first q e)
    ]

pub take_anchor_lem :
    (ps : List PageMeta) (fs : List FragmentMeta) (budget : Budget) (n index : ℕ) (u w : Usage)
    → Within budget u
    → take_anchor ps fs budget n index u ≡ some w
    → (w.bytes ≡ u.bytes + bytes_in ps index n) × (w.pages ≡ u.pages + n) × Within budget w
unfolding take_anchor bytes_in
take_anchor_lem ps fs budget zero index u w v h =
    let same : u ≡ w = some_injective h in
    (
      omega (arith, ap (λ (k : Usage). k.bytes) same),
      omega (arith, ap (λ (k : Usage). k.pages) same),
      subst (Within budget) same v,
    )
take_anchor_lem ps fs budget (suc n) index u w v h = elim (Option-cases (get_elem? ps index)) [
  | inl e ↦ let z = rw (e, take_anchor) at h in cc
  | inr (p, e) ↦
      let h1 = rw (e, take_anchor) at h in
      elim (Bool-cases (fits_page fs budget u p)) [
        | inr f ↦ let z = sym (skipped (fits_page fs budget u p) _ _ f) ∙ h1 in cc
        | inl f ↦
            let added = add_page_usage_lem fs u p in
            let ih =
              take_anchor_lem ps fs budget n (index + 1) (add_page_usage fs u p) w
                (fits_page-Within fs budget u p v f)
                (sym (taken (fits_page fs budget u p) _ _ f) ∙ h1) in
            (
              omega (arith, ih.0, added.0, bytes_in_here ps n index p e),
              omega (arith, ih.1, added.1),
              ih.2,
            )
      ]
]
