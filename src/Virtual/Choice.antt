-- ===== src/Virtual/Choice.antt =====
-- document/virtual/window.go: what the pages of a window are.
use docengine.Prelude.{
  passed, ℕ, zero, suc, ◌+◌, ◌-◌, ◌≤◌, ◌≡◌, sym, ap, ◌∙◌, subst, true, ◌||◌, ltb, leb, ge→ltb,
  lt→ltb, Bool-cases, inl, inr, List, Option-cases, arith, length, get_elem?, ok, ok-injective,
}
use docengine.Virtual.Window.{
  Budget, PageMeta, FragmentMeta, PagerState, Usage, Extent, Chosen, no_usage, fits_page,
  add_page_usage, take_anchor, extend_before, extend_after, choose_pages, invalid_request,
}
use docengine.Virtual.Fragments.{
  Covers, no_usage-Covers, take_anchor-Covers, extend_before-Covers, extend_after-Covers,
}
use docengine.Virtual.Bounds.{
  Within, Counts, bytes_in, bytes_in_here, bytes_in_end, add_page_usage_lem, fits_page-Within,
  take_anchor_lem,
}

abbrev pub ExtendsBefore : List PageMeta → Budget → ℕ → ℕ → ℕ → Extent → Type 0
ExtendsBefore ps budget n first last x =
    Counts ps budget x.edge last x.used
    × (first - n ≤ x.edge)
    × (x.edge ≤ first)
    × (x.truncated ≡ ltb (first - n) x.edge)

abbrev pub ExtendsAfter : List PageMeta → Budget → ℕ → ℕ → ℕ → Extent → Type 0
ExtendsAfter ps budget n first last x =
    Counts ps budget first x.edge x.used
    × (x.edge ≤ last + n)
    × (last ≤ x.edge)
    × (x.truncated ≡ ltb x.edge (last + n))

module _ (ps : List PageMeta) (fs : List FragmentMeta) (budget : Budget) where
  stopped_before :
      (n first last : ℕ) (u : Usage)
      → Counts ps budget first last u
      → suc n ≤ first
      → ExtendsBefore ps budget
          (suc n)
          first
          last
          (record { edge = first; used = u; truncated = true })
  stopped_before n first last u c h =
      (c, omega arith, omega arith, sym (lt→ltb (first - suc n) first (omega (arith, h))))

  extend_before_lem :
      (n first last : ℕ) (u : Usage)
      → Counts ps budget first last u
      → n ≤ first
      → ExtendsBefore ps budget n first last (extend_before ps fs budget n first u)
  unfolding extend_before
  extend_before_lem zero first last u c h =
      (c, omega arith, omega arith, sym (ge→ltb (first - 0) first (omega arith)))
  extend_before_lem (suc n) first last u c h = elim (Option-cases (get_elem? ps (first - 1))) [
    | inl e ↦ rw (extend_before, e) (stopped_before n first last u c h)
    | inr (p, e) ↦ elim (Bool-cases (fits_page fs budget u p)) [
      | inr f ↦ rw (extend_before, e, f) (stopped_before n first last u c h)
      | inl f ↦
          let added = add_page_usage_lem fs u p in
          let s : last + 1 - (first - 1) ≡ suc (last + 1 - first) = omega (arith, c.ordered, h) in
          let back : first - 1 + 1 ≡ first = omega (arith, h) in
          let bytes = bytes_in_here ps (last + 1 - first) (first - 1) p e in
          let moved : bytes_in ps (first - 1 + 1) (last + 1 - first)
              ≡ bytes_in ps first (last + 1 - first) =
            ap (λ k. bytes_in ps k (last + 1 - first)) back in
          let whole : bytes_in ps (first - 1) (last + 1 - (first - 1))
              ≡ bytes_in ps (first - 1) (suc (last + 1 - first)) =
            ap (bytes_in ps (first - 1)) s in
          let ih =
            extend_before_lem n (first - 1) last (add_page_usage fs u p)
              (record {
                ordered = omega (arith, c.ordered);
                bytes_counted = omega (arith, added.0, c.bytes_counted, bytes, moved, whole);
                pages_counted = omega (arith, added.1, c.pages_counted, s);
                within = fits_page-Within fs budget u p c.within f;
              })
              (omega (arith, h)) in
          let same : first - 1 - n ≡ first - suc n = omega arith in
          rw (extend_before, e, f)
            (
              ih.0,
              omega (arith, ih.1, same),
              omega (arith, ih.2),
              ih.3
                  ∙ ap
                      (λ k.
                        ltb k
                          (extend_before ps fs budget n (first - 1) (add_page_usage fs u p)).edge)
                      same,
            )
    ]
  ]

  stopped_after :
      (n first last : ℕ) (u : Usage)
      → Counts ps budget first last u
      → ExtendsAfter ps budget
          (suc n)
          first
          last
          (record { edge = last; used = u; truncated = true })
  stopped_after n first last u c =
      (c, omega arith, omega arith, sym (lt→ltb last (last + suc n) (omega arith)))

  extend_after_lem :
      (n first last : ℕ) (u : Usage)
      → Counts ps budget first last u
      → ExtendsAfter ps budget n first last (extend_after ps fs budget n last u)
  unfolding extend_after
  extend_after_lem zero first last u c =
      (c, omega arith, omega arith, sym (ge→ltb last (last + 0) (omega arith)))
  extend_after_lem (suc n) first last u c = elim (Option-cases (get_elem? ps (last + 1))) [
    | inl e ↦ rw (extend_after, e) (stopped_after n first last u c)
    | inr (p, e) ↦ elim (Bool-cases (fits_page fs budget u p)) [
      | inr f ↦ rw (extend_after, e, f) (stopped_after n first last u c)
      | inl f ↦
          let added = add_page_usage_lem fs u p in
          let size = last + 1 - first in
          let s : last + 1 + 1 - first ≡ suc size = omega (arith, c.ordered) in
          let place : last + 1 ≡ first + size = omega (arith, c.ordered) in
          let bytes = bytes_in_end ps size first p (ap (get_elem? ps) (sym place) ∙ e) in
          let whole : bytes_in ps first (last + 1 + 1 - first) ≡ bytes_in ps first (suc size) =
            ap (bytes_in ps first) s in
          let ih = extend_after_lem n first (last + 1) (add_page_usage fs u p) (record {
            ordered = omega (arith, c.ordered);
            bytes_counted = omega (arith, added.0, c.bytes_counted, bytes, whole);
            pages_counted = omega (arith, added.1, c.pages_counted, s);
            within = fits_page-Within fs budget u p c.within f;
          }) in
          let same : last + 1 + n ≡ last + suc n = omega arith in
          rw (extend_after, e, f)
            (
              ih.0,
              omega (arith, ih.1, same),
              omega (arith, ih.2),
              ih.3
                  ∙ ap (ltb (extend_after ps fs budget n (last + 1) (add_page_usage fs u p)).edge)
                      same,
            )
    ]
  ]

-- What a window is of a request for the pages from one to another around its anchor.
pub record IsChosen (state : PagerState) (anchor_first anchor_last desired_first desired_last : ℕ)
    (budget : Budget) (c : Chosen) : Type 0 where
  pub anchored : (c.first ≤ anchor_first) × (anchor_last ≤ c.last)
  pub desired : (desired_first ≤ c.first) × (c.last ≤ desired_last)
  pub counts : Counts state.pages budget c.first c.last c.used
  pub fragments : Covers state.pages state.fragments c.first (c.last + 1) c.used
  pub cut_before : c.truncated_before ≡ ltb desired_first c.first
  pub cut_after : c.truncated_after ≡ ltb c.last desired_last

no_usage-Within : (budget : Budget) → Within budget no_usage
no_usage-Within budget = record {
  bytes_fit = omega arith;
  pages_fit = omega arith;
  fragments_fit = omega arith;
  measure_fits = omega arith;
}

-- Where readWindow finds pages for a window, they are consecutive, have the anchor among them and
-- no page that was not asked for; the bytes and pages that it counts are those of these pages, the
-- fragments those that these pages name, each once, and the measure that of these fragments, and
-- all four are within the budget; and it reports a side as cut exactly where it leaves out pages
-- asked for on that side.
pub choose_pages_lem :
    (state : PagerState) (anchor_first anchor_last desired_first desired_last : ℕ) (budget : Budget)
    (c : Chosen)
    → choose_pages state anchor_first anchor_last desired_first desired_last budget ≡ ok c
    → IsChosen state anchor_first anchor_last desired_first desired_last budget c
unfolding choose_pages
choose_pages_lem state af al df dl budget c h =
    let (guards, h1) =
      passed
        (ltb al af
          || (leb (length state.pages) al
              || (ltb af df || (ltb dl al || leb (length state.pages) dl))))
        invalid_request _ h in
    let ps = state.pages in
    let fs = state.fragments in
    let ordered : (af ≤ al) × (df ≤ af) × (al ≤ dl) = ground (arith, guards) in
    elim (Option-cases (take_anchor ps fs budget (al + 1 - af) af no_usage)) [
      | inl e ↦ let z = rw e at h1 in cc
      | inr (u, e) ↦
          let a =
            take_anchor_lem ps fs budget (al + 1 - af) af no_usage u (no_usage-Within budget) e in
          let before = extend_before ps fs budget (af - df) af u in
          let after = extend_after ps fs budget (dl - al) al before.used in
          let b =
            extend_before_lem ps fs budget (af - df) af al u
              (record {
                ordered = ordered.0;
                bytes_counted = omega (arith, a.0);
                pages_counted = omega (arith, a.1);
                within = a.2;
              })
              (omega arith) in
          let f = extend_after_lem ps fs budget (dl - al) before.edge al before.used b.0 in
          let anchored : Covers ps fs af (al + 1) u =
            subst (λ k. Covers ps fs af k u) (omega (arith, ordered))
              (take_anchor-Covers ps fs budget af (al + 1 - af) af no_usage u (omega arith)
                (no_usage-Covers ps fs af) e) in
          let covered =
            extend_after-Covers ps fs budget (dl - al) before.edge al before.used
              (omega (arith, b.2, ordered))
              (extend_before-Covers ps fs budget (af - df) af (al + 1) u (omega arith)
                (omega (arith, ordered)) anchored) in
          let back : af - (af - df) ≡ df = omega (arith, ordered) in
          let on : al + (dl - al) ≡ dl = omega (arith, ordered) in
          subst (IsChosen state af al df dl budget) (ok-injective (rw e at h1)) (record {
            anchored = (b.2, f.2);
            desired = (omega (arith, b.1, back), omega (arith, f.1, on));
            counts = f.0;
            fragments = covered;
            cut_before = b.3 ∙ ap (λ k. ltb k before.edge) back;
            cut_after = f.3 ∙ ap (ltb after.edge) on;
          })
    ]
