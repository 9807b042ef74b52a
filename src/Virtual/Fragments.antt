-- ===== src/Virtual/Fragments.antt =====
-- document/virtual/window.go: the fragments of a window, and their measure.
use mathlib.Core.List.{
  Mem, Nodup, Nodup-nil, Nodup-cons, mem-cons_self, mem-cons_of_mem, not-mem-nil,
  eq-or-mem_of_mem-cons,
}
use mathlib.Core.HLevel.{⊥_prop}
use mathlib.Core.Logic.Or
use docengine.Prelude.{
  skipped, taken, ℕ, zero, suc, ◌+◌, ◌-◌, ◌≤◌, ◌<◌, ◌≡◌, refl, sym, ap, ◌∙◌, subst, true, false,
  ◌==◌, ==→eq, Bool-cases, inl, inr, ◌⊎◌, List, [], ◌∷◌, Option, Option-cases, none, some, arith,
  All, get_elem?,
}
use docengine.Virtual.Window.{
  Budget, PageMeta, FragmentMeta, Usage, Extent, no_usage, has_fragment, measure_of, fits_page,
  add_fragment, add_page_usage, take_anchor, extend_before, extend_after, page_length,
}

has_fragment-Mem : (f : ℕ) (gs : List ℕ) → has_fragment f gs ≡ true → Mem f gs
unfolding has_fragment
has_fragment-Mem f [] h = cc
has_fragment-Mem f (g ∷ gs) h = elim (Bool-cases (g == f)) [
  | inl e ↦ subst (λ z. Mem z (g ∷ gs)) (==→eq _ _ e) mem-cons_self
  | inr e ↦ mem-cons_of_mem g (has_fragment-Mem f gs (rw e at h))
]

new_fragment : (f : ℕ) (gs : List ℕ) → has_fragment f gs ≡ false → ¬ (Mem f gs)
unfolding has_fragment
new_fragment f [] h m = not-mem-nil m
new_fragment f (g ∷ gs) h m = elim (Bool-cases (g == f)) [
  | inl e ↦ let z = rw e at h in cc
  | inr e ↦
      Or.elim ⊥_prop (eq-or-mem_of_mem-cons m) (λ same. ground (arith, same, e))
        (new_fragment f gs (rw e at h))
]

-- The measure of distinct fragments.
abbrev pub measures : List FragmentMeta → List ℕ → ℕ
measures fs [] = 0
measures fs (g ∷ gs) = measure_of fs g + measures fs gs

-- A page from one index to another, the second excluded, names the fragment.
abbrev pub Names : List PageMeta → ℕ → ℕ → ℕ → Type 0
Names ps low high f =
    (i : ℕ) × (p : PageMeta) × (low ≤ i)
    × (i < high)
    × (get_elem? ps i ≡ some p)
    × (p.fragment ≡ some f)

-- A usage counts each fragment that the pages from one index to another name, once, and no other,
-- and measures these.
pub record Covers (ps : List PageMeta) (fs : List FragmentMeta) (low high : ℕ) (u : Usage)
    : Type 0 where
  pub distinct : Nodup u.fragments
  pub measured : u.measure ≡ measures fs u.fragments
  pub counted : (f : ℕ) → Names ps low high f → Mem f u.fragments
  pub named : All (Names ps low high) u.fragments

All-weaken : (P Q : ℕ → Type 0) (xs : List ℕ) → ((x : ℕ) → P x → Q x) → All P xs → All Q xs
All-weaken P Q [] h a = tt
All-weaken P Q (x ∷ xs) h a = (h x a.0, All-weaken P Q xs h a.1)

module _ (ps : List PageMeta) (fs : List FragmentMeta) (low high low' high' k : ℕ) (p : PageMeta)
    (found : get_elem? ps k ≡ some p) (wider : (low' ≤ low) × (high ≤ high'))
    (here : (low' ≤ k) × (k < high'))
    (only : (i : ℕ) → low' ≤ i → i < high' → ((low ≤ i) × (i < high)) ⊎ (i ≡ k)) where
  Names-wider : (f : ℕ) → Names ps low high f → Names ps low' high' f
  Names-wider f (i, q, a, b, e, g) =
      (i, q, omega (arith, a, wider.0), omega (arith, b, wider.1), e, g)

  -- The page that is added names the fragment, or one before it does.
  named_by :
      (gs : List ℕ)
      → ((f : ℕ) → Names ps low high f → Mem f gs)
      → ((f : ℕ) → p.fragment ≡ some f → Mem f gs)
      → (f : ℕ) → Names ps low' high' f
      → Mem f gs
  named_by gs old new f (i, q, a, b, e, g) = elim (only i a b) [
    | inl r ↦ old f (i, q, r.0, r.1, e, g)
    | inr same ↦
        let z : some p ≡ some q = sym found ∙ ap (get_elem? ps) (sym same) ∙ e in
        let page : p ≡ q = cc in new f (ap (λ (x : PageMeta). x.fragment) page ∙ g)
  ]

  add_fragment-Covers :
      (u : Usage) (o : Option ℕ)
      → p.fragment ≡ o
      → Covers ps fs low high u
      → Covers ps fs low' high' (add_fragment fs u o)
  add_fragment-Covers u none e c = record {
    distinct = c.distinct;
    measured = c.measured;
    counted = named_by u.fragments c.counted (λ f g. let z = sym e ∙ g in cc);
    named = All-weaken _ _ u.fragments Names-wider c.named;
  }
  add_fragment-Covers u (some f) e c = elim (Bool-cases (has_fragment f u.fragments)) [
    | inl known ↦ rw known (record {
      distinct = c.distinct;
      measured = c.measured;
      counted = named_by u.fragments c.counted (λ g h.
          let z : some f ≡ some g = sym e ∙ h in
          let same : f ≡ g = cc in
          subst (λ x. Mem x u.fragments) same (has_fragment-Mem f u.fragments known));
      named = All-weaken _ _ u.fragments Names-wider c.named;
    })
    | inr new ↦ rw new (record {
      distinct = Nodup-cons.1 (new_fragment f u.fragments new, c.distinct);
      measured = omega (arith, c.measured);
      counted =
          named_by (f ∷ u.fragments) (λ g n. mem-cons_of_mem f (c.counted g n))
            (λ g h.
              let z : some f ≡ some g = sym e ∙ h in
              let same : f ≡ g = cc in subst (λ x. Mem x (f ∷ u.fragments)) same mem-cons_self);
      named = ((k, p, here.0, here.1, found, e), All-weaken _ _ u.fragments Names-wider c.named);
    })
  ]

  add_page_usage-Covers :
      (u : Usage) → Covers ps fs low high u → Covers ps fs low' high' (add_page_usage fs u p)
  unfolding add_page_usage
  add_page_usage-Covers u c =
      add_fragment-Covers (record u { bytes = u.bytes + page_length p; pages = u.pages + 1 })
        p.fragment refl
        (record {
          distinct = c.distinct;
          measured = c.measured;
          counted = c.counted;
          named = c.named;
        })

pub no_usage-Covers :
    (ps : List PageMeta) (fs : List FragmentMeta) (low : ℕ) → Covers ps fs low low no_usage
no_usage-Covers ps fs low = record {
  distinct = Nodup-nil;
  measured = refl;
  counted = λ f n. absurd (omega (arith, n.2, n.3));
  named = tt;
}

module _ (ps : List PageMeta) (fs : List FragmentMeta) (budget : Budget) where
  -- A page added at the end, and one added at the front.
  add_last :
      (low high : ℕ) (p : PageMeta) (u : Usage)
      → get_elem? ps high ≡ some p
      → low ≤ high
      → Covers ps fs low high u
      → Covers ps fs low (high + 1) (add_page_usage fs u p)
  add_last low high p u e h c =
      add_page_usage-Covers ps fs low high low (high + 1) high p e (omega arith, omega arith)
        (h, omega arith) (λ i a b. ground (arith, a, b)) u c

  add_first :
      (low high : ℕ) (p : PageMeta) (u : Usage)
      → get_elem? ps (low - 1) ≡ some p
      → 0 < low
      → low ≤ high
      → Covers ps fs low high u
      → Covers ps fs (low - 1) high (add_page_usage fs u p)
  add_first low high p u e some_low h c =
      add_page_usage-Covers ps fs low high (low - 1) high (low - 1) p e (omega arith, omega arith)
        (omega arith, omega (arith, some_low, h)) (λ i a b. ground (arith, a, b, some_low)) u c

  pub take_anchor-Covers :
      (low n index : ℕ) (u w : Usage)
      → low ≤ index
      → Covers ps fs low index u
      → take_anchor ps fs budget n index u ≡ some w
      → Covers ps fs low (index + n) w
  unfolding take_anchor
  take_anchor-Covers low zero index u w h c e =
      let same : u ≡ w = cc in
      let z : index ≡ index + 0 = omega arith in
      subst (λ k. Covers ps fs low k w) z (subst (Covers ps fs low index) same c)
  take_anchor-Covers low (suc n) index u w h c e = elim (Option-cases (get_elem? ps index)) [
    | inl f ↦ let z = rw (f, take_anchor) at e in cc
    | inr (p, f) ↦
        let e1 = rw (f, take_anchor) at e in
        elim (Bool-cases (fits_page fs budget u p)) [
          | inr g ↦ let z = sym (skipped (fits_page fs budget u p) _ _ g) ∙ e1 in cc
          | inl g ↦
              let ih =
                take_anchor-Covers low n (index + 1) (add_page_usage fs u p) w (omega (arith, h))
                  (add_last low index p u f h c)
                  (sym (taken (fits_page fs budget u p) _ _ g) ∙ e1) in
              let z : index + 1 + n ≡ index + suc n = omega arith in
              subst (λ k. Covers ps fs low k w) z ih
        ]
  ]

  abbrev pub CoversFrom : ℕ → Extent → Type 0
  CoversFrom high x = Covers ps fs x.edge high x.used

  abbrev pub CoversTo : ℕ → Extent → Type 0
  CoversTo low x = Covers ps fs low (x.edge + 1) x.used

  pub extend_before-Covers :
      (n first high : ℕ) (u : Usage)
      → n ≤ first
      → first ≤ high
      → Covers ps fs first high u
      → CoversFrom high (extend_before ps fs budget n first u)
  unfolding extend_before
  extend_before-Covers zero first high u h k c = c
  extend_before-Covers (suc n) first high u h k c = elim (Option-cases (get_elem? ps (first - 1))) [
    | inl e ↦ rw (extend_before, e) c
    | inr (p, e) ↦ elim (Bool-cases (fits_page fs budget u p)) [
      | inr f ↦ rw (extend_before, e, f) c
      | inl f ↦
          let ih =
            extend_before-Covers n (first - 1) high (add_page_usage fs u p) (omega (arith, h))
              (omega (arith, k)) (add_first first high p u e (omega (arith, h)) k c) in
          rw (extend_before, e, f) ih
    ]
  ]

  pub extend_after-Covers :
      (n low last : ℕ) (u : Usage)
      → low ≤ last + 1
      → Covers ps fs low (last + 1) u
      → CoversTo low (extend_after ps fs budget n last u)
  unfolding extend_after
  extend_after-Covers zero low last u h c = c
  extend_after-Covers (suc n) low last u h c = elim (Option-cases (get_elem? ps (last + 1))) [
    | inl e ↦ rw (extend_after, e) c
    | inr (p, e) ↦ elim (Bool-cases (fits_page fs budget u p)) [
      | inr f ↦ rw (extend_after, e, f) c
      | inl f ↦
          let ih =
            extend_after-Covers n low (last + 1) (add_page_usage fs u p) (omega (arith, h))
              (add_last low (last + 1) p u e h c) in
          rw (extend_after, e, f) ih
    ]
  ]
