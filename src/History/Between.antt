-- ===== src/History/Between.antt =====
-- document/change_history.go: between.
use docengine.Prelude.{
  ℕ, ◌≤◌, ◌≡◌, refl, sym, ap, ◌∙◌, subst, inl, inr, ◌||◌, ◌==◌, ltb, Bool-cases, ltb→lt, ltb→ge,
  ==→eq, List, [], ◌∷◌, All, arith, if◌then◌else◌, none, some, Option-cases, Result, ok, err,
  max_int64, pos, ok-injective, ◌⊎◌, ℤ, not, ◌&&◌, to_ℕ, is_negative, length, fail_if, >>-eq-ok,
  >>=-eq-ok,
}
use docengine.Coordinate.ChangeMap.{
  ChangeMap, EditArg, identity, new_change_map, invalid_change, maximum_edits, too_complex,
  is_empty, check_edits,
}
use docengine.Coordinate.Compose.{compose_all, invert}
use docengine.Coordinate.Validity.{
  IsValid, Chain-fits, new_change_map-IsValid, compose_all-IsValid, invert-IsValid,
}
use docengine.History.Changes.{
  ChangeHistory, Failure, between, boundary_length, find_boundary, joined_chain, retained,
  window_error, coordinate, expired, unavailable,
}
use docengine.History.Retention.{IsRetained}
use docengine.History.Chain.{Bound, boundary_length-Bound, Leads, collect_lem, compose_all-Leads}

-- A map that leads from one revision to another.
abbrev pub Goes : ChangeMap → ℕ → ℕ → Type 0
Goes m from to = (m.before_revision ≡ from) × (m.after_revision ≡ to) × IsValid m

Result-cases {κ} :
    {E : Type 0} {A : Type κ} (r : Result E A) → ((e : E) × (r ≡ err e)) ⊎ ((a : A) × (r ≡ ok a))
Result-cases (err e) = inl (e, refl)
Result-cases (ok a) = inr (a, refl)

new_change_map-ends :
    (before after : ℕ) (len : ℤ) (es : List EditArg) (m : ChangeMap)
    → new_change_map before after len es ≡ ok m
    → (m.before_revision ≡ before) × (m.after_revision ≡ after)
unfolding new_change_map
new_change_map-ends before after len es m h =
    let (first, h1) =
      >>-eq-ok (fail_if (is_negative len || (is_empty es && not (before == after))) invalid_change)
        _ h in
    let (count, h2) = >>-eq-ok (fail_if (ltb maximum_edits (length es)) too_complex) _ h1 in
    let (k, checked, h3) = >>=-eq-ok (check_edits (to_ℕ len) es) _ h2 in
    let e = sym (ok-injective h3) in
    (ap (λ (z : ChangeMap). z.before_revision) e, ap (λ (z : ChangeMap). z.after_revision) e)

identity-Goes :
    (revision len : ℕ) (m : ChangeMap)
    → len ≤ max_int64
    → identity revision (pos len) ≡ ok m
    → Goes m revision revision
unfolding identity new_change_map
identity-Goes revision len m fits h =
    let v = new_change_map-IsValid revision revision (pos len) [] m fits h in
    let ends = new_change_map-ends revision revision (pos len) [] m h in (ends.0, ends.1, v)

find_boundary-le :
    (cs : List ChangeMap) (x l : ℕ) → All IsValid cs → find_boundary cs x ≡ some l → l ≤ max_int64
unfolding find_boundary
find_boundary-le [] x l v h = cc
find_boundary-le (c ∷ cs) x l v h = elim (Bool-cases (x == c.after_revision)) [
  | inl e ↦
      let z : some c.after_length ≡ some l = rw e at h in
      let k : c.after_length ≡ l = cc in
      omega (arith, k, Chain-fits c.before_length c.edits c.after_length v.0.fits v.0.chain)
  | inr e ↦ find_boundary-le cs x l v.1 (rw e at h)
]

boundary_length-le :
    (h : ChangeHistory) (x l : ℕ) → IsRetained h → boundary_length h x ≡ some l → l ≤ max_int64
unfolding boundary_length
boundary_length-le h x l v e = elim (Bool-cases (x == h.base_revision)) [
  | inl f ↦
      let z : some h.base_length ≡ some l = rw f at e in
      let k : h.base_length ≡ l = cc in omega (arith, k, v.base_fits)
  | inr f ↦ find_boundary-le (retained h) x l v.all_valid (rw f at e)
]

joined_chain_lem :
    (h : ChangeHistory) (low len high : ℕ) (m : ChangeMap)
    → IsRetained h
    → Bound h.base_revision (retained h) low
    → Bound h.base_revision (retained h) high
    → low ≤ high
    → len ≤ max_int64
    → joined_chain h low len high ≡ some m
    → Goes m low high
unfolding joined_chain
joined_chain_lem h low len high m v b b' up fits e =
    let z =
      collect_lem h.base_revision h.base_length (retained h) h.current_revision h.current_length low
        high v.linked v.all_valid b b' up in
    elim (Result-cases (identity low (pos len))) [
      | inl (x, f) ↦ let n : none ≡ some m = rw (joined_chain, z.1, f) at e in cc
      | inr (start, f) ↦
          let s = identity-Goes low len start fits f in
          elim (Result-cases (compose_all start z.0)) [
            | inl (x, g) ↦ let n : none ≡ some m = rw (joined_chain, z.1, f, g) at e in cc
            | inr (r, g) ↦
                let same : r ≡ m =
                  let n : some r ≡ some m = rw (joined_chain, z.1, f, g) at e in cc in
                let leads = subst (λ k. Leads k z.0 high) (sym s.1) z.2 in
                let ends = compose_all-Leads start z.0 r high leads g in
                subst (λ k. Goes k low high) same
                  (ends.0 ∙ s.0, ends.1, compose_all-IsValid start z.0 r s.2 z.3 g)
          ]
    ]

invert-Goes : (m : ChangeMap) (from to : ℕ) → Goes m from to → Goes (invert m) to from
unfolding invert
invert-Goes m from to g = (g.1, g.0, invert-IsValid m g.2)

-- The part of between behind its guards and its two lookups.
abbrev bounded : ChangeHistory → ℕ → ℕ → ℕ → ℕ → Result Failure ChangeMap
bounded h from to from_length to_length =
    if from == to
    then elim (identity from (pos from_length)) [ err x ↦ err (coordinate x) | ok m ↦ ok m ]
    else if ltb to from
    then elim (joined_chain h to to_length from) [
      | none ↦ err (window_error h from to unavailable)
      | some m ↦ ok (invert m)
    ]
    else elim (joined_chain h from from_length to) [
      | none ↦ err (window_error h from to unavailable)
      | some m ↦ ok m
    ]

bounded_lem :
    (h : ChangeHistory) (from to from_length to_length : ℕ) (m : ChangeMap)
    → IsRetained h
    → boundary_length h from ≡ some from_length
    → boundary_length h to ≡ some to_length
    → bounded h from to from_length to_length ≡ ok m
    → Goes m from to
bounded_lem h from to from_length to_length m v b b' e =
    let at_from = boundary_length-Bound h from from_length b in
    let at_to = boundary_length-Bound h to to_length b' in
    let from_fits = boundary_length-le h from from_length v b in
    let to_fits = boundary_length-le h to to_length v b' in
    elim (Bool-cases (from == to)) [
      | inl f ↦ elim (Result-cases (identity from (pos from_length))) [
        | inl (x, g) ↦ let n : err (coordinate x) ≡ ok m = rw (f, g) at e in cc
        | inr (r, g) ↦
            let same : r ≡ m = ok-injective (rw (f, g) at e) in
            subst (Goes m from) (==→eq _ _ f)
              (subst (λ k. Goes k from from) same (identity-Goes from from_length r from_fits g))
      ]
      | inr f ↦ elim (Bool-cases (ltb to from)) [
        | inl d ↦ elim (Option-cases (joined_chain h to to_length from)) [
          | inl g ↦
              let n : err (window_error h from to unavailable) ≡ ok m = rw (f, d, g) at e in cc
          | inr (r, g) ↦
              let same : invert r ≡ m = ok-injective (rw (f, d, g) at e) in
              let goes =
                joined_chain_lem h to to_length from r v at_to at_from (omega (arith, ltb→lt _ _ d))
                  to_fits g in
              subst (λ k. Goes k from to) same (invert-Goes r to from goes)
        ]
        | inr d ↦ elim (Option-cases (joined_chain h from from_length to)) [
          | inl g ↦
              let n : err (window_error h from to unavailable) ≡ ok m = rw (f, d, g) at e in cc
          | inr (r, g) ↦
              let same : r ≡ m = ok-injective (rw (f, d, g) at e) in
              subst (λ k. Goes k from to) same
                (joined_chain_lem h from from_length to r v at_from at_to (ltb→ge _ _ d) from_fits
                  g)
        ]
      ]
    ]

-- On a history that satisfies its invariant, a map that between returns leads from the first
-- revision asked for to the second, in either direction, and is valid.
pub between_lem :
    (h : ChangeHistory) (from to : ℕ) (m : ChangeMap)
    → IsRetained h
    → between h from to ≡ ok m
    → Goes m from to
unfolding between
between_lem h from to m v e =
    elim (Bool-cases (ltb from h.base_revision || ltb to h.base_revision)) [
      | inl f ↦ let n : err (window_error h from to expired) ≡ ok m = rw f at e in cc
      | inr f ↦ elim (Bool-cases (ltb h.current_revision from || ltb h.current_revision to)) [
        | inl g ↦ let n : err (window_error h from to unavailable) ≡ ok m = rw (f, g) at e in cc
        | inr g ↦ elim (Option-cases (boundary_length h from)) [
          | inl b ↦
              let n : err (window_error h from to unavailable) ≡ ok m = rw (f, g, b) at e in cc
          | inr (from_length, b) ↦ elim (Option-cases (boundary_length h to)) [
            | inl b' ↦
                let n : err (window_error h from to unavailable) ≡ ok m = rw (f, g, b, b') at e in
                cc
            | inr (to_length, b') ↦
                bounded_lem h from to from_length to_length m v b b' (rw (f, g, b, b') at e)
          ]
        ]
      ]
    ]
