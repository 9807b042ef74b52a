-- ===== src/History/Chain.antt =====
-- document/change_history.go: the maps that between collects lead from its cursor to its end.
use docengine.Prelude.{
  ℕ, ◌+◌, ◌-◌, ◌≤◌, ◌<◌, ◌≡◌, refl, sym, ap, ◌∙◌, ◌⊎◌, inl, inr, false, not, ◌||◌, ◌==◌, ltb, leb,
  Bool-cases, leb→le, leb→gt, length, ==→eq, List, [], ◌∷◌, arith, All, Option, some, ok, >>-eq-ok,
  >>=-eq-ok, ok-injective, fail_if,
}
use docengine.Coordinate.ChangeMap.{
  ChangeMap, Edit, maximum_edits, revision_mismatch, length_mismatch, too_complex,
}
use docengine.Coordinate.Compose.{compose_loop, compose_all}
use docengine.Coordinate.Validity.{IsValid}
use docengine.History.Changes.{ChangeHistory, find_boundary, boundary_length, collect, retained}
use docengine.History.Retention.{Linked}

-- A boundary of the maps that start at revision `r`.
abbrev pub Bound : ℕ → List ChangeMap → ℕ → Type 0
Bound r [] x = x ≡ r
Bound r (c ∷ cs) x = (x ≡ r) ⊎ Bound c.after_revision cs x

-- The maps lead from one revision to another.
abbrev pub Leads : ℕ → List ChangeMap → ℕ → Type 0
Leads r [] r' = r ≡ r'
Leads r (c ∷ cs) r' = (c.before_revision ≡ r) × Leads c.after_revision cs r'

Bound-start : (r : ℕ) (cs : List ChangeMap) (x : ℕ) → x ≡ r → Bound r cs x
Bound-start r [] x e = e
Bound-start r (c ∷ cs) x e = inl e

find_boundary-Bound :
    (r : ℕ) (cs : List ChangeMap) (x l : ℕ) → find_boundary cs x ≡ some l → Bound r cs x
unfolding find_boundary
find_boundary-Bound r [] x l h = cc
find_boundary-Bound r (c ∷ cs) x l h = elim (Bool-cases (x == c.after_revision)) [
  | inl e ↦ inr (Bound-start c.after_revision cs x (==→eq _ _ e))
  | inr e ↦ inr (find_boundary-Bound c.after_revision cs x l (rw e at h))
]

pub boundary_length-Bound :
    (h : ChangeHistory) (x l : ℕ)
    → boundary_length h x ≡ some l
    → Bound h.base_revision (retained h) x
unfolding boundary_length
boundary_length-Bound h x l e = elim (Bool-cases (x == h.base_revision)) [
  | inl f ↦ Bound-start h.base_revision (retained h) x (==→eq _ _ f)
  | inr f ↦ find_boundary-Bound h.base_revision (retained h) x l (rw f at e)
]

Bound-ge :
    (r n : ℕ) (cs : List ChangeMap) (r' n' x : ℕ) → Linked r n cs r' n' → Bound r cs x → r ≤ x
Bound-ge r n [] r' n' x l b = omega (arith, b)
Bound-ge r n (c ∷ cs) r' n' x l (inl e) = omega (arith, e)
Bound-ge r n (c ∷ cs) r' n' x l (inr b) =
    let k = Bound-ge c.after_revision c.after_length cs r' n' x l.3 b in omega (arith, k, l.2)

Bound-tail :
    (r x : ℕ) (c : ChangeMap) (cs : List ChangeMap)
    → Bound r (c ∷ cs) x
    → r < x
    → Bound c.after_revision cs x
Bound-tail r x c cs (inl e) h = absurd (omega (arith, e))
Bound-tail r x c cs (inr b) h = b

-- A boundary before the first map's end is its start.
Bound-first :
    (r n x : ℕ) (c : ChangeMap) (cs : List ChangeMap) (r' n' : ℕ)
    → Linked c.after_revision c.after_length cs r' n'
    → Bound r (c ∷ cs) x
    → x < c.after_revision
    → x ≡ r
Bound-first r n x c cs r' n' l (inl e) h = e
Bound-first r n x c cs r' n' l (inr b) h =
    absurd (omega (arith, Bound-ge c.after_revision c.after_length cs r' n' x l b))

-- What a run of the loop collects.
abbrev Collected : ℕ → ℕ → Option (List ChangeMap) → Type 0
Collected cursor high got =
    (chain : List ChangeMap) × (got ≡ some chain) × Leads cursor chain high × All IsValid chain

pub collect_lem :
    (r n : ℕ) (cs : List ChangeMap) (r' n' cursor high : ℕ)
    → Linked r n cs r' n'
    → All IsValid cs
    → Bound r cs cursor
    → Bound r cs high
    → cursor ≤ high
    → Collected cursor high (collect high cursor cs)
unfolding collect
collect_lem r n [] r' n' cursor high l v b b' h = ([], refl, omega (arith, b, b'), tt)
collect_lem r n (c ∷ cs) r' n' cursor high l v b b' h = elim (Bool-cases (leb high cursor)) [
  | inl e ↦ rw e ([], refl, omega (arith, leb→le _ _ e, h), tt)
  | inr e ↦
      let up = leb→gt _ _ e in
      let fits =
        Bound-tail r high c cs b' (omega (arith, up, Bound-ge r n (c ∷ cs) r' n' cursor l b)) in
      elim (Bool-cases (leb c.after_revision cursor)) [
        | inl f ↦
            let past = leb→le _ _ f in
            rw (e, f)
              (collect_lem c.after_revision c.after_length cs r' n' cursor high l.3 v.1
                (Bound-tail r cursor c cs b (omega (arith, l.2, past))) fits h)
        | inr f ↦
            let at = Bound-first r n cursor c cs r' n' l.3 b (leb→gt _ _ f) in
            let inside = Bound-ge c.after_revision c.after_length cs r' n' high l.3 fits in
            let ih =
              collect_lem c.after_revision c.after_length cs r' n' c.after_revision high l.3 v.1
                (Bound-start c.after_revision cs c.after_revision refl) fits inside in
            let guard : (not (c.before_revision == cursor) || ltb high c.after_revision) ≡ false =
              ground (arith, at, l.0, inside) in
            rw (e, f, guard, ih.1) (c ∷ ih.0, refl, (l.0 ∙ sym at, ih.2), (v.0, ih.3))
      ]
]

-- ComposeAll of maps that lead from one revision to another ends there.
compose_loop-Leads :
    (revision len total : ℕ) (cs : List ChangeMap) (r : ℕ × ℕ × List Edit) (high : ℕ)
    → Leads revision cs high
    → compose_loop revision len total cs ≡ ok r
    → r.0 ≡ high
unfolding compose_loop
compose_loop-Leads revision len total [] r high l h =
    ap (λ (z : ℕ × ℕ × List Edit). z.0) (sym (ok-injective h)) ∙ l
compose_loop-Leads revision len total (c ∷ cs) r high l h =
    let (a, h1) = >>-eq-ok (fail_if (not (revision == c.before_revision)) revision_mismatch) _ h in
    let (b, h2) = >>-eq-ok (fail_if (not (len == c.before_length)) length_mismatch) _ h1 in
    let (d, h3) =
      >>-eq-ok (fail_if (ltb (maximum_edits - total) (length c.edits)) too_complex) _ h2 in
    let (z, looped, h4) =
      >>=-eq-ok (compose_loop c.after_revision c.after_length (total + length c.edits) cs) _ h3 in
    ap (λ (y : ℕ × ℕ × List Edit). y.0) (sym (ok-injective h4))
    ∙ compose_loop-Leads c.after_revision c.after_length (total + length c.edits) cs z high l.1
        looped

pub compose_all-Leads :
    (m : ChangeMap) (cs : List ChangeMap) (r : ChangeMap) (high : ℕ)
    → Leads m.after_revision cs high
    → compose_all m cs ≡ ok r
    → (r.before_revision ≡ m.before_revision) × (r.after_revision ≡ high)
unfolding compose_all
compose_all-Leads m cs r high l h =
    let (z, looped, h1) =
      >>=-eq-ok (compose_loop m.after_revision m.after_length (length m.edits) cs) _ h in
    let e = ok-injective h1 in
    (
      ap (λ (y : ChangeMap). y.before_revision) (sym e),
      ap (λ (y : ChangeMap). y.after_revision) (sym e)
          ∙ compose_loop-Leads m.after_revision m.after_length (length m.edits) cs z high l looped,
    )
