-- ===== src/Coordinate/Validity.antt =====
-- document/coordinate/changemap.go: what NewChangeMap checks, and that the operations keep it.
use docengine.Prelude.{
  ℕ, ◌+◌, ◌-◌, ◌≤◌, ◌≡◌, refl, sym, ap, ◌∙◌, subst, Bool, false, not, ◌==◌, List, [], ◌∷◌, ◌++◌,
  map, map-append, arith, length, length-append, length-map, max_int64, ℤ, to_ℕ, is_negative, ok,
  fail_if, >>-eq-ok, >>=-eq-ok, fail_if-eq-ok, ok-injective, All, ◌||◌, ◌&&◌, ltb, ltb→ge,
}
use mathlib.Core.List.{reverse, reverse-cons}
use docengine.Coordinate.ChangeMap.{
  Edit, EditArg, ChangeMap, edit_of, check_edit, check_edits, new_change_map, maximum_edits,
  is_empty, revision_mismatch, length_mismatch, invalid_change, too_complex,
}
use docengine.Coordinate.Compose.{compose_loop, compose_all, invert, invert_edit}

-- The edits, one behind the other, lead from a document of `n` bytes to one of `m`.
abbrev pub Chain : ℕ → List Edit → ℕ → Type 0
Chain n [] m = n ≡ m
Chain n (e ∷ es) m =
    (e.start + e.old_length ≤ n)
    × (n - e.old_length + e.new_length ≤ max_int64)
    × Chain (n - e.old_length + e.new_length) es m

pub record IsValid (m : ChangeMap) : Type 0 where
  pub chain : Chain m.before_length m.edits m.after_length
  pub fits : m.before_length ≤ max_int64
  pub few : length m.edits ≤ maximum_edits
  pub unchanged : m.edits ≡ [] → m.before_revision ≡ m.after_revision

check_edit_iff :
    (n : ℕ) (e : EditArg) (m : ℕ)
    → n ≤ max_int64
    → check_edit n e ≡ ok m
    → ((edit_of e).start + (edit_of e).old_length ≤ n)
      × (m ≤ max_int64)
      × (n - (edit_of e).old_length + (edit_of e).new_length ≡ m)
unfolding check_edit
check_edit_iff n e m fits h = ground arith

check_edits-Chain :
    (n : ℕ) (es : List EditArg) (m : ℕ)
    → n ≤ max_int64
    → check_edits n es ≡ ok m
    → Chain n (map edit_of es) m
unfolding check_edits
check_edits-Chain n [] m fits h = ok-injective h
check_edits-Chain n (e ∷ es) m fits h =
    let (k, first, rest) = >>=-eq-ok (check_edit n e) _ h in
    let c = check_edit_iff n e k fits first in
    (
      c.0,
      omega arith,
      subst (λ j. Chain j (map edit_of es) m) (sym c.2) (check_edits-Chain k es m c.1 rest),
    )

unchanged_empty :
    (es : List EditArg) (a b : ℕ) (neg : Bool)
    → (neg || (is_empty es && not (a == b))) ≡ false
    → map edit_of es ≡ []
    → a ≡ b
unchanged_empty [] a b neg h e = ground arith
unchanged_empty (x ∷ es) a b neg h e = cc

-- Every map that NewChangeMap returns, from an int64 length, is valid: its edits form a chain of
-- in-range edits from the length before to the length after, without overflow.
pub new_change_map-IsValid :
    (before after : ℕ) (len : ℤ) (es : List EditArg) (m : ChangeMap)
    → to_ℕ len ≤ max_int64
    → new_change_map before after len es ≡ ok m
    → IsValid m
unfolding new_change_map
new_change_map-IsValid before after len es m fits h =
    let (first, h1) =
      >>-eq-ok (fail_if (is_negative len || (is_empty es && not (before == after))) invalid_change)
        _ h in
    let (count, h2) = >>-eq-ok (fail_if (ltb maximum_edits (length es)) too_complex) _ h1 in
    let (k, checked, h3) = >>=-eq-ok (check_edits (to_ℕ len) es) _ h2 in
    subst IsValid (ok-injective h3) (record {
      chain = check_edits-Chain (to_ℕ len) es k fits checked;
      fits = fits;
      few = omega (arith, length-map edit_of es, ltb→ge _ _ (fail_if-eq-ok _ _ count));
      unchanged =
          λ e. unchanged_empty es before after (is_negative len) (fail_if-eq-ok _ _ first) e;
    })

Chain-append :
    (n : ℕ) (es fs : List Edit) (k m : ℕ) → Chain n es k → Chain k fs m → Chain n (es ++ fs) m
Chain-append n [] fs k m c d = subst (λ j. Chain j fs m) (sym c) d
Chain-append n (e ∷ es) fs k m c d =
    (c.0, c.1, Chain-append (n - e.old_length + e.new_length) es fs k m c.2 d)

pub Chain-fits : (n : ℕ) (es : List Edit) (m : ℕ) → n ≤ max_int64 → Chain n es m → m ≤ max_int64
Chain-fits n [] m h c = omega arith
Chain-fits n (e ∷ es) m h c = Chain-fits (n - e.old_length + e.new_length) es m c.1 c.2

Chain-invert :
    (n : ℕ) (es : List Edit) (m : ℕ)
    → n ≤ max_int64
    → Chain n es m
    → Chain m (map invert_edit (reverse es)) n
Chain-invert n [] m h c = sym c
Chain-invert n (e ∷ es) m h c =
    let k = n - e.old_length + e.new_length in
    let back : k - e.new_length + e.old_length ≡ n = omega (arith, c.0) in
    rw (reverse-cons e es, map-append invert_edit (reverse es) (e ∷ []))
      (Chain-append m (map invert_edit (reverse es)) (invert_edit e ∷ []) k n
        (Chain-invert k es m c.1 c.2) (omega (arith, c.0), omega arith, back))

length-reverse : (es : List Edit) → length (reverse es) ≡ length es
length-reverse [] = refl
length-reverse (e ∷ es) =
    omega
      (arith, ap length (reverse-cons e es), length-append (reverse es) (e ∷ []), length-reverse es)

empty_of_length : (es fs : List Edit) → length es ≡ length fs → fs ≡ [] → es ≡ []
empty_of_length [] fs h e = refl
empty_of_length (x ∷ es) fs h e = absurd (omega (arith, ap length e))

-- The inverse of a valid map is a valid map.
pub invert-IsValid : (m : ChangeMap) → IsValid m → IsValid (invert m)
unfolding invert
invert-IsValid m v =
    let n : length (map invert_edit (reverse m.edits)) ≡ length m.edits =
      length-map invert_edit (reverse m.edits) ∙ length-reverse m.edits in
    record {
      chain = Chain-invert m.before_length m.edits m.after_length v.fits v.chain;
      fits = Chain-fits m.before_length m.edits m.after_length v.fits v.chain;
      few = omega (arith, n, v.few);
      unchanged = λ e. sym (v.unchanged (empty_of_length m.edits _ (sym n) e));
    }

append_empty : (es fs : List Edit) → es ++ fs ≡ [] → (es ≡ []) × (fs ≡ [])
append_empty [] fs h = (refl, h)
append_empty (e ∷ es) fs h = absurd (omega (arith, ap length h))

-- What the loop of ComposeAll reaches.
compose_loop_lem :
    (revision len total : ℕ) (cs : List ChangeMap) (r : ℕ × ℕ × List Edit)
    → All IsValid cs
    → total ≤ maximum_edits
    → compose_loop revision len total cs ≡ ok r
    → Chain len r.2 r.1 × (total + length r.2 ≤ maximum_edits) × (r.2 ≡ [] → revision ≡ r.0)
unfolding compose_loop
compose_loop_lem revision len total [] r v small h =
    let e = ok-injective h in
    subst
      (λ (z : ℕ × ℕ × List Edit).
        Chain len z.2 z.1 × (total + length z.2 ≤ maximum_edits) × (z.2 ≡ [] → revision ≡ z.0))
      e (refl, omega arith, λ _. refl)
compose_loop_lem revision len total (c ∷ cs) r v small h =
    let (rev, h1) =
      >>-eq-ok (fail_if (not (revision == c.before_revision)) revision_mismatch) _ h in
    let (lens, h2) = >>-eq-ok (fail_if (not (len == c.before_length)) length_mismatch) _ h1 in
    let (room, h3) =
      >>-eq-ok (fail_if (ltb (maximum_edits - total) (length c.edits)) too_complex) _ h2 in
    let (z, looped, h4) =
      >>=-eq-ok (compose_loop c.after_revision c.after_length (total + length c.edits) cs) _ h3 in
    let same_revision : revision ≡ c.before_revision = ground (arith, fail_if-eq-ok _ _ rev) in
    let same_length : len ≡ c.before_length = ground (arith, fail_if-eq-ok _ _ lens) in
    let fits = ltb→ge _ _ (fail_if-eq-ok _ _ room) in
    let ih =
      compose_loop_lem c.after_revision c.after_length (total + length c.edits) cs z v.1
        (omega arith) looped in
    subst
      (λ (z : ℕ × ℕ × List Edit).
        Chain len z.2 z.1 × (total + length z.2 ≤ maximum_edits) × (z.2 ≡ [] → revision ≡ z.0))
      (ok-injective h4)
      (
        Chain-append len c.edits z.2 c.after_length z.1
            (subst (λ k. Chain k c.edits c.after_length) (sym same_length) v.0.chain) ih.0,
        omega (arith, length-append c.edits z.2, ih.1),
        λ e.
            same_revision
            ∙ v.0.unchanged (append_empty c.edits z.2 e).0
            ∙ ih.2 (append_empty c.edits z.2 e).1,
      )

-- Composing a chain of valid maps gives a valid map.
pub compose_all-IsValid :
    (m : ChangeMap) (cs : List ChangeMap) (r : ChangeMap)
    → IsValid m
    → All IsValid cs
    → compose_all m cs ≡ ok r
    → IsValid r
unfolding compose_all
compose_all-IsValid m cs r v vs h =
    let (z, looped, h1) =
      >>=-eq-ok (compose_loop m.after_revision m.after_length (length m.edits) cs) _ h in
    let l =
      compose_loop_lem m.after_revision m.after_length (length m.edits) cs z vs v.few looped in
    subst IsValid (ok-injective h1) (record {
      chain = Chain-append m.before_length m.edits z.2 m.after_length z.1 v.chain l.0;
      fits = v.fits;
      few = omega (arith, length-append m.edits z.2, l.1);
      unchanged =
          λ e. v.unchanged (append_empty m.edits z.2 e).0 ∙ l.2 (append_empty m.edits z.2 e).1;
    })
