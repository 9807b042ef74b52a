-- ===== src/History/Append.antt =====
-- document/change_history.go: append on every branch, and the ring against the list that it stands for.
use docengine.Prelude.{
  ℕ, suc, ◌+◌, ◌-◌, ◌≤◌, ◌<◌, ◌≡◌, ◌≢◌, refl, sym, ap, ◌∙◌, subst, inl, inr, true, false, ◌&&◌,
  ◌==◌, leb, Bool-cases, max_int64, ==→eq, ==→ne, List, [], ◌∷◌, ◌++◌, arith, length, drop,
  if◌then◌else◌,
}
use docengine.Coordinate.ChangeMap.{ChangeMap, Edit, is_empty}
use docengine.Coordinate.Validity.{IsValid, Chain-fits}
use docengine.History.Ring.{window, zeroes, length-zeroes}
use docengine.History.Changes.{
  ChangeHistory, new_change_history, zero_map, append, pushed, reset, retained, continues,
}
use docengine.History.Retention.{
  IsRetained, Follows, kept, length-retained, retained-added, added-IsRetained, retained-cons,
  retained-turned, turned-IsRetained,
}

pub new_change_history-IsRetained :
    (limit revision len : ℕ)
    → 0 < limit
    → len ≤ max_int64
    → IsRetained (new_change_history limit revision len)
unfolding new_change_history retained window
new_change_history-IsRetained limit revision len h k = record {
  in_ring = omega (arith, length-zeroes zero_map limit);
  fits = omega arith;
  base_fits = k;
  linked = (refl, refl);
  all_valid = tt;
}

reset-IsRetained :
    (h : ChangeHistory) (revision len : ℕ)
    → 0 < length h.entries
    → len ≤ max_int64
    → IsRetained (reset h revision len)
unfolding reset retained window
reset-IsRetained h revision len some_room k = record {
  in_ring = omega (arith, length-zeroes zero_map (length h.entries));
  fits = omega arith;
  base_fits = k;
  linked = (refl, refl);
  all_valid = tt;
}

drop_first :
    (cs ds : List ChangeMap) (x c : ChangeMap)
    → cs ≡ x ∷ ds
    → drop 1 (cs ++ c ∷ []) ≡ drop 1 cs ++ c ∷ []
drop_first cs ds x c e = rw e

pushed_lem :
    (h : ChangeHistory) (c : ChangeMap)
    → IsRetained h
    → Follows h c
    → IsRetained (pushed h c) × (retained (pushed h c) ≡ kept (length h.entries) (retained h) c)
unfolding pushed
pushed_lem h c v f = elim (Bool-cases (h.count == length h.entries)) [
  | inl e ↦
      let full = ==→eq _ _ e in
      let n = h.count - 1 in
      let k : h.count ≡ suc n = omega (arith, full, v.in_ring) in
      let one : length (retained h) + 1 - length h.entries ≡ 1 =
        omega (arith, full, length-retained h) in
      rw (e, one)
        (
          turned-IsRetained h c n v f k full,
          retained-turned h c n v.in_ring k full
              ∙ sym (drop_first (retained h) _ _ c (retained-cons h n v.in_ring k)),
        )
  | inr e ↦
      let room : h.count < length h.entries = ground (arith, ==→ne _ _ e, v.fits) in
      let none_left : length (retained h) + 1 - length h.entries ≡ 0 =
        omega (arith, room, length-retained h) in
      rw (e, none_left) (added-IsRetained h c v f room, retained-added h c v.in_ring room)
]

kept_first :
    (h : ChangeHistory) (c : ChangeMap)
    → 0 < length h.entries
    → kept
        (length (reset h c.before_revision c.before_length).entries)
        (retained (reset h c.before_revision c.before_length))
        c
      ≡ c ∷ []
unfolding reset retained window
kept_first h c some_room =
    let e : 0 + 1 - length (zeroes zero_map (length h.entries)) ≡ 0 =
      omega (arith, length-zeroes zero_map (length h.entries)) in
    rw e

is_empty-eq : (es : List Edit) → is_empty es ≡ true → es ≡ []
is_empty-eq [] h = refl
is_empty-eq (e ∷ es) h = cc

is_empty-ne : (es : List Edit) → is_empty es ≡ false → es ≢ []
is_empty-ne [] h = cc
is_empty-ne (e ∷ es) h = λ k. absurd (omega (arith, ap length k))

-- The branch of append for a map with edits, that goes on from revision to revision.
abbrev proceeded : ChangeHistory → ChangeMap → ChangeHistory
proceeded h c =
    if continues h c then pushed h c else pushed (reset h c.before_revision c.before_length) c

append-proceeds :
    (h : ChangeHistory) (c : ChangeMap)
    → is_empty c.edits ≡ false
    → c.before_revision < c.after_revision
    → append h c ≡ proceeded h c
unfolding append
append-proceeds h c full increases =
    let up : leb c.after_revision c.before_revision ≡ false = ground arith in
    elim (Bool-cases (continues h c)) [ inl e ↦ rw (full, e, up) | inr e ↦ rw (full, e) ]

reset-Follows :
    (h : ChangeHistory) (c : ChangeMap)
    → IsValid c
    → c.before_revision < c.after_revision
    → Follows (reset h c.before_revision c.before_length) c
unfolding reset
reset-Follows h c w increases = (refl, refl, increases, w)

continues-Follows :
    (h : ChangeHistory) (c : ChangeMap)
    → IsValid c
    → c.before_revision < c.after_revision
    → continues h c ≡ true
    → Follows h c
continues-Follows h c w increases e =
    let same : (c.before_revision ≡ h.current_revision) × (c.before_length ≡ h.current_length) =
      ground arith in
    (same.0, same.1, omega (arith, same.0, increases), w)

proceeded_lem :
    (h : ChangeHistory) (c : ChangeMap)
    → IsRetained h
    → IsValid c
    → c.before_revision < c.after_revision
    → IsRetained (proceeded h c)
      × (retained (proceeded h c)
          ≡ (if continues h c then kept (length h.entries) (retained h) c else c ∷ []))
proceeded_lem h c v w increases =
    let r = reset h c.before_revision c.before_length in
    elim (Bool-cases (continues h c)) [
      | inl e ↦ rw e (pushed_lem h c v (continues-Follows h c w increases e))
      | inr e ↦
          let z =
            pushed_lem r c
              (reset-IsRetained h c.before_revision c.before_length (omega (arith, v.in_ring))
                w.fits)
              (reset-Follows h c w increases) in
          rw e (z.0, z.1 ∙ kept_first h c (omega (arith, v.in_ring)))
    ]

-- Appending a valid map, to a later revision unless it has no edits, keeps the invariant of the
-- history: its retained maps are valid and lead, without gaps, from its base to its current
-- revision and length.
pub append-IsRetained :
    (h : ChangeHistory) (c : ChangeMap)
    → IsRetained h
    → IsValid c
    → (c.edits ≢ [] → c.before_revision < c.after_revision)
    → IsRetained (append h c)
unfolding append
append-IsRetained h c v w increases = elim (Bool-cases (is_empty c.edits)) [
  | inr e ↦
      let up = increases (is_empty-ne c.edits e) in
      subst IsRetained (sym (append-proceeds h c e up)) (proceeded_lem h c v w up).0
  | inl e ↦
      elim (Bool-cases (
        continues h c
        && (c.after_revision == h.current_revision && c.after_length == h.current_length))) [
          | inl f ↦ rw (e, f) v
          | inr f ↦
              rw (e, f)
                (reset-IsRetained h c.after_revision c.after_length (omega (arith, v.in_ring))
                  (Chain-fits c.before_length c.edits c.after_length w.fits w.chain))
        ]
]

pushed-current :
    (h : ChangeHistory) (c : ChangeMap)
    → ((pushed h c).current_revision ≡ c.after_revision)
      × ((pushed h c).current_length ≡ c.after_length)
unfolding pushed
pushed-current h c = elim (Bool-cases (h.count == length h.entries)) [
  | inl e ↦ rw e (refl, refl)
  | inr e ↦ rw e (refl, refl)
]

proceeded-current :
    (h : ChangeHistory) (c : ChangeMap)
    → ((proceeded h c).current_revision ≡ c.after_revision)
      × ((proceeded h c).current_length ≡ c.after_length)
proceeded-current h c = elim (Bool-cases (continues h c)) [
  | inl e ↦ rw e (pushed-current h c)
  | inr e ↦ rw e (pushed-current (reset h c.before_revision c.before_length) c)
]

-- On a history that satisfies its invariant, appending a valid map to a later revision makes its
-- end the current revision and length, and the ring then stands for the last maps up to its limit,
-- or for that map alone where it does not continue the history.
pub append_lem :
    (h : ChangeHistory) (c : ChangeMap)
    → IsRetained h
    → IsValid c
    → c.before_revision < c.after_revision
    → ((append h c).current_revision ≡ c.after_revision)
      × ((append h c).current_length ≡ c.after_length)
      × (retained (append h c)
          ≡ (if continues h c then kept (length h.entries) (retained h) c else c ∷ []))
append_lem h c v w increases = elim (Bool-cases (is_empty c.edits)) [
  | inl e ↦ absurd (omega (arith, w.unchanged (is_empty-eq c.edits e)))
  | inr e ↦
      let at = proceeded-current h c in
      subst
        (λ k.
          (k.current_revision ≡ c.after_revision)
          × (k.current_length ≡ c.after_length)
          × (retained k
              ≡ (if continues h c then kept (length h.entries) (retained h) c else c ∷ [])))
        (sym (append-proceeds h c e increases)) (at.0, at.1, (proceeded_lem h c v w increases).1)
]
