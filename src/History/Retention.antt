-- ===== src/History/Retention.antt =====
-- document/change_history.go: what append retains.
use docengine.Prelude.{
  ℕ, zero, suc, ◌+◌, ◌-◌, ◌%◌, ◌≤◌, ◌<◌, ◌≡◌, refl, sym, ap, ◌∙◌, subst, max_int64, List, [], ◌∷◌,
  ◌++◌, arith, length, drop, All, All-append,
}
use docengine.Coordinate.ChangeMap.{ChangeMap}
use docengine.Coordinate.Validity.{IsValid, Chain-fits}
use docengine.History.Ring.{slot, window, length-set_at, window_push, window_turn}
use docengine.History.Changes.{ChangeHistory, zero_map, added, turned, retained}
use native.Mathlib.Nat.{mod-lt, mod-eq_of_lt}

-- The maps lead, each from where the last one ended, from one revision and length to another.
abbrev pub Linked : ℕ → ℕ → List ChangeMap → ℕ → ℕ → Type 0
Linked r n [] r' n' = (r ≡ r') × (n ≡ n')
Linked r n (c ∷ cs) r' n' =
    (c.before_revision ≡ r)
    × (c.before_length ≡ n)
    × (r < c.after_revision)
    × Linked c.after_revision c.after_length cs r' n'

-- The ring is well formed, and its entries are valid maps that lead from its base to its current
-- revision and length.
pub record IsRetained (h : ChangeHistory) : Type 0 where
  pub in_ring : h.start < length h.entries
  pub fits : h.count ≤ length h.entries
  pub base_fits : h.base_length ≤ max_int64
  pub linked : Linked h.base_revision h.base_length (retained h) h.current_revision h.current_length
  pub all_valid : All IsValid (retained h)

Linked-snoc :
    (r n : ℕ) (cs : List ChangeMap) (r' n' : ℕ) (c : ChangeMap)
    → Linked r n cs r' n'
    → c.before_revision ≡ r'
    → c.before_length ≡ n'
    → r' < c.after_revision
    → Linked r n (cs ++ c ∷ []) c.after_revision c.after_length
Linked-snoc r n [] r' n' c l a b h = (a ∙ sym l.0, b ∙ sym l.1, omega (arith, l.0), (refl, refl))
Linked-snoc r n (d ∷ cs) r' n' c l a b h =
    (l.0, l.1, l.2, Linked-snoc d.after_revision d.after_length cs r' n' c l.3 a b h)

length-window {ℓ} :
    {A : Type ℓ} (z : A) (xs : List A) (start i n : ℕ) → length (window z xs start i n) ≡ n
unfolding window
length-window z xs start i zero = refl
length-window z xs start i (suc n) = ap suc (length-window z xs start (i + 1) n)

pub length-retained : (h : ChangeHistory) → length (retained h) ≡ h.count
unfolding retained
length-retained h = length-window zero_map h.entries h.start 0 h.count

-- What a ring that keeps `limit` maps retains of them and one more.
abbrev pub kept : ℕ → List ChangeMap → ChangeMap → List ChangeMap
kept limit cs c = drop (length cs + 1 - limit) (cs ++ c ∷ [])

abbrev pub Follows : ChangeHistory → ChangeMap → Type 0
Follows h c =
    (c.before_revision ≡ h.current_revision)
    × (c.before_length ≡ h.current_length)
    × (h.current_revision < c.after_revision)
    × IsValid c

pub retained-added :
    (h : ChangeHistory) (c : ChangeMap)
    → h.start < length h.entries
    → h.count < length h.entries
    → retained (added h c) ≡ retained h ++ c ∷ []
unfolding retained
retained-added h c a b = window_push zero_map h.entries h.start h.count c a b

pub added-IsRetained :
    (h : ChangeHistory) (c : ChangeMap)
    → IsRetained h
    → Follows h c
    → h.count < length h.entries
    → IsRetained (added h c)
added-IsRetained h c v f room =
    let j = (h.start + h.count) % length h.entries in
    let same = length-set_at h.entries j c in
    let e = sym (retained-added h c v.in_ring room) in
    record {
      in_ring = omega (arith, same, v.in_ring);
      fits = omega (arith, same);
      base_fits = v.base_fits;
      linked =
          subst (λ cs. Linked h.base_revision h.base_length cs c.after_revision c.after_length) e
            (Linked-snoc h.base_revision h.base_length (retained h) h.current_revision
              h.current_length c v.linked f.0 f.1 f.2);
      all_valid =
          subst (All IsValid) e (All-append IsValid (retained h) (c ∷ []) v.all_valid (f.3, tt));
    }

-- A ring that is not empty starts with the entry that a full one evicts.
pub retained-cons :
    (h : ChangeHistory) (n : ℕ)
    → h.start < length h.entries
    → h.count ≡ suc n
    → retained h ≡ slot zero_map h.entries h.start ∷ drop 1 (retained h)
unfolding retained window
retained-cons h n a e =
    let first : (h.start + 0) % length h.entries ≡ h.start =
      ap (λ k. k % length h.entries) (omega arith) ∙ mod-eq_of_lt a in
    rw e (ap (λ k. slot zero_map h.entries k ∷ window zero_map h.entries h.start 1 n) first)

pub retained-turned :
    (h : ChangeHistory) (c : ChangeMap) (n : ℕ)
    → h.start < length h.entries
    → h.count ≡ suc n
    → h.count ≡ length h.entries
    → retained (turned h c) ≡ drop 1 (retained h) ++ c ∷ []
unfolding retained
retained-turned h c n a e full = rw e (window_turn zero_map h.entries h.start n c a (sym e ∙ full))

pub turned-IsRetained :
    (h : ChangeHistory) (c : ChangeMap) (n : ℕ)
    → IsRetained h
    → Follows h c
    → h.count ≡ suc n
    → h.count ≡ length h.entries
    → IsRetained (turned h c)
turned-IsRetained h c n v f e full =
    let x = slot zero_map h.entries h.start in
    let rest = drop 1 (retained h) in
    let same = length-set_at h.entries h.start c in
    let first = retained-cons h n v.in_ring e in
    let back = sym (retained-turned h c n v.in_ring e full) in
    let linked : Linked h.base_revision h.base_length (x ∷ rest) h.current_revision
        h.current_length =
      subst (λ cs. Linked h.base_revision h.base_length cs h.current_revision h.current_length)
        first v.linked in
    let valid : All IsValid (x ∷ rest) = subst (All IsValid) first v.all_valid in
    record {
      in_ring =
          subst (λ k. (h.start + 1) % length h.entries < k) (sym same)
            (mod-lt (h.start + 1) (omega (arith, v.in_ring)));
      fits = omega (arith, same, full);
      base_fits = Chain-fits x.before_length x.edits x.after_length valid.0.fits valid.0.chain;
      linked =
          subst (λ cs. Linked x.after_revision x.after_length cs c.after_revision c.after_length)
            back
            (Linked-snoc x.after_revision x.after_length rest h.current_revision h.current_length c
              linked.3 f.0 f.1 f.2);
      all_valid = subst (All IsValid) back (All-append IsValid rest (c ∷ []) valid.1 (f.3, tt));
    }
