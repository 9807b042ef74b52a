-- ===== src/Undo/References.antt =====
-- document/undo_store.go: what the check of a reference, and the search of the ones seen, say of it.
use mathlib.Core.HLevel.{⊥_prop}
use mathlib.Core.Logic.Or
use mathlib.Core.List.{
  Mem, Nodup, Nodup-nil, Nodup-cons, Nodup-append, mem-cons_self, mem-cons_of_mem,
  eq-or-mem_of_mem-cons, not-mem-nil,
}
use docengine.Prelude.{
  ℕ, zero, suc, ◌+◌, ◌-◌, ◌≤◌, ◌≡◌, refl, sym, ap₂, subst, inl, inr, true, false, ◌||◌, ltb, ◌==◌,
  ==→eq, ==_self, &&_true, Bool-cases, List, [], ◌∷◌, ◌++◌, All, arith, ℤ, pos, is_zero,
  is_negative, pos-to_ℕ,
}
use docengine.Undo.Store.{TextRef}
use docengine.Undo.Rewrite.{RefArg, ref_of, signed, same_ref, has_ref}

pub is_zero-eq : (z : ℤ) → is_zero z ≡ true → z ≡ pos 0
is_zero-eq (pos zero) h = refl
is_zero-eq (pos (suc n)) h = cc
is_zero-eq (ℤ.negsuc n) h = cc

-- A reference that passes the check is an unsigned one inside the store.
pub checked_ref :
    (size : ℕ) (r : RefArg)
    → (is_negative r.offset
        || (is_negative r.length_of
            || (ltb size (ref_of r).offset || ltb (size - (ref_of r).offset) (ref_of r).length_of)))
      ≡ false
    → (r ≡ signed (ref_of r)) × ((ref_of r).offset + (ref_of r).length_of ≤ size)
checked_ref size r h =
    let o : is_negative r.offset ≡ false = ground (arith, h) in
    let n : is_negative r.length_of ≡ false = ground (arith, h) in
    (
      ap₂ (λ a b. record { offset = a; length_of = b }) (sym (pos-to_ℕ r.offset o))
          (sym (pos-to_ℕ r.length_of n)),
      ground (arith, h),
    )

same_ref-eq : (a b : TextRef) → same_ref a b ≡ true → b ≡ a
same_ref-eq a b h =
    let e = &&_true (a.offset == b.offset) _ h in
    ap₂ (λ o n. record { offset = o; length_of = n }) (sym (==→eq _ _ e.0)) (sym (==→eq _ _ e.1))

pub has_ref-Mem : (r : TextRef) (rs : List TextRef) → has_ref r rs ≡ true → Mem r rs
unfolding has_ref
has_ref-Mem r [] h = cc
has_ref-Mem r (s ∷ ss) h = elim (Bool-cases (same_ref s r)) [
  | inl e ↦ subst (λ z. Mem z (s ∷ ss)) (sym (same_ref-eq s r e)) mem-cons_self
  | inr e ↦ mem-cons_of_mem s (has_ref-Mem r ss (rw e at h))
]

pub new_ref : (r : TextRef) (rs : List TextRef) → has_ref r rs ≡ false → ¬ (Mem r rs)
unfolding has_ref
new_ref r [] h m = not-mem-nil m
new_ref r (s ∷ ss) h m = elim (Bool-cases (same_ref s r)) [
  | inl e ↦ let z = rw e at h in cc
  | inr e ↦
      Or.elim ⊥_prop (eq-or-mem_of_mem-cons m) (λ same. absurd (differs s r e same))
        (new_ref r ss (rw e at h))
]
  where
    differs : (s r : TextRef) → same_ref s r ≡ false → ¬ (r ≡ s)
    differs s r e same =
        let z : same_ref r r ≡ false = subst (λ k. same_ref k r ≡ false) (sym same) e in
        let t : same_ref r r ≡ true = rw (==_self r.offset, ==_self r.length_of) refl in cc

pub Nodup-snoc : (r : TextRef) (rs : List TextRef) → Nodup rs → ¬ (Mem r rs) → Nodup (rs ++ r ∷ [])
Nodup-snoc r rs d new = Nodup-append.1 (
  d,
  Nodup-cons.1 (not-mem-nil, Nodup-nil),
  λ a m n.
      Or.elim ⊥_prop (eq-or-mem_of_mem-cons n) (λ e. new (subst (λ z. Mem z rs) e m)) not-mem-nil,
)

pub asked_lem :
    (refs rs : List RefArg)
    → ((r : RefArg) → Mem r rs → Mem r refs)
    → All (λ (r : RefArg). (q : TextRef) → r ≡ signed q → Mem (signed q) refs) rs
asked_lem refs [] h = tt
asked_lem refs (r ∷ rs) h = (
  λ q e. subst (λ z. Mem z refs) e (h r mem-cons_self),
  asked_lem refs rs (λ z m. h z (mem-cons_of_mem r m)),
)
