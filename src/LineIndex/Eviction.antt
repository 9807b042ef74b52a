-- ===== src/LineIndex/Eviction.antt =====
-- document/coordinate/cache.go: the loop that evicts windows from the back of the cache.
use docengine.Prelude.{
  ℕ, zero, suc, ◌+◌, ◌-◌, ◌≤◌, ◌≡◌, refl, ltb→lt, inl, inr, ltb, ltb→ge, Bool-cases, List, [], ◌∷◌,
  arith, length, All,
}
use docengine.LineIndex.State.{CacheEntry}
use docengine.LineIndex.Cache.{total_bytes, drop_last, last_bytes, evict}

drop_last-All : (P : CacheEntry → Type 0) (es : List CacheEntry) → All P es → All P (drop_last es)
unfolding drop_last
drop_last-All P [] h = tt
drop_last-All P (e ∷ []) h = tt
drop_last-All P (e ∷ d ∷ es) h = (h.0, drop_last-All P (d ∷ es) h.1)

drop_last-total :
    (es : List CacheEntry) → total_bytes es ≡ total_bytes (drop_last es) + last_bytes es
unfolding drop_last total_bytes last_bytes
drop_last-total [] = omega arith
drop_last-total (e ∷ []) = omega arith
drop_last-total (e ∷ d ∷ es) = omega (arith, drop_last-total (d ∷ es))

length-drop_last : (es : List CacheEntry) → length (drop_last es) ≡ length es - 1
unfolding drop_last
length-drop_last [] = omega arith
length-drop_last (e ∷ []) = omega arith
length-drop_last (e ∷ d ∷ es) = omega (arith, length-drop_last (d ∷ es))

abbrev Evicted : (CacheEntry → Type 0) → ℕ → List CacheEntry × ℕ → Type 0
Evicted P limit r = All P r.0 × (total_bytes r.0 ≡ r.1) × (r.1 ≤ limit)

no_entries : (es : List CacheEntry) → length es ≤ 0 → total_bytes es ≡ 0
unfolding total_bytes
no_entries [] h = refl
no_entries (e ∷ es) h = absurd (omega arith)

-- As much fuel as entries is enough.
pub evict_lem :
    (P : CacheEntry → Type 0) (fuel limit bytes : ℕ) (es : List CacheEntry)
    → length es ≤ fuel
    → All P es
    → total_bytes es ≡ bytes
    → Evicted P limit (evict fuel limit bytes es)
unfolding evict
evict_lem P zero limit bytes es f h e = (h, e, omega (arith, no_entries es f, e))
evict_lem P (suc fuel) limit bytes es f h e = elim (Bool-cases (ltb limit bytes)) [
  | inr g ↦ rw g (h, e, ltb→ge _ _ g)
  | inl g ↦
      let ih =
        evict_lem P fuel limit (bytes - last_bytes es) (drop_last es)
          (omega (arith, length-drop_last es, f)) (drop_last-All P es h)
          (omega (arith, drop_last-total es, e)) in
      rw g ih
]

-- The loop does not evict the entry in front, which fits by itself.
abbrev Fronts : CacheEntry → List CacheEntry → Type 0
Fronts e es = (rest : List CacheEntry) × (es ≡ e ∷ rest)

pub evict-Fronts :
    (fuel limit bytes : ℕ) (e : CacheEntry) (es : List CacheEntry)
    → length e.bytes ≤ limit
    → total_bytes (e ∷ es) ≡ bytes
    → Fronts e (evict fuel limit bytes (e ∷ es)).0
unfolding evict total_bytes drop_last
evict-Fronts zero limit bytes e es h t = (es, refl)
evict-Fronts (suc fuel) limit bytes e [] h t = elim (Bool-cases (ltb limit bytes)) [
  | inr g ↦ rw g ([], refl)
  | inl g ↦ absurd (omega (arith, t, h, ltb→lt _ _ g))
]
evict-Fronts (suc fuel) limit bytes e (d ∷ es) h t = elim (Bool-cases (ltb limit bytes)) [
  | inr g ↦ rw g (d ∷ es, refl)
  | inl g ↦
      let ih =
        evict-Fronts fuel limit (bytes - last_bytes (e ∷ d ∷ es)) e (drop_last (d ∷ es)) h
          (omega (arith, t, drop_last-total (e ∷ d ∷ es))) in
      rw g ih
]
