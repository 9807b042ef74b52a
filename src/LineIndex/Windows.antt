-- ===== src/LineIndex/Windows.antt =====
-- document/coordinate/index.go and cache.go: a window holds the bytes of the text, read or cached, and
-- the cache keeps to its limit.
use docengine.Prelude.{
  read_stops_full, Holds, Source, ℕ, zero, suc, ◌+◌, ◌-◌, ◌%◌, u64_mod, ◌≤◌, ◌≡◌, refl, sym, ap,
  ap₂, ◌<◌, ◌⊎◌, ltb→lt, ◌∙◌, subst, inl, inr, true, false, ◌||◌, ◌==◌, ltb, ==→eq, Bool-cases,
  List, [], ◌∷◌, append-nil, none, some, Option-cases, ok, arith, length, slice, length-slice, All,
}
use docengine.LineIndex.State.{Index, CacheEntry}
use docengine.LineIndex.Cache.{
  find_entry, remove_entry, move_to_front, cached_window, total_bytes, store_window,
}
use docengine.LineIndex.Query.{fill}
use docengine.LineIndex.Eviction.{evict_lem, evict-Fronts}

fill_nothing : (read_at : Source) (fuel off : ℕ) → fill read_at fuel off 0 ≡ ok []
unfolding fill
fill_nothing read_at zero off = refl
fill_nothing read_at (suc fuel) off = refl

-- As much fuel as bytes is enough.
pub fill_lem :
    (read_at : Source) (text : List ℕ) (off want : ℕ)
    → Holds read_at text
    → off + want ≤ length text
    → fill read_at want off want ≡ ok (slice want off text)
unfolding fill
fill_lem read_at text off zero holds h = refl
fill_lem read_at text off (suc k) holds h =
    let (bytes, stop) = holds off (suc k) h in
    let n : length (read_at off (suc k)).0 ≡ suc k =
      ap length bytes ∙ length-slice (suc k) off text ∙ omega arith in
    let left : suc k - suc k ≡ 0 = omega arith in
    let same : (suc k == suc k) ≡ true = ground arith in
    let some_want : (suc k == 0) ≡ false = ground arith in
    let no_more : ltb (suc k) (suc k) ≡ false = ground arith in
    rw
      (
        n,
        left,
        same,
        some_want,
        no_more,
        read_stops_full (read_at off (suc k)).1 stop,
        fill_nothing read_at k (off + suc k),
      )
      (ap ok (append-nil (read_at off (suc k)).0 ∙ bytes))

-- A cache of windows of the text, of as many bytes as it counts, within its limit.
abbrev pub IsWindow : List ℕ → ℕ → CacheEntry → Type 0
IsWindow text block e = e.bytes ≡ slice (block + 4) e.start text

pub record IsCacheOf (text : List ℕ) (i : Index) : Type 0 where
  pub windows : All (IsWindow text i.checkpoint_bytes) i.cache
  pub counted : total_bytes i.cache ≡ i.cache_bytes
  pub bounded : i.cache_bytes ≤ i.max_cache_bytes

find_entry_lem :
    (P : CacheEntry → Type 0) (es : List CacheEntry) (start : ℕ) (e : CacheEntry)
    → All P es
    → find_entry es start ≡ some e
    → P e × (e.start ≡ start)
unfolding find_entry
find_entry_lem P [] start e h f = cc
find_entry_lem P (d ∷ es) start e h f = elim (Bool-cases (d.start == start)) [
  | inl g ↦
      let z : some d ≡ some e = rw g at f in
      let same : d ≡ e = cc in
      (subst P same h.0, subst (λ (k : CacheEntry). k.start ≡ start) same (==→eq _ _ g))
  | inr g ↦ find_entry_lem P es start e h.1 (rw g at f)
]

remove_entry-All :
    (P : CacheEntry → Type 0) (es : List CacheEntry) (start : ℕ)
    → All P es
    → All P (remove_entry es start)
unfolding remove_entry
remove_entry-All P [] start h = tt
remove_entry-All P (d ∷ es) start h = elim (Bool-cases (d.start == start)) [
  | inl g ↦ rw g h.1
  | inr g ↦ rw g (h.0, remove_entry-All P es start h.1)
]

remove_entry-total :
    (es : List CacheEntry) (start : ℕ) (e : CacheEntry)
    → find_entry es start ≡ some e
    → total_bytes es ≡ length e.bytes + total_bytes (remove_entry es start)
unfolding find_entry remove_entry total_bytes
remove_entry-total [] start e f = cc
remove_entry-total (d ∷ es) start e f = elim (Bool-cases (d.start == start)) [
  | inl g ↦
      let z : some d ≡ some e = rw g at f in
      let same : d ≡ e = cc in rw g (ap (λ (k : CacheEntry). length k.bytes + total_bytes es) same)
  | inr g ↦ let ih = remove_entry-total es start e (rw g at f) in rw g (omega (arith, ih))
]

-- What the cache operations leave as it is.
pub record SameText (i i' : Index) : Type 0 where
  pub same_checkpoints : i'.checkpoints ≡ i.checkpoints
  pub same_block : i'.checkpoint_bytes ≡ i.checkpoint_bytes
  pub same_length : i'.byte_length ≡ i.byte_length
  pub same_runes : i'.rune_count ≡ i.rune_count
  pub same_lines : i'.line_count ≡ i.line_count
  pub same_closed : i'.closed ≡ i.closed

abbrev Cached : List ℕ → Index → Index → Type 0
Cached text i i' = IsCacheOf text i' × SameText i i'

moved_lem :
    (text : List ℕ) (i : Index) (start h m : ℕ) (e : CacheEntry)
    → IsCacheOf text i
    → find_entry i.cache start ≡ some e
    → Cached text i (record i { cache = move_to_front i.cache e; cache_hits = h; cache_misses = m })
unfolding move_to_front total_bytes
moved_lem text i start h m e v f =
    let z = find_entry_lem (IsWindow text i.checkpoint_bytes) i.cache start e v.windows f in
    let t =
      remove_entry-total i.cache e.start e
        (subst (λ k. find_entry i.cache k ≡ some e) (sym z.1) f) in
    (
      record {
        windows =
            (z.0, remove_entry-All (IsWindow text i.checkpoint_bytes) i.cache e.start v.windows);
        counted = omega (arith, t, v.counted);
        bounded = v.bounded;
      },
      ground arith,
    )

pushed_total :
    (e : CacheEntry) (es : List CacheEntry) (n : ℕ)
    → total_bytes es ≡ n
    → total_bytes (e ∷ es) ≡ n + length e.bytes
unfolding total_bytes
pushed_total e es n h = omega (arith, h)

-- Two indexes differ in the cache alone.
abbrev pub SameButCache : Index → Index → Type 0
SameButCache i i' = i' ≡ record i { cache = i'.cache; cache_bytes = i'.cache_bytes }

pub SameButCache-SameText : (i i' : Index) → SameButCache i i' → SameText i i'
SameButCache-SameText i i' e = record {
  same_checkpoints = ap (λ (k : Index). k.checkpoints) e;
  same_block = ap (λ (k : Index). k.checkpoint_bytes) e;
  same_length = ap (λ (k : Index). k.byte_length) e;
  same_runes = ap (λ (k : Index). k.rune_count) e;
  same_lines = ap (λ (k : Index). k.line_count) e;
  same_closed = ap (λ (k : Index). k.closed) e;
}

-- A window is first in the cache, unless the cache is off, too small for it or closed.
abbrev pub IsStored : Index → ℕ → List ℕ → Index → Type 0
IsStored i start bs i' =
    (i.max_cache_bytes ≡ 0)
    ⊎ (i.max_cache_bytes < length bs)
    ⊎ (i.closed ≡ true)
    ⊎ ((rest : List CacheEntry) × (i'.cache ≡ record { start = start; bytes = bs } ∷ rest))

outside_cache :
    (i i' : Index) (start : ℕ) (bs : List ℕ)
    → (i.max_cache_bytes == 0 || (ltb i.max_cache_bytes (length bs) || i.closed)) ≡ true
    → IsStored i start bs i'
outside_cache i i' start bs g = elim (Bool-cases (i.max_cache_bytes == 0)) [
  | inl a ↦ inl (==→eq _ _ a)
  | inr a ↦ elim (Bool-cases (ltb i.max_cache_bytes (length bs))) [
    | inl b ↦ inr (inl (ltb→lt _ _ b))
    | inr b ↦ inr (inr (inl (rw (a, b) at g)))
  ]
]

stored_first :
    (i : Index) (start : ℕ) (bs : List ℕ) (e : CacheEntry)
    → e.start ≡ start
    → e.bytes ≡ bs
    → (rest : List CacheEntry) × (move_to_front i.cache e
        ≡ record { start = start; bytes = bs } ∷ rest)
unfolding move_to_front
stored_first i start bs e h k = (
  remove_entry i.cache e.start,
  ap₂ (λ s b. record { start = s; bytes = b } ∷ remove_entry i.cache e.start) h k,
)

-- Storing the window of a text that starts at an offset in a cache of windows of the text leaves
-- such a cache: it counts the bytes that it holds, and they are within its limit; nothing else of
-- the index changes; and the window is first in the cache, unless the index is closed, its cache is
-- off or the window is larger than its limit.
pub store_window_lem :
    (text : List ℕ) (i : Index) (start : ℕ) (bs : List ℕ)
    → IsCacheOf text i
    → bs ≡ slice (i.checkpoint_bytes + 4) start text
    → IsCacheOf text (store_window i start bs)
      × SameButCache i (store_window i start bs)
      × IsStored i start bs (store_window i start bs)
unfolding store_window
store_window_lem text i start bs v w =
    elim (Bool-cases (i.max_cache_bytes == 0 || (ltb i.max_cache_bytes (length bs) || i.closed))) [
      | inl g ↦ rw g (v, refl, outside_cache i i start bs g)
      | inr g ↦ elim (Option-cases (find_entry i.cache start)) [
        | inr (e, f) ↦
            let z = find_entry_lem (IsWindow text i.checkpoint_bytes) i.cache start e v.windows f in
            let same_bytes : e.bytes ≡ bs =
              z.0 ∙ ap (λ k. slice (i.checkpoint_bytes + 4) k text) z.1 ∙ sym w in
            rw (g, f)
              (
                (moved_lem text i start i.cache_hits i.cache_misses e v f).0,
                refl,
                inr (inr (inr (stored_first i start bs e z.1 same_bytes))),
              )
        | inl f ↦
            let entry : CacheEntry = record { start = start; bytes = bs } in
            let pushed = entry ∷ i.cache in
            let ev =
              evict_lem (IsWindow text i.checkpoint_bytes) (length pushed) i.max_cache_bytes
                (i.cache_bytes + length bs) pushed (omega arith) (w, v.windows)
                (pushed_total entry i.cache i.cache_bytes v.counted) in
            let front =
              evict-Fronts (length pushed) i.max_cache_bytes (i.cache_bytes + length bs) entry
                i.cache (ground (arith, g)) (pushed_total entry i.cache i.cache_bytes v.counted) in
            rw (g, f)
              (
                record { windows = ev.0; counted = ev.1; bounded = ev.2 },
                refl,
                inr (inr (inr front)),
              )
      ]
    ]

pub cached_window_lem :
    (text : List ℕ) (i : Index) (start : ℕ) (e : CacheEntry)
    → IsCacheOf text i
    → find_entry i.cache start ≡ some e
    → (e.bytes ≡ slice (i.checkpoint_bytes + 4) start text)
      × IsCacheOf text
          (record i { cache = move_to_front i.cache e; cache_hits = (i.cache_hits + 1) % u64_mod })
      × SameText i
          (record i { cache = move_to_front i.cache e; cache_hits = (i.cache_hits + 1) % u64_mod })
cached_window_lem text i start e v f =
    let z = find_entry_lem (IsWindow text i.checkpoint_bytes) i.cache start e v.windows f in
    let m = moved_lem text i start ((i.cache_hits + 1) % u64_mod) i.cache_misses e v f in
    (z.0 ∙ ap (λ k. slice (i.checkpoint_bytes + 4) k text) z.1, m.0, m.1)

pub missed_window_lem :
    (text : List ℕ) (i : Index) (m : ℕ)
    → IsCacheOf text i
    → IsCacheOf text (record i { cache_misses = m }) × SameText i (record i { cache_misses = m })
missed_window_lem text i m v =
    (record { windows = v.windows; counted = v.counted; bounded = v.bounded }, ground arith)

pub cached_window_hit :
    (i : Index) (start : ℕ) (e : CacheEntry)
    → find_entry i.cache start ≡ some e
    → cached_window i start ≡ (
      some e.bytes,
      record i { cache = move_to_front i.cache e; cache_hits = (i.cache_hits + 1) % u64_mod },
    )
unfolding cached_window
cached_window_hit i start e f = rw (f, cached_window)

pub cached_window_miss :
    (i : Index) (start : ℕ)
    → find_entry i.cache start ≡ none
    → cached_window i start ≡ (none, record i { cache_misses = (i.cache_misses + 1) % u64_mod })
unfolding cached_window
cached_window_miss i start f = rw (f, cached_window)
