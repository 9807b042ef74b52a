-- ===== src/LineIndex/Cache.antt =====
-- document/coordinate/cache.go: the cache of query windows, least recently used last.
use docengine.Prelude.{
  ℕ, zero, suc, ◌+◌, ◌-◌, ◌%◌, ◌||◌, ltb, ◌==◌, if◌then◌else◌, List, [], ◌∷◌, Option, none, some,
  length, u64_mod,
}
use docengine.LineIndex.State.{Index, CacheEntry}

unfoldable pub find_entry : List CacheEntry → ℕ → Option CacheEntry
find_entry [] start = none
find_entry (e ∷ es) start =
    let rest = find_entry es start in if e.start == start then some e else rest

unfoldable pub remove_entry : List CacheEntry → ℕ → List CacheEntry
remove_entry [] start = []
remove_entry (e ∷ es) start =
    let rest = remove_entry es start in if e.start == start then es else e ∷ rest

-- MoveToFront.
unfoldable pub move_to_front : List CacheEntry → CacheEntry → List CacheEntry
move_to_front es e = e ∷ remove_entry es e.start

unfoldable pub cached_window : Index → ℕ → Option (List ℕ) × Index
cached_window i start = elim (find_entry i.cache start) [
  | none ↦ (none, record i { cache_misses = (i.cache_misses + 1) % u64_mod })
  | some e ↦ (
    some e.bytes,
    record i { cache = move_to_front i.cache e; cache_hits = (i.cache_hits + 1) % u64_mod },
  )
]

-- The eviction loop, from the back: which entries stay within `limit`, and their bytes. The code
-- takes entries off the back while the bytes exceed the limit.
unfoldable pub total_bytes : List CacheEntry → ℕ
total_bytes [] = 0
total_bytes (e ∷ es) = length e.bytes + total_bytes es

unfoldable pub drop_last : List CacheEntry → List CacheEntry
drop_last [] = []
drop_last (e ∷ []) = []
drop_last (e ∷ d ∷ es) = e ∷ drop_last (d ∷ es)

unfoldable pub last_bytes : List CacheEntry → ℕ
last_bytes [] = 0
last_bytes (e ∷ []) = length e.bytes
last_bytes (e ∷ d ∷ es) = last_bytes (d ∷ es)

-- The loop runs at most once for each entry, which is its fuel.
unfoldable pub evict : ℕ → ℕ → ℕ → List CacheEntry → List CacheEntry × ℕ
evict zero limit bytes es = (es, bytes)
evict (suc fuel) limit bytes es =
    let rest = evict fuel limit (bytes - last_bytes es) (drop_last es) in
    if ltb limit bytes then rest else (es, bytes)

unfoldable pub store_window : Index → ℕ → List ℕ → Index
store_window i start bs =
    let entry : CacheEntry = record { start = start; bytes = bs } in
    let pushed = entry ∷ i.cache in
    let evicted = evict (length pushed) i.max_cache_bytes (i.cache_bytes + length bs) pushed in
    if i.max_cache_bytes == 0 || (ltb i.max_cache_bytes (length bs) || i.closed)
    then i
    else elim (find_entry i.cache start) [
      | some e ↦ record i { cache = move_to_front i.cache e }
      | none ↦ record i { cache = evicted.0; cache_bytes = evicted.1 }
    ]
