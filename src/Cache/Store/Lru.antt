-- ===== src/Cache/Store/Lru.antt =====
-- plugins/cache/src/store.ts: which entries a history leaves, and in which order.
use toki.Base.{
  ℕ, suc, ◌+◌, ◌-◌, ◌≡◌, refl, ◌∙◌, none, some, List, [], ◌∷◌, ◌++◌, String, arith, ltb, leb,
  length, length-append, drop, if◌then◌else◌, Bool-cases, Option-cases, inl, inr, ap,
}
use toki.JsMap
use toki.JsMap.{JsMap}
use toki.JsMap.Laws.{length-delete-le}
use toki.Cache.Store.{
  MemoryStore, CacheEntry, is_expired, delete, get, set, evict, Event, get_of, set_of, delete_of,
  sweep, step, run,
}
use toki.Cache.Store.Recency.{IsCache, bump-append, set-recency}
use toki.Cache.Store.Ceiling.{step-IsCache, max_size-step}

-- The entries from the least to the most recently used: a use puts a key's entry at the end.
abbrev use_last : String → CacheEntry → JsMap CacheEntry → JsMap CacheEntry
use_last key entry m = JsMap.delete key m ++ (key, entry) ∷ []

-- The last `size` entries.
abbrev newest : ℕ → JsMap CacheEntry → JsMap CacheEntry
newest size m = drop (length m - size) m

-- A read of a live entry and a write are uses; a write then keeps the most recently used entries.
unfoldable pub lru_step : ℕ → ℕ → Event → JsMap CacheEntry → JsMap CacheEntry
lru_step size now (get_of key) m = elim (JsMap.get key m) [
  | none ↦ m
  | some entry ↦ if leb entry.expires_at now then JsMap.delete key m else use_last key entry m
]
lru_step size now (set_of key entry) m = newest size (use_last key entry m)
lru_step size now (delete_of key) m = JsMap.delete key m
lru_step size now sweep m = JsMap.delete_where (λ e. leb e.expires_at now) m

unfoldable pub lru : ℕ → ℕ → List (ℕ × Event) → JsMap CacheEntry → JsMap CacheEntry
lru size now [] m = m
lru size now ((dt, e) ∷ es) m = lru size (now + dt) es (lru_step size (now + dt) e m)

newest-set :
    (key : String) (entry : CacheEntry) (s : MemoryStore)
    → IsCache s
    → (set key entry s).entries ≡ newest s.max_size (use_last key entry s.entries)
newest-set key entry s c =
    let others = JsMap.delete key s.entries in
    let size : length (others ++ (key, entry) ∷ []) ≡ suc (length others) =
      omega (arith, length-append others ((key, entry) ∷ [])) in
    let few = length-delete-le key s.entries in
    set-recency key entry s c.distinct ∙ elim (Bool-cases (ltb s.max_size (suc (length others)))) [
      | inl full ↦
          let one : length (others ++ (key, entry) ∷ []) - s.max_size ≡ 1 =
            ground (arith, size, few, c.bounded, full) in
          rw (full, one) refl
      | inr room ↦
          let nothing : length (others ++ (key, entry) ∷ []) - s.max_size ≡ 0 =
            ground (arith, size, room) in
          rw (room, nothing, drop) refl
    ]

step-lru :
    (now : ℕ) (e : Event) (s : MemoryStore)
    → IsCache s
    → (step now e s).0.entries ≡ lru_step s.max_size now e s.entries
unfolding step lru_step delete evict get
step-lru now (get_of key) s c = elim (Option-cases (JsMap.get key s.entries)) [
  | inl missing ↦ rw (missing, get, lru_step) refl
  | inr (entry, found) ↦ elim (Bool-cases (is_expired now entry)) [
    | inl old ↦ rw (found, get, lru_step, old) refl
    | inr live ↦ rw (found, get, lru_step, live) (bump-append key entry s c.distinct)
  ]
]
step-lru now (set_of key entry) s c = newest-set key entry s c
step-lru now (delete_of key) s c = refl
step-lru now sweep s c = refl

-- Least recently used: from a store with distinct keys within its ceiling, any history leaves what
-- one leaves that keeps the entries in the order of their last use, a use being a write or a read of
-- an entry that has not expired, and that after each write keeps the most recently used entries up to
-- the ceiling.
pub run-lru :
    (now : ℕ) (es : List (ℕ × Event)) (s : MemoryStore)
    → IsCache s
    → (run now es s).0.entries ≡ lru s.max_size now es s.entries
unfolding run lru
run-lru now [] s c = refl
run-lru now ((dt, e) ∷ es) s c =
    let s' = (step (now + dt) e s).0 in
    run-lru (now + dt) es s' (step-IsCache (now + dt) e s c)
    ∙ ap (λ n. lru n (now + dt) es s'.entries) (max_size-step (now + dt) e s)
    ∙ ap (lru s.max_size (now + dt) es) (step-lru (now + dt) e s c)
