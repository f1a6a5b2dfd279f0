-- ===== src/Cache/Store.antt =====
-- plugins/cache/src/store.ts: the in-process response cache. `Date.now()` is the argument `now`.
pub mod Recency
pub mod Ceiling
pub mod Lru
use toki.Base.{
  ℕ, ◌+◌, Bool, Option, none, some, List, [], ◌∷◌, String, ltb, leb, length, if◌then◌else◌,
}
use toki.Base.Text.{Text}
use toki.Http.Headers.{Header}
use toki.JsMap
use toki.JsMap.{JsMap}

pub record CacheEntry : Type 0 where
  pub status : ℕ
  pub content_type : Text
  pub body : List ℕ
  pub headers : List Header
  pub vary : Option Text
  pub stored_at : ℕ
  pub expires_at : ℕ

pub record MemoryStore : Type 0 where
  pub entries : JsMap CacheEntry
  pub max_size : ℕ

unfoldable pub create : ℕ → MemoryStore
create max_size = record { entries = []; max_size = max_size }

-- `now >= entry.expiresAt`
abbrev pub is_expired : ℕ → CacheEntry → Bool
is_expired now entry = leb entry.expires_at now

unfoldable pub delete : String → MemoryStore → MemoryStore
delete key s = record s { entries = JsMap.delete key s.entries }

-- the last statements of `get`: the entry becomes the newest
unfoldable pub bump : String → CacheEntry → MemoryStore → MemoryStore
bump key entry s = record s { entries = JsMap.set key entry (JsMap.delete key s.entries) }

unfoldable pub get : ℕ → String → MemoryStore → MemoryStore × Option CacheEntry
get now key s = elim (JsMap.get key s.entries) [
  | none ↦ (s, none)
  | some entry ↦
      if is_expired now entry then (delete key s, none) else (bump key entry s, some entry)
]

-- `if (oldest !== undefined) this.#entries.delete(oldest)`
unfoldable pub drop_oldest : Option String → MemoryStore → MemoryStore
drop_oldest none s = s
drop_oldest (some key) s = delete key s

-- the guard of `set`
unfoldable pub trim : MemoryStore → MemoryStore
trim s = if ltb s.max_size (JsMap.size s.entries) then drop_oldest (JsMap.oldest s.entries) s else s

unfoldable pub set : String → CacheEntry → MemoryStore → MemoryStore
set key entry s = trim (bump key entry s)

-- `#evict`
unfoldable pub evict : ℕ → MemoryStore → MemoryStore
evict now s = record s { entries = JsMap.delete_where (is_expired now) s.entries }

-- What can happen to the store: its operations, and a tick of the sweep timer.
pub data Event : Type 0 where
  get_of : String → Event
  set_of : String → CacheEntry → Event
  delete_of : String → Event
  sweep : Event

unfoldable pub step : ℕ → Event → MemoryStore → MemoryStore × Option CacheEntry
step now (get_of key) s = get now key s
step now (set_of key entry) s = (set key entry s, none)
step now (delete_of key) s = (delete key s, none)
step now sweep s = (evict now s, none)

-- A history: each event with the time since the one before it.
unfoldable pub run : ℕ → List (ℕ × Event) → MemoryStore → MemoryStore × List (Option CacheEntry)
run now [] s = (s, [])
run now ((dt, e) ∷ es) s =
    let (s', r) = step (now + dt) e s in let (s'', rs) = run (now + dt) es s' in (s'', r ∷ rs)
