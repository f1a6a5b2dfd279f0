-- ===== src/RateLimit/Store.antt =====
-- plugins/ratelimiter/src/store.ts: the in-process fixed-window counter. `Date.now()` is the
-- argument `now` (epoch ms); `setInterval` is a `sweep` event at a time that the environment chooses.
pub mod Bounds
pub mod Ideal
use toki.Base.{ℕ, ◌+◌, Bool, Option, none, some, List, [], ◌∷◌, String, leb, length, if◌then◌else◌}
use toki.JsMap
use toki.JsMap.{JsMap}

pub record StoreHit : Type 0 where
  pub count : ℕ
  pub reset_at : ℕ

pub record Bucket : Type 0 where
  pub count : ℕ
  pub reset_at : ℕ

pub record MemoryStore : Type 0 where
  pub buckets : JsMap Bucket
  pub max_keys : ℕ

unfoldable pub create : ℕ → MemoryStore
create max_keys = record { buckets = []; max_keys = max_keys }

abbrev pub is_expired : ℕ → Bucket → Bool
is_expired now b = leb b.reset_at now

-- `#evict`
unfoldable pub evict : ℕ → MemoryStore → MemoryStore
evict now s = record s { buckets = JsMap.delete_where (is_expired now) s.buckets }

-- `#capacityEvict`; the fuel is the size that the sweep leaves
unfoldable pub capacity_evict : ℕ → MemoryStore → MemoryStore
capacity_evict now s =
    let swept = (evict now s).buckets in
    record s { buckets = JsMap.delete_oldest (length swept) s.max_keys swept }

-- `if (this.#buckets.size >= this.#maxKeys) this.#capacityEvict()`
unfoldable pub make_room : ℕ → MemoryStore → MemoryStore
make_room now s = if leb s.max_keys (JsMap.size s.buckets) then capacity_evict now s else s

-- the branch of `hit` for a key with no live bucket
unfoldable pub start_window : ℕ → String → ℕ → MemoryStore → MemoryStore × StoreHit
start_window now key window_ms s =
    let s' = make_room now s in
    let fresh : Bucket = record { count = 1; reset_at = now + window_ms } in
    (
      record s' { buckets = JsMap.set key fresh s'.buckets },
      record { count = fresh.count; reset_at = fresh.reset_at },
    )

-- the branch of `hit` that counts in a live bucket: the shared object is updated in place
unfoldable pub count_hit : String → Bucket → MemoryStore → MemoryStore × StoreHit
count_hit key bucket s =
    let bumped = record bucket { count = bucket.count + 1 } in
    (
      record s { buckets = JsMap.set key bumped s.buckets },
      record { count = bumped.count; reset_at = bumped.reset_at },
    )

unfoldable pub hit : ℕ → String → ℕ → MemoryStore → MemoryStore × StoreHit
hit now key window_ms s = elim (JsMap.get key s.buckets) [
  | none ↦ start_window now key window_ms s
  | some bucket ↦
      if is_expired now bucket then start_window now key window_ms s else count_hit key bucket s
]

unfoldable pub reset : String → MemoryStore → MemoryStore
reset key s = record s { buckets = JsMap.delete key s.buckets }

-- What can happen to the store: a hit, a reset, and a tick of the sweep timer.
pub data Event : Type 0 where
  hit_of : String → ℕ → Event
  reset_of : String → Event
  sweep : Event

-- A step: the new store, and the answer to a hit.
unfoldable pub step : ℕ → Event → MemoryStore → MemoryStore × Option StoreHit
step now (hit_of key window_ms) s = let (s', h) = hit now key window_ms s in (s', some h)
step now (reset_of key) s = (reset key s, none)
step now sweep s = (evict now s, none)

-- A history: each event with the time since the one before it, so that time never runs back.
unfoldable pub run : ℕ → List (ℕ × Event) → MemoryStore → MemoryStore × List (Option StoreHit)
run now [] s = (s, [])
run now ((dt, e) ∷ es) s =
    let (s', r) = step (now + dt) e s in let (s'', rs) = run (now + dt) es s' in (s'', r ∷ rs)
