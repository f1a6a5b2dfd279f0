-- ===== src/Idempotency/Store.antt =====
-- plugins/idempotency/src/store.ts: reserving a key, and replaying the response that was stored under
-- it. `Date.now()` is the argument `now` (epoch ms); `setInterval` is a `sweep` event.
pub mod Ideal
pub mod Once
pub mod Kept
pub mod Ceiling
use toki.Base.{
  ℕ, ◌+◌, Bool, Option, none, some, List, [], ◌∷◌, String, str_eq, leb, length, if◌then◌else◌,
}
use toki.Base.Text.{Text}
use toki.Http.Headers.{Header}
use toki.JsMap
use toki.JsMap.{JsMap}

pub record IdempotencyRecord : Type 0 where
  pub fingerprint : String
  pub status : ℕ
  pub content_type : Text
  pub body : List ℕ
  pub headers : List Header

pub data BeginResult : Type 0 where
  new in_flight mismatch : BeginResult
  replay : IdempotencyRecord → BeginResult

pub record Slot : Type 0 where
  pub fingerprint : String
  pub stored : Option IdempotencyRecord
  pub expires_at : ℕ

pub record MemoryStore : Type 0 where
  pub slots : JsMap Slot
  pub max_keys : ℕ

unfoldable pub create : ℕ → MemoryStore
create max_keys = record { slots = []; max_keys = max_keys }

-- `now >= slot.expiresAt`
abbrev pub is_expired : ℕ → Slot → Bool
is_expired now slot = leb slot.expires_at now

-- `#evict`
unfoldable pub evict : ℕ → MemoryStore → MemoryStore
evict now s = record s { slots = JsMap.delete_where (is_expired now) s.slots }

-- `#capacityEvict`
unfoldable pub capacity_evict : ℕ → MemoryStore → MemoryStore
capacity_evict now s =
    let swept = evict now s in
    record swept { slots = JsMap.delete_oldest (JsMap.size swept.slots) swept.max_keys swept.slots }

-- `if (this.#slots.size >= this.#maxKeys) this.#capacityEvict()`
unfoldable pub make_room : ℕ → MemoryStore → MemoryStore
make_room now s = if leb s.max_keys (JsMap.size s.slots) then capacity_evict now s else s

-- the end of `begin`, for a key with no live slot
unfoldable pub reserve : ℕ → String → String → ℕ → MemoryStore → MemoryStore × BeginResult
reserve now key fingerprint lock_ttl_ms s =
    let s' = make_room now s in
    let slot : Slot = record {
      fingerprint = fingerprint;
      stored = none;
      expires_at = now + lock_ttl_ms;
    } in
    (record s' { slots = JsMap.set key slot s'.slots }, new)

-- the answer of `begin` from a live slot
unfoldable pub answer : String → Slot → BeginResult
answer fingerprint slot =
    if str_eq slot.fingerprint fingerprint
    then elim slot.stored [ none ↦ in_flight | some r ↦ replay r ]
    else mismatch

unfoldable pub begin : ℕ → String → String → ℕ → MemoryStore → MemoryStore × BeginResult
begin now key fingerprint lock_ttl_ms s = elim (JsMap.get key s.slots) [
  | none ↦ reserve now key fingerprint lock_ttl_ms s
  | some slot ↦
      if is_expired now slot
      then reserve now key fingerprint lock_ttl_ms s
      else (s, answer fingerprint slot)
]

unfoldable pub complete : ℕ → String → IdempotencyRecord → ℕ → MemoryStore → MemoryStore
complete now key r ttl_ms s =
    let slot : Slot = record {
      fingerprint = r.fingerprint;
      stored = some r;
      expires_at = now + ttl_ms;
    } in
    record s { slots = JsMap.set key slot s.slots }

unfoldable pub release : String → MemoryStore → MemoryStore
release key s = record s { slots = JsMap.delete key s.slots }

-- What can happen to the store: its three operations, and a tick of the sweep timer.
pub data Event : Type 0 where
  begin_of : String → String → ℕ → Event
  complete_of : String → IdempotencyRecord → ℕ → Event
  release_of : String → Event
  sweep : Event

-- A step: the new store, and the answer to a `begin`.
unfoldable pub step : ℕ → Event → MemoryStore → MemoryStore × Option BeginResult
step now (begin_of key fingerprint ttl) s =
    let (s', r) = begin now key fingerprint ttl s in (s', some r)
step now (complete_of key r ttl) s = (complete now key r ttl s, none)
step now (release_of key) s = (release key s, none)
step now sweep s = (evict now s, none)

-- A history: each event with the time since the one before it.
unfoldable pub run : ℕ → List (ℕ × Event) → MemoryStore → MemoryStore × List (Option BeginResult)
run now [] s = (s, [])
run now ((dt, e) ∷ es) s =
    let (s', r) = step (now + dt) e s in let (s'', rs) = run (now + dt) es s' in (s'', r ∷ rs)
