-- ===== src/Session/Store.antt =====
-- plugins/session/src/store.ts. Session values are of an abstract type, those that `structuredClone`
-- copies; they do not change, so a copy is the value itself. `Date.now()` is the argument `now`.
pub mod Kept
use toki.Base.{
  List, ◌∷◌, ℕ, ◌+◌, Bool, not, ◌&&◌, Option, none, some, [], String, leb, if◌then◌else◌,
}
use toki.JsMap
use toki.JsMap.{JsMap}

pub record Entry (V : Type 0) : Type 0 where
  pub contents : JsMap V
  pub expires_at : ℕ

pub record MemoryStore (V : Type 0) : Type 0 where
  pub sessions : JsMap (Entry V)
  pub max_keys : ℕ

module _ {V : Type 0} where
  unfoldable pub create : ℕ → MemoryStore V
  create max_keys = record { sessions = []; max_keys = max_keys }

  -- `now >= entry.expiresAt`
  abbrev pub is_expired : ℕ → Entry V → Bool
  is_expired now entry = leb entry.expires_at now

  -- `this.#sessions.delete(sid)`
  unfoldable pub destroy : String → MemoryStore V → MemoryStore V
  destroy sid s = record s { sessions = JsMap.delete sid s.sessions }

  unfoldable pub get : ℕ → String → MemoryStore V → MemoryStore V × Option (JsMap V)
  get now sid s = elim (JsMap.get sid s.sessions) [
    | none ↦ (s, none)
    | some entry ↦ if is_expired now entry then (destroy sid s, none) else (s, some entry.contents)
  ]

  -- `#evict`
  unfoldable pub evict : ℕ → MemoryStore V → MemoryStore V
  evict now s = record s { sessions = JsMap.delete_where (is_expired now) s.sessions }

  -- `#capacityEvict`
  unfoldable pub capacity_evict : ℕ → MemoryStore V → MemoryStore V
  capacity_evict now s =
      let swept = evict now s in
      record swept {
        sessions = JsMap.delete_oldest (JsMap.size swept.sessions) swept.max_keys swept.sessions;
      }

  -- the guard of `set`
  unfoldable pub make_room : ℕ → String → MemoryStore V → MemoryStore V
  make_room now sid s =
      if not (JsMap.has sid s.sessions) && leb s.max_keys (JsMap.size s.sessions)
      then capacity_evict now s
      else s

  unfoldable pub set : ℕ → String → JsMap V → ℕ → MemoryStore V → MemoryStore V
  set now sid contents ttl_ms s =
      let s' = make_room now sid s in
      let entry : Entry V = record { contents = contents; expires_at = now + ttl_ms } in
      record s' { sessions = JsMap.set sid entry s'.sessions }

  unfoldable pub touch : ℕ → String → ℕ → MemoryStore V → MemoryStore V
  touch now sid ttl_ms s = elim (JsMap.get sid s.sessions) [
    | none ↦ s
    | some entry ↦ record s {
      sessions = JsMap.set sid (record entry { expires_at = now + ttl_ms }) s.sessions;
    }
  ]

-- What can happen to the store: its operations, and a tick of the sweep timer.
pub data Event (V : Type 0) : Type 0 where
  get_of : String → Event V
  set_of : String → JsMap V → ℕ → Event V
  destroy_of : String → Event V
  touch_of : String → ℕ → Event V
  sweep : Event V

module _ {V : Type 0} where
  unfoldable pub step : ℕ → Event V → MemoryStore V → MemoryStore V
  step now (get_of sid) s = (get now sid s).0
  step now (set_of sid contents ttl) s = set now sid contents ttl s
  step now (destroy_of sid) s = destroy sid s
  step now (touch_of sid ttl) s = touch now sid ttl s
  step now sweep s = evict now s

  -- A history: each event with the time since the one before it.
  unfoldable pub run : ℕ → List (ℕ × Event V) → MemoryStore V → MemoryStore V
  run now [] s = s
  run now ((dt, e) ∷ es) s = run (now + dt) es (step (now + dt) e s)
