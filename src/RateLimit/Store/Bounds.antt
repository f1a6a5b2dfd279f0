-- ===== src/RateLimit/Store/Bounds.antt =====
-- plugins/ratelimiter/src/store.ts: the ceiling on the number of keys.
use native.Mathlib.Nat.{le_trans}
use toki.Base.{
  ℕ, ◌+◌, ◌≤◌, ◌<◌, ◌≡◌, refl, some, List, [], ◌∷◌, String, arith, leb, length, Bool-cases, inl,
  inr, Option-cases,
}
use toki.JsMap
use toki.JsMap.{JsMap}
use toki.JsMap.Laws.{IsMap, IsMap-set, IsMap-delete, length-set, length-delete-le, get-eq-none_iff}
use toki.JsMap.Evict.{
  IsMap-delete_where, length-delete_where, IsMap-delete_oldest, length-delete_oldest,
}
use toki.RateLimit.Store.{
  MemoryStore, Bucket, evict, capacity_evict, start_window, make_room, is_expired, count_hit, hit,
  reset, Event, hit_of, reset_of, sweep, step, run,
}

-- Distinct keys, and never more of them than the ceiling.
pub record IsBounded (s : MemoryStore) : Type 0 where
  pub distinct : IsMap s.buckets
  pub positive : 0 < s.max_keys
  pub bounded : length s.buckets ≤ s.max_keys

evict-IsBounded : (now : ℕ) (s : MemoryStore) → IsBounded s → IsBounded (evict now s)
unfolding evict
evict-IsBounded now s b = record {
  distinct = IsMap-delete_where _ s.buckets b.distinct;
  positive = b.positive;
  bounded = le_trans (length-delete_where _ s.buckets) b.bounded;
}

capacity_evict_room :
    (now : ℕ) (s : MemoryStore)
    → IsBounded s
    → IsMap (capacity_evict now s).buckets
      × (length (capacity_evict now s).buckets < s.max_keys)
      × ((capacity_evict now s).max_keys ≡ s.max_keys)
unfolding capacity_evict evict
capacity_evict_room now s b = (
  IsMap-delete_oldest s.max_keys _ (evict-IsBounded now s b).distinct,
  length-delete_oldest s.max_keys _ b.positive,
  refl,
)

make_room_lem :
    (now : ℕ) (s : MemoryStore)
    → IsBounded s
    → IsMap (make_room now s).buckets
      × (length (make_room now s).buckets < s.max_keys)
      × ((make_room now s).max_keys ≡ s.max_keys)
unfolding make_room
make_room_lem now s b = elim (Bool-cases (leb s.max_keys (length s.buckets))) [
  | inl full ↦ rw full (capacity_evict_room now s b)
  | inr free ↦ rw free (b.distinct, ground arith, refl)
]

set-IsBounded :
    (key : String) (v : Bucket) (s : MemoryStore) (n : ℕ)
    → IsMap s.buckets
    → length s.buckets < n
    → s.max_keys ≡ n
    → IsBounded (record s { buckets = JsMap.set key v s.buckets })
set-IsBounded key v s n distinct room same = record {
  distinct = IsMap-set key v s.buckets distinct;
  positive = omega arith;
  bounded = ground (arith, length-set key v s.buckets);
}

start_window-IsBounded :
    (now : ℕ) (key : String) (window_ms : ℕ) (s : MemoryStore)
    → IsBounded s
    → IsBounded (start_window now key window_ms s).0
unfolding start_window
start_window-IsBounded now key window_ms s b =
    let (distinct, room, same) = make_room_lem now s b in
    set-IsBounded key _ (make_room now s) s.max_keys distinct room same

count_hit-IsBounded :
    (key : String) (v : Bucket) (s : MemoryStore)
    → JsMap.get key s.buckets ≡ some v
    → IsBounded s
    → IsBounded (count_hit key v s).0
unfolding count_hit
count_hit-IsBounded key v s found b = record {
  distinct = IsMap-set key _ s.buckets b.distinct;
  positive = b.positive;
  bounded = ground (
    arith,
    b.bounded,
    length-set key (record v { count = v.count + 1 }) s.buckets,
    get-eq-none_iff key s.buckets,
  );
}

hit-IsBounded :
    (now : ℕ) (key : String) (window_ms : ℕ) (s : MemoryStore)
    → IsBounded s
    → IsBounded (hit now key window_ms s).0
unfolding hit
hit-IsBounded now key window_ms s b = elim (Option-cases (JsMap.get key s.buckets)) [
  | inl missing ↦ rw (missing, hit) (start_window-IsBounded now key window_ms s b)
  | inr (v, found) ↦
      rw (found, hit)
        (elim (Bool-cases (is_expired now v)) [
          | inl old ↦ rw old (start_window-IsBounded now key window_ms s b)
          | inr live ↦ rw live (count_hit-IsBounded key v s found b)
        ])
]

reset-IsBounded : (key : String) (s : MemoryStore) → IsBounded s → IsBounded (reset key s)
unfolding reset
reset-IsBounded key s b = record {
  distinct = IsMap-delete key s.buckets b.distinct;
  positive = b.positive;
  bounded = le_trans (length-delete-le key s.buckets) b.bounded;
}

step-IsBounded : (now : ℕ) (e : Event) (s : MemoryStore) → IsBounded s → IsBounded (step now e s).0
unfolding step
step-IsBounded now (hit_of key window_ms) s b = hit-IsBounded now key window_ms s b
step-IsBounded now (reset_of key) s b = reset-IsBounded key s b
step-IsBounded now sweep s b = evict-IsBounded now s b

-- From a store with distinct keys within its ceiling, whatever hits, resets and sweeps follow and
-- whenever they come, the keys stay distinct and never outnumber the ceiling.
pub run-IsBounded :
    (now : ℕ) (es : List (ℕ × Event)) (s : MemoryStore) → IsBounded s → IsBounded (run now es s).0
unfolding run
run-IsBounded now [] s b = b
run-IsBounded now ((dt, e) ∷ es) s b =
    run-IsBounded (now + dt) es (step (now + dt) e s).0 (step-IsBounded (now + dt) e s b)
