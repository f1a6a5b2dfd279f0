-- ===== src/Cache/Store/Ceiling.antt =====
-- plugins/cache/src/store.ts: the number of entries.
use native.Mathlib.Nat.{le_trans}
use toki.Base.{
  ℕ, suc, ◌+◌, ◌≡◌, refl, some, List, [], ◌∷◌, String, arith, length, length-append, Bool-cases,
  Option-cases, inl, inr,
}
use toki.JsMap
use toki.JsMap.Laws.{IsMap-delete, get-eq-none_iff, length-delete, length-delete-le}
use toki.JsMap.Evict.{IsMap-delete_where, length-delete_where}
use toki.Cache.Store.{
  MemoryStore, CacheEntry, is_expired, delete, bump, get, drop_oldest, trim, set, evict, Event,
  get_of, set_of, delete_of, sweep, step, run,
}
use toki.Cache.Store.Recency.{IsCache, bump-append, bump-IsMap, set-IsCache}

max_size-set :
    (key : String) (entry : CacheEntry) (s : MemoryStore) → (set key entry s).max_size ≡ s.max_size
unfolding set trim drop_oldest delete bump JsMap.oldest
max_size-set key entry s = ground arith

delete-IsCache : (key : String) (s : MemoryStore) → IsCache s → IsCache (delete key s)
unfolding delete
delete-IsCache key s c = record {
  distinct = IsMap-delete key s.entries c.distinct;
  bounded = le_trans (length-delete-le key s.entries) c.bounded;
}

bump-IsCache :
    (key : String) (entry found : CacheEntry) (s : MemoryStore)
    → JsMap.get key s.entries ≡ some found
    → IsCache s
    → IsCache (bump key entry s)
unfolding bump
bump-IsCache key entry found s e c = record {
  distinct = bump-IsMap key entry s c.distinct;
  bounded =
      let size : length (bump key entry s).entries ≡ suc (length (JsMap.delete key s.entries)) =
        rw (bump-append key entry s c.distinct)
          (omega (arith, length-append (JsMap.delete key s.entries) ((key, entry) ∷ []))) in
      ground
        (arith, size, e, length-delete key s.entries, get-eq-none_iff key s.entries, c.bounded);
}

get-IsCache : (now : ℕ) (key : String) (s : MemoryStore) → IsCache s → IsCache (get now key s).0
unfolding get
get-IsCache now key s c = elim (Option-cases (JsMap.get key s.entries)) [
  | inl missing ↦ rw (missing, get) c
  | inr (entry, found) ↦ elim (Bool-cases (is_expired now entry)) [
    | inl old ↦ rw (found, get, old) (delete-IsCache key s c)
    | inr live ↦ rw (found, get, live) (bump-IsCache key entry entry s found c)
  ]
]

pub step-IsCache : (now : ℕ) (e : Event) (s : MemoryStore) → IsCache s → IsCache (step now e s).0
unfolding step evict
step-IsCache now (get_of key) s c = get-IsCache now key s c
step-IsCache now (set_of key entry) s c = record {
  distinct = (set-IsCache key entry s c).0;
  bounded = rw (max_size-set key entry s) (set-IsCache key entry s c).1;
}
step-IsCache now (delete_of key) s c = delete-IsCache key s c
step-IsCache now sweep s c = record {
  distinct = IsMap-delete_where (is_expired now) s.entries c.distinct;
  bounded = le_trans (length-delete_where (is_expired now) s.entries) c.bounded;
}

pub max_size-step : (now : ℕ) (e : Event) (s : MemoryStore) → (step now e s).0.max_size ≡ s.max_size
unfolding step evict delete get bump
max_size-step now (get_of key) s = ground arith
max_size-step now (set_of key entry) s = max_size-set key entry s
max_size-step now (delete_of key) s = refl
max_size-step now sweep s = refl

-- From a store with distinct keys within its ceiling, whatever is read, written, deleted and swept,
-- the keys stay distinct and never outnumber the ceiling, though a write drops one entry at most.
pub run-IsCache :
    (now : ℕ) (es : List (ℕ × Event)) (s : MemoryStore) → IsCache s → IsCache (run now es s).0
unfolding run
run-IsCache now [] s c = c
run-IsCache now ((dt, e) ∷ es) s c =
    run-IsCache (now + dt) es (step (now + dt) e s).0 (step-IsCache (now + dt) e s c)
