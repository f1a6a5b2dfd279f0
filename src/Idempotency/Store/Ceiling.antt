-- ===== src/Idempotency/Store/Ceiling.antt =====
-- plugins/idempotency/src/store.ts: the number of keys.
use toki.Base.{
  ℕ, suc, ◌+◌, ◌≤◌, ◌<◌, ◌≡◌, refl, false, some, List, [], ◌∷◌, String, arith, leb, length,
  Bool-cases, inl, inr,
}
use toki.JsMap
use toki.JsMap.{JsMap}
use toki.JsMap.Laws.{length-set, length-set-le, length-delete-le}
use toki.JsMap.Evict.{length-delete_where, length-delete_oldest}
use toki.Idempotency.Store.{
  MemoryStore, Slot, IdempotencyRecord, is_expired, evict, capacity_evict, make_room, reserve,
  begin, complete, release, Event, begin_of, complete_of, release_of, sweep, step, run,
}

-- How many completions a history has.
pub completions : List (ℕ × Event) → ℕ
completions [] = 0
completions ((dt, complete_of key r ttl) ∷ es) = suc (completions es)
completions ((dt, e) ∷ es) = completions es

abbrev slot_of : ℕ → IdempotencyRecord → ℕ → Slot
slot_of now r ttl = record { fingerprint = r.fingerprint; stored = some r; expires_at = now + ttl }

length-make_room :
    (now : ℕ) (s : MemoryStore)
    → 0 < s.max_keys
    → (length (make_room now s).slots < s.max_keys) × ((make_room now s).max_keys ≡ s.max_keys)
unfolding make_room capacity_evict evict
length-make_room now s h = elim (Bool-cases (leb s.max_keys (length s.slots))) [
  | inl full ↦ rw full (length-delete_oldest s.max_keys _ h, refl)
  | inr free ↦ rw free (ground arith, refl)
]

length-reserve :
    (now : ℕ) (key fingerprint : String) (ttl : ℕ) (s : MemoryStore)
    → 0 < s.max_keys
    → (length (reserve now key fingerprint ttl s).0.slots ≤ s.max_keys)
      × ((reserve now key fingerprint ttl s).0.max_keys ≡ s.max_keys)
unfolding reserve
length-reserve now key fingerprint ttl s h =
    let (room, same) = length-make_room now s h in
    (omega (arith, length-set-le key _ (make_room now s).slots), same)

-- A `begin` never takes the table past its ceiling, or past the size it has.
length-begin :
    (now : ℕ) (key fingerprint : String) (ttl extra : ℕ) (s : MemoryStore)
    → 0 < s.max_keys
    → length s.slots ≤ s.max_keys + extra
    → (length (begin now key fingerprint ttl s).0.slots ≤ s.max_keys + extra)
      × ((begin now key fingerprint ttl s).0.max_keys ≡ s.max_keys)
unfolding begin
length-begin now key fingerprint ttl extra s h size =
    ground (arith, length-reserve now key fingerprint ttl s h)

-- The ceiling is kept by `begin`, but each completion may add a key to it: a table within its
-- ceiling has, after any history, at most as many keys more as the history has completions.
pub length-run :
    (now extra : ℕ) (es : List (ℕ × Event)) (s : MemoryStore)
    → 0 < s.max_keys
    → length s.slots ≤ s.max_keys + extra
    → length (run now es s).0.slots ≤ s.max_keys + extra + completions es
unfolding run step complete release evict completions
length-run now extra [] s h size = omega arith
length-run now extra ((dt, begin_of key fp ttl) ∷ es) s h size =
    let (kept, same) = length-begin (now + dt) key fp ttl extra s h size in
    omega (
      arith,
      length-run (now + dt) extra es (begin (now + dt) key fp ttl s).0 (omega arith) (omega arith),
    )
length-run now extra ((dt, complete_of key r ttl) ∷ es) s h size = omega (
  arith,
  length-run (now + dt) (suc extra) es (complete (now + dt) key r ttl s) h
      (omega (arith, length-set-le key (slot_of (now + dt) r ttl) s.slots)),
)
length-run now extra ((dt, release_of key) ∷ es) s h size =
    length-run (now + dt) extra es (release key s) h (omega (arith, length-delete-le key s.slots))
length-run now extra ((dt, sweep) ∷ es) s h size =
    length-run (now + dt) extra es (evict (now + dt) s) h
      (omega (arith, length-delete_where (is_expired (now + dt)) s.slots))

-- `complete` on a full table whose reservation is gone puts it past its ceiling, by one key.
pub length-complete :
    (now : ℕ) (key : String) (r : IdempotencyRecord) (ttl : ℕ) (s : MemoryStore)
    → length s.slots ≡ s.max_keys
    → JsMap.has key s.slots ≡ false
    → length (complete now key r ttl s).slots ≡ suc (complete now key r ttl s).max_keys
unfolding complete
length-complete now key r ttl s full gone =
    ground (arith, length-set key (slot_of now r ttl) s.slots)
