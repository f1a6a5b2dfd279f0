-- ===== src/Idempotency/Store/Kept.antt =====
-- plugins/idempotency/src/store.ts: a stored record stays until its time is over.
use toki.Base.{
  ℕ, ◌+◌, ◌≤◌, ◌<◌, ◌≡◌, refl, inl, inr, false, some, List, [], ◌∷◌, String, str_eq, arith, length,
  eq_iff, eq_refl, Bool-cases, ◌∙◌,
}
use toki.JsMap
use toki.JsMap.{JsMap}
use toki.JsMap.Laws.{length-set-le}
use toki.JsMap.Expiry.{Agrees, Agrees-later, Agrees-set}
use toki.Idempotency.Store.{
  MemoryStore, Slot, IdempotencyRecord, is_expired, answer, replay, begin, complete, Event,
  begin_of, complete_of, release_of, sweep, step, run,
}
use toki.Idempotency.Store.Ideal.{Ideal, ends, ideal_begin, ideal_step, step-ideal}
use toki.Idempotency.Store.Once.{duration}

-- The slot of a completed request.
abbrev pub slot_of : ℕ → IdempotencyRecord → ℕ → Slot
slot_of now r ttl = record { fingerprint = r.fingerprint; stored = some r; expires_at = now + ttl }

-- The event does not complete or release the key; it may begin it again.
abbrev pub Spares : String → Event → Type 0
Spares k (begin_of key fingerprint ttl) = Unit
Spares k (complete_of key r ttl) = str_eq key k ≡ false
Spares k (release_of key) = str_eq key k ≡ false
Spares k sweep = Unit

abbrev pub AllSpare : String → List (ℕ × Event) → Type 0
AllSpare k [] = Unit
AllSpare k ((dt, e) ∷ es) = Spares k e × AllSpare k es

step-kept :
    (now : ℕ) (k : String) (slot : Slot) (e : Event) (f : Ideal)
    → now < slot.expires_at
    → Spares k e
    → f k ≡ some slot
    → (ideal_step now e f).0 k ≡ some slot
unfolding ideal_step ideal_begin
step-kept now k slot (begin_of key fp ttl) f live h there = elim (Bool-cases (str_eq key k)) [
  | inl same ↦
      let held : f key ≡ some slot = ground (arith, eq_iff key k) in
      let young : is_expired now slot ≡ false = ground arith in rw (same, held, young) refl
  | inr other ↦ rw other there
]
step-kept now k slot (complete_of key r ttl) f live h there = rw h there
step-kept now k slot (release_of key) f live h there = rw h there
step-kept now k slot sweep f live h there = there

-- Where an agreeing table has room for the events and none of them touches the key, its live slot is
-- in the table after them.
run-kept :
    (now : ℕ) (k : String) (slot : Slot) (es : List (ℕ × Event)) (s : MemoryStore) (f : Ideal)
    → Agrees ends now s.slots f
    → length s.slots + length es ≤ s.max_keys
    → now + duration es < slot.expires_at
    → AllSpare k es
    → f k ≡ some slot
    → JsMap.get k (run now es s).0.slots ≡ some slot
unfolding run duration
run-kept now k slot [] s f a room live h there = elim (a.at_key k) [
  | inl same ↦ same ∙ there
  | inr (v, gone, wanted, old) ↦
      let it : v.expires_at ≡ slot.expires_at = ground (arith, wanted, there) in
      absurd (omega (arith, it, old, live))
]
run-kept now k slot ((dt, e) ∷ es) s f a room live h there =
    let later = Agrees-later ends now dt s.slots f a in
    let (agrees, same, kept, grows) = step-ideal (now + dt) e s f later (omega arith) in
    run-kept (now + dt) k slot es (step (now + dt) e s).0 (ideal_step (now + dt) e f).0 agrees
      (omega arith) (omega arith) h.1
      (step-kept (now + dt) k slot e f (omega (arith, live)) h.0 there)

-- A `begin` of a completed key with its fingerprint, after any events that spare it, replays the
-- record until its time is over, where the table has room for them.
pub begin-run :
    (now : ℕ) (key : String) (r : IdempotencyRecord) (ttl lock : ℕ) (es : List (ℕ × Event))
    (s : MemoryStore) (f : Ideal)
    → Agrees ends now s.slots f
    → length (complete now key r ttl s).slots + length es ≤ s.max_keys
    → duration es < ttl
    → AllSpare key es
    → (begin (now + duration es) key r.fingerprint lock (run now es (complete now key r ttl s)).0).1
      ≡ replay r
unfolding complete begin answer
begin-run now key r ttl lock es s f a room live h =
    let slot = slot_of now r ttl in
    let s' = complete now key r ttl s in
    let agrees = Agrees-set ends now key slot s.slots f a in
    let there =
      run-kept now key slot es s' _ agrees room (omega (arith, live)) h (rw (eq_refl key) refl) in
    rw (there, begin, eq_refl r.fingerprint) (ground arith)

pub length-complete_le :
    (now : ℕ) (key : String) (r : IdempotencyRecord) (ttl : ℕ) (s : MemoryStore)
    → length (complete now key r ttl s).slots ≤ length s.slots + 1
unfolding complete
length-complete_le now key r ttl s = omega (arith, length-set-le key (slot_of now r ttl) s.slots)
