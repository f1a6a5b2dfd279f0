-- ===== src/Idempotency/Store/Ideal.antt =====
-- plugins/idempotency/src/store.ts against a function from keys to slots, with no table, no sweep and
-- no ceiling.
use toki.Base.{
  ℕ, suc, ◌+◌, ◌≤◌, ◌<◌, ◌≡◌, refl, inl, inr, Option, none, some, List, [], ◌∷◌, String, str_eq,
  arith, length, if◌then◌else◌,
}
use toki.Base.{eq_iff, sym, ap, ◌∙◌, Bool-cases, Option-cases}
use mathlib.Core.Path.{subst}
use toki.JsMap
use toki.JsMap.{JsMap}
use toki.JsMap.Laws.{length-set-le, length-delete-le}
use toki.JsMap.Evict.{length-delete_where}
use toki.JsMap.Expiry.{Fits, assign, Agrees, Agrees-later, Agrees-set, Agrees-delete, Agrees-sweep}
use toki.Idempotency.Store.{
  MemoryStore, Slot, BeginResult, new, is_expired, evict, make_room, reserve, answer, begin,
  complete, release, Event, begin_of, complete_of, release_of, sweep, step, run,
}

abbrev pub Ideal : Type 0
Ideal = String → Option Slot

abbrev pub ends : Slot → ℕ
ends slot = slot.expires_at

abbrev pub reservation : ℕ → String → ℕ → Slot
reservation now fingerprint ttl = record {
  fingerprint = fingerprint;
  stored = none;
  expires_at = now + ttl;
}

-- The slot of a key after a `begin`, and the answer.
unfoldable pub ideal_begin : ℕ → String → ℕ → Option Slot → Slot × BeginResult
ideal_begin now fingerprint ttl none = (reservation now fingerprint ttl, new)
ideal_begin now fingerprint ttl (some slot) =
    if is_expired now slot
    then (reservation now fingerprint ttl, new)
    else (slot, answer fingerprint slot)

unfoldable pub ideal_step : ℕ → Event → Ideal → Ideal × Option BeginResult
ideal_step now (begin_of key fingerprint ttl) f =
    let (slot, r) = ideal_begin now fingerprint ttl (f key) in (assign key (some slot) f, some r)
ideal_step now (complete_of key r ttl) f = (
  assign key
      (some (record { fingerprint = r.fingerprint; stored = some r; expires_at = now + ttl })) f,
  none,
)
ideal_step now (release_of key) f = (assign key none f, none)
ideal_step now sweep f = (f, none)

unfoldable pub ideal_run : ℕ → List (ℕ × Event) → Ideal → List (Option BeginResult)
ideal_run now [] f = []
ideal_run now ((dt, e) ∷ es) f =
    let (f', r) = ideal_step (now + dt) e f in r ∷ ideal_run (now + dt) es f'

-- With room in the table a `begin` answers as the ideal does, and leaves a table that agrees.
begin-ideal :
    (now : ℕ) (key fingerprint : String) (ttl : ℕ) (s : MemoryStore) (f : Ideal)
    → Agrees ends now s.slots f
    → length s.slots < s.max_keys
    → ((begin now key fingerprint ttl s).1 ≡ (ideal_begin now fingerprint ttl (f key)).1)
      × ((begin now key fingerprint ttl s).0.max_keys ≡ s.max_keys)
      × (length (begin now key fingerprint ttl s).0.slots ≤ suc (length s.slots))
unfolding begin reserve make_room ideal_begin
begin-ideal now key fingerprint ttl s f a room = (
  ground (arith, a.at_key key),
  ground arith,
  ground (arith, length-set-le key (reservation now fingerprint ttl) s.slots),
)

reserve-slots :
    (now : ℕ) (key fingerprint : String) (ttl : ℕ) (s : MemoryStore)
    → length s.slots < s.max_keys
    → (reserve now key fingerprint ttl s).0.slots
      ≡ JsMap.set key (reservation now fingerprint ttl) s.slots
unfolding reserve make_room
reserve-slots now key fingerprint ttl s room = ground arith

-- A key keeps the slot it has.
Agrees-kept :
    (now : ℕ) (key : String) (slot : Slot) (m : JsMap Slot) (f : Ideal)
    → f key ≡ some slot
    → Agrees ends now m f
    → Agrees ends now m (assign key (some slot) f)
Agrees-kept now key slot m f e a = record {
  distinct = a.distinct;
  at_key = λ j. elim (Bool-cases (str_eq key j)) [
    | inl same ↦
        let j_key : key ≡ j = (eq_iff key j).0 same in
        rw same (subst (λ v. Fits ends now (JsMap.get j m) v) (ap f (sym j_key) ∙ e) (a.at_key j))
    | inr other ↦ rw other (a.at_key j)
  ];
}

begin-Agrees :
    (now : ℕ) (key fingerprint : String) (ttl : ℕ) (s : MemoryStore) (f : Ideal)
    → Agrees ends now s.slots f
    → length s.slots < s.max_keys
    → Agrees ends now
        (begin now key fingerprint ttl s).0.slots
        (assign key (some (ideal_begin now fingerprint ttl (f key)).0) f)
unfolding begin ideal_begin
begin-Agrees now key fingerprint ttl s f a room = elim (Option-cases (JsMap.get key s.slots)) [
  | inl missing ↦
      let same : (ideal_begin now fingerprint ttl (f key)).0 ≡ reservation now fingerprint ttl =
        ground (arith, a.at_key key) in
      rw (missing, same, begin, reserve-slots now key fingerprint ttl s room)
        (Agrees-set ends now key (reservation now fingerprint ttl) s.slots f a)
  | inr (slot, found) ↦
      let held : f key ≡ some slot = ground (arith, a.at_key key) in
      elim (Bool-cases (is_expired now slot)) [
        | inl old ↦
            rw (found, held, begin, ideal_begin, old, reserve-slots now key fingerprint ttl s room)
              (Agrees-set ends now key (reservation now fingerprint ttl) s.slots f a)
        | inr live ↦
            rw (found, held, begin, ideal_begin, live) (Agrees-kept now key slot s.slots f held a)
      ]
]

pub step-ideal :
    (now : ℕ) (e : Event) (s : MemoryStore) (f : Ideal)
    → Agrees ends now s.slots f
    → length s.slots < s.max_keys
    → Agrees ends now (step now e s).0.slots (ideal_step now e f).0
      × ((step now e s).1 ≡ (ideal_step now e f).1)
      × ((step now e s).0.max_keys ≡ s.max_keys)
      × (length (step now e s).0.slots ≤ suc (length s.slots))
unfolding step ideal_step complete release evict
step-ideal now (begin_of key fingerprint ttl) s f a room =
    let (answers, kept, grows) = begin-ideal now key fingerprint ttl s f a room in
    (begin-Agrees now key fingerprint ttl s f a room, ap some answers, kept, grows)
step-ideal now (complete_of key r ttl) s f a room =
    (Agrees-set ends now key _ s.slots f a, refl, refl, length-set-le key _ s.slots)
step-ideal now (release_of key) s f a room = (
  Agrees-delete ends now key s.slots f a,
  refl,
  refl,
  omega (arith, length-delete-le key s.slots),
)
step-ideal now sweep s f a room = (
  Agrees-sweep ends now s.slots f a,
  refl,
  refl,
  omega (arith, length-delete_where (is_expired now) s.slots),
)

-- While the ceiling leaves room for every event to come, the table answers every `begin` as the
-- function from keys to slots does: sweeps are never seen, a slot that is over is as good as none,
-- and an operation on one key touches no other.
pub run-ideal_slots :
    (now : ℕ) (es : List (ℕ × Event)) (s : MemoryStore) (f : Ideal)
    → Agrees ends now s.slots f
    → length s.slots + length es ≤ s.max_keys
    → (run now es s).1 ≡ ideal_run now es f
unfolding run ideal_run
run-ideal_slots now [] s f a room = refl
run-ideal_slots now ((dt, e) ∷ es) s f a room =
    let later = Agrees-later ends now dt s.slots f a in
    let (agrees, same, kept, grows) = step-ideal (now + dt) e s f later (omega arith) in
    let rest = run-ideal_slots (now + dt) es (step (now + dt) e s).0 _ agrees (omega arith) in cc
