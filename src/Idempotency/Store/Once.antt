-- ===== src/Idempotency/Store/Once.antt =====
-- plugins/idempotency/src/store.ts: a key lets one request through.
use toki.Base.{
  ℕ, ◌+◌, ◌≤◌, ◌<◌, ◌≡◌, refl, true, false, Option, some, List, [], ◌∷◌, String, str_eq, arith,
  length, if◌then◌else◌, eq_iff, Bool-cases, inl, inr,
}
use toki.Base.{Option-cases, ◌⊎◌}
use toki.JsMap.Expiry.{Agrees}
use toki.Idempotency.Store.{
  MemoryStore, Slot, BeginResult, new, is_expired, answer, Event, begin_of, complete_of, release_of,
  sweep, run,
}
use toki.Idempotency.Store.Ideal.{
  Ideal, ends, reservation, ideal_begin, ideal_step, ideal_run, run-ideal_slots,
}

-- How long a history lasts.
unfoldable pub duration : List (ℕ × Event) → ℕ
duration [] = 0
duration ((dt, e) ∷ es) = dt + duration es

-- The event never frees the key, and holds it for longer than `span`.
abbrev pub Holds : String → ℕ → Event → Type 0
Holds k span (begin_of key fingerprint ttl) = str_eq key k ≡ true → span < ttl
Holds k span (complete_of key r ttl) = str_eq key k ≡ true → span < ttl
Holds k span (release_of key) = str_eq key k ≡ false
Holds k span sweep = Unit

abbrev pub AllHold : String → ℕ → List (ℕ × Event) → Type 0
AllHold k span [] = Unit
AllHold k span ((dt, e) ∷ es) = Holds k span e × AllHold k span es

abbrev is_new : BeginResult → ℕ
is_new new = 1
is_new _ = 0

-- One if the event let a request through for the key.
abbrev let_through : String → Event → Option BeginResult → ℕ
let_through k (begin_of key fingerprint ttl) (some r) = if str_eq key k then is_new r else 0
let_through k e r = 0

-- How many `begin`s of the key answered `new`.
pub passes : String → List (ℕ × Event) → List (Option BeginResult) → ℕ
passes k [] rs = 0
passes k (e ∷ es) [] = 0
passes k ((dt, e) ∷ es) (r ∷ rs) = let_through k e r + passes k es rs

-- The key is held until after `until`.
abbrev Held : String → ℕ → Ideal → Type 0
Held k until f = (slot : Slot) × (f k ≡ some slot) × (until < slot.expires_at)

is_new-answer : (fingerprint : String) (slot : Slot) → is_new (answer fingerprint slot) ≡ 0
unfolding answer
is_new-answer fingerprint slot = ground arith

-- A held key stays held, and lets nobody through.
step-Held :
    (now until : ℕ) (k : String) (span : ℕ) (e : Event) (f : Ideal)
    → now ≤ until
    → until ≤ now + span
    → Holds k span e
    → Held k until f
    → Held k until (ideal_step now e f).0 × (let_through k e (ideal_step now e f).1 ≡ 0)
unfolding ideal_step ideal_begin
step-Held now until k span (begin_of key fp ttl) f early late h (slot, e, live) =
    elim (Bool-cases (str_eq key k)) [
      | inl same ↦
          let held : f key ≡ some slot = ground (arith, eq_iff key k) in
          let young : is_expired now slot ≡ false = ground arith in
          rw (same, held, young) ((slot, refl, live), is_new-answer fp slot)
      | inr other ↦ rw other ((slot, e, live), refl)
    ]
step-Held now until k span (complete_of key r ttl) f early late h (slot, e, live) =
    elim (Bool-cases (str_eq key k)) [
      | inl same ↦ rw same ((_, refl, omega (arith, h same)), refl)
      | inr other ↦ rw other ((slot, e, live), refl)
    ]
step-Held now until k span (release_of key) f early late h (slot, e, live) =
    rw h ((slot, e, live), refl)
step-Held now until k span sweep f early late h held = (held, refl)

run-Held :
    (now until : ℕ) (k : String) (span : ℕ) (es : List (ℕ × Event)) (f : Ideal)
    → now + duration es ≤ until
    → until ≤ now + span
    → AllHold k span es
    → Held k until f
    → passes k es (ideal_run now es f) ≡ 0
unfolding passes ideal_run duration
run-Held now until k span [] f early late h held = refl
run-Held now until k span ((dt, e) ∷ es) f early late h held =
    let (held', none_through) =
      step-Held (now + dt) until k span e f (omega arith) (omega arith) h.0 held in
    omega (
      arith,
      none_through,
      run-Held (now + dt) until k span es (ideal_step (now + dt) e f).0 (omega arith) (omega arith)
          h.1 held',
    )

-- Whoever is let through holds the key from then on.
step-let_through :
    (now until : ℕ) (k : String) (span : ℕ) (e : Event) (f : Ideal)
    → until ≤ now + span
    → Holds k span e
    → (let_through k e (ideal_step now e f).1 ≡ 0)
      ⊎ ((let_through k e (ideal_step now e f).1 ≡ 1) × Held k until (ideal_step now e f).0)
unfolding ideal_step ideal_begin
step-let_through now until k span (begin_of key fp ttl) f late h =
    elim (Bool-cases (str_eq key k)) [
      | inl same ↦ elim (Option-cases (f key)) [
        | inl missing ↦
            rw (same, missing) (inr (refl, (reservation now fp ttl, refl, omega (arith, h same))))
        | inr (slot, found) ↦ elim (Bool-cases (is_expired now slot)) [
          | inl old ↦
              rw (same, found, old)
                (inr (refl, (reservation now fp ttl, refl, omega (arith, h same))))
          | inr live ↦ rw (same, found, live) (inl (is_new-answer fp slot))
        ]
      ]
      | inr other ↦ rw other (inl refl)
    ]
step-let_through now until k span (complete_of key r ttl) f late h = inl refl
step-let_through now until k span (release_of key) f late h = inl refl
step-let_through now until k span sweep f late h = inl refl

ideal_run-once :
    (now : ℕ) (k : String) (span : ℕ) (es : List (ℕ × Event)) (f : Ideal)
    → duration es ≤ span
    → AllHold k span es
    → passes k es (ideal_run now es f) ≤ 1
unfolding passes ideal_run duration
ideal_run-once now k span [] f long h = omega arith
ideal_run-once now k span ((dt, e) ∷ es) f long h =
    elim (step-let_through (now + dt) (now + dt + duration es) k span e f (omega arith) h.0) [
      | inl closed ↦ omega (
        arith,
        closed,
        ideal_run-once (now + dt) k span es (ideal_step (now + dt) e f).0 (omega arith) h.1,
      )
      | inr (opened, held) ↦ omega (
        arith,
        opened,
        run-Held (now + dt) (now + dt + duration es) k span es (ideal_step (now + dt) e f).0
            (omega arith) (omega arith) h.1 held,
      )
    ]

-- At most one request runs under a key: in any history that never releases the key, that is shorter
-- than every lock and record time given for it, and that the ceiling has room for, at most one
-- `begin` of the key answers `new`, whatever fingerprints, completions and sweeps come with it.
pub run-once :
    (now : ℕ) (k : String) (span : ℕ) (es : List (ℕ × Event)) (s : MemoryStore) (f : Ideal)
    → Agrees ends now s.slots f
    → length s.slots + length es ≤ s.max_keys
    → duration es ≤ span
    → AllHold k span es
    → passes k es (run now es s).1 ≤ 1
run-once now k span es s f a room long h =
    rw (run-ideal_slots now es s f a room) (ideal_run-once now k span es f long h)
