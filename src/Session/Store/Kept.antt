-- ===== src/Session/Store/Kept.antt =====
-- plugins/session/src/store.ts: a session stays until its lifetime is over.
use toki.Base.{
  ℕ, ◌+◌, ◌≤◌, ◌<◌, ◌≡◌, refl, false, some, List, [], ◌∷◌, String, str_eq, arith, length, eq_iff,
  Bool-cases, Option-cases, inl, inr,
}
use toki.JsMap
use toki.JsMap.{JsMap}
use toki.JsMap.Laws.{
  IsMap, IsMap-set, IsMap-delete, get-set, get-delete, length-set-le, length-delete-le,
}
use toki.JsMap.Evict.{IsMap-delete_where, get-delete_where, length-delete_where}
use toki.Session.Store.{
  Entry, MemoryStore, is_expired, destroy, get, evict, make_room, set, touch, Event, get_of, set_of,
  destroy_of, touch_of, sweep, step, run,
}

-- How long a history lasts.
unfoldable pub duration : {V : Type 0} → List (ℕ × Event V) → ℕ
duration [] = 0
duration ((dt, e) ∷ es) = dt + duration es

-- The event does not write, touch or destroy the session; it may read it.
abbrev pub Spares : {V : Type 0} → String → Event V → Type 0
Spares k (get_of sid) = Unit
Spares k (set_of sid contents ttl) = str_eq sid k ≡ false
Spares k (destroy_of sid) = str_eq sid k ≡ false
Spares k (touch_of sid ttl) = str_eq sid k ≡ false
Spares k sweep = Unit

abbrev pub AllSpare : {V : Type 0} → String → List (ℕ × Event V) → Type 0
AllSpare k [] = Unit
AllSpare k ((dt, e) ∷ es) = Spares k e × AllSpare k es

-- The store holds the entry, from an earlier one, and has grown by one at most.
record Keeps {V : Type 0} (k : String) (entry : Entry V) (s s' : MemoryStore V) : Type 0 where
  distinct : IsMap s'.sessions
  held : JsMap.get k s'.sessions ≡ some entry
  ceiling : s'.max_keys ≡ s.max_keys
  grown : length s'.sessions ≤ length s.sessions + 1

pub roomy :
    {V : Type 0} (now : ℕ) (sid : String) (s : MemoryStore V)
    → length s.sessions < s.max_keys
    → make_room now sid s ≡ s
unfolding make_room
roomy now sid s room = ground arith

module _ {V : Type 0} (k : String) (entry : Entry V) where
  unchanged :
      (s : MemoryStore V)
      → IsMap s.sessions
      → JsMap.get k s.sessions ≡ some entry
      → Keeps k entry s s
  unchanged s d e = record { distinct = d; held = e; ceiling = refl; grown = omega arith }

  put-Keeps :
      (sid : String) (v : Entry V) (s : MemoryStore V)
      → str_eq sid k ≡ false
      → IsMap s.sessions
      → JsMap.get k s.sessions ≡ some entry
      → Keeps k entry s (record s { sessions = JsMap.set sid v s.sessions })
  put-Keeps sid v s other d e = record {
    distinct = IsMap-set sid v s.sessions d;
    held = rw (get-set sid k v s.sessions, other) e;
    ceiling = refl;
    grown = omega (arith, length-set-le sid v s.sessions);
  }

  destroy-Keeps :
      (sid : String) (s : MemoryStore V)
      → str_eq sid k ≡ false
      → IsMap s.sessions
      → JsMap.get k s.sessions ≡ some entry
      → Keeps k entry s (destroy sid s)
  unfolding destroy
  destroy-Keeps sid s other d e = record {
    distinct = IsMap-delete sid s.sessions d;
    held = rw (get-delete sid k s.sessions d, other) e;
    ceiling = refl;
    grown = omega (arith, length-delete-le sid s.sessions);
  }

  get-Keeps :
      (now : ℕ) (sid : String) (s : MemoryStore V)
      → now < entry.expires_at
      → IsMap s.sessions
      → JsMap.get k s.sessions ≡ some entry
      → Keeps k entry s (get now sid s).0
  unfolding get
  get-Keeps now sid s live d e = elim (Option-cases (JsMap.get sid s.sessions)) [
    | inl missing ↦ rw (missing, get) (unchanged s d e)
    | inr (v, found) ↦ elim (Bool-cases (is_expired now v)) [
      | inr young ↦ rw (found, get, young) (unchanged s d e)
      | inl old ↦ elim (Bool-cases (str_eq sid k)) [
        | inr other ↦ rw (found, get, old) (destroy-Keeps sid s other d e)
        | inl same ↦
            let it : sid ≡ k = (eq_iff sid k).0 same in
            let here : v ≡ entry = ground (arith, it, found, e) in
            absurd (ground (arith, here, live, old))
      ]
    ]
  ]

  touch-Keeps :
      (now : ℕ) (sid : String) (ttl : ℕ) (s : MemoryStore V)
      → str_eq sid k ≡ false
      → IsMap s.sessions
      → JsMap.get k s.sessions ≡ some entry
      → Keeps k entry s (touch now sid ttl s)
  unfolding touch
  touch-Keeps now sid ttl s other d e = elim (Option-cases (JsMap.get sid s.sessions)) [
    | inl missing ↦ rw (missing, touch) (unchanged s d e)
    | inr (v, found) ↦
        rw (found, touch) (put-Keeps sid (record v { expires_at = now + ttl }) s other d e)
  ]

  step-Keeps :
      (now : ℕ) (e : Event V) (s : MemoryStore V)
      → now < entry.expires_at
      → length s.sessions < s.max_keys
      → Spares k e
      → IsMap s.sessions
      → JsMap.get k s.sessions ≡ some entry
      → Keeps k entry s (step now e s)
  unfolding step set evict
  step-Keeps now (get_of sid) s live room h d e = get-Keeps now sid s live d e
  step-Keeps now (set_of sid contents ttl) s live room h d e =
      rw (roomy now sid s room)
        (put-Keeps sid (record { contents = contents; expires_at = now + ttl }) s h d e)
  step-Keeps now (destroy_of sid) s live room h d e = destroy-Keeps sid s h d e
  step-Keeps now (touch_of sid ttl) s live room h d e = touch-Keeps now sid ttl s h d e
  step-Keeps now sweep s live room h d e = record {
    distinct = IsMap-delete_where (is_expired now) s.sessions d;
    held =
        let young : is_expired now entry ≡ false = ground (arith, live) in
        rw (get-delete_where (is_expired now) k s.sessions d, e) (rw young refl);
    ceiling = refl;
    grown = omega (arith, length-delete_where (is_expired now) s.sessions);
  }

  -- A live session is in the store after any events that spare it and that the ceiling has room for.
  pub get-run :
      (now : ℕ) (es : List (ℕ × Event V)) (s : MemoryStore V)
      → now + duration es < entry.expires_at
      → length s.sessions + length es ≤ s.max_keys
      → AllSpare k es
      → IsMap s.sessions
      → JsMap.get k s.sessions ≡ some entry
      → JsMap.get k (run now es s).sessions ≡ some entry
  unfolding run duration
  get-run now [] s live room h d e = e
  get-run now ((dt, ev) ∷ es) s live room h d e =
      let kept = step-Keeps (now + dt) ev s (omega (arith, live)) (omega (arith, room)) h.0 d e in
      get-run (now + dt) es (step (now + dt) ev s) (omega (arith, live))
        (omega (arith, room, kept.ceiling, kept.grown)) h.1 kept.distinct kept.held
