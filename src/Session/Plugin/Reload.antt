-- ===== src/Session/Plugin/Reload.antt =====
-- plugins/session: what one request saves, the next one loads.
use toki.Base.{
  ℕ, ◌+◌, ◌≤◌, ◌<◌, ◌≡◌, refl, Bool, true, false, Option, none, some, List, String, arith, length,
}
use toki.JsMap
use toki.JsMap.{JsMap}
use toki.JsMap.Laws.{IsMap, IsMap-set, IsMap-delete, get-set_self, length-set-le, length-delete-le}
use toki.Session.Store
use toki.Session.Store.{MemoryStore}
use toki.Session.Store.Kept.{duration, AllSpare, get-run, roomy}
use toki.Session.Stored
use toki.Session.Stored.{StoredSession}
use toki.Session.Plugin.{
  Signer, IsSigner, open_session, load_unsigned, drop_id, load, write_back, save,
}

-- What `set` leaves where there is room.
record Written {V : Type 0} (sid : String) (entry : Store.Entry V) (s s' : MemoryStore V)
    : Type 0 where
  distinct : IsMap s'.sessions
  held : JsMap.get sid s'.sessions ≡ some entry
  ceiling : s'.max_keys ≡ s.max_keys
  grown : length s'.sessions ≤ length s.sessions + 1

set-Written :
    {V : Type 0} (now : ℕ) (sid : String) (contents : JsMap V) (ttl : ℕ) (s : MemoryStore V)
    → IsMap s.sessions
    → length s.sessions < s.max_keys
    → Written sid
        (record { contents = contents; expires_at = now + ttl })
        s
        (Store.set now sid contents ttl s)
unfolding Store.set
set-Written {V} now sid contents ttl s d room =
    let entry : Store.Entry V = record { contents = contents; expires_at = now + ttl } in
    rw (roomy now sid s room) (record {
      distinct = IsMap-set sid entry s.sessions d;
      held = get-set_self sid entry s.sessions;
      ceiling = refl;
      grown = omega (arith, length-set-le sid entry s.sessions);
    })

dropped :
    {V : Type 0} (o : Option String) (s : MemoryStore V)
    → IsMap s.sessions
    → IsMap (drop_id o s).sessions
      × (length (drop_id o s).sessions ≤ length s.sessions)
      × ((drop_id o s).max_keys ≡ s.max_keys)
unfolding drop_id Store.destroy
dropped none s d = (d, omega arith, refl)
dropped (some sid) s d = (IsMap-delete sid s.sessions d, length-delete-le sid s.sessions, refl)

load-held :
    {V : Type 0} (signer : Signer) (later : ℕ) (new_id sid : String) (entry : Store.Entry V)
    (s : MemoryStore V)
    → IsSigner signer
    → later < entry.expires_at
    → JsMap.get sid s.sessions ≡ some entry
    → (load signer later new_id (some (signer.sign sid)) s).1
      ≡ Stored.create sid (some entry.contents)
unfolding load load_unsigned open_session Store.get
load-held signer later new_id sid entry s genuine live held =
    let young : Store.is_expired later entry ≡ false = ground (arith, live) in
    rw (genuine sid, held, Store.get, young) refl

-- A session that was changed and not destroyed is loaded again: after it is saved, and until its
-- lifetime is over, a request that brings the signed id back gets the same id and the same contents.
-- Between them the store may see any calls that do not write, touch or destroy this session, reads of
-- it included, and sweeps, as long as the ceiling leaves room for each.
pub load-save :
    {V : Type 0} (signer : Signer) (now ttl : ℕ) (rolling : Bool) (new_id : String)
    (st : StoredSession V) (es : List (ℕ × Store.Event V)) (s : MemoryStore V)
    → IsSigner signer
    → IsMap s.sessions
    → length s.sessions + length es < s.max_keys
    → st.dirty ≡ true
    → st.destroyed ≡ false
    → duration es < ttl
    → AllSpare st.id es
    → (load signer
        (now + duration es)
        new_id
        (some (signer.sign st.id))
        (Store.run now es (save signer now ttl rolling st s).0)).1
      ≡ Stored.create st.id (some st.contents)
unfolding save write_back
load-save {V} signer now ttl rolling new_id st es s genuine d room changed alive live spared =
    let (d', fewer, same) = dropped st.old_id s d in
    let s' = drop_id st.old_id s in
    let entry : Store.Entry V = record { contents = st.contents; expires_at = now + ttl } in
    let w = set-Written now st.id st.contents ttl s' d' (omega (arith, fewer, same, room)) in
    let there =
      get-run st.id entry now es (Store.set now st.id st.contents ttl s') (omega (arith, live))
        (omega (arith, w.grown, w.ceiling, fewer, same, room)) spared w.distinct w.held in
    rw (changed, alive)
      (load-held signer (now + duration es) new_id st.id entry _ genuine (omega (arith, live))
        there)
