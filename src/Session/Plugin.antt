-- ===== src/Session/Plugin.antt =====
-- plugins/session/src/plugin.ts: the hooks that load a session and save it, over the in-memory store.
-- `sign` and `unsign` are those of the cookie plugin.
pub mod Fixation
pub mod Reload
use toki.Base.{
  ℕ, Bool, true, false, not, ◌&&◌, ◌||◌, Option, none, some, List, [], ◌∷◌, String, ◌≡◌,
  if◌then◌else◌,
}
use toki.JsMap
use toki.JsMap.{JsMap}
use toki.Session.Store
use toki.Session.Store.{MemoryStore}
use toki.Session.Stored
use toki.Session.Stored.{StoredSession}

-- What the plugin uses of the cookie plugin, and what it relies on.
pub record Signer : Type 0 where
  pub sign : String → String
  pub unsign : String → Option String

abbrev pub IsSigner : Signer → Type 0
IsSigner signer = (sid : String) → signer.unsign (signer.sign sid) ≡ some sid

-- What the response does to the cookie.
pub data CookieChange : Type 0 where
  unchanged cleared : CookieChange
  issued : String → CookieChange

-- What a handler does with the session.
pub data Operation (V : Type 0) : Type 0 where
  put : String → V → Operation V
  remove : String → Operation V
  rotate : String → Operation V
  close : Operation V

module _ {V : Type 0} where
  -- `load` from an id that was signed: the session that is found, or a new one
  unfoldable pub open_session :
      String → String → MemoryStore V × Option (JsMap V) → MemoryStore V × StoredSession V
  open_session new_id sid (s, some contents) = (s, Stored.create sid (some contents))
  open_session new_id sid (s, none) = (s, Stored.create new_id none)

  -- the argument of `load` once the cookie is unsigned
  unfoldable pub load_unsigned :
      ℕ → String → Option String → MemoryStore V → MemoryStore V × StoredSession V
  load_unsigned now new_id none s = (s, Stored.create new_id none)
  load_unsigned now new_id (some sid) s = open_session new_id sid (Store.get now sid s)

  unfoldable pub drop_id : Option String → MemoryStore V → MemoryStore V
  drop_id none s = s
  drop_id (some sid) s = Store.destroy sid s

  -- One call on `req.session`; `onRegenerate` drops the old id from the store at once.
  unfoldable pub operate :
      Operation V → MemoryStore V × StoredSession V → MemoryStore V × StoredSession V
  operate (put key value) (s, st) = (s, Stored.set key value st)
  operate (remove key) (s, st) = (s, Stored.delete key st)
  operate (rotate new_id) (s, st) =
      let (st', dropped) = Stored.regenerate new_id st in (drop_id dropped s, st')
  operate close (s, st) = (s, Stored.destroy st)

  unfoldable pub operate_all :
      List (Operation V) → MemoryStore V × StoredSession V → MemoryStore V × StoredSession V
  operate_all [] p = p
  operate_all (o ∷ os) p = operate_all os (operate o p)

module _ {V : Type 0} (signer : Signer) where
  -- `load`, on the session cookie of the request
  unfoldable pub load : ℕ → String → Option String → MemoryStore V → MemoryStore V × StoredSession V
  load now new_id none s = (s, Stored.create new_id none)
  load now new_id (some signed) s = load_unsigned now new_id (signer.unsign signed) s

  -- the part of `save` behind its guards
  unfoldable pub write_back :
      ℕ → ℕ → Bool → StoredSession V → MemoryStore V → MemoryStore V × CookieChange
  write_back now ttl_ms rolling st s = (
    Store.set now st.id st.contents ttl_ms s,
    if not st.loaded || has_old st.old_id || rolling then issued (signer.sign st.id) else unchanged,
  )
    where
      has_old : Option String → Bool
      has_old none = false
      has_old (some old) = true

  -- `save`
  unfoldable pub save :
      ℕ → ℕ → Bool → StoredSession V → MemoryStore V → MemoryStore V × CookieChange
  save now ttl_ms rolling st s =
      let s' = drop_id st.old_id s in
      if st.destroyed
      then (if st.loaded then Store.destroy st.id s' else s', cleared)
      else if not st.dirty && not (rolling && st.loaded)
      then (s', unchanged)
      else write_back now ttl_ms rolling st s'
