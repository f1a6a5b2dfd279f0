-- ===== src/Session/Plugin/Fixation.antt =====
-- plugins/session: a session id from before `regenerate` is worth nothing afterwards.
use toki.Base.{
  ℕ, ◌≡◌, refl, Bool, true, false, not, ◌&&◌, none, some, List, [], ◌∷◌, String, str_eq, arith, leb,
  length, eq_refl, Bool-cases, inl, inr,
}
use toki.JsMap
use toki.JsMap.{JsMap}
use toki.JsMap.Laws.{IsMap, IsMap-delete, get-delete, get-set_ne}
use toki.JsMap.Evict.{get-delete_where, get-delete_oldest}
use toki.Session.Store
use toki.Session.Store.{MemoryStore, make_room, capacity_evict, evict, is_expired}
use toki.Session.Stored
use toki.Session.Stored.{StoredSession, retire}
use toki.Session.Plugin.{
  Signer, Operation, put, remove, rotate, close, operate, operate_all, drop_id, write_back, save,
}

module _ {V : Type 0} where
  -- Every id that `regenerate` comes by differs from `old`.
  abbrev pub NewIds : String → List (Operation V) → Type 0
  NewIds old [] = Unit
  NewIds old (rotate new_id ∷ os) = (str_eq new_id old ≡ false) × NewIds old os
  NewIds old (o ∷ os) = NewIds old os

  -- The handler calls `regenerate` somewhere.
  unfoldable pub rotates : List (Operation V) → Bool
  rotates [] = false
  rotates (rotate new_id ∷ os) = true
  rotates (o ∷ os) = rotates os

  -- The session that was loaded under `old` and still bears that id.
  record Bears (old : String) (p : MemoryStore V × StoredSession V) : Type 0 where
    distinct : IsMap p.0.sessions
    same_id : p.1.id ≡ old
    not_rotated : p.1.old_id ≡ none
    was_loaded : p.1.loaded ≡ true

  -- It bears another id, and the store has dropped the old one.
  record Retired (old : String) (p : MemoryStore V × StoredSession V) : Type 0 where
    distinct : IsMap p.0.sessions
    gone : JsMap.get old p.0.sessions ≡ none
    other_id : str_eq p.1.id old ≡ false
    rotated : p.1.old_id ≡ some old

  destroy-gone :
      (old sid : String) (s : MemoryStore V)
      → IsMap s.sessions
      → JsMap.get old s.sessions ≡ none
      → JsMap.get old (Store.destroy sid s).sessions ≡ none
  unfolding Store.destroy
  destroy-gone old sid s d h = ground (arith, get-delete sid old s.sessions d)

  destroy_self :
      (old : String) (s : MemoryStore V)
      → IsMap s.sessions
      → JsMap.get old (Store.destroy old s).sessions ≡ none
  unfolding Store.destroy
  destroy_self old s d = ground (arith, get-delete old old s.sessions d, eq_refl old)

  IsMap-destroy :
      (sid : String) (s : MemoryStore V) → IsMap s.sessions → IsMap (Store.destroy sid s).sessions
  unfolding Store.destroy
  IsMap-destroy sid s d = IsMap-delete sid s.sessions d

  make_room-gone :
      (now : ℕ) (old sid : String) (s : MemoryStore V)
      → IsMap s.sessions
      → JsMap.get old s.sessions ≡ none
      → JsMap.get old (make_room now sid s).sessions ≡ none
  unfolding make_room capacity_evict evict
  make_room-gone now old sid s d h =
      elim (Bool-cases (not (JsMap.has sid s.sessions) && leb s.max_keys (length s.sessions))) [
        | inl full ↦ rw full (
            get-delete_oldest old s.max_keys (JsMap.delete_where (is_expired now) s.sessions)
              (rw (get-delete_where (is_expired now) old s.sessions d, h) refl))
        | inr free ↦ rw free h
      ]

  set-gone :
      (now : ℕ) (old sid : String) (contents : JsMap V) (ttl : ℕ) (s : MemoryStore V)
      → IsMap s.sessions
      → str_eq sid old ≡ false
      → JsMap.get old s.sessions ≡ none
      → JsMap.get old (Store.set now sid contents ttl s).sessions ≡ none
  unfolding Store.set
  set-gone now old sid contents ttl s d other h =
      rw (get-set_ne sid old _ (make_room now sid s).sessions other)
        (make_room-gone now old sid s d h)

  operate-Retired :
      (old : String) (o : Operation V) (p : MemoryStore V × StoredSession V)
      → NewIds old (o ∷ [])
      → Retired old p
      → Retired old (operate o p)
  unfolding operate Stored.set Stored.delete Stored.destroy Stored.regenerate drop_id retire
  operate-Retired old (put key value) p n r = record {
    distinct = r.distinct;
    gone = r.gone;
    other_id = r.other_id;
    rotated = r.rotated;
  }
  operate-Retired old (remove key) p n r = record {
    distinct = r.distinct;
    gone = r.gone;
    other_id = ground (arith, r.other_id);
    rotated = ground (arith, r.rotated);
  }
  operate-Retired old (rotate new_id) p n r = record {
    distinct = rw (r.rotated, retire, drop_id) r.distinct;
    gone = rw (r.rotated, retire, drop_id) r.gone;
    other_id = n.0;
    rotated = rw (r.rotated, retire) refl;
  }
  operate-Retired old close p n r = record {
    distinct = r.distinct;
    gone = r.gone;
    other_id = r.other_id;
    rotated = r.rotated;
  }

  rotate-Retired :
      (old new_id : String) (p : MemoryStore V × StoredSession V)
      → str_eq new_id old ≡ false
      → Bears old p
      → Retired old (operate (rotate new_id) p)
  unfolding operate Stored.regenerate drop_id retire
  rotate-Retired old new_id p n b = record {
    distinct =
        rw (b.not_rotated, retire, b.was_loaded, b.same_id, drop_id)
          (IsMap-destroy old p.0 b.distinct);
    gone =
        rw (b.not_rotated, retire, b.was_loaded, b.same_id, drop_id)
          (destroy_self old p.0 b.distinct);
    other_id = n;
    rotated = rw (b.not_rotated, retire, b.was_loaded, b.same_id) refl;
  }

  put_remove-Bears :
      (old : String) (o : Operation V) (p : MemoryStore V × StoredSession V)
      → rotates (o ∷ []) ≡ false
      → Bears old p
      → Bears old (operate o p)
  unfolding operate Stored.set Stored.delete Stored.destroy rotates
  put_remove-Bears old (put key value) p n b = record {
    distinct = b.distinct;
    same_id = b.same_id;
    not_rotated = b.not_rotated;
    was_loaded = b.was_loaded;
  }
  put_remove-Bears old (remove key) p n b = record {
    distinct = b.distinct;
    same_id = ground (arith, b.same_id);
    not_rotated = ground (arith, b.not_rotated);
    was_loaded = ground (arith, b.was_loaded);
  }
  put_remove-Bears old (rotate new_id) p n b = absurd (ground arith)
  put_remove-Bears old close p n b = record {
    distinct = b.distinct;
    same_id = b.same_id;
    not_rotated = b.not_rotated;
    was_loaded = b.was_loaded;
  }

  operate_all-Retired :
      (old : String) (os : List (Operation V)) (p : MemoryStore V × StoredSession V)
      → NewIds old os
      → Retired old p
      → Retired old (operate_all os p)
  unfolding operate_all
  operate_all-Retired old [] p n r = r
  operate_all-Retired old (put key value ∷ os) p n r =
      operate_all-Retired old os _ n (operate-Retired old (put key value) p tt r)
  operate_all-Retired old (remove key ∷ os) p n r =
      operate_all-Retired old os _ n (operate-Retired old (remove key) p tt r)
  operate_all-Retired old (rotate new_id ∷ os) p n r =
      operate_all-Retired old os _ n.1 (operate-Retired old (rotate new_id) p (n.0, tt) r)
  operate_all-Retired old (close ∷ os) p n r =
      operate_all-Retired old os _ n (operate-Retired old close p tt r)

  rotating-Retired :
      (old : String) (os : List (Operation V)) (p : MemoryStore V × StoredSession V)
      → rotates os ≡ true
      → NewIds old os
      → Bears old p
      → Retired old (operate_all os p)
  unfolding operate_all rotates
  rotating-Retired old [] p h n b = absurd (ground arith)
  rotating-Retired old (put key value ∷ os) p h n b =
      rotating-Retired old os _ h n (put_remove-Bears old (put key value) p refl b)
  rotating-Retired old (remove key ∷ os) p h n b =
      rotating-Retired old os _ h n (put_remove-Bears old (remove key) p refl b)
  rotating-Retired old (rotate new_id ∷ os) p h n b =
      operate_all-Retired old os _ n.1 (rotate-Retired old new_id p n.0 b)
  rotating-Retired old (close ∷ os) p h n b =
      rotating-Retired old os _ h n (put_remove-Bears old close p refl b)

  save-Retired :
      (signer : Signer) (now ttl : ℕ) (rolling : Bool) (old : String)
      (p : MemoryStore V × StoredSession V)
      → Retired old p
      → JsMap.get old (save signer now ttl rolling p.1 p.0).0.sessions ≡ none
  unfolding save write_back drop_id
  save-Retired signer now ttl rolling old p r =
      let dropped = Store.destroy old p.0 in
      let d : IsMap dropped.sessions = IsMap-destroy old p.0 r.distinct in
      let h : JsMap.get old dropped.sessions ≡ none = destroy_self old p.0 r.distinct in
      rw r.rotated (
        ground (
          arith,
          h,
          destroy-gone old p.1.id dropped d h,
          set-gone now old p.1.id p.1.contents ttl dropped d r.other_id h,
        ))

-- No fixation: when a handler regenerates a session that was loaded under an id, whatever else it
-- does to the session before or after, the store has no entry under that id once the response is
-- saved. The condition is that no new id is the old one.
pub save-operate_all :
    {V : Type 0} (signer : Signer) (now ttl : ℕ) (rolling : Bool) (old : String)
    (contents : JsMap V) (os : List (Operation V)) (s : MemoryStore V)
    → IsMap s.sessions
    → rotates os ≡ true
    → NewIds old os
    → JsMap.get old
        (save signer now ttl rolling
          (operate_all os (s, Stored.create old (some contents))).1
          (operate_all os (s, Stored.create old (some contents))).0).0.sessions
      ≡ none
unfolding Stored.create
save-operate_all signer now ttl rolling old contents os s d h n =
    save-Retired signer now ttl rolling old (operate_all os (s, Stored.create old (some contents)))
      (rotating-Retired old os (s, Stored.create old (some contents)) h n
        (record { distinct = d; same_id = refl; not_rotated = refl; was_loaded = refl }))
