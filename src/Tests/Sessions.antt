-- ===== src/Tests/Sessions.antt =====
-- plugins/session.
use toki.Base.{◌+◌, ◌<◌, ℕ, ◌≡◌, refl, true, false, some, none, List, [], ◌∷◌, arith}
use toki.JsMap
use toki.JsMap.{JsMap}
use toki.JsMap.Laws.{IsMap}
use toki.Session.Store
use toki.Session.Store.{MemoryStore}
use toki.Session.Store.Kept.{duration}
use toki.Session.Stored
use toki.Session.Stored.{StoredSession}
use toki.Session.Plugin.{Signer, IsSigner, Operation, put, rotate, operate_all, load, save}
use toki.Session.Plugin.Fixation.{rotates, save-operate_all}
use toki.Session.Plugin.Reload.{load-save}

-- A signature that proves nothing, but comes off again.
abbrev plain_signer : Signer
plain_signer = record { sign = λ sid. sid; unsign = λ text. some text }

plain_signer-IsSigner : IsSigner plain_signer
plain_signer-IsSigner sid = refl

abbrev before_login : MemoryStore ℕ
before_login = record {
  sessions = ("old", record { contents = ("cart", 3) ∷ []; expires_at = 900 }) ∷ [];
  max_keys = 1;
}

abbrev login : List (Operation ℕ)
login = put "seen" 1 ∷ rotate "new" ∷ put "user" 7 ∷ []

one_id : IsMap before_login.sessions
unfolding JsMap.has
one_id = (refl, tt)

login-rotates : rotates login ≡ true
unfolding rotates
login-rotates = refl

save-operate_all_example :
    JsMap.get "old"
      (save plain_signer 100 900 false
        (operate_all login (before_login, Stored.create "old" (some (("cart", 3) ∷ [])))).1
        (operate_all login
          (before_login, Stored.create "old" (some (("cart", 3) ∷ [])))).0).0.sessions
    ≡ none
save-operate_all_example =
    save-operate_all plain_signer 100 900 false "old" (("cart", 3) ∷ []) login before_login one_id
      login-rotates (refl, tt)

abbrev logged_in : StoredSession ℕ
logged_in = record {
  id = "new";
  loaded = true;
  old_id = some "old";
  dirty = true;
  destroyed = false;
  contents = ("user", 7) ∷ [];
}

abbrev roomy_store : MemoryStore ℕ
roomy_store = record before_login { max_keys = 9 }

-- Another session is saved, this one is read, the timer ticks.
abbrev meanwhile : List (ℕ × Store.Event ℕ)
meanwhile = (10, Store.set_of "else" [] 60) ∷ (20, Store.get_of "new") ∷ (30, Store.sweep) ∷ []

meanwhile_short : duration meanwhile < 900
unfolding duration
meanwhile_short = omega arith

load-save_example :
    (load plain_signer
      (100 + duration meanwhile)
      "other"
      (some "new")
      (Store.run 100 meanwhile (save plain_signer 100 900 false logged_in roomy_store).0)).1
    ≡ Stored.create "new" (some (("user", 7) ∷ []))
load-save_example =
    load-save plain_signer 100 900 false "other" logged_in meanwhile roomy_store
      plain_signer-IsSigner one_id (omega arith) refl refl meanwhile_short (refl, (tt, (tt, tt)))
