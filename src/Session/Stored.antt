-- ===== src/Session/Stored.antt =====
-- plugins/session/src/session.ts: the session of one request. `newSessionId()` is an argument.
-- What it keeps is under names other than `__proto__`.
use toki.Base.{
  ◌||◌, List, ◌∷◌, any, str_eq, Bool, true, false, Option, none, some, [], String, or_else,
  if◌then◌else◌,
}
use toki.JsMap
use toki.JsMap.{JsMap}

pub record StoredSession (V : Type 0) : Type 0 where
  pub id : String
  pub loaded : Bool
  pub old_id : Option String
  pub dirty : Bool
  pub destroyed : Bool
  pub contents : JsMap V

-- What every object inherits.
abbrev pub inherited : List String
inherited =
    "constructor" ∷ "__defineGetter__" ∷ "__defineSetter__" ∷ "hasOwnProperty" ∷ "__lookupGetter__"
    ∷ "__lookupSetter__" ∷ "isPrototypeOf" ∷ "propertyIsEnumerable" ∷ "toString" ∷ "valueOf"
    ∷ "__proto__" ∷ "toLocaleString" ∷ []

module _ {V : Type 0} where
  unfoldable pub create : String → Option (JsMap V) → StoredSession V
  create id none = record {
    id = id;
    loaded = false;
    old_id = none;
    dirty = false;
    destroyed = false;
    contents = [];
  }
  create id (some contents) = record {
    id = id;
    loaded = true;
    old_id = none;
    dirty = false;
    destroyed = false;
    contents = contents;
  }

  -- `get`, of a name that is not inherited
  unfoldable pub get : String → StoredSession V → Option V
  get key st = JsMap.get key st.contents

  -- `key in this.#data`: an inherited name is found too
  unfoldable pub has : String → StoredSession V → Bool
  has key st = JsMap.has key st.contents || any (λ name. str_eq name key) inherited

  unfoldable pub set : String → V → StoredSession V → StoredSession V
  set key value st = record st { contents = JsMap.set key value st.contents; dirty = true }

  unfoldable pub delete : String → StoredSession V → StoredSession V
  delete key st =
      if has key st then record st { contents = JsMap.delete key st.contents; dirty = true } else st

  -- the first statement of `regenerate`: the id that the store is told to drop
  unfoldable pub retire : StoredSession V → Option String
  retire st = elim st.old_id [ some old ↦ none | none ↦ if st.loaded then some st.id else none ]

  -- `regenerate`: the session, and the id handed to `onRegenerate`
  unfoldable pub regenerate : String → StoredSession V → StoredSession V × Option String
  regenerate new_id st = (
    record st { id = new_id; old_id = or_else (retire st) st.old_id; contents = []; dirty = true },
    retire st,
  )

  unfoldable pub destroy : StoredSession V → StoredSession V
  destroy st = record st { destroyed = true; dirty = false }
