-- ===== src/JsMap.antt =====
-- JavaScript's `Map` with string keys, as the in-memory stores of the plugins use it: the entries in
-- insertion order. `set` on a key that is present replaces the value in place; `delete` and a later
-- `set` move the key to the newest place.
pub mod Laws
pub mod Evict
pub mod Expiry
pub mod Count
use toki.Base.{
  ℕ, suc, zero, Bool, true, false, leb, Option, none, some, List, [], ◌∷◌, String, str_eq, length,
  if◌then◌else◌,
}

abbrev pub JsMap {ℓ} : Type ℓ → Type ℓ
JsMap V = List (String × V)

module _ {ℓ} {V : Type ℓ} where
  -- `map.get(key)`
  unfoldable pub get : String → JsMap V → Option V
  get k [] = none
  get k ((j, v) ∷ m) = if str_eq j k then some v else get k m

  -- `map.has(key)`
  unfoldable pub has : String → JsMap V → Bool
  has k [] = false
  has k ((j, v) ∷ m) = if str_eq j k then true else has k m

  -- `map.set(key, value)`
  unfoldable pub set : String → V → JsMap V → JsMap V
  set k v [] = (k, v) ∷ []
  set k v ((j, w) ∷ m) = if str_eq j k then (j, v) ∷ m else (j, w) ∷ set k v m

  -- `map.delete(key)`
  unfoldable pub delete : String → JsMap V → JsMap V
  delete k [] = []
  delete k ((j, w) ∷ m) = if str_eq j k then m else (j, w) ∷ delete k m

  -- `map.size`
  abbrev pub size : JsMap V → ℕ
  size m = length m

  -- `for (const [key, value] of map) if (test(value)) map.delete(key)`
  unfoldable pub delete_where : (V → Bool) → JsMap V → JsMap V
  delete_where p [] = []
  delete_where p ((j, w) ∷ m) = let rest = delete_where p m in if p w then rest else (j, w) ∷ rest

  -- `map.keys().next().value`
  unfoldable pub oldest : JsMap V → Option String
  oldest [] = none
  oldest ((j, w) ∷ m) = some j

  -- `while (map.size >= max) { const oldest = map.keys().next().value; if (oldest === undefined)
  -- break; map.delete(oldest); }`, the loop of the stores' `#capacityEvict`, on fuel
  unfoldable pub delete_oldest : ℕ → ℕ → JsMap V → JsMap V
  delete_oldest zero max_keys m = m
  delete_oldest (suc fuel) max_keys m = elim (leb max_keys (length m)) [
    | true ↦ elim (oldest m) [ none ↦ m | some k ↦ delete_oldest fuel max_keys (delete k m) ]
    | false ↦ m
  ]
