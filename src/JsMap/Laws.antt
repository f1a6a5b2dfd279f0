-- ===== src/JsMap/Laws.antt =====
-- The laws of `get`, `has`, `set` and `delete` on a map whose keys are distinct.
use toki.Base.{
  suc, ◌≤◌, ◌≡◌, refl, ◌↔◌, true, false, none, some, [], ◌∷◌, String, str_eq, eq_iff, eq_refl,
  arith, length, if◌then◌else◌, Bool-cases, inl, inr,
}
use toki.JsMap.{JsMap, get, has, set, delete}

-- No key stands twice, which `set` and `delete` keep.
abbrev pub IsMap {ℓ} : {V : Type ℓ} → JsMap V → Type 0
IsMap [] = Unit
IsMap ((k, v) ∷ m) = (has k m ≡ false) × IsMap m

module _ {ℓ} {V : Type ℓ} where
  pub get-eq-none_iff : (k : String) (m : JsMap V) → (get k m ≡ none) ↔ (has k m ≡ false)
  unfolding get has
  get-eq-none_iff k [] = ground arith
  get-eq-none_iff k ((j, v) ∷ m) = ground (arith, get-eq-none_iff k m)

  pub get-set :
      (k j : String) (v : V) (m : JsMap V)
      → get j (set k v m) ≡ (if str_eq k j then some v else get j m)
  unfolding get set
  get-set k j v [] = refl
  get-set k j v ((i, w) ∷ m) = ground (arith, get-set k j v m, eq_iff i k, eq_iff i j, eq_iff k j)

  pub has-set :
      (k j : String) (v : V) (m : JsMap V)
      → has j (set k v m) ≡ (if str_eq k j then true else has j m)
  unfolding has set
  has-set k j v [] = refl
  has-set k j v ((i, w) ∷ m) = ground (arith, has-set k j v m, eq_iff i k, eq_iff i j, eq_iff k j)

  pub IsMap-set : (k : String) (v : V) (m : JsMap V) → IsMap m → IsMap (set k v m)
  unfolding set has
  IsMap-set k v [] h = (refl, tt)
  IsMap-set k v ((i, w) ∷ m) h = elim (Bool-cases (str_eq i k)) [
    | inl same ↦ rw same h
    | inr other ↦
        rw other (ground (arith, has-set k i v m, eq_iff i k, eq_iff k i), IsMap-set k v m h.1)
  ]

  pub length-set :
      (k : String) (v : V) (m : JsMap V)
      → length (set k v m) ≡ (if has k m then length m else suc (length m))
  unfolding has set
  length-set k v [] = refl
  length-set k v ((i, w) ∷ m) = ground (arith, length-set k v m)

  pub has-delete_le : (k j : String) (m : JsMap V) → has j m ≡ false → has j (delete k m) ≡ false
  unfolding has delete
  has-delete_le k j [] h = refl
  has-delete_le k j ((i, w) ∷ m) h = ground (arith, has-delete_le k j m)

  pub IsMap-delete : (k : String) (m : JsMap V) → IsMap m → IsMap (delete k m)
  unfolding delete
  IsMap-delete k [] h = tt
  IsMap-delete k ((i, w) ∷ m) h = elim (Bool-cases (str_eq i k)) [
    | inl same ↦ rw same h.1
    | inr other ↦ rw other (has-delete_le k i m h.0, IsMap-delete k m h.1)
  ]

  pub get-delete :
      (k j : String) (m : JsMap V)
      → IsMap m
      → get j (delete k m) ≡ (if str_eq k j then none else get j m)
  unfolding get delete
  get-delete k j [] h = ground arith
  get-delete k j ((i, w) ∷ m) h =
      ground
        (arith, get-delete k j m h.1, get-eq-none_iff j m, eq_iff i k, eq_iff i j, eq_iff k j, h.0)

  pub has-delete_self : (k : String) (m : JsMap V) → IsMap m → has k (delete k m) ≡ false
  has-delete_self k m h =
      (get-eq-none_iff k (delete k m)).0 (ground (arith, get-delete k k m h, eq_refl k))

  pub length-delete :
      (k : String) (m : JsMap V)
      → length m ≡ (if has k m then suc (length (delete k m)) else length (delete k m))
  unfolding has delete
  length-delete k [] = refl
  length-delete k ((i, w) ∷ m) = ground (arith, length-delete k m)

  pub length-delete-le : (k : String) (m : JsMap V) → length (delete k m) ≤ length m
  length-delete-le k m = ground (arith, length-delete k m)

  pub length-set-le : (k : String) (v : V) (m : JsMap V) → length (set k v m) ≤ suc (length m)
  length-set-le k v m = ground (arith, length-set k v m)

  pub get-set_self : (k : String) (v : V) (m : JsMap V) → get k (set k v m) ≡ some v
  get-set_self k v m = ground (arith, get-set k k v m, eq_refl k)

  pub get-set_ne :
      (k j : String) (v : V) (m : JsMap V) → str_eq k j ≡ false → get j (set k v m) ≡ get j m
  get-set_ne k j v m h = ground (arith, get-set k j v m)
