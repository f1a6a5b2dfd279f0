-- ===== src/JsMap/Evict.antt =====
-- Sweeping entries by a test, and deleting the oldest ones while the map is at its ceiling.
use toki.Base.{
  ℕ, zero, suc, ◌-◌, ◌≤◌, ◌<◌, ◌≡◌, refl, Bool, false, none, some, [], ◌∷◌, String, eq_iff, eq_refl,
  arith, length, length-drop, drop, sym, leb, if◌then◌else◌, Bool-cases, inl, inr,
}
use native.Mathlib.Nat.{le_refl}
use toki.JsMap.{JsMap, get, has, delete, delete_where, delete_oldest, oldest}
use toki.JsMap.Laws.{IsMap, get-eq-none_iff}

module _ {ℓ} {V : Type ℓ} (p : V → Bool) where
  has-delete_where : (k : String) (m : JsMap V) → has k m ≡ false → has k (delete_where p m) ≡ false
  unfolding has delete_where
  has-delete_where k [] h = refl
  has-delete_where k ((j, w) ∷ m) h = ground (arith, has-delete_where k m)

  pub IsMap-delete_where : (m : JsMap V) → IsMap m → IsMap (delete_where p m)
  unfolding delete_where
  IsMap-delete_where [] h = tt
  IsMap-delete_where ((j, w) ∷ m) h = elim (Bool-cases (p w)) [
    | inl gone ↦ rw gone (IsMap-delete_where m h.1)
    | inr kept ↦ rw kept (has-delete_where j m h.0, IsMap-delete_where m h.1)
  ]

  pub length-delete_where : (m : JsMap V) → length (delete_where p m) ≤ length m
  unfolding delete_where
  length-delete_where [] = omega arith
  length-delete_where ((j, w) ∷ m) = ground (arith, length-delete_where m)

  -- What the sweep keeps: an entry stays exactly when it was there and fails the test.
  pub get-delete_where :
      (k : String) (m : JsMap V)
      → IsMap m
      → get k (delete_where p m)
        ≡ elim (get k m) [ none ↦ none | some v ↦ if p v then none else some v ]
  unfolding get delete_where
  get-delete_where k [] h = refl
  get-delete_where k ((j, w) ∷ m) h =
      ground (arith, get-delete_where k m h.1, eq_iff j k, get-eq-none_iff k m, h.0)

drop_nil {ℓ} : {A : Type ℓ} (n : ℕ) → drop {A = A} n [] ≡ []
drop_nil zero = refl
drop_nil (suc n) = refl

-- The loop drops the oldest entries, exactly as many as bring the map below the ceiling.
pub delete_oldest-drop {ℓ} :
    {V : Type ℓ} (fuel max_keys : ℕ) (m : JsMap V)
    → length m ≤ fuel
    → delete_oldest fuel max_keys m ≡ drop (suc (length m) - max_keys) m
unfolding delete_oldest oldest delete
delete_oldest-drop zero n [] h = sym (drop_nil (1 - n))
delete_oldest-drop zero n (e ∷ m) h = absurd (omega arith)
delete_oldest-drop (suc fuel) zero [] h = refl
delete_oldest-drop {V} (suc fuel) (suc n) [] h =
    ground (arith, drop_nil {A = String × V} (1 - suc n))
delete_oldest-drop (suc fuel) n ((k, v) ∷ m) h = elim (Bool-cases (leb n (suc (length m)))) [
  | inl full ↦
      let e : suc (suc (length m)) - n ≡ suc (suc (length m) - n) = ground arith in
      rw e (ground (arith, eq_refl k, delete_oldest-drop fuel n m (omega arith)))
  | inr room ↦ let e : suc (suc (length m)) - n ≡ 0 = ground arith in rw e (ground arith)
]

-- After the loop there is room for one more key.
pub length-delete_oldest {ℓ} :
    {V : Type ℓ} (max_keys : ℕ) (m : JsMap V)
    → 0 < max_keys
    → length (delete_oldest (length m) max_keys m) < max_keys
length-delete_oldest n m h =
    rw (delete_oldest-drop (length m) n m (le_refl (length m)), length-drop) (omega arith)

IsMap-drop {ℓ} : {V : Type ℓ} (n : ℕ) (m : JsMap V) → IsMap m → IsMap (drop n m)
IsMap-drop zero m h = h
IsMap-drop (suc n) [] h = tt
IsMap-drop (suc n) (e ∷ m) h = IsMap-drop n m h.1

pub IsMap-delete_oldest {ℓ} :
    {V : Type ℓ} (max_keys : ℕ) (m : JsMap V)
    → IsMap m
    → IsMap (delete_oldest (length m) max_keys m)
IsMap-delete_oldest n m h =
    rw (delete_oldest-drop (length m) n m (le_refl (length m)))
      (IsMap-drop (suc (length m) - n) m h)

pub delete_oldest_room {ℓ} :
    {V : Type ℓ} (max_keys : ℕ) (m : JsMap V)
    → length m < max_keys
    → delete_oldest (length m) max_keys m ≡ m
delete_oldest_room n m h =
    let e : suc (length m) - n ≡ 0 = omega arith in
    rw (delete_oldest-drop (length m) n m (le_refl (length m)), e)

get-drop {ℓ} :
    {V : Type ℓ} (k : String) (n : ℕ) (m : JsMap V) → get k m ≡ none → get k (drop n m) ≡ none
unfolding get
get-drop k zero m h = h
get-drop k (suc n) [] h = refl
get-drop k (suc n) ((j, v) ∷ m) h = ground (arith, get-drop k n m)

-- The loop brings no key in.
pub get-delete_oldest {ℓ} :
    {V : Type ℓ} (k : String) (max_keys : ℕ) (m : JsMap V)
    → get k m ≡ none
    → get k (delete_oldest (length m) max_keys m) ≡ none
get-delete_oldest k n m h =
    rw (delete_oldest-drop (length m) n m (le_refl (length m)))
      (get-drop k (suc (length m) - n) m h)
