-- ===== src/JsMap/Count.antt =====
-- Weights of a map's entries added up, the first key whose value passes a test, and what `set` and
-- `delete` do to them.
use toki.Base.{
  ℕ, ◌+◌, ◌≤◌, ◌≡◌, refl, Bool, true, false, Option, none, some, [], ◌∷◌, String, eq_iff, eq_refl,
  arith, if◌then◌else◌, Bool-cases, inl, inr,
}
use toki.JsMap.{JsMap, get, set, delete}
use toki.JsMap.Laws.{IsMap, get-eq-none_iff}

-- The weights of all values.
unfoldable pub total {ℓ} : {V : Type ℓ} → (V → ℕ) → JsMap V → ℕ
total w [] = 0
total w ((j, v) ∷ m) = w v + total w m

-- `for (const [k, v] of map) if (test(v)) …`, with a `return` in the branch: the key found.
unfoldable pub find_key {ℓ} : {V : Type ℓ} → (String → V → Bool) → JsMap V → Option String
find_key t [] = none
find_key t ((j, v) ∷ m) = let rest = find_key t m in if t j v then some j else rest

module _ {ℓ} {V : Type ℓ} where
  pub total-delete :
      (w : V → ℕ) (k : String) (v : V) (m : JsMap V)
      → get k m ≡ some v
      → total w m ≡ w v + total w (delete k m)
  unfolding total get delete
  total-delete w k v [] h = ground arith
  total-delete w k v ((j, x) ∷ m) h = ground (arith, total-delete w k v m)

  pub total-set :
      (w : V → ℕ) (k : String) (old v : V) (m : JsMap V)
      → get k m ≡ some old
      → total w (set k v m) + w old ≡ total w m + w v
  unfolding total get set
  total-set w k old v [] h = ground arith
  total-set w k old v ((j, x) ∷ m) h = ground (arith, total-set w k old v m)

  pub total-set_new :
      (w : V → ℕ) (k : String) (v : V) (m : JsMap V)
      → get k m ≡ none
      → total w (set k v m) ≡ total w m + w v
  unfolding total get set
  total-set_new w k v [] h = ground arith
  total-set_new w k v ((j, x) ∷ m) h = ground (arith, total-set_new w k v m)

  -- A value's weight is part of the total.
  pub total-get :
      (w : V → ℕ) (k : String) (v : V) (m : JsMap V)
      → get k m ≡ some v
      → (rest : ℕ) × (total w m ≡ w v + rest)
  total-get w k v m h = (total w (delete k m), total-delete w k v m h)

  pub get-find_key :
      (t : String → V → Bool) (m : JsMap V) (k : String)
      → IsMap m
      → find_key t m ≡ some k
      → (v : V) × (get k m ≡ some v) × (t k v ≡ true)
  unfolding get find_key
  get-find_key t [] k h e = absurd (ground arith)
  get-find_key t ((j, x) ∷ m) k h e = elim (Bool-cases (t j x)) [
    | inl here ↦ let same : j ≡ k = ground arith in rw (← same) (x, ground (arith, eq_refl j), here)
    | inr on ↦
        let (v, found, passes) = get-find_key t m k h.1 (ground arith) in
        (v, ground (arith, eq_iff j k, get-eq-none_iff j m, h.0), passes)
  ]

  -- Where no entry passes the test, none has weight under any weight that only such entries have.
  pub total-find_key :
      (t : String → V → Bool) (w : V → ℕ) (m : JsMap V)
      → ((k : String) (v : V) → get k m ≡ some v → t k v ≡ false → w v ≡ 0)
      → IsMap m
      → find_key t m ≡ none
      → total w m ≡ 0
  unfolding total find_key get
  total-find_key t w [] off h e = refl
  total-find_key t w ((j, x) ∷ m) off h e =
      let here : w x ≡ 0 = off j x (ground (arith, eq_refl j)) (ground arith) in
      let rest : total w m ≡ 0 =
        total-find_key t w m
          (λ k v g f. off k v (ground (arith, eq_iff j k, get-eq-none_iff j m, h.0)) f) h.1
          (ground arith) in
      omega arith

  pub total-le : (w u : V → ℕ) (m : JsMap V) → ((v : V) → w v ≤ u v) → total w m ≤ total u m
  unfolding total
  total-le w u [] le = omega arith
  total-le w u ((j, x) ∷ m) le = omega (arith, le x, total-le w u m le)
