-- ===== src/JsMap/Expiry.antt =====
-- Tables whose entries expire, against a function from keys to entries with no table behind it: the
-- common part of the in-memory stores of the plugins. `expiry` is when an entry is over.
use toki.Base.{
  ℕ, ◌+◌, ◌≤◌, ◌≡◌, refl, sym, ◌⊎◌, inl, inr, Bool, Option, none, some, String, str_eq, arith, leb,
  if◌then◌else◌, Bool-cases,
}
use toki.JsMap
use toki.JsMap.{JsMap}
use toki.JsMap.Laws.{IsMap, IsMap-set, IsMap-delete, get-set, get-delete}
use toki.JsMap.Evict.{IsMap-delete_where, get-delete_where}

module _ {V : Type 0} where
  abbrev pub assign : String → Option V → (String → Option V) → String → Option V
  assign k v f = λ j. if str_eq k j then v else f j

module _ {V : Type 0} (expiry : V → ℕ) where
  -- `now >= entry.expiresAt`
  abbrev pub over : ℕ → V → Bool
  over now v = leb (expiry v) now

  -- The table has the ideal's entry, or has dropped one that is over.
  abbrev pub Fits : ℕ → Option V → Option V → Type 0
  Fits now real wanted =
      (real ≡ wanted) ⊎ ((v : V) × (real ≡ none) × (wanted ≡ some v) × (expiry v ≤ now))

  pub record Agrees (now : ℕ) (m : JsMap V) (f : String → Option V) : Type 0 where
    pub distinct : IsMap m
    pub at_key : (k : String) → Fits now (JsMap.get k m) (f k)

  Fits-later : (now dt : ℕ) (a b : Option V) → Fits now a b → Fits (now + dt) a b
  Fits-later now dt a b (inl same) = inl same
  Fits-later now dt a b (inr (w, gone, e, old)) = inr (w, gone, e, omega arith)

  pub Agrees-later :
      (now dt : ℕ) (m : JsMap V) (f : String → Option V) → Agrees now m f → Agrees (now + dt) m f
  Agrees-later now dt m f a = record {
    distinct = a.distinct;
    at_key = λ k. Fits-later now dt _ _ (a.at_key k);
  }

  pub Agrees-set :
      (now : ℕ) (k : String) (v : V) (m : JsMap V) (f : String → Option V)
      → Agrees now m f
      → Agrees now (JsMap.set k v m) (assign k (some v) f)
  Agrees-set now k v m f a = record {
    distinct = IsMap-set k v m a.distinct;
    at_key = λ j. rw (get-set k j v m) (elim (Bool-cases (str_eq k j)) [
      | inl same ↦ rw same (inl refl)
      | inr other ↦ rw other (a.at_key j)
    ]);
  }

  pub Agrees-delete :
      (now : ℕ) (k : String) (m : JsMap V) (f : String → Option V)
      → Agrees now m f
      → Agrees now (JsMap.delete k m) (assign k none f)
  Agrees-delete now k m f a = record {
    distinct = IsMap-delete k m a.distinct;
    at_key = λ j. rw (get-delete k j m a.distinct) (elim (Bool-cases (str_eq k j)) [
      | inl same ↦ rw same (inl refl)
      | inr other ↦ rw other (a.at_key j)
    ]);
  }

  Fits-sweep :
      (now : ℕ) (real wanted : Option V)
      → Fits now real wanted
      → Fits now (elim real [ none ↦ none | some v ↦ if over now v then none else some v ]) wanted
  Fits-sweep now none wanted h = h
  Fits-sweep now (some v) wanted (inl same) = elim (Bool-cases (over now v)) [
    | inl old ↦ rw old (inr (v, refl, sym same, ground arith))
    | inr live ↦ rw live (inl same)
  ]
  Fits-sweep now (some v) wanted (inr (b, gone, e, old)) = cc

  pub Agrees-sweep :
      (now : ℕ) (m : JsMap V) (f : String → Option V)
      → Agrees now m f
      → Agrees now (JsMap.delete_where (over now) m) f
  Agrees-sweep now m f a = record {
    distinct = IsMap-delete_where (over now) m a.distinct;
    at_key = λ k.
        rw (get-delete_where (over now) k m a.distinct)
          (Fits-sweep now (JsMap.get k m) (f k) (a.at_key k));
  }
