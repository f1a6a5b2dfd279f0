-- ===== src/Cache/Store/Recency.antt =====
-- plugins/cache/src/store.ts: the ceiling, and which entry goes.
use toki.Base.{length-drop}
use toki.Base.{
  ℕ, suc, ◌≤◌, ◌<◌, ◌≡◌, refl, ◌∙◌, ap, false, some, [], ◌∷◌, ◌++◌, String, str_eq, arith, eq_refl,
  ltb, length, length-append, drop, if◌then◌else◌, Bool-cases, inl, inr,
}
use toki.JsMap
use toki.JsMap.{JsMap}
use toki.JsMap.Laws.{IsMap, IsMap-set, IsMap-delete, has-delete_self, length-delete-le}
use toki.Cache.Store.{MemoryStore, CacheEntry, delete, bump, get, drop_oldest, trim, set}

-- Distinct keys, and never more of them than the ceiling.
pub record IsCache (s : MemoryStore) : Type 0 where
  pub distinct : IsMap s.entries
  pub bounded : length s.entries ≤ s.max_size

-- Setting a key that is absent puts it last.
set-append :
    {V : Type 0} (k : String) (v : V) (m : JsMap V)
    → JsMap.has k m ≡ false
    → JsMap.set k v m ≡ m ++ (k, v) ∷ []
unfolding JsMap.has JsMap.set
set-append k v [] h = refl
set-append k v ((j, w) ∷ m) h = elim (Bool-cases (str_eq j k)) [
  | inl same ↦ absurd (ground arith)
  | inr other ↦ rw other (ap (◌∷◌ (j, w)) (set-append k v m (ground arith)))
]

-- Reading or writing a key makes it the newest, and leaves the others in their order.
pub bump-append :
    (key : String) (entry : CacheEntry) (s : MemoryStore)
    → IsMap s.entries
    → (bump key entry s).entries ≡ JsMap.delete key s.entries ++ (key, entry) ∷ []
unfolding bump
bump-append key entry s d =
    set-append key entry (JsMap.delete key s.entries) (has-delete_self key s.entries d)

-- Past the ceiling it is the first entry that goes.
trim-drop :
    (s : MemoryStore)
    → (trim s).entries ≡ (if ltb s.max_size (length s.entries) then drop 1 s.entries else s.entries)
unfolding trim drop_oldest delete JsMap.oldest JsMap.delete
trim-drop s = by_entries s.entries
  where
    by_entries :
        (m : JsMap CacheEntry)
        → (if ltb s.max_size (length m)
            then drop_oldest (JsMap.oldest m) (record s { entries = m })
            else record s { entries = m }).entries
          ≡ (if ltb s.max_size (length m) then drop 1 m else m)
    by_entries [] = ground arith
    by_entries ((k, v) ∷ m) = ground (arith, eq_refl k)

-- A write removes the key's old entry, drops the first of the remaining entries
-- when they would be too many with the new one, and puts the new one last; the others keep their
-- order. The keys are distinct.
pub set-recency :
    (key : String) (entry : CacheEntry) (s : MemoryStore)
    → IsMap s.entries
    → (set key entry s).entries ≡ (
        let others = JsMap.delete key s.entries ++ (key, entry) ∷ [] in
        if ltb s.max_size (suc (length (JsMap.delete key s.entries)))
        then drop 1 others
        else others)
unfolding set bump JsMap.delete
set-recency key entry s d =
    let size : length (JsMap.delete key s.entries ++ (key, entry) ∷ [])
        ≡ suc (length (JsMap.delete key s.entries)) =
      omega (arith, length-append (JsMap.delete key s.entries) ((key, entry) ∷ [])) in
    trim-drop (bump key entry s) ∙ rw (bump-append key entry s d, size, bump) refl

IsMap-drop_one : {V : Type 0} (m : JsMap V) → IsMap m → IsMap (drop 1 m)
IsMap-drop_one [] d = tt
IsMap-drop_one (e ∷ m) d = d.1

get-append :
    {V : Type 0} (k : String) (v : V) (m : JsMap V)
    → JsMap.has k m ≡ false
    → JsMap.get k (m ++ (k, v) ∷ []) ≡ some v
unfolding JsMap.has JsMap.get
get-append k v [] h = ground (arith, eq_refl k)
get-append k v ((j, w) ∷ m) h = ground (arith, get-append k v m)

get-drop_one :
    {V : Type 0} (k : String) (v : V) (n : ℕ) (m : JsMap V)
    → JsMap.has k m ≡ false
    → 0 < n
    → JsMap.get k (if ltb n (suc (length m)) then drop 1 (m ++ (k, v) ∷ []) else m ++ (k, v) ∷ [])
      ≡ some v
unfolding JsMap.has
get-drop_one k v n [] h p = ground (arith, get-append k v [] refl)
get-drop_one k v n ((j, w) ∷ m) h p =
    let later : JsMap.has k m ≡ false = ground (arith, h) in
    elim (Bool-cases (ltb n (suc (suc (length m))))) [
      | inl full ↦ rw full (get-append k v m later)
      | inr room ↦ rw room (get-append k v ((j, w) ∷ m) h)
    ]

-- What was written is read back until it expires, unless other writes come between: even in a full
-- store the entry just written is not the one that goes. The ceiling is at least one.
pub get-set_entry :
    (now : ℕ) (key : String) (entry : CacheEntry) (s : MemoryStore)
    → IsMap s.entries
    → 0 < s.max_size
    → now < entry.expires_at
    → (get now key (set key entry s)).1 ≡ some entry
unfolding get
get-set_entry now key entry s d p live =
    let found : JsMap.get key (set key entry s).entries ≡ some entry =
      rw (set-recency key entry s d) (
        get-drop_one key entry s.max_size (JsMap.delete key s.entries)
          (has-delete_self key s.entries d) p) in
    rw (found, get) (ground arith)

pub bump-IsMap :
    (key : String) (entry : CacheEntry) (s : MemoryStore)
    → IsMap s.entries
    → IsMap (bump key entry s).entries
unfolding bump
bump-IsMap key entry s d = IsMap-set key entry _ (IsMap-delete key s.entries d)

pub set-IsCache :
    (key : String) (entry : CacheEntry) (s : MemoryStore)
    → IsCache s
    → IsMap (set key entry s).entries × (length (set key entry s).entries ≤ s.max_size)
set-IsCache key entry s c =
    rw (set-recency key entry s c.distinct)
      (elim (Bool-cases (ltb s.max_size (suc (length (JsMap.delete key s.entries))))) [
        | inl full ↦
            rw full (IsMap-drop_one _ others, ground (arith, size, less, c.bounded, shorter))
        | inr room ↦ rw room (others, ground (arith, size))
      ])
  where
    size :
        length (JsMap.delete key s.entries ++ (key, entry) ∷ [])
        ≡ suc (length (JsMap.delete key s.entries))
    size = omega (arith, length-append (JsMap.delete key s.entries) ((key, entry) ∷ []))

    less : length (JsMap.delete key s.entries) ≤ length s.entries
    less = length-delete-le key s.entries

    others : IsMap (JsMap.delete key s.entries ++ (key, entry) ∷ [])
    others = rw (← bump-append key entry s c.distinct) (bump-IsMap key entry s c.distinct)

    shorter :
        length (drop 1 (JsMap.delete key s.entries ++ (key, entry) ∷ []))
        ≡ length (JsMap.delete key s.entries)
    shorter = omega (arith, size, length-drop 1 (JsMap.delete key s.entries ++ (key, entry) ∷ []))
