-- ===== src/Http/Schema/Accepts.antt =====
-- What the keywords of ts/http/schema.ts ask of a value, said without messages, order or early returns.
use toki.Base.{
  ℕ, ◌≡◌, ◌≢◌, ◌≤◌, ◌⊎◌, Bool, true, false, Option, none, some, List, [], ◌∷◌, String, length,
}
use toki.Base.Text.{Text}
use toki.Http.Schema.{
  Json, null, boolean, number, string, array, object, Items, no_item, item, Fields, no_field, field,
  TypeName, is_object, is_array, is_string, is_number, is_integer, is_boolean, is_null, Keywords,
  JsonSchema, schema, Properties, no_property, property, ItemSchema, any_item, each_item, Language,
  own, has_own, declares, input_cap,
}
use toki.Http.Schema.Check.{in_enum}

-- A keyword that is there holds.
abbrev pub Holds : {A : Type 0} → Option A → (A → Type 0) → Type 0
Holds none P = Unit
Holds (some a) P = P a

abbrev pub AllItems : (Json → Type 0) → Items → Type 0
AllItems P no_item = Unit
AllItems P (item v rest) = P v × AllItems P rest

abbrev pub AllKeys : (String → Type 0) → List String → Type 0
AllKeys P [] = Unit
AllKeys P (k ∷ ks) = P k × AllKeys P ks

-- Every own key of the value.
abbrev pub AllFields : (String → Type 0) → Fields → Type 0
AllFields P no_field = Unit
AllFields P (field k v rest) = P k × AllFields P rest

module _ (lang : Language) where
  -- A text: within the lengths, of the format, and matching the pattern, for which it must not be
  -- longer than its input may be.
  pub record IsText (k : Keywords) (s : Text) : Type 0 where
    pub long : Holds k.min_length (λ n. n ≤ length s)
    pub short : Holds k.max_length (λ n. length s ≤ n)
    pub matched :
        Holds k.matching (λ p. (length s ≤ input_cap k.max_length) × (lang.matches p s ≡ true))
    pub formatted : Holds k.format_name (λ f. lang.is_format f s ≡ true)

  -- A double that is not NaN, whole where that is asked, and within the bounds.
  pub record IsDouble (k : Keywords) (whole : Bool) (n : ℕ) : Type 0 where
    pub real : lang.is_nan n ≡ false
    pub integral : whole ≡ true → lang.is_whole n ≡ true
    pub above : Holds k.min (λ m. lang.less n m ≡ false)
    pub below : Holds k.max (λ m. lang.less m n ≡ false)

-- Nothing is accepted.
abbrev pub Never : Type 0
Never = true ≡ false

-- The value is of its type's shape, and of what the keywords of that type ask; `ps` and `is` say what
-- is asked of the declared properties and of the items.
abbrev pub OfObject : Keywords → Properties → (Fields → Type 0) → Json → Type 0
OfObject k props ps (object fields) =
    AllKeys (λ key. has_own key fields ≡ true) k.required
    × (ps fields
        × (k.additional_properties ≡ some false
            → AllFields (λ key. declares key props ≡ true) fields))
OfObject k props ps _ = Never

abbrev pub OfArray : (Json → Type 0) → Json → Type 0
OfArray is (array items) = AllItems is items
OfArray is _ = Never

abbrev pub OfString : Language → Keywords → Json → Type 0
OfString lang k (string s) = IsText lang k s
OfString lang k _ = Never

abbrev pub OfNumber : Language → Keywords → Bool → Json → Type 0
OfNumber lang k whole (number n) = IsDouble lang k whole n
OfNumber lang k whole _ = Never

abbrev pub OfBoolean : Json → Type 0
OfBoolean (boolean b) = Unit
OfBoolean _ = Never

abbrev pub OfType :
    Language
    → Keywords
    → Properties
    → (Fields → Type 0)
    → (Json → Type 0)
    → Option TypeName
    → Json
    → Type 0
OfType lang k props ps is (some is_object) v = OfObject k props ps v
OfType lang k props ps is (some is_array) v = OfArray is v
OfType lang k props ps is (some is_string) v = OfString lang k v
OfType lang k props ps is (some is_number) v = OfNumber lang k false v
OfType lang k props ps is (some is_integer) v = OfNumber lang k true v
OfType lang k props ps is (some is_boolean) v = OfBoolean v
OfType lang k props ps is (some is_null) v = v ≡ null
OfType lang k props ps is none v = Unit

-- A schema accepts null where it is nullable or of type null, and else what is among the values of
-- `enum` and of its type.
unfoldable mutual
  pub Accepts : Language → JsonSchema → Json → Type 0
  Accepts lang (schema k props items) v =
      ((v ≡ null) × ((k.nullable ≡ true) ⊎ (k.type_name ≡ some is_null)))
      ⊎ ((k.type_name ≢ some is_null)
          × (Holds k.enum_values (λ values. in_enum lang v values ≡ true)
              × OfType lang k props (AcceptsOwn lang props) (AcceptsItem lang items) k.type_name v))

  pub AcceptsOwn : Language → Properties → Fields → Type 0
  AcceptsOwn lang no_property fields = Unit
  AcceptsOwn lang (property key sub rest) fields =
      ((v : Json) → own key fields ≡ some v → Accepts lang sub v) × AcceptsOwn lang rest fields

  pub AcceptsItem : Language → ItemSchema → Json → Type 0
  AcceptsItem lang any_item v = Unit
  AcceptsItem lang (each_item sub) v = Accepts lang sub v
