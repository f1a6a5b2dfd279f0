-- ===== src/Http/Schema/Valid.antt =====
-- ts/http/schema.ts: `validate` finds no error exactly where the schema accepts the value.
use toki.Base.{
  ◌≡◌, ◌≢◌, ◌⊎◌, ◌↔◌, inl, inr, refl, true, Option, none, some, List, [], arith, Bool-cases,
}
use mathlib.Core.Path.{subst}
use toki.Http.Schema.{
  Json, null, undefined, boolean, number, string, array, object, Items, no_item, item, Fields,
  TypeName, is_object, is_array, is_string, is_number, is_integer, is_boolean, is_null, Keywords,
  JsonSchema, schema, Properties, no_property, property, ItemSchema, any_item, each_item, Language,
  own, Message, Place, member, root, absent_or, is_type, is_null_value,
}
use toki.Http.Schema.Check.{
  in_enum, check_number, check_array, check_object, check_type, check_enum, check_null, check_own,
  check, check_properties, check_items, validate,
}
use toki.Http.Schema.Checks.{
  absent_or-Holds, Fine, Fine-both, check_string-OfString, check_number-OfNumber,
  check_boolean-OfBoolean, check_each-AllItems, check_required-AllKeys, check_closed-AllFields,
}
use toki.Http.Schema.Accepts.{
  Holds, AllItems, OfObject, OfArray, OfNumber, OfType, Accepts, AcceptsOwn, AcceptsItem,
}

-- What the call for the items, where there is one, asks.
abbrev Matches : Option (Json → Place → List Message) → (Json → Type 0) → Type 0
Matches none P = (v : Json) → P v
Matches (some f) P = (v : Json) (path : Place) → Fine (f v path) ↔ P v

AllItems-all : (P : Json → Type 0) (is : Items) → ((v : Json) → P v) → AllItems P is
AllItems-all P no_item h = tt
AllItems-all P (item v rest) h = (h v, AllItems-all P rest h)

is_null_iff : (o : Option TypeName) → (is_type is_null o ≡ true) ↔ (o ≡ some is_null)
unfolding is_type
is_null_iff none = ground arith
is_null_iff (some is_object) = ground arith
is_null_iff (some is_array) = ground arith
is_null_iff (some is_string) = ground arith
is_null_iff (some is_number) = ground arith
is_null_iff (some is_integer) = ground arith
is_null_iff (some is_boolean) = ground arith
is_null_iff (some is_null) = ground arith

null_iff : (v : Json) → (is_null_value v ≡ true) ↔ (v ≡ null)
unfolding is_null_value
null_iff null = ground arith
null_iff undefined = ground arith
null_iff (boolean b) = ground arith
null_iff (number n) = ground arith
null_iff (string s) = ground arith
null_iff (array is) = ground arith
null_iff (object fs) = ground arith

module _ (lang : Language) where
  check_own_iff :
      (f : Json → Place → List Message) (P : Json → Type 0) (o : Option Json) (path : Place)
      → ((v : Json) (at_path : Place) → Fine (f v at_path) ↔ P v)
      → Fine (check_own lang f o path) ↔ ((v : Json) → o ≡ some v → P v)
  unfolding check_own
  check_own_iff f P none path h = (λ _ v e. absurd (ground arith), λ _. refl)
  check_own_iff f P (some w) path h =
      (λ e v same. let eq : w ≡ v = cc in subst P eq ((h w path).0 e), λ g. (h w path).1 (g w refl))

  check_array-OfArray :
      (k : Keywords) (g : Option (Json → Place → List Message)) (P : Json → Type 0) (v : Json)
      (path : Place)
      → Matches g P
      → Fine (check_array lang k g v path) ↔ OfArray P v
  unfolding check_array
  check_array-OfArray k (some f) P (array is) path h = check_each-AllItems lang f P is 0 path h
  check_array-OfArray k none P (array is) path h = (λ _. AllItems-all P is h, λ _. refl)
  check_array-OfArray k g P null path h = ground arith
  check_array-OfArray k g P undefined path h = ground arith
  check_array-OfArray k g P (boolean b) path h = ground arith
  check_array-OfArray k g P (number n) path h = ground arith
  check_array-OfArray k g P (string s) path h = ground arith
  check_array-OfArray k g P (object fs) path h = ground arith

  check_object-OfObject :
      (k : Keywords) (props : Properties) (f : Fields → Place → List Message) (ps : Fields → Type 0)
      (v : Json) (path : Place)
      → ((fields : Fields) (at_path : Place) → Fine (f fields at_path) ↔ ps fields)
      → Fine (check_object lang k props f v path) ↔ OfObject k props ps v
  unfolding check_object
  check_object-OfObject k props f ps (object fields) path h =
      Fine-both _ _ (check_required-AllKeys lang k.error_message k.required fields path) (
        Fine-both _ _ (h fields path)
          (check_closed-AllFields lang k.additional_properties k props fields path))
  check_object-OfObject k props f ps null path h = ground arith
  check_object-OfObject k props f ps undefined path h = ground arith
  check_object-OfObject k props f ps (boolean b) path h = ground arith
  check_object-OfObject k props f ps (number n) path h = ground arith
  check_object-OfObject k props f ps (string s) path h = ground arith
  check_object-OfObject k props f ps (array is) path h = ground arith

  check_type-OfType :
      (k : Keywords) (props : Properties) (f : Fields → Place → List Message) (ps : Fields → Type 0)
      (g : Option (Json → Place → List Message)) (is : Json → Type 0) (o : Option TypeName)
      (v : Json) (path : Place)
      → ((fields : Fields) (at_path : Place) → Fine (f fields at_path) ↔ ps fields)
      → Matches g is
      → k.type_name ≡ o
      → o ≢ some is_null
      → Fine (check_type lang k props f g o v path) ↔ OfType lang k props ps is o v
  unfolding check_type is_type
  check_type-OfType k props f ps g is none v path hf hg same other = (λ _. tt, λ _. refl)
  check_type-OfType k props f ps g is (some is_object) v path hf hg same other =
      check_object-OfObject k props f ps v path hf
  check_type-OfType k props f ps g is (some is_array) v path hf hg same other =
      check_array-OfArray k g is v path hg
  check_type-OfType k props f ps g is (some is_string) v path hf hg same other =
      check_string-OfString lang k v path
  check_type-OfType k props f ps g is (some is_number) v path hf hg same other =
      subst (λ w. Fine (check_number lang k v path) ↔ OfNumber lang k (is_type is_integer w) v) same
        (check_number-OfNumber lang k v path)
  check_type-OfType k props f ps g is (some is_integer) v path hf hg same other =
      subst (λ w. Fine (check_number lang k v path) ↔ OfNumber lang k (is_type is_integer w) v) same
        (check_number-OfNumber lang k v path)
  check_type-OfType k props f ps g is (some is_boolean) v path hf hg same other =
      check_boolean-OfBoolean lang k v path
  check_type-OfType k props f ps g is (some is_null) v path hf hg same other = absurd (other refl)

  check_enum_iff :
      (k : Keywords) (rest : List Message) (T : Type 0) (v : Json) (path : Place)
      → Fine rest ↔ T
      → Fine (check_enum lang k rest v path)
        ↔ (Holds k.enum_values (λ values. in_enum lang v values ≡ true) × T)
  unfolding check_enum
  check_enum_iff k rest T v path h =
      let holds =
        absent_or-Holds k.enum_values (in_enum lang v) (λ values. in_enum lang v values ≡ true)
          (λ values. (λ e. e, λ e. e)) in
      elim (Bool-cases (absent_or k.enum_values (in_enum lang v))) [
        | inl among ↦ rw among (λ e. (holds.0 among, h.0 e), λ g. h.1 g.1)
        | inr missing ↦
            rw missing
              (λ e. absurd (ground arith), λ g. absurd (ground (arith, holds.1 g.0, missing)))
      ]

  -- What `check` gives, where its `switch` asks `T` of a schema whose type is not null.
  check_null_iff :
      (k : Keywords) (rest : List Message) (T : Type 0) (v : Json) (path : Place)
      → (k.type_name ≢ some is_null → Fine rest ↔ T)
      → Fine (check_null lang k rest v path) ↔ (
          ((v ≡ null) × ((k.nullable ≡ true) ⊎ (k.type_name ≡ some is_null)))
          ⊎ ((k.type_name ≢ some is_null)
              × (Holds k.enum_values (λ values. in_enum lang v values ≡ true) × T)))
  unfolding check_null check_enum
  check_null_iff k rest T v path h =
      let (typed, is_typed) = is_null_iff k.type_name in
      let (empty, is_empty) = null_iff v in
      elim (Bool-cases (is_type is_null k.type_name)) [
        | inl yes_null ↦ elim (Bool-cases (is_null_value v)) [
          | inl none_there ↦
              rw (none_there, yes_null)
                (λ e. inl (empty none_there, inr (typed yes_null)), λ g. ground arith)
          | inr some_there ↦
              rw (some_there, yes_null)
                (
                  λ e. absurd (ground arith),
                  λ g. elim g [
                    | inl (here, why) ↦ absurd (ground (arith, is_empty here, some_there))
                    | inr (other, x) ↦ absurd (other (typed yes_null))
                  ],
                )
        ]
        | inr no_null ↦
            let other : k.type_name ≢ some is_null =
              λ same. absurd (ground (arith, is_typed same, no_null)) in
            let (to, from) = check_enum_iff k rest T v path (h other) in
            elim (Bool-cases (is_null_value v)) [
              | inr some_there ↦
                  rw (some_there, no_null)
                    (
                      λ e. inr (other, to e),
                      λ g. elim g [
                        | inl (here, why) ↦ absurd (ground (arith, is_empty here, some_there))
                        | inr (_, x) ↦ from x
                      ],
                    )
              | inl none_there ↦ elim (Bool-cases k.nullable) [
                | inl null_too ↦
                    rw (none_there, null_too) (λ e. inl (empty none_there, inl refl), λ g. refl)
                | inr not_null ↦
                    rw (none_there, not_null, no_null)
                      (
                        λ e. inr (other, to e),
                        λ g. elim g [
                          | inl (here, inl null_too) ↦ absurd (ground (arith, null_too))
                          | inl (here, inr same) ↦ absurd (other same)
                          | inr (_, x) ↦ from x
                        ],
                      )
              ]
            ]
      ]

mutual
  unfolding check Accepts

  -- `check` finds no error exactly where the schema accepts the value.
  check-Accepts :
      (lang : Language) (s : JsonSchema) (v : Json) (path : Place)
      → Fine (check lang s v path) ↔ Accepts lang s v
  check-Accepts lang (schema k props items) v path =
      check_null_iff lang k
        (check_type lang k props (check_properties lang props) (check_items lang items) k.type_name
          v path)
        (OfType lang k props (AcceptsOwn lang props) (AcceptsItem lang items) k.type_name v) v path
        (check_type-OfType lang k props (check_properties lang props) (AcceptsOwn lang props)
          (check_items lang items) (AcceptsItem lang items) k.type_name v path
          (check_properties-AcceptsOwn lang props) (check_items-Matches lang items) refl)

  check_properties-AcceptsOwn :
      (lang : Language) (props : Properties) (fields : Fields) (path : Place)
      → Fine (check_properties lang props fields path) ↔ AcceptsOwn lang props fields
  check_properties-AcceptsOwn lang no_property fields path = (λ _. tt, λ _. refl)
  check_properties-AcceptsOwn lang (property key sub rest) fields path =
      Fine-both _ _
        (check_own_iff lang (check lang sub) (Accepts lang sub) (own key fields) (member path key)
          (check-Accepts lang sub))
        (check_properties-AcceptsOwn lang rest fields path)

  check_items-Matches :
      (lang : Language) (items : ItemSchema)
      → Matches (check_items lang items) (AcceptsItem lang items)
  check_items-Matches lang any_item = λ v. tt
  check_items-Matches lang (each_item sub) = check-Accepts lang sub

-- For every schema and value, over any double arithmetic and regular expressions: `validate` gives no
-- error exactly where the schema accepts the value, which is said without messages or order: null where
-- it is nullable or of type null, and else a value of `enum`, of the type's shape, with every required
-- key, no undeclared key where those are refused, and every declared property and item accepted in
-- turn.
pub validate-Accepts :
    (lang : Language) (s : JsonSchema) (v : Json) → (validate lang s v ≡ []) ↔ Accepts lang s v
unfolding validate
validate-Accepts lang s v = check-Accepts lang s v (root "value")
