-- ===== src/Http/Schema/Check.antt =====
-- ts/http/schema.ts: `validate` and the checks below it, in the order of their errors.
use toki.Base.{
  ℕ, ◌+◌, Bool, true, false, not, ◌&&◌, ◌||◌, Option, none, some, List, [], ◌∷◌, ◌++◌, String,
  length, any, ltb, if◌then◌else◌,
}
use toki.Base.Text.{Text, text_eq}
use toki.Http.Schema.{
  ErrorMessage, Fields, ItemSchema, Items, Json, JsonSchema, Keywords, Language, Message, Place,
  Properties, TypeName, absent_or, additional, any_item, array, boolean, declares, each_item, enum,
  field, format, has_own, index, input_cap, is_array, is_boolean, is_integer, is_null,
  is_null_value, is_number, is_object, is_string, is_type, item, max_length, maximum, member,
  message_for, min_length, minimum, no_field, no_item, no_property, null, number, object, own,
  pattern, property, required_message, root, schema, string, type, undefined, unless,
}

module _ (lang : Language) where
  -- `e === value` of an element of `enum`; two objects are two references
  unfoldable pub strictly_equal : Json → Json → Bool
  strictly_equal null null = true
  strictly_equal undefined undefined = true
  strictly_equal (boolean true) (boolean b) = b
  strictly_equal (boolean false) (boolean b) = not b
  strictly_equal (number m) (number n) = lang.same m n
  strictly_equal (string s) (string t) = text_eq s t
  strictly_equal _ _ = false

  -- the value is among those of `enum`
  unfoldable pub in_enum : Json → List Json → Bool
  unfolding strictly_equal
  in_enum v values = any (λ e. strictly_equal e v) values

  -- the test of `pattern`, behind the cap on the length of its input
  unfoldable pub pattern_passes : Keywords → Text → String → Bool
  pattern_passes k s pattern_text =
      not (ltb (input_cap k.max_length) (length s)) && lang.matches pattern_text s

  -- `checkString` on a string
  unfoldable pub check_text : Keywords → Text → Place → List Message
  unfolding pattern_passes
  check_text k s path =
      unless (absent_or k.min_length (λ n. not (ltb (length s) n)))
        (message_for k.error_message min_length path)
      ++ (unless (absent_or k.max_length (λ n. not (ltb n (length s))))
            (message_for k.error_message max_length path)
          ++ (unless (absent_or k.matching (pattern_passes k s))
                (message_for k.error_message pattern path)
              ++ unless (absent_or k.format_name (λ f. lang.is_format f s))
                  (message_for k.error_message format path)))

  -- `checkString`
  unfoldable pub check_string : Keywords → Json → Place → List Message
  check_string k (string s) path = check_text k s path
  check_string k _ path = message_for k.error_message type path ∷ []

  -- `checkNumber` on a number
  unfoldable pub check_double : Keywords → ℕ → Place → List Message
  check_double k n path =
      if lang.is_nan n
      then message_for k.error_message type path ∷ []
      else unless (not (is_type is_integer k.type_name) || lang.is_whole n)
          (message_for k.error_message type path)
        ++ (unless (absent_or k.min (λ m. not (lang.less n m)))
              (message_for k.error_message minimum path)
            ++ unless (absent_or k.max (λ m. not (lang.less m n)))
                (message_for k.error_message maximum path))

  -- `checkNumber`
  unfoldable pub check_number : Keywords → Json → Place → List Message
  check_number k (number n) path = check_double k n path
  check_number k _ path = message_for k.error_message type path ∷ []

  unfoldable pub check_boolean : Keywords → Json → Place → List Message
  check_boolean k (boolean b) path = []
  check_boolean k _ path = message_for k.error_message type path ∷ []

  -- the loop of `checkObject` over `required`
  unfoldable pub check_required : Option ErrorMessage → List String → Fields → Place → List Message
  check_required em [] fields path = []
  check_required em (key ∷ keys) fields path =
      unless (has_own key fields) (required_message em key (member path key))
      ++ check_required em keys fields path

  -- the loop of `checkObject` over the keys of the value
  unfoldable pub check_additional : Keywords → Properties → Fields → Place → List Message
  check_additional k props no_field path = []
  check_additional k props (field key v rest) path =
      unless (declares key props) (message_for k.error_message additional (member path key))
      ++ check_additional k props rest path

  -- `if (schema.additionalProperties === false)`
  unfoldable pub check_closed : Option Bool → Keywords → Properties → Fields → Place → List Message
  check_closed (some false) k props fields path = check_additional k props fields path
  check_closed _ k props fields path = []

  -- `value.forEach((item, i) => …)`
  unfoldable pub check_each : (Json → Place → List Message) → Items → ℕ → Place → List Message
  check_each f no_item i path = []
  check_each f (item v rest) i path = f v (index path i) ++ check_each f rest (i + 1) path

  -- `checkArray`, with what `check` does with an item
  unfoldable pub check_array :
      Keywords → Option (Json → Place → List Message) → Json → Place → List Message
  check_array k (some f) (array items) path = check_each f items 0 path
  check_array k none (array items) path = []
  check_array k f _ path = message_for k.error_message type path ∷ []

  -- `checkObject`, with what `check` does with the declared properties
  unfoldable pub check_object :
      Keywords → Properties → (Fields → Place → List Message) → Json → Place → List Message
  check_object k props f (object fields) path =
      check_required k.error_message k.required fields path
      ++ (f fields path ++ check_closed k.additional_properties k props fields path)
  check_object k props f _ path = message_for k.error_message type path ∷ []

  -- the `switch` of `check`
  unfoldable pub check_type :
      Keywords
      → Properties
      → (Fields → Place → List Message)
      → Option (Json → Place → List Message)
      → Option TypeName
      → Json
      → Place
      → List Message
  check_type k props f g (some is_object) v path = check_object k props f v path
  check_type k props f g (some is_array) v path = check_array k g v path
  check_type k props f g (some is_string) v path = check_string k v path
  check_type k props f g (some is_number) v path = check_number k v path
  check_type k props f g (some is_integer) v path = check_number k v path
  check_type k props f g (some is_boolean) v path = check_boolean k v path
  check_type k props f g (some is_null) v path = []
  check_type k props f g none v path = []

  -- `check` from its test of `enum` on
  unfoldable pub check_enum : Keywords → List Message → Json → Place → List Message
  check_enum k rest v path =
      if absent_or k.enum_values (in_enum v)
      then rest
      else message_for k.error_message enum path ∷ []

  -- `check`, with what its `switch` gives
  unfoldable pub check_null : Keywords → List Message → Json → Place → List Message
  unfolding check_enum
  check_null k rest v path =
      if is_null_value v
      then if k.nullable || is_type is_null k.type_name then [] else check_enum k rest v path
      else if is_type is_null k.type_name
      then message_for k.error_message type path ∷ []
      else check_enum k rest v path

  -- a declared property that is there
  unfoldable pub check_own : (Json → Place → List Message) → Option Json → Place → List Message
  check_own f none path = []
  check_own f (some v) path = f v path

unfoldable mutual
  -- `check`
  pub check : Language → JsonSchema → Json → Place → List Message
  check lang (schema k props items) v path =
      check_null lang k
        (check_type lang k props (check_properties lang props) (check_items lang items) k.type_name
          v path)
        v path

  -- the loop of `checkObject` over `properties`
  pub check_properties : Language → Properties → Fields → Place → List Message
  check_properties lang no_property fields path = []
  check_properties lang (property key sub rest) fields path =
      check_own lang (check lang sub) (own key fields) (member path key)
      ++ check_properties lang rest fields path

  -- `schema.items` of `checkArray`
  pub check_items : Language → ItemSchema → Option (Json → Place → List Message)
  check_items lang any_item = none
  check_items lang (each_item sub) = some (check lang sub)

-- `validate` with no path
unfoldable pub validate : Language → JsonSchema → Json → List Message
unfolding check
validate lang s v = check lang s v (root "value")
