-- ===== src/Http/Schema.antt =====
-- ts/http/schema.ts: a schema, a value and the messages. A number is the bit pattern of its double;
-- what JavaScript computes on doubles, and the regular expressions, are the parameter `Language`.
-- The path and the text of a message are kept as their parts. Patterns compile, and the cache of the
-- compiled ones is left out.
pub mod Check
pub mod Accepts
pub mod Checks
pub mod Valid
use toki.Base.{
  ℕ, ◌+◌, ◌==◌, Bool, true, false, not, ◌&&◌, ◌||◌, Option, none, some, List, [], ◌∷◌, ◌++◌, String,
  str_eq, length, any, ltb, if◌then◌else◌,
}
use toki.Base.Text.{Text, text_eq}

mutual
  -- A parsed value; `undefined` is the body that is not there.
  pub data Json : Type 0 where
    null undefined : Json
    boolean : Bool → Json
    number : ℕ → Json
    string : Text → Json
    array : Items → Json
    object : Fields → Json

  pub data Items : Type 0 where
    no_item : Items
    item : Json → Items → Items

  -- the own properties, in their order
  pub data Fields : Type 0 where
    no_field : Fields
    field : String → Json → Fields → Fields

pub data TypeName : Type 0 where
  is_object is_array is_string is_number is_integer is_boolean is_null : TypeName

pub data Format : Type 0 where
  email uuid date_time uri : Format

-- `errorMessage`: one text, or one for each keyword; `required` has one text or one for each key
pub data RequiredMessage : Type 0 where
  for_all : String → RequiredMessage
  for_keys : List (String × String) → RequiredMessage

pub data Keyword : Type 0 where
  type enum min_length max_length pattern format minimum maximum additional : Keyword

pub data ErrorMessage : Type 0 where
  one_text : String → ErrorMessage
  texts : (Keyword → Option String) → Option RequiredMessage → ErrorMessage

-- The keywords of a schema but `properties` and `items`; an empty pattern is no pattern.
pub record Keywords : Type 0 where
  pub type_name : Option TypeName
  pub required : List String
  pub enum_values : Option (List Json)
  pub nullable : Bool
  pub additional_properties : Option Bool
  pub min : Option ℕ
  pub max : Option ℕ
  pub min_length : Option ℕ
  pub max_length : Option ℕ
  pub matching : Option String
  pub format_name : Option Format
  pub error_message : Option ErrorMessage

mutual
  pub data JsonSchema : Type 0 where
    schema : Keywords → Properties → ItemSchema → JsonSchema

  pub data Properties : Type 0 where
    no_property : Properties
    property : String → JsonSchema → Properties → Properties

  pub data ItemSchema : Type 0 where
    any_item : ItemSchema
    each_item : JsonSchema → ItemSchema

pub data Place : Type 0 where
  root : String → Place
  member : Place → String → Place
  index : Place → ℕ → Place

-- A message: the schema's own text, or the default one of a keyword at a path.
pub data Message : Type 0 where
  custom : String → Message
  default_at : Keyword → Place → Message
  required_at : Place → Message

-- On doubles `<`, `===`, `Number.isNaN`, `Number.isInteger`; a pattern's and a format's `test`.
pub record Language : Type 0 where
  pub less : ℕ → ℕ → Bool
  pub same : ℕ → ℕ → Bool
  pub is_nan : ℕ → Bool
  pub is_whole : ℕ → Bool
  pub matches : String → Text → Bool
  pub is_format : Format → Text → Bool

abbrev pub pattern_input_cap : ℕ
pattern_input_cap = 4096

unfoldable pub message_of : Option String → Keyword → Place → Message
message_of none keyword path = default_at keyword path
message_of (some text) keyword path = custom text

-- `messageFor`
unfoldable pub message_for : Option ErrorMessage → Keyword → Place → Message
message_for none keyword path = default_at keyword path
message_for (some (one_text text)) keyword path = custom text
message_for (some (texts own required)) keyword path = message_of (own keyword) keyword path

unfoldable pub text_for : String → List (String × String) → Place → Message
text_for key [] path = required_at path
text_for key ((k, text) ∷ rest) path = if str_eq k key then custom text else text_for key rest path

unfoldable pub required_by : Option RequiredMessage → String → Place → Message
required_by none key path = required_at path
required_by (some (for_all text)) key path = custom text
required_by (some (for_keys by_key)) key path = text_for key by_key path

-- `requiredMessage`
unfoldable pub required_message : Option ErrorMessage → String → Place → Message
required_message none key path = required_at path
required_message (some (one_text text)) key path = custom text
required_message (some (texts own required)) key path = required_by required key path

-- `obj[key]` of an own property
unfoldable pub own : String → Fields → Option Json
own key no_field = none
own key (field k v rest) = if str_eq k key then some v else own key rest

-- `Object.hasOwn(obj, key)`
unfoldable pub has_own : String → Fields → Bool
has_own key no_field = false
has_own key (field k v rest) = str_eq k key || has_own key rest

-- `Object.hasOwn(properties, key)`
unfoldable pub declares : String → Properties → Bool
declares key no_property = false
declares key (property k s rest) = str_eq k key || declares key rest

unfoldable pub is_type : TypeName → Option TypeName → Bool
is_type is_null (some is_null) = true
is_type is_integer (some is_integer) = true
is_type _ _ = false

unfoldable pub is_null_value : Json → Bool
is_null_value null = true
is_null_value _ = false

-- one error where a test fails
abbrev pub unless : Bool → Message → List Message
unless true m = []
unless false m = m ∷ []

-- no test where a keyword is not there
abbrev pub absent_or : {A : Type 0} → Option A → (A → Bool) → Bool
absent_or none f = true
absent_or (some a) f = f a

-- `schema.maxLength ?? PATTERN_INPUT_CAP`
unfoldable pub input_cap : Option ℕ → ℕ
input_cap none = pattern_input_cap
input_cap (some n) = n
