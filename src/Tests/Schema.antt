-- ===== src/Tests/Schema.antt =====
-- ts/http/schema.ts.
use toki.Base.{◌≡◌, ◌↔◌, refl, true, false, none, some, [], ◌∷◌, ltb, ◌==◌}
use toki.Base.Text.{codes}
use toki.Http.Schema.{
  Json, null, number, string, object, no_field, field, is_object, is_string, is_integer, Keywords,
  JsonSchema, schema, no_property, property, any_item, Language, Message, custom, default_at,
  required_at, root, member, one_text, pattern, minimum, additional,
}
use toki.Http.Schema
use toki.Http.Schema.Check
use toki.Http.Schema.Check.{validate}
use toki.Http.Schema.Accepts.{Accepts}
use toki.Http.Schema.Valid.{validate-Accepts}

-- Whole numbers only, no pattern matches, every format fits.
abbrev simple : Language
simple = record {
  less = ltb;
  same = λ m n. m == n;
  is_nan = λ n. false;
  is_whole = λ n. true;
  matches = λ p s. false;
  is_format = λ f s. true;
}

abbrev no_keywords : Keywords
no_keywords = record {
  type_name = none;
  required = [];
  enum_values = none;
  nullable = false;
  additional_properties = none;
  min = none;
  max = none;
  min_length = none;
  max_length = none;
  matching = none;
  format_name = none;
  error_message = none;
}

-- A person: an age from 18 up, and a name, null or matching.
abbrev person : JsonSchema
person =
    schema
      (record no_keywords {
        type_name = some is_object;
        required = "name" ∷ "age" ∷ [];
        additional_properties = some false;
      })
      (property "age"
        (schema (record no_keywords { type_name = some is_integer; min = some 18 }) no_property
          any_item)
        (property "name"
          (schema
            (record no_keywords {
              type_name = some is_string;
              nullable = true;
              matching = some "^x";
              error_message = some (one_text "bad name");
            })
            no_property any_item)
          no_property))
      any_item

abbrev good : Json
good = object (field "name" null (field "age" (number 20) no_field))

abbrev bad : Json
bad = object (field "name" (string (codes "y")) (field "id" (number 1) no_field))

finds_nothing : validate simple person good ≡ []
unfolding Check.validate Check.check Check.check_null Check.check_enum Check.check_type
    Check.check_object Check.check_required Check.check_closed Check.check_additional
    Check.check_own Check.check_number Check.check_double Schema.own Schema.has_own Schema.declares
    Schema.is_type Schema.is_null_value
finds_nothing = refl

finds_three :
    validate simple person bad
    ≡ required_at (member (root "value") "age")
      ∷ custom "bad name"
      ∷ default_at additional (member (root "value") "id")
      ∷ []
unfolding Check.validate Check.check Check.check_null Check.check_enum Check.check_type
    Check.check_object Check.check_required Check.check_closed Check.check_additional
    Check.check_own Check.check_string Check.check_text Check.pattern_passes Schema.own
    Schema.has_own Schema.declares Schema.is_type Schema.is_null_value Schema.message_for
    Schema.required_message Schema.input_cap
finds_three = refl

validate-Accepts_example : (validate simple person good ≡ []) ↔ Accepts simple person good
validate-Accepts_example = validate-Accepts simple person good
