-- ===== src/Http/Schema/Checks.antt =====
-- ts/http/schema.ts: each check finds no error exactly where its keywords hold.
use toki.Base.{
  ℕ, ◌+◌, ◌≡◌, ◌≤◌, ◌↔◌, inl, inr, refl, Bool, true, false, not, ◌||◌, Option, none, some, List, [],
  ◌∷◌, ◌++◌, String, length, ltb, arith, Bool-cases,
}
use toki.Base.Text.{Text}
use toki.Http.Schema.{
  additional, type, format, pattern, maximum, max_length, min_length, minimum, Json, null,
  undefined, boolean, number, string, array, object, Items, no_item, item, Fields, no_field, field,
  is_integer, Keywords, Properties, Language, has_own, declares, input_cap, Message, Place, index,
  member, ErrorMessage, unless, absent_or, is_type, message_for, required_message,
}
use toki.Http.Schema.Check.{
  pattern_passes, check_text, check_string, check_double, check_number, check_boolean,
  check_required, check_additional, check_closed, check_each,
}
use toki.Http.Schema.Accepts.{
  Holds, AllItems, AllKeys, AllFields, IsText, IsDouble, OfString, OfNumber, OfBoolean,
}

-- No errors.
abbrev pub Fine : List Message → Type 0
Fine es = es ≡ []

pub Fine-append : (es fs : List Message) → Fine (es ++ fs) ↔ (Fine es × Fine fs)
Fine-append [] fs = (λ h. (refl, h), λ h. h.1)
Fine-append (e ∷ es) fs = ground arith

pub Fine-unless : (b : Bool) (m : Message) → Fine (unless b m) ↔ (b ≡ true)
Fine-unless true m = ground arith
Fine-unless false m = ground arith

-- An optional test and the optional property that it decides.
pub absent_or-Holds :
    {A : Type 0} (o : Option A) (f : A → Bool) (P : A → Type 0)
    → ((a : A) → (f a ≡ true) ↔ P a)
    → (absent_or o f ≡ true) ↔ Holds o P
absent_or-Holds none f P h = (λ _. tt, λ _. refl)
absent_or-Holds (some a) f P h = h a

-- Errors that are appended, and what each part asks.
pub Fine-both :
    {A B : Type 0} (es fs : List Message) → Fine es ↔ A → Fine fs ↔ B → Fine (es ++ fs) ↔ (A × B)
Fine-both es fs a b = (
  λ h. let (x, y) = (Fine-append es fs).0 h in (a.0 x, b.0 y),
  λ h. (Fine-append es fs).1 (a.1 h.0, b.1 h.1),
)

pub Fine-keyword :
    {A : Type 0} (o : Option A) (f : A → Bool) (P : A → Type 0) (m : Message)
    → ((a : A) → (f a ≡ true) ↔ P a)
    → Fine (unless (absent_or o f) m) ↔ Holds o P
Fine-keyword o f P m h = (
  λ e. (absent_or-Holds o f P h).0 ((Fine-unless (absent_or o f) m).0 e),
  λ e. (Fine-unless (absent_or o f) m).1 ((absent_or-Holds o f P h).1 e),
)

module _ (lang : Language) where
  check_text-IsText :
      (k : Keywords) (s : Text) (path : Place) → Fine (check_text lang k s path) ↔ IsText lang k s
  unfolding check_text pattern_passes
  check_text-IsText k s path =
      let parts =
        Fine-both _ _
          (Fine-keyword k.min_length (λ n. not (ltb (length s) n)) (λ n. n ≤ length s)
            (message_for k.error_message min_length path) (λ n. ground arith))
          (Fine-both _ _
            (Fine-keyword k.max_length (λ n. not (ltb n (length s))) (λ n. length s ≤ n)
              (message_for k.error_message max_length path) (λ n. ground arith))
            (Fine-both _ _
              (Fine-keyword k.matching (pattern_passes lang k s)
                (λ p. (length s ≤ input_cap k.max_length) × (lang.matches p s ≡ true))
                (message_for k.error_message pattern path) (λ p. ground arith))
              (Fine-keyword k.format_name (λ f. lang.is_format f s) (λ f. lang.is_format f s ≡ true)
                (message_for k.error_message format path) (λ f. (λ h. h, λ h. h))))) in
      (
        λ e.
            let (a, (b, (c, d))) = parts.0 e in
            record { long = a; short = b; matched = c; formatted = d },
        λ v. parts.1 (v.long, (v.short, (v.matched, v.formatted))),
      )

  pub check_string-OfString :
      (k : Keywords) (v : Json) (path : Place)
      → Fine (check_string lang k v path) ↔ OfString lang k v
  unfolding check_string
  check_string-OfString k (string s) path = check_text-IsText k s path
  check_string-OfString k null path = ground arith
  check_string-OfString k undefined path = ground arith
  check_string-OfString k (boolean b) path = ground arith
  check_string-OfString k (number n) path = ground arith
  check_string-OfString k (array is) path = ground arith
  check_string-OfString k (object fs) path = ground arith

  bounds-Fine :
      (k : Keywords) (n : ℕ) (path : Place)
      → Fine (
          unless
            (absent_or k.min (λ m. not (lang.less n m)))
            (message_for k.error_message minimum path)
          ++ unless
              (absent_or k.max (λ m. not (lang.less m n)))
              (message_for k.error_message maximum path))
        ↔ (Holds k.min (λ m. lang.less n m ≡ false) × Holds k.max (λ m. lang.less m n ≡ false))
  bounds-Fine k n path =
      Fine-both _ _
        (Fine-keyword k.min (λ m. not (lang.less n m)) (λ m. lang.less n m ≡ false)
          (message_for k.error_message minimum path) (λ m. ground arith))
        (Fine-keyword k.max (λ m. not (lang.less m n)) (λ m. lang.less m n ≡ false)
          (message_for k.error_message maximum path) (λ m. ground arith))

  check_double-IsDouble :
      (k : Keywords) (n : ℕ) (path : Place)
      → Fine (check_double lang k n path) ↔ IsDouble lang k (is_type is_integer k.type_name) n
  unfolding check_double
  check_double-IsDouble k n path = elim (Bool-cases (lang.is_nan n)) [
    | inl nan ↦ rw nan (λ e. absurd (ground arith), λ v. absurd (ground (arith, v.real, nan)))
    | inr real ↦
        let parts =
          Fine-both _ _
            (Fine-unless (not (is_type is_integer k.type_name) || lang.is_whole n)
              (message_for k.error_message type path))
            (bounds-Fine k n path) in
        rw real (
          λ e.
              let (a, (b, c)) = parts.0 e in
              record { real = real; integral = λ h. ground arith; above = b; below = c },
          λ v. parts.1 (ground (arith, v.integral), (v.above, v.below)),
        )
  ]

  pub check_number-OfNumber :
      (k : Keywords) (v : Json) (path : Place)
      → Fine (check_number lang k v path) ↔ OfNumber lang k (is_type is_integer k.type_name) v
  unfolding check_number
  check_number-OfNumber k (number n) path = check_double-IsDouble k n path
  check_number-OfNumber k null path = ground arith
  check_number-OfNumber k undefined path = ground arith
  check_number-OfNumber k (boolean b) path = ground arith
  check_number-OfNumber k (string s) path = ground arith
  check_number-OfNumber k (array is) path = ground arith
  check_number-OfNumber k (object fs) path = ground arith

  pub check_boolean-OfBoolean :
      (k : Keywords) (v : Json) (path : Place) → Fine (check_boolean lang k v path) ↔ OfBoolean v
  unfolding check_boolean
  check_boolean-OfBoolean k (boolean b) path = ground arith
  check_boolean-OfBoolean k null path = ground arith
  check_boolean-OfBoolean k undefined path = ground arith
  check_boolean-OfBoolean k (number n) path = ground arith
  check_boolean-OfBoolean k (string s) path = ground arith
  check_boolean-OfBoolean k (array is) path = ground arith
  check_boolean-OfBoolean k (object fs) path = ground arith

  pub check_each-AllItems :
      (f : Json → Place → List Message) (P : Json → Type 0) (is : Items) (i : ℕ) (path : Place)
      → ((v : Json) (at_path : Place) → Fine (f v at_path) ↔ P v)
      → Fine (check_each lang f is i path) ↔ AllItems P is
  unfolding check_each
  check_each-AllItems f P no_item i path h = (λ _. tt, λ _. refl)
  check_each-AllItems f P (item v rest) i path h =
      Fine-both _ _ (h v (index path i)) (check_each-AllItems f P rest (i + 1) path h)

  pub check_required-AllKeys :
      (em : Option ErrorMessage) (keys : List String) (fields : Fields) (path : Place)
      → Fine (check_required lang em keys fields path)
        ↔ AllKeys (λ key. has_own key fields ≡ true) keys
  unfolding check_required
  check_required-AllKeys em [] fields path = (λ _. tt, λ _. refl)
  check_required-AllKeys em (key ∷ keys) fields path =
      Fine-both _ _ (Fine-unless (has_own key fields) (required_message em key (member path key)))
        (check_required-AllKeys em keys fields path)

  check_additional-AllFields :
      (k : Keywords) (props : Properties) (fields : Fields) (path : Place)
      → Fine (check_additional lang k props fields path)
        ↔ AllFields (λ key. declares key props ≡ true) fields
  unfolding check_additional
  check_additional-AllFields k props no_field path = (λ _. tt, λ _. refl)
  check_additional-AllFields k props (field key v rest) path =
      Fine-both _ _
        (Fine-unless (declares key props)
          (message_for k.error_message additional (member path key)))
        (check_additional-AllFields k props rest path)

  pub check_closed-AllFields :
      (o : Option Bool) (k : Keywords) (props : Properties) (fields : Fields) (path : Place)
      → Fine (check_closed lang o k props fields path)
        ↔ (o ≡ some false → AllFields (λ key. declares key props ≡ true) fields)
  unfolding check_closed
  check_closed-AllFields none k props fields path = (λ _ h. absurd (ground arith), λ _. refl)
  check_closed-AllFields (some true) k props fields path = (λ _ h. absurd (ground arith), λ _. refl)
  check_closed-AllFields (some false) k props fields path =
      let all_declared = check_additional-AllFields k props fields path in
      (λ e h. all_declared.0 e, λ h. all_declared.1 (h refl))
