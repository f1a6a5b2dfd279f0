-- ===== src/Http/Headers/Staging.antt =====
-- ts/http/request.ts: what a reader of the staged headers sees after `setResponseHeader`.
use toki.Base.{ℕ, suc, ◌≡◌, refl, Option, none, some, List, [], ◌∷◌, arith, ◌==◌, if◌then◌else◌}
use toki.Base.Text.{Text, text_eq_iff, to_lower_case}
use toki.Http.Headers.{Header, same_name, set_response_header}

-- The first staged value for a name, whatever the case of its letters.
pub staged_value : Text → List Header → Option Text
staged_value name [] = none
staged_value name ((n, v) ∷ staged) = if same_name n name then some v else staged_value name staged

-- How many entries carry the name.
pub staged_count : Text → List Header → ℕ
staged_count name [] = 0
staged_count name ((n, v) ∷ staged) =
    if same_name n name then suc (staged_count name staged) else staged_count name staged

-- Staging a header sets the value read under any spelling of its name, and under no other name.
pub staged_value-set_response_header :
    (name other value : Text) (staged : List Header)
    → staged_value other (set_response_header name value staged)
      ≡ (if same_name name other then some value else staged_value other staged)
unfolding staged_value set_response_header
staged_value-set_response_header name other value [] = refl
staged_value-set_response_header name other value ((n, v) ∷ staged) = ground (
  arith,
  staged_value-set_response_header name other value staged,
  text_eq_iff (to_lower_case n) (to_lower_case name),
  text_eq_iff (to_lower_case n) (to_lower_case other),
  text_eq_iff (to_lower_case name) (to_lower_case other),
)

-- It adds an entry exactly when the name was not staged, so a name set over and over stands once.
pub staged_count-set_response_header :
    (name other value : Text) (staged : List Header)
    → staged_count other (set_response_header name value staged) ≡ (
        if same_name name other
        then (if staged_count other staged == 0 then 1 else staged_count other staged)
        else staged_count other staged)
unfolding staged_count set_response_header
staged_count-set_response_header name other value [] = ground arith
staged_count-set_response_header name other value ((n, v) ∷ staged) = ground (
  arith,
  staged_count-set_response_header name other value staged,
  text_eq_iff (to_lower_case n) (to_lower_case name),
  text_eq_iff (to_lower_case n) (to_lower_case other),
  text_eq_iff (to_lower_case name) (to_lower_case other),
)
