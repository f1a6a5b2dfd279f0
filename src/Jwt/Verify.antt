-- ===== src/Jwt/Verify.antt =====
-- plugins/jwt/src/claims.ts and verify.ts. Decoding of base64url JSON, the signature check and the
-- resolution of a key are parameters; times are whole seconds from 0, and so is a clock tolerance that
-- is finite. A claim of another type than
-- the code tests for is absent, and an error carries the message of the code.
pub mod Order
pub mod Valid
use toki.Base.{
  ℕ, ◌+◌, Bool, true, false, not, ◌&&◌, Option, none, some, List, [], ◌∷◌, String, str_eq, any, leb,
  ltb, length, ◌==◌, if◌then◌else◌,
}

-- The claims that are read: a string or a list of strings for `aud`.
pub record Payload : Type 0 where
  pub exp : Option ℕ
  pub nbf : Option ℕ
  pub iss : Option String
  pub sub : Option String
  pub aud : List String

-- A number of seconds, or what `Number.isFinite` refuses.
pub data ClockTolerance : Type 0 where
  seconds : ℕ → ClockTolerance
  not_finite : ClockTolerance

pub record ClaimChecks : Type 0 where
  pub issuer : Option (List String)
  pub audience : Option (List String)
  pub subject : Option String
  pub clock_tolerance : ClockTolerance
  pub now : ℕ

pub data JwtError : Type 0 where
  malformed_token malformed_header algorithm_not_allowed unsupported_algorithm : JwtError
  invalid_signature malformed_payload : JwtError
  token_expired not_yet_valid issuer_mismatch subject_mismatch audience_mismatch : JwtError

pub data Verdict (A : Type 0) : Type 0 where
  accepted : A → Verdict A
  refused : JwtError → Verdict A

-- `list.includes(value)`
abbrev pub includes_string : List String → String → Bool
includes_string list value = any (λ s. str_eq s value) list

-- `includes`
unfoldable pub includes : List String → Option String → Bool
includes list none = false
includes list (some value) = includes_string list value

-- `audienceMatches`
unfoldable pub audience_matches : List String → List String → Bool
audience_matches want have = any (λ w. includes_string have w) want

-- `Number.isFinite(checks.clockTolerance) ? checks.clockTolerance : 0`
unfoldable pub tolerance : ClockTolerance → ℕ
tolerance (seconds n) = n
tolerance not_finite = 0

unfoldable pub is_expired : ClaimChecks → Option ℕ → Bool
is_expired checks none = false
is_expired checks (some exp) = leb (exp + tolerance checks.clock_tolerance) checks.now

unfoldable pub is_early : ClaimChecks → Option ℕ → Bool
is_early checks none = false
is_early checks (some nbf) = ltb (checks.now + tolerance checks.clock_tolerance) nbf

unfoldable pub wrong_issuer : Option (List String) → Option String → Bool
wrong_issuer none iss = false
wrong_issuer (some expected) iss = not (includes expected iss)

unfoldable pub same_string : String → Option String → Bool
same_string a none = false
same_string a (some b) = str_eq b a

unfoldable pub wrong_subject : Option String → Option String → Bool
wrong_subject none sub = false
wrong_subject (some expected) sub = not (same_string expected sub)

unfoldable pub wrong_audience : Option (List String) → List String → Bool
wrong_audience none aud = false
wrong_audience (some expected) aud = not (audience_matches expected aud)

-- `validateClaims`: the payload, or what is thrown
unfoldable pub validate_claims : Payload → ClaimChecks → Verdict Payload
validate_claims p checks =
    if is_expired checks p.exp
    then refused token_expired
    else if is_early checks p.nbf
    then refused not_yet_valid
    else if wrong_issuer checks.issuer p.iss
    then refused issuer_mismatch
    else if wrong_subject checks.subject p.sub
    then refused subject_mismatch
    else if wrong_audience checks.audience p.aud
    then refused audience_mismatch
    else accepted p

-- What verification calls: `decodeJson` for a header's `alg` (no string gives `none` inside) and for a
-- payload, `isAlgorithm`, and `verifyData` with the resolved key on algorithm, input and signature.
pub record Crypto : Type 0 where
  pub decode_alg : String → Option (Option String)
  pub decode_payload : String → Option Payload
  pub is_algorithm : String → Bool
  pub verify_data : String → String → String → String → Bool

module _ (c : Crypto) where
  unfoldable pub check_payload : ClaimChecks → Option Payload → Verdict Payload
  check_payload checks none = refused malformed_payload
  check_payload checks (some p) = validate_claims p checks

  -- from the algorithm on
  unfoldable pub check_alg :
      List String → ClaimChecks → String → String → String → Option String → Verdict Payload
  check_alg algorithms checks header payload signature none = refused algorithm_not_allowed
  check_alg algorithms checks header payload signature (some alg) =
      if not (includes_string algorithms alg)
      then refused algorithm_not_allowed
      else if not (c.is_algorithm alg)
      then refused unsupported_algorithm
      else if not (c.verify_data alg header payload signature)
      then refused invalid_signature
      else check_payload checks (c.decode_payload payload)

  unfoldable pub check_header :
      List String
      → ClaimChecks
      → String
      → String
      → String
      → Option (Option String)
      → Verdict Payload
  check_header algorithms checks header payload signature none = refused malformed_header
  check_header algorithms checks header payload signature (some alg) =
      check_alg algorithms checks header payload signature alg

  -- `verifyJwt`, on the parts that `token.split(".")` gives
  unfoldable pub verify_jwt : List String → List String → ClaimChecks → Verdict Payload
  verify_jwt (header ∷ payload ∷ signature ∷ []) algorithms checks =
      check_header algorithms checks header payload signature (c.decode_alg header)
  verify_jwt _ algorithms checks = refused malformed_token
