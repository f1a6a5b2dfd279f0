-- ===== src/Jwt/Verify/Order.antt =====
-- plugins/jwt: an accepted token has passed every guard, and the other way round.
use toki.Base.{ap, ◌∙◌, ◌≡◌, refl, true, false, Option, none, some, List, [], ◌∷◌, String, arith}
use toki.Jwt.Verify.{
  Payload, ClaimChecks, accepted, includes_string, is_expired, is_early, wrong_issuer,
  wrong_subject, wrong_audience, validate_claims, Crypto, check_payload, check_alg, check_header,
  verify_jwt,
}

-- The guards that a token has passed.
pub record Guards (c : Crypto) (header payload signature alg : String) (algorithms : List String)
    (checks : ClaimChecks) (p : Payload) : Type 0 where
  pub header_read : c.decode_alg header ≡ some (some alg)
  pub listed : includes_string algorithms alg ≡ true
  pub supported : c.is_algorithm alg ≡ true
  pub signed : c.verify_data alg header payload signature ≡ true
  pub payload_read : c.decode_payload payload ≡ some p
  pub fresh : is_expired checks p.exp ≡ false
  pub begun : is_early checks p.nbf ≡ false
  pub issued : wrong_issuer checks.issuer p.iss ≡ false
  pub about : wrong_subject checks.subject p.sub ≡ false
  pub meant : wrong_audience checks.audience p.aud ≡ false

validate_claims-accepted :
    (p q : Payload) (checks : ClaimChecks)
    → validate_claims p checks ≡ accepted q
    → (p ≡ q)
      × (is_expired checks p.exp ≡ false)
      × (is_early checks p.nbf ≡ false)
      × (wrong_issuer checks.issuer p.iss ≡ false)
      × (wrong_subject checks.subject p.sub ≡ false)
      × (wrong_audience checks.audience p.aud ≡ false)
unfolding validate_claims
validate_claims-accepted p q checks h =
    (ground arith, ground arith, ground arith, ground arith, ground arith, ground arith)

check_payload-accepted :
    (c : Crypto) (checks : ClaimChecks) (read : Option Payload) (q : Payload)
    → check_payload c checks read ≡ accepted q
    → (p : Payload) × (read ≡ some p) × (validate_claims p checks ≡ accepted q)
unfolding check_payload
check_payload-accepted c checks none q h = absurd (ground arith)
check_payload-accepted c checks (some p) q h = (p, refl, h)

check_alg-accepted :
    (c : Crypto) (header payload signature alg : String) (algorithms : List String)
    (checks : ClaimChecks) (q : Payload)
    → c.decode_alg header ≡ some (some alg)
    → check_alg c algorithms checks header payload signature (some alg) ≡ accepted q
    → Guards c header payload signature alg algorithms checks q
unfolding check_alg
check_alg-accepted c header payload signature alg algorithms checks q e h =
    let tail : check_payload c checks (c.decode_payload payload) ≡ accepted q = ground arith in
    let (p, read, valid) = check_payload-accepted c checks (c.decode_payload payload) q tail in
    let (same, fresh, begun, issued, about, meant) = validate_claims-accepted p q checks valid in
    record {
      header_read = e;
      listed = ground arith;
      supported = ground arith;
      signed = ground arith;
      payload_read = read ∙ ap some same;
      fresh = rw (← same) fresh;
      begun = rw (← same) begun;
      issued = rw (← same) issued;
      about = rw (← same) about;
      meant = rw (← same) meant;
    }

-- What is accepted has passed every check.
pub verify_jwt-accepted :
    (c : Crypto) (header payload signature : String) (algorithms : List String)
    (checks : ClaimChecks) (q : Payload)
    → verify_jwt c (header ∷ payload ∷ signature ∷ []) algorithms checks ≡ accepted q
    → (alg : String) × Guards c header payload signature alg algorithms checks q
unfolding verify_jwt check_header check_alg
verify_jwt-accepted c header payload signature algorithms checks q h =
    by_header (c.decode_alg header) refl h
  where
    by_header :
        (read : Option (Option String))
        → c.decode_alg header ≡ read
        → check_header c algorithms checks header payload signature read ≡ accepted q
        → (alg : String) × Guards c header payload signature alg algorithms checks q
    by_header none e h = absurd (ground arith)
    by_header (some none) e h = absurd (ground arith)
    by_header (some (some alg)) e h =
        (alg, check_alg-accepted c header payload signature alg algorithms checks q e h)

-- What passes every check is accepted.
pub verify_jwt-Guards :
    (c : Crypto) (header payload signature alg : String) (algorithms : List String)
    (checks : ClaimChecks) (q : Payload)
    → Guards c header payload signature alg algorithms checks q
    → verify_jwt c (header ∷ payload ∷ signature ∷ []) algorithms checks ≡ accepted q
unfolding verify_jwt check_header check_alg check_payload validate_claims
verify_jwt-Guards c header payload signature alg algorithms checks q p =
    rw
      (
        p.header_read, check_header, check_alg, p.listed, p.supported, p.signed, p.payload_read,
        check_payload, p.fresh, p.begun, p.issued, p.about, p.meant,
      )
      refl
