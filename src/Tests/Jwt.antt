-- ===== src/Tests/Jwt.antt =====
-- plugins/jwt.
use toki.Base.{◌↔◌, ℕ, ◌≡◌, refl, true, some, none, [], ◌∷◌, String}
use toki.Jwt.Verify.{
  Payload, ClaimChecks, seconds, tolerance, Crypto, Verdict, accepted, refused, token_expired,
  algorithm_not_allowed, verify_jwt, check_header, check_alg, check_payload, validate_claims,
  is_expired, is_early, wrong_issuer, wrong_subject, wrong_audience, includes, same_string,
  audience_matches,
}
use toki.Jwt.Verify.Valid.{Valid, verify_jwt_lem}

abbrev claims : Payload
claims = record {
  exp = some 2000;
  nbf = some 1000;
  iss = some "toki";
  sub = none;
  aud = "web" ∷ "app" ∷ [];
}

abbrev checks_at : ℕ → ClaimChecks
checks_at now = record {
  issuer = some ("toki" ∷ []);
  audience = some ("app" ∷ []);
  subject = none;
  clock_tolerance = seconds 5;
  now = now;
}

-- A decoder that knows one header and one payload, and signatures that all fit.
abbrev simple : Crypto
simple = record {
  decode_alg = λ header. some (some "HS256");
  decode_payload = λ payload. some claims;
  is_algorithm = λ alg. true;
  verify_data = λ alg header payload signature. true;
}

module _ (now : ℕ) where
  abbrev verdict : Verdict Payload
  verdict = verify_jwt simple ("h" ∷ "p" ∷ "s" ∷ []) ("HS256" ∷ []) (checks_at now)

valid : verdict 1500 ≡ accepted claims
unfolding verify_jwt check_header check_alg check_payload validate_claims is_expired is_early
    tolerance wrong_issuer wrong_subject wrong_audience includes same_string audience_matches
valid = refl

expired : verdict 2005 ≡ refused token_expired
unfolding verify_jwt check_header check_alg check_payload validate_claims is_expired tolerance
expired = refl

none_listed :
    verify_jwt simple ("h" ∷ "p" ∷ "s" ∷ []) ("RS256" ∷ []) (checks_at 1500)
    ≡ refused algorithm_not_allowed
unfolding verify_jwt check_header check_alg
none_listed = refl

verify_jwt_lem_example :
    (verify_jwt simple ("h" ∷ "p" ∷ "s" ∷ []) ("HS256" ∷ []) (checks_at 1500) ≡ accepted claims)
    ↔ ((alg : String) × Valid simple "h" "p" "s" alg ("HS256" ∷ []) (checks_at 1500) claims)
verify_jwt_lem_example = verify_jwt_lem simple "h" "p" "s" ("HS256" ∷ []) (checks_at 1500) claims
