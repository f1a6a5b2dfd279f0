-- ===== src/Jwt/Verify/Valid.antt =====
-- plugins/jwt: an accepted token is a valid one.
use toki.Base.{
  ◌↔◌, ◌⊎◌, ap, ℕ, ◌+◌, ◌<◌, ◌≤◌, str_eq, eq_iff, Bool-cases, inl, inr, ◌≡◌, refl, true, false,
  Option, none, some, List, [], ◌∷◌, String, arith,
}
use toki.Jwt.Verify.{
  Payload, ClaimChecks, ClockTolerance, seconds, not_finite, tolerance, includes, same_string,
  audience_matches, accepted, includes_string, is_expired, is_early, wrong_issuer, wrong_subject,
  wrong_audience, Crypto, verify_jwt,
}
use toki.Jwt.Verify.Order.{Guards, verify_jwt-accepted, verify_jwt-Guards}

-- A string of the list.
abbrev pub Listed : String → List String → Type 0
Listed v [] = ⊥
Listed v (s ∷ list) = (s ≡ v) ⊎ Listed v list

-- What holds of a value that is there.
abbrev pub IfGiven : {A : Type 0} → Option A → (A → Type 0) → Type 0
IfGiven none P = Unit
IfGiven (some a) P = P a

-- The seconds that a tolerance allows.
abbrev pub allowance : ClockTolerance → ℕ
allowance (seconds n) = n
allowance not_finite = 0

-- What makes a token valid: its header names an algorithm of the caller's list that the library has,
-- the signature fits, now is before `exp` and not before `nbf`, each give or take the tolerance, the
-- issuer is one of the expected ones, the subject the expected one, and some expected audience is
-- among those of the token.
pub record Valid (c : Crypto) (header payload signature alg : String) (algorithms : List String)
    (checks : ClaimChecks) (p : Payload) : Type 0 where
  pub header_read : c.decode_alg header ≡ some (some alg)
  pub listed : Listed alg algorithms
  pub supported : c.is_algorithm alg ≡ true
  pub signed : c.verify_data alg header payload signature ≡ true
  pub payload_read : c.decode_payload payload ≡ some p
  pub fresh : IfGiven p.exp (λ exp. checks.now < exp + allowance checks.clock_tolerance)
  pub begun : IfGiven p.nbf (λ nbf. nbf ≤ checks.now + allowance checks.clock_tolerance)
  pub issued : IfGiven checks.issuer (λ list. (iss : String) × (p.iss ≡ some iss) × Listed iss list)
  pub about : IfGiven checks.subject (λ sub. p.sub ≡ some sub)
  pub meant : IfGiven checks.audience (λ want. (w : String) × Listed w want × Listed w p.aud)

includes_string_iff :
    (list : List String) (v : String) → (includes_string list v ≡ true) ↔ Listed v list
includes_string_iff [] v = (λ e. absurd (ground arith), λ h. absurd h)
includes_string_iff (s ∷ list) v =
    let later = includes_string_iff list v in
    elim (Bool-cases (str_eq s v)) [
      | inl same ↦ (λ e. inl ((eq_iff s v).0 same), λ h. rw same refl)
      | inr other ↦ (
        λ e. inr (later.0 (ground (arith, e, other))),
        λ h. elim h [
          | inl same ↦ rw ((eq_iff s v).1 same) refl
          | inr there ↦ rw (other, later.1 there) refl
        ],
      )
    ]

tolerance-allowance : (t : ClockTolerance) → tolerance t ≡ allowance t
unfolding tolerance
tolerance-allowance (seconds n) = refl
tolerance-allowance not_finite = refl

is_expired_iff :
    (checks : ClaimChecks) (o : Option ℕ)
    → (is_expired checks o ≡ false)
      ↔ IfGiven o (λ exp. checks.now < exp + allowance checks.clock_tolerance)
unfolding is_expired
is_expired_iff checks none = (λ e. tt, λ u. refl)
is_expired_iff checks (some exp) =
    let same = tolerance-allowance checks.clock_tolerance in
    (λ e. ground (arith, e, same), λ h. ground (arith, h, same))

is_early_iff :
    (checks : ClaimChecks) (o : Option ℕ)
    → (is_early checks o ≡ false)
      ↔ IfGiven o (λ nbf. nbf ≤ checks.now + allowance checks.clock_tolerance)
unfolding is_early
is_early_iff checks none = (λ e. tt, λ u. refl)
is_early_iff checks (some nbf) =
    let same = tolerance-allowance checks.clock_tolerance in
    (λ e. ground (arith, e, same), λ h. ground (arith, h, same))

wrong_issuer_iff :
    (o : Option (List String)) (iss : Option String)
    → (wrong_issuer o iss ≡ false)
      ↔ IfGiven o (λ list. (i : String) × (iss ≡ some i) × Listed i list)
unfolding wrong_issuer includes
wrong_issuer_iff none iss = (λ e. tt, λ u. refl)
wrong_issuer_iff (some list) none = (λ e. absurd (ground arith), λ (i, e, h). absurd (ground arith))
wrong_issuer_iff (some list) (some i) = (
  λ e. (i, refl, (includes_string_iff list i).0 (ground arith)),
  λ (j, e, h).
      let same : i ≡ j = ground arith in
      let there : includes_string list i ≡ true = rw same ((includes_string_iff list j).1 h) in
      rw there refl,
)

wrong_subject_iff :
    (o sub : Option String)
    → (wrong_subject o sub ≡ false) ↔ IfGiven o (λ expected. sub ≡ some expected)
unfolding wrong_subject same_string
wrong_subject_iff none sub = (λ e. tt, λ u. refl)
wrong_subject_iff (some expected) none = (λ e. absurd (ground arith), λ e. absurd (ground arith))
wrong_subject_iff (some expected) (some b) = (
  λ e. ap some ((eq_iff b expected).0 (ground arith)),
  λ e. let same : b ≡ expected = ground arith in rw ((eq_iff b expected).1 same) refl,
)

audience_matches_iff :
    (want have : List String)
    → (audience_matches want have ≡ true) ↔ ((w : String) × Listed w want × Listed w have)
unfolding audience_matches
audience_matches_iff [] have = (λ e. absurd (ground arith), λ (w, h, there). absurd h)
audience_matches_iff (v ∷ want) have =
    let later = audience_matches_iff want have in
    elim (Bool-cases (includes_string have v)) [
      | inl here ↦ (λ e. (v, inl refl, (includes_string_iff have v).0 here), λ h. rw here refl)
      | inr gone ↦ (
        λ e. let (w, among, there) = later.0 (ground (arith, e, gone)) in (w, inr among, there),
        λ (w, among, there). elim among [
          | inl same ↦
              let here : includes_string have v ≡ true =
                rw same ((includes_string_iff have w).1 there) in
              absurd (ground arith)
          | inr rest ↦ rw (gone, later.1 (w, rest, there)) refl
        ],
      )
    ]

wrong_audience_iff :
    (o : Option (List String)) (aud : List String)
    → (wrong_audience o aud ≡ false)
      ↔ IfGiven o (λ want. (w : String) × Listed w want × Listed w aud)
unfolding wrong_audience
wrong_audience_iff none aud = (λ e. tt, λ u. refl)
wrong_audience_iff (some want) aud = (
  λ e. (audience_matches_iff want aud).0 (ground arith),
  λ h. rw ((audience_matches_iff want aud).1 h) refl,
)

Valid-Guards :
    (c : Crypto) (header payload signature alg : String) (algorithms : List String)
    (checks : ClaimChecks) (p : Payload)
    → Guards c header payload signature alg algorithms checks p
      ↔ Valid c header payload signature alg algorithms checks p
Valid-Guards c header payload signature alg algorithms checks p = (
  λ g. record {
    header_read = g.header_read;
    listed = (includes_string_iff algorithms alg).0 g.listed;
    supported = g.supported;
    signed = g.signed;
    payload_read = g.payload_read;
    fresh = (is_expired_iff checks p.exp).0 g.fresh;
    begun = (is_early_iff checks p.nbf).0 g.begun;
    issued = (wrong_issuer_iff checks.issuer p.iss).0 g.issued;
    about = (wrong_subject_iff checks.subject p.sub).0 g.about;
    meant = (wrong_audience_iff checks.audience p.aud).0 g.meant;
  },
  λ v. record {
    header_read = v.header_read;
    listed = (includes_string_iff algorithms alg).1 v.listed;
    supported = v.supported;
    signed = v.signed;
    payload_read = v.payload_read;
    fresh = (is_expired_iff checks p.exp).1 v.fresh;
    begun = (is_early_iff checks p.nbf).1 v.begun;
    issued = (wrong_issuer_iff checks.issuer p.iss).1 v.issued;
    about = (wrong_subject_iff checks.subject p.sub).1 v.about;
    meant = (wrong_audience_iff checks.audience p.aud).1 v.meant;
  },
)

-- A token of three parts is accepted exactly when it is valid, and what is given back is its payload:
-- the header names an algorithm of the caller's list that the library has, the signature fits under
-- it, now < exp + tolerance and nbf ≤ now + tolerance where the claims are there (a tolerance that is
-- not finite counts as 0), and the issuer, the subject and one of the audiences are among what the
-- caller asks for, where it does.
pub verify_jwt_lem :
    (c : Crypto) (header payload signature : String) (algorithms : List String)
    (checks : ClaimChecks) (q : Payload)
    → (verify_jwt c (header ∷ payload ∷ signature ∷ []) algorithms checks ≡ accepted q)
      ↔ ((alg : String) × Valid c header payload signature alg algorithms checks q)
verify_jwt_lem c header payload signature algorithms checks q = (
  λ h.
      let (alg, g) = verify_jwt-accepted c header payload signature algorithms checks q h in
      (alg, (Valid-Guards c header payload signature alg algorithms checks q).0 g),
  λ (alg, v).
      verify_jwt-Guards c header payload signature alg algorithms checks q
        ((Valid-Guards c header payload signature alg algorithms checks q).1 v),
)
