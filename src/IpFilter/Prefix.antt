-- ===== src/IpFilter/Prefix.antt =====
-- plugins/ip-filter/src: a range is the addresses with the same leading bits.
use toki.Base.{
  ℕ, ◌-◌, ◌*◌, ◌/◌, ◌^◌, ◌<◌, ◌≤◌, ◌==◌, ==_iff, ◌≡◌, ◌≢◌, ◌⊎◌, ◌↔◌, inl, inr, refl, sym, ◌∙◌, true,
  false, some, List, [], ◌∷◌, any, arith, Bool-cases,
}
use Prim.Native.Nat.{bit_and}
use mathlib.Core.Path.{subst}
use native.Mathlib.Nat.{div-eq_of_lt}
use toki.Base.Bits.{two_pow_split, masked_iff}
use toki.IpFilter.Address.{Version, v4, v6, Ip, bits_of}
use toki.IpFilter.{Cidr, same_version, mask_for, to_cidr, in_cidr, is_blocked}

-- An address in the range of its version.
abbrev pub IsIp : Ip → Type 0
IsIp ip = ip.value < 2 ^ bits_of ip.version

-- The address agrees with that of the rule on as many leading bits as its prefix.
abbrev pub Covers : Ip → Ip × ℕ → Type 0
Covers ip (base, prefix) =
    (ip.version ≡ base.version)
    × (ip.value / 2 ^ (bits_of base.version - prefix)
        ≡ base.value / 2 ^ (bits_of base.version - prefix))

same_version_iff : (a b : Version) → (same_version a b ≡ true) ↔ (a ≡ b)
same_version_iff v4 v4 = ground arith
same_version_iff v6 v6 = ground arith
same_version_iff v4 v6 = ground arith
same_version_iff v6 v4 = ground arith

-- With the number of bits a variable.
masked_prefix :
    (a b prefix bits : ℕ)
    → a < 2 ^ bits
    → b < 2 ^ bits
    → prefix ≤ bits
    → prefix ≢ 0
    → ((bit_and a (mask_for prefix bits) == bit_and b (mask_for prefix bits)) ≡ true)
      ↔ (a / 2 ^ (bits - prefix) ≡ b / 2 ^ (bits - prefix))
unfolding mask_for
masked_prefix a b prefix bits ha hb fits positive =
    let nonzero : (prefix == 0) ≡ false = ground arith in
    let size = two_pow_split bits prefix fits in
    let (to, from) = masked_iff a b (bits - prefix) prefix (rw (← size) ha) (rw (← size) hb) in
    let (equal, tested) =
      ==_iff (bit_and a ((2 ^ prefix - 1) * 2 ^ (bits - prefix)))
        (bit_and b ((2 ^ prefix - 1) * 2 ^ (bits - prefix))) in
    rw nonzero (λ e. to (equal e), λ e. tested (from e))

in_cidr-to_cidr :
    (ip base : Ip) (prefix : ℕ)
    → IsIp ip
    → IsIp base
    → prefix ≤ bits_of base.version
    → (in_cidr ip (to_cidr base prefix) ≡ true) ↔ Covers ip (base, prefix)
unfolding in_cidr to_cidr
in_cidr-to_cidr ip base prefix vi vb fits =
    let (to_version, from_version) = same_version_iff ip.version base.version in
    elim (Bool-cases (same_version ip.version base.version)) [
      | inr apart ↦
          rw apart
            (λ e. absurd (ground arith), λ c. absurd (ground (arith, from_version c.0, apart)))
      | inl alike ↦
          let version = to_version alike in
          let vi' : ip.value < 2 ^ bits_of base.version =
            subst (λ v. ip.value < 2 ^ bits_of v) version vi in
          elim (Bool-cases (prefix == 0)) [
            | inl everything ↦
                let whole : bits_of base.version - prefix ≡ bits_of base.version = ground arith in
                let a : ip.value / 2 ^ bits_of base.version ≡ 0 = div-eq_of_lt vi' in
                let b : base.value / 2 ^ bits_of base.version ≡ 0 = div-eq_of_lt vb in
                rw (alike, everything, whole) (λ e. (version, a ∙ sym b), λ c. refl)
            | inr some_bits ↦
                let (to, from) =
                  masked_prefix ip.value base.value prefix (bits_of base.version) vi' vb fits
                    (ground arith) in
                rw (alike, some_bits) (λ e. (version, to e), λ c. from c.1)
          ]
    ]

abbrev pub Never : Type 0
Never = true ≡ false

-- Some rule of a list covers the address.
abbrev pub Covered : Ip → List (Ip × ℕ) → Type 0
Covered ip [] = Never
Covered ip (rule ∷ rules) = Covers ip rule ⊎ Covered ip rules

-- Rules with an address in range and a prefix of at most its bits.
abbrev pub AreRules : List (Ip × ℕ) → Type 0
AreRules [] = Unit
AreRules ((base, prefix) ∷ rules) = (IsIp base × (prefix ≤ bits_of base.version)) × AreRules rules

abbrev pub cidrs : List (Ip × ℕ) → List Cidr
cidrs [] = []
cidrs ((base, prefix) ∷ rules) = to_cidr base prefix ∷ cidrs rules

any-Covered :
    (ip : Ip) (rules : List (Ip × ℕ))
    → IsIp ip
    → AreRules rules
    → (any (in_cidr ip) (cidrs rules) ≡ true) ↔ Covered ip rules
any-Covered ip [] vi h = (λ e. absurd (ground arith), λ e. absurd (ground arith))
any-Covered ip ((base, prefix) ∷ rules) vi h =
    let (to, from) = in_cidr-to_cidr ip base prefix vi h.0.0 h.0.1 in
    let (later, back) = any-Covered ip rules vi h.1 in
    elim (Bool-cases (in_cidr ip (to_cidr base prefix))) [
      | inl inside ↦ rw inside (λ e. inl (to inside), λ c. refl)
      | inr outside ↦ rw outside (
        λ e. inr (later e),
        λ c. elim c [
          | inl covers ↦ absurd (ground (arith, from covers, outside))
          | inr rest ↦ back rest
        ],
      )
    ]

-- For addresses in range and rules with a prefix of at most their bits: a request is let through
-- exactly when no deny rule agrees with its address on the version and on as many leading bits as the
-- rule's prefix, and there is no allow rule or one does.
pub is_blocked_lem :
    (allow deny : List (Ip × ℕ)) (ip : Ip)
    → IsIp ip
    → AreRules allow
    → AreRules deny
    → (is_blocked (cidrs allow) (cidrs deny) (some ip) ≡ false)
      ↔ ((Covered ip deny → Never) × ((allow ≡ []) ⊎ Covered ip allow))
unfolding is_blocked
is_blocked_lem [] deny ip vi ha hd =
    let (to, from) = any-Covered ip deny vi hd in
    elim (Bool-cases (any (in_cidr ip) (cidrs deny))) [
      | inl denied ↦
          rw denied (λ e. absurd (ground arith), λ c. absurd (ground (arith, c.0 (to denied))))
      | inr passed ↦
          rw passed
            (λ e. (λ covered. absurd (ground (arith, from covered, passed)), inl refl), λ c. refl)
    ]
is_blocked_lem (rule ∷ allow) deny ip vi ha hd =
    let (to, from) = any-Covered ip deny vi hd in
    let (in_allow, by_allow) = any-Covered ip (rule ∷ allow) vi ha in
    elim (Bool-cases (any (in_cidr ip) (cidrs deny))) [
      | inl denied ↦
          rw denied (λ e. absurd (ground arith), λ c. absurd (ground (arith, c.0 (to denied))))
      | inr passed ↦ (
        λ e. (
          λ covered. absurd (ground (arith, from covered, passed)),
          inr (in_allow (ground (arith, passed, e))),
        ),
        λ c. elim c.1 [
          | inl no_rules ↦ absurd (ground arith)
          | inr covers ↦ ground (arith, passed, by_allow covers)
        ],
      )
    ]
