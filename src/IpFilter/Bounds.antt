-- ===== src/IpFilter/Bounds.antt =====
-- plugins/ip-filter/src/cidr.ts: a parsed address is in the range of its version.
use mathlib.Core.Path.{subst}
use native.Mathlib.Nat.{pow-succ'}
use toki.Base.{
  and-eq-true_iff, ℕ, zero, suc, ◌+◌, ◌-◌, ◌*◌, ◌/◌, ◌^◌, ◌<◌, ◌≤◌, ◌==◌, ◌≡◌, Bool, true, ◌&&◌,
  Option, none, some, List, [], ◌∷◌, ◌++◌, length, all, ltb, leb, arith, Bool-cases, Option-cases,
  inl, inr, All, All-append,
}
use toki.Base.Text.{Text}
use toki.IpFilter.Address.{
  Ip, split, includes, before, trim, is_hex, hex_digit, number_of, parse_byte, push_byte,
  parse_bytes, parse_v4, parse_group, two_groups, parse_token, join, parse_tokens, groups_of, zeros,
  fill, groups_in, value_of, eight_groups, parse_v6, split_double, from_v6, ip_v6, ip_v4, parse_ip,
}
use toki.IpFilter.Prefix.{IsIp}

parse_byte-lt : (part : Text) (n : ℕ) → parse_byte part ≡ some n → n < 2 ^ 8
unfolding parse_byte
parse_byte-lt part n e = ground arith

-- Each byte multiplies the bound.
parse_bytes-lt :
    (parts : List Text) (so_far b r : ℕ)
    → so_far < b
    → parse_bytes (some so_far) parts ≡ some r
    → r < b * (2 ^ 8) ^ length parts
unfolding parse_bytes push_byte
parse_bytes-lt [] so_far b r small e = ground arith
parse_bytes-lt (part ∷ parts) so_far b r small e = elim (Option-cases (parse_byte part)) [
  | inl bad ↦
      let gone = subst (λ o. parse_bytes (push_byte so_far o) parts ≡ some r) bad e in
      absurd (ground arith)
  | inr (n, good) ↦
      let low = parse_byte-lt part n good in
      let rest =
        parse_bytes-lt parts (so_far * 2 ^ 8 + n) (b * 2 ^ 8) r (omega arith)
          (subst (λ o. parse_bytes (push_byte so_far o) parts ≡ some r) good e) in
      rw (pow-succ' (2 ^ 8) (length parts)) (omega (arith, rest))
]

value_of-lt :
    (gs : List ℕ) (so_far b : ℕ)
    → so_far < b
    → All (λ g. g < 2 ^ 16) gs
    → value_of so_far gs < b * (2 ^ 16) ^ length gs
unfolding value_of
value_of-lt [] so_far b small h = omega arith
value_of-lt (g ∷ gs) so_far b small h =
    let rest = value_of-lt gs (so_far * 2 ^ 16 + g) (b * 2 ^ 16) (omega (arith, h.0)) h.1 in
    rw (pow-succ' (2 ^ 16) (length gs)) (omega (arith, rest))

parse_v4-lt : (input : Text) (r : ℕ) → parse_v4 input ≡ some r → r < 2 ^ 32
unfolding parse_v4
parse_v4-lt input r e = elim (Bool-cases (length (split b'.' input) == 4)) [
  | inl four ↦
      let parsed : parse_bytes (some 0) (split b'.' input) ≡ some r = ground arith in
      let size : length (split b'.' input) ≡ 4 = ground arith in
      let bound = parse_bytes-lt (split b'.' input) 0 1 r (omega arith) parsed in
      subst (λ n. r < 1 * (2 ^ 8) ^ n) size bound
  | inr other ↦ absurd (ground arith)
]

hex_digit-lt : (c : ℕ) → is_hex c ≡ true → hex_digit c < 16
unfolding hex_digit
hex_digit-lt c h = ground arith

number_of-lt :
    (s : Text) (so_far b : ℕ)
    → so_far < b
    → all is_hex s ≡ true
    → number_of 16 so_far s < b * 16 ^ length s
unfolding number_of
number_of-lt [] so_far b small h = omega arith
number_of-lt (c ∷ s) so_far b small h =
    let (first, others) = (and-eq-true_iff (is_hex c) (all is_hex s)).0 h in
    let digit = hex_digit-lt c first in
    let rest =
      number_of-lt s (so_far * 16 + hex_digit c) (b * 16) (omega (arith, digit, small)) others in
    rw (pow-succ' 16 (length s)) (omega (arith, rest))

sixteen_pow-le : (n : ℕ) → n ≤ 4 → 16 ^ n ≤ 2 ^ 16
sixteen_pow-le zero h = omega arith
sixteen_pow-le (suc zero) h = omega arith
sixteen_pow-le (suc (suc zero)) h = omega arith
sixteen_pow-le (suc (suc (suc zero))) h = omega arith
sixteen_pow-le (suc (suc (suc (suc zero)))) h = omega arith
sixteen_pow-le (suc (suc (suc (suc (suc n))))) h = absurd (omega arith)

-- Every group has sixteen bits.
abbrev Small : List ℕ → Type 0
Small gs = All (λ g. g < 2 ^ 16) gs

abbrev SmallIf : Option (List ℕ) → Type 0
SmallIf none = Unit
SmallIf (some gs) = Small gs

parse_group-Small : (token : Text) → SmallIf (parse_group token)
unfolding parse_group
parse_group-Small token =
    elim (Bool-cases (all is_hex token && (leb 1 (length token) && leb (length token) 4))) [
      | inr bad ↦ rw bad tt
      | inl good ↦
          let few : length token ≤ 4 = ground arith in
          let low = number_of-lt token 0 1 (omega arith) (ground arith) in
          rw good (omega (arith, low, sixteen_pow-le (length token) few), tt)
    ]

two_groups-Small : (input : Text) → SmallIf (two_groups (parse_v4 input))
unfolding two_groups
two_groups-Small input = elim (Option-cases (parse_v4 input)) [
  | inl bad ↦ rw bad tt
  | inr (r, good) ↦
      let low = parse_v4-lt input r good in rw good (omega (arith, low), (omega arith, tt))
]

parse_token-Small : (is_last : Bool) (token : Text) → SmallIf (parse_token is_last token)
unfolding parse_token
parse_token-Small is_last token = elim (Bool-cases (includes b'.' token)) [
  | inr plain ↦ rw plain (parse_group-Small token)
  | inl dotted ↦ elim (Bool-cases is_last) [
    | inl here ↦ rw (dotted, here) (two_groups-Small token)
    | inr early ↦ rw (dotted, early) tt
  ]
]

join-Small : (a b : Option (List ℕ)) → SmallIf a → SmallIf b → SmallIf (join a b)
unfolding join
join-Small (some a) (some b) ha hb = All-append (λ g. g < 2 ^ 16) a b ha hb
join-Small none (some b) ha hb = tt
join-Small none none ha hb = tt
join-Small (some a) none ha hb = tt

parse_tokens-Small : (tokens : List Text) → SmallIf (parse_tokens tokens)
unfolding parse_tokens
parse_tokens-Small [] = tt
parse_tokens-Small (token ∷ rest) =
    join-Small (parse_token (length rest == 0) token) (parse_tokens rest)
      (parse_token-Small (length rest == 0) token) (parse_tokens-Small rest)

groups_of-Small : (part : Text) → SmallIf (groups_of part)
unfolding groups_of
groups_of-Small [] = tt
groups_of-Small (c ∷ s) = parse_tokens-Small (split b':' (c ∷ s))

zeros-Small : (n : ℕ) → Small (zeros n)
unfolding zeros
zeros-Small zero = tt
zeros-Small (suc n) = (omega arith, zeros-Small n)

fill-Small : (a b : Option (List ℕ)) → SmallIf a → SmallIf b → SmallIf (fill a b)
unfolding fill
fill-Small none b ha hb = tt
fill-Small (some a) none ha hb = tt
fill-Small (some a) (some b) ha hb = elim (Bool-cases (ltb 7 (length a + length b))) [
  | inl full ↦ rw full tt
  | inr room ↦ rw room (
      All-append (λ g. g < 2 ^ 16) a (zeros (8 - length a - length b) ++ b) ha
        (All-append (λ g. g < 2 ^ 16) (zeros (8 - length a - length b)) b
          (zeros-Small (8 - length a - length b)) hb))
]

groups_in-Small : (halves : List Text) → SmallIf (groups_in halves)
unfolding groups_in
groups_in-Small [] = tt
groups_in-Small (head ∷ []) = groups_of-Small head
groups_in-Small (head ∷ tail ∷ []) =
    fill-Small (groups_of head) (groups_of tail) (groups_of-Small head) (groups_of-Small tail)
groups_in-Small (head ∷ tail ∷ more ∷ rest) = tt

eight_groups-lt : (o : Option (List ℕ)) (r : ℕ) → SmallIf o → eight_groups o ≡ some r → r < 2 ^ 128
unfolding eight_groups
eight_groups-lt none r h e = absurd (ground arith)
eight_groups-lt (some gs) r h e = elim (Bool-cases (length gs == 8)) [
  | inl eight ↦
      let same : value_of 0 gs ≡ r = ground arith in
      let size : length gs ≡ 8 = ground arith in
      let bound = value_of-lt gs 0 1 (omega arith) h in
      subst (λ x. x < 2 ^ 128) same (subst (λ n. value_of 0 gs < 1 * (2 ^ 16) ^ n) size bound)
  | inr other ↦ absurd (ground arith)
]

parse_v6-lt : (input : Text) (r : ℕ) → parse_v6 input ≡ some r → r < 2 ^ 128
unfolding parse_v6
parse_v6-lt input r e =
    let halves = split_double (before b'%' input) in
    eight_groups-lt (groups_in halves) r (groups_in-Small halves) e

from_v6-IsIp : (r : ℕ) → r < 2 ^ 128 → IsIp (from_v6 r)
unfolding from_v6
from_v6-IsIp r small = elim (Bool-cases (r / 2 ^ 32 == 0xffff)) [
  | inl mapped ↦ rw mapped (omega arith)
  | inr plain ↦ rw plain small
]

abbrev IsIpIf : Option Ip → Type 0
IsIpIf none = Unit
IsIpIf (some ip) = IsIp ip

ip_v6-IsIp : (input : Text) → IsIpIf (ip_v6 (parse_v6 input))
unfolding ip_v6
ip_v6-IsIp input = elim (Option-cases (parse_v6 input)) [
  | inl bad ↦ rw bad tt
  | inr (r, good) ↦ let small = parse_v6-lt input r good in rw good (from_v6-IsIp r small)
]

ip_v4-IsIp : (input : Text) → IsIpIf (ip_v4 (parse_v4 input))
unfolding ip_v4
ip_v4-IsIp input = elim (Option-cases (parse_v4 input)) [
  | inl bad ↦ rw bad tt
  | inr (r, good) ↦ let small = parse_v4-lt input r good in rw good small
]

parsed-IsIp : (input : Text) → IsIpIf (parse_ip input)
unfolding parse_ip
parsed-IsIp input =
    let ip = trim input in
    elim (Bool-cases (length ip == 0)) [
      | inl empty ↦ rw empty tt
      | inr filled ↦ elim (Bool-cases (includes b':' ip)) [
        | inl colon ↦ rw (filled, colon) (ip_v6-IsIp ip)
        | inr plain ↦ rw (filled, plain) (ip_v4-IsIp ip)
      ]
    ]

-- What `parse_ip` gives for any text is a value that fits in the bits of its version, 32 for IPv4
-- and for an IPv6 address that maps one, 128 for any other IPv6 address.
pub parse_ip-IsIp : (input : Text) (ip : Ip) → parse_ip input ≡ some ip → IsIp ip
parse_ip-IsIp input ip e = subst (λ o. IsIpIf o) e (parsed-IsIp input)
