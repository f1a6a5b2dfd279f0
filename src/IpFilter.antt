-- ===== src/IpFilter.antt =====
-- plugins/ip-filter/src: the ranges of cidr.ts, and ip-filter.ts.
pub mod Address
pub mod Prefix
pub mod Bounds
use Prim.Native.Nat.{bit_and}
use toki.Base.{
  ℕ, zero, suc, ◌+◌, ◌-◌, ◌*◌, ◌/◌, ◌%◌, ◌^◌, ◌==◌, Bool, true, false, not, ◌&&◌, ◌||◌, Option,
  none, some, List, [], ◌∷◌, ◌++◌, length, all, any, ltb, leb, if◌then◌else◌,
}
use toki.Base.Text.{Text}
use toki.IpFilter.Address.{
  Version, Ip, bits_of, cons_head, split, split_double, includes, before, after, is_white,
  trim_start, keep_if, trim_end, trim, is_digit, is_hex, hex_digit, number_of, parse_byte,
  push_byte, parse_bytes, parse_v4, parse_group, two_groups, parse_token, join, parse_tokens,
  groups_of, zeros, fill, groups_in, value_of, eight_groups, parse_v6, from_v6, ip_v6, ip_v4,
  parse_ip, v4, v6,
}

pub record Cidr : Type 0 where
  pub version : Version
  pub base : ℕ
  pub prefix : ℕ

abbrev pub same_version : Version → Version → Bool
same_version v4 v4 = true
same_version v6 v6 = true
same_version v4 v6 = false
same_version v6 v4 = false

-- `maskFor`
unfoldable pub mask_for : ℕ → ℕ → ℕ
mask_for prefix bits = if prefix == 0 then 0 else (2 ^ prefix - 1) * 2 ^ (bits - prefix)

-- the end of `parseCidr`
unfoldable pub to_cidr : Ip → ℕ → Cidr
to_cidr ip prefix = record {
  version = ip.version;
  base = bit_and ip.value (mask_for prefix (bits_of ip.version));
  prefix = prefix;
}

-- the prefix after the slash: digits only, at most the bits of the version
unfoldable pub parse_prefix : ℕ → Option Text → Option ℕ
parse_prefix bits none = some bits
parse_prefix bits (some digits) =
    let p = number_of 10 0 digits in
    if leb 1 (length digits) && (all is_digit digits && leb p bits) then some p else none

unfoldable pub with_prefix : Option Ip → Option Text → Option Cidr
with_prefix none digits = none
with_prefix (some ip) digits = elim (parse_prefix (bits_of ip.version) digits) [
  | none ↦ none
  | some prefix ↦ some (to_cidr ip prefix)
]

-- `parseCidr`
unfoldable pub parse_cidr : Text → Option Cidr
parse_cidr input = with_prefix (parse_ip (before b'/' input)) (after b'/' input)

-- `inCidr`
unfoldable pub in_cidr : Ip → Cidr → Bool
in_cidr ip cidr =
    if not (same_version ip.version cidr.version)
    then false
    else if cidr.prefix == 0
    then true
    else bit_and ip.value (mask_for cidr.prefix (bits_of cidr.version)) == cidr.base

-- the test of the middleware on the parsed address
unfoldable pub is_blocked : List Cidr → List Cidr → Option Ip → Bool
is_blocked allow deny none = true
is_blocked allow deny (some ip) =
    any (in_cidr ip) deny || (ltb 0 (length allow) && not (any (in_cidr ip) allow))

-- `compile`; `none` is the exception at setup
unfoldable pub push_cidr : Option Cidr → Option (List Cidr) → Option (List Cidr)
push_cidr none rest = none
push_cidr (some c) none = none
push_cidr (some c) (some cs) = some (c ∷ cs)

unfoldable pub compile : List Text → Option (List Cidr)
compile [] = some []
compile (entry ∷ entries) = push_cidr (parse_cidr entry) (compile entries)

-- `clientIp`, with the header `x-forwarded-for` where there is one that is not empty
unfoldable pub client_ip : Bool → Option Text → Text → Text
client_ip true (some forwarded) peer = trim (before b',' forwarded)
client_ip true none peer = peer
client_ip false forwarded peer = peer

-- the middleware: whether the request is blocked
unfoldable pub ip_filter : List Cidr → List Cidr → Bool → Option Text → Text → Bool
ip_filter allow deny trust_proxy forwarded peer =
    is_blocked allow deny (parse_ip (client_ip trust_proxy forwarded peer))
