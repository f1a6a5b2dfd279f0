-- ===== src/IpFilter/Address.antt =====
-- plugins/ip-filter/src/cidr.ts: IP literals. A text is its UTF-16 code units, and a big integer a
-- natural number; a shift to the left is a product with a power of two, one to the right a quotient,
-- and `|` of numbers with no common bit is their sum.
use toki.Base.{
  ℕ, zero, suc, ◌+◌, ◌-◌, ◌*◌, ◌/◌, ◌%◌, ◌^◌, ◌==◌, Bool, true, false, ◌&&◌, ◌||◌, Option, none,
  some, List, [], ◌∷◌, ◌++◌, length, all, any, ltb, leb, if◌then◌else◌,
}
use toki.Base.Text.{Text}

pub data Version : Type 0 where
  v4 v6 : Version

pub record Ip : Type 0 where
  pub version : Version
  pub value : ℕ

-- `V4_BITS`, `V6_BITS`
abbrev pub bits_of : Version → ℕ
bits_of v4 = 32
bits_of v6 = 128

unfoldable pub cons_head : ℕ → List Text → List Text
cons_head c [] = (c ∷ []) ∷ []
cons_head c (t ∷ ts) = (c ∷ t) ∷ ts

-- `input.split(c)`
unfoldable pub split : ℕ → Text → List Text
split c [] = [] ∷ []
split c (d ∷ s) = let rest = split c s in if d == c then [] ∷ rest else cons_head d rest

-- `ip.split("::")`
unfoldable pub split_double : Text → List Text
split_double [] = [] ∷ []
split_double (c ∷ []) = (c ∷ []) ∷ []
split_double (c ∷ d ∷ s) = elim (c == b':' && d == b':') [
  | true ↦ [] ∷ split_double s
  | false ↦ cons_head c (split_double (d ∷ s))
]

-- `input.includes(c)`
abbrev pub includes : ℕ → Text → Bool
includes c s = any (λ d. d == c) s

-- the text before the first `c`, or all of it
unfoldable pub before : ℕ → Text → Text
before c [] = []
before c (d ∷ s) = let rest = before c s in if d == c then [] else d ∷ rest

-- the text after the first `c`, where there is one
unfoldable pub after : ℕ → Text → Option Text
after c [] = none
after c (d ∷ s) = let rest = after c s in if d == c then some s else rest

-- what `trim` takes for white space
unfoldable pub is_white : ℕ → Bool
is_white c =
    (leb 9 c && leb c 13)
    || (c == 32
        || (c == 160
            || (c == 0x1680
                || ((leb 0x2000 c && leb c 0x200a)
                    || (c == 0x2028
                        || (c == 0x2029
                            || (c == 0x202f || (c == 0x205f || (c == 0x3000 || c == 0xfeff)))))))))

unfoldable pub trim_start : Text → Text
trim_start [] = []
trim_start (c ∷ s) = let rest = trim_start s in if is_white c then rest else c ∷ s

unfoldable pub keep_if : Bool → ℕ → Text → Text
keep_if white c [] = if white then [] else c ∷ []
keep_if white c (d ∷ s) = c ∷ d ∷ s

unfoldable pub trim_end : Text → Text
trim_end [] = []
trim_end (c ∷ s) = keep_if (is_white c) c (trim_end s)

-- `input.trim()`
unfoldable pub trim : Text → Text
unfolding trim_start trim_end
trim s = trim_end (trim_start s)

abbrev pub is_digit : ℕ → Bool
is_digit c = leb b'0' c && leb c b'9'

abbrev pub is_hex : ℕ → Bool
is_hex c = is_digit c || ((leb b'a' c && leb c b'f') || (leb b'A' c && leb c b'F'))

-- the value of a hexadecimal digit
unfoldable pub hex_digit : ℕ → ℕ
hex_digit c = if is_digit c then c - b'0' else if leb b'a' c then c - b'a' + 10 else c - b'A' + 10

-- `Number(text)` of digits, `parseInt(text, 16)` of hexadecimal ones
unfoldable pub number_of : ℕ → ℕ → Text → ℕ
number_of base so_far [] = so_far
number_of base so_far (c ∷ s) = number_of base (so_far * base + hex_digit c) s

-- a part of `parseV4`: /^\d{1,3}$/, at most 255
unfoldable pub parse_byte : Text → Option ℕ
parse_byte part =
    let n = number_of 10 0 part in
    if all is_digit part && (leb 1 (length part) && (leb (length part) 3 && leb n 255))
    then some n
    else none

unfoldable pub push_byte : ℕ → Option ℕ → Option ℕ
push_byte so_far none = none
push_byte so_far (some n) = some (so_far * 2 ^ 8 + n)

-- the loop of `parseV4`
unfoldable pub parse_bytes : Option ℕ → List Text → Option ℕ
parse_bytes none parts = none
parse_bytes (some so_far) [] = some so_far
parse_bytes (some so_far) (part ∷ parts) = parse_bytes (push_byte so_far (parse_byte part)) parts

-- `parseV4`
unfoldable pub parse_v4 : Text → Option ℕ
parse_v4 input =
    let parts = split b'.' input in if length parts == 4 then parse_bytes (some 0) parts else none

-- one token of `groupsOf` that is not the last, or has no dot: /^[0-9a-fA-F]{1,4}$/
unfoldable pub parse_group : Text → Option (List ℕ)
parse_group token =
    if all is_hex token && (leb 1 (length token) && leb (length token) 4)
    then some (number_of 16 0 token ∷ [])
    else none

-- an embedded IPv4 tail
unfoldable pub two_groups : Option ℕ → Option (List ℕ)
two_groups none = none
two_groups (some value) = some (value / 2 ^ 16 ∷ value % 2 ^ 16 ∷ [])

unfoldable pub parse_token : Bool → Text → Option (List ℕ)
parse_token is_last token =
    if includes b'.' token
    then (if is_last then two_groups (parse_v4 token) else none)
    else parse_group token

unfoldable pub join : Option (List ℕ) → Option (List ℕ) → Option (List ℕ)
join (some a) (some b) = some (a ++ b)
join none b = none
join (some a) none = none

-- the loop of `groupsOf`
unfoldable pub parse_tokens : List Text → Option (List ℕ)
parse_tokens [] = some []
parse_tokens (token ∷ rest) = join (parse_token (length rest == 0) token) (parse_tokens rest)

-- `groupsOf`
unfoldable pub groups_of : Text → Option (List ℕ)
groups_of [] = some []
groups_of (c ∷ s) = parse_tokens (split b':' (c ∷ s))

unfoldable pub zeros : ℕ → List ℕ
zeros zero = []
zeros (suc n) = 0 ∷ zeros n

-- the groups around a "::", which stands for at least one group
unfoldable pub fill : Option (List ℕ) → Option (List ℕ) → Option (List ℕ)
fill none tail = none
fill (some head) none = none
fill (some head) (some tail) =
    if ltb 7 (length head + length tail)
    then none
    else some (head ++ (zeros (8 - length head - length tail) ++ tail))

-- the groups of the halves that `split("::")` gives
unfoldable pub groups_in : List Text → Option (List ℕ)
groups_in [] = none
groups_in (head ∷ []) = groups_of head
groups_in (head ∷ tail ∷ []) = fill (groups_of head) (groups_of tail)
groups_in (head ∷ tail ∷ more ∷ rest) = none

unfoldable pub value_of : ℕ → List ℕ → ℕ
value_of so_far [] = so_far
value_of so_far (g ∷ gs) = value_of (so_far * 2 ^ 16 + g) gs

unfoldable pub eight_groups : Option (List ℕ) → Option ℕ
eight_groups none = none
eight_groups (some groups) = if length groups == 8 then some (value_of 0 groups) else none

-- `parseV6`
unfoldable pub parse_v6 : Text → Option ℕ
parse_v6 input = eight_groups (groups_in (split_double (before b'%' input)))

-- the end of `parseIp`, after what `parseV6` gives
unfoldable pub from_v6 : ℕ → Ip
from_v6 value =
    if value / 2 ^ 32 == 0xffff
    then record { version = v4; value = value % 2 ^ 32 }
    else record { version = v6; value = value }

unfoldable pub ip_v6 : Option ℕ → Option Ip
ip_v6 none = none
ip_v6 (some value) = some (from_v6 value)

unfoldable pub ip_v4 : Option ℕ → Option Ip
ip_v4 none = none
ip_v4 (some value) = some (record { version = v4; value = value })

-- `parseIp`
unfoldable pub parse_ip : Text → Option Ip
parse_ip input =
    let ip = trim input in
    if length ip == 0
    then none
    else if includes b':' ip
    then ip_v6 (parse_v6 ip)
    else ip_v4 (parse_v4 ip)
