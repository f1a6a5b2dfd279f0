-- ===== src/Tests/IpFilters.antt =====
-- plugins/ip-filter/src.
use toki.Base.{ℕ, ◌≡◌, ◌⊎◌, ◌↔◌, refl, false, some, List, [], ◌∷◌, arith}
use toki.Base.Text.{codes}
use toki.IpFilter.{is_blocked}
use toki.IpFilter.Address
use toki.IpFilter.Address.{Ip, v4, v6, parse_ip}
use toki.IpFilter.Bounds.{parse_ip-IsIp}
use toki.IpFilter.Prefix.{IsIp, Covered, Never, cidrs, is_blocked_lem}

dotted : parse_ip (codes " 10.1.2.3") ≡ some (record { version = v4; value = 0x0a010203 })
unfolding Address.parse_ip Address.ip_v4 Address.trim Address.trim_start Address.trim_end
    Address.keep_if Address.is_white Address.parse_v4 Address.parse_bytes Address.push_byte
    Address.parse_byte Address.number_of Address.hex_digit Address.split Address.cons_head
dotted = refl

abbrev private : Ip
private = record { version = v4; value = 0x0a000000 }

abbrev host : Ip
host = record { version = v4; value = 0x0a010203 }

is_blocked_lem_example :
    (is_blocked (cidrs ((private, 8) ∷ [])) (cidrs ((host, 32) ∷ [])) (some host) ≡ false) ↔ (
      (Covered host ((host, 32) ∷ []) → Never)
      × ((◌≡◌ {A = List (Ip × ℕ)} ((private, 8) ∷ []) []) ⊎ Covered host ((private, 8) ∷ [])))
is_blocked_lem_example =
    is_blocked_lem ((private, 8) ∷ []) ((host, 32) ∷ []) host (omega arith)
      ((omega arith, omega arith), tt) ((omega arith, omega arith), tt)

parse_ip-IsIp_example : IsIp host
parse_ip-IsIp_example = parse_ip-IsIp (codes " 10.1.2.3") host dotted
