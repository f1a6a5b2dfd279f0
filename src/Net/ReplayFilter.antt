-- ===== src/Net/ReplayFilter.antt =====
-- ts/net/noise-session.ts, `ReplayFilter`: the sliding window over a peer's counters. `high` starts
-- at -1; `bits` is the set of counters seen.
pub mod Ideal
use toki.Base.{ℕ, Bool, true, false, List, [], ◌∷◌, if◌then◌else◌}
use toki.Base.Int.{ℤ, pos, negsuc, ◌-ℤ◌, ltb_ℤ}
use toki.Net.Bytes.{mem, delete_where}

abbrev pub window : ℕ
window = 1024

pub record ReplayFilter : Type 0 where
  pub high : ℤ
  pub bits : List ℕ

abbrev pub fresh_filter : ReplayFilter
fresh_filter = record { high = negsuc 0; bits = [] }

-- `a <= b`
abbrev pub leb_ℤ : ℤ → ℤ → Bool
leb_ℤ a b = if ltb_ℤ b a then false else true

unfoldable pub check : ℕ → ReplayFilter → ReplayFilter × Bool
unfolding ◌-ℤ◌
check n f =
    if ltb_ℤ f.high (pos n)
    then (let low_old = f.high -ℤ pos window in
        (
          record {
            high = pos n;
            bits = n ∷ delete_where (λ seen. leb_ℤ (pos seen) low_old) f.bits;
          },
          true,
        ))
    else if leb_ℤ (pos n) (f.high -ℤ pos window)
    then (f, false)
    else if mem n f.bits
    then (f, false)
    else (record f { bits = n ∷ f.bits }, true)

-- A sequence of counters: the answer to each.
unfoldable pub check_all : List ℕ → ReplayFilter → ReplayFilter × List Bool
check_all [] f = (f, [])
check_all (n ∷ ns) f =
    let (f', ok) = check n f in let (f'', oks) = check_all ns f' in (f'', ok ∷ oks)
