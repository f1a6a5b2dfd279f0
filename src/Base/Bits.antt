-- ===== src/Base/Bits.antt =====
-- A mask of leading ones over the native `bit_and`.
use toki.Base.{◌+◌, ◌≤◌}
use Prim.Native.Nat.{
  ℕ, zero, suc, ◌-◌, ◌*◌, ◌/◌, ◌%◌, ◌^◌, ◌<◌, min, digits, bit_and, bit_and-bitwise,
}
use mathlib.Core.Path.{◌≡◌, sym, ap, ◌∙◌}
use native.Mathlib.Nat.{
  pow-suc, pow-succ', two-pow-succ, div-div-eq-div-mul, zero-div, mul-div_cancel,
}
use mathlib.Core.Logic.{◌↔◌}
use native.Mathlib.Omega.{arith}

two_pow-positive : (p : ℕ) → 0 < 2 ^ p
two_pow-positive zero = omega arith
two_pow-positive (suc p) = omega (arith, two-pow-succ p, two_pow-positive p)

-- Half of an even multiple, and twice a multiple.
double_half : (m q : ℕ) → m * (2 * q) / 2 ≡ m * q
double_half m q = let twice : m * (2 * q) ≡ m * q * 2 = omega arith in rw twice (omega arith)

double_even : (m q : ℕ) → m * (2 * q) % 2 ≡ 0
double_even m q = let twice : m * (2 * q) ≡ m * q * 2 = omega arith in rw twice (omega arith)

-- The digits of the conjunction with a mask of `p` ones above `k` zeros.
digits_mask :
    (n a k p : ℕ)
    → a < suc n
    → a < 2 ^ p * 2 ^ k
    → digits (λ b. zero) min n a ((2 ^ p - 1) * 2 ^ k) ≡ a / 2 ^ k * 2 ^ k
digits_mask zero zero k p enough h = rw (zero-div (2 ^ k)) (omega arith)
digits_mask zero (suc a) k p enough h = absurd (omega arith)
digits_mask (suc n) zero k p enough h = rw (zero-div (2 ^ k)) (omega arith)
digits_mask (suc n) (suc a) zero zero enough h = absurd (omega arith)
digits_mask (suc n) (suc a) zero (suc p) enough h =
    let pos = two_pow-positive p in
    let double = two-pow-succ p in
    let half : (2 ^ suc p - 1) * 1 / 2 ≡ (2 ^ p - 1) * 2 ^ 0 = omega arith in
    let odd : (2 ^ suc p - 1) * 1 % 2 ≡ 1 = omega arith in
    let rest = digits_mask n (suc a / 2) zero p (omega arith) (omega arith) in
    rw (half, odd, rest) (omega arith)
digits_mask (suc n) (suc a) (suc k) p enough h =
    let q = pow-succ' 2 k in
    let half : (2 ^ p - 1) * 2 ^ suc k / 2 ≡ (2 ^ p - 1) * 2 ^ k =
      rw q (double_half (2 ^ p - 1) (2 ^ k)) in
    let even : (2 ^ p - 1) * 2 ^ suc k % 2 ≡ 0 = rw q (double_even (2 ^ p - 1) (2 ^ k)) in
    let h' : suc a < 2 ^ p * (2 * 2 ^ k) = rw (← q) h in
    let twice : 2 ^ p * (2 * 2 ^ k) ≡ 2 ^ p * 2 ^ k * 2 = omega arith in
    let small : suc a / 2 < 2 ^ p * 2 ^ k = omega (arith, h', twice) in
    let rest = digits_mask n (suc a / 2) k p (omega arith) small in
    rw (half, even, rest, div-div-eq-div-mul (suc a) 2 (2 ^ k), q) (omega arith)

-- Below 2 ^ (p + k), the mask keeps the number's multiple of 2 ^ k.
pub bit_and-mask :
    (a k p : ℕ) → a < 2 ^ p * 2 ^ k → bit_and a ((2 ^ p - 1) * 2 ^ k) ≡ a / 2 ^ k * 2 ^ k
bit_and-mask a k p h = bit_and-bitwise a ((2 ^ p - 1) * 2 ^ k) ∙ digits_mask a a k p (omega arith) h

-- Two numbers have the same masked value exactly when their leading bits are the same.
pub masked_iff :
    (a b k p : ℕ)
    → a < 2 ^ p * 2 ^ k
    → b < 2 ^ p * 2 ^ k
    → (bit_and a ((2 ^ p - 1) * 2 ^ k) ≡ bit_and b ((2 ^ p - 1) * 2 ^ k)) ↔ (a / 2 ^ k ≡ b / 2 ^ k)
masked_iff a b k p ha hb =
    rw (bit_and-mask a k p ha, bit_and-mask b k p hb)
      (λ e. sym (back a) ∙ ap (λ m. m / 2 ^ k) e ∙ back b, λ e. ap (λ m. m * 2 ^ k) e)
  where
    back : (x : ℕ) → x / 2 ^ k * 2 ^ k / 2 ^ k ≡ x / 2 ^ k
    back x = mul-div_cancel (x / 2 ^ k) (two_pow-positive k)

two_pow_add : (m n : ℕ) → 2 ^ (m + n) ≡ 2 ^ m * 2 ^ n
two_pow_add m zero = let same : m + 0 ≡ m = omega arith in rw same (omega arith)
two_pow_add m (suc n) =
    let same : m + suc n ≡ suc (m + n) = omega arith in
    rw (same, pow-suc 2 (m + n), two_pow_add m n, pow-suc 2 n) (omega arith)

pub two_pow_split : (bits p : ℕ) → p ≤ bits → 2 ^ bits ≡ 2 ^ p * 2 ^ (bits - p)
two_pow_split bits p fits =
    let whole : bits ≡ p + (bits - p) = omega arith in
    ap (λ n. 2 ^ n) whole ∙ two_pow_add p (bits - p)
