-- ===== src/Net/Bytes.antt =====
-- Fixed-width big-endian integers (`writeBigUInt64BE`, `readBigUInt64BE`), and sets of numbers.
use native.Mathlib.Nat.{pow-suc}
use toki.Base.{
  ℕ, zero, suc, ◌+◌, ◌*◌, ◌/◌, ◌%◌, ◌^◌, ◌<◌, ◌≡◌, refl, Bool, false, ◌||◌, List, [], ◌∷◌, ◌++◌,
  arith, length, length-append, ◌==◌, if◌then◌else◌,
}

-- The low `k` bytes of `n`, the highest first.
unfoldable pub write_be : ℕ → ℕ → List ℕ
write_be zero n = []
write_be (suc k) n = write_be k (n / 256) ++ n % 256 ∷ []

unfoldable pub read_be : ℕ → List ℕ → ℕ
read_be acc [] = acc
read_be acc (b ∷ bs) = read_be (acc * 256 + b) bs

read_be-append :
    (acc : ℕ) (xs : List ℕ) (b : ℕ) → read_be acc (xs ++ b ∷ []) ≡ read_be acc xs * 256 + b
unfolding read_be
read_be-append acc [] b = refl
read_be-append acc (x ∷ xs) b = read_be-append (acc * 256 + x) xs b

pub length-write_be : (k n : ℕ) → length (write_be k n) ≡ k
unfolding write_be
length-write_be zero n = refl
length-write_be (suc k) n =
    omega (arith, length-append (write_be k (n / 256)) (n % 256 ∷ []), length-write_be k (n / 256))

pub read_be-write_be : (k n : ℕ) → n < 256 ^ k → read_be 0 (write_be k n) ≡ n
unfolding write_be read_be
read_be-write_be zero n h = omega arith
read_be-write_be (suc k) n h =
    let h' : n < 256 ^ k * 256 = rw (← pow-suc) h in
    omega (
      arith,
      read_be-append 0 (write_be k (n / 256)) (n % 256),
      read_be-write_be k (n / 256) (omega arith),
    )

-- `set.has(n)`
unfoldable pub mem : ℕ → List ℕ → Bool
mem n [] = false
mem n (x ∷ xs) = x == n || mem n xs

-- `for (const seen of set) if (test(seen)) set.delete(seen)`
unfoldable pub delete_where : (ℕ → Bool) → List ℕ → List ℕ
delete_where p [] = []
delete_where p (x ∷ xs) = let rest = delete_where p xs in if p x then rest else x ∷ rest

pub mem-delete_where :
    (p : ℕ → Bool) (n : ℕ) (xs : List ℕ)
    → mem n (delete_where p xs) ≡ (if p n then false else mem n xs)
unfolding mem delete_where
mem-delete_where p n [] = ground arith
mem-delete_where p n (x ∷ xs) = ground (arith, mem-delete_where p n xs)
