-- ===== src/Net/Cipher/Counter.antt =====
-- ts/net/noise/cipher-state.ts: two peers that count alike read each other.
use toki.Base.{
  ℕ, ◌+◌, ◌-◌, ◌≤◌, ◌<◌, ◌≡◌, refl, ap, Option, none, some, List, [], ◌∷◌, map, ◌++◌, length,
  length-append, take_left, drop_left, arith,
}
use toki.Net.Cipher.{
  Bytes, Gcm, IsGcm, taglen, nonce_max, nonce_bytes, Result, ok, err, CipherState, seal_under,
  open_under, encrypt_with_ad, decrypt_with_ad, encrypt_at, decrypt_at, encrypt_at_keyed,
  decrypt_at_keyed,
}

module _ (g : Gcm) (safe : IsGcm g) where
  pub length-seal_under :
      (key : Bytes) (n : ℕ) (ad plain : Bytes) → 16 ≤ length (seal_under g key n ad plain)
  unfolding seal_under
  length-seal_under key n ad plain =
      let (body, tag) = g.encipher key (nonce_bytes n) ad plain in
      omega (arith, length-append body tag, safe.tag_bytes key (nonce_bytes n) ad plain)

  pub open_under-seal_under :
      (key : Bytes) (n : ℕ) (ad plain : Bytes)
      → open_under g key n ad (seal_under g key n ad plain) ≡ ok plain
  unfolding seal_under open_under
  open_under-seal_under key n ad plain =
      let body = (g.encipher key (nonce_bytes n) ad plain).0 in
      let tag = (g.encipher key (nonce_bytes n) ad plain).1 in
      let cut : length (body ++ tag) - taglen ≡ length body =
        omega (arith, length-append body tag, safe.tag_bytes key (nonce_bytes n) ad plain) in
      rw (
        cut,
        take_left body tag,
        drop_left body tag,
        safe.genuine key (nonce_bytes n) ad plain,
        open_under,
      )

  -- A message sealed at a counter opens at that counter under the same key, or under none.
  pub decrypt_at-encrypt_at :
      (n : ℕ) (ad plain : Bytes) (c d : CipherState)
      → c.key ≡ d.key
      → decrypt_at g n ad (encrypt_at g n ad plain c) d ≡ ok plain
  unfolding decrypt_at encrypt_at
  decrypt_at-encrypt_at n ad plain c d same = rw same (by_key d.key)
    where
      by_key :
          (key : Option Bytes)
          → decrypt_at_keyed g key n ad (encrypt_at_keyed g key n ad plain) ≡ ok plain
      by_key none = refl
      by_key (some key) =
          ground (arith, length-seal_under key n ad plain, open_under-seal_under key n ad plain)

  encrypt-decrypt :
      (key ad plain : Bytes) (c d : CipherState)
      → c.key ≡ some key
      → d.key ≡ some key
      → c.n ≡ d.n
      → c.n < nonce_max
      → (encrypt_with_ad g ad plain c
          ≡ (record c { n = c.n + 1 }, ok (seal_under g key c.n ad plain)))
        × (decrypt_with_ad g ad (seal_under g key c.n ad plain) d
            ≡ (record d { n = d.n + 1 }, ok plain))
  unfolding encrypt_with_ad decrypt_with_ad
  encrypt-decrypt key ad plain c d kc kd same room = (
    rw kc (ground arith),
    rw (kd, same)
        (ground
          (arith, length-seal_under key d.n ad plain, open_under-seal_under key d.n ad plain)),
  )

-- Messages sealed one after the other, and the exceptions.
unfoldable pub encrypt_all : Gcm → List (Bytes × Bytes) → CipherState → List (Bytes × Result Bytes)
encrypt_all g [] c = []
encrypt_all g ((ad, plain) ∷ ms) c =
    let (c', r) = encrypt_with_ad g ad plain c in (ad, r) ∷ encrypt_all g ms c'

-- A receiver of what was sealed, in the same order.
unfoldable pub decrypt_all : Gcm → List (Bytes × Result Bytes) → CipherState → List (Result Bytes)
decrypt_all g [] d = []
decrypt_all g ((ad, err e) ∷ ms) d = err e ∷ decrypt_all g ms d
decrypt_all g ((ad, ok cipher) ∷ ms) d =
    let (d', r) = decrypt_with_ad g ad cipher d in r ∷ decrypt_all g ms d'

-- Peers with one key and equal counters: every message sealed opens in order to its plaintext, as
-- long as the counter stays below its reserved value.
pub decrypt_all-encrypt_all :
    (g : Gcm) (key : Bytes) (ms : List (Bytes × Bytes)) (c d : CipherState)
    → IsGcm g
    → c.key ≡ some key
    → d.key ≡ some key
    → c.n ≡ d.n
    → c.n + length ms ≤ nonce_max
    → decrypt_all g (encrypt_all g ms c) d ≡ map (λ m. ok m.1) ms
unfolding decrypt_all encrypt_all
decrypt_all-encrypt_all g key [] c d safe kc kd same room = refl
decrypt_all-encrypt_all g key ((ad, plain) ∷ ms) c d safe kc kd same room =
    let (sealed, opened) = encrypt-decrypt g safe key ad plain c d kc kd same (omega arith) in
    rw (sealed, opened)
      (ap (◌∷◌ (ok plain)) (
        decrypt_all-encrypt_all g key ms (record c { n = c.n + 1 }) (record d { n = d.n + 1 }) safe
          kc kd (omega arith) (omega arith)))
