-- ===== src/Net/Cipher.antt =====
-- ts/net/noise/cipher-state.ts: AES-256-GCM under a message counter. node:crypto is a parameter.
pub mod Counter
use toki.Base.{
  ℕ, ◌+◌, ◌-◌, ◌^◌, ◌≡◌, Option, none, some, List, [], ◌∷◌, ◌++◌, length, take, drop, ltb, leb,
  if◌then◌else◌,
}
use toki.Net.Bytes.{write_be}

abbrev pub Bytes : Type 0
Bytes = List ℕ

-- AES-256-GCM as node:crypto offers it: key, nonce, additional data and plaintext give a ciphertext
-- and its tag; `decipher` gives no plaintext where the tag does not fit.
pub record Gcm : Type 0 where
  pub encipher : Bytes → Bytes → Bytes → Bytes → Bytes × Bytes
  pub decipher : Bytes → Bytes → Bytes → Bytes → Bytes → Option Bytes

-- What the code relies on: a tag is 16 bytes, and what was enciphered deciphers.
pub record IsGcm (g : Gcm) : Type 0 where
  pub tag_bytes : (key nonce ad plain : Bytes) → length (g.encipher key nonce ad plain).1 ≡ 16
  pub genuine :
      (key nonce ad plain : Bytes)
      → g.decipher key nonce ad (g.encipher key nonce ad plain).0 (g.encipher key nonce ad plain).1
        ≡ some plain

abbrev pub taglen : ℕ
taglen = 16

abbrev pub nonce_max : ℕ
nonce_max = 2 ^ 64 - 1

-- The exceptions of the class, and that of node:crypto on a tag that does not fit.
pub data CipherError : Type 0 where
  nonce_exhausted ciphertext_too_short bad_tag : CipherError

pub data Result {ℓ} (A : Type ℓ) : Type ℓ where
  ok : A → Result A
  err : CipherError → Result A

pub record CipherState : Type 0 where
  pub key : Option Bytes
  pub n : ℕ

-- `new CipherState(key)`
unfoldable pub create : Option Bytes → CipherState
create key = record { key = key; n = 0 }

-- `nonceBytes`
unfoldable pub nonce_bytes : ℕ → Bytes
nonce_bytes n = 0 ∷ 0 ∷ 0 ∷ 0 ∷ write_be 8 n

module _ (g : Gcm) where
  -- `Buffer.concat([body, cipher.getAuthTag()])`
  unfoldable pub seal_under : Bytes → ℕ → Bytes → Bytes → Bytes
  seal_under key n ad plain =
      let (body, tag) = g.encipher key (nonce_bytes n) ad plain in body ++ tag

  -- the part of the two decryptions behind their guards
  unfoldable pub open_under : Bytes → ℕ → Bytes → Bytes → Result Bytes
  open_under key n ad cipher =
      let split = length cipher - taglen in
      elim (g.decipher key (nonce_bytes n) ad (take split cipher) (drop split cipher)) [
        | none ↦ err bad_tag
        | some plain ↦ ok plain
      ]

  -- `encryptWithAd`, on the key
  unfoldable pub encrypt_keyed :
      Option Bytes → Bytes → Bytes → CipherState → CipherState × Result Bytes
  encrypt_keyed none ad plain c = (c, ok plain)
  encrypt_keyed (some key) ad plain c =
      if leb nonce_max c.n
      then (c, err nonce_exhausted)
      else (record c { n = c.n + 1 }, ok (seal_under key c.n ad plain))

  unfoldable pub encrypt_with_ad : Bytes → Bytes → CipherState → CipherState × Result Bytes
  unfolding encrypt_keyed
  encrypt_with_ad ad plain c = encrypt_keyed c.key ad plain c

  -- `this.#n += 1n` after a decryption that did not throw
  unfoldable pub count_if_ok : CipherState → Result Bytes → CipherState × Result Bytes
  count_if_ok c (ok plain) = (record c { n = c.n + 1 }, ok plain)
  count_if_ok c (err e) = (c, err e)

  -- `decryptWithAd`, on the key
  unfoldable pub decrypt_keyed :
      Option Bytes → Bytes → Bytes → CipherState → CipherState × Result Bytes
  unfolding count_if_ok
  decrypt_keyed none ad cipher c = (c, ok cipher)
  decrypt_keyed (some key) ad cipher c =
      if leb nonce_max c.n
      then (c, err nonce_exhausted)
      else if ltb (length cipher) taglen
      then (c, err ciphertext_too_short)
      else count_if_ok c (open_under key c.n ad cipher)

  unfoldable pub decrypt_with_ad : Bytes → Bytes → CipherState → CipherState × Result Bytes
  unfolding decrypt_keyed
  decrypt_with_ad ad cipher c = decrypt_keyed c.key ad cipher c

  -- `encryptAt`, on the key
  unfoldable pub encrypt_at_keyed : Option Bytes → ℕ → Bytes → Bytes → Bytes
  encrypt_at_keyed none n ad plain = plain
  encrypt_at_keyed (some key) n ad plain = seal_under key n ad plain

  unfoldable pub encrypt_at : ℕ → Bytes → Bytes → CipherState → Bytes
  unfolding encrypt_at_keyed
  encrypt_at n ad plain c = encrypt_at_keyed c.key n ad plain

  -- `decryptAt`, on the key
  unfoldable pub decrypt_at_keyed : Option Bytes → ℕ → Bytes → Bytes → Result Bytes
  decrypt_at_keyed none n ad cipher = ok cipher
  decrypt_at_keyed (some key) n ad cipher =
      if ltb (length cipher) taglen then err ciphertext_too_short else open_under key n ad cipher

  unfoldable pub decrypt_at : ℕ → Bytes → Bytes → CipherState → Result Bytes
  unfolding decrypt_at_keyed
  decrypt_at n ad cipher c = decrypt_at_keyed c.key n ad cipher
