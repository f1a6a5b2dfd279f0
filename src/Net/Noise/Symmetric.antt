-- ===== src/Net/Noise/Symmetric.antt =====
-- ts/net/noise/symmetric-state.ts and `dh` of ts/net/noise/dh.ts. What node:crypto computes is a
-- parameter: the hash of the parts is that of their concatenation.
use toki.Base.{
  ℕ, ◌-◌, ◌*◌, ◌==◌, Bool, true, false, Option, none, some, List, [], ◌∷◌, ◌++◌, length, take, drop,
  leb, if◌then◌else◌,
}
use toki.Net.Cipher
use toki.Net.Cipher.{
  Bytes, Gcm, CipherState, CipherError, Result, ok, err, encrypt_with_ad, decrypt_with_ad,
}

-- SHA-256, HKDF (key material, salt, number of bytes), and X25519 on a private key and the raw
-- public key of the peer; the last throws on a key that it refuses.
pub record Suite : Type 0 where
  pub gcm : Gcm
  pub digest : Bytes → Bytes
  pub hkdf_sync : Bytes → Bytes → ℕ → Bytes
  pub diffie_hellman : Bytes → Bytes → Option Bytes

abbrev pub hashlen : ℕ
hashlen = 32

abbrev pub dhlen : ℕ
dhlen = 32

pub record KeyPair : Type 0 where
  pub private_key : Bytes
  pub public_raw : Bytes

pub record SymmetricState : Type 0 where
  pub ck : Bytes
  pub h : Bytes
  pub cipher : CipherState

-- `Buffer.alloc(n)`
unfoldable pub zeros : ℕ → Bytes
zeros Prim.Native.Nat.zero = []
zeros (Prim.Native.Nat.suc n) = 0 ∷ zeros n

module _ (suite : Suite) where
  unfoldable pub sha256 : List Bytes → Bytes
  sha256 [] = suite.digest []
  sha256 (p ∷ []) = suite.digest p
  sha256 (p ∷ q ∷ parts) = suite.digest (p ++ concat (q ∷ parts))
    where
      concat : List Bytes → Bytes
      concat [] = []
      concat (b ∷ bs) = b ++ concat bs

  -- `hkdf(chainingKey, ikm, 2)`: both calls ask for two outputs
  unfoldable pub hkdf : Bytes → Bytes → Bytes × Bytes
  hkdf chaining_key ikm =
      let out = suite.hkdf_sync ikm chaining_key (2 * hashlen) in
      (take hashlen out, take hashlen (drop hashlen out))

  -- `new SymmetricState(protocolName)`, on the bytes of the name
  unfoldable pub create : Bytes → SymmetricState
  create name =
      let h =
        if leb (length name) hashlen
        then name ++ zeros (hashlen - length name)
        else sha256 (name ∷ []) in
      record { ck = h; h = h; cipher = Cipher.create none }

  unfoldable pub mix_key : Bytes → SymmetricState → SymmetricState
  mix_key input ss =
      let (ck, temp_k) = hkdf ss.ck input in
      record { ck = ck; h = ss.h; cipher = Cipher.create (some temp_k) }

  unfoldable pub mix_hash : Bytes → SymmetricState → SymmetricState
  mix_hash bytes ss = record ss { h = sha256 (ss.h ∷ bytes ∷ []) }

  -- the rest of `encryptAndHash` and `decryptAndHash` after the cipher: `hashed` is the ciphertext
  unfoldable pub hash_if_ok :
      SymmetricState → (Bytes → Bytes) → CipherState × Result Bytes → SymmetricState × Result Bytes
  hash_if_ok ss hashed (c, ok out) = (mix_hash (hashed out) (record ss { cipher = c }), ok out)
  hash_if_ok ss hashed (c, err e) = (record ss { cipher = c }, err e)

  unfoldable pub encrypt_and_hash : Bytes → SymmetricState → SymmetricState × Result Bytes
  encrypt_and_hash plain ss =
      hash_if_ok ss (λ ct. ct) (encrypt_with_ad suite.gcm ss.h plain ss.cipher)

  unfoldable pub decrypt_and_hash : Bytes → SymmetricState → SymmetricState × Result Bytes
  decrypt_and_hash cipher ss =
      hash_if_ok ss (λ pt. cipher) (decrypt_with_ad suite.gcm ss.h cipher ss.cipher)

  -- `split`: the cipher states in the order send, recv
  unfoldable pub split : SymmetricState → CipherState × CipherState
  split ss = let (k1, k2) = hkdf ss.ck [] in (Cipher.create (some k1), Cipher.create (some k2))

  -- `dh`
  unfoldable pub dh : Bytes → Bytes → Option Bytes
  dh private_key peer = if length peer == dhlen then suite.diffie_hellman private_key peer else none

-- `hasKey`
unfoldable pub has_key : SymmetricState → Bool
has_key ss = elim ss.cipher.key [ none ↦ false | some k ↦ true ]
