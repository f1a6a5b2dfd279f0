-- ===== src/Net/Noise/Handshake/Sealing.antt =====
-- ts/net/noise: what one side adds to its transcript, the other side reads and adds to its own.
use toki.Base.{
  ◌+◌, ◌<◌, ◌≡◌, refl, false, Option, none, some, List, ◌∷◌, ◌++◌, length, length-append,
  take_left_of_length, drop_left_of_length, arith, ltb, if◌then◌else◌, Option-cases, inl, inr,
}
use toki.Net.Cipher.{
  Bytes, Gcm, IsGcm, CipherState, nonce_max, nonce_bytes, ok, seal_under, encrypt_with_ad,
  decrypt_with_ad,
}
use toki.Net.Cipher.Counter.{length-seal_under, open_under-seal_under}
use toki.Net.Noise.Symmetric.{
  Suite, KeyPair, SymmetricState, dhlen, mix_hash, encrypt_and_hash, decrypt_and_hash, hash_if_ok,
  has_key,
}
use toki.Net.Noise.Handshake.{
  HandshakeState, Token, e, s, and_then, in_symmetric, write_token, write_tokens, read_token,
  read_tokens, read_static, taglen,
}

-- GCM is a stream mode: the ciphertext is as long as the plaintext.
abbrev pub KeepsLength : Gcm → Type 0
KeepsLength g =
    (key nonce ad plain : Bytes) → length (g.encipher key nonce ad plain).0 ≡ length plain

-- A counter that has not come to its reserved value.
abbrev pub Usable : SymmetricState → Type 0
Usable sym = sym.cipher.n < nonce_max

module _ (suite : Suite) where
  abbrev sealed_by : Option Bytes → Bytes → SymmetricState → Bytes
  sealed_by none plain sym = plain
  sealed_by (some key) plain sym = seal_under suite.gcm key sym.cipher.n sym.h plain

  -- What a plaintext becomes on the wire.
  unfoldable pub sealed : Bytes → SymmetricState → Bytes
  sealed plain sym = sealed_by sym.cipher.key plain sym

  abbrev counted_by : Option Bytes → CipherState → CipherState
  counted_by none c = c
  counted_by (some key) c = record c { n = c.n + 1 }

  -- The symmetric state after it.
  unfoldable pub sealed_state : Bytes → SymmetricState → SymmetricState
  sealed_state plain sym =
      mix_hash suite (sealed plain sym)
        (record sym { cipher = counted_by sym.cipher.key sym.cipher })

module _ (suite : Suite) (safe : IsGcm suite.gcm) where
  pub encrypt_and_hash_lem :
      (plain : Bytes) (sym : SymmetricState)
      → Usable sym
      → encrypt_and_hash suite plain sym
        ≡ (sealed_state suite plain sym, ok (sealed suite plain sym))
  unfolding encrypt_and_hash encrypt_with_ad hash_if_ok sealed sealed_state
  encrypt_and_hash_lem plain sym room = elim (Option-cases sym.cipher.key) [
    | inl plainly ↦ rw plainly refl
    | inr (key, keyed) ↦ rw keyed (ground arith)
  ]

  pub decrypt_and_hash_lem :
      (plain : Bytes) (sym : SymmetricState)
      → Usable sym
      → decrypt_and_hash suite (sealed suite plain sym) sym
        ≡ (sealed_state suite plain sym, ok plain)
  unfolding decrypt_and_hash decrypt_with_ad hash_if_ok sealed sealed_state
  decrypt_and_hash_lem plain sym room = elim (Option-cases sym.cipher.key) [
    | inl plainly ↦ rw plainly refl
    | inr (key, keyed) ↦ rw keyed (
        ground (
          arith,
          length-seal_under suite.gcm safe key sym.cipher.n sym.h plain,
          open_under-seal_under suite.gcm safe key sym.cipher.n sym.h plain,
        ))
  ]

  pub length-sealed :
      (plain : Bytes) (sym : SymmetricState)
      → KeepsLength suite.gcm
      → length (sealed suite plain sym) ≡ (if has_key sym then length plain + 16 else length plain)
  unfolding sealed has_key seal_under
  length-sealed plain sym keeps = elim (Option-cases sym.cipher.key) [
    | inl plainly ↦ rw plainly refl
    | inr (key, keyed) ↦ rw keyed (
        omega (
          arith,
          length-append (suite.gcm.encipher key (nonce_bytes sym.cipher.n) sym.h plain).0
              (suite.gcm.encipher key (nonce_bytes sym.cipher.n) sym.h plain).1,
          safe.tag_bytes key (nonce_bytes sym.cipher.n) sym.h plain,
          keeps key (nonce_bytes sym.cipher.n) sym.h plain,
        ))
  ]

  -- The tokens of a message, one by one: on the writer's side.
  pub write_s :
      (generated : KeyPair) (ts : List Token) (parts : Bytes) (st : HandshakeState)
      → Usable st.symmetric
      → write_tokens suite generated (s ∷ ts) parts st
        ≡ write_tokens suite generated ts
            (parts ++ sealed suite st.static_key.public_raw st.symmetric)
            (record st { symmetric = sealed_state suite st.static_key.public_raw st.symmetric })
  unfolding write_tokens write_token in_symmetric and_then
  write_s generated ts parts st room =
      rw (encrypt_and_hash_lem st.static_key.public_raw st.symmetric room) refl

  -- On the reader's side.
  pub read_e :
      (ts : List Token) (key rest : Bytes) (st : HandshakeState)
      → length key ≡ 32
      → read_tokens suite (e ∷ ts) (key ++ rest) st
        ≡ read_tokens suite ts rest
            (record st { remote_ephemeral = some key; symmetric = mix_hash suite key st.symmetric })
  unfolding read_tokens read_token and_then
  read_e ts key rest st size =
      let long : ltb (length (key ++ rest)) dhlen ≡ false =
        ground (arith, length-append key rest) in
      rw (long, take_left_of_length 32 key rest size, drop_left_of_length 32 key rest size) refl

  pub read_s :
      (ts : List Token) (key rest : Bytes) (st : HandshakeState)
      → KeepsLength suite.gcm
      → length key ≡ 32
      → Usable st.symmetric
      → read_tokens suite (s ∷ ts) (sealed suite key st.symmetric ++ rest) st
        ≡ read_tokens suite ts rest (record st {
          remote_static = some key;
          symmetric = sealed_state suite key st.symmetric;
        })
  unfolding read_tokens read_token read_static in_symmetric and_then
  read_s ts key rest st keeps size room =
      let wire = sealed suite key st.symmetric in
      let len = (if has_key st.symmetric then dhlen + taglen else dhlen) in
      let exact : length wire ≡ len = ground (arith, length-sealed key st.symmetric keeps) in
      let long : ltb (length (wire ++ rest)) len ≡ false =
        ground (arith, length-append wire rest) in
      rw
        (
          long,
          take_left_of_length len wire rest exact,
          drop_left_of_length len wire rest exact,
          decrypt_and_hash_lem key st.symmetric room,
        )
        refl
