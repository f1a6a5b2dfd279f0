-- ===== src/Net/Noise/Handshake/Agreement.antt =====
-- ts/net/noise/handshake-state.ts: three messages between two honest sides.
use toki.Base.{◌≤◌, ◌≡◌, refl, true, false, Option, some, List, [], ◌∷◌, length}
use toki.Net.Cipher.{Bytes, IsGcm}
use toki.Net.Noise.Symmetric.{Suite, KeyPair}
use toki.Net.Noise.Handshake
use toki.Net.Noise.Handshake.{
  HandshakeState, TransportPair, Token, e, s, ee, es, se, Outcome, done, thrown, Step, and_then,
  in_symmetric, mix_dh, mix_secret, secret_of, dh_of, write_token, write_tokens, read_token,
  read_tokens, write_message, read_message, advance, finish, finish_with, wipe, choose_ephemeral,
  protocol_name, max_message,
}
use toki.Net.Noise.Handshake.Messages.{
  Shares, keys_of, k1, k2, t10, write_first, read_first, write_second, read_second, write_third,
  read_third,
}
use toki.Net.Noise.Handshake.Sealing.{KeepsLength}

-- What the two sides read, and the keys that each holds in the end.
pub record Exchanged : Type 0 where
  pub read : List Bytes
  pub initiator_keys : Option TransportPair
  pub responder_keys : Option TransportPair

-- The outcome of a call, handed on unless it threw.
abbrev pub carry : {A B : Type 0} → Step A → (HandshakeState → A → Outcome B) → Outcome B
carry (st, done a) f = f st a
carry (st, thrown x) f = thrown x

-- The three messages, each one written, delivered and read.
pub exchange :
    Suite
    → KeyPair
    → KeyPair
    → Bytes
    → Bytes
    → Bytes
    → HandshakeState
    → HandshakeState
    → Outcome Exchanged
exchange suite gi gr p1 p2 p3 i0 r0 = carry (write_message suite gi p1 i0) (λ i1 w1.
    carry (read_message suite w1.0 r0) (λ r1 q1. carry (write_message suite gr p2 r1) (λ r2 w2.
      carry (read_message suite w2.0 i1) (λ i2 q2. carry (write_message suite gi p3 i2) (λ i3 w3.
        carry (read_message suite w3.0 r2) (λ r3 q3. done (record {
          read = q1.0 ∷ q2.0 ∷ q3.0 ∷ [];
          initiator_keys = w3.1;
          responder_keys = q3.1;
        })))))))

-- Two honest sides, each with its static and ephemeral key pair, one prologue, and payloads of at
-- most 4000 bytes, over any hash and key derivation, under an AES-GCM that opens what it seals, adds
-- 16 bytes, and under a Diffie-Hellman that gives both sides one secret: no call throws, each side
-- reads the payloads the other wrote, the initiator sends under the key that the responder
-- receives under and the other way round, the channel binding is one, and each side holds the
-- other's static public key.
pub exchange_lem :
    (suite : Suite) (gi gr si sr : KeyPair) (fi fr : Option KeyPair) (prologue p1 p2 p3 : Bytes)
    → IsGcm suite.gcm
    → KeepsLength suite.gcm
    → Shares suite (choose_ephemeral suite fi gi) (choose_ephemeral suite fr gr)
    → Shares suite (choose_ephemeral suite fi gi) sr
    → Shares suite si (choose_ephemeral suite fr gr)
    → length (choose_ephemeral suite fi gi).public_raw ≡ 32
    → length (choose_ephemeral suite fr gr).public_raw ≡ 32
    → length si.public_raw ≡ 32
    → length sr.public_raw ≡ 32
    → (length p1 ≤ 4000) × (length p2 ≤ 4000) × (length p3 ≤ 4000)
    → (k1 : Bytes) × (k2 : Bytes) × (hash : Bytes) × (exchange suite gi gr p1 p2 p3
          (Handshake.create suite true si prologue fi)
          (Handshake.create suite false sr prologue fr)
        ≡ done (record {
          read = p1 ∷ p2 ∷ p3 ∷ [];
          initiator_keys = some (keys_of k1 k2 hash sr.public_raw);
          responder_keys = some (keys_of k2 k1 hash si.public_raw);
        }))
unfolding exchange
exchange_lem suite gi gr si sr fi fr prologue p1 p2 p3 safe keeps dee des dse bi br bsi bsr short =
    (
      k1 suite safe keeps gi gr si sr fi fr prologue p1 p2 p3 dee des dse,
      k2 suite safe keeps gi gr si sr fi fr prologue p1 p2 p3 dee des dse,
      (t10 suite safe keeps gi gr si sr fi fr prologue p1 p2 p3 dee des dse).h,
      rw
          (
            write_first suite safe keeps gi gr si sr fi fr prologue p1 p2 p3,
            read_first suite safe keeps gi gr si sr fi fr prologue p1 p2 p3 bi short.0,
            write_second suite safe keeps gi gr si sr fi fr prologue p1 p2 p3 dee des dse,
            read_second suite safe keeps gi gr si sr fi fr prologue p1 p2 p3 dee des dse br bsr
                short.1,
            write_third suite safe keeps gi gr si sr fi fr prologue p1 p2 p3 dee des dse,
            read_third suite safe keeps gi gr si sr fi fr prologue p1 p2 p3 dee des dse bsi short.2,
          )
          refl,
    )
