-- ===== src/Tests/Handshake.antt =====
-- ts/net/noise.
use toki.Base.{ℕ, ◌+◌, ◌≡◌, refl, none, some, [], ◌∷◌, ◌++◌, arith, true, false}
use toki.Net.Cipher.{Bytes, Gcm, IsGcm}
use toki.Net.Noise.Symmetric.{Suite, KeyPair, zeros, dh}
use toki.Net.Noise.Handshake
use toki.Net.Noise.Handshake.{Outcome, done, choose_ephemeral}
use toki.Net.Noise.Handshake.Agreement.{exchange, exchange_lem}
use toki.Net.Noise.Handshake.Messages.{Shares, keys_of}
use toki.Net.Noise.Handshake.Sealing.{KeepsLength}

-- A suite with no secrecy that meets what the code relies on: keys add up.
abbrev pub added : Bytes → Bytes → Bytes
added [] bs = []
added (a ∷ rest) [] = []
added (a ∷ rest) (b ∷ bs) = (a + b) ∷ added rest bs

abbrev pub open_gcm : Gcm
open_gcm = record {
  encipher = λ key nonce ad plain. (plain, zeros 16);
  decipher = λ key nonce ad body tag. some body;
}

abbrev pub open_suite : Suite
open_suite = record {
  gcm = open_gcm;
  digest = λ bytes. bytes;
  hkdf_sync = λ ikm salt size. ikm ++ salt;
  diffie_hellman = λ own peer. some (added own peer);
}

pub open_gcm-IsGcm : IsGcm open_gcm
unfolding zeros
open_gcm-IsGcm = record {
  tag_bytes = λ key nonce ad plain. refl;
  genuine = λ key nonce ad plain. refl;
}

pub open_gcm-KeepsLength : KeepsLength open_gcm
open_gcm-KeepsLength key nonce ad plain = refl

abbrev pub pair_of : ℕ → KeyPair
pair_of n = record { private_key = n ∷ zeros 31; public_raw = n ∷ zeros 31 }

module _ (m n : ℕ) where
  pub shares : Shares open_suite (pair_of m) (pair_of n)
  unfolding dh zeros choose_ephemeral
  shares = record { secret = (m + n) ∷ zeros 31; ours = refl; theirs = ground arith }

exchange_lem_example :
    (k1 : Bytes) × (k2 : Bytes) × (hash : Bytes) × (exchange open_suite
        (pair_of 1)
        (pair_of 2)
        (65 ∷ [])
        []
        (66 ∷ 67 ∷ [])
        (Handshake.create open_suite true (pair_of 3) (9 ∷ []) none)
        (Handshake.create open_suite false (pair_of 4) (9 ∷ []) (some (pair_of 5)))
      ≡ done (record {
        read = (65 ∷ []) ∷ [] ∷ (66 ∷ 67 ∷ []) ∷ [];
        initiator_keys = some (keys_of k1 k2 hash (pair_of 4).public_raw);
        responder_keys = some (keys_of k2 k1 hash (pair_of 3).public_raw);
      }))
unfolding choose_ephemeral zeros
exchange_lem_example =
    exchange_lem open_suite (pair_of 1) (pair_of 2) (pair_of 3) (pair_of 4) none (some (pair_of 5))
      (9 ∷ []) (65 ∷ []) [] (66 ∷ 67 ∷ []) open_gcm-IsGcm open_gcm-KeepsLength (shares 1 5)
      (shares 1 4) (shares 3 5) refl refl refl refl (omega arith, omega arith, omega arith)
