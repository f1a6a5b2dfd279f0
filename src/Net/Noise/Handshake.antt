-- ===== src/Net/Noise/Handshake.antt =====
-- ts/net/noise/handshake-state.ts: the XX pattern. A call that throws leaves behind the state it had
-- reached, so each operation gives the state and an outcome.

pub mod Sealing
pub mod Messages
pub mod Agreement
use toki.Base.{
  ℕ, ◌+◌, Bool, true, false, Option, none, some, List, [], ◌∷◌, ◌++◌, length, take, drop, get_elem?,
  ltb, leb, if◌then◌else◌,
}
use toki.Base.Text.{codes}
use toki.Net.Cipher.{Bytes, CipherState, CipherError, Result, ok, err}
use toki.Net.Noise.Symmetric
use toki.Net.Noise.Symmetric.{
  Suite, KeyPair, SymmetricState, dhlen, zeros, mix_key, mix_hash, encrypt_and_hash,
  decrypt_and_hash, split, dh, has_key,
}

pub data Token : Type 0 where
  e s ee es se ss : Token

abbrev pub xx : List (List Token)
xx = (e ∷ []) ∷ (e ∷ ee ∷ s ∷ es ∷ []) ∷ (s ∷ se ∷ []) ∷ []

abbrev pub protocol_name : Bytes
protocol_name = codes "Noise_XX_25519_AESGCM_SHA256"

abbrev pub taglen : ℕ
taglen = 16

abbrev pub max_message : ℕ
max_message = 4096

pub record TransportPair : Type 0 where
  pub send : CipherState
  pub recv : CipherState
  pub handshake_hash : Bytes
  pub remote_static : Bytes

pub record HandshakeState : Type 0 where
  pub symmetric : SymmetricState
  pub initiator : Bool
  pub static_key : KeyPair
  pub ephemeral : Option KeyPair
  pub remote_static : Option Bytes
  pub remote_ephemeral : Option Bytes
  pub step : ℕ
  pub fixed_ephemeral : Option KeyPair

-- What a call throws; `bad_key` stands for a key that is missing or that node:crypto refuses.
pub data HandshakeError : Type 0 where
  already_complete too_large short_message bad_key : HandshakeError
  in_cipher : CipherError → HandshakeError

pub data Outcome (A : Type 0) : Type 0 where
  done : A → Outcome A
  thrown : HandshakeError → Outcome A

abbrev pub Step : Type 0 → Type 0
Step A = HandshakeState × Outcome A

-- Going on after a statement that may throw.
unfoldable pub and_then : {A B : Type 0} → Step A → (HandshakeState → A → Step B) → Step B
and_then (st, done a) f = f st a
and_then (st, thrown x) f = (st, thrown x)

module _ (suite : Suite) where
  unfoldable pub create : Bool → KeyPair → Bytes → Option KeyPair → HandshakeState
  create initiator static_key prologue fixed_ephemeral = record {
    symmetric = mix_hash suite prologue (Symmetric.create suite protocol_name);
    initiator = initiator;
    static_key = static_key;
    ephemeral = none;
    remote_static = none;
    remote_ephemeral = none;
    step = 0;
    fixed_ephemeral = fixed_ephemeral;
  }

  -- a call of the symmetric state that gives bytes
  unfoldable pub in_symmetric : HandshakeState → SymmetricState × Result Bytes → Step Bytes
  in_symmetric st (sym, ok out) = (record st { symmetric = sym }, done out)
  in_symmetric st (sym, err x) = (record st { symmetric = sym }, thrown (in_cipher x))

  -- `dh(own!.privateKey, peer!)`
  unfoldable pub dh_of : Option KeyPair → Option Bytes → Option Bytes
  dh_of (some own) (some peer) = dh suite own.private_key peer
  dh_of none peer = none
  dh_of (some own) none = none

  -- the `switch` of `#mixDh`
  unfoldable pub secret_of : Token → HandshakeState → Option Bytes
  secret_of ee st = dh_of st.ephemeral st.remote_ephemeral
  secret_of ss st = dh_of (some st.static_key) st.remote_static
  secret_of es st =
      if st.initiator
      then dh_of st.ephemeral st.remote_static
      else dh_of (some st.static_key) st.remote_ephemeral
  secret_of se st =
      if st.initiator
      then dh_of (some st.static_key) st.remote_ephemeral
      else dh_of st.ephemeral st.remote_static
  secret_of _ st = none

  unfoldable pub mix_secret : HandshakeState → Option Bytes → Step Unit
  mix_secret st none = (st, thrown bad_key)
  mix_secret st (some secret) =
      (record st { symmetric = mix_key suite secret st.symmetric }, done tt)

  -- `#mixDh`
  unfoldable pub mix_dh : Token → HandshakeState → Step Unit
  mix_dh token st = mix_secret st (secret_of token st)

  -- `this.#fixedEphemeral ?? generateKeyPair()`
  unfoldable pub choose_ephemeral : Option KeyPair → KeyPair → KeyPair
  choose_ephemeral (some own) generated = own
  choose_ephemeral none generated = generated

  -- the body of the loop of `writeMessage`; `generated` is what `generateKeyPair` would give
  unfoldable pub write_token : KeyPair → Token → Bytes → HandshakeState → Step Bytes
  write_token generated e parts st =
      let own = choose_ephemeral st.fixed_ephemeral generated in
      (
        record st { ephemeral = some own; symmetric = mix_hash suite own.public_raw st.symmetric },
        done (parts ++ own.public_raw),
      )
  write_token generated s parts st =
      and_then (in_symmetric st (encrypt_and_hash suite st.static_key.public_raw st.symmetric))
        (λ st' ct. (st', done (parts ++ ct)))
  write_token generated token parts st = and_then (mix_dh token st) (λ st' u. (st', done parts))

  unfoldable pub write_tokens : KeyPair → List Token → Bytes → HandshakeState → Step Bytes
  write_tokens generated [] parts st = (st, done parts)
  write_tokens generated (t ∷ ts) parts st =
      and_then (write_token generated t parts st) (λ st' more. write_tokens generated ts more st')

  -- `this.#rs?.fill(0)`
  unfoldable pub wipe : Option Bytes → Option Bytes
  wipe none = none
  wipe (some b) = some (zeros (length b))

  unfoldable pub finish_with : HandshakeState → Option Bytes → Step TransportPair
  finish_with st none = (st, thrown bad_key)
  finish_with st (some remote) =
      let (c1, c2) = split suite st.symmetric in
      (
        record st {
          ephemeral = none;
          remote_ephemeral = wipe st.remote_ephemeral;
          remote_static = wipe st.remote_static;
        },
        done (record {
          send = if st.initiator then c1 else c2;
          recv = if st.initiator then c2 else c1;
          handshake_hash = st.symmetric.h;
          remote_static = remote;
        }),
      )

  -- `#finish`
  unfoldable pub finish : HandshakeState → Step TransportPair
  finish st = finish_with st st.remote_static

  -- `this.done`
  abbrev pub is_done : HandshakeState → Bool
  is_done st = leb (length xx) st.step

  -- the end of `writeMessage` and of `readMessage`: the next step, and the keys after the last
  unfoldable pub advance : HandshakeState → Bytes → Step (Bytes × Option TransportPair)
  advance st out =
      let st' = record st { step = st.step + 1 } in
      if is_done st'
      then and_then (finish st') (λ st'' t. (st'', done (out, some t)))
      else (st', done (out, none))

  unfoldable pub write_message :
      KeyPair → Bytes → HandshakeState → Step (Bytes × Option TransportPair)
  write_message generated payload st = elim (get_elem? xx st.step) [
    | none ↦ (st, thrown already_complete)
    | some pattern ↦ and_then (write_tokens generated pattern [] st) (λ st' parts.
        and_then (in_symmetric st' (encrypt_and_hash suite payload st'.symmetric))
          (λ st'' ct. advance st'' (parts ++ ct)))
  ]

  -- the branch of `readMessage` for a static key of `len` bytes on the wire
  unfoldable pub read_static : ℕ → Bytes → HandshakeState → Step Bytes
  read_static len buf st =
      if ltb (length buf) len
      then (st, thrown short_message)
      else and_then (in_symmetric st (decrypt_and_hash suite (take len buf) st.symmetric))
          (λ st' rs. (record st' { remote_static = some rs }, done (drop len buf)))

  -- the body of the loop of `readMessage`
  unfoldable pub read_token : Token → Bytes → HandshakeState → Step Bytes
  read_token e buf st = if ltb (length buf) dhlen then (st, thrown short_message) else (
    record st {
      remote_ephemeral = some (take dhlen buf);
      symmetric = mix_hash suite (take dhlen buf) st.symmetric;
    },
    done (drop dhlen buf),
  )
  read_token s buf st = read_static (if has_key st.symmetric then dhlen + taglen else dhlen) buf st
  read_token token buf st = and_then (mix_dh token st) (λ st' u. (st', done buf))

  unfoldable pub read_tokens : List Token → Bytes → HandshakeState → Step Bytes
  read_tokens [] buf st = (st, done buf)
  read_tokens (t ∷ ts) buf st = and_then (read_token t buf st) (λ st' rest. read_tokens ts rest st')

  unfoldable pub read_message : Bytes → HandshakeState → Step (Bytes × Option TransportPair)
  read_message message st = elim (get_elem? xx st.step) [
    | none ↦ (st, thrown already_complete)
    | some pattern ↦
        if ltb max_message (length message)
        then (st, thrown too_large)
        else and_then (read_tokens pattern message st) (λ st' buf.
          and_then (in_symmetric st' (decrypt_and_hash suite buf st'.symmetric))
            (λ st'' payload. advance st'' payload))
  ]
