-- ===== src/Net/SecureUdp/Client.antt =====
-- ts/net/secure-udp.ts, `connectSecureUdp`: the client's side. The socket delivers nothing after it is
-- closed, and its timers are cleared once there is a session.
use toki.Base.{
  ℕ, ◌==◌, Bool, true, false, ◌&&◌, Option, none, some, List, [], ◌∷◌, if◌then◌else◌, not,
}
use toki.Net.Cipher.{Bytes}
use toki.Net.Noise.Handshake
use toki.Net.Noise.Handshake.{
  HandshakeState, TransportPair, Outcome, done, thrown, Step, write_message, read_message,
}
use toki.Net.Noise.Symmetric.{Suite, KeyPair}
use toki.Net.Session
use toki.Net.Session.{NoiseSession, seal, open_wire}
use toki.Net.SecureUdp.{handshake, transport, is_some}

pub record Client : Type 0 where
  pub hs : HandshakeState
  pub first_message : Bytes
  pub session : Option NoiseSession
  pub is_open : Bool

-- A datagram to the server; the promise resolves, to a session with the server's static key, or
-- rejects; a plaintext for the listeners.
pub data Effect : Type 0 where
  sent : Bytes → Effect
  resolved : Bytes → Effect
  rejected : Effect
  received : Bytes → Effect

module _ (suite : Suite) where
  unfoldable pub on_first : Step (Bytes × Option TransportPair) → Option Client × List Effect
  on_first (hs, thrown x) = (none, rejected ∷ [])
  on_first (hs, done (msg, pair)) = (
    some (record { hs = hs; first_message = msg; session = none; is_open = true }),
    sent (handshake ∷ msg) ∷ [],
  )

  -- `connectSecureUdp`, up to its first datagram
  unfoldable pub connect : KeyPair → KeyPair → Option Client × List Effect
  connect generated static_key =
      on_first (write_message suite generated [] (Handshake.create suite true static_key [] none))

  -- the interval
  unfoldable pub retransmit : Client → List Effect
  retransmit c =
      if c.is_open && not (is_some c.session) then sent (handshake ∷ c.first_message) ∷ [] else []

  -- the timeout
  unfoldable pub time_out : Client → Client × List Effect
  time_out c =
      if c.is_open && not (is_some c.session)
      then (record c { is_open = false }, rejected ∷ [])
      else (c, [])

  -- the socket's error; a promise that resolved ignores the rejection
  unfoldable pub on_error : Client → Client × List Effect
  on_error c = (record c { is_open = false }, (if is_some c.session then [] else rejected ∷ []))

  -- after the third message is written
  unfoldable pub on_third : Client → Step (Bytes × Option TransportPair) → Client × List Effect
  on_third c (hs, thrown x) = (record c { hs = hs }, [])
  on_third c (hs, done (msg, none)) = (record c { hs = hs }, sent (handshake ∷ msg) ∷ [])
  on_third c (hs, done (msg, some pair)) = (
    record c { hs = hs; session = some (Session.create pair) },
    sent (handshake ∷ msg) ∷ resolved (Session.create pair).remote_static ∷ [],
  )

  -- after the second message is read
  unfoldable pub on_second :
      KeyPair → Client → Step (Bytes × Option TransportPair) → Client × List Effect
  on_second generated c (hs, thrown x) = (record c { hs = hs }, [])
  on_second generated c (hs, done q) = on_third c (write_message suite generated [] hs)

  unfoldable pub on_opened : Client → NoiseSession × Option Bytes → Client × List Effect
  on_opened c (live, none) = (record c { session = some live }, [])
  on_opened c (live, some plain) = (record c { session = some live }, received plain ∷ [])

  unfoldable pub on_message_in :
      KeyPair → ℕ → Bytes → Option NoiseSession → Client → Client × List Effect
  on_message_in generated type body none c =
      if type == handshake then on_second generated c (read_message suite body c.hs) else (c, [])
  on_message_in generated type body (some live) c =
      if type == transport then on_opened c (open_wire suite.gcm body live) else (c, [])

  -- the listener of the socket's `message`
  unfoldable pub on_message : KeyPair → Bytes → Client → Client × List Effect
  on_message generated [] c = (c, [])
  on_message generated (type ∷ body) c = on_message_in generated type body c.session c

  unfoldable pub on_sealed : Client → NoiseSession × Option Bytes → Client × List Effect
  on_sealed c (live, none) = (record c { session = some live }, [])
  on_sealed c (live, some wire) = (record c { session = some live }, sent (transport ∷ wire) ∷ [])

  -- `send` of the session that the promise resolved to
  unfoldable pub send : Bytes → NoiseSession → Client → Client × List Effect
  send plain live c = on_sealed c (seal suite.gcm plain live)
