-- ===== src/Net/SecureUdp/Drift.antt =====
-- ts/net/secure-udp.ts: a second handshake of a peer that holds a session.
use toki.Base.{false, none, ℕ, ◌+◌, ◌≤◌, ◌≡◌, some, ◌∷◌, String, arith, ltb}
use toki.JsMap.{get}
use toki.JsMap.Count.{total, total-set}
use toki.Net.Cipher.{Bytes}
use toki.Net.Noise.Handshake.{HandshakeState, TransportPair, done, read_message}
use toki.Net.Noise.Symmetric.{Suite, KeyPair}
use toki.Net.Session
use toki.Net.Session.{NoiseSession}
use toki.Net.SecureUdp.Table.{in_session}
use toki.Net.SecureUdp.{
  Server, Peer, Options, handshake, admit, admit_known, on_joined, on_read, on_handshake,
  on_datagram, complete, establish, trim_sessions,
}

joined_counts :
    (suite : Suite) (options : Options) (now : ℕ) (remote : Bytes) (s : Server)
    → let s' = on_joined suite options now remote s in
      (s'.established ≡ s.established) × (s'.peers ≡ s.peers)
unfolding on_joined
joined_counts suite options now remote s = (ground arith, ground arith)

-- When a peer that holds a session completes another handshake below the cap, `established` goes up
-- by one, and the number of peers with a session stays.
pub established-rehandshake :
    (suite : Suite) (options : Options) (generated : KeyPair) (now seen : ℕ) (key : String)
    (body payload : Bytes) (hs : HandshakeState) (live : NoiseSession) (pair : TransportPair)
    (s : Server)
    → get key s.peers ≡ some (record { hs = some hs; session = some live; last_seen = seen })
    → (read_message suite body hs).1 ≡ done (payload, some pair)
    → s.established + 1 ≤ options.max_sessions
    → let s' = (on_datagram suite options generated now key (handshake ∷ body) s).0 in
      (s'.established ≡ s.established + 1) × (total in_session s'.peers ≡ total in_session s.peers)
unfolding on_datagram on_handshake admit admit_known on_read complete establish trim_sessions
established-rehandshake suite options generated now seen key body payload hs live pair s there read
      room =
    let p : Peer = record { hs = some hs; session = some live; last_seen = seen } in
    let p' : Peer = record { hs = none; session = some (Session.create pair); last_seen = now } in
    let within : ltb options.max_sessions (s.established + 1) ≡ false = ground arith in
    let full = establish suite options key (record p { last_seen = now }) pair s in
    let (count, peers) = joined_counts suite options now (Session.create pair).remote_static full in
    rw (there, read, within, peers)
      (count, omega (arith, total-set in_session key p p' s.peers there))
