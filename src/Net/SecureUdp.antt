-- ===== src/Net/SecureUdp.antt =====
-- ts/net/secure-udp.ts, `createSecureUdpServer`: the table of peers. A peer is known by its key
-- `address:port`, which an event carries; `now` and the key pair that `generateKeyPair` would give
-- are arguments, and what the server sends or hands to its callbacks are effects. Whether `onSession`
-- throws is told by the time and the client's static key; the socket's `send` does not throw here, and
-- what a callback does is an event after it. The code's `pending` is lowered a second time where
-- `onSession` throws, and may go below 0: it is the difference of the fields `pending`, which is lowered
-- only for a peer that it counts, and `owed`. `established` is lowered only for a peer it counts.
pub mod Table
pub mod Owed
pub mod Peers
pub mod Runs
pub mod Safety
pub mod Client
pub mod Exchange
pub mod Meeting
pub mod Drift
use toki.Base.{
  ℕ, ◌+◌, ◌-◌, ◌==◌, Bool, true, false, not, ◌&&◌, Option, none, some, List, [], ◌∷◌, ◌++◌, String,
  str_eq, ltb, leb, if◌then◌else◌,
}
use toki.JsMap.{JsMap, get, set, delete}
use toki.JsMap.Count.{find_key}
use toki.Net.Cipher.{Bytes}
use toki.Net.Noise.Handshake
use toki.Net.Noise.Handshake.{
  HandshakeState, TransportPair, Outcome, done, thrown, Step, write_message, read_message,
}
use toki.Net.Noise.Symmetric.{Suite, KeyPair}
use toki.Net.Session
use toki.Net.Session.{NoiseSession, seal, open_wire}

abbrev pub handshake : ℕ
handshake = 1

abbrev pub transport : ℕ
transport = 2

pub record Peer : Type 0 where
  pub hs : Option HandshakeState
  pub session : Option NoiseSession
  pub last_seen : ℕ

pub record Options : Type 0 where
  pub static_key : KeyPair
  pub max_pending : ℕ
  pub max_sessions : ℕ
  pub session_ttl : ℕ
  pub on_session_throws : ℕ → Bytes → Bool

pub record Server : Type 0 where
  pub peers : JsMap Peer
  pub pending : ℕ
  pub owed : ℕ
  pub established : ℕ

-- A datagram to a peer, a call of `onSession` with the peer's static key, a call of `onMessage`.
pub data Effect : Type 0 where
  sent : String → Bytes → Effect
  joined : String → Bytes → Effect
  message : String → Bytes → Effect

abbrev pub is_some : {A : Type 0} → Option A → Bool
is_some none = false
is_some (some a) = true

-- One where a field is not null, for counting.
abbrev pub weight : Bool → ℕ
weight true = 1
weight false = 0

-- `createSecureUdpServer`
abbrev pub create : Server
create = record { peers = []; pending = 0; owed = 0; established = 0 }

-- `forget` on the looked-up peer
unfoldable pub forget_found : String → Option Peer → Server → Server
forget_found key none s = s
forget_found key (some p) s = record {
  peers = delete key s.peers;
  pending = s.pending - weight (is_some p.hs);
  owed = s.owed;
  established = s.established - weight (is_some p.session);
}

-- `forget`
unfoldable pub forget : String → Server → Server
forget key s = forget_found key (get key s.peers) s

-- `p.hs !== null && p.session === null`
unfoldable pub half_open : Peer → Bool
half_open p = is_some p.hs && not (is_some p.session)

-- `p.session !== null && p.hs === null`
unfoldable pub idle : Peer → Bool
idle p = is_some p.session && not (is_some p.hs)

unfoldable pub drop_pending : Option String → Server → Server
drop_pending none s = s
drop_pending (some k) s = record s { peers = delete k s.peers; pending = s.pending - 1 }

-- `evictOldestPending`
unfoldable pub evict_oldest_pending : Server → Server
evict_oldest_pending s = drop_pending (find_key (λ k p. half_open p) s.peers) s

unfoldable pub drop_session : Option String → Server → Server
unfolding forget
drop_session none s = s
drop_session (some k) s = forget k s

-- `evictOldestSession`
unfoldable pub evict_oldest_session : String → Server → Server
evict_oldest_session except s =
    drop_session (find_key (λ k p. not (str_eq k except) && idle p) s.peers) s

module _ (suite : Suite) (options : Options) where
  -- `if (pending >= maxPending) evictOldestPending()`
  unfoldable pub make_room : Server → Server
  make_room s = if leb (options.max_pending + s.owed) s.pending then evict_oldest_pending s else s

  -- `new HandshakeState(false, options.staticKey)`
  abbrev pub responder : HandshakeState
  responder = Handshake.create suite false options.static_key [] none

  -- `peer.hs = …` and `peers.set(key, peer)`
  unfoldable pub put : String → Peer → Server → Server
  put key p s = record s { peers = set key p s.peers }

  -- a peer that is known, on its handshake in progress
  unfoldable pub admit_known :
      String → Peer → Option HandshakeState → Server → Server × Peer × HandshakeState
  admit_known key p (some hs) s = (s, p, hs)
  admit_known key p none s =
      let room = make_room s in
      let again = record p { hs = some responder } in
      (record (put key again room) { pending = room.pending + 1 }, again, responder)

  -- the handshake state that the datagram is read with, and the peer
  unfoldable pub admit : ℕ → String → Option Peer → Server → Server × Peer × HandshakeState
  admit now key (some p) s = admit_known key p p.hs s
  admit now key none s =
      let room = make_room s in
      let p : Peer = record { hs = some responder; session = none; last_seen = now } in
      (record (put key p room) { pending = room.pending + 1 }, p, responder)

  unfoldable pub abandon_with : String → Peer → Option NoiseSession → Server → Server
  abandon_with key p none s = record s { peers = delete key s.peers; pending = s.pending - 1 }
  abandon_with key p (some live) s = record s {
    peers = set key (record p { hs = none }) s.peers;
    pending = s.pending - 1;
  }

  -- the `catch`: a session that the peer holds stays
  unfoldable pub abandon : String → Peer → Server → Server
  abandon key p s = abandon_with key p p.session s

  -- the peer and the counters of a finished handshake
  unfoldable pub establish : String → Peer → TransportPair → Server → Server
  establish key p pair s = record {
    peers = set key (record p { hs = none; session = some (Session.create pair) }) s.peers;
    pending = s.pending - 1;
    established = s.established + 1;
    owed = s.owed;
  }

  -- `if (established > maxSessions) evictOldestSession(key)`
  unfoldable pub trim_sessions : String → Server → Server
  trim_sessions key s =
      if ltb options.max_sessions s.established then evict_oldest_session key s else s

  -- the branch of a finished handshake
  unfoldable pub complete : String → Peer → TransportPair → Server → Server
  complete key p pair s = trim_sessions key (establish key p pair s)

  -- `options.onSession?.(…)`: where it throws, the `catch` finds a session and lowers `pending` again
  unfoldable pub on_joined : ℕ → Bytes → Server → Server
  on_joined now remote s =
      if options.on_session_throws now remote then record s { owed = s.owed + 1 } else s

  -- after `writeMessage`
  unfoldable pub on_written :
      String → Peer → Step (Bytes × Option TransportPair) → Server → Server × List Effect
  on_written key p (hs, done (msg, pair)) s =
      (put key (record p { hs = some hs }) s, sent key (handshake ∷ msg) ∷ [])
  on_written key p (hs, thrown x) s = (abandon key p s, [])

  -- after `readMessage`
  unfoldable pub on_read :
      KeyPair
      → ℕ
      → String
      → Peer
      → Step (Bytes × Option TransportPair)
      → Server
      → Server × List Effect
  on_read generated now key p (hs, thrown x) s = (abandon key p s, [])
  on_read generated now key p (hs, done (payload, some pair)) s = (
    on_joined now (Session.create pair).remote_static
        (complete key (record p { last_seen = now }) pair s),
    joined key (Session.create pair).remote_static ∷ [],
  )
  on_read generated now key p (hs, done (payload, none)) s =
      on_written key (record p { last_seen = now }) (write_message suite generated [] hs) s

  -- the branch of `onDatagram` for a handshake datagram
  unfoldable pub on_handshake : KeyPair → ℕ → String → Bytes → Server → Server × List Effect
  on_handshake generated now key body s =
      let (s', p, hs) = admit now key (get key s.peers) s in
      on_read generated now key p (read_message suite body hs) s'

  -- after `peer.session.open(body)`
  unfoldable pub on_opened :
      ℕ → String → Peer → NoiseSession × Option Bytes → Server → Server × List Effect
  on_opened now key p (live, none) s = (put key (record p { session = some live }) s, [])
  on_opened now key p (live, some plain) s =
      (put key (record p { session = some live; last_seen = now }) s, message key plain ∷ [])

  unfoldable pub open_with :
      ℕ → String → Bytes → Peer → Option NoiseSession → Server → Server × List Effect
  open_with now key body p none s = (s, [])
  open_with now key body p (some live) s = on_opened now key p (open_wire suite.gcm body live) s

  unfoldable pub open_by : ℕ → String → Bytes → Option Peer → Server → Server × List Effect
  open_by now key body none s = (s, [])
  open_by now key body (some p) s = open_with now key body p p.session s

  -- the branch of `onDatagram` for a transport datagram
  unfoldable pub on_transport : ℕ → String → Bytes → Server → Server × List Effect
  on_transport now key body s = open_by now key body (get key s.peers) s

  -- `onDatagram`
  unfoldable pub on_datagram : KeyPair → ℕ → String → Bytes → Server → Server × List Effect
  on_datagram generated now key [] s = (s, [])
  on_datagram generated now key (type ∷ body) s =
      if type == handshake
      then on_handshake generated now key body s
      else (if type == transport then on_transport now key body s else (s, []))

  -- after `seal`; `none` is its exception
  unfoldable pub on_sealed : String → Peer → NoiseSession × Option Bytes → Peer × List Effect
  on_sealed key p (live, none) = (record p { session = some live }, [])
  on_sealed key p (live, some wire) =
      (record p { session = some live }, sent key (transport ∷ wire) ∷ [])

  unfoldable pub send_with : String → Bytes → Peer → Option NoiseSession → Peer × List Effect
  send_with key plain p none = (p, [])
  send_with key plain p (some live) = on_sealed key p (seal suite.gcm plain live)

  -- `SecureSession.send`, on the peer that the session was made for
  unfoldable pub session_send : String → Bytes → Peer → Peer × List Effect
  session_send key plain p = send_with key plain p p.session

  -- the loop of the sweep's interval over the entries it started with: `lastSeen < now - ttl`
  unfoldable pub sweep_over : ℕ → JsMap Peer → Server → Server
  sweep_over now [] s = s
  sweep_over now ((k, p) ∷ rest) s =
      sweep_over now rest (if ltb (p.last_seen + options.session_ttl) now then forget k s else s)

  -- the sweep's interval
  unfoldable pub sweep : ℕ → Server → Server
  sweep now s = sweep_over now s.peers s

-- `close`
unfoldable pub close : Server → Server
close s = record { peers = []; pending = 0; owed = 0; established = 0 }

-- What happens to a server: a datagram arrives (with the key pair that would be generated, the time
-- and the sender), a session in the table sends or is closed, the interval fires, the server closes.
pub data Event : Type 0 where
  datagram : KeyPair → ℕ → String → Bytes → Event
  sends : String → Bytes → Event
  leaves : String → Event
  sweeps : ℕ → Event
  closes : Event

module _ (suite : Suite) (options : Options) where
  unfoldable pub send_from : String → Bytes → Option Peer → Server → Server × List Effect
  send_from key plain none s = (s, [])
  send_from key plain (some p) s =
      let (p', effects) = session_send suite options key plain p in
      (put suite options key p' s, effects)

  unfoldable pub step : Event → Server → Server × List Effect
  step (datagram generated now key bytes) s = on_datagram suite options generated now key bytes s
  step (sends key plain) s = send_from key plain (get key s.peers) s
  step (leaves key) s = (forget key s, [])
  step (sweeps now) s = (sweep suite options now s, [])
  step closes s = (close s, [])

  unfoldable pub run : List Event → Server → Server × List Effect
  run [] s = (s, [])
  run (e ∷ es) s = let (s', out) = step e s in let (s'', more) = run es s' in (s'', out ++ more)
