-- ===== src/Tests/SecureUdp.antt =====
-- ts/net/secure-udp.ts.
use toki.Base.{◌≤◌, ◌+◌, ℕ, ◌≡◌, refl, none, some, [], ◌∷◌, arith, List, true, String, ltb}
use toki.JsMap.{delete, set, has, get}
use toki.Net.Cipher.{Bytes}
use toki.JsMap.Count.{total, find_key}
use toki.Net.Noise.Handshake
use toki.Net.Noise.Handshake.{HandshakeState, TransportPair}
use toki.Net.Noise.Handshake.Messages.{m3, r2, read_third, keys_of}
use toki.Net.Noise.Symmetric.{KeyPair, zeros}
use toki.Net.Session
use toki.Net.Session.{NoiseSession}
use toki.Net.SecureUdp
use toki.Net.SecureUdp.Safety
use toki.Net.SecureUdp.{
  Server, Peer, Options, Event, Effect, datagram, sends, leaves, sweeps, closes, run, handshake,
  transport, joined, message,
}
use toki.Net.SecureUdp.Table.{Counted, in_session}
use toki.Net.SecureUdp.Owed.{joins}
use toki.Net.SecureUdp.Runs.{run-Counted}
use toki.Net.SecureUdp.Safety.{session_at, session_at-run-greetings, greetings}
use toki.Net.SecureUdp.Client
use toki.Net.SecureUdp.Client.{Client}
use toki.Net.SecureUdp.Meeting.{meet, meet_lem, to_server}
use toki.Net.SecureUdp.Drift.{established-rehandshake}
use toki.Tests.Handshake.{open_suite, open_gcm-IsGcm, open_gcm-KeepsLength, pair_of, shares}

abbrev options : Options
options = record {
  static_key = pair_of 4;
  max_pending = 1;
  max_sessions = 2;
  session_ttl = 100;
  on_session_throws = λ now remote. ltb 8 now;
}

create-Counted : Counted 1 SecureUdp.create
unfolding total
create-Counted = record {
  distinct = tt;
  pending = refl;
  established = omega arith;
  half_open = omega arith;
  occupied = refl;
}

-- A malformed datagram, a first message, a second peer at the cap, a sweep, and a closed session.
abbrev events : List Event
events =
    datagram (pair_of 7) 5 "a:1" (handshake ∷ 3 ∷ [])
    ∷ datagram (pair_of 7) 6 "a:1" (handshake ∷ zeros 48)
    ∷ datagram (pair_of 7) 7 "b:1" (handshake ∷ zeros 48)
    ∷ sweeps 8
    ∷ leaves "b:1"
    ∷ []

run-Counted_example :
    Counted 1 (run open_suite options events SecureUdp.create).0
    × ((run open_suite options events SecureUdp.create).0.owed
        ≤ SecureUdp.create.owed + joins (run open_suite options events SecureUdp.create).1)
run-Counted_example = run-Counted open_suite options events SecureUdp.create create-Counted

abbrev live : NoiseSession
live = Session.create (keys_of [] [] [] [])

abbrev one_session : Server
one_session = record {
  peers = ("a:1", record { hs = none; session = some live; last_seen = 1 }) ∷ [];
  pending = 0;
  owed = 0;
  established = 1;
}

one_session-Counted : Counted 1 one_session
unfolding total has SecureUdp.half_open
one_session-Counted = record {
  distinct = (refl, tt);
  pending = refl;
  established = omega arith;
  half_open = omega arith;
  occupied = refl;
}

-- Two malformed messages, to a peer with a session and to a new one.
abbrev malformed : List (KeyPair × ℕ × String × Bytes)
malformed = (pair_of 7, 5, "a:1", 3 ∷ []) ∷ (pair_of 7, 6, "b:1", []) ∷ []

quiet : Safety.nobody_joined (run open_suite options (greetings malformed) one_session).1 ≡ true
unfolding Safety.nobody_joined run SecureUdp.step SecureUdp.on_datagram SecureUdp.on_handshake
    SecureUdp.on_read Handshake.read_message SecureUdp.admit get SecureUdp.admit_known
    Handshake.create Handshake.and_then Handshake.read_tokens Handshake.read_token SecureUdp.abandon
    SecureUdp.abandon_with set SecureUdp.make_room SecureUdp.evict_oldest_pending
    SecureUdp.drop_pending find_key SecureUdp.put delete SecureUdp.half_open
quiet = refl

session_at-run-greetings_example :
    session_at "a:1" (run open_suite options (greetings malformed) one_session).0
    ≡ session_at "a:1" one_session
session_at-run-greetings_example =
    session_at-run-greetings open_suite options "a:1" malformed one_session one_session-Counted
      quiet

meet_lem_example :
    (third : Bytes) × (c : Client) × (s' : Server) × (at_server : NoiseSession) × (meet open_suite
        options
        (pair_of 1)
        (pair_of 2)
        (pair_of 3)
        10
        "c:1"
        one_session
      ≡ some (
        c,
        s',
        Client.Effect.sent (handshake ∷ third) ∷ Client.Effect.resolved (pair_of 4).public_raw ∷ [],
        joined "c:1" (pair_of 3).public_raw ∷ [],
      ))
    × (c.session ≡ some at_server)
    × ((plain : Bytes) (later : ℕ)
        → (to_server open_suite options
            (pair_of 2)
            later
            "c:1"
            (Client.send open_suite plain at_server c).1
            s').1
          ≡ message "c:1" plain ∷ [])
unfolding zeros get
meet_lem_example =
    meet_lem open_suite options (pair_of 1) (pair_of 2) (pair_of 3) 10 "c:1" one_session refl
      one_session-Counted open_gcm-IsGcm open_gcm-KeepsLength (shares 1 2) (shares 1 4) (shares 3 2)
      refl refl refl refl

-- The responder of that handshake, with a session from before, and the last message.
abbrev waiting : HandshakeState
unfolding Handshake.choose_ephemeral
waiting =
    r2 open_suite open_gcm-IsGcm open_gcm-KeepsLength (pair_of 1) (pair_of 2) (pair_of 3)
      (pair_of 4) none none [] [] [] [] (shares 1 2) (shares 1 4) (shares 3 2)

abbrev last_message : Bytes
unfolding Handshake.choose_ephemeral
last_message =
    m3 open_suite open_gcm-IsGcm open_gcm-KeepsLength (pair_of 1) (pair_of 2) (pair_of 3)
      (pair_of 4) none none [] [] [] [] (shares 1 2) (shares 1 4) (shares 3 2)

abbrev again : Server
unfolding Handshake.choose_ephemeral
again = record {
  peers = ("c:1", record { hs = some waiting; session = some live; last_seen = 1 }) ∷ [];
  pending = 1;
  owed = 0;
  established = 1;
}

established-rehandshake_example :
    let s' =
      (SecureUdp.on_datagram open_suite options
        (pair_of 2)
        12
        "c:1"
        (handshake ∷ last_message)
        again).0 in
    (s'.established ≡ 2) × (total in_session s'.peers ≡ total in_session again.peers)
unfolding Handshake.choose_ephemeral zeros get
established-rehandshake_example =
    established-rehandshake open_suite options (pair_of 2) 12 1 "c:1" last_message [] waiting live _
      again refl
      (read_third open_suite open_gcm-IsGcm open_gcm-KeepsLength (pair_of 1) (pair_of 2) (pair_of 3)
        (pair_of 4) none none [] [] [] [] (shares 1 2) (shares 1 4) (shares 3 2) refl (omega arith))
      (omega arith)
