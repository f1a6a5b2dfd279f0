-- ===== src/Tests/Tcp.antt =====
-- ts/net/tcp.ts.
use toki.Base.{◌≡◌, refl, true, false, none, some, [], ◌∷◌, List, arith, length, all, map}
use toki.Base.Text.{codes}
use toki.NumMap
use toki.Net.Cipher.{Bytes}
use toki.Net.Tcp.Socket
use toki.Net.Tcp.Socket.{
  Socket, Operation, writes, ends, destroys, upgrades, Event, data_in, drained, peer_ended, secured,
  closed, used, returning, send, finish, send_gone,
}
use toki.Net.Tcp.Socket.Calls.{orderly, run-orderly}
use toki.Net.Tcp.Socket.AutoEnd.{Answered, run-Answered}
use toki.Net.Tcp.Socket.Upgrade.{Balanced, run-Balanced}
use toki.Net.Tcp.Dispatch
use toki.Net.Tcp.Dispatch.{Engine, PendingConnect}
use toki.Net.Tcp.Dispatch.Accounts.{Accounted, Fresh, run-Accounted}
use toki.Net.Tcp.Server
use toki.Net.Tcp.Server.{Process, creates, listens, closes}
use toki.Net.Tcp.Server.Owner.{Owned, run-Owned}
use toki.Net.Tcp.Options.{encode_alpn}
use toki.Net.Tcp.Options.Alpn.{decode, in_range, decode-encode_alpn}

-- An echo, a backed-up write, the peer's end, a drain, a late write, and the close.
abbrev events : List Event
events =
    data_in (returning (writes (1 ∷ []) 0 ∷ upgrades true ∷ []))
    ∷ data_in (record { does = writes (2 ∷ []) 7 ∷ []; throws = true })
    ∷ peer_ended (returning [])
    ∷ drained (returning [])
    ∷ used (writes (3 ∷ []) 0)
    ∷ used destroys
    ∷ closed Socket.normal (returning (destroys ∷ []))
    ∷ []

-- The peer's end waits for the drain, and what comes after the end does nothing.
life :
    (Socket.run events (Socket.create false)).1
    ≡ send (1 ∷ []) ∷ Socket.upgrade_started ∷ send (2 ∷ []) ∷ finish ∷ Socket.upgrade_rejected ∷ []
unfolding Socket.run Socket.create Socket.step Socket.and_then Socket.emit_data Socket.emit_end
    Socket.fire Socket.emit_drain Socket.emit_close Socket.settle Socket.operate_all Socket.operate
    Socket.write Socket.on_backlog Socket.end Socket.write_last Socket.destroy Socket.upgrade_tls
    Socket.maybe_auto_end
life = refl

run-orderly_example : orderly false (Socket.run events (Socket.create false)).1 ≡ true
unfolding Socket.create
run-orderly_example = run-orderly events (Socket.create false)

-- A listener of the peer's end that throws leaves the socket neither ended nor waiting.
thrown_away :
    let s =
      (Socket.run
        (peer_ended (record { does = []; throws = true }) ∷ [])
        (Socket.create false)).0 in
    (s.read_ended ≡ true) × (s.ended ≡ false) × (s.need_drain ≡ false)
unfolding Socket.run Socket.create Socket.step Socket.and_then Socket.emit_end Socket.fire
    Socket.operate_all
thrown_away = (refl, refl, refl)

run-Answered_example : Answered (Socket.run events (Socket.create false)).0
unfolding Socket.create
run-Answered_example =
    run-Answered events (Socket.create false) (tt, (tt, (refl, (refl, (tt, (tt, (tt, tt))))))) refl

run-Balanced_example : Balanced (Socket.create false) (Socket.run events (Socket.create false))
run-Balanced_example = run-Balanced events (Socket.create false)

abbrev engine : Engine
engine = record {
  sockets = [];
  pending_connects = [];
  has_handler = true;
  server_half_open = false;
  server_is_uring = false;
}

abbrev target : PendingConnect
target = record { allow_half_open = false; host = "h"; port = 80 }

-- Two connects, of which one comes up, and a connection for the server.
abbrev traffic : List Dispatch.Event
traffic =
    Dispatch.connects 4 target
    ∷ Dispatch.connects 5 target
    ∷ Dispatch.native 4 Dispatch.connection (returning [])
    ∷ Dispatch.native 6 Dispatch.connection (returning (writes (1 ∷ []) 0 ∷ []))
    ∷ Dispatch.native 5 (Dispatch.close 7) (returning [])
    ∷ Dispatch.native 4 (Dispatch.close 1) (returning [])
    ∷ []

traffic-Fresh : Fresh traffic engine
unfolding Dispatch.step Dispatch.connect_tcp Dispatch.dispatch Dispatch.on_connection NumMap.get
    NumMap.set NumMap.delete
traffic-Fresh = (refl, (refl, (refl, (refl, (tt, (tt, tt))))))

run-Accounted_example :
    Accounted 4 engine (Dispatch.run traffic engine).0 (Dispatch.run traffic engine).1
run-Accounted_example = run-Accounted 4 traffic engine (omega arith) traffic-Fresh

abbrev process : Process
process = record { globals = Server.initial; servers = [] }

run-Owned_example : Owned (
    Server.run
      (creates false false
        ∷ creates true false
        ∷ listens 0 (some 80)
        ∷ listens 1 (some 81)
        ∷ closes 0
        ∷ listens 1 none
        ∷ [])
      process)
run-Owned_example =
    run-Owned
      (creates false false
        ∷ creates true false
        ∷ listens 0 (some 80)
        ∷ listens 1 (some 81)
        ∷ closes 0
        ∷ listens 1 none
        ∷ [])
      process (record { one = refl; handled = refl; uring = refl })

decode-encode_alpn_example :
    (all in_range (map codes ("h2" ∷ "http/1.1" ∷ [])) ≡ true
      → (w : Bytes) × (encode_alpn codes ("h2" ∷ "http/1.1" ∷ []) ≡ some w)
        × (decode (length w) w ≡ some (map codes ("h2" ∷ "http/1.1" ∷ []))))
    × (all in_range (map codes ("h2" ∷ "http/1.1" ∷ [])) ≡ false
        → encode_alpn codes ("h2" ∷ "http/1.1" ∷ []) ≡ none)
decode-encode_alpn_example = decode-encode_alpn codes ("h2" ∷ "http/1.1" ∷ [])
