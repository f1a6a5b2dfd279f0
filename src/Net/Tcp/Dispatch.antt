-- ===== src/Net/Tcp/Dispatch.antt =====
-- ts/net/tcp.ts, `dispatch` and `connectTcp`: the sockets and the connects in progress, by the number
-- that the native engine gives each. An event comes with what its listeners, or the server's handler,
-- do to the socket; what they do to another socket is an event of its own. A socket that has left the
-- table is followed no further.
pub mod Accounts
use toki.Base.{
  ℕ, ◌==◌, Bool, true, false, Option, none, some, List, [], ◌∷◌, ◌++◌, String, if◌then◌else◌,
}
use toki.NumMap.{NumMap, get, set, delete}
use toki.Net.Tcp.Socket
use toki.Net.Tcp.Socket.{
  Socket, CloseReason, normal, peer_reset, write_queue_overflow, tls_error, handshake_timeout,
  Operation, Listeners, operate_all, operate, emit_data, emit_drain, emit_end, emit_secure,
  emit_close,
}

pub data ConnectErrorReason : Type 0 where
  dns refused timeout tls_verify : ConnectErrorReason

-- `CONNECT_ERRORS[code] ?? "refused"`
unfoldable pub connect_error : ℕ → ConnectErrorReason
connect_error code =
    if code == 1
    then refused
    else if code == 3
    then tls_verify
    else if code == 5
    then dns
    else if code == 6
    then refused
    else if code == 7
    then timeout
    else refused

-- `CLOSE_REASONS[code] ?? "normal"`
unfoldable pub close_reason : ℕ → CloseReason
close_reason code =
    if code == 1
    then peer_reset
    else if code == 2
    then write_queue_overflow
    else if code == 3
    then tls_error
    else if code == 4
    then handshake_timeout
    else normal

pub record PendingConnect : Type 0 where
  pub allow_half_open : Bool
  pub host : String
  pub port : ℕ

-- The variables of the module.
pub record Engine : Type 0 where
  pub sockets : NumMap Socket
  pub pending_connects : NumMap PendingConnect
  pub has_handler : Bool
  pub server_half_open : Bool
  pub server_is_uring : Bool

-- The native event; a close comes with its code.
pub data Ev : Type 0 where
  connection received drain ended secure : Ev
  close : ℕ → Ev

-- A connect that the engine takes, one that resolves or rejects; a connection handed to the server; a
-- socket closed; the effects on a socket.
pub data Effect : Type 0 where
  connecting resolved accepted : ℕ → Effect
  rejected : ℕ → ConnectErrorReason → String → ℕ → Effect
  closed : ℕ → CloseReason → Effect
  on_socket : ℕ → List Socket.Effect → Effect

-- A socket's step, kept in the table.
unfoldable pub keep : ℕ → Socket × List Socket.Effect → Engine → Engine × List Effect
keep id (s, out) g = (record g { sockets = set id s g.sockets }, on_socket id out ∷ [])

-- `sockets.get(id)?.emit…`
unfoldable pub on_live :
    ℕ → (Socket → Socket × List Socket.Effect) → Option Socket → Engine → Engine × List Effect
unfolding keep
on_live id f none g = (g, [])
on_live id f (some s) g = keep id (f s) g

-- `Ev.Connection` on what `pendingConnects.get(id)` gives
unfoldable pub on_connection : ℕ → Listeners → Option PendingConnect → Engine → Engine × List Effect
on_connection id handler (some p) g = (
  record g {
    pending_connects = delete id g.pending_connects;
    sockets = set id (Socket.create p.allow_half_open) g.sockets;
  },
  resolved id ∷ [],
)
on_connection id handler none g =
    if g.has_handler
    then (let (s, out) = operate_all handler.does (Socket.create g.server_half_open) in
        (record g { sockets = set id s g.sockets }, accepted id ∷ on_socket id out ∷ []))
    else (g, [])

-- `Ev.Close` on what `sockets.get(id)` gives
unfoldable pub close_live : ℕ → ℕ → Listeners → Option Socket → Engine → Engine × List Effect
close_live id code listeners none g = (g, [])
close_live id code listeners (some s) g =
    let (s', out) = emit_close (close_reason code) listeners s in
    (
      record g { sockets = delete id g.sockets },
      closed id (close_reason code) ∷ on_socket id out ∷ [],
    )

-- `Ev.Close` on what `pendingConnects.get(id)` gives
unfoldable pub on_close : ℕ → ℕ → Listeners → Option PendingConnect → Engine → Engine × List Effect
on_close id code listeners (some p) g = (
  record g { pending_connects = delete id g.pending_connects },
  rejected id (connect_error code) p.host p.port ∷ [],
)
on_close id code listeners none g = close_live id code listeners (get id g.sockets) g

-- `dispatch`
unfoldable pub dispatch : ℕ → Ev → Listeners → Engine → Engine × List Effect
dispatch id connection listeners g = on_connection id listeners (get id g.pending_connects) g
dispatch id received listeners g = on_live id (emit_data listeners) (get id g.sockets) g
dispatch id drain listeners g = on_live id (emit_drain listeners) (get id g.sockets) g
dispatch id ended listeners g = on_live id (emit_end listeners) (get id g.sockets) g
dispatch id secure listeners g = on_live id (emit_secure listeners) (get id g.sockets) g
dispatch id (close code) listeners g = on_close id code listeners (get id g.pending_connects) g

-- `connectTcp`, with the number that `tcpConnect` gives, 0 when it fails at once; beside an io_uring
-- server it throws
unfoldable pub connect_tcp : ℕ → PendingConnect → Engine → Engine × List Effect
connect_tcp id p g =
    if g.server_is_uring
    then (g, [])
    else if id == 0
    then (g, rejected 0 refused p.host p.port ∷ [])
    else (record g { pending_connects = set id p g.pending_connects }, connecting id ∷ [])

-- A native event, a call of `connectTcp`, or a use of a live socket.
pub data Event : Type 0 where
  native : ℕ → Ev → Listeners → Event
  connects : ℕ → PendingConnect → Event
  uses : ℕ → Operation → Event

unfoldable pub step : Event → Engine → Engine × List Effect
step (native id ev listeners) g = dispatch id ev listeners g
step (connects id p) g = connect_tcp id p g
step (uses id o) g = on_live id (operate o) (get id g.sockets) g

unfoldable pub run : List Event → Engine → Engine × List Effect
run [] g = (g, [])
run (e ∷ es) g = let (g', out) = step e g in let (g'', more) = run es g' in (g'', out ++ more)
