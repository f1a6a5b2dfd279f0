-- ===== src/Net/Tcp/Socket.antt =====
-- ts/net/tcp.ts, class `Socket`: the state of one connection. The native engine is outside: what it is
-- called with is listed, and what it answers comes with the call. The listeners of an event are what
-- they do to the socket, a list of operations, up to an exception where one of them throws: the engine
-- clears it and goes on with the next event. What a listener does to the list of listeners is left out.
pub mod Calls
pub mod AutoEnd
pub mod Upgrade
use toki.Base.{
  ℕ, ◌==◌, Bool, true, false, not, ◌&&◌, Option, none, some, List, [], ◌∷◌, ◌++◌, if◌then◌else◌,
}
use toki.Net.Cipher.{Bytes}

pub data CloseReason : Type 0 where
  normal peer_reset write_queue_overflow tls_error handshake_timeout : CloseReason

-- what the engine answers a `send` with when the connection is gone
abbrev pub send_gone : ℕ
send_gone = 0xffffffff

-- The fields that change; `upgrading` is whether the callbacks of an upgrade are kept.
pub record Socket : Type 0 where
  pub allow_half_open : Bool
  pub ended : Bool
  pub read_ended : Bool
  pub need_drain : Bool
  pub close_reason : CloseReason
  pub peer_cached : Bool
  pub alpn_fetched : Bool
  pub servername_fetched : Bool
  pub upgrading : Bool

-- A call of the native engine, or the promise of an upgrade: started, resolved, rejected.
pub data Effect : Type 0 where
  send : Bytes → Effect
  finish close : Effect
  upgrade_started upgrade_resolved upgrade_rejected : Effect

-- the constructor
unfoldable pub create : Bool → Socket
create allow_half_open = record {
  allow_half_open = allow_half_open;
  ended = false;
  read_ended = false;
  need_drain = false;
  close_reason = normal;
  peer_cached = false;
  alpn_fetched = false;
  servername_fetched = false;
  upgrading = false;
}

-- `write` after the call of `send`, which answered with `backlog`
unfoldable pub on_backlog : ℕ → Socket → Socket
on_backlog backlog s =
    if backlog == send_gone
    then record s { ended = true }
    else if backlog == 0
    then s
    else record s { need_drain = true }

-- `write`
unfoldable pub write : Bytes → ℕ → Socket → Socket × List Effect
write bytes backlog s = if s.ended then (s, []) else (on_backlog backlog s, send bytes ∷ [])

-- what `write` returns
unfoldable pub write_result : ℕ → Socket → Bool
write_result backlog s = not s.ended && (not (backlog == send_gone) && backlog == 0)

-- `if (data !== undefined) this.write(data)`
unfoldable pub write_last : Option (Bytes × ℕ) → Socket → Socket × List Effect
unfolding write
write_last none s = (s, [])
write_last (some (bytes, backlog)) s = write bytes backlog s

-- `end`
unfoldable pub end : Option (Bytes × ℕ) → Socket → Socket × List Effect
end last s =
    let (s', calls) = write_last last s in
    if s.ended then (s, []) else (record s' { ended = true }, calls ++ (finish ∷ []))

-- `destroy`
unfoldable pub destroy : Socket → Socket × List Effect
destroy s = if s.ended then (s, []) else (record s { ended = true }, close ∷ [])

-- `upgradeTLS`, with the answer of the native engine; where it throws nothing changes
unfoldable pub upgrade_tls : Bool → Socket → Socket × List Effect
upgrade_tls started s =
    if s.upgrading
    then (s, [])
    else if started
    then (record s { upgrading = true }, upgrade_started ∷ [])
    else (s, [])

-- What the program does to a socket; each carries the engine's answer.
pub data Operation : Type 0 where
  writes : Bytes → ℕ → Operation
  ends : Option (Bytes × ℕ) → Operation
  destroys : Operation
  upgrades : Bool → Operation
  reads_peer reads_alpn reads_servername : Operation

unfoldable pub operate : Operation → Socket → Socket × List Effect
operate (writes bytes backlog) s = write bytes backlog s
operate (ends last) s = end last s
operate destroys s = destroy s
operate (upgrades started) s = upgrade_tls started s
operate reads_peer s = (record s { peer_cached = true }, [])
operate reads_alpn s = (record s { alpn_fetched = true }, [])
operate reads_servername s = (record s { servername_fetched = true }, [])

-- The listeners of an event: what they do, and whether one of them throws after that.
pub record Listeners : Type 0 where
  pub does : List Operation
  pub throws : Bool

-- Listeners that return.
abbrev pub returning : List Operation → Listeners
returning does = record { does = does; throws = false }

-- What the listeners do.
unfoldable pub operate_all : List Operation → Socket → Socket × List Effect
operate_all [] s = (s, [])
operate_all (o ∷ os) s =
    let (s', out) = operate o s in let (s'', more) = operate_all os s' in (s'', out ++ more)

-- `#maybeAutoEnd`
unfoldable pub maybe_auto_end : Socket → Socket × List Effect
maybe_auto_end s =
    if s.read_ended && (not s.allow_half_open && (not s.need_drain && not s.ended))
    then end none s
    else (s, [])

-- Two steps, the second on what the first left.
unfoldable pub and_then :
    Socket × List Effect → (Socket → Socket × List Effect) → Socket × List Effect
and_then (s, out) next = let (s', more) = next s in (s', out ++ more)

-- The listeners, and what follows them in the method unless one throws.
unfoldable pub fire : Listeners → (Socket → Socket × List Effect) → Socket → Socket × List Effect
fire listeners next s =
    if listeners.throws
    then operate_all listeners.does s
    else and_then (operate_all listeners.does s) next

-- `emitData`
unfoldable pub emit_data : Listeners → Socket → Socket × List Effect
emit_data listeners s = operate_all listeners.does s

-- `emitDrain`
unfoldable pub emit_drain : Listeners → Socket → Socket × List Effect
emit_drain listeners s = fire listeners maybe_auto_end (record s { need_drain = false })

-- `emitEnd`
unfoldable pub emit_end : Listeners → Socket → Socket × List Effect
emit_end listeners s = fire listeners maybe_auto_end (record s { read_ended = true })

-- `resolve?.()` and `reject?.(…)` after the callbacks are dropped
unfoldable pub settle : Effect → Socket → Socket × List Effect
settle outcome s = (record s { upgrading = false }, (if s.upgrading then outcome ∷ [] else []))

-- `emitSecure`
unfoldable pub emit_secure : Listeners → Socket → Socket × List Effect
emit_secure listeners s =
    fire listeners (settle upgrade_resolved)
      (record s { peer_cached = false; alpn_fetched = false; servername_fetched = false })

-- `emitClose`
unfoldable pub emit_close : CloseReason → Listeners → Socket → Socket × List Effect
emit_close reason listeners s =
    and_then (settle upgrade_rejected (record s { close_reason = reason }))
      (operate_all listeners.does)

-- What befalls a socket: an event with what its listeners do, or an operation between events.
pub data Event : Type 0 where
  data_in drained peer_ended secured : Listeners → Event
  closed : CloseReason → Listeners → Event
  used : Operation → Event

unfoldable pub step : Event → Socket → Socket × List Effect
step (data_in listeners) s = emit_data listeners s
step (drained listeners) s = emit_drain listeners s
step (peer_ended listeners) s = emit_end listeners s
step (secured listeners) s = emit_secure listeners s
step (closed reason listeners) s = emit_close reason listeners s
step (used o) s = operate o s

unfoldable pub run : List Event → Socket → Socket × List Effect
run [] s = (s, [])
run (e ∷ es) s = and_then (step e s) (run es)
