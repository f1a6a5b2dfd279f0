-- ===== src/Net/Tcp/Server.antt =====
-- ts/net/tcp.ts, `createTcpServer`: the engine is one for the process, and several server objects may
-- be made. What the native `listen` gives is an argument: a port, or `none` where it throws.
pub mod Owner
use toki.Base.{
  ℕ, zero, suc, ◌+◌, Bool, true, false, not, ◌&&◌, ◌||◌, Option, none, some, List, [], ◌∷◌, ◌++◌,
  ltb, ◌==◌, get_elem?, if◌then◌else◌,
}

-- The variables of the module that a server owns; the handler is known by its server's number.
pub record Globals : Type 0 where
  pub active : Bool
  pub server_handler : Option ℕ
  pub server_half_open : Bool
  pub server_is_uring : Bool

-- One result of `createTcpServer`.
pub record Server : Type 0 where
  pub allow_half_open : Bool
  pub is_uring : Bool
  pub listen_count : ℕ

pub data Result : Type 0 where
  listening : ℕ → Result
  already_listening single_listener not_listening refused : Result
  finished : Result

-- A native call.
pub data Call : Type 0 where
  close_server stop_accepting set_tls : Call

-- the module before any call
abbrev pub initial : Globals
initial = record {
  active = false;
  server_handler = none;
  server_half_open = false;
  server_is_uring = false;
}

-- `createTcpServer`
unfoldable pub create : Bool → Bool → Server
create allow_half_open is_uring = record {
  allow_half_open = allow_half_open;
  is_uring = is_uring;
  listen_count = 0;
}

-- `listen` after the native call
unfoldable pub on_bound : ℕ → Option ℕ → Server → Globals → Globals × Server × Result
on_bound self none s g = (g, s, refused)
on_bound self (some port) s g = (
  (if s.listen_count == 0
      then record {
        active = true;
        server_handler = some self;
        server_half_open = s.allow_half_open;
        server_is_uring = s.is_uring;
      }
      else g),
  record s { listen_count = s.listen_count + 1 },
  listening port,
)

-- `listen`
unfoldable pub listen : ℕ → Option ℕ → Server → Globals → Globals × Server × Result
listen self bound s g =
    if g.active && s.listen_count == 0
    then (g, s, already_listening)
    else if ltb 0 s.listen_count && s.is_uring
    then (g, s, single_listener)
    else on_bound self bound s g

-- `close`
unfoldable pub close : Server → Globals → Globals × Server × List Call
close s g = if not g.active || s.listen_count == 0 then (g, s, []) else (
  record g { active = false; server_handler = none; server_is_uring = false },
  record s { listen_count = 0 },
  close_server ∷ [],
)

-- `stopAccepting`
unfoldable pub stop : Globals → List Call
stop g = if g.active then stop_accepting ∷ [] else []

-- `setTls`
unfoldable pub reload_tls : Globals → Result × List Call
reload_tls g = if g.active then (finished, set_tls ∷ []) else (not_listening, [])

-- The servers of a process, by their number.
pub record Process : Type 0 where
  pub globals : Globals
  pub servers : List Server

unfoldable pub put : ℕ → Server → List Server → List Server
put i s [] = []
put zero s (t ∷ ss) = s ∷ ss
put (suc i) s (t ∷ ss) = t ∷ put i s ss

pub data Event : Type 0 where
  creates : Bool → Bool → Event
  listens : ℕ → Option ℕ → Event
  closes : ℕ → Event

unfoldable pub listen_on : ℕ → Option ℕ → Option Server → Process → Process
listen_on i bound none w = w
listen_on i bound (some s) w =
    let (g, s', result) = listen i bound s w.globals in
    record { globals = g; servers = put i s' w.servers }

unfoldable pub close_on : ℕ → Option Server → Process → Process
close_on i none w = w
close_on i (some s) w =
    let (g, s', calls) = close s w.globals in record { globals = g; servers = put i s' w.servers }

unfoldable pub step : Event → Process → Process
step (creates allow_half_open is_uring) w = record w {
  servers = create allow_half_open is_uring ∷ w.servers;
}
step (listens i bound) w = listen_on i bound (get_elem? w.servers i) w
step (closes i) w = close_on i (get_elem? w.servers i) w

unfoldable pub run : List Event → Process → Process
run [] w = w
run (e ∷ es) w = run es (step e w)
