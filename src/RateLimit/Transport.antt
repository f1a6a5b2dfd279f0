-- ===== src/RateLimit/Transport.antt =====
-- plugins/ratelimiter/src/tcp-rate-limit.ts and udp-rate-limit.ts. The answer of the store to a hit is an
-- argument: it throws, answers at once, or gives a promise, whose verdict is then an event.
pub mod Replay
pub mod Datagrams
use toki.Base.{
  ℕ, ◌-◌, Bool, true, false, not, ◌&&◌, Option, none, some, List, [], ◌∷◌, ◌++◌, String, leb,
  if◌then◌else◌,
}
use toki.Net.Cipher.{Bytes}
use toki.RateLimit.Middleware.{RateLimitInfo, ceil_seconds}
use toki.RateLimit.Store.{StoreHit, MemoryStore, hit}

-- `has_limit` is whether there is an `onLimit`.
pub record Options : Type 0 where
  pub max : ℕ
  pub window_ms : ℕ
  pub has_limit : Bool
  pub fail_closed : Bool

pub data Asked : Type 0 where
  threw later : Asked
  at_once : StoreHit → Asked

-- A socket's events, as they are queued.
pub data Pending : Type 0 where
  received : Bytes → Pending
  drain ended closed : Pending

-- The handler gets the bare socket or the wrapper; the socket is destroyed; `onLimit` runs; the
-- wrapper's listeners get an event.
pub data Effect : Type 0 where
  handed_bare handed_wrapper destroyed : Effect
  limited : RateLimitInfo → Effect
  emitted : Pending → Effect

-- After the verdict at once nothing is wrapped; otherwise the events are buffered, then passed on.
pub data Phase : Type 0 where
  settled_bare : Phase
  buffering : List Pending → Phase
  passing : Phase

-- what a limiter tells `onLimit`
unfoldable pub info_of : Options → ℕ → StoreHit → RateLimitInfo
info_of o now h = record {
  limit = o.max;
  remaining = 0;
  reset_at = h.reset_at;
  retry_after = ceil_seconds (h.reset_at - now);
}

-- `decide` of tcp-rate-limit.ts
unfoldable pub decide : Options → ℕ → StoreHit → Bool × List Effect
decide o now h =
    if leb h.count o.max
    then (true, [])
    else (false, (if o.has_limit then limited (info_of o now h) else destroyed) ∷ [])

-- `if (decide(socket, hit)) handler(socket)`
unfoldable pub hand_over : Bool × List Effect → List Effect
hand_over (true, out) = out ++ (handed_bare ∷ [])
hand_over (false, out) = out

-- the handler of a connection, up to the subscription to its events
unfoldable pub on_connection : Options → ℕ → Bool → Asked → Phase × List Effect
on_connection o now true asked = (settled_bare, handed_bare ∷ [])
on_connection o now false threw =
    (settled_bare, (if o.fail_closed then destroyed else handed_bare) ∷ [])
on_connection o now false (at_once h) = (settled_bare, hand_over (decide o now h))
on_connection o now false later = (buffering [], [])

-- the listeners on the socket
unfoldable pub on_event : Pending → Phase → Phase × List Effect
on_event e settled_bare = (settled_bare, [])
on_event e (buffering queue) = (buffering (queue ++ (e ∷ [])), [])
on_event e passing = (passing, emitted e ∷ [])

-- `for (const item of queue) emit(…)`
unfoldable pub emit_all : List Pending → List Effect
emit_all [] = []
emit_all (e ∷ es) = emitted e ∷ emit_all es

-- `settle`
unfoldable pub settle : Bool → List Pending → Phase × List Effect
settle allowed queue = (passing, (if allowed then handed_wrapper ∷ [] else []) ++ emit_all queue)

-- How the promise of the store ends.
pub data Verdict : Type 0 where
  answered : StoreHit → Verdict
  failed : Verdict

-- whether the connection is let in, and what happens before `settle`
unfoldable pub judge : Options → ℕ → Verdict → Bool × List Effect
judge o now (answered h) = decide o now h
judge o now failed = if o.fail_closed then (false, destroyed ∷ []) else (true, [])

-- the two callbacks of `then`
unfoldable pub on_verdict : Options → ℕ → Verdict → Phase → Phase × List Effect
on_verdict o now v (buffering queue) =
    let (allowed, out) = judge o now v in
    let (phase, more) = settle allowed queue in (phase, out ++ more)
on_verdict o now v phase = (phase, [])

-- A connection's life from its first event on.
pub data Event : Type 0 where
  arrives : Pending → Event
  verdict : ℕ → Verdict → Event

unfoldable pub step : Options → Event → Phase → Phase × List Effect
step o (arrives e) p = on_event e p
step o (verdict now v) p = on_verdict o now v p

unfoldable pub run : Options → List Event → Phase → Phase × List Effect
run o [] p = (p, [])
run o (e ∷ es) p = let (p', out) = step o e p in let (p'', more) = run o es p' in (p'', out ++ more)

-- A datagram is handed to `onMessage`, or `onLimit` runs.
pub data Delivery : Type 0 where
  delivered : Delivery
  over_limit : RateLimitInfo → Delivery

-- `decide` of udp-rate-limit.ts
unfoldable pub decide_datagram : Options → ℕ → StoreHit → List Delivery
decide_datagram o now h =
    if leb h.count o.max
    then delivered ∷ []
    else (if o.has_limit then over_limit (info_of o now h) ∷ [] else [])

-- `if (!failClosed) onMessage(…)`
unfoldable pub on_failure : Options → List Delivery
on_failure o = if o.fail_closed then [] else delivered ∷ []

-- the handler of a datagram: what it does at once
unfoldable pub on_datagram : Options → ℕ → Bool → Asked → List Delivery
on_datagram o now true asked = delivered ∷ []
on_datagram o now false threw = on_failure o
on_datagram o now false (at_once h) = decide_datagram o now h
on_datagram o now false later = []

-- and when the promise of the store ends
unfoldable pub on_late : Options → ℕ → Verdict → List Delivery
on_late o now (answered h) = decide_datagram o now h
on_late o now failed = on_failure o

-- A datagram over the in-memory store, which answers at once.
unfoldable pub receive : Options → ℕ → String → MemoryStore → MemoryStore × List Delivery
receive o now key s =
    let (s', h) = hit now key o.window_ms s in (s', on_datagram o now false (at_once h))
