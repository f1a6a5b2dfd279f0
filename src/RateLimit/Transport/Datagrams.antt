-- ===== src/RateLimit/Transport/Datagrams.antt =====
-- plugins/ratelimiter/src/udp-rate-limit.ts beside rate-limit.ts, over one in-memory store.
use toki.Base.{ℕ, ◌≡◌, refl, Bool, true, false, List, [], ◌∷◌, String, arith}
use toki.RateLimit.Store.{MemoryStore, hit}
use toki.RateLimit.Middleware
use toki.RateLimit.Middleware.{rate_limit, on_hit, judge, block}
use toki.RateLimit.Middleware.Burst.{admit_all}
use toki.RateLimit.Transport.{
  Options, Delivery, delivered, over_limit, receive, on_datagram, decide_datagram,
}

-- Datagrams of one sender at the given times: whether each is delivered.
unfoldable pub deliver_all : Options → String → List ℕ → MemoryStore → List Bool
deliver_all o key [] s = []
deliver_all o key (now ∷ times) s =
    let (s', out) = receive o now key s in is_delivered out ∷ deliver_all o key times s'
  where
    is_delivered : List Delivery → Bool
    is_delivered [] = false
    is_delivered (delivered ∷ ds) = true
    is_delivered (over_limit info ∷ ds) = false

-- With the same `max` and window and the same store, the limiter of datagrams delivers exactly what the
-- limiter of requests would let through, at any times and for any key, with or without `onLimit`.
pub deliver_all-admit_all :
    (o : Options) (http : Middleware.Options) (key : String) (times : List ℕ) (s : MemoryStore)
    → o.max ≡ http.max
    → o.window_ms ≡ http.window_ms
    → deliver_all o key times s ≡ admit_all http key times s
unfolding deliver_all admit_all receive rate_limit on_datagram decide_datagram on_hit judge block
deliver_all-admit_all o http key [] s same window = refl
deliver_all-admit_all o http key (now ∷ times) s same window =
    let rest =
      deliver_all-admit_all o http key times (hit now key http.window_ms s).0 same window in
    rw window (ground (arith, rest, same))
