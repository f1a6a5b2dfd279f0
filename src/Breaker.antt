-- ===== src/Breaker.antt =====
-- plugins/circuit-breaker/src/breaker.ts: the failure-rate circuit breaker. Times are epoch ms;
-- `config.now()` is the argument `now`, read once in each method. The threshold, a fraction from 0
-- to 1, is the rational `threshold_num / threshold_den`, and `failures / total >= threshold` is
-- compared by cross-multiplication, without the rounding of floating point. A transition hook can
-- not change the breaker (`#emit` swallows its exceptions); the hooks run are returned.
pub mod Trip
pub mod Probe
use toki.Base.{
  ℕ, ◌+◌, ◌-◌, ◌*◌, ◌/◌, Bool, true, false, ◌&&◌, List, [], ◌∷◌, ltb, leb, if◌then◌else◌,
}

pub data BreakerState : Type 0 where
  closed opened half_open : BreakerState

pub record BreakerConfig : Type 0 where
  pub threshold_num : ℕ
  pub threshold_den : ℕ
  pub minimum_requests : ℕ
  pub window_ms : ℕ
  pub reset_timeout_ms : ℕ

pub record Breaker : Type 0 where
  pub state : BreakerState
  pub failures : ℕ
  pub total : ℕ
  pub window_end : ℕ
  pub open_until : ℕ
  pub probing : Bool

-- The transition hooks, by the transition that they report.
pub data Emitted : Type 0 where
  on_open on_close on_half_open : Emitted

unfoldable pub create : BreakerConfig → ℕ → Breaker
create c now = record {
  state = closed;
  failures = 0;
  total = 0;
  window_end = now + c.window_ms;
  open_until = 0;
  probing = false;
}

-- `allow`, on the state that it finds
unfoldable pub allow_in : BreakerState → ℕ → Breaker → Breaker × Bool × List Emitted
allow_in opened now b =
    if ltb now b.open_until
    then (b, false, [])
    else (record b { state = half_open; probing = true }, true, on_half_open ∷ [])
allow_in half_open now b =
    if b.probing then (b, false, []) else (record b { probing = true }, true, [])
allow_in closed now b = (b, true, [])

unfoldable pub allow : ℕ → Breaker → Breaker × Bool × List Emitted
unfolding allow_in
allow now b = allow_in b.state now b

-- `cooldownSeconds`
unfoldable pub cooldown_seconds : ℕ → Breaker → ℕ
cooldown_seconds now b = elim b.state [ opened ↦ (b.open_until - now + 999) / 1000 | _ ↦ 0 ]

-- `#open`
unfoldable pub trip : BreakerConfig → ℕ → Breaker → Breaker × List Emitted
trip c now b = (
  record b { state = opened; open_until = now + c.reset_timeout_ms; probing = false },
  on_open ∷ [],
)

-- `#close`
unfoldable pub close : BreakerConfig → ℕ → Breaker → Breaker × List Emitted
close c now b = (
  record b {
    state = closed;
    failures = 0;
    total = 0;
    probing = false;
    window_end = now + c.window_ms;
  },
  on_close ∷ [],
)

-- `#roll`
unfoldable pub roll : BreakerConfig → ℕ → Breaker → Breaker
roll c now b =
    if leb b.window_end now
    then record b { failures = 0; total = 0; window_end = now + c.window_ms }
    else b

unfoldable pub success_in : BreakerState → BreakerConfig → ℕ → Breaker → Breaker × List Emitted
unfolding close roll
success_in half_open c now b = close c now b
success_in other c now b = let r = roll c now b in (record r { total = r.total + 1 }, [])

unfoldable pub success : BreakerConfig → ℕ → Breaker → Breaker × List Emitted
unfolding success_in
success c now b = success_in b.state c now b

-- `total >= minimumRequests && failures / total >= failureThreshold`
abbrev pub is_over : BreakerConfig → Breaker → Bool
is_over c b =
    leb c.minimum_requests b.total && leb (c.threshold_num * b.total) (b.failures * c.threshold_den)

unfoldable pub count_failure : BreakerConfig → ℕ → Breaker → Breaker
unfolding roll
count_failure c now b =
    let r = roll c now b in record r { total = r.total + 1; failures = r.failures + 1 }

unfoldable pub failure_in : BreakerState → BreakerConfig → ℕ → Breaker → Breaker × List Emitted
unfolding trip count_failure
failure_in half_open c now b = trip c now b
failure_in other c now b =
    let r = count_failure c now b in if is_over c r then trip c now r else (r, [])

unfoldable pub failure : BreakerConfig → ℕ → Breaker → Breaker × List Emitted
unfolding failure_in
failure c now b = failure_in b.state c now b
