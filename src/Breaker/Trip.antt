-- ===== src/Breaker/Trip.antt =====
-- plugins/circuit-breaker/src/breaker.ts: when the closed breaker trips.
use toki.Base.{
  ℕ, ◌+◌, ◌*◌, ◌≤◌, ◌<◌, ◌≡◌, Bool, true, false, ◌||◌, ◌&&◌, List, [], ◌∷◌, leb, arith,
  if◌then◌else◌,
}
use toki.Breaker.{closed, opened, BreakerConfig, Breaker, success, failure}

-- One call that has ended: `true` is a success.
unfoldable pub outcome : BreakerConfig → ℕ → Bool → Breaker → Breaker
outcome c now true b = (success c now b).0
outcome c now false b = (failure c now b).0

-- Calls that end one after the other, each with the time since the one before it.
unfoldable pub outcomes : BreakerConfig → ℕ → List (ℕ × Bool) → Breaker → Breaker
outcomes c now [] b = b
outcomes c now ((dt, ok) ∷ os) b = outcomes c (now + dt) os (outcome c (now + dt) ok b)

-- The rule, on the outcomes alone: some failure is reached at which the calls so far are at least
-- the minimum and the failures among them at least the threshold's fraction. `f` and `n` are the
-- failures and calls before.
pub crosses : BreakerConfig → (f n : ℕ) → List (ℕ × Bool) → Bool
crosses c f n [] = false
crosses c f n ((dt, true) ∷ os) = crosses c f (n + 1) os
crosses c f n ((dt, false) ∷ os) =
    (leb c.minimum_requests (n + 1) && leb (c.threshold_num * (n + 1)) ((f + 1) * c.threshold_den))
    || crosses c (f + 1) (n + 1) os

abbrev last_time : ℕ → List (ℕ × Bool) → ℕ
last_time now [] = now
last_time now ((dt, ok) ∷ os) = last_time (now + dt) os

last_time-le : (now : ℕ) (os : List (ℕ × Bool)) → now ≤ last_time now os
last_time-le now [] = omega arith
last_time-le now ((dt, ok) ∷ os) = omega (arith, last_time-le (now + dt) os)

-- A late result cannot close an open breaker.
outcomes-opened :
    (c : BreakerConfig) (now : ℕ) (os : List (ℕ × Bool)) (b : Breaker)
    → b.state ≡ opened
    → (outcomes c now os b).state ≡ opened
unfolding outcomes outcome success failure
outcomes-opened c now [] b h = h
outcomes-opened c now ((dt, true) ∷ os) b h =
    outcomes-opened c (now + dt) os (success c (now + dt) b).0 (ground arith)
outcomes-opened c now ((dt, false) ∷ os) b h =
    outcomes-opened c (now + dt) os (failure c (now + dt) b).0 (ground arith)

-- Within one window a closed breaker trips exactly when the outcomes cross the threshold at a
-- failure, and otherwise it is still closed.
pub outcomes_lem :
    (c : BreakerConfig) (now : ℕ) (os : List (ℕ × Bool)) (b : Breaker)
    → b.state ≡ closed
    → last_time now os < b.window_end
    → (outcomes c now os b).state ≡ (if crosses c b.failures b.total os then opened else closed)
unfolding outcomes outcome success failure crosses
outcomes_lem c now [] b h w = h
outcomes_lem c now ((dt, true) ∷ os) b h w =
    ground
      (arith, last_time-le (now + dt) os, outcomes_lem c (now + dt) os (success c (now + dt) b).0)
outcomes_lem c now ((dt, false) ∷ os) b h w = ground (
  arith,
  last_time-le (now + dt) os,
  outcomes_lem c (now + dt) os (failure c (now + dt) b).0,
  outcomes-opened c (now + dt) os (failure c (now + dt) b).0,
)
