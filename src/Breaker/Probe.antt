-- ===== src/Breaker/Probe.antt =====
-- plugins/circuit-breaker/src/breaker.ts: the cooldown and the single probe.
use toki.Base.{
  ℕ, suc, ◌+◌, ◌*◌, ◌≤◌, ◌<◌, ◌≡◌, refl, ◌↔◌, Bool, true, false, List, [], ◌∷◌, ◌++◌, ltb, leb,
  arith, if◌then◌else◌, Bool-cases, inl, inr,
}
use toki.Breaker.{
  BreakerState, closed, opened, half_open, BreakerConfig, Breaker, Emitted, on_open, on_close,
  on_half_open, allow, cooldown_seconds, success, failure,
}

pub data Event : Type 0 where
  asked succeeded failed : Event

unfoldable pub step : BreakerConfig → ℕ → Event → Breaker → Breaker × List Emitted
step c now asked b = let (b', ok, es) = allow now b in (b', es)
step c now succeeded b = success c now b
step c now failed b = failure c now b

-- A history: each call with the time since the one before it.
unfoldable pub run : BreakerConfig → ℕ → List (ℕ × Event) → Breaker → Breaker × List Emitted
run c now [] b = (b, [])
run c now ((dt, e) ∷ es) b =
    let (b', out) = step c (now + dt) e b in
    let (b'', outs) = run c (now + dt) es b' in (b'', out ++ outs)

abbrev is_half_open : BreakerState → Bool
is_half_open half_open = true
is_half_open _ = false

-- Failures are calls, and a probe is out exactly in the half-open state.
pub record IsValid (b : Breaker) : Type 0 where
  pub counted : b.failures ≤ b.total
  pub probe : b.probing ≡ is_half_open b.state

-- What a listener of the transition hooks takes the state to be.
pub heard : BreakerState → List Emitted → BreakerState
heard s [] = s
heard s (on_open ∷ es) = heard opened es
heard s (on_close ∷ es) = heard closed es
heard s (on_half_open ∷ es) = heard half_open es

step-IsValid :
    (c : BreakerConfig) (now : ℕ) (e : Event) (b : Breaker)
    → IsValid b
    → IsValid (step c now e b).0 × ((step c now e b).0.state ≡ heard b.state (step c now e b).1)
unfolding step heard allow success failure
step-IsValid c now asked b v = ground arith
step-IsValid c now succeeded b v = ground arith
step-IsValid c now failed b v = ground arith

heard-append :
    (s : BreakerState) (xs ys : List Emitted) → heard s (xs ++ ys) ≡ heard (heard s xs) ys
unfolding heard
heard-append s [] ys = refl
heard-append s (on_open ∷ xs) ys = heard-append opened xs ys
heard-append s (on_close ∷ xs) ys = heard-append closed xs ys
heard-append s (on_half_open ∷ xs) ys = heard-append half_open xs ys

-- Whatever calls come and when, failures stay within the calls counted, a probe is out exactly
-- while the breaker is half open, and the transition hooks tell its state to whoever listens.
pub run-IsValid :
    (c : BreakerConfig) (now : ℕ) (es : List (ℕ × Event)) (b : Breaker)
    → IsValid b
    → IsValid (run c now es b).0 × ((run c now es b).0.state ≡ heard b.state (run c now es b).1)
unfolding run
run-IsValid c now [] b v = unfold heard in (v, refl)
run-IsValid c now ((dt, e) ∷ es) b v =
    let (w, here) = step-IsValid c (now + dt) e b v in
    let (valid, rest) = run-IsValid c (now + dt) es (step c (now + dt) e b).0 w in
    (
      valid,
      rw
          (
            heard-append b.state (step c (now + dt) e b).1
                (run c (now + dt) es (step c (now + dt) e b).0).1,
            ← here,
          )
          rest,
    )

-- Requests that ask and are not yet answered: how many are let through.
unfoldable pub ask_all : ℕ → List ℕ → Breaker → Breaker × ℕ
ask_all now [] b = (b, 0)
ask_all now (dt ∷ dts) b =
    let (b', ok, es) = allow (now + dt) b in
    let (b'', n) = ask_all (now + dt) dts b' in (b'', (if ok then suc n else n))

abbrev last_time : ℕ → List ℕ → ℕ
last_time now [] = now
last_time now (dt ∷ dts) = last_time (now + dt) dts

last_time-le : (now : ℕ) (dts : List ℕ) → now ≤ last_time now dts
last_time-le now [] = omega arith
last_time-le now (dt ∷ dts) = omega (arith, last_time-le (now + dt) dts)

ask_all-half_open :
    (now : ℕ) (dts : List ℕ) (b : Breaker)
    → b.state ≡ half_open
    → b.probing ≡ true
    → ask_all now dts b ≡ (b, 0)
unfolding ask_all allow
ask_all-half_open now [] b h p = refl
ask_all-half_open now (dt ∷ dts) b h p = ground (arith, ask_all-half_open (now + dt) dts b h p)

-- An open breaker lets no request through before its cooldown ends, and from then on exactly one,
-- the probe, however many ask until it is answered.
pub ask_all-opened :
    (now : ℕ) (dts : List ℕ) (b : Breaker)
    → b.state ≡ opened
    → now < b.open_until
    → (ask_all now dts b).1 ≡ (if leb b.open_until (last_time now dts) then 1 else 0)
unfolding ask_all allow
ask_all-opened now [] b h before = ground arith
ask_all-opened now (dt ∷ dts) b h before = elim (Bool-cases (ltb (now + dt) b.open_until)) [
  | inl early ↦ ground (arith, ask_all-opened (now + dt) dts b h)
  | inr late ↦ ground (
    arith,
    last_time-le (now + dt) dts,
    ask_all-half_open (now + dt) dts (record b { state = half_open; probing = true }) refl refl,
  )
]

-- The cooldown of an open breaker is the least number of whole seconds after which it lets the next
-- request through.
pub cooldown_seconds_lem :
    (now wait : ℕ) (b : Breaker)
    → b.state ≡ opened
    → ((allow (now + 1000 * wait) b).1 ≡ true) ↔ (cooldown_seconds now b ≤ wait)
unfolding allow cooldown_seconds
cooldown_seconds_lem now wait b h = ground arith
