-- ===== src/Tests/Stores.antt =====
-- plugins/ratelimiter and plugins/circuit-breaker.
use toki.Base.{
  ℕ, ◌≤◌, ◌≡◌, refl, inl, true, false, none, some, List, [], ◌∷◌, arith, leb, if◌then◌else◌,
}
use toki.JsMap
use toki.RateLimit.Store.{
  MemoryStore, Bucket, Event, hit_of, sweep, step, run, hit, make_room, start_window, count_hit,
  capacity_evict, evict,
}
use toki.RateLimit.Middleware.{Options}
use toki.RateLimit.Middleware.Burst.{admit_all, first_only, admit_all-first_only}
use toki.RateLimit.Store.Bounds.{IsBounded, run-IsBounded}
use toki.JsMap.Expiry.{Agrees}
use toki.RateLimit.Store.Ideal.{ideal_run, run-ideal}
use toki.Breaker
use toki.Breaker.{Breaker, BreakerConfig, closed, opened, half_open, trip}
use toki.Breaker.Probe
use toki.Breaker.Probe.{
  IsValid, heard, run-IsValid, ask_all, ask_all-opened, cooldown_seconds_lem, asked, succeeded,
  failed,
}
use toki.Breaker.Trip.{outcomes, outcomes_lem, crosses}

abbrev small : MemoryStore
small = record { buckets = []; max_keys = 4 }

abbrev history : List (ℕ × Event)
history = (5, hit_of "a" 100) ∷ (10, hit_of "a" 100) ∷ (0, sweep) ∷ (200, hit_of "a" 100) ∷ []

small-IsBounded : IsBounded small
small-IsBounded = record { distinct = tt; positive = omega arith; bounded = omega arith }

run_answers :
    (run 1000 history small).1
    ≡ some (record { count = 1; reset_at = 1105 })
      ∷ some (record { count = 2; reset_at = 1105 })
      ∷ none
      ∷ some (record { count = 1; reset_at = 1315 })
      ∷ []
unfolding run step hit make_room start_window count_hit evict JsMap.get JsMap.set JsMap.delete_where
run_answers = refl

-- At the ceiling the oldest key goes.
full_store :
    (run 0
      ((0, hit_of "a" 9) ∷ (0, hit_of "b" 9) ∷ [])
      (record { buckets = []; max_keys = 1 })).0.buckets
    ≡ ("b", record { count = 1; reset_at = 9 }) ∷ []
unfolding run step hit make_room start_window count_hit capacity_evict evict JsMap.get JsMap.set
    JsMap.delete_where JsMap.delete_oldest JsMap.oldest JsMap.delete
full_store = refl

run-IsBounded_example : IsBounded (run 1000 history small).0
run-IsBounded_example = run-IsBounded 1000 history small small-IsBounded

nothing : Agrees (λ (b : Bucket). b.reset_at) 1000 [] (λ k. none)
unfolding JsMap.get
nothing = record { distinct = tt; at_key = λ k. inl refl }

run-ideal_example : (run 1000 history small).1 ≡ ideal_run 1000 history (λ k. none)
run-ideal_example = run-ideal 1000 history small (λ k. none) nothing (omega arith)

abbrev config : BreakerConfig
config = record {
  threshold_num = 1;
  threshold_den = 2;
  minimum_requests = 2;
  window_ms = 1000;
  reset_timeout_ms = 3000;
}

abbrev calm : Breaker
calm = record {
  state = closed;
  failures = 0;
  total = 0;
  window_end = 1000;
  open_until = 0;
  probing = false;
}

abbrev tripped : Breaker
tripped = record calm { state = opened; failures = 1; total = 2; open_until = 3005 }

trips : outcomes config 0 ((2, true) ∷ (3, false) ∷ []) calm ≡ tripped
unfolding outcomes Breaker.Trip.outcome Breaker.success Breaker.failure
trips = refl

outcomes_lem_example :
    (outcomes config 0 ((2, true) ∷ (3, false) ∷ []) calm).state
    ≡ (if crosses config 0 0 ((2, true) ∷ (3, false) ∷ []) then opened else closed)
outcomes_lem_example = outcomes_lem config 0 ((2, true) ∷ (3, false) ∷ []) calm refl (omega arith)

ask_all-opened_example :
    (ask_all 5 (10 ∷ 3000 ∷ 7 ∷ []) tripped).1 ≡ (if leb 3005 3022 then 1 else 0)
ask_all-opened_example = ask_all-opened 5 (10 ∷ 3000 ∷ 7 ∷ []) tripped refl (omega arith)

run-IsValid_example :
    IsValid (Breaker.Probe.run config 0 ((9, failed) ∷ (1, failed) ∷ (4000, asked) ∷ []) calm).0
    × ((Breaker.Probe.run config 0 ((9, failed) ∷ (1, failed) ∷ (4000, asked) ∷ []) calm).0.state
        ≡ heard closed
            (Breaker.Probe.run config 0 ((9, failed) ∷ (1, failed) ∷ (4000, asked) ∷ []) calm).1)
run-IsValid_example =
    run-IsValid config 0 ((9, failed) ∷ (1, failed) ∷ (4000, asked) ∷ []) calm
      (record { counted = omega arith; probe = refl })

abbrev limits : Options
limits = record {
  max = 2;
  window_ms = 1000;
  status = 429;
  standard = true;
  legacy = false;
  fail_closed = false;
  builder = λ info. none;
  decimal = λ n. n ∷ [];
  default_body = [];
}

nobody_counted : (b : Bucket) → JsMap.get "ip" small.buckets ≡ some b → b.reset_at ≤ 50
unfolding JsMap.get
nobody_counted b h = absurd (ground arith)

two_of_four : first_only 2 (50 ∷ 60 ∷ 70 ∷ 80 ∷ []) ≡ true ∷ true ∷ false ∷ false ∷ []
unfolding first_only
two_of_four = refl

admit_all-first_only_example :
    admit_all limits "ip" (50 ∷ 60 ∷ 70 ∷ 80 ∷ []) small ≡ first_only 2 (50 ∷ 60 ∷ 70 ∷ 80 ∷ [])
admit_all-first_only_example =
    admit_all-first_only limits 50 "ip" (60 ∷ 70 ∷ 80 ∷ []) small nobody_counted
      (omega arith, (omega arith, (omega arith, tt)))
