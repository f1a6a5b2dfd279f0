-- ===== src/Tests/Limits.antt =====
-- plugins/ratelimiter/src/tcp-rate-limit.ts and udp-rate-limit.ts.
use toki.Base.{◌≡◌, refl, true, false, none, List, [], ◌∷◌, ◌++◌, map, if◌then◌else◌}
use toki.RateLimit.Middleware
use toki.RateLimit.Middleware.Burst.{admit_all}
use toki.RateLimit.Store.{MemoryStore}
use toki.RateLimit.Transport.{
  Options, Pending, received, drain, ended, handed_wrapper, buffering, passing, answered, judge,
  emit_all, arrives, verdict, run,
}
use toki.RateLimit.Transport.Replay.{run-verdict}
use toki.RateLimit.Transport.Datagrams.{deliver_all, deliver_all-admit_all}

abbrev one_each : Options
one_each = record { max = 1; window_ms = 100; has_limit = false; fail_closed = true }

abbrev early : List Pending
early = received (1 ∷ []) ∷ drain ∷ []

-- The verdict comes between a drain and the end.
run-verdict_example :
    run one_each
      (map arrives early
        ++ (verdict 5 (answered (record { count = 1; reset_at = 90 })) ∷ map arrives (ended ∷ [])))
      (buffering [])
    ≡ (
      passing,
      (judge one_each 5 (answered (record { count = 1; reset_at = 90 }))).1
          ++ ((if (judge one_each 5 (answered (record { count = 1; reset_at = 90 }))).0
                then handed_wrapper ∷ []
                else [])
              ++ emit_all (early ++ (ended ∷ []))),
    )
run-verdict_example =
    run-verdict one_each early (ended ∷ []) 5 (answered (record { count = 1; reset_at = 90 }))

abbrev empty_store : MemoryStore
empty_store = record { buckets = []; max_keys = 4 }

abbrev requests : Middleware.Options
requests = record {
  max = 1;
  window_ms = 100;
  status = 429;
  standard = true;
  legacy = false;
  fail_closed = false;
  builder = λ info. none;
  decimal = λ n. n ∷ [];
  default_body = [];
}

deliver_all-admit_all_example :
    deliver_all one_each "ip" (5 ∷ 6 ∷ 200 ∷ []) empty_store
    ≡ admit_all requests "ip" (5 ∷ 6 ∷ 200 ∷ []) empty_store
deliver_all-admit_all_example =
    deliver_all-admit_all one_each requests "ip" (5 ∷ 6 ∷ 200 ∷ []) empty_store refl refl
