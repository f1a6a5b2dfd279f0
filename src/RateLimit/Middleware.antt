-- ===== src/RateLimit/Middleware.antt =====
-- plugins/ratelimiter/src/rate-limit.ts: the middleware, over a store that may throw and over the
-- in-memory one. `String(n)`, and the JSON text of the default body, are parameters.
pub mod Burst
use toki.Base.{
  ℕ, ◌+◌, ◌-◌, ◌/◌, Bool, true, false, not, Option, none, some, List, [], ◌∷◌, String, ltb, or_else,
  if◌then◌else◌,
}
use toki.Base.Text.{Text, codes}
use toki.Http.Headers.{Header, set_response_header}
use toki.Http.Reply.{Body, chars, TokiResponse, json_response}
use toki.RateLimit.Store.{StoreHit, MemoryStore, hit}

-- The limit state that a builder of the blocked response gets.
pub record RateLimitInfo : Type 0 where
  pub limit : ℕ
  pub remaining : ℕ
  pub reset_at : ℕ
  pub retry_after : ℕ

pub record Options : Type 0 where
  pub max : ℕ
  pub window_ms : ℕ
  pub status : ℕ
  pub standard : Bool
  pub legacy : Bool
  pub fail_closed : Bool
  pub builder : RateLimitInfo → Option TokiResponse
  pub decimal : ℕ → Text
  pub default_body : Text

-- `Math.ceil(ms / 1000)`
abbrev pub ceil_seconds : ℕ → ℕ
ceil_seconds ms = (ms + 999) / 1000

-- The staged headers of the request, and the answer; `none` lets the request through.
abbrev pub Answer : Type 0
Answer = List Header × Option TokiResponse

unfoldable pub or_default : Options → Option TokiResponse → TokiResponse
or_default o (some built) = built
or_default o none = json_response o.default_body o.status

-- `block`; a fixed message or none is a builder that gives nothing
unfoldable pub block : Options → RateLimitInfo → List Header → Answer
block o info staged = (
  set_response_header (codes "Retry-After") (o.decimal info.retry_after) staged,
  some (or_default o (o.builder info)),
)

unfoldable pub stage_standard : Options → ℕ → ℕ → List Header → List Header
stage_standard o remaining retry_after staged =
    if o.standard
    then set_response_header (codes "RateLimit-Reset") (o.decimal retry_after) (
        set_response_header (codes "RateLimit-Remaining") (o.decimal remaining)
          (set_response_header (codes "RateLimit-Limit") (o.decimal o.max) staged))
    else staged

unfoldable pub stage_legacy : Options → ℕ → ℕ → List Header → List Header
stage_legacy o remaining reset_at staged =
    if o.legacy
    then set_response_header (codes "X-RateLimit-Reset") (o.decimal (ceil_seconds reset_at)) (
        set_response_header (codes "X-RateLimit-Remaining") (o.decimal remaining)
          (set_response_header (codes "X-RateLimit-Limit") (o.decimal o.max) staged))
    else staged

-- the middleware after the store has answered
unfoldable pub judge : Options → ℕ → StoreHit → List Header → Answer
judge o now h staged =
    let remaining = o.max - h.count in
    let retry_after = ceil_seconds (h.reset_at - now) in
    let staged' =
      stage_legacy o remaining h.reset_at (stage_standard o remaining retry_after staged) in
    if ltb o.max h.count
    then block o
        (record { limit = o.max; remaining = 0; reset_at = h.reset_at; retry_after = retry_after })
        staged'
    else (staged', none)

-- the middleware on what the store gives; `none` is a store that throws
unfoldable pub on_hit : Options → ℕ → Option StoreHit → List Header → Answer
on_hit o now (some h) staged = judge o now h staged
on_hit o now none staged =
    if o.fail_closed
    then block o
        (record {
          limit = o.max;
          remaining = 0;
          reset_at = now + o.window_ms;
          retry_after = ceil_seconds o.window_ms;
        })
        staged
    else (staged, none)

-- `rateLimit(options)`, over the in-memory store; `skipped` is what `skip` says of the request
unfoldable pub rate_limit :
    Options → ℕ → Bool → String → List Header → MemoryStore → MemoryStore × Answer
rate_limit o now true key staged s = (s, (staged, none))
rate_limit o now false key staged s =
    let (s', h) = hit now key o.window_ms s in (s', on_hit o now (some h) staged)
