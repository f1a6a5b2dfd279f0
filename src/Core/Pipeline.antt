-- ===== src/Core/Pipeline.antt =====
-- ts/core/pipeline.ts: the runners of the hook chains. Each goes on synchronously until a step
-- returns a promise, then chains on it; `none` is a step that gives null or undefined.
pub mod Settle
use toki.Base.{ℕ, Option, none, some, List, [], ◌∷◌, ◌&&◌}
use toki.Base.Text.{Text}
use toki.Core.Task.{Task, ret, throw, await, then_do}
use toki.Http.Reply.{HandlerResult, TokiResponse, normalize}

abbrev pub Middleware : (S E J St : Type 0) → Type 0
Middleware S E J St = S → Task S E (Option (HandlerResult J St))

abbrev pub SerializationHook : (S E J St : Type 0) → Type 0
SerializationHook S E J St = S → HandlerResult J St → Task S E (HandlerResult J St)

abbrev pub ResponseHook : (S E J St : Type 0) → Type 0
ResponseHook S E J St = S → TokiResponse → Task S E (Option (HandlerResult J St))

module _ {S E J St : Type 0} where
  -- `value != null ? value : runBefore(steps, req, i + 1)`
  abbrev pub answer_or :
      Middleware S E J St → S → Option (HandlerResult J St) → Task S E (Option (HandlerResult J St))
  answer_or rest u (some v) = ret u (some v)
  answer_or rest u none = rest u

  -- The body of the loop in `runBefore` once `steps[i]` has been called; `rest` is the loop from i + 1.
  unfoldable pub before_step :
      Middleware S E J St
      → Task S E (Option (HandlerResult J St))
      → Task S E (Option (HandlerResult J St))
  before_step rest (await t k) = then_do (await t k) (answer_or rest)
  before_step rest (ret t (some v)) = ret t (some v)
  before_step rest (ret t none) = rest t
  before_step rest (throw t e) = throw t e

  unfoldable pub run_before : List (Middleware S E J St) → Middleware S E J St
  unfolding before_step
  run_before [] s = ret s none
  run_before (m ∷ ms) s = before_step (run_before ms) (m s)

  unfoldable pub serialization_step :
      SerializationHook S E J St → Task S E (HandlerResult J St) → Task S E (HandlerResult J St)
  serialization_step rest (await t k) = then_do (await t k) (λ u value. rest u value)
  serialization_step rest (ret t out) = rest t out
  serialization_step rest (throw t e) = throw t e

  unfoldable pub run_serialization : List (SerializationHook S E J St) → SerializationHook S E J St
  unfolding serialization_step
  run_serialization [] s payload = ret s payload
  run_serialization (hook ∷ hooks) s payload =
      serialization_step (run_serialization hooks) (hook s payload)

module _ {J St : Type 0} (stringify : HandlerResult J St → Text) where
  -- `value != null ? normalize(value) : res`
  abbrev pub replaced : TokiResponse → Option (HandlerResult J St) → TokiResponse
  replaced res (some v) = normalize stringify v
  replaced res none = res

module _ {S E J St : Type 0} (stringify : HandlerResult J St → Text) where
  unfoldable pub after_step :
      (S → TokiResponse → Task S E TokiResponse)
      → TokiResponse
      → Task S E (Option (HandlerResult J St))
      → Task S E TokiResponse
  after_step rest res (await t k) =
      then_do (await t k) (λ u value. rest u (replaced stringify res value))
  after_step rest res (ret t (some v)) = rest t (normalize stringify v)
  after_step rest res (ret t none) = rest t res
  after_step rest res (throw t e) = throw t e

  unfoldable pub run_after : List (ResponseHook S E J St) → S → TokiResponse → Task S E TokiResponse
  unfolding after_step
  run_after [] s res = ret s res
  run_after (hook ∷ hooks) s res = after_step (run_after hooks) res (hook s res)
