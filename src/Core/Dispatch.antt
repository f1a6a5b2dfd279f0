-- ===== src/Core/Dispatch.antt =====
-- ts/core/app.ts, `#dispatch` and what it calls, and `materialize` of ts/core/pipeline.ts: one
-- request through its compiled route. A response schema is the function `serialize(schema, ·)`.
-- `JSON.stringify` does not throw here, so the `catch` of `#safeToNative` is never reached, and the
-- timeout of `#armTimeout` does not fire.
pub mod Respond
pub mod Errors
use toki.Base.{ℕ, Bool, true, false, not, ◌&&◌, Option, none, some, List, [], ◌∷◌, if◌then◌else◌}
use toki.Base.Text.{Text, codes}
use toki.Core.Pipeline.{
  Middleware, SerializationHook, ResponseHook, run_before, run_serialization, run_after,
}
use toki.Core.Task.{Task, ret, throw, await, then_do, Settled, fulfilled, rejected, settle}
use toki.Http.Headers.{Header, NativeResponse, to_native}
use toki.Http.Reply.{
  Body, HandlerResult, response, stream, string, json, TokiResponse, is_stream_response, normalize,
  reply_text, reply_empty, json_response,
}

pub record CompiledRoute (S E J St : Type 0) : Type 0 where
  pub handler : S → Task S E (HandlerResult J St)
  pub before : List (Middleware S E J St)
  pub after : List (ResponseHook S E J St)
  pub serialization : List (SerializationHook S E J St)
  pub error_handler : Option (S → E → S × Settled E (HandlerResult J St))
  pub response_schemas : ℕ → Option (HandlerResult J St → Text)
  pub default_status : Option ℕ

-- What reaches the engine for one request: a reply returned from the dispatch call, one submitted
-- later, or a stream that `#drive` writes chunk by chunk.
pub data Delivery (St : Type 0) : Type 0 where
  returned : NativeResponse Body → Delivery St
  submitted : NativeResponse Body → Delivery St
  driven : St → Delivery St

module _ {J St : Type 0} (stringify : HandlerResult J St → Text) where
  -- the serialized body of a plain value
  abbrev pub serialized : Option (HandlerResult J St → Text) → HandlerResult J St → Text
  serialized (some serialize) value = serialize value
  serialized none value = stringify value

module _ {S E J St : Type 0} (stringify : HandlerResult J St → Text) where
  -- `route.defaultStatus ?? 200`
  abbrev pub status_of : CompiledRoute S E J St → ℕ
  status_of route = elim route.default_status [ some n ↦ n | none ↦ 200 ]

  unfoldable pub materialize : HandlerResult J St → CompiledRoute S E J St → TokiResponse
  materialize (response r) route = r
  materialize (string s) route = reply_text s (status_of route)
  materialize other route =
      json_response (serialized stringify (route.response_schemas (status_of route)) other)
        (status_of route)

  abbrev pub as_result : Task S E TokiResponse → Task S E (HandlerResult J St)
  as_result m = then_do m (λ t r. ret t (response r))

  -- `#finishResponse` on the materialized response
  unfoldable pub finish_with :
      List (ResponseHook S E J St) → S → TokiResponse → Task S E (HandlerResult J St)
  finish_with [] t res = ret t (response res)
  finish_with (hook ∷ hooks) t res = as_result (run_after stringify (hook ∷ hooks) t res)

  -- `#finishResponse`
  unfoldable pub finish_response :
      CompiledRoute S E J St → S → HandlerResult J St → Task S E (HandlerResult J St)
  finish_response route t result = finish_with route.after t (materialize result route)

  -- the branch of `#afterHandler` for a plain value with `preSerialization` hooks
  unfoldable pub finish_transformed :
      CompiledRoute S E J St → Task S E (HandlerResult J St) → Task S E (HandlerResult J St)
  finish_transformed route (await t k) =
      then_do (await t k) (λ u value. finish_response route u value)
  finish_transformed route (ret t value) = finish_response route t value
  finish_transformed route (throw t e) = throw t e

  -- `#afterHandler` for a plain value
  unfoldable pub after_value :
      CompiledRoute S E J St
      → List (SerializationHook S E J St)
      → S
      → HandlerResult J St
      → Task S E (HandlerResult J St)
  after_value route [] t v = finish_response route t v
  after_value route (hook ∷ hooks) t v =
      finish_transformed route (run_serialization (hook ∷ hooks) t v)

  -- `#afterHandler`
  unfoldable pub after_handler :
      CompiledRoute S E J St → S → HandlerResult J St → Task S E (HandlerResult J St)
  after_handler route t (stream st) = ret t (stream st)
  after_handler route t (json j) = after_value route route.serialization t (json j)
  after_handler route t (response r) = finish_response route t (response r)
  after_handler route t (string s) = finish_response route t (string s)

  -- the second half of `#afterBefore`, on what the handler gave
  unfoldable pub on_result :
      CompiledRoute S E J St → Task S E (HandlerResult J St) → Task S E (HandlerResult J St)
  on_result route (await t k) = then_do (await t k) (λ u value. after_handler route u value)
  on_result route (ret t value) = after_handler route t value
  on_result route (throw t e) = throw t e

  -- `#afterBefore`; a short-circuit answer is a plain value, never a promise
  unfoldable pub after_before :
      CompiledRoute S E J St → S → Option (HandlerResult J St) → Task S E (HandlerResult J St)
  after_before route t (some v) = on_result route (ret t v)
  after_before route t none = on_result route (route.handler t)

  -- `#run`, on what `runBefore` gave
  unfoldable pub on_short :
      CompiledRoute S E J St
      → Task S E (Option (HandlerResult J St))
      → Task S E (HandlerResult J St)
  on_short route (await t k) = then_do (await t k) (λ u value. after_before route u value)
  on_short route (ret t value) = after_before route t value
  on_short route (throw t e) = throw t e

  -- `#run`
  unfoldable pub run : CompiledRoute S E J St → S → Task S E (HandlerResult J St)
  run route s = on_short route (run_before route.before s)

abbrev pub internal_error : {J St : Type 0} → HandlerResult J St
internal_error = response (reply_text (codes "Internal Server Error") 500)

module _ {S E J St : Type 0} where
  -- the error handler's answer, or the default if it threw itself
  abbrev pub or_internal : S × Settled E (HandlerResult J St) → S × HandlerResult J St
  or_internal (u, fulfilled v) = (u, v)
  or_internal (u, rejected e) = (u, internal_error)

  -- `#handleError`; the log entry is left out
  unfoldable pub handle_error :
      S → E → Option (S → E → S × Settled E (HandlerResult J St)) → S × HandlerResult J St
  handle_error t e none = (t, internal_error)
  handle_error t e (some h) = or_internal (h t e)

module _ {S J St : Type 0} (stringify : HandlerResult J St → Text) (staged : S → List Header) where
  -- `toNative(result, req.stagedResponseHeaders)`
  abbrev pub native_of : S → HandlerResult J St → NativeResponse Body
  native_of t v = to_native (normalize stringify v) (staged t)

  -- `#submit`
  unfoldable pub submit : S → HandlerResult J St → S × Delivery St
  submit t (stream st) = (t, driven st)
  submit t v = (t, submitted (native_of t v))

module _ {S E J St : Type 0} (stringify : HandlerResult J St → Text) (staged : S → List Header)
    (other : S → S) where
  -- the two handlers that `#dispatch` hangs on a promise
  unfoldable pub on_settled :
      CompiledRoute S E J St → S × Settled E (HandlerResult J St) → S × Delivery St
  on_settled route (t, fulfilled v) = submit stringify staged t v
  on_settled route (t, rejected e) =
      let (u, v) = handle_error t e route.error_handler in submit stringify staged u v

  -- `#dispatch`, on what `#run` gave
  unfoldable pub deliver : CompiledRoute S E J St → Task S E (HandlerResult J St) → S × Delivery St
  deliver route (ret t (stream st)) = (t, driven st)
  deliver route (ret t v) = (t, returned (native_of stringify staged t v))
  deliver route (throw t e) =
      let (u, v) = handle_error t e route.error_handler in
      (u, returned (native_of stringify staged u v))
  deliver route (await t k) = on_settled route (settle other (await t k))

  -- `#dispatch`, for a request whose route is compiled
  unfoldable pub dispatch : CompiledRoute S E J St → S → S × Delivery St
  dispatch route s = deliver route (run stringify route s)

  -- The start of `#dispatch`: with no compiled route the reply is empty, 404 for the not-found index
  -- (`not_found`) and 500 for any other.
  unfoldable pub dispatch_found : Bool → Option (CompiledRoute S E J St) → S → S × Delivery St
  dispatch_found not_found none s =
      (s, returned (to_native (reply_empty (if not_found then 404 else 500)) []))
  dispatch_found not_found (some route) s = dispatch route s
