-- ===== src/Core/Dispatch/Respond.antt =====
-- ts/core/app.ts: what a route makes of a request, with the promises gone.
use toki.Base.{Option, none, some, List, [], ◌∷◌, ◌≡◌, refl, ap, ◌∙◌, fun_ext}
use toki.Base.Text.{Text}
use toki.Core.Pipeline.{run_before, run_serialization, run_after, SerializationHook, ResponseHook}
use toki.Core.Pipeline.Settle.{
  first_answer, run_before-first_answer, thread_payload, run_serialization-thread_payload,
  thread_response, run_after-thread_response,
}
use toki.Core.Task.{
  Task, ret, throw, await, then_do, settle, settle-then_do, Settled, fulfilled, continue_with,
}
use toki.Core.Dispatch.{
  CompiledRoute, materialize, as_result, finish_with, after_value, finish_response,
  finish_transformed, after_handler, on_result, after_before, on_short, run,
}
use toki.Http.Reply.{HandlerResult, response, stream, string, json, TokiResponse}

module _ {S E J St : Type 0} (stringify : HandlerResult J St → Text) (other : S → S)
    (route : CompiledRoute S E J St) where
  -- The response hooks on the materialized response.
  pub finished : S → HandlerResult J St → S × Settled E (HandlerResult J St)
  finished t v =
      continue_with (thread_response stringify other route.after t (materialize stringify v route))
        (λ u r. (u, fulfilled (response r)))

  -- A stream goes out as it is; a plain value passes the serialization hooks first.
  pub completed : S → HandlerResult J St → S × Settled E (HandlerResult J St)
  completed t (stream st) = (t, fulfilled (stream st))
  completed t (json j) =
      continue_with (thread_payload other route.serialization t (json j)) finished
  completed t v = finished t v

  abbrev answered : S → Option (HandlerResult J St) → S × Settled E (HandlerResult J St)
  answered t (some v) = completed t v
  answered t none = continue_with (settle other (route.handler t)) completed

  -- Hooks in order until one answers; the handler, only if none did; then the response.
  pub respond : S → S × Settled E (HandlerResult J St)
  respond s = continue_with (first_answer other route.before s) answered

module _ {S E J St : Type 0} (stringify : HandlerResult J St → Text) (other : S → S)
    (route : CompiledRoute S E J St) where
  settle-as_result :
      (m : Task S E TokiResponse)
      → settle other (as_result stringify m)
        ≡ continue_with (settle other m) (λ t r. (t, fulfilled (response r)))
  unfolding settle
  settle-as_result m = settle-then_do other m (λ t r. ret t (response r))

  settle-finish_with :
      (hooks : List (ResponseHook S E J St)) (t : S) (res : TokiResponse)
      → settle other (finish_with stringify hooks t res)
        ≡ continue_with
            (thread_response stringify other hooks t res)
            (λ u r. (u, fulfilled (response r)))
  unfolding finish_with settle thread_response
  settle-finish_with [] t res = refl
  settle-finish_with (hook ∷ hooks) t res =
      settle-as_result (run_after stringify (hook ∷ hooks) t res)
      ∙ ap (λ o. continue_with o (λ u r. (u, fulfilled (response r))))
          (run_after-thread_response stringify other (hook ∷ hooks) t res)

  settle-finish_response :
      (t : S) (v : HandlerResult J St)
      → settle other (finish_response stringify route t v) ≡ finished stringify other route t v
  unfolding finish_response finished
  settle-finish_response t v = settle-finish_with route.after t (materialize stringify v route)

  settle-finish_transformed :
      (m : Task S E (HandlerResult J St))
      → settle other (finish_transformed stringify route m)
        ≡ continue_with (settle other m) (finished stringify other route)
  unfolding finish_transformed settle then_do
  settle-finish_transformed (await t k) =
      settle-then_do other (k (other t)) (finish_response stringify route)
      ∙ ap (continue_with (settle other (k (other t))))
          (fun_ext (λ u. fun_ext (settle-finish_response u)))
  settle-finish_transformed (ret t v) = settle-finish_response t v
  settle-finish_transformed (throw t e) = refl

  settle-after_value :
      (hooks : List (SerializationHook S E J St)) (t : S) (v : HandlerResult J St)
      → settle other (after_value stringify route hooks t v)
        ≡ continue_with (thread_payload other hooks t v) (finished stringify other route)
  unfolding after_value thread_payload
  settle-after_value [] t v = settle-finish_response t v
  settle-after_value (hook ∷ hooks) t v =
      settle-finish_transformed (run_serialization (hook ∷ hooks) t v)
      ∙ ap (λ o. continue_with o (finished stringify other route))
          (run_serialization-thread_payload other (hook ∷ hooks) t v)

  settle-after_handler :
      (t : S) (v : HandlerResult J St)
      → settle other (after_handler stringify route t v) ≡ completed stringify other route t v
  unfolding after_handler completed settle
  settle-after_handler t (stream st) = refl
  settle-after_handler t (json j) = settle-after_value route.serialization t (json j)
  settle-after_handler t (response r) = settle-finish_response t (response r)
  settle-after_handler t (string s) = settle-finish_response t (string s)

  settle-on_result :
      (m : Task S E (HandlerResult J St))
      → settle other (on_result stringify route m)
        ≡ continue_with (settle other m) (completed stringify other route)
  unfolding on_result settle then_do
  settle-on_result (await t k) =
      settle-then_do other (k (other t)) (after_handler stringify route)
      ∙ ap (continue_with (settle other (k (other t))))
          (fun_ext (λ u. fun_ext (settle-after_handler u)))
  settle-on_result (ret t v) = settle-after_handler t v
  settle-on_result (throw t e) = refl

  settle-after_before :
      (t : S) (short : Option (HandlerResult J St))
      → settle other (after_before stringify route t short) ≡ answered stringify other route t short
  unfolding after_before settle on_result
  settle-after_before t (some v) = settle-on_result (ret t v)
  settle-after_before t none = settle-on_result (route.handler t)

  settle-on_short :
      (m : Task S E (Option (HandlerResult J St)))
      → settle other (on_short stringify route m)
        ≡ continue_with (settle other m) (answered stringify other route)
  unfolding on_short settle then_do
  settle-on_short (await t k) =
      settle-then_do other (k (other t)) (after_before stringify route)
      ∙ ap (continue_with (settle other (k (other t))))
          (fun_ext (λ u. fun_ext (settle-after_before u)))
  settle-on_short (ret t v) = settle-after_before t v
  settle-on_short (throw t e) = refl

-- Whichever hooks and handlers return promises, and whatever else changes the state while they are
-- pending, a request comes to the same result as with every step run to its end in order: the first
-- answer of the before chain, else the handler's; serialization hooks on plain values only; then the
-- response hooks on the materialized response, which streams skip. An exception ends it at once.
pub run-respond :
    {S E J St : Type 0} (stringify : HandlerResult J St → Text) (other : S → S)
    (route : CompiledRoute S E J St) (s : S)
    → settle other (run stringify route s) ≡ respond stringify other route s
unfolding run respond
run-respond stringify other route s =
    settle-on_short stringify other route (run_before route.before s)
    ∙ ap (λ o. continue_with o (answered stringify other route))
        (run_before-first_answer other route.before s)
