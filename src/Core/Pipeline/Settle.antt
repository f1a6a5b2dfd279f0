-- ===== src/Core/Pipeline/Settle.antt =====
-- ts/core/pipeline.ts: what the chains compute, whichever of their steps are asynchronous.
use toki.Base.{Option, none, some, List, [], ◌∷◌, ◌≡◌, refl, ap, ◌∙◌, fun_ext}
use toki.Base.Text.{Text}
use toki.Core.Task.{
  Task, ret, throw, await, then_do, settle, settle-then_do, Settled, fulfilled, continue_with,
}
use toki.Core.Pipeline.{
  answer_or, before_step, serialization_step, after_step, replaced, Middleware, SerializationHook,
  ResponseHook, run_before, run_serialization, run_after,
}
use toki.Http.Reply.{HandlerResult, TokiResponse}

module _ {S E J St : Type 0} (other : S → S) where
  abbrev stop_or :
      (S → S × Settled E (Option (HandlerResult J St)))
      → S
      → Option (HandlerResult J St)
      → S × Settled E (Option (HandlerResult J St))
  stop_or rest t (some v) = (t, fulfilled (some v))
  stop_or rest t none = rest t

  -- The steps one after the other, each run to its end: the first that answers ends the chain.
  unfoldable pub first_answer :
      List (Middleware S E J St) → S → S × Settled E (Option (HandlerResult J St))
  first_answer [] s = (s, fulfilled none)
  first_answer (m ∷ ms) s = continue_with (settle other (m s)) (stop_or (first_answer ms))

  settle-answer_or :
      (rest : Middleware S E J St) (u : S) (value : Option (HandlerResult J St))
      → settle other (answer_or rest u value) ≡ stop_or (λ t. settle other (rest t)) u value
  unfolding settle
  settle-answer_or rest u (some v) = refl
  settle-answer_or rest u none = refl

  settle-before_step :
      (rest : Middleware S E J St) (m : Task S E (Option (HandlerResult J St)))
      → settle other (before_step rest m)
        ≡ continue_with (settle other m) (stop_or (λ t. settle other (rest t)))
  unfolding before_step settle then_do
  settle-before_step rest (await t k) =
      settle-then_do other (k (other t)) (answer_or rest)
      ∙ ap (continue_with (settle other (k (other t))))
          (fun_ext (λ u. fun_ext (settle-answer_or rest u)))
  settle-before_step rest (ret t (some v)) = refl
  settle-before_step rest (ret t none) = refl
  settle-before_step rest (throw t e) = refl

  -- Which steps are synchronous and which return promises makes no difference: the before chain
  -- comes to the first answer of its steps, run in order, or to the first exception before it.
  pub run_before-first_answer :
      (ms : List (Middleware S E J St)) (s : S) → settle other (run_before ms s) ≡ first_answer ms s
  unfolding run_before first_answer settle
  run_before-first_answer [] s = refl
  run_before-first_answer (m ∷ ms) s =
      settle-before_step (run_before ms) (m s)
      ∙ ap (λ rest. continue_with (settle other (m s)) (stop_or rest))
          (fun_ext (run_before-first_answer ms))

  -- The payload handed from hook to hook, each run to its end.
  unfoldable pub thread_payload :
      List (SerializationHook S E J St)
      → S
      → HandlerResult J St
      → S × Settled E (HandlerResult J St)
  thread_payload [] s payload = (s, fulfilled payload)
  thread_payload (hook ∷ hooks) s payload =
      continue_with (settle other (hook s payload)) (thread_payload hooks)

  settle-serialization_step :
      (rest : SerializationHook S E J St) (m : Task S E (HandlerResult J St))
      → settle other (serialization_step rest m)
        ≡ continue_with (settle other m) (λ t out. settle other (rest t out))
  unfolding serialization_step settle then_do
  settle-serialization_step rest (await t k) = settle-then_do other (k (other t)) rest
  settle-serialization_step rest (ret t out) = refl
  settle-serialization_step rest (throw t e) = refl

  pub run_serialization-thread_payload :
      (hooks : List (SerializationHook S E J St)) (s : S) (payload : HandlerResult J St)
      → settle other (run_serialization hooks s payload) ≡ thread_payload hooks s payload
  unfolding run_serialization thread_payload settle
  run_serialization-thread_payload [] s payload = refl
  run_serialization-thread_payload (hook ∷ hooks) s payload =
      settle-serialization_step (run_serialization hooks) (hook s payload)
      ∙ ap (continue_with (settle other (hook s payload)))
          (fun_ext (λ t. fun_ext (run_serialization-thread_payload hooks t)))

module _ {S E J St : Type 0} (stringify : HandlerResult J St → Text) (other : S → S) where
  -- The response handed from hook to hook; a hook that answers replaces it.
  unfoldable pub thread_response :
      List (ResponseHook S E J St) → S → TokiResponse → S × Settled E TokiResponse
  thread_response [] s res = (s, fulfilled res)
  thread_response (hook ∷ hooks) s res =
      continue_with (settle other (hook s res))
        (λ t out. thread_response hooks t (replaced stringify res out))

  settle-after_step :
      (rest : S → TokiResponse → Task S E TokiResponse) (res : TokiResponse)
      (m : Task S E (Option (HandlerResult J St)))
      → settle other (after_step stringify rest res m)
        ≡ continue_with
            (settle other m)
            (λ t out. settle other (rest t (replaced stringify res out)))
  unfolding after_step settle then_do
  settle-after_step rest res (await t k) =
      settle-then_do other (k (other t)) (λ u value. rest u (replaced stringify res value))
  settle-after_step rest res (ret t (some v)) = refl
  settle-after_step rest res (ret t none) = refl
  settle-after_step rest res (throw t e) = refl

  pub run_after-thread_response :
      (hooks : List (ResponseHook S E J St)) (s : S) (res : TokiResponse)
      → settle other (run_after stringify hooks s res) ≡ thread_response hooks s res
  unfolding run_after thread_response settle
  run_after-thread_response [] s res = refl
  run_after-thread_response (hook ∷ hooks) s res =
      settle-after_step (run_after stringify hooks) res (hook s res)
      ∙ ap (continue_with (settle other (hook s res))) (
          fun_ext
            (λ t. fun_ext (λ out. run_after-thread_response hooks t (replaced stringify res out))))
