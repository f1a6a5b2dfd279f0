-- ===== src/Core/Dispatch/Errors.antt =====
-- ts/core/app.ts: what reaches the engine, exceptions included.
use toki.Base.{List, ◌≡◌, refl, sym, ◌≢◌, ◌⊎◌, inl, inr, ◌∙◌, ap}
use toki.Base.Text.{Text}
use toki.Core.Task.{Task, ret, throw, await, Settled, fulfilled, rejected, settle}
use toki.Core.Dispatch.{
  CompiledRoute, Delivery, returned, submitted, driven, run, handle_error, native_of, submit,
  on_settled, deliver, dispatch,
}
use toki.Core.Dispatch.Respond.{respond, run-respond}
use toki.Http.Headers.{Header, NativeResponse}
use toki.Http.Reply.{Body, HandlerResult, response, stream, string, json}

-- What the client gets: one whole reply, or a stream.
abbrev pub Content : Type 0 → Type 0
Content St = NativeResponse Body ⊎ St

abbrev pub content : {St : Type 0} → Delivery St → Content St
content (returned n) = inl n
content (submitted n) = inl n
content (driven st) = inr st

abbrev pub received : {S St : Type 0} → S × Delivery St → S × Content St
received (t, d) = (t, content d)

module _ {S E J St : Type 0} where
  -- The value to send: the result, or the answer of the error handler.
  abbrev pub recovered :
      CompiledRoute S E J St → S × Settled E (HandlerResult J St) → S × HandlerResult J St
  recovered route (t, fulfilled v) = (t, v)
  recovered route (t, rejected e) = handle_error t e route.error_handler

  -- An error handler that never answers with a stream.
  abbrev pub PlainErrors : CompiledRoute S E J St → Type 0
  PlainErrors route =
      (t : S) (e : E) (u : S) (st : St) → handle_error t e route.error_handler ≢ (u, stream st)

module _ {S J St : Type 0} (stringify : HandlerResult J St → Text) (staged : S → List Header) where
  abbrev pub sent : S × HandlerResult J St → S × Content St
  sent (t, stream st) = (t, inr st)
  sent (t, v) = (t, inl (native_of stringify staged t v))

  submit-sent :
      (t : S) (v : HandlerResult J St) → received (submit stringify staged t v) ≡ sent (t, v)
  unfolding submit
  submit-sent t (stream st) = refl
  submit-sent t (response r) = refl
  submit-sent t (string s) = refl
  submit-sent t (json j) = refl

  sent_plain :
      (p : S × HandlerResult J St)
      → ((u : S) (st : St) → p ≢ (u, stream st))
      → sent p ≡ (p.0, inl (native_of stringify staged p.0 p.1))
  sent_plain (t, stream st) h = absurd (h t st refl)
  sent_plain (t, response r) h = refl
  sent_plain (t, string s) h = refl
  sent_plain (t, json j) h = refl

module _ {S E J St : Type 0} (stringify : HandlerResult J St → Text) (staged : S → List Header)
    (other : S → S) (route : CompiledRoute S E J St) where
  on_settled-sent :
      (o : S × Settled E (HandlerResult J St))
      → received (on_settled stringify staged other route o)
        ≡ sent stringify staged (recovered route o)
  unfolding on_settled
  on_settled-sent (t, fulfilled v) = submit-sent stringify staged t v
  on_settled-sent (t, rejected e) =
      submit-sent stringify staged (handle_error t e route.error_handler).0
        (handle_error t e route.error_handler).1

  deliver-sent :
      PlainErrors route
      → (m : Task S E (HandlerResult J St))
      → received (deliver stringify staged other route m)
        ≡ sent stringify staged (recovered route (settle other m))
  unfolding deliver settle
  deliver-sent h (ret t (stream st)) = refl
  deliver-sent h (ret t (response r)) = refl
  deliver-sent h (ret t (string s)) = refl
  deliver-sent h (ret t (json j)) = refl
  deliver-sent h (throw t e) =
      sym (sent_plain stringify staged (handle_error t e route.error_handler) (h t e))
  deliver-sent h (await t k) = on_settled-sent (settle other (await t k))

-- A client gets the same reply or stream whether hooks and handlers are synchronous or not: the
-- result of the steps run in order, or, after an exception or a rejection anywhere in the
-- pipeline, the error handler's answer (500 if there is none or it throws itself). The condition is
-- that the error handler answers with no stream.
pub dispatch-respond :
    {S E J St : Type 0} (stringify : HandlerResult J St → Text) (staged : S → List Header)
    (other : S → S) (route : CompiledRoute S E J St) (s : S)
    → PlainErrors route
    → received (dispatch stringify staged other route s)
      ≡ sent stringify staged (recovered route (respond stringify other route s))
unfolding dispatch
dispatch-respond stringify staged other route s h =
    deliver-sent stringify staged other route h (run stringify route s)
    ∙ ap (λ o. sent stringify staged (recovered route o)) (run-respond stringify other route s)
