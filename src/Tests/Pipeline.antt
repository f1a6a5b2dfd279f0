-- ===== src/Tests/Pipeline.antt =====
-- ts/core and ts/http.
use toki.Base.{ℕ, suc, ◌≡◌, refl, Option, none, some, List, [], ◌∷◌, ◌++◌, map}
use toki.Base.Text.{Text, codes}
use toki.JsMap
use toki.JsMap.Laws.{IsMap}
use toki.Core.Dispatch
use toki.Core.Dispatch.{
  submit, on_settled, CompiledRoute, Delivery, returned, submitted, driven, dispatch, deliver, run,
  native_of, handle_error,
}
use toki.Core.Dispatch.Errors.{PlainErrors, received, sent, recovered, dispatch-respond}
use toki.Core.Dispatch.Respond.{respond}
use toki.Core.Pipeline.{run_before}
use toki.Core.Pipeline.Settle.{first_answer, run_before-first_answer}
use toki.Core.Registration.{Call, use_of, hook_of, parsers_of, handler_of, on_request_hook}
use toki.Core.Scope
use toki.Core.Scope.{
  Hooks, Scope, root, child, RouteParts, compile, compile_not_found, ancestry, as_list,
}
use toki.Core.Scope.Order.{phase, inner_first, nearest, compile_lem, bare, Decorated}
use toki.Core.Task.{Task, ret, throw, await, settle, Settled, fulfilled, rejected}
use toki.Http.Headers.{Header, to_native}
use toki.Http.Headers.Wire.{split_lines, line_of, sent_headers, to_native-lines}
use toki.Http.Reply.{HandlerResult, response, stream, string, reply_text}

-- The state counts the steps that have run.
abbrev Result : Type 0
Result = HandlerResult ℕ ℕ

abbrev show : HandlerResult ℕ ℕ → Text
show v = codes "{}"

abbrev headers_of : ℕ → List Header
headers_of s = (codes "X-Step", s ∷ []) ∷ []

abbrev pass_later : ℕ → Task ℕ ℕ (Option (HandlerResult ℕ ℕ))
pass_later s = await (suc s) (λ t. ret (suc t) none)

abbrev pass_now : ℕ → Task ℕ ℕ (Option (HandlerResult ℕ ℕ))
pass_now s = ret (suc s) none

abbrev answer_now : ℕ → Task ℕ ℕ (Option (HandlerResult ℕ ℕ))
answer_now s = ret (suc s) (some (string (codes "no")))

abbrev greet : CompiledRoute ℕ ℕ ℕ ℕ
greet = record {
  handler = λ s. await s (λ t. ret (suc t) (string (codes "hi")));
  before = pass_now ∷ pass_later ∷ [];
  after = [];
  serialization = [];
  error_handler = none;
  response_schemas = λ n. none;
  default_status = none;
}

abbrev guarded : CompiledRoute ℕ ℕ ℕ ℕ
guarded = record greet { before = pass_later ∷ answer_now ∷ pass_later ∷ [] }

abbrev streaming_errors : CompiledRoute ℕ ℕ ℕ ℕ
streaming_errors = record greet { error_handler = some (λ s e. (s, fulfilled (stream e))) }

abbrev same_state : ℕ → ℕ
same_state s = s

-- The handler is not run once a step has answered.
short_circuit :
    settle same_state (run show guarded 0) ≡ (3, fulfilled (response (reply_text (codes "no") 200)))
unfolding run settle run_before Dispatch.on_short toki.Core.Task.then_do Dispatch.after_before
    Dispatch.on_result Dispatch.after_handler Dispatch.finish_response Dispatch.finish_with
    reply_text Dispatch.materialize
short_circuit = refl

run_before-first_answer_example :
    settle same_state (run_before guarded.before 0) ≡ first_answer same_state guarded.before 0
run_before-first_answer_example = run_before-first_answer same_state guarded.before 0

greet-PlainErrors : PlainErrors greet
unfolding handle_error
greet-PlainErrors t e u st = cc

dispatch-respond_example :
    received (dispatch show headers_of same_state greet 0)
    ≡ sent show headers_of (recovered greet (respond show same_state greet 0))
dispatch-respond_example = dispatch-respond show headers_of same_state greet 0 greet-PlainErrors

abbrev failing : ℕ → Task ℕ ℕ Result
failing s = throw s 9

-- A stream of the error handler is driven after a rejection, and sent as text after an exception.
error_stream :
    (deliver show headers_of same_state streaming_errors (await 4 failing) ≡ (4, driven 9))
    × (deliver show headers_of same_state streaming_errors (throw 4 9)
        ≡ (4, returned (native_of show headers_of 4 (stream 9))))
unfolding deliver handle_error on_settled submit settle
error_stream = (refl, refl)

-- Hooks, parsers and decorators are numbers here.
abbrev outer_hooks : Hooks ℕ ℕ ℕ ℕ ℕ ℕ ℕ
outer_hooks = record {
  on_request = 1 ∷ [];
  pre_parsing = [];
  middleware = 2 ∷ [];
  pre_validation = [];
  pre_handler = 3 ∷ [];
  pre_serialization = 4 ∷ [];
  on_response = 5 ∷ [];
  on_send = [];
  on_timeout = [];
  request_decorators = ("user", 1) ∷ ("tenant", 2) ∷ [];
  content_type_parsers = 6 ∷ [];
  error_handler = some 7;
}

abbrev inner_hooks : Hooks ℕ ℕ ℕ ℕ ℕ ℕ ℕ
inner_hooks = record outer_hooks {
  on_request = 11 ∷ [];
  request_decorators = ("user", 3) ∷ [];
  content_type_parsers = 16 ∷ [];
  error_handler = none;
}

abbrev nested : Scope ℕ ℕ ℕ ℕ ℕ ℕ ℕ
nested = child (root outer_hooks) inner_hooks

abbrev route_parts : RouteParts ℕ ℕ
route_parts = record bare { group_middleware = 20 ∷ []; validation = some 21 }

compiled_before : (compile nested route_parts).before ≡ 1 ∷ 11 ∷ 2 ∷ 2 ∷ 20 ∷ 21 ∷ 3 ∷ 3 ∷ []
unfolding compile ancestry Scope.ancestry_from Scope.push_all
compiled_before = refl

compile_lem_example :
    ((compile nested route_parts).before
      ≡ phase (λ s. s.on_request) nested
        ++ phase (λ s. s.pre_parsing) nested
        ++ phase (λ s. s.middleware) nested
        ++ route_parts.group_middleware
        ++ phase (λ s. s.pre_validation) nested
        ++ route_parts.pre_validation
        ++ as_list route_parts.validation
        ++ phase (λ s. s.pre_handler) nested
        ++ route_parts.pre_handler)
    × ((compile nested route_parts).after
        ≡ phase (λ s. s.on_response) nested ++ phase (λ s. s.on_send) nested)
    × ((compile nested route_parts).serialization
        ≡ phase (λ s. s.pre_serialization) nested ++ route_parts.pre_serialization)
    × ((compile nested route_parts).on_timeout ≡ phase (λ s. s.on_timeout) nested)
    × ((compile nested route_parts).parsers ≡ inner_first (λ s. s.content_type_parsers) nested)
    × ((compile nested route_parts).error_handler ≡ nearest (λ s. s.error_handler) nested)
compile_lem_example = compile_lem nested route_parts

no_name_twice : IsMap outer_hooks.request_decorators
unfolding JsMap.has
no_name_twice = (refl, (refl, tt))

nested-Decorated : Decorated (ancestry nested)
unfolding ancestry Scope.ancestry_from JsMap.has
nested-Decorated = (no_name_twice, ((refl, tt), tt))

abbrev staged_two : List Header
staged_two = (codes "x-id", codes "1") ∷ (codes "X-Trace", codes "2") ∷ []

-- A value that tries to start a second header.
abbrev hostile : List Header
hostile = (codes "X-Name", codes "a\r\nSet-Cookie: b") ∷ []

to_native-lines_example :
    split_lines [] (to_native (reply_text (codes "hi") 200) hostile).headers
    ≡ map line_of (sent_headers (reply_text (codes "hi") 200) hostile)
to_native-lines_example = to_native-lines (reply_text (codes "hi") 200) hostile

abbrev set_up : List (Call ℕ ℕ ℕ ℕ ℕ ℕ ℕ)
set_up =
    use_of 31
    ∷ hook_of (on_request_hook 32)
    ∷ parsers_of (33 ∷ 34 ∷ [])
    ∷ use_of 35
    ∷ handler_of 36
    ∷ []
