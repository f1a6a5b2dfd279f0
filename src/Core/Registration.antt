-- ===== src/Core/Registration.antt =====
-- ts/core/scope.ts: the calls that fill the hook lists of a scope. The parsers that
-- `addContentTypeParser` makes of its types are an argument: `entries`, one for each type.
use toki.Base.{some, List, [], ◌∷◌, ◌++◌, String}
use toki.Base.{◌≡◌, refl, sym, ap, ◌∙◌, append-nil, append_assoc}
use toki.JsMap
use toki.JsMap.{JsMap}
use toki.Core.Scope.{Hooks}

-- The name given to `addHook`, with the hook.
pub data Hook (M H R T : Type 0) : Type 0 where
  on_request_hook pre_parsing_hook pre_validation_hook pre_handler_hook : M → Hook M H R T
  pre_serialization_hook : H → Hook M H R T
  on_response_hook on_send_hook : R → Hook M H R T
  on_timeout_hook : T → Hook M H R T

pub data Call (M H R T P D X : Type 0) : Type 0 where
  use_of : M → Call M H R T P D X
  hook_of : Hook M H R T → Call M H R T P D X
  handler_of : X → Call M H R T P D X
  decorator_of : String → D → Call M H R T P D X
  parsers_of : List P → Call M H R T P D X

module _ {M H R T P D X : Type 0} where
  -- `use`
  unfoldable pub use_middleware : M → Hooks M H R T P D X → Hooks M H R T P D X
  use_middleware m h = record h { middleware = h.middleware ++ m ∷ [] }

  -- `addHook`
  unfoldable pub add_hook : Hook M H R T → Hooks M H R T P D X → Hooks M H R T P D X
  add_hook (on_response_hook f) h = record h { on_response = h.on_response ++ f ∷ [] }
  add_hook (on_send_hook f) h = record h { on_send = h.on_send ++ f ∷ [] }
  add_hook (pre_parsing_hook f) h = record h { pre_parsing = h.pre_parsing ++ f ∷ [] }
  add_hook (pre_validation_hook f) h = record h { pre_validation = h.pre_validation ++ f ∷ [] }
  add_hook (pre_handler_hook f) h = record h { pre_handler = h.pre_handler ++ f ∷ [] }
  add_hook (pre_serialization_hook f) h = record h {
    pre_serialization = h.pre_serialization ++ f ∷ [];
  }
  add_hook (on_timeout_hook f) h = record h { on_timeout = h.on_timeout ++ f ∷ [] }
  add_hook (on_request_hook f) h = record h { on_request = h.on_request ++ f ∷ [] }

  -- `setErrorHandler`
  unfoldable pub set_error_handler : X → Hooks M H R T P D X → Hooks M H R T P D X
  set_error_handler x h = record h { error_handler = some x }

  -- `decorateRequest`
  unfoldable pub decorate_request : String → D → Hooks M H R T P D X → Hooks M H R T P D X
  decorate_request name value h = record h {
    request_decorators = JsMap.set name value h.request_decorators;
  }

  -- the loop of `addContentTypeParser`
  unfoldable pub add_content_type_parser : List P → Hooks M H R T P D X → Hooks M H R T P D X
  add_content_type_parser [] h = h
  add_content_type_parser (entry ∷ entries) h =
      add_content_type_parser entries
        (record h { content_type_parsers = h.content_type_parsers ++ entry ∷ [] })

  unfoldable pub apply : Call M H R T P D X → Hooks M H R T P D X → Hooks M H R T P D X
  apply (use_of m) h = use_middleware m h
  apply (hook_of f) h = add_hook f h
  apply (handler_of x) h = set_error_handler x h
  apply (decorator_of name value) h = decorate_request name value h
  apply (parsers_of entries) h = add_content_type_parser entries h

  unfoldable pub apply_all : List (Call M H R T P D X) → Hooks M H R T P D X → Hooks M H R T P D X
  apply_all [] h = h
  apply_all (c ∷ cs) h = apply_all cs (apply c h)

  abbrev pub request_of : Call M H R T P D X → List M
  request_of (hook_of (on_request_hook f)) = f ∷ []
  request_of _ = []

  abbrev pub middleware_of : Call M H R T P D X → List M
  middleware_of (use_of m) = m ∷ []
  middleware_of _ = []

  abbrev pub entries_of : Call M H R T P D X → List P
  entries_of (parsers_of entries) = entries
  entries_of _ = []

  pub gathered : {A : Type 0} → (Call M H R T P D X → List A) → List (Call M H R T P D X) → List A
  gathered pick [] = []
  gathered pick (c ∷ cs) = pick c ++ gathered pick cs

  module _ {A : Type 0} (field : Hooks M H R T P D X → List A) (pick : Call M H R T P D X → List A)
      (at_step : (c : Call M H R T P D X) (h : Hooks M H R T P D X)
        → field (apply c h) ≡ field h ++ pick c) where
    field-apply_all :
        (cs : List (Call M H R T P D X)) (h : Hooks M H R T P D X)
        → field (apply_all cs h) ≡ field h ++ gathered pick cs
    unfolding apply_all gathered
    field-apply_all [] h = sym (append-nil (field h))
    field-apply_all (c ∷ cs) h =
        field-apply_all cs (apply c h)
        ∙ ap (λ l. l ++ gathered pick cs) (at_step c h)
        ∙ append_assoc (field h) (pick c) (gathered pick cs)

  parsers_lem :
      (es : List P) (h : Hooks M H R T P D X)
      → ((add_content_type_parser es h).middleware ≡ h.middleware)
        × ((add_content_type_parser es h).on_request ≡ h.on_request)
        × ((add_content_type_parser es h).content_type_parsers ≡ h.content_type_parsers ++ es)
  unfolding add_content_type_parser
  parsers_lem [] h = (refl, refl, sym (append-nil h.content_type_parsers))
  parsers_lem (entry ∷ es) h =
      let (m, r, p) =
        parsers_lem es (record h { content_type_parsers = h.content_type_parsers ++ entry ∷ [] }) in
      (m, r, p ∙ append_assoc h.content_type_parsers (entry ∷ []) es)

  middleware-apply :
      (c : Call M H R T P D X) (h : Hooks M H R T P D X)
      → (apply c h).middleware ≡ h.middleware ++ middleware_of c
  unfolding apply use_middleware add_hook set_error_handler decorate_request add_content_type_parser
  middleware-apply (use_of m) h = refl
  middleware-apply (hook_of (on_request_hook f)) h = sym (append-nil h.middleware)
  middleware-apply (hook_of (pre_parsing_hook f)) h = sym (append-nil h.middleware)
  middleware-apply (hook_of (pre_validation_hook f)) h = sym (append-nil h.middleware)
  middleware-apply (hook_of (pre_handler_hook f)) h = sym (append-nil h.middleware)
  middleware-apply (hook_of (pre_serialization_hook f)) h = sym (append-nil h.middleware)
  middleware-apply (hook_of (on_response_hook f)) h = sym (append-nil h.middleware)
  middleware-apply (hook_of (on_send_hook f)) h = sym (append-nil h.middleware)
  middleware-apply (hook_of (on_timeout_hook f)) h = sym (append-nil h.middleware)
  middleware-apply (handler_of x) h = sym (append-nil h.middleware)
  middleware-apply (decorator_of n v) h = sym (append-nil h.middleware)
  middleware-apply (parsers_of es) h = (parsers_lem es h).0 ∙ sym (append-nil h.middleware)

  on_request-apply :
      (c : Call M H R T P D X) (h : Hooks M H R T P D X)
      → (apply c h).on_request ≡ h.on_request ++ request_of c
  unfolding apply use_middleware add_hook set_error_handler decorate_request add_content_type_parser
  on_request-apply (use_of m) h = sym (append-nil h.on_request)
  on_request-apply (hook_of (on_request_hook f)) h = refl
  on_request-apply (hook_of (pre_parsing_hook f)) h = sym (append-nil h.on_request)
  on_request-apply (hook_of (pre_validation_hook f)) h = sym (append-nil h.on_request)
  on_request-apply (hook_of (pre_handler_hook f)) h = sym (append-nil h.on_request)
  on_request-apply (hook_of (pre_serialization_hook f)) h = sym (append-nil h.on_request)
  on_request-apply (hook_of (on_response_hook f)) h = sym (append-nil h.on_request)
  on_request-apply (hook_of (on_send_hook f)) h = sym (append-nil h.on_request)
  on_request-apply (hook_of (on_timeout_hook f)) h = sym (append-nil h.on_request)
  on_request-apply (handler_of x) h = sym (append-nil h.on_request)
  on_request-apply (decorator_of n v) h = sym (append-nil h.on_request)
  on_request-apply (parsers_of es) h = (parsers_lem es h).1 ∙ sym (append-nil h.on_request)

  parsers-apply :
      (c : Call M H R T P D X) (h : Hooks M H R T P D X)
      → (apply c h).content_type_parsers ≡ h.content_type_parsers ++ entries_of c
  unfolding apply use_middleware add_hook set_error_handler decorate_request add_content_type_parser
  parsers-apply (use_of m) h = sym (append-nil h.content_type_parsers)
  parsers-apply (hook_of (on_request_hook f)) h = sym (append-nil h.content_type_parsers)
  parsers-apply (hook_of (pre_parsing_hook f)) h = sym (append-nil h.content_type_parsers)
  parsers-apply (hook_of (pre_validation_hook f)) h = sym (append-nil h.content_type_parsers)
  parsers-apply (hook_of (pre_handler_hook f)) h = sym (append-nil h.content_type_parsers)
  parsers-apply (hook_of (pre_serialization_hook f)) h = sym (append-nil h.content_type_parsers)
  parsers-apply (hook_of (on_response_hook f)) h = sym (append-nil h.content_type_parsers)
  parsers-apply (hook_of (on_send_hook f)) h = sym (append-nil h.content_type_parsers)
  parsers-apply (hook_of (on_timeout_hook f)) h = sym (append-nil h.content_type_parsers)
  parsers-apply (handler_of x) h = sym (append-nil h.content_type_parsers)
  parsers-apply (decorator_of n v) h = sym (append-nil h.content_type_parsers)
  parsers-apply (parsers_of es) h = (parsers_lem es h).2

-- The lists of a scope hold what was registered, in the order of the calls, behind what was there:
-- `use` fills the middleware, `addHook("onRequest")` the first hooks, `addContentTypeParser` the
-- parsers, one entry for each type; no other call touches them.
pub apply_all_lem :
    {M H R T P D X : Type 0} (cs : List (Call M H R T P D X)) (h : Hooks M H R T P D X)
    → ((apply_all cs h).middleware ≡ h.middleware ++ gathered middleware_of cs)
      × ((apply_all cs h).on_request ≡ h.on_request ++ gathered request_of cs)
      × ((apply_all cs h).content_type_parsers ≡ h.content_type_parsers ++ gathered entries_of cs)
apply_all_lem cs h = (
  field-apply_all (λ s. s.middleware) middleware_of middleware-apply cs h,
  field-apply_all (λ s. s.on_request) request_of on_request-apply cs h,
  field-apply_all (λ s. s.content_type_parsers) entries_of parsers-apply cs h,
)
