-- ===== src/Core/Scope/Order.antt =====
-- ts/core/app.ts: the order of a compiled route's chains, read off the nesting of its scopes.
use toki.Base.{
  Option, none, some, List, [], ◌∷◌, ◌++◌, String, ◌≡◌, refl, sym, ap, ◌∙◌, append-nil,
  append_assoc, arith, eq_iff, or_else, or_else_assoc, or_else-none, All,
}
use toki.JsMap
use toki.JsMap.{JsMap}
use toki.JsMap.Laws.{IsMap, get-set, get-eq-none_iff}
use toki.Core.Scope.{
  Hooks, Scope, root, child, RouteParts, ancestry, ancestry_from, push_all, push_all_back, assign,
  merge_decorators, last_handler, as_list, unless_empty, compile, compile_not_found,
}

module _ {M H R T P D X : Type 0} where
  -- A phase: the hooks of the outer scopes, then the scope's own.
  pub phase : {A : Type 0} → (Hooks M H R T P D X → List A) → Scope M H R T P D X → List A
  phase field (root h) = field h
  phase field (child p h) = phase field p ++ field h

  -- The parsers: the scope's own, then those of the outer scopes.
  pub inner_first : {A : Type 0} → (Hooks M H R T P D X → List A) → Scope M H R T P D X → List A
  inner_first field (root h) = field h
  inner_first field (child p h) = field h ++ inner_first field p

  -- The value of the innermost scope that has one.
  pub nearest : {A : Type 0} → (Hooks M H R T P D X → Option A) → Scope M H R T P D X → Option A
  nearest field (root h) = field h
  nearest field (child p h) = or_else (field h) (nearest field p)

push_all-append :
    {C A : Type 0} (field : C → List A) (chain : List C) (out : List A)
    → push_all field chain out ≡ out ++ push_all field chain []
unfolding push_all
push_all-append field [] out = sym (append-nil out)
push_all-append field (s ∷ chain) out =
    push_all-append field chain (out ++ field s)
    ∙ append_assoc out (field s) (push_all field chain [])
    ∙ ap (◌++◌ out) (sym (push_all-append field chain (field s)))

module _ {M H R T P D X : Type 0} where
  phase-chain :
      {A : Type 0} (field : Hooks M H R T P D X → List A) (s : Scope M H R T P D X)
      (chain : List (Hooks M H R T P D X))
      → push_all field (ancestry_from s chain) [] ≡ phase field s ++ push_all field chain []
  unfolding ancestry_from phase push_all
  phase-chain field (root h) chain = push_all-append field chain (field h)
  phase-chain field (child p h) chain =
      phase-chain field p (h ∷ chain)
      ∙ ap (◌++◌ (phase field p)) (push_all-append field chain (field h))
      ∙ sym (append_assoc (phase field p) (field h) (push_all field chain []))

  phase-ancestry :
      {A : Type 0} (field : Hooks M H R T P D X → List A) (s : Scope M H R T P D X) (out : List A)
      → push_all field (ancestry s) out ≡ out ++ phase field s
  unfolding ancestry push_all
  phase-ancestry field s out =
      push_all-append field (ancestry_from s []) out
      ∙ ap (◌++◌ out) (phase-chain field s [] ∙ append-nil (phase field s))

  inner_first-chain :
      {A : Type 0} (field : Hooks M H R T P D X → List A) (s : Scope M H R T P D X)
      (chain : List (Hooks M H R T P D X))
      → push_all_back field (ancestry_from s chain)
        ≡ push_all_back field chain ++ inner_first field s
  unfolding ancestry_from inner_first push_all_back
  inner_first-chain field (root h) chain = refl
  inner_first-chain field (child p h) chain =
      inner_first-chain field p (h ∷ chain)
      ∙ append_assoc (push_all_back field chain) (field h) (inner_first field p)

  inner_first-ancestry :
      {A : Type 0} (field : Hooks M H R T P D X → List A) (s : Scope M H R T P D X)
      → push_all_back field (ancestry s) ≡ inner_first field s
  unfolding ancestry push_all_back
  inner_first-ancestry field s = inner_first-chain field s []

  nearest-chain :
      {A : Type 0} (field : Hooks M H R T P D X → Option A) (s : Scope M H R T P D X)
      (chain : List (Hooks M H R T P D X)) (found : Option A)
      → last_handler field (ancestry_from s chain) found
        ≡ last_handler field chain (or_else (nearest field s) found)
  unfolding ancestry_from nearest last_handler
  nearest-chain field (root h) chain found = refl
  nearest-chain field (child p h) chain found =
      nearest-chain field p (h ∷ chain) found
      ∙ ap (last_handler field chain) (sym (or_else_assoc (field h) (nearest field p) found))

  nearest-ancestry :
      {A : Type 0} (field : Hooks M H R T P D X → Option A) (s : Scope M H R T P D X)
      (found : Option A)
      → last_handler field (ancestry s) found ≡ or_else (nearest field s) found
  unfolding ancestry last_handler
  nearest-ancestry field s found = nearest-chain field s [] found

get-assign :
    {D : Type 0} (k : String) (out source : JsMap D)
    → IsMap source
    → JsMap.get k (assign out source) ≡ or_else (JsMap.get k source) (JsMap.get k out)
unfolding assign JsMap.get
get-assign k out [] h = refl
get-assign k out ((j, v) ∷ source) h = ground (
  arith,
  get-assign k (JsMap.set j v out) source h.1,
  get-set j k v out,
  eq_iff j k,
  get-eq-none_iff k source,
  h.0,
)

module _ {M H R T P D X : Type 0} where
  -- Each scope's decorators are an object: no name stands in it twice.
  abbrev pub Decorated : List (Hooks M H R T P D X) → Type 0
  Decorated = All (λ s. IsMap s.request_decorators)

  get-merge_decorators :
      (k : String) (chain : List (Hooks M H R T P D X)) (out : JsMap D)
      → Decorated chain
      → JsMap.get k (merge_decorators (λ s. s.request_decorators) chain out)
        ≡ last_handler (λ s. JsMap.get k s.request_decorators) chain (JsMap.get k out)
  unfolding merge_decorators last_handler
  get-merge_decorators k [] out h = refl
  get-merge_decorators k (s ∷ chain) out h =
      get-merge_decorators k chain (assign out s.request_decorators) h.1
      ∙ ap (last_handler (λ s. JsMap.get k s.request_decorators) chain)
          (get-assign k out s.request_decorators h.0)

abbrev pub decorator : {D : Type 0} → String → Option (JsMap D) → Option D
decorator k none = none
decorator k (some m) = JsMap.get k m

decorator-unless_empty :
    {D : Type 0} (k : String) (m : JsMap D) → decorator k (unless_empty m) ≡ JsMap.get k m
unfolding JsMap.get
decorator-unless_empty k [] = refl
decorator-unless_empty k (e ∷ m) = refl

-- A compiled route, from the nesting of its scopes: each phase runs the outer scopes' hooks before
-- the inner ones', the phases stand in the order onRequest, preParsing, middleware, group,
-- preValidation, validation, preHandler; parsers are tried from the innermost scope out; and the
-- error handler is that of the innermost scope that has one.
pub compile_lem :
    {M H R T P D X : Type 0} (scope : Scope M H R T P D X) (route : RouteParts M H)
    → ((compile scope route).before
        ≡ phase (λ s. s.on_request) scope
          ++ phase (λ s. s.pre_parsing) scope
          ++ phase (λ s. s.middleware) scope
          ++ route.group_middleware
          ++ phase (λ s. s.pre_validation) scope
          ++ route.pre_validation
          ++ as_list route.validation
          ++ phase (λ s. s.pre_handler) scope
          ++ route.pre_handler)
      × ((compile scope route).after
          ≡ phase (λ s. s.on_response) scope ++ phase (λ s. s.on_send) scope)
      × ((compile scope route).serialization
          ≡ phase (λ s. s.pre_serialization) scope ++ route.pre_serialization)
      × ((compile scope route).on_timeout ≡ phase (λ s. s.on_timeout) scope)
      × ((compile scope route).parsers ≡ inner_first (λ s. s.content_type_parsers) scope)
      × ((compile scope route).error_handler ≡ nearest (λ s. s.error_handler) scope)
unfolding compile
compile_lem scope route = (
  simp phase-ancestry,
  simp phase-ancestry,
  rw phase-ancestry,
  phase-ancestry (λ s. s.on_timeout) scope [],
  inner_first-ancestry (λ s. s.content_type_parsers) scope,
  nearest-ancestry (λ s. s.error_handler) scope none ∙ or_else-none _,
)

-- A request decorator has the value that the innermost scope gives it.
pub compile-decorators :
    {M H R T P D X : Type 0} (scope : Scope M H R T P D X) (route : RouteParts M H) (k : String)
    → Decorated (ancestry scope)
    → decorator k (compile scope route).decorators
      ≡ nearest (λ s. JsMap.get k s.request_decorators) scope
unfolding compile JsMap.get
compile-decorators scope route k h =
    decorator-unless_empty k (merge_decorators (λ s. s.request_decorators) (ancestry scope) [])
    ∙ get-merge_decorators k (ancestry scope) [] h
    ∙ nearest-ancestry (λ s. JsMap.get k s.request_decorators) scope none
    ∙ or_else-none _

abbrev pub bare : {M H : Type 0} → RouteParts M H
bare = record {
  group_middleware = [];
  pre_validation = [];
  validation = none;
  pre_handler = [];
  pre_serialization = [];
}

-- The not-found handler runs the very chains of a route of the root app that has no group, options
-- or schema: the two compilers agree on every chain, the error handler and each decorator.
pub compile_not_found-compile :
    {M H R T P D X : Type 0} (h : Hooks M H R T P D X) (k : String)
    → IsMap h.request_decorators
    → ((compile_not_found h).before ≡ (compile (root h) bare).before)
      × ((compile_not_found h).after ≡ (compile (root h) bare).after)
      × ((compile_not_found h).serialization ≡ (compile (root h) bare).serialization)
      × ((compile_not_found h).on_timeout ≡ (compile (root h) bare).on_timeout)
      × ((compile_not_found h).parsers ≡ (compile (root h) bare).parsers)
      × ((compile_not_found h).error_handler ≡ (compile (root h) bare).error_handler)
      × (decorator k (compile_not_found h).decorators
          ≡ decorator k (compile (root h) bare).decorators)
unfolding compile compile_not_found ancestry push_all push_all_back last_handler nearest JsMap.get
compile_not_found-compile h k d = (
  simp append-nil,
  refl,
  sym (append-nil h.pre_serialization),
  refl,
  refl,
  sym (or_else-none h.error_handler),
  decorator-unless_empty k h.request_decorators ∙ sym (compile-decorators (root h) bare k (d, tt)),
)
