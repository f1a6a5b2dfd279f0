-- ===== src/Core/Scope.antt =====
-- ts/core/scope.ts and `#compile`, `#compileNotFound`, `ancestry` of ts/core/app.ts: a route's chains
-- from the scopes that enclose it. `M` is the type of middleware, `H` of serialization hooks, `R` of
-- response hooks, `T` of timeout hooks, `P` of parsers, `D` of decorator values, `X` of error handlers.
pub mod Order
use Prim.Native.Nat.{ℕ}
use toki.Base.{
  Option, none, some, List, [], ◌∷◌, ◌++◌, String, Bool, true, false, leb, length, or_else,
  if◌then◌else◌,
}
use toki.JsMap
use toki.JsMap.{JsMap}

-- The hooks that one scope holds itself.
pub record Hooks (M H R T P D X : Type 0) : Type 0 where
  pub on_request : List M
  pub pre_parsing : List M
  pub middleware : List M
  pub pre_validation : List M
  pub pre_handler : List M
  pub pre_serialization : List H
  pub on_response : List R
  pub on_send : List R
  pub on_timeout : List T
  pub request_decorators : JsMap D
  pub content_type_parsers : List P
  pub error_handler : Option X

-- A scope with its ancestors: the root app, or a child of another scope.
pub data Scope (M H R T P D X : Type 0) : Type 0 where
  root : Hooks M H R T P D X → Scope M H R T P D X
  child : Scope M H R T P D X → Hooks M H R T P D X → Scope M H R T P D X

-- What `#compile` reads off a route besides its scope; `validation` is the step that a schema adds.
pub record RouteParts (M H : Type 0) : Type 0 where
  pub group_middleware : List M
  pub pre_validation : List M
  pub validation : Option M
  pub pre_handler : List M
  pub pre_serialization : List H

pub record Compiled (M H R T P D X : Type 0) : Type 0 where
  pub before : List M
  pub after : List R
  pub serialization : List H
  pub on_timeout : List T
  pub parsers : List P
  pub decorators : Option (JsMap D)
  pub error_handler : Option X
  pub default_status : Option ℕ

module _ {M H R T P D X : Type 0} where
  -- the loop of `ancestry`, from the scope up; `unshift` puts each parent in front
  unfoldable pub ancestry_from :
      Scope M H R T P D X → List (Hooks M H R T P D X) → List (Hooks M H R T P D X)
  ancestry_from (root h) chain = h ∷ chain
  ancestry_from (child p h) chain = ancestry_from p (h ∷ chain)

  unfoldable pub ancestry : Scope M H R T P D X → List (Hooks M H R T P D X)
  unfolding ancestry_from
  ancestry scope = ancestry_from scope []

-- `for (const s of chain) out.push(...s.field)`
unfoldable pub push_all : {C A : Type 0} → (C → List A) → List C → List A → List A
push_all field [] out = out
push_all field (s ∷ chain) out = push_all field chain (out ++ field s)

-- `for (let i = chain.length - 1; i >= 0; i--) out.push(...chain[i].field)`
unfoldable pub push_all_back : {C A : Type 0} → (C → List A) → List C → List A
push_all_back field [] = []
push_all_back field (s ∷ chain) = push_all_back field chain ++ field s

-- `Object.assign(out, source)`
unfoldable pub assign : {D : Type 0} → JsMap D → JsMap D → JsMap D
assign out [] = out
assign out ((k, v) ∷ source) = assign (JsMap.set k v out) source

-- `Object.assign({}, ...chain.map((s) => s.requestDecorators))`, from what is merged so far
unfoldable pub merge_decorators : {C D : Type 0} → (C → JsMap D) → List C → JsMap D → JsMap D
merge_decorators field [] out = out
merge_decorators field (s ∷ chain) out = merge_decorators field chain (assign out (field s))

-- `for (const s of chain) if (s.errorHandler) errorHandler = s.errorHandler`
unfoldable pub last_handler : {C X : Type 0} → (C → Option X) → List C → Option X → Option X
last_handler field [] found = found
last_handler field (s ∷ chain) found = last_handler field chain (or_else (field s) found)

abbrev pub as_list : {A : Type 0} → Option A → List A
as_list none = []
as_list (some a) = a ∷ []

-- `Object.keys(merged).length > 0 ? merged : undefined`
abbrev pub unless_empty : {D : Type 0} → JsMap D → Option (JsMap D)
unless_empty [] = none
unless_empty (e ∷ m) = some (e ∷ m)

module _ {M H R T P D X : Type 0} where
  -- `#compile`
  unfoldable pub compile : Scope M H R T P D X → RouteParts M H → Compiled M H R T P D X
  compile scope route =
      let chain = ancestry scope in
      let b1 = push_all (λ s. s.on_request) chain [] in
      let b2 = push_all (λ s. s.pre_parsing) chain b1 in
      let b3 = push_all (λ s. s.middleware) chain b2 in
      let b4 = b3 ++ route.group_middleware in
      let b5 = push_all (λ s. s.pre_validation) chain b4 in
      let b6 = b5 ++ route.pre_validation in
      let b7 = b6 ++ as_list route.validation in
      let b8 = push_all (λ s. s.pre_handler) chain b7 in
      let a1 = push_all (λ s. s.on_response) chain [] in
      record {
        before = b8 ++ route.pre_handler;
        after = push_all (λ s. s.on_send) chain a1;
        serialization = push_all (λ s. s.pre_serialization) chain [] ++ route.pre_serialization;
        on_timeout = push_all (λ s. s.on_timeout) chain [];
        parsers = push_all_back (λ s. s.content_type_parsers) chain;
        decorators = unless_empty (merge_decorators (λ s. s.request_decorators) chain []);
        error_handler = last_handler (λ s. s.error_handler) chain none;
        default_status = none;
      }

  -- `#compileNotFound`, on the hooks of the root app
  unfoldable pub compile_not_found : Hooks M H R T P D X → Compiled M H R T P D X
  compile_not_found h = record {
    before = h.on_request ++ h.pre_parsing ++ h.middleware ++ h.pre_validation ++ h.pre_handler;
    after = h.on_response ++ h.on_send;
    serialization = h.pre_serialization;
    on_timeout = h.on_timeout;
    parsers = h.content_type_parsers;
    decorators = unless_empty h.request_decorators;
    error_handler = h.error_handler;
    default_status = some 404;
  }
