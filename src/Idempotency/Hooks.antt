-- ===== src/Idempotency/Hooks.antt =====
-- plugins/idempotency/src/idempotency.ts and fingerprint.ts, over the in-memory store, whose calls do
-- not throw. SHA-256 in base64url and the UTF-8 encoder are parameters.
pub mod Retry
use toki.Base.{
  ℕ, ◌*◌, Bool, true, false, not, ◌&&◌, Option, none, some, List, [], ◌∷◌, ◌++◌, String, str_eq,
  any, leb, if◌then◌else◌,
}
use toki.Base.Text.{Text, codes, text_eq, to_lower_case}
use toki.Http.Headers.{Header, set_response_header}
use toki.Http.Reply.{Body, chars, octets, TokiResponse, reply_text, reply_bytes}
use toki.Idempotency.Store.{
  MemoryStore, IdempotencyRecord, BeginResult, new, in_flight, mismatch, replay, begin, complete,
  release,
}

pub record Crypto : Type 0 where
  pub digest : List ℕ → String
  pub encode : Text → List ℕ

pub record Options : Type 0 where
  pub header : Text
  pub methods : List Text
  pub required : Bool
  pub ttl : ℕ
  pub lock_ttl : ℕ

-- What the hooks read of a request, and its staged headers; `key` is the header that carries the key.
pub record Request : Type 0 where
  pub method : Text
  pub path : Text
  pub query : Text
  pub body : Option (List ℕ)
  pub key : Option String
  pub staged : List Header

-- What `reserved` holds for a request.
pub record Reservation : Type 0 where
  pub key : String
  pub fingerprint : String

unfoldable pub body_bytes : Option (List ℕ) → List ℕ
body_bytes none = []
body_bytes (some b) = b

-- `fingerprint`
unfoldable pub fingerprint : Crypto → Request → String
fingerprint c req = c.digest (
    c.encode req.method
    ++ c.encode (codes "\n")
    ++ c.encode req.path
    ++ c.encode (codes "\n")
    ++ c.encode req.query
    ++ c.encode (codes "\n")
    ++ body_bytes req.body)

-- Where the `preHandler` hook leaves things: the store, the request, what it has reserved, and its
-- answer.
pub record Handled : Type 0 where
  pub store : MemoryStore
  pub request : Request
  pub reserved : Option Reservation
  pub response : Option TokiResponse

unfoldable pub stage_all : List Header → List Header → List Header
stage_all [] staged = staged
stage_all ((name, value) ∷ hs) staged = stage_all hs (set_response_header name value staged)

-- the headers that a replay stages
unfoldable pub replay_headers : IdempotencyRecord → List Header → List Header
replay_headers r staged =
    stage_all r.headers (set_response_header (codes "Idempotent-Replayed") (codes "true") staged)

-- the `switch` on what `begin` gave
unfoldable pub on_begin : Request → Reservation → MemoryStore × BeginResult → Handled
on_begin req held (store, new) = record {
  store = store;
  request = req;
  reserved = some held;
  response = none;
}
on_begin req held (store, replay r) = record {
  store = store;
  request = record req { staged = replay_headers r req.staged };
  reserved = none;
  response = some (reply_bytes r.body r.content_type r.status);
}
on_begin req held (store, in_flight) = record {
  store = store;
  request = req;
  reserved = none;
  response =
      some (reply_text (codes "A request with this Idempotency-Key is already in progress") 409);
}
on_begin req held (store, mismatch) = record {
  store = store;
  request = req;
  reserved = none;
  response =
      some
        (reply_text (codes "This Idempotency-Key was already used with different parameters") 422);
}

unfoldable pub pass : Request → MemoryStore → Option TokiResponse → Handled
pass req store response = record {
  store = store;
  request = req;
  reserved = none;
  response = response;
}

-- the branch for a request without a key
unfoldable pub without_key : Options → Request → MemoryStore → Handled
without_key o req store =
    pass req store
      (if o.required then some (reply_text (o.header ++ codes " header is required") 400) else none)

-- `begin` under the key, and the `switch`
unfoldable pub with_key : Crypto → Options → ℕ → String → Request → MemoryStore → Handled
with_key c o now key req store =
    let fp = fingerprint c req in
    on_begin req (record { key = key; fingerprint = fp })
      (begin now key fp (o.lock_ttl * 1000) store)

-- the `preHandler` hook, on the key
unfoldable pub on_key : Crypto → Options → ℕ → Option String → Request → MemoryStore → Handled
on_key c o now none req store = without_key o req store
on_key c o now (some key) req store =
    if str_eq key "" then without_key o req store else with_key c o now key req store

-- the `preHandler` hook
unfoldable pub pre_handler : Crypto → Options → ℕ → Request → MemoryStore → Handled
pre_handler c o now req store =
    if any (text_eq req.method) o.methods
    then on_key c o now req.key req store
    else pass req store none

-- `filter(([name]) => !SKIP_HEADERS.has(name.toLowerCase()))`
unfoldable pub without_cookies : List Header → List Header
without_cookies [] = []
without_cookies ((name, value) ∷ hs) =
    let rest = without_cookies hs in
    if text_eq (to_lower_case name) (codes "set-cookie") then rest else (name, value) ∷ rest

unfoldable pub response_bytes : Crypto → Body → List ℕ
response_bytes c (chars text) = c.encode text
response_bytes c (octets b) = b

-- the record of a response
unfoldable pub captured : Crypto → Reservation → Request → TokiResponse → IdempotencyRecord
captured c held req res = record {
  fingerprint = held.fingerprint;
  status = res.status;
  content_type = res.content_type;
  body = response_bytes c res.body;
  headers = without_cookies (req.staged ++ res.headers);
}

-- the `onSend` hook, for a request that holds a reservation
unfoldable pub settle_held :
    Crypto → Options → ℕ → Reservation → Request → TokiResponse → MemoryStore → MemoryStore
settle_held c o now held req res store =
    if leb 500 res.status
    then release held.key store
    else complete now held.key (captured c held req res) (o.ttl * 1000) store

-- the `onSend` hook
unfoldable pub on_send :
    Crypto → Options → ℕ → Option Reservation → Request → TokiResponse → MemoryStore → MemoryStore
on_send c o now none req res store = store
on_send c o now (some held) req res store = settle_held c o now held req res store
