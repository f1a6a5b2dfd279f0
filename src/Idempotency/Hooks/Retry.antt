-- ===== src/Idempotency/Hooks/Retry.antt =====
-- plugins/idempotency: what a retry gets.
use toki.Base.{
  [], ◌∷◌, ◌++◌, Option, ap, ◌∙◌, if◌then◌else◌, length, List, ℕ, ◌+◌, ◌*◌, ◌≤◌, ◌<◌, ◌≡◌, refl,
  true, false, none, some, String, str_eq, any, leb, arith, eq_refl,
}
use toki.Base.Text.{Text, codes, text_eq}
use toki.Http.Headers.{Header, same_name, set_response_header}
use toki.Http.Headers.Staging.{staged_value, staged_value-set_response_header}
use toki.Http.Reply.{TokiResponse, reply_bytes}
use toki.JsMap
use toki.JsMap.{JsMap}
use toki.JsMap.Laws.{IsMap, get-delete}
use toki.JsMap.Expiry.{Agrees}
use toki.Idempotency.Store.Ideal.{Ideal, ends}
use toki.Idempotency.Store.Once.{duration}
use toki.Idempotency.Store.Kept.{AllSpare, begin-run, length-complete_le}
use toki.Idempotency.Store.{
  BeginResult, Event, run, MemoryStore, IdempotencyRecord, replay, begin, reserve, complete,
  release,
}
use toki.Idempotency.Hooks.{
  stage_all, without_cookies, Handled, Crypto, Options, Request, Reservation, fingerprint,
  replay_headers, on_begin, with_key, on_key, pre_handler, captured, settle_held, on_send,
  response_bytes,
}

-- The request takes part under this key.
pub record TakesPart (o : Options) (req : Request) (key : String) : Type 0 where
  pub method_listed : any (text_eq req.method) o.methods ≡ true
  pub has_key : req.key ≡ some key
  pub not_empty : str_eq key "" ≡ false

pre_handler-with_key :
    (c : Crypto) (o : Options) (now : ℕ) (req : Request) (key : String) (store : MemoryStore)
    → TakesPart o req key
    → pre_handler c o now req store ≡ with_key c o now key req store
unfolding pre_handler on_key
pre_handler-with_key c o now req key store t = rw (t.method_listed, t.has_key, t.not_empty) refl

-- What a retry gets, and what it leaves reserved.
record Replays (r : IdempotencyRecord) (retry : Request) (out : Handled) : Type 0 where
  answered : out.response ≡ some (reply_bytes r.body r.content_type r.status)
  unreserved : out.reserved ≡ none
  staged : out.request ≡ record retry { staged = replay_headers r retry.staged }

on_begin-Replays :
    (retry : Request) (held : Reservation) (r : IdempotencyRecord) (b : BeginResult)
    (store : MemoryStore)
    → b ≡ replay r
    → Replays r retry (on_begin retry held (store, b))
unfolding on_begin
on_begin-Replays retry held r b store e =
    rw e (record { answered = refl; unreserved = refl; staged = refl })

-- The last value that the headers give a name, or the one that it had.
unfoldable pub last_value : Text → List Header → Option Text → Option Text
last_value name [] had = had
last_value name ((n, v) ∷ hs) had = last_value name hs (if same_name n name then some v else had)

staged_value-stage_all :
    (name : Text) (hs staged : List Header)
    → staged_value name (stage_all hs staged) ≡ last_value name hs (staged_value name staged)
unfolding stage_all last_value
staged_value-stage_all name [] staged = refl
staged_value-stage_all name ((n, v) ∷ hs) staged =
    staged_value-stage_all name hs (set_response_header n v staged)
    ∙ ap (last_value name hs) (staged_value-set_response_header n name v staged)

-- A response below 500 is replayed: a retry with the same key and fingerprint, before the record's
-- time is over, gets the status, the content type and the body of the response without running the
-- handler, and reserves nothing. Of each header it stages the last value among `Idempotent-Replayed`,
-- the headers staged for the first request and those of its response but Set-Cookie; a name that is
-- not among them keeps its value. Between them the store may see any `begin` (of the key too),
-- completions and releases of other keys, and sweeps, as long as the ceiling leaves room for each.
pub pre_handler-on_send :
    (c : Crypto) (o : Options) (now : ℕ) (held : Reservation) (req retry : Request)
    (res : TokiResponse) (es : List (ℕ × Event)) (store : MemoryStore) (f : Ideal)
    → Agrees ends now store.slots f
    → length store.slots + length es < store.max_keys
    → res.status < 500
    → TakesPart o retry held.key
    → fingerprint c retry ≡ held.fingerprint
    → duration es < o.ttl * 1000
    → AllSpare held.key es
    → let store' = (run now es (on_send c o now (some held) req res store)).0 in
      let out = pre_handler c o (now + duration es) retry store' in
      (out.response ≡ some (reply_bytes (response_bytes c res.body) res.content_type res.status))
      × (out.reserved ≡ none)
      × ((name : Text)
          → staged_value name out.request.staged
            ≡ last_value name
                ((codes "Idempotent-Replayed", codes "true")
                  ∷ without_cookies (req.staged ++ res.headers))
                (staged_value name retry.staged))
unfolding on_send settle_held with_key captured replay_headers stage_all
pre_handler-on_send c o now held req retry res es store f a room good part same live spared =
    let r = captured c held req res in
    let ttl = o.ttl * 1000 in
    let later = now + duration es in
    let s' = (run now es (complete now held.key r ttl store)).0 in
    let small : leb 500 res.status ≡ false = ground arith in
    let free : length (complete now held.key r ttl store).slots + length es ≤ store.max_keys =
      omega (arith, room, length-complete_le now held.key r ttl store) in
    let again : (begin later held.key (fingerprint c retry) (o.lock_ttl * 1000) s').1 ≡ replay r =
      rw same (begin-run now held.key r ttl (o.lock_ttl * 1000) es store f a free live spared) in
    let mine : Reservation = record { key = held.key; fingerprint = fingerprint c retry } in
    let (s'', b) = begin later held.key (fingerprint c retry) (o.lock_ttl * 1000) s' in
    let replays = on_begin-Replays retry mine r b s'' again in
    rw (small, pre_handler-with_key c o later retry held.key s' part)
      (
        replays.answered,
        replays.unreserved,
        λ name.
            ap (λ request. staged_value name request.staged) replays.staged
            ∙ staged_value-stage_all name
                ((codes "Idempotent-Replayed", codes "true")
                  ∷ without_cookies (req.staged ++ res.headers))
                retry.staged,
      )

-- A server error is not stored: after a response of 500 or more a retry under the key runs the
-- handler again, whatever its parameters, and holds the key. The keys of the store are distinct.
pre_handler-on_send_error :
    (c : Crypto) (o : Options) (now later : ℕ) (held : Reservation) (req retry : Request)
    (res : TokiResponse) (store : MemoryStore)
    → IsMap store.slots
    → 500 ≤ res.status
    → TakesPart o retry held.key
    → ((pre_handler c o later retry (on_send c o now (some held) req res store)).response ≡ none)
      × ((pre_handler c o later retry (on_send c o now (some held) req res store)).reserved
          ≡ some (record { key = held.key; fingerprint = fingerprint c retry }))
unfolding on_send settle_held with_key on_begin begin reserve release
pre_handler-on_send_error c o now later held req retry res store d bad part =
    let big : leb 500 res.status ≡ true = ground arith in
    let gone : JsMap.get held.key (JsMap.delete held.key store.slots) ≡ none =
      ground (arith, get-delete held.key held.key store.slots d, eq_refl held.key) in
    rw
      (
        pre_handler-with_key c o later retry held.key (on_send c o now (some held) req res store)
            part,
        big,
        with_key,
        begin,
        gone,
      )
      (refl, refl)
