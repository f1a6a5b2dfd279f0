-- ===== src/Tests/Idempotency.antt =====
-- plugins/idempotency.
use toki.Base.{◌++◌, ◌<◌}
use toki.Base.{
  ℕ, ◌+◌, ◌*◌, String, ◌≤◌, ◌≡◌, refl, inl, suc, some, none, List, [], ◌∷◌, arith, length, false,
}
use toki.Http.Headers.Staging.{staged_value}
use toki.Base.Text.{Text, codes, text_eq}
use toki.Http.Reply.{reply_text, reply_bytes}
use toki.Idempotency.Hooks.{
  without_cookies, Crypto, Options, Request, Reservation, fingerprint, pre_handler, on_send,
  response_bytes,
}
use toki.Idempotency.Hooks.Retry.{last_value, TakesPart, pre_handler-on_send}
use toki.JsMap
use toki.JsMap.Expiry.{Agrees}
use toki.Idempotency.Store.{
  MemoryStore, IdempotencyRecord, Event, begin_of, complete_of, sweep, run, complete, new,
  in_flight, mismatch, replay, step, begin, reserve, make_room, answer, evict,
}
use toki.Idempotency.Store.Ceiling.{length-complete}
use toki.Idempotency.Store.Ideal.{Ideal, ends, ideal_run, run-ideal_slots}
use toki.Idempotency.Store.Once.{passes, AllHold, duration, run-once}

abbrev nobody : Ideal
nobody k = none

abbrev paid : IdempotencyRecord
paid = record {
  fingerprint = "f1";
  status = 201;
  content_type = codes "text/plain";
  body = 79 ∷ 75 ∷ [];
  headers = [];
}

abbrev table : MemoryStore
table = record { slots = []; max_keys = 8 }

-- A request, its retry while it runs, another request under its key, its end, a retry, a sweep.
abbrev payments : List (ℕ × Event)
payments =
    (1, begin_of "k" "f1" 60000)
    ∷ (5, begin_of "k" "f1" 60000)
    ∷ (5, begin_of "k" "f2" 60000)
    ∷ (9, complete_of "k" paid 86400000)
    ∷ (0, begin_of "k" "f1" 60000)
    ∷ (1, sweep)
    ∷ []

payment_answers :
    (run 0 payments table).1
    ≡ some new ∷ some in_flight ∷ some mismatch ∷ none ∷ some (replay paid) ∷ none ∷ []
unfolding run step begin reserve make_room answer complete evict JsMap.get JsMap.set
payment_answers = refl

nothing : (k : String) → JsMap.get k table.slots ≡ none
unfolding JsMap.get
nothing k = refl

table-Agrees : Agrees ends 0 [] nobody
unfolding JsMap.get
table-Agrees = record { distinct = tt; at_key = λ k. inl refl }

run-ideal_slots_example : (run 0 payments table).1 ≡ ideal_run 0 payments nobody
run-ideal_slots_example = run-ideal_slots 0 payments table nobody table-Agrees (omega arith)

payments-AllHold : AllHold "k" 1000 payments
payments-AllHold = (
  λ h. omega arith,
  (λ h. omega arith, (λ h. omega arith, (λ h. omega arith, (λ h. omega arith, (tt, tt))))),
)

payments_last : duration payments ≤ 1000
unfolding duration
payments_last = omega arith

run-once_example : passes "k" payments (run 0 payments table).1 ≤ 1
run-once_example =
    run-once 0 "k" 1000 payments table nobody table-Agrees (omega arith) payments_last
      payments-AllHold

-- One slot, taken by another key since.
abbrev full_table : MemoryStore
full_table = record {
  slots = ("b", record { fingerprint = "f"; stored = none; expires_at = 9 }) ∷ [];
  max_keys = 1;
}

a_gone : JsMap.has "a" full_table.slots ≡ false
unfolding JsMap.has
a_gone = refl

length-complete_example :
    length (complete 3 "a" paid 10 full_table).slots
    ≡ suc (complete 3 "a" paid 10 full_table).max_keys
length-complete_example = length-complete 3 "a" paid 10 full_table refl a_gone

abbrev crypto : Crypto
crypto = record { digest = λ bytes. "f1"; encode = λ text. text }

abbrev options : Options
options = record {
  header = codes "idempotency-key";
  methods = codes "POST" ∷ [];
  required = false;
  ttl = 86400;
  lock_ttl = 60;
}

abbrev payment : Request
payment = record {
  method = codes "POST";
  path = codes "/pay";
  query = [];
  body = some (55 ∷ []);
  key = some "k";
  staged = [];
}

abbrev held : Reservation
held = record { key = "k"; fingerprint = "f1" }

payment_part : TakesPart options payment "k"
unfolding text_eq
payment_part = record { method_listed = refl; has_key = refl; not_empty = refl }

payment_fingerprint : fingerprint crypto payment ≡ held.fingerprint
unfolding fingerprint
payment_fingerprint = refl

paid_below : (reply_text (codes "paid") 201).status < 500
unfolding reply_text
paid_below = omega arith

-- While the record is kept: another key, a retry of the key, and a sweep.
abbrev meanwhile : List (ℕ × Event)
meanwhile = (10, begin_of "other" "f2" 60) ∷ (20, begin_of "k" "f1" 60) ∷ (30, sweep) ∷ []

meanwhile_short : duration meanwhile < options.ttl * 1000
unfolding duration
meanwhile_short = omega arith

pre_handler-on_send_example :
    let res = reply_text (codes "paid") 201 in
    let store' = (run 100 meanwhile (on_send crypto options 100 (some held) payment res table)).0 in
    let out = pre_handler crypto options (100 + duration meanwhile) payment store' in
    (out.response ≡ some (reply_bytes (response_bytes crypto res.body) res.content_type res.status))
    × (out.reserved ≡ none)
    × ((name : Text)
        → staged_value name out.request.staged
          ≡ last_value name
              ((codes "Idempotent-Replayed", codes "true")
                ∷ without_cookies (payment.staged ++ res.headers))
              (staged_value name payment.staged))
pre_handler-on_send_example =
    pre_handler-on_send crypto options 100 held payment payment (reply_text (codes "paid") 201)
      meanwhile table nobody (record { distinct = tt; at_key = λ k. inl (nothing k) }) (omega arith)
      paid_below payment_part payment_fingerprint meanwhile_short (tt, (tt, (tt, tt)))
