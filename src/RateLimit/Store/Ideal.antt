-- ===== src/RateLimit/Store/Ideal.antt =====
-- plugins/ratelimiter/src/store.ts against an ideal fixed-window counter: a function from keys to
-- buckets, with no table, no sweep and no ceiling.
use toki.Base.{
  ℕ, suc, ◌+◌, ◌≤◌, ◌<◌, ◌≡◌, refl, Option, none, some, List, [], ◌∷◌, String, arith, length,
  if◌then◌else◌,
}
use toki.JsMap
use toki.JsMap.{JsMap}
use toki.JsMap.Laws.{length-set-le, length-delete-le}
use toki.JsMap.Evict.{length-delete_where}
use toki.JsMap.Expiry.{assign, Agrees, Agrees-later, Agrees-set, Agrees-delete, Agrees-sweep}
use toki.RateLimit.Store.{
  MemoryStore, Bucket, StoreHit, is_expired, evict, make_room, start_window, count_hit, hit, reset,
  Event, hit_of, reset_of, sweep, step, run,
}

abbrev pub Ideal : Type 0
Ideal = String → Option Bucket

-- A hit: the next count of the running window, or the first of a new one.
abbrev ideal_bucket : ℕ → ℕ → Option Bucket → Bucket
ideal_bucket now window_ms none = record { count = 1; reset_at = now + window_ms }
ideal_bucket now window_ms (some b) =
    if is_expired now b
    then record { count = 1; reset_at = now + window_ms }
    else record b { count = b.count + 1 }

abbrev answer : Bucket → StoreHit
answer b = record { count = b.count; reset_at = b.reset_at }

pub ideal_step : ℕ → Event → Ideal → Ideal × Option StoreHit
ideal_step now (hit_of key window_ms) f =
    let b = ideal_bucket now window_ms (f key) in (assign key (some b) f, some (answer b))
ideal_step now (reset_of key) f = (assign key none f, none)
ideal_step now sweep f = (f, none)

pub ideal_run : ℕ → List (ℕ × Event) → Ideal → List (Option StoreHit)
ideal_run now [] f = []
ideal_run now ((dt, e) ∷ es) f =
    let (f', r) = ideal_step (now + dt) e f in r ∷ ideal_run (now + dt) es f'

-- With room in the table a hit writes the ideal's bucket and answers with it.
hit-ideal :
    (now : ℕ) (key : String) (window_ms : ℕ) (s : MemoryStore) (f : Ideal)
    → Agrees (λ b. b.reset_at) now s.buckets f
    → length s.buckets < s.max_keys
    → hit now key window_ms s ≡ (
      record s { buckets = JsMap.set key (ideal_bucket now window_ms (f key)) s.buckets },
      answer (ideal_bucket now window_ms (f key)),
    )
unfolding hit make_room start_window count_hit
hit-ideal now key window_ms s f a room = ground (arith, a.at_key key)

length-step :
    (now : ℕ) (e : Event) (s : MemoryStore) (f : Ideal)
    → Agrees (λ b. b.reset_at) now s.buckets f
    → length s.buckets < s.max_keys
    → (length (step now e s).0.buckets ≤ suc (length s.buckets))
      × ((step now e s).0.max_keys ≡ s.max_keys)
unfolding step reset evict
length-step now (hit_of key window_ms) s f a room =
    rw (hit-ideal now key window_ms s f a room) (length-set-le key _ s.buckets, refl)
length-step now (reset_of key) s f a room = (omega (arith, length-delete-le key s.buckets), refl)
length-step now sweep s f a room =
    (omega (arith, length-delete_where (is_expired now) s.buckets), refl)

step-ideal :
    (now : ℕ) (e : Event) (s : MemoryStore) (f : Ideal)
    → Agrees (λ b. b.reset_at) now s.buckets f
    → length s.buckets < s.max_keys
    → Agrees (λ b. b.reset_at) now (step now e s).0.buckets (ideal_step now e f).0
      × ((step now e s).1 ≡ (ideal_step now e f).1)
unfolding step ideal_step reset evict
step-ideal now (hit_of key window_ms) s f a room =
    rw (hit-ideal now key window_ms s f a room)
      (Agrees-set (λ b. b.reset_at) now key _ s.buckets f a, refl)
step-ideal now (reset_of key) s f a room =
    (Agrees-delete (λ b. b.reset_at) now key s.buckets f a, refl)
step-ideal now sweep s f a room = (Agrees-sweep (λ b. b.reset_at) now s.buckets f a, refl)

-- While the ceiling leaves room for every event to come, the table answers every hit as the ideal
-- counter does: sweeps are never seen, and a reset forgets just its own key.
pub run-ideal :
    (now : ℕ) (es : List (ℕ × Event)) (s : MemoryStore) (f : Ideal)
    → Agrees (λ b. b.reset_at) now s.buckets f
    → length s.buckets + length es ≤ s.max_keys
    → (run now es s).1 ≡ ideal_run now es f
unfolding run ideal_run
run-ideal now [] s f a room = refl
run-ideal now ((dt, e) ∷ es) s f a room =
    let later = Agrees-later (λ b. b.reset_at) now dt s.buckets f a in
    let (agrees, same) = step-ideal (now + dt) e s f later (omega arith) in
    let (grows, kept) = length-step (now + dt) e s f later (omega arith) in
    let rest = run-ideal (now + dt) es (step (now + dt) e s).0 _ agrees (omega arith) in cc
