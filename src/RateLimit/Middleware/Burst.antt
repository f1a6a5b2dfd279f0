-- ===== src/RateLimit/Middleware/Burst.antt =====
-- plugins/ratelimiter/src/rate-limit.ts: how many requests of one client get through.
use toki.Base.{Option-cases, inl, inr}
use toki.Base.{
  ℕ, ◌+◌, ◌-◌, ◌≤◌, ◌<◌, ◌≡◌, refl, Bool, true, false, Option, none, some, List, [], ◌∷◌, String,
  arith, ltb,
}
use toki.Http.Reply.{TokiResponse}
use toki.JsMap
use toki.JsMap.Laws.{get-set_self}
use toki.RateLimit.Store.{MemoryStore, Bucket, hit, count_hit, start_window, make_room}
use toki.RateLimit.Middleware.{Options, judge, on_hit, block, rate_limit}

-- Requests of one client at the given times: whether each gets through.
unfoldable pub admit_all : Options → String → List ℕ → MemoryStore → List Bool
admit_all o key [] s = []
admit_all o key (now ∷ times) s =
    let (s', a) = rate_limit o now false key [] s in passed a.1 ∷ admit_all o key times s'
  where
    passed : Option TokiResponse → Bool
    passed none = true
    passed (some r) = false

-- The first `room` of so many requests.
unfoldable pub first_only : ℕ → List ℕ → List Bool
first_only room [] = []
first_only room (now ∷ times) = ltb 0 room ∷ first_only (room - 1) times

-- Every request comes before the window is over.
abbrev pub Within : ℕ → List ℕ → Type 0
Within end [] = Unit
Within end (now ∷ times) = (now < end) × Within end times

hit-live :
    (now : ℕ) (key : String) (window : ℕ) (s : MemoryStore) (b : Bucket)
    → JsMap.get key s.buckets ≡ some b
    → now < b.reset_at
    → hit now key window s ≡ count_hit key b s
unfolding hit
hit-live now key window s b found live = rw (found, hit) (ground arith)

in_window :
    (o : Options) (key : String) (times : List ℕ) (s : MemoryStore) (b : Bucket)
    → JsMap.get key s.buckets ≡ some b
    → Within b.reset_at times
    → admit_all o key times s ≡ first_only (o.max - b.count) times
unfolding admit_all first_only rate_limit on_hit judge block count_hit
in_window o key [] s b found h = refl
in_window o key (now ∷ times) s b found h =
    let b' : Bucket = record b { count = b.count + 1 } in
    let rest =
      in_window o key times (record s { buckets = JsMap.set key b' s.buckets }) b'
        (get-set_self key b' s.buckets) h.1 in
    rw (hit-live now key o.window_ms s b found h.0) (ground (arith, rest))

hit-fresh :
    (now : ℕ) (key : String) (window : ℕ) (s : MemoryStore)
    → ((b : Bucket) → JsMap.get key s.buckets ≡ some b → b.reset_at ≤ now)
    → hit now key window s ≡ start_window now key window s
unfolding hit
hit-fresh now key window s over = elim (Option-cases (JsMap.get key s.buckets)) [
  | inl missing ↦ rw (missing, hit) refl
  | inr (b, found) ↦ let old = over b found in rw (found, hit) (ground arith)
]

-- A client with no live window that makes requests one after the other, the later ones within the
-- window of the first, gets exactly the first `max` of them through, whatever other keys the store
-- holds and whether it is full or not.
pub admit_all-first_only :
    (o : Options) (now : ℕ) (key : String) (times : List ℕ) (s : MemoryStore)
    → ((b : Bucket) → JsMap.get key s.buckets ≡ some b → b.reset_at ≤ now)
    → Within (now + o.window_ms) times
    → admit_all o key (now ∷ times) s ≡ first_only o.max (now ∷ times)
unfolding admit_all first_only rate_limit on_hit judge block start_window
admit_all-first_only o now key times s over h =
    let fresh : Bucket = record { count = 1; reset_at = now + o.window_ms } in
    let room = make_room now s in
    let rest =
      in_window o key times (record room { buckets = JsMap.set key fresh room.buckets }) fresh
        (get-set_self key fresh room.buckets) h in
    rw (hit-fresh now key o.window_ms s over) (ground (arith, rest))
