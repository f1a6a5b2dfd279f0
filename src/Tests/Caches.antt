-- ===== src/Tests/Caches.antt =====
-- plugins/cache.
use toki.Base.{◌≡◌, refl, none, [], ◌∷◌, arith, map}
use toki.Base.Text.{codes}
use toki.JsMap
use toki.Cache.Store.{
  MemoryStore, CacheEntry, get_of, set_of, sweep, get, set, run, step, bump, trim, drop_oldest,
  delete,
}
use toki.Cache.Store.Ceiling.{run-IsCache}
use toki.Cache.Store.Recency.{IsCache}
use toki.Cache.Store.Lru.{lru, run-lru}

abbrev page : CacheEntry
page = record {
  status = 200;
  content_type = codes "text/html";
  body = 60 ∷ 62 ∷ [];
  headers = [];
  vary = none;
  stored_at = 10;
  expires_at = 1000;
}

abbrev two : MemoryStore
two = record { entries = ("/a", page) ∷ ("/b", page) ∷ []; max_size = 2 }

two-IsCache : IsCache two
unfolding JsMap.has
two-IsCache = record { distinct = (refl, (refl, tt)); bounded = omega arith }

-- The read of /a makes /b the oldest.
read_then_write :
    map (λ e. e.0) (run 20 ((0, get_of "/a") ∷ (0, set_of "/c" page) ∷ []) two).0.entries
    ≡ "/a" ∷ "/c" ∷ []
unfolding run step get set bump trim drop_oldest delete JsMap.get JsMap.set JsMap.delete
    JsMap.oldest
read_then_write = refl

run-IsCache_example :
    IsCache (run 20 ((0, get_of "/a") ∷ (5, set_of "/c" page) ∷ (9, sweep) ∷ []) two).0
run-IsCache_example =
    run-IsCache 20 ((0, get_of "/a") ∷ (5, set_of "/c" page) ∷ (9, sweep) ∷ []) two two-IsCache

run-lru_example :
    (run 20 ((0, get_of "/a") ∷ (5, set_of "/c" page) ∷ (9, sweep) ∷ []) two).0.entries
    ≡ lru 2 20 ((0, get_of "/a") ∷ (5, set_of "/c" page) ∷ (9, sweep) ∷ []) two.entries
run-lru_example =
    run-lru 20 ((0, get_of "/a") ∷ (5, set_of "/c" page) ∷ (9, sweep) ∷ []) two two-IsCache
