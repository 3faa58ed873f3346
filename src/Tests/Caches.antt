-- ===== src/Tests/Caches.antt =====
-- Tests of cache.py and pool.py.
use django_redis.Prelude.{
  ℕ, ◌≡◌, refl, true, false, none, some, [], ◌∷◌, Text, codes, pos, times_1000, Dict, lookup,
  insert, text_eq,
}
use django_redis.Exec.{connection_error, redis_error, ok, raise}
use django_redis.Value.{seconds}
use django_redis.Redis.{State, Setting, text}
use django_redis.Pool.{
  url_key, get_or_create_connection_pool, create_pool, get_connection_pool, store_pool, from_url,
  give_password,
}
use django_redis.Pool.Cache.{requests, get_or_create_connection_pool_cached}
use django_redis.Cache
use django_redis.Cache.{Settings}
use django_redis.Cache.Ignored.{touch_fails}
use django_redis.Tests.{key, at, World, empty, driver, options, config, state}

abbrev settings : Settings
settings = record { ignore_exceptions = true; scan_itersize = 10 }

touch_fails_example :
    (Cache.touch (driver true) config settings key (seconds (some (pos 60))) none (some 0) state).0
    ≡ raise (redis_error connection_error)
touch_fails_example =
    touch_fails (driver true) config settings refl key (pos 60) none 0 state connection_error empty
      (unfold times_1000 in refl)

abbrev params : Dict Setting
params = (url_key, text (codes "redis://a")) ∷ []

abbrev cached : State World ℕ Text
cached = record state { pools = (codes "redis://a", codes "pool") ∷ [] }

first_pool :
    get_or_create_connection_pool (driver false) (λ s. s) options params state
    ≡ (ok (codes "pool"), cached)
unfolding get_or_create_connection_pool create_pool get_connection_pool from_url give_password
    store_pool lookup insert text_eq
first_pool = refl

-- A request for another URL comes between.
abbrev other_params : Dict Setting
other_params = (url_key, text (codes "redis://b")) ∷ []

abbrev later : State World ℕ Text
later = record (requests (driver false) (λ s. s) options ((other_params, at 3) ∷ []) cached) {
  world = at 5;
}

get_or_create_connection_pool_cached_example :
    get_or_create_connection_pool (driver false) (λ s. s) options params later
    ≡ (ok (codes "pool"), later)
get_or_create_connection_pool_cached_example =
    get_or_create_connection_pool_cached (driver false) (λ s. s) options params params state cached
      (codes "pool") ((other_params, at 3) ∷ []) (at 5) first_pool refl
