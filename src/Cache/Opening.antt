-- ===== src/Cache/Opening.antt =====
-- django_redis/cache.py and django_redis/__init__.py: what RedisCache reads of the settings, its client,
-- `lock`, and `get_redis_connection`. Django's settings and caches are parameters.
use django_redis.Prelude.{ℕ, Bool, false, Option, none, some, Text, codes, ℤ, Dict, lookup}
use django_redis.Exec.{Result, ok, raise, not_implemented, other_error, M, throw}
use django_redis.Keys.{Key, or_else}
use django_redis.Redis.{Driver, State, Setting, boolean}
use django_redis.Pool.{truthy}
use django_redis.Client.{Config}
use django_redis.Client.Locks
use django_redis.Client.Locks.{LockArguments}
use django_redis.Cache.{Settings, or_none, omitted}

-- DJANGO_REDIS_SCAN_ITERSIZE and DJANGO_REDIS_IGNORE_EXCEPTIONS, where the settings have them.
pub record DjangoSettings : Type 0 where
  pub scan_itersize : Option ℕ
  pub ignore_exceptions : Option Setting

-- The entries of OPTIONS that RedisCache reads.
pub record CacheOptions : Type 0 where
  pub client_class : Option Text
  pub ignore_exceptions : Option Setting

abbrev not_ignored : Setting
not_ignored = boolean false

unfoldable pub read_settings : DjangoSettings → CacheOptions → Settings
read_settings settings options = record {
  ignore_exceptions =
      truthy (or_else options.ignore_exceptions (or_else settings.ignore_exceptions not_ignored));
  scan_itersize = or_else settings.scan_itersize 10;
}

unfoldable pub client_class_path : CacheOptions → Text
client_class_path options = or_else options.client_class (codes "django_redis.client.DefaultClient")

module _ {S L : Type 0} where
  abbrev store_client : Result L × S → Result L × (Option L × S)
  store_client (ok l, s) = (ok l, (some l, s))
  store_client (raise e, s) = (raise e, (none, s))

  -- The property `client`: `_client` is part of the state, and `new` calls the client class.
  unfoldable pub client : M S L → M (Option L × S) L
  client new (none, s) = store_client (new s)
  client new (some l, s) = (ok l, (some l, s))

-- A cache of Django, by what `get_redis_connection` asks of it.
pub data AnyCache (S C : Type 0) : Type 0 where
  without_client : AnyCache S C
  without_get_client : AnyCache S C
  with_get_client : (Bool → M S C) → AnyCache S C

unfoldable pub get_redis_connection : {S C : Type 0} → Dict (AnyCache S C) → Text → Bool → M S C
unfolding lookup
get_redis_connection caches alias write = elim (lookup alias caches) [
  | none ↦ throw other_error
  | some without_client ↦ throw not_implemented
  | some without_get_client ↦ throw not_implemented
  | some (with_get_client get_client) ↦ get_client write
]

module _ {W C P A L : Type 0} (d : Driver W C P) (new_lock : C → Text → LockArguments A → L)
    (k : Config) (g : Settings) where
  unfoldable pub lock : Key → Option ℤ → LockArguments A → Option C → M (State W C P) (Option L)
  unfolding omitted Locks.lock
  lock key version arguments client =
      or_none g (Locks.lock d new_lock k key version arguments client)
