-- ===== src/Cache/Ignored.antt =====
-- cache.py: what IGNORE_EXCEPTIONS hides from the caller, and what it does not.
use django_redis.Prelude.{◌≡◌, true, Option, some, ℤ, arith, times_1000}
use django_redis.Exec.{RedisError, redis_error, raise}
use django_redis.Value.{Value, seconds}
use django_redis.Keys.{Key}
use django_redis.Redis.{Driver, State, fails}
use django_redis.Client.{Config}
use django_redis.Client.Basic.{key_of}
use django_redis.Client.Expiry
use django_redis.Cache
use django_redis.Cache.{Settings}

module _ {W C P : Type 0} (d : Driver W C P) (k : Config) (g : Settings)
    (on : g.ignore_exceptions ≡ true) where
  -- With IGNORE_EXCEPTIONS on, `touch` still lets an exception of `_main_exceptions` in its command
  -- through: the client does not convert it, so the decorator does not see it.
  pub touch_fails :
      (key : Key) (t : ℤ) (version : Option ℤ) (c : C) (s : State W C P) (e : RedisError) (w : W)
      → d.pexpire c (key_of d k key version) (some (times_1000 t)) s.world ≡ (fails e, w)
      → (Cache.touch d k g key (seconds (some t)) version (some c) s).0 ≡ raise (redis_error e)
  unfolding Cache.touch Expiry.touch
  touch_fails key t version c s e w h = ground arith
