-- ===== src/Client/Locks.antt =====
-- client/default.py: `lock`. The lock object is redis-py's.
use django_redis.Prelude.{Bool, true, Option, Text, ℤ}
use django_redis.Exec.{M, ◌>>=◌, pure}
use django_redis.Keys.{Key, make_key}
use django_redis.Redis.{Driver, State}
use django_redis.Client.{Config, client_or}
use django_redis.Client.Basic.{key_of}

-- The arguments that are handed on: `times` stands for `timeout`, `sleep`, `blocking_timeout` and
-- `thread_local`.
pub record LockArguments (A : Type 0) : Type 0 where
  pub blocking : Bool
  pub times : A

module _ {W C P A L : Type 0} (d : Driver W C P) (new_lock : C → Text → LockArguments A → L)
    (k : Config) where
  unfoldable pub lock : Key → Option ℤ → LockArguments A → Option C → M (State W C P) L
  unfolding client_or make_key
  lock key version arguments client = do
    c ← client_or d k client true
    pure (new_lock c (key_of d k key version) arguments)
