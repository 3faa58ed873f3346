-- ===== src/Cache/Lists.antt =====
-- django_redis/cache.py: the list commands.
use django_redis.Prelude.{ℕ, Bool, Option, List, ℤ}
use django_redis.Exec.{M}
use django_redis.Value.{Value}
use django_redis.Keys.{Key}
use django_redis.Redis.{Driver, State}
use django_redis.Redis.Lists.{Popped, Where, ListCommands}
use django_redis.Client.{Config}
use django_redis.Client.Lists
use django_redis.Cache.{Settings, omitted, or_none}

module _ {W C P : Type 0} (d : Driver W C P) (l : ListCommands W C) (k : Config)
    (g : Settings) where
  unfoldable pub lpush : Key → List Value → Option ℤ → Option C → M (State W C P) (Option ℕ)
  unfolding omitted Lists.lpush
  lpush key values version client = or_none g (Lists.lpush d l k key values version client)

  unfoldable pub rpush : Key → List Value → Option ℤ → Option C → M (State W C P) (Option ℕ)
  unfolding omitted Lists.rpush
  rpush key values version client = or_none g (Lists.rpush d l k key values version client)

  unfoldable pub lpop :
      Key → Option ℕ → Option ℤ → Option C → M (State W C P) (Option (Popped Value))
  unfolding omitted Lists.lpop
  lpop key count version client = or_none g (Lists.lpop d l k key count version client)

  unfoldable pub rpop :
      Key → Option ℕ → Option ℤ → Option C → M (State W C P) (Option (Popped Value))
  unfolding omitted Lists.rpop
  rpop key count version client = or_none g (Lists.rpop d l k key count version client)

  unfoldable pub llen : Key → Option ℤ → Option C → M (State W C P) (Option ℕ)
  unfolding omitted Lists.llen
  llen key version client = or_none g (Lists.llen d l k key version client)

  unfoldable pub lrange : Key → ℤ → ℤ → Option ℤ → Option C → M (State W C P) (Option (List Value))
  unfolding omitted Lists.lrange
  lrange key start end version client = or_none g (Lists.lrange d l k key start end version client)

  unfoldable pub lindex : Key → ℤ → Option ℤ → Option C → M (State W C P) (Option (Option Value))
  unfolding omitted Lists.lindex
  lindex key index version client = or_none g (Lists.lindex d l k key index version client)

  unfoldable pub lset : Key → ℤ → Value → Option ℤ → Option C → M (State W C P) (Option Bool)
  unfolding omitted Lists.lset
  lset key index value version client = or_none g (Lists.lset d l k key index value version client)

  unfoldable pub lrem : Key → ℤ → Value → Option ℤ → Option C → M (State W C P) (Option ℕ)
  unfolding omitted Lists.lrem
  lrem key count value version client = or_none g (Lists.lrem d l k key count value version client)

  unfoldable pub ltrim : Key → ℤ → ℤ → Option ℤ → Option C → M (State W C P) (Option Bool)
  unfolding omitted Lists.ltrim
  ltrim key start end version client = or_none g (Lists.ltrim d l k key start end version client)

  unfoldable pub linsert :
      Key → Where → Value → Value → Option ℤ → Option C → M (State W C P) (Option ℤ)
  unfolding omitted Lists.linsert
  linsert key where' refvalue value version client =
      or_none g (Lists.linsert d l k key where' refvalue value version client)
