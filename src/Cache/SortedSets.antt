-- ===== src/Cache/SortedSets.antt =====
-- django_redis/cache.py: the sorted set commands.
use django_redis.Prelude.{ℕ, Bool, Option, List, Text, ℤ}
use django_redis.Exec.{M}
use django_redis.Value.{Value}
use django_redis.Keys.{Key}
use django_redis.Redis.{Driver, State}
use django_redis.Redis.Lists.{Popped}
use django_redis.Redis.SortedSets.{Bound, AddFlags, Ranged, SortedSetCommands}
use django_redis.Client.{Config}
use django_redis.Client.SortedSets
use django_redis.Cache.{Settings, omitted, or_none}

module _ {W C P F : Type 0} (d : Driver W C P) (z : SortedSetCommands W C F) (k : Config)
    (g : Settings) where
  unfoldable pub zadd :
      Key → List (Value × F) → AddFlags → Option ℤ → Option C → M (State W C P) (Option ℤ)
  unfolding omitted SortedSets.zadd
  zadd name mapping flags version client =
      or_none g (SortedSets.zadd d z k name mapping flags version client)

  unfoldable pub zcard : Key → Option ℤ → Option C → M (State W C P) (Option ℕ)
  unfolding omitted SortedSets.zcard
  zcard name version client = or_none g (SortedSets.zcard d z k name version client)

  unfoldable pub zcount : Key → Bound F → Bound F → Option ℤ → Option C → M (State W C P) (Option ℕ)
  unfolding omitted SortedSets.zcount
  zcount name min max version client =
      or_none g (SortedSets.zcount d z k name min max version client)

  unfoldable pub zincrby : Key → F → Value → Option ℤ → Option C → M (State W C P) (Option F)
  unfolding omitted SortedSets.zincrby
  zincrby name amount value version client =
      or_none g (SortedSets.zincrby d z k name amount value version client)

  unfoldable pub zpopmax :
      Key → Option ℕ → Option ℤ → Option C → M (State W C P) (Option (Popped (Value × F)))
  unfolding omitted SortedSets.zpopmax
  zpopmax name count' version client =
      or_none g (SortedSets.zpopmax d z k name count' version client)

  unfoldable pub zpopmin :
      Key → Option ℕ → Option ℤ → Option C → M (State W C P) (Option (Popped (Value × F)))
  unfolding omitted SortedSets.zpopmin
  zpopmin name count' version client =
      or_none g (SortedSets.zpopmin d z k name count' version client)

  unfoldable pub zrange :
      Key
      → ℤ
      → ℤ
      → Bool
      → Bool
      → (Text → F)
      → Option ℤ
      → Option C
      → M (State W C P) (Option (Ranged Value F))
  unfolding omitted SortedSets.zrange
  zrange name start end desc withscores score_cast_func version client =
      or_none g
        (SortedSets.zrange d z k name start end desc withscores score_cast_func version client)

  unfoldable pub zrangebyscore :
      Key
      → Bound F
      → Bound F
      → Option ℤ
      → Option ℤ
      → Bool
      → (Text → F)
      → Option ℤ
      → Option C
      → M (State W C P) (Option (Ranged Value F))
  unfolding omitted SortedSets.zrangebyscore
  zrangebyscore name min max start num withscores score_cast_func version client = or_none g (
      SortedSets.zrangebyscore d z k name min max start num withscores score_cast_func version
        client)

  unfoldable pub zrank : Key → Value → Option ℤ → Option C → M (State W C P) (Option (Option ℕ))
  unfolding omitted SortedSets.zrank
  zrank name value version client = or_none g (SortedSets.zrank d z k name value version client)

  unfoldable pub zrem : Key → List Value → Option ℤ → Option C → M (State W C P) (Option ℕ)
  unfolding omitted SortedSets.zrem
  zrem name values version client = or_none g (SortedSets.zrem d z k name values version client)

  unfoldable pub zremrangebyscore :
      Key → Bound F → Bound F → Option ℤ → Option C → M (State W C P) (Option ℕ)
  unfolding omitted SortedSets.zremrangebyscore
  zremrangebyscore name min max version client =
      or_none g (SortedSets.zremrangebyscore d z k name min max version client)

  unfoldable pub zrevrange :
      Key
      → ℤ
      → ℤ
      → Bool
      → (Text → F)
      → Option ℤ
      → Option C
      → M (State W C P) (Option (Ranged Value F))
  unfolding omitted SortedSets.zrevrange
  zrevrange name start end withscores score_cast_func version client =
      or_none g
        (SortedSets.zrevrange d z k name start end withscores score_cast_func version client)

  unfoldable pub zrevrangebyscore :
      Key
      → Bound F
      → Bound F
      → Option ℤ
      → Option ℤ
      → Bool
      → (Text → F)
      → Option ℤ
      → Option C
      → M (State W C P) (Option (Ranged Value F))
  unfolding omitted SortedSets.zrevrangebyscore
  zrevrangebyscore name max min start num withscores score_cast_func version client = or_none g (
      SortedSets.zrevrangebyscore d z k name max min start num withscores score_cast_func version
        client)

  unfoldable pub zscore : Key → Value → Option ℤ → Option C → M (State W C P) (Option (Option F))
  unfolding omitted SortedSets.zscore
  zscore name value version client = or_none g (SortedSets.zscore d z k name value version client)
