-- ===== src/Cache/Sets.antt =====
-- django_redis/cache.py: the set commands.
use django_redis.Prelude.{ℕ, Bool, Option, List, ℤ}
use django_redis.Exec.{M}
use django_redis.Value.{Value}
use django_redis.Keys.{Key}
use django_redis.Redis.{Driver, State}
use django_redis.Redis.Lists.{Popped}
use django_redis.Redis.Sets.{SetCommands}
use django_redis.Client.{Config}
use django_redis.Client.Sets
use django_redis.Client.Sets.{Equality, Match}
use django_redis.Cache.{Settings, omitted, or_none}

module _ {W C P : Type 0} (d : Driver W C P) (t : SetCommands W C) (q : Equality) (k : Config)
    (g : Settings) where
  unfoldable pub sadd : Key → List Value → Option ℤ → Option C → M (State W C P) (Option ℕ)
  unfolding omitted Sets.sadd
  sadd key values version client = or_none g (Sets.sadd d t q k key values version client)

  unfoldable pub scard : Key → Option ℤ → Option C → M (State W C P) (Option ℕ)
  unfolding omitted Sets.scard
  scard key version client = or_none g (Sets.scard d t q k key version client)

  unfoldable pub sdiff : List Key → Option ℤ → Option C → M (State W C P) (Option (List Value))
  unfolding omitted Sets.sdiff
  sdiff keys version client = or_none g (Sets.sdiff d t q k keys version client)

  unfoldable pub sdiffstore :
      Key → List Key → Option ℤ → Option ℤ → Option C → M (State W C P) (Option ℕ)
  unfolding omitted Sets.sdiffstore
  sdiffstore dest keys version_dest version_keys client =
      or_none g (Sets.sdiffstore d t q k dest keys version_dest version_keys client)

  unfoldable pub sinter : List Key → Option ℤ → Option C → M (State W C P) (Option (List Value))
  unfolding omitted Sets.sinter
  sinter keys version client = or_none g (Sets.sinter d t q k keys version client)

  unfoldable pub sinterstore : Key → List Key → Option ℤ → Option C → M (State W C P) (Option ℕ)
  unfolding omitted Sets.sinterstore
  sinterstore dest keys version client =
      or_none g (Sets.sinterstore d t q k dest keys version client)

  unfoldable pub sismember : Key → Value → Option ℤ → Option C → M (State W C P) (Option Bool)
  unfolding omitted Sets.sismember
  sismember key member version client = or_none g (Sets.sismember d t q k key member version client)

  unfoldable pub smembers : Key → Option ℤ → Option C → M (State W C P) (Option (List Value))
  unfolding omitted Sets.smembers
  smembers key version client = or_none g (Sets.smembers d t q k key version client)

  unfoldable pub smismember :
      Key → List Value → Option ℤ → Option C → M (State W C P) (Option (List Bool))
  unfolding omitted Sets.smismember
  smismember key members version client =
      or_none g (Sets.smismember d t q k key members version client)

  unfoldable pub smove : Key → Key → Value → Option ℤ → Option C → M (State W C P) (Option Bool)
  unfolding omitted Sets.smove
  smove source destination member version client =
      or_none g (Sets.smove d t q k source destination member version client)

  unfoldable pub spop :
      Key → Option ℕ → Option ℤ → Option C → M (State W C P) (Option (Popped Value))
  unfolding omitted Sets.spop
  spop key count version client = or_none g (Sets.spop d t q k key count version client)

  unfoldable pub srandmember :
      Key → Option ℕ → Option ℤ → Option C → M (State W C P) (Option (Popped Value))
  unfolding omitted Sets.srandmember
  srandmember key count version client =
      or_none g (Sets.srandmember d t q k key count version client)

  unfoldable pub srem : Key → List Value → Option ℤ → Option C → M (State W C P) (Option ℕ)
  unfolding omitted Sets.srem
  srem key members version client = or_none g (Sets.srem d t q k key members version client)

  unfoldable pub sscan :
      Key → Match → Option ℕ → Option ℤ → Option C → M (State W C P) (Option (List Value))
  unfolding omitted Sets.sscan
  sscan key match count version client =
      or_none g (Sets.sscan d t q k key match count version client)

  unfoldable pub sscan_iter :
      Key → Match → Option ℕ → Option ℤ → Option C → M (State W C P) (Option (List Value))
  unfolding omitted Sets.sscan_iter
  sscan_iter key match count version client =
      or_none g (Sets.sscan_iter d t q k key match count version client)

  unfoldable pub sunion : List Key → Option ℤ → Option C → M (State W C P) (Option (List Value))
  unfolding omitted Sets.sunion
  sunion keys version client = or_none g (Sets.sunion d t q k keys version client)

  unfoldable pub sunionstore : Key → List Key → Option ℤ → Option C → M (State W C P) (Option ℕ)
  unfolding omitted Sets.sunionstore
  sunionstore destination keys version client =
      or_none g (Sets.sunionstore d t q k destination keys version client)
