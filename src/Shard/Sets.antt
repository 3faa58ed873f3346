-- ===== src/Shard/Sets.antt =====
-- django_redis/client/sharded.py: the set commands. A `Key` that `route` made is a `CacheKey`, which
-- the version does not change.
use django_redis.Prelude.{ℕ, Bool, Option, none, some, List, ℤ}
use django_redis.Exec.{M, ◌>>=◌}
use django_redis.Value.{Value}
use django_redis.Keys.{Key, make_key}
use django_redis.Redis.{Driver, State}
use django_redis.Redis.Lists.{Popped}
use django_redis.Redis.Sets.{SetCommands}
use django_redis.Client.{Config}
use django_redis.Client.Sets
use django_redis.Client.Sets.{Equality, Match}
use django_redis.Shard.{Servers, route}
use django_redis.Prelude.{Text}

module _ {W C P : Type 0} (d : Driver W C P) (t : SetCommands W C) (q : Equality) (k : Config)
    (sha256 : Text → ℕ) (v : Servers C) where
  unfoldable pub sadd : Key → List Value → Option ℤ → Option C → M (State W C P) ℕ
  unfolding route Sets.sadd
  sadd key values version client = do
    r ← route d k sha256 v key version client
    Sets.sadd d t q k r.0 values version (some r.1)

  unfoldable pub scard : Key → Option ℤ → Option C → M (State W C P) ℕ
  unfolding route Sets.scard
  scard key version client = do
    r ← route d k sha256 v key version client
    Sets.scard d t q k r.0 version (some r.1)

  unfoldable pub sismember : Key → Value → Option ℤ → Option C → M (State W C P) Bool
  unfolding route Sets.sismember
  sismember key member version client = do
    r ← route d k sha256 v key version client
    Sets.sismember d t q k r.0 member version (some r.1)

  unfoldable pub smembers : Key → Option ℤ → Option C → M (State W C P) (List Value)
  unfolding route Sets.smembers
  smembers key version client = do
    r ← route d k sha256 v key version client
    Sets.smembers d t q k r.0 version (some r.1)

  unfoldable pub smismember : Key → List Value → Option ℤ → Option C → M (State W C P) (List Bool)
  unfolding route Sets.smismember
  smismember key members version client = do
    r ← route d k sha256 v key version client
    Sets.smismember d t q k r.0 members version (some r.1)

  unfoldable pub spop : Key → Option ℕ → Option ℤ → Option C → M (State W C P) (Popped Value)
  unfolding route Sets.spop
  spop key count version client = do
    r ← route d k sha256 v key version client
    Sets.spop d t q k r.0 count version (some r.1)

  unfoldable pub srandmember : Key → Option ℕ → Option ℤ → Option C → M (State W C P) (Popped Value)
  unfolding route Sets.srandmember
  srandmember key count version client = do
    r ← route d k sha256 v key version client
    Sets.srandmember d t q k r.0 count version (some r.1)

  unfoldable pub srem : Key → List Value → Option ℤ → Option C → M (State W C P) ℕ
  unfolding route Sets.srem
  srem key members version client = do
    r ← route d k sha256 v key version client
    Sets.srem d t q k r.0 members version (some r.1)

  unfoldable pub sscan : Key → Match → Option ℕ → Option ℤ → Option C → M (State W C P) (List Value)
  unfolding route Sets.sscan
  sscan key match count version client = do
    r ← route d k sha256 v key version client
    Sets.sscan d t q k r.0 match count version (some r.1)

  unfoldable pub sscan_iter :
      Key → Match → Option ℕ → Option ℤ → Option C → M (State W C P) (List Value)
  unfolding route Sets.sscan_iter
  sscan_iter key match count version client = do
    r ← route d k sha256 v key version client
    Sets.sscan_iter d t q k r.0 match count version (some r.1)

  -- The destination of `smove` under the version, where no client was given.
  unfoldable pub destination_key : Key → Option ℤ → Option C → Key
  unfolding make_key
  destination_key destination version none = make_key k.backend destination version none
  destination_key destination version (some c) = destination

  unfoldable pub smove : Key → Key → Value → Option ℤ → Option C → M (State W C P) Bool
  unfolding route Sets.smove destination_key
  smove source destination member version client = do
    r ← route d k sha256 v source version client
    Sets.smove d t q k r.0 (destination_key destination version client) member version (some r.1)
