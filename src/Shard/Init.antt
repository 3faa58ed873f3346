-- ===== src/Shard/Init.antt =====
-- django_redis/client/sharded.py: how ShardClient connects, `get_client` and `lock`.
use django_redis.Prelude.{ℕ, true, Option, none, some, List, [], ◌∷◌, Text, ℤ, Dict, insert}
use django_redis.Exec.{not_implemented, M, ◌>>=◌, pure, throw}
use django_redis.Keys.{Key, make_key}
use django_redis.HashRing.{Shared}
use django_redis.HashRing
use django_redis.Redis.{Driver, State}
use django_redis.Pool
use django_redis.Client.{Config}
use django_redis.Client.Locks
use django_redis.Client.Locks.{LockArguments}
use django_redis.Shard.{Servers, route}

module _ {W C P : Type 0} (d : Driver W C P) (k : Config) where
  unfoldable pub get_client : M (State W C P) C
  get_client = throw not_implemented

  -- The loop of `connect`.
  unfoldable pub connect_all : List Text → Dict C → M (State W C P) (Dict C)
  unfolding Pool.connect insert
  connect_all [] acc = pure acc
  connect_all (name ∷ names) acc = do
    c ← Pool.connect d k.import_string k.options name
    connect_all names (insert name c acc)

  unfoldable pub connect : M (State W C P) (Dict C)
  unfolding connect_all
  connect = connect_all k.servers []

  -- __init__, once DefaultClient's is done; `shared` are the names on the list of all rings.
  unfoldable pub init : (Text → ℕ) → List Text → M (State W C P) (Servers C)
  unfolding HashRing.init connect
  init sha256 shared = do
    serverdict ← connect
    pure (record { ring = HashRing.init sha256 shared k.servers 128; serverdict = serverdict })

module _ {W C P A L : Type 0} (d : Driver W C P) (new_lock : C → Text → LockArguments A → L)
    (k : Config) (sha256 : Text → ℕ) (v : Servers C) where
  -- `blocking` is not handed on.
  unfoldable pub lock : Key → Option ℤ → A → Option C → M (State W C P) L
  unfolding route make_key Locks.lock
  lock key version times client = do
    r ← route d k sha256 v key version client
    Locks.lock d new_lock k (make_key k.backend r.0 version none) none
        (record { blocking = true; times = times }) (some r.1)
