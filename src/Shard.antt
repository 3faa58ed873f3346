-- ===== src/Shard.antt =====
-- django_redis/client/sharded.py: ShardClient sends each key to the server that the hash ring gives.
pub mod Many
pub mod Init
pub mod Built
pub mod Sets
pub mod Routing
pub mod Single
use django_redis.Prelude.{
  ℕ, zero, suc, ◌+◌, Bool, true, false, Option, none, some, List, [], ◌∷◌, ◌++◌, map, Text, Dict,
  lookup, insert, ◌==◌, if◌then◌else◌, ℤ, ◌+ℤ◌, length,
}
use django_redis.Exec.{
  RedisError, connection_error, Exn, redis_error, connection_interrupted, Result, ok, raise,
  key_error, value_error, index_error, not_implemented, M, ◌>>=◌, ◌>>◌, pure, throw, lift, for_each,
  traverse,
}
use django_redis.Value.{Value, null, is_null, Timeout, seconds}
use django_redis.Keys.{Key, raw, cache_key, key_text, make_key, make_pattern, after_last, or_else}
use django_redis.HashRing.{Shared, get_node}
use django_redis.Redis.{Driver, State, command}
use django_redis.Pool
use django_redis.Client.{Config, nonempty}
use django_redis.Client.Basic
use django_redis.Client.Basic.{key_of}
use django_redis.Client.Expiry
use django_redis.Client.Counters
use django_redis.Client.Counters.{moved_key}
use django_redis.Client.Many.{keys_of, reversed}

-- `_ring` and `_serverdict`, which `__init__` builds.
pub record Servers (C : Type 0) : Type 0 where
  pub ring : Shared
  pub serverdict : Dict C

-- The first line of a text: `.` matches no newline.
unfoldable pub first_line : Text → Text
first_line [] = []
first_line (c ∷ s) = let rest = first_line s in if c == 10 then [] else c ∷ rest

-- s[:s.rindex(c)], if `c` is there.
unfoldable pub before_last : ℕ → Text → Option Text
before_last c [] = none
before_last c (x ∷ s) = elim (before_last c s) [
  | some t ↦ some (x ∷ t)
  | none ↦ if x == c then some [] else none
]

-- The group of `.*\{(.*)\}.*`: greedy, so it ends at the last closing brace of the line, and begins
-- behind the last opening brace before that.
unfoldable pub find_hash : Text → Option Text
unfolding first_line before_last after_last
find_hash key = elim (before_last b'}' (first_line key)) [
  | none ↦ none
  | some t ↦ after_last b'{' t
]

-- except RedisConnectionError as e: raise ConnectionInterrupted(connection=client) from e
abbrev pub connection_interrupts : {S A : Type 0} → Result A × S → Result A × S
connection_interrupts (raise (redis_error connection_error), s) =
    (raise (connection_interrupted connection_error), s)
connection_interrupts r = r

module _ {C : Type 0} (sha256 : Text → ℕ) (v : Servers C) where
  unfoldable pub get_server_name : Text → Result (Option Text)
  unfolding find_hash get_node
  get_server_name key = get_node sha256 (or_else (find_hash key) key) v.ring

  -- self._serverdict[name]
  unfoldable pub server_named : Option Text → Result C
  unfolding lookup
  server_named none = raise key_error
  server_named (some name) = elim (lookup name v.serverdict) [
    | none ↦ raise key_error
    | some c ↦ ok c
  ]

  unfoldable pub get_server : Text → Result C
  unfolding get_server_name server_named
  get_server key = elim (get_server_name key) [ raise e ↦ raise e | ok name ↦ server_named name ]

module _ {W C P : Type 0} (d : Driver W C P) (k : Config) (sha256 : Text → ℕ) (v : Servers C) where
  -- if client is None: key = self.make_key(key, version=version); client = self.get_server(key)
  unfoldable pub route : Key → Option ℤ → Option C → M (State W C P) (Key × C)
  unfolding make_key get_server
  route key version (some c) = pure (key, c)
  route key version none = do
    let key' = make_key k.backend key version none
    c ← lift (get_server sha256 v (key_text key'))
    pure (key', c)

  unfoldable pub set :
      Key → Value → Timeout → Option ℤ → Option C → Bool → Bool → M (State W C P) Bool
  unfolding route Basic.set
  set key value timeout version client nx xx = do
    r ← route key version client
    Basic.set d k r.0 value timeout version (some r.1) nx xx

  unfoldable pub add : Key → Value → Timeout → Option ℤ → Option C → M (State W C P) Bool
  unfolding route set
  add key value timeout version client = do
    r ← route key version client
    set r.0 value timeout version (some r.1) true false

  unfoldable pub get : Key → Value → Option ℤ → Option C → M (State W C P) Value
  unfolding route Basic.get
  get key default version client = do
    r ← route key version client
    Basic.get d k r.0 default version (some r.1)

  unfoldable pub delete : Key → Option ℤ → Option C → M (State W C P) ℕ
  unfolding route Basic.delete
  delete key version client = do
    r ← route key version client
    Basic.delete d k r.0 version none (some r.1)

  unfoldable pub has_key : Key → Option ℤ → Option C → M (State W C P) Bool
  unfolding route make_key
  has_key key version client = do
    r ← route key version client
    λ s.
        connection_interrupts
          ((do n ← command (d.exists r.1 (key_of d k r.0 version)); pure (n == 1)) s)

  unfoldable pub ttl : Key → Option ℤ → Option C → M (State W C P) (Option ℤ)
  unfolding route Expiry.ttl
  ttl key version client = do r ← route key version client; Expiry.ttl d k r.0 version (some r.1)

  unfoldable pub pttl : Key → Option ℤ → Option C → M (State W C P) (Option ℤ)
  unfolding route Expiry.pttl
  pttl key version client = do r ← route key version client; Expiry.pttl d k r.0 version (some r.1)

  unfoldable pub persist : Key → Option ℤ → Option C → M (State W C P) Bool
  unfolding route Expiry.persist
  persist key version client = do
    r ← route key version client
    Expiry.persist d k r.0 version (some r.1)

  unfoldable pub expire : Key → Timeout → Option ℤ → Option C → M (State W C P) Bool
  unfolding route Expiry.expire
  expire key timeout version client = do
    r ← route key version client
    Expiry.expire d k r.0 timeout version (some r.1)

  unfoldable pub pexpire : Key → Timeout → Option ℤ → Option C → M (State W C P) Bool
  unfolding route Expiry.pexpire
  pexpire key timeout version client = do
    r ← route key version client
    Expiry.pexpire d k r.0 timeout version (some r.1)

  unfoldable pub pexpire_at : Key → ℤ → Option ℤ → Option C → M (State W C P) Bool
  unfolding route Expiry.pexpire_at
  pexpire_at key when version client = do
    r ← route key version client
    Expiry.pexpire_at d k r.0 when version (some r.1)

  unfoldable pub expire_at : Key → ℤ → Option ℤ → Option C → M (State W C P) Bool
  unfolding route Expiry.expire_at
  expire_at key when version client = do
    r ← route key version client
    Expiry.expire_at d k r.0 when version (some r.1)

  unfoldable pub touch : Key → Timeout → Option ℤ → Option C → M (State W C P) Bool
  unfolding route Expiry.touch
  touch key timeout version client = do
    r ← route key version client
    Expiry.touch d k r.0 timeout version (some r.1)

  unfoldable pub incr : Key → ℤ → Option ℤ → Option C → M (State W C P) Value
  unfolding route Counters.incr
  incr key delta version client = do
    r ← route key version client
    Counters.incr d k r.0 delta version (some r.1) false

  unfoldable pub decr : Key → ℤ → Option ℤ → Option C → M (State W C P) Value
  unfolding route Counters.decr
  decr key delta version client = do
    r ← route key version client
    Counters.decr d k r.0 delta version (some r.1)
