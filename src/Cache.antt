-- ===== src/Cache.antt =====
-- django_redis/cache.py: RedisCache over a DefaultClient. A method that ignores an interrupted
-- connection returns the value of its decorator, mostly None.
pub mod Ignored
pub mod Lists
pub mod Sets
pub mod SortedSets
pub mod Opening
use django_redis.Prelude.{
  ℕ, ltb, Bool, true, false, Option, none, some, List, [], Text, Dict, if◌then◌else◌, ℤ,
}
use django_redis.Exec.{
  Exn, redis_error, connection_interrupted, Result, ok, raise, M, ◌>>=◌, ◌>>◌, pure,
}
use django_redis.Value.{Value, Timeout}
use django_redis.Keys.{Key}
use django_redis.Redis.{Driver, State}
use django_redis.Client
use django_redis.Client.{Config}
use django_redis.Client.Basic
use django_redis.Client.Expiry
use django_redis.Client.Many
use django_redis.Client.Counters
use django_redis.Client.Hashes

-- What RedisCache reads of the settings; `scan_itersize` is DJANGO_REDIS_SCAN_ITERSIZE.
pub record Settings : Type 0 where
  pub ignore_exceptions : Bool
  pub scan_itersize : ℕ

-- The decorator: `value` is its `return_value`. Logging is left out.
unfoldable pub omitted : {S A : Type 0} → Bool → A → Result A × S → Result A × S
omitted ignore value (raise (connection_interrupted e), s) =
    if ignore then (ok value, s) else (raise (redis_error e), s)
omitted ignore value r = r

abbrev pub omit_exception : {S A : Type 0} → Bool → A → M S A → M S A
omit_exception ignore value m s = omitted ignore value (m s)

-- The decorator with its default, None.
abbrev pub or_none : {S A : Type 0} → Settings → M S A → M S (Option A)
or_none g m = omit_exception g.ignore_exceptions none (do a ← m; pure (some a))

module _ {W C P : Type 0} (d : Driver W C P) (k : Config) (g : Settings) where
  unfoldable pub set :
      Key → Value → Timeout → Option ℤ → Option C → Bool → Bool → M (State W C P) (Option Bool)
  unfolding omitted Basic.set
  set key value timeout version client nx xx =
      or_none g (Basic.set d k key value timeout version client nx xx)

  unfoldable pub incr_version : Key → ℤ → Option ℤ → Option C → M (State W C P) (Option ℤ)
  unfolding omitted Counters.incr_version
  incr_version key delta version client =
      or_none g (Counters.incr_version d k key delta version client)

  unfoldable pub add : Key → Value → Timeout → Option ℤ → Option C → M (State W C P) (Option Bool)
  unfolding omitted Basic.add
  add key value timeout version client = or_none g (Basic.add d k key value timeout version client)

  -- `_get` returns CONNECTION_INTERRUPTED, here `none`, for an ignored exception.
  unfoldable pub _get : Key → Value → Option ℤ → Option C → M (State W C P) (Option Value)
  unfolding omitted Basic.get
  _get key default version client = or_none g (Basic.get d k key default version client)

  unfoldable pub get : Key → Value → Option ℤ → Option C → M (State W C P) Value
  unfolding _get
  get key default version client = do
    value ← _get key default version client
    pure (elim value [ none ↦ default | some v ↦ v ])

  -- A Boolean since Django 3.1.
  unfoldable pub delete : Key → Option ℤ → Option Text → Option C → M (State W C P) (Option Bool)
  unfolding omitted Basic.delete
  delete key version prefix client =
      or_none g (do n ← Basic.delete d k key version prefix client; pure (ltb 0 n))

  unfoldable pub delete_pattern :
      Key → Option ℤ → Option Text → Option C → Option ℕ → M (State W C P) (Option ℕ)
  unfolding omitted Many.delete_pattern
  delete_pattern pattern version prefix client itersize = or_none g (
      Many.delete_pattern d k pattern version prefix client
        (elim itersize [ none ↦ some g.scan_itersize | some n ↦ some n ]))

  unfoldable pub delete_many : List Key → Option ℤ → Option C → M (State W C P) (Option ℕ)
  unfolding omitted Many.delete_many
  delete_many keys' version client = or_none g (Many.delete_many d k keys' version client)

  unfoldable pub clear : M (State W C P) (Option Unit)
  unfolding omitted Many.clear
  clear = or_none g (Many.clear d k none)

  unfoldable pub get_many : List Key → Option ℤ → Option C → M (State W C P) (Dict Value)
  unfolding omitted Many.get_many
  get_many keys' version client =
      omit_exception g.ignore_exceptions [] (Many.get_many d k keys' version client)

  unfoldable pub set_many :
      List (Key × Value) → Timeout → Option ℤ → Option C → M (State W C P) (Option Unit)
  unfolding omitted Many.set_many
  set_many entries timeout version client =
      or_none g (Many.set_many d k entries timeout version client)

  unfoldable pub incr : Key → ℤ → Option ℤ → Option C → Bool → M (State W C P) (Option Value)
  unfolding omitted Counters.incr
  incr key delta version client ignore_key_check =
      or_none g (Counters.incr d k key delta version client ignore_key_check)

  unfoldable pub decr : Key → ℤ → Option ℤ → Option C → M (State W C P) (Option Value)
  unfolding omitted Counters.decr
  decr key delta version client = or_none g (Counters.decr d k key delta version client)

  unfoldable pub has_key : Key → Option ℤ → Option C → M (State W C P) (Option Bool)
  unfolding omitted Basic.has_key
  has_key key version client = or_none g (Basic.has_key d k key version client)

  unfoldable pub keys : Key → Option ℤ → Option C → M (State W C P) (Option (List Text))
  unfolding omitted Many.keys
  keys search version client = or_none g (Many.keys d k search version client)

  unfoldable pub iter_keys :
      Key → Option ℕ → Option C → Option ℤ → M (State W C P) (Option (List Text))
  unfolding omitted Many.iter_keys
  iter_keys search itersize client version =
      or_none g (Many.iter_keys d k search itersize client version)

  unfoldable pub ttl : Key → Option ℤ → Option C → M (State W C P) (Option (Option ℤ))
  unfolding omitted Expiry.ttl
  ttl key version client = or_none g (Expiry.ttl d k key version client)

  unfoldable pub pttl : Key → Option ℤ → Option C → M (State W C P) (Option (Option ℤ))
  unfolding omitted Expiry.pttl
  pttl key version client = or_none g (Expiry.pttl d k key version client)

  unfoldable pub persist : Key → Option ℤ → Option C → M (State W C P) (Option Bool)
  unfolding omitted Expiry.persist
  persist key version client = or_none g (Expiry.persist d k key version client)

  unfoldable pub expire : Key → Timeout → Option ℤ → Option C → M (State W C P) (Option Bool)
  unfolding omitted Expiry.expire
  expire key timeout version client = or_none g (Expiry.expire d k key timeout version client)

  unfoldable pub expire_at : Key → ℤ → Option ℤ → Option C → M (State W C P) (Option Bool)
  unfolding omitted Expiry.expire_at
  expire_at key when version client = or_none g (Expiry.expire_at d k key when version client)

  unfoldable pub pexpire : Key → Timeout → Option ℤ → Option C → M (State W C P) (Option Bool)
  unfolding omitted Expiry.pexpire
  pexpire key timeout version client = or_none g (Expiry.pexpire d k key timeout version client)

  unfoldable pub pexpire_at : Key → ℤ → Option ℤ → Option C → M (State W C P) (Option Bool)
  unfolding omitted Expiry.pexpire_at
  pexpire_at key when version client = or_none g (Expiry.pexpire_at d k key when version client)

  unfoldable pub close : M (State W C P) (Option Unit)
  unfolding omitted Client.close
  close = or_none g (Client.close d k)

  unfoldable pub touch : Key → Timeout → Option ℤ → Option C → M (State W C P) (Option Bool)
  unfolding omitted Expiry.touch
  touch key timeout version client = or_none g (Expiry.touch d k key timeout version client)

  unfoldable pub hset : Text → Key → Value → Option ℤ → Option C → M (State W C P) (Option ℕ)
  unfolding omitted Hashes.hset
  hset name key value version client = or_none g (Hashes.hset d k name key value version client)

  unfoldable pub hdel : Text → Key → Option ℤ → Option C → M (State W C P) (Option ℕ)
  unfolding omitted Hashes.hdel
  hdel name key version client = or_none g (Hashes.hdel d k name key version client)

  unfoldable pub hlen : Text → Option C → M (State W C P) (Option ℕ)
  unfolding omitted Hashes.hlen
  hlen name client = or_none g (Hashes.hlen d k name client)

  unfoldable pub hkeys : Text → Option C → M (State W C P) (Option (List Text))
  unfolding omitted Hashes.hkeys
  hkeys name client = or_none g (Hashes.hkeys d k name client)

  unfoldable pub hexists : Text → Key → Option ℤ → Option C → M (State W C P) (Option Bool)
  unfolding omitted Hashes.hexists
  hexists name key version client = or_none g (Hashes.hexists d k name key version client)
