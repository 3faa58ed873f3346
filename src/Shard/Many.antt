-- ===== src/Shard/Many.antt =====
-- client/sharded.py: the commands on several keys or on all servers, and `incr_version`.
use django_redis.Prelude.{
  ℕ, zero, ◌+◌, false, Option, none, some, List, [], ◌∷◌, ◌++◌, Text, Dict, lookup, insert,
  if◌then◌else◌, ℤ, ◌+ℤ◌,
}
use django_redis.Exec.{
  connection_error, redis_error, connection_interrupted, Result, ok, raise, key_error, value_error,
  not_implemented, M, ◌>>=◌, ◌>>◌, pure, throw, lift, for_each, traverse,
}
use django_redis.Value.{Value, null, is_null, Timeout, seconds}
use django_redis.Keys.{Key, cache_key, key_text, make_key, make_pattern, or_else}
use django_redis.Redis.{Driver, State, command}
use django_redis.Pool
use django_redis.Client.{Config, nonempty}
use django_redis.Client.Counters.{moved_key}
use django_redis.Client.Many.{keys_of, reversed}
use django_redis.Shard
use django_redis.Shard.{Servers, get_server, route}

-- self._serverdict.values()
abbrev pub connections : {C : Type 0} → Dict C → List C
connections [] = []
connections ((_, c) ∷ cs) = c ∷ connections cs

module _ {W C P : Type 0} (d : Driver W C P) (k : Config) (sha256 : Text → ℕ) (v : Servers C) where
  -- dict(zip(new_keys, keys))
  unfoldable pub name_keys : List Key → Option ℤ → Dict Key → Dict Key
  unfolding make_key insert
  name_keys [] version acc = acc
  name_keys (key ∷ keys) version acc =
      name_keys keys version (insert (key_text (make_key k.backend key version none)) key acc)

  -- recovered_data[map_keys[key]] = value
  unfoldable pub record_value : Dict Key → Text → Value → Dict Value → M (State W C P) (Dict Value)
  unfolding lookup insert
  record_value names key value acc = elim (lookup key names) [
    | none ↦ throw key_error
    | some name ↦ pure (insert (key_text name) value acc)
  ]

  -- The loop of `get_many`.
  unfoldable pub collect :
      Dict Key → List Text → Option ℤ → Dict Value → M (State W C P) (Dict Value)
  unfolding get_server Shard.get record_value
  collect names [] version acc = pure acc
  collect names (key ∷ keys) version acc = do
    c ← lift (get_server sha256 v key)
    value ← Shard.get d k sha256 v (cache_key key) null version (some c)
    acc' ← if is_null value then pure acc else record_value names key value acc
    collect names keys version acc'

  unfoldable pub get_many : List Key → Option ℤ → M (State W C P) (Dict Value)
  unfolding keys_of name_keys collect
  get_many keys version =
      if nonempty keys
      then collect (name_keys keys version []) (keys_of d k keys version) version []
      else pure []

  unfoldable pub set_many :
      List (Key × Value) → Timeout → Option ℤ → Option C → M (State W C P) Unit
  unfolding Shard.set for_each
  set_many entries timeout version client =
      for_each (λ e. do Shard.set d k sha256 v e.0 e.1 timeout version client false false; pure tt)
        entries

  -- The loop of `delete_many`; `res` is the number of keys deleted so far.
  unfoldable pub delete_each : List Text → ℕ → M (State W C P) ℕ
  unfolding get_server Shard.delete
  delete_each [] res = pure res
  delete_each (key ∷ keys) res = do
    c ← lift (get_server sha256 v key)
    n ← Shard.delete d k sha256 v (cache_key key) none (some c)
    delete_each keys (res + n)

  unfoldable pub delete_many : List Key → Option ℤ → M (State W C P) ℕ
  unfolding keys_of delete_each
  delete_many keys version = delete_each (keys_of d k keys version) 0

  unfoldable pub incr_version : Key → ℤ → Option ℤ → Option C → M (State W C P) ℤ
  unfolding route Shard.get Shard.ttl Shard.set Shard.delete get_server moved_key ◌+ℤ◌
  incr_version key delta version client = do
    r ← route d k sha256 v key version client
    let n = or_else version k.backend.version
    let old_key = make_key k.backend r.0 (some n) none
    value ← Shard.get d k sha256 v old_key null (some n) (some r.1)
    timeout ←
        λ s. Shard.connection_interrupts (Shard.ttl d k sha256 v old_key (some n) (some r.1) s)
    if is_null value then throw value_error else (do
      new_key ← moved_key d k r.0 (n +ℤ delta)
      target ← lift (get_server sha256 v (key_text new_key))
      Shard.set d k sha256 v new_key value (seconds timeout) none (some target) false false
      Shard.delete d k sha256 v old_key none (some r.1)
      pure (n +ℤ delta))

  unfoldable pub iter_keys : Key → M (State W C P) (List Text)
  iter_keys key = throw not_implemented

  -- The loop of `keys` over the connections.
  unfoldable pub keys_on : Text → List C → List Text → M (State W C P) (List Text)
  keys_on pattern [] acc = pure acc
  keys_on pattern (c ∷ cs) acc = do
    found ← command (d.keys c pattern)
    keys_on pattern cs (acc ++ found)

  -- The handler calls `get_server` for its argument, which may raise in its turn.
  unfoldable pub report : Text → Result (List Text) × State W C P → Result (List Text) × State W C P
  unfolding get_server
  report pattern (raise (redis_error connection_error), s) = elim (get_server sha256 v pattern) [
    | raise e ↦ (raise e, s)
    | ok c ↦ (raise (connection_interrupted connection_error), s)
  ]
  report pattern r = r

  unfoldable pub keys : Key → Option ℤ → M (State W C P) (List Text)
  unfolding make_pattern keys_on report traverse
  keys search version = do
    let pattern = key_text (make_pattern k.backend search version none)
    found ← λ s. report pattern (keys_on pattern (connections v.serverdict) [] s)
    traverse (reversed d k) found

  -- The loops of `delete_pattern`.
  unfoldable pub scan_on : Text → Option ℕ → List C → List Text → M (State W C P) (List Text)
  scan_on pattern itersize [] acc = pure acc
  scan_on pattern itersize (c ∷ cs) acc = do
    found ← command (d.scan_iter c pattern itersize)
    scan_on pattern itersize cs (acc ++ found)

  unfoldable pub delete_on : List Text → List C → ℕ → M (State W C P) ℕ
  delete_on keys [] res = pure res
  delete_on keys (c ∷ cs) res = do n ← command (d.delete c keys); delete_on keys cs (res + n)

  -- `if itersize:` drops a count of 0.
  abbrev pub count_of : Option ℕ → Option ℕ
  count_of (some zero) = none
  count_of itersize = itersize

  unfoldable pub delete_pattern : Key → Option ℤ → Option ℕ → Option Text → M (State W C P) ℕ
  unfolding make_pattern scan_on delete_on
  delete_pattern pattern version itersize prefix = do
    found ←
        scan_on (key_text (make_pattern k.backend pattern version prefix)) (count_of itersize)
          (connections v.serverdict) []
    if nonempty found then delete_on found (connections v.serverdict) 0 else pure 0

  unfoldable pub clear : M (State W C P) Unit
  unfolding for_each
  clear = for_each (λ c. command (d.flushdb c)) (connections v.serverdict)

  unfoldable pub do_close_clients : M (State W C P) Unit
  unfolding for_each
  do_close_clients = for_each (λ c. Pool.disconnect d c) (connections v.serverdict)
