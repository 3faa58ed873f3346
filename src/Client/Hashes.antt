-- ===== src/Client/Hashes.antt =====
-- client/default.py: the commands on hashes. The name of a hash is used as it is given.
use django_redis.Prelude.{ℕ, Bool, true, false, Option, List, Text, ℤ}
use django_redis.Exec.{M, ◌>>=◌, interrupted, traverse}
use django_redis.Value.{Value}
use django_redis.Keys.{Key, make_key}
use django_redis.Codec.{encode}
use django_redis.Redis.{Driver, State, command}
use django_redis.Client.{Config, client_or}
use django_redis.Client.Basic.{key_of, encoded}
use django_redis.Client.Many.{reversed}

module _ {W C P : Type 0} (d : Driver W C P) (k : Config) where
  unfoldable pub hset : Text → Key → Value → Option ℤ → Option C → M (State W C P) ℕ
  unfolding client_or make_key encode
  hset name key value version client = do
    c ← client_or d k client true
    nvalue ← encoded d k value
    command (d.hset c name (key_of d k key version) nvalue)

  unfoldable pub hdel : Text → Key → Option ℤ → Option C → M (State W C P) ℕ
  unfolding client_or make_key
  hdel name key version client = do
    c ← client_or d k client true
    command (d.hdel c name (key_of d k key version))

  unfoldable pub hlen : Text → Option C → M (State W C P) ℕ
  unfolding client_or
  hlen name client = do c ← client_or d k client false; command (d.hlen c name)

  unfoldable pub hkeys : Text → Option C → M (State W C P) (List Text)
  unfolding client_or traverse
  hkeys name client = do
    c ← client_or d k client false
    interrupted (do found ← command (d.hkeys c name); traverse (reversed d k) found)

  unfoldable pub hexists : Text → Key → Option ℤ → Option C → M (State W C P) Bool
  unfolding client_or make_key
  hexists name key version client = do
    c ← client_or d k client false
    command (d.hexists c name (key_of d k key version))
