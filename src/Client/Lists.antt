-- ===== src/Client/Lists.antt =====
-- django_redis/client/mixins/lists.py.
pub mod Stored
use django_redis.Prelude.{ℕ, Bool, true, false, Option, none, some, List, Text, ℤ}
use django_redis.Exec.{M, ◌>>=◌, pure}
use django_redis.Value.{Value}
use django_redis.Keys.{Key, make_key}
use django_redis.Codec.{encode, decode}
use django_redis.Redis.{Driver, State, command}
use django_redis.Redis.Lists.{Popped, nothing, one, many, Where, ListCommands}
use django_redis.Client.{Config, client_or}
use django_redis.Client.Basic.{key_of, encoded, decoded, encoded_values, decoded_values}

module _ {W C P : Type 0} (d : Driver W C P) (l : ListCommands W C) (k : Config) where
  unfoldable pub lpush : Key → List Value → Option ℤ → Option C → M (State W C P) ℕ
  unfolding client_or make_key encoded_values
  lpush key values version client = do
    c ← client_or d k client true
    nvalues ← encoded_values d k values
    command (l.lpush c (key_of d k key version) nvalues)

  unfoldable pub rpush : Key → List Value → Option ℤ → Option C → M (State W C P) ℕ
  unfolding client_or make_key encoded_values
  rpush key values version client = do
    c ← client_or d k client true
    nvalues ← encoded_values d k values
    command (l.rpush c (key_of d k key version) nvalues)

  -- What `lpop` and `rpop` make of the reply.
  unfoldable pub decoded_popped : Popped Text → M (State W C P) (Popped Value)
  unfolding decoded_values
  decoded_popped nothing = pure nothing
  decoded_popped (many result) = do values ← decoded_values d k result; pure (many values)
  decoded_popped (one result) = do value ← decoded d k result; pure (one value)

  unfoldable pub lpop : Key → Option ℕ → Option ℤ → Option C → M (State W C P) (Popped Value)
  unfolding client_or make_key decoded_popped
  lpop key count version client = do
    c ← client_or d k client true
    result ← command (l.lpop c (key_of d k key version) count)
    decoded_popped result

  unfoldable pub rpop : Key → Option ℕ → Option ℤ → Option C → M (State W C P) (Popped Value)
  unfolding client_or make_key decoded_popped
  rpop key count version client = do
    c ← client_or d k client true
    result ← command (l.rpop c (key_of d k key version) count)
    decoded_popped result

  unfoldable pub llen : Key → Option ℤ → Option C → M (State W C P) ℕ
  unfolding client_or make_key
  llen key version client = do
    c ← client_or d k client false
    command (l.llen c (key_of d k key version))

  unfoldable pub lrange : Key → ℤ → ℤ → Option ℤ → Option C → M (State W C P) (List Value)
  unfolding client_or make_key decoded_values
  lrange key start end version client = do
    c ← client_or d k client false
    result ← command (l.lrange c (key_of d k key version) start end)
    decoded_values d k result

  -- self.decode(result) if result is not None else None
  unfoldable pub decoded_option : Option Text → M (State W C P) (Option Value)
  unfolding decode
  decoded_option none = pure none
  decoded_option (some result) = do value ← decoded d k result; pure (some value)

  unfoldable pub lindex : Key → ℤ → Option ℤ → Option C → M (State W C P) (Option Value)
  unfolding client_or make_key decoded_option
  lindex key index version client = do
    c ← client_or d k client false
    result ← command (l.lindex c (key_of d k key version) index)
    decoded_option result

  unfoldable pub lset : Key → ℤ → Value → Option ℤ → Option C → M (State W C P) Bool
  unfolding client_or make_key encode
  lset key index value version client = do
    c ← client_or d k client true
    nvalue ← encoded d k value
    command (l.lset c (key_of d k key version) index nvalue)

  unfoldable pub lrem : Key → ℤ → Value → Option ℤ → Option C → M (State W C P) ℕ
  unfolding client_or make_key encode
  lrem key count value version client = do
    c ← client_or d k client true
    nvalue ← encoded d k value
    command (l.lrem c (key_of d k key version) count nvalue)

  unfoldable pub ltrim : Key → ℤ → ℤ → Option ℤ → Option C → M (State W C P) Bool
  unfolding client_or make_key
  ltrim key start end version client = do
    c ← client_or d k client true
    command (l.ltrim c (key_of d k key version) start end)

  unfoldable pub linsert : Key → Where → Value → Value → Option ℤ → Option C → M (State W C P) ℤ
  unfolding client_or make_key encode
  linsert key where' refvalue value version client = do
    c ← client_or d k client true
    nrefvalue ← encoded d k refvalue
    nvalue ← encoded d k value
    command (l.linsert c (key_of d k key version) where' nrefvalue nvalue)
