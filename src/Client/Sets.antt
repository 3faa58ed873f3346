-- ===== src/Client/Sets.antt =====
-- django_redis/client/mixins/sets.py, and `_has_compression_enabled` and `_decode_iterable_result` of
-- client/default.py. A set that the program builds is the list of its members, without repetition by
-- Python's `==`, in the order in which they were added.
pub mod Stored
use django_redis.Prelude.{
  ℕ, zero, suc, Bool, true, false, not, ◌&&◌, ◌||◌, Option, none, some, List, [], ◌∷◌, ◌++◌, Text,
  ◌==◌, if◌then◌else◌, ℤ, map, codes, text_eq,
}
use django_redis.Exec.{Result, ok, raise, type_error, value_error, M, ◌>>=◌, pure, throw, lift}
use django_redis.Value.{Value, Encoded}
use django_redis.Keys.{Key, make_key}
use django_redis.Codec.{encode, decode}
use django_redis.Redis.{Driver, State, command}
use django_redis.Redis.Lists.{Popped, nothing, one, many}
use django_redis.Redis.Sets.{SetCommands}
use django_redis.Client.{Config, client_or}
use django_redis.Client.Basic.{key_of, encoded, decoded, encoded_values, decoded_values}
use django_redis.Client.Many.{keys_of}

-- Python's `==` of values, and whether a value has a hash.
pub record Equality : Type 0 where
  pub same : Value → Value → Bool
  pub hashable : Value → Bool

module _ (q : Equality) where
  unfoldable pub has_member : Value → List Value → Bool
  has_member v [] = false
  has_member v (x ∷ xs) = q.same v x || has_member v xs

  -- members.add(v)
  unfoldable pub add_member : Value → List Value → List Value
  unfolding has_member
  add_member v members = if has_member v members then members else members ++ v ∷ []

-- The `match` argument: None and the empty text are `unmatched`.
pub data Match : Type 0 where
  unmatched : Match
  matching : Value → Match

-- bool(match)
abbrev pub is_matching : Match → Bool
is_matching unmatched = false
is_matching (matching v) = true

abbrev pub identity_path : Text
identity_path = codes "django_redis.compressors.identity.IdentityCompressor"

unfoldable pub _has_compression_enabled : Config → Bool
unfolding text_eq
_has_compression_enabled k = not (text_eq k.compressor_path identity_path)

module _ {W C P : Type 0} (d : Driver W C P) (t : SetCommands W C) (q : Equality) (k : Config) where
  -- {self.decode(value) for value in result}: each value is decoded and added in its turn.
  unfoldable pub decoded_set : List Text → List Value → M (State W C P) (List Value)
  unfolding decode add_member
  decoded_set [] members = pure members
  decoded_set (value ∷ result) members = do
    v ← decoded d k value
    if q.hashable v then decoded_set result (add_member q v members) else throw type_error

  -- What `_decode_iterable_result` returns: a set for a list, or a list, or one value.
  unfoldable pub _decode_iterable_result : Popped Text → Bool → M (State W C P) (Popped Value)
  unfolding decoded_set decoded_values
  _decode_iterable_result nothing covert_to_set = pure nothing
  _decode_iterable_result (many result) true = do values ← decoded_set result []; pure (many values)
  _decode_iterable_result (many result) false = do
    values ← decoded_values d k result
    pure (many values)
  _decode_iterable_result (one result) covert_to_set = do
    value ← decoded d k result
    pure (one value)

  unfoldable pub sadd : Key → List Value → Option ℤ → Option C → M (State W C P) ℕ
  unfolding client_or make_key encoded_values
  sadd key values version client = do
    c ← client_or d k client true
    nvalues ← encoded_values d k values
    command (t.sadd c (key_of d k key version) nvalues)

  unfoldable pub scard : Key → Option ℤ → Option C → M (State W C P) ℕ
  unfolding client_or make_key
  scard key version client = do
    c ← client_or d k client false
    command (t.scard c (key_of d k key version))

  unfoldable pub sdiff : List Key → Option ℤ → Option C → M (State W C P) (List Value)
  unfolding client_or keys_of decoded_set
  sdiff keys version client = do
    c ← client_or d k client false
    result ← command (t.sdiff c (keys_of d k keys version))
    decoded_set result []

  unfoldable pub sdiffstore : Key → List Key → Option ℤ → Option ℤ → Option C → M (State W C P) ℕ
  unfolding client_or make_key keys_of
  sdiffstore dest keys version_dest version_keys client = do
    c ← client_or d k client true
    command (t.sdiffstore c (key_of d k dest version_dest) (keys_of d k keys version_keys))

  unfoldable pub sinter : List Key → Option ℤ → Option C → M (State W C P) (List Value)
  unfolding client_or keys_of decoded_set
  sinter keys version client = do
    c ← client_or d k client false
    result ← command (t.sinter c (keys_of d k keys version))
    decoded_set result []

  unfoldable pub sinterstore : Key → List Key → Option ℤ → Option C → M (State W C P) ℕ
  unfolding client_or make_key keys_of
  sinterstore dest keys version client = do
    c ← client_or d k client true
    command (t.sinterstore c (key_of d k dest version) (keys_of d k keys version))

  -- bool(value) of a number that Redis replies.
  abbrev pub to_bool : ℕ → Bool
  to_bool n = not (n == 0)

  unfoldable pub sismember : Key → Value → Option ℤ → Option C → M (State W C P) Bool
  unfolding client_or make_key encode
  sismember key member version client = do
    c ← client_or d k client false
    nmember ← encoded d k member
    n ← command (t.sismember c (key_of d k key version) nmember)
    pure (to_bool n)

  unfoldable pub smembers : Key → Option ℤ → Option C → M (State W C P) (List Value)
  unfolding client_or make_key decoded_set
  smembers key version client = do
    c ← client_or d k client false
    result ← command (t.smembers c (key_of d k key version))
    decoded_set result []

  unfoldable pub smismember : Key → List Value → Option ℤ → Option C → M (State W C P) (List Bool)
  unfolding client_or make_key encoded_values
  smismember key members version client = do
    c ← client_or d k client false
    nmembers ← encoded_values d k members
    found ← command (t.smismember c (key_of d k key version) nmembers)
    pure (map to_bool found)

  -- The destination is made into a key without the version.
  unfoldable pub smove : Key → Key → Value → Option ℤ → Option C → M (State W C P) Bool
  unfolding client_or make_key encode
  smove source destination member version client = do
    c ← client_or d k client true
    nmember ← encoded d k member
    command (t.smove c (key_of d k source version) (key_of d k destination none) nmember)

  unfoldable pub spop : Key → Option ℕ → Option ℤ → Option C → M (State W C P) (Popped Value)
  unfolding client_or make_key _decode_iterable_result
  spop key count version client = do
    c ← client_or d k client true
    result ← command (t.spop c (key_of d k key version) count)
    _decode_iterable_result result true

  unfoldable pub srandmember : Key → Option ℕ → Option ℤ → Option C → M (State W C P) (Popped Value)
  unfolding client_or make_key _decode_iterable_result
  srandmember key count version client = do
    c ← client_or d k client false
    result ← command (t.srandmember c (key_of d k key version) count)
    _decode_iterable_result result false

  unfoldable pub srem : Key → List Value → Option ℤ → Option C → M (State W C P) ℕ
  unfolding client_or make_key encoded_values
  srem key members version client = do
    c ← client_or d k client true
    nmembers ← encoded_values d k members
    command (t.srem c (key_of d k key version) nmembers)

  -- self.encode(match) if match else None
  unfoldable pub encoded_match : Match → M (State W C P) (Option Encoded)
  unfolding encode
  encoded_match unmatched = pure none
  encoded_match (matching v) = do e ← encoded d k v; pure (some e)

  -- The cursor of the reply is dropped: one batch is all that the caller gets.
  unfoldable pub sscan : Key → Match → Option ℕ → Option ℤ → Option C → M (State W C P) (List Value)
  unfolding client_or make_key encoded_match decoded_set _has_compression_enabled
  sscan key match count version client =
      if _has_compression_enabled k && is_matching match then throw value_error else (do
        c ← client_or d k client false
        nmatch ← encoded_match match
        reply ← command (t.sscan c (key_of d k key version) nmatch count)
        decoded_set reply.1 [])

  -- The values that the generator yields, in order.
  unfoldable pub sscan_iter :
      Key → Match → Option ℕ → Option ℤ → Option C → M (State W C P) (List Value)
  unfolding client_or make_key encoded_match decoded_values _has_compression_enabled
  sscan_iter key match count version client =
      if _has_compression_enabled k && is_matching match then throw value_error else (do
        c ← client_or d k client false
        nmatch ← encoded_match match
        result ← command (t.sscan_iter c (key_of d k key version) nmatch count)
        decoded_values d k result)

  unfoldable pub sunion : List Key → Option ℤ → Option C → M (State W C P) (List Value)
  unfolding client_or keys_of decoded_set
  sunion keys version client = do
    c ← client_or d k client false
    result ← command (t.sunion c (keys_of d k keys version))
    decoded_set result []

  unfoldable pub sunionstore : Key → List Key → Option ℤ → Option C → M (State W C P) ℕ
  unfolding client_or make_key keys_of
  sunionstore destination keys version client = do
    c ← client_or d k client true
    command (t.sunionstore c (key_of d k destination version) (keys_of d k keys version))
