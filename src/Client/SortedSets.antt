-- ===== src/Client/SortedSets.antt =====
-- django_redis/client/mixins/sorted_sets.py.
pub mod Scores
use django_redis.Prelude.{
  ℕ, zero, suc, Bool, true, false, Option, none, some, List, [], ◌∷◌, Text, ℤ, pos, if◌then◌else◌,
  insert, text_eq, int_eq,
}
use django_redis.Exec.{type_error, other_error, M, ◌>>=◌, pure, throw, lift, traverse}
use django_redis.Value.{Value, Encoded, bytes, number}
use django_redis.Keys.{Key, make_key}
use django_redis.Codec.{encode, decode}
use django_redis.Redis.{Driver, State, command}
use django_redis.Redis.Lists.{Popped, nothing, one, many}
use django_redis.Redis.SortedSets.{
  Bound, Added, count, new_score, refused, AddFlags, Ranged, members, scored, SortedSetCommands,
}
use django_redis.Client.{Config, client_or}
use django_redis.Client.Basic.{key_of, encoded, decoded, encoded_values, decoded_values}

-- Python's `==` of encoded values, the keys of the encoded mapping.
abbrev pub encoded_eq : Encoded → Encoded → Bool
encoded_eq (bytes s) (bytes t) = text_eq s t
encoded_eq (number i) (number j) = int_eq i j
encoded_eq _ _ = false

-- d[e] = x
unfoldable pub put_score : {F : Type 0} → Encoded → F → List (Encoded × F) → List (Encoded × F)
put_score e x [] = (e, x) ∷ []
put_score e x ((e', y) ∷ d) = if encoded_eq e' e then (e', x) ∷ d else (e', y) ∷ put_score e x d

module _ {W C P F : Type 0} (d : Driver W C P) (z : SortedSetCommands W C F) (k : Config) where
  -- {self.encode(member): score for member, score in mapping.items()}
  unfoldable pub encoded_mapping :
      List (Value × F) → List (Encoded × F) → M (State W C P) (List (Encoded × F))
  unfolding encode put_score
  encoded_mapping [] acc = pure acc
  encoded_mapping ((member, score) ∷ mapping) acc = do
    e ← encoded d k member
    encoded_mapping mapping (put_score e score acc)

  -- int(…) of the reply of ZADD.
  unfoldable pub added : Added F → M (State W C P) ℤ
  added (count n) = pure (pos n)
  added (new_score x) = elim (z.to_int x) [ none ↦ throw other_error | some i ↦ pure i ]
  added refused = throw type_error

  unfoldable pub zadd : Key → List (Value × F) → AddFlags → Option ℤ → Option C → M (State W C P) ℤ
  unfolding client_or make_key encoded_mapping added
  zadd name mapping flags version client = do
    c ← client_or d k client true
    nmapping ← encoded_mapping mapping []
    reply ← command (z.zadd c (key_of d k name version) nmapping flags)
    added reply

  unfoldable pub zcard : Key → Option ℤ → Option C → M (State W C P) ℕ
  unfolding client_or make_key
  zcard name version client = do
    c ← client_or d k client false
    command (z.zcard c (key_of d k name version))

  unfoldable pub zcount : Key → Bound F → Bound F → Option ℤ → Option C → M (State W C P) ℕ
  unfolding client_or make_key
  zcount name min max version client = do
    c ← client_or d k client false
    command (z.zcount c (key_of d k name version) min max)

  unfoldable pub zincrby : Key → F → Value → Option ℤ → Option C → M (State W C P) F
  unfolding client_or make_key encode
  zincrby name amount value version client = do
    c ← client_or d k client true
    nvalue ← encoded d k value
    command (z.zincrby c (key_of d k name version) amount nvalue)

  -- (self.decode(member), score)
  unfoldable pub decoded_pair : Text × F → M (State W C P) (Value × F)
  unfolding decode
  decoded_pair (member, score) = do v ← decoded d k member; pure (v, score)

  -- [(self.decode(member), score) for member, score in result]
  unfoldable pub decoded_pairs : List (Text × F) → M (State W C P) (List (Value × F))
  unfolding decoded_pair traverse
  decoded_pairs result = traverse decoded_pair result

  -- What `zpopmax` and `zpopmin` make of the reply.
  unfoldable pub popped_pairs : Option ℕ → List (Text × F) → M (State W C P) (Popped (Value × F))
  unfolding decoded_pairs
  popped_pairs none [] = pure nothing
  popped_pairs (some n) [] = pure (many [])
  popped_pairs none (x ∷ result) = do
    pairs ← decoded_pairs (x ∷ result)
    elim pairs [ [] ↦ pure nothing | pair ∷ _ ↦ pure (one pair) ]
  popped_pairs (some n) (x ∷ result) = do pairs ← decoded_pairs (x ∷ result); pure (many pairs)

  unfoldable pub zpopmax :
      Key → Option ℕ → Option ℤ → Option C → M (State W C P) (Popped (Value × F))
  unfolding client_or make_key popped_pairs
  zpopmax name count' version client = do
    c ← client_or d k client true
    result ← command (z.zpopmax c (key_of d k name version) count')
    popped_pairs count' result

  unfoldable pub zpopmin :
      Key → Option ℕ → Option ℤ → Option C → M (State W C P) (Popped (Value × F))
  unfolding client_or make_key popped_pairs
  zpopmin name count' version client = do
    c ← client_or d k client true
    result ← command (z.zpopmin c (key_of d k name version) count')
    popped_pairs count' result

  unfoldable pub zrange :
      Key
      → ℤ
      → ℤ
      → Bool
      → Bool
      → (Text → F)
      → Option ℤ
      → Option C
      → M (State W C P) (Ranged Value F)
  unfolding client_or make_key decoded_pairs decoded_values
  zrange name start end desc withscores score_cast_func version client = do
    c ← client_or d k client false
    if withscores
        then (do
          result ←
              command (z.zrange_scored c (key_of d k name version) start end desc score_cast_func)
          pairs ← decoded_pairs result
          pure (scored pairs))
        else (do
          result ← command (z.zrange c (key_of d k name version) start end desc score_cast_func)
          values ← decoded_values d k result
          pure (members values))

  unfoldable pub zrangebyscore :
      Key
      → Bound F
      → Bound F
      → Option ℤ
      → Option ℤ
      → Bool
      → (Text → F)
      → Option ℤ
      → Option C
      → M (State W C P) (Ranged Value F)
  unfolding client_or make_key decoded_pairs decoded_values
  zrangebyscore name min max start num withscores score_cast_func version client = do
    c ← client_or d k client false
    if withscores
        then (do
          result ←
              command (
                z.zrangebyscore_scored c (key_of d k name version) min max start num
                  score_cast_func)
          pairs ← decoded_pairs result
          pure (scored pairs))
        else (do
          result ←
              command
                (z.zrangebyscore c (key_of d k name version) min max start num score_cast_func)
          values ← decoded_values d k result
          pure (members values))

  unfoldable pub zrank : Key → Value → Option ℤ → Option C → M (State W C P) (Option ℕ)
  unfolding client_or make_key encode
  zrank name value version client = do
    c ← client_or d k client false
    nvalue ← encoded d k value
    command (z.zrank c (key_of d k name version) nvalue)

  unfoldable pub zrem : Key → List Value → Option ℤ → Option C → M (State W C P) ℕ
  unfolding client_or make_key encoded_values
  zrem name values version client = do
    c ← client_or d k client true
    nvalues ← encoded_values d k values
    command (z.zrem c (key_of d k name version) nvalues)

  unfoldable pub zremrangebyscore :
      Key → Bound F → Bound F → Option ℤ → Option C → M (State W C P) ℕ
  unfolding client_or make_key
  zremrangebyscore name min max version client = do
    c ← client_or d k client true
    command (z.zremrangebyscore c (key_of d k name version) min max)

  unfoldable pub zrevrange :
      Key → ℤ → ℤ → Bool → (Text → F) → Option ℤ → Option C → M (State W C P) (Ranged Value F)
  unfolding client_or make_key decoded_pairs decoded_values
  zrevrange name start end withscores score_cast_func version client = do
    c ← client_or d k client false
    if withscores
        then (do
          result ←
              command (z.zrevrange_scored c (key_of d k name version) start end score_cast_func)
          pairs ← decoded_pairs result
          pure (scored pairs))
        else (do
          result ← command (z.zrevrange c (key_of d k name version) start end score_cast_func)
          values ← decoded_values d k result
          pure (members values))

  unfoldable pub zrevrangebyscore :
      Key
      → Bound F
      → Bound F
      → Option ℤ
      → Option ℤ
      → Bool
      → (Text → F)
      → Option ℤ
      → Option C
      → M (State W C P) (Ranged Value F)
  unfolding client_or make_key decoded_pairs decoded_values
  zrevrangebyscore name max min start num withscores score_cast_func version client = do
    c ← client_or d k client false
    if withscores
        then (do
          result ← command (
              z.zrevrangebyscore_scored c (key_of d k name version) max min start num
                score_cast_func)
          pairs ← decoded_pairs result
          pure (scored pairs))
        else (do
          result ←
              command
                (z.zrevrangebyscore c (key_of d k name version) max min start num score_cast_func)
          values ← decoded_values d k result
          pure (members values))

  unfoldable pub zscore : Key → Value → Option ℤ → Option C → M (State W C P) (Option F)
  unfolding client_or make_key encode
  zscore name value version client = do
    c ← client_or d k client false
    nvalue ← encoded d k value
    command (z.zscore c (key_of d k name version) nvalue)
