-- ===== src/Redis/SortedSets.antt =====
-- The sorted set commands of redis-py. `F` is Python's `float`.
use django_redis.Prelude.{ℕ, Bool, Option, List, Text, ℤ}
use django_redis.Value.{Encoded}
use django_redis.Redis.{Reply}

-- A limit of a range of scores: a number, or a text such as "(1" or "+inf".
pub data Bound (F : Type 0) : Type 0 where
  score : F → Bound F
  limit : Text → Bound F

-- What ZADD returns: the number of members; with INCR the new score, or None where NX, XX, GT or LT
-- kept the command from acting.
pub data Added (F : Type 0) : Type 0 where
  count : ℕ → Added F
  new_score : F → Added F
  refused : Added F

-- The flags of `zadd`.
pub record AddFlags : Type 0 where
  pub nx : Bool
  pub xx : Bool
  pub ch : Bool
  pub incr : Bool
  pub gt : Bool
  pub lt : Bool

-- What a range command returns, with scores and without.
pub data Ranged (A F : Type 0) : Type 0 where
  members : List A → Ranged A F
  scored : List (A × F) → Ranged A F

-- `score_cast_func` is called on the text of a score.
pub record SortedSetCommands (W C F : Type 0) : Type 0 where
  -- int(x) of a float; `none` is an exception.
  pub to_int : F → Option ℤ
  pub zadd : C → Text → List (Encoded × F) → AddFlags → W → Reply (Added F) × W
  pub zcard : C → Text → W → Reply ℕ × W
  pub zcount : C → Text → Bound F → Bound F → W → Reply ℕ × W
  pub zincrby : C → Text → F → Encoded → W → Reply F × W
  pub zpopmax : C → Text → Option ℕ → W → Reply (List (Text × F)) × W
  pub zpopmin : C → Text → Option ℕ → W → Reply (List (Text × F)) × W
  pub zrange : C → Text → ℤ → ℤ → Bool → (Text → F) → W → Reply (List Text) × W
  pub zrange_scored : C → Text → ℤ → ℤ → Bool → (Text → F) → W → Reply (List (Text × F)) × W
  pub zrangebyscore :
      C → Text → Bound F → Bound F → Option ℤ → Option ℤ → (Text → F) → W → Reply (List Text) × W
  pub zrangebyscore_scored :
      C
      → Text
      → Bound F
      → Bound F
      → Option ℤ
      → Option ℤ
      → (Text → F)
      → W
      → Reply (List (Text × F)) × W
  pub zrank : C → Text → Encoded → W → Reply (Option ℕ) × W
  pub zrem : C → Text → List Encoded → W → Reply ℕ × W
  pub zremrangebyscore : C → Text → Bound F → Bound F → W → Reply ℕ × W
  pub zrevrange : C → Text → ℤ → ℤ → (Text → F) → W → Reply (List Text) × W
  pub zrevrange_scored : C → Text → ℤ → ℤ → (Text → F) → W → Reply (List (Text × F)) × W
  pub zrevrangebyscore :
      C → Text → Bound F → Bound F → Option ℤ → Option ℤ → (Text → F) → W → Reply (List Text) × W
  pub zrevrangebyscore_scored :
      C
      → Text
      → Bound F
      → Bound F
      → Option ℤ
      → Option ℤ
      → (Text → F)
      → W
      → Reply (List (Text × F)) × W
  pub zscore : C → Text → Encoded → W → Reply (Option F) × W
