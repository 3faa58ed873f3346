-- ===== src/Redis/Lists.antt =====
-- The list commands of redis-py.
use django_redis.Prelude.{ℕ, Bool, Option, List, Text, ℤ}
use django_redis.Value.{Encoded}
use django_redis.Redis.{Reply}

-- What a command returns that takes elements out: None, an element, or a list of elements.
pub data Popped (A : Type 0) : Type 0 where
  nothing : Popped A
  one : A → Popped A
  many : List A → Popped A

-- The place of LINSERT, in either case of its letters.
pub data Where : Type 0 where
  before after : Where

pub record ListCommands (W C : Type 0) : Type 0 where
  pub lpush : C → Text → List Encoded → W → Reply ℕ × W
  pub rpush : C → Text → List Encoded → W → Reply ℕ × W
  pub lpop : C → Text → Option ℕ → W → Reply (Popped Text) × W
  pub rpop : C → Text → Option ℕ → W → Reply (Popped Text) × W
  pub llen : C → Text → W → Reply ℕ × W
  pub lrange : C → Text → ℤ → ℤ → W → Reply (List Text) × W
  pub lindex : C → Text → ℤ → W → Reply (Option Text) × W
  pub lset : C → Text → ℤ → Encoded → W → Reply Bool × W
  pub lrem : C → Text → ℤ → Encoded → W → Reply ℕ × W
  pub ltrim : C → Text → ℤ → ℤ → W → Reply Bool × W
  pub linsert : C → Text → Where → Encoded → Encoded → W → Reply ℤ × W
