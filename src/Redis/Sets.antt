-- ===== src/Redis/Sets.antt =====
-- The set commands of redis-py. A set that it returns is the list of its members.
use django_redis.Prelude.{ℕ, Bool, Option, List, Text}
use django_redis.Value.{Encoded}
use django_redis.Redis.{Reply}
use django_redis.Redis.Lists.{Popped}

pub record SetCommands (W C : Type 0) : Type 0 where
  pub sadd : C → Text → List Encoded → W → Reply ℕ × W
  pub scard : C → Text → W → Reply ℕ × W
  pub sdiff : C → List Text → W → Reply (List Text) × W
  pub sdiffstore : C → Text → List Text → W → Reply ℕ × W
  pub sinter : C → List Text → W → Reply (List Text) × W
  pub sinterstore : C → Text → List Text → W → Reply ℕ × W
  pub sismember : C → Text → Encoded → W → Reply ℕ × W
  pub smembers : C → Text → W → Reply (List Text) × W
  pub smismember : C → Text → List Encoded → W → Reply (List ℕ) × W
  pub smove : C → Text → Text → Encoded → W → Reply Bool × W
  pub spop : C → Text → Option ℕ → W → Reply (Popped Text) × W
  pub srandmember : C → Text → Option ℕ → W → Reply (Popped Text) × W
  pub srem : C → Text → List Encoded → W → Reply ℕ × W
  -- The cursor, and one batch of members.
  pub sscan : C → Text → Option Encoded → Option ℕ → W → Reply (ℕ × List Text) × W
  pub sscan_iter : C → Text → Option Encoded → Option ℕ → W → Reply (List Text) × W
  pub sunion : C → List Text → W → Reply (List Text) × W
  pub sunionstore : C → Text → List Text → W → Reply ℕ × W
