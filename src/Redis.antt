-- ===== src/Redis.antt =====
-- The interface to redis-py, to the server behind it, and to the clock and the random numbers of the
-- process: parameters of the model. `W` is the state of that world, `C` the clients of redis-py (a
-- pipeline is one too), `P` its connection pools.
pub mod Lists
pub mod Sets
pub mod SortedSets
use django_redis.Prelude.{ℕ, Bool, Option, List, Text, ℤ, Dict}
use django_redis.Exec.{RedisError, Result, ok, raise, redis_error, other_error, M}
use django_redis.Value.{Encoded}

-- A command returns, or raises one of `_main_exceptions`, or another exception.
pub data Reply (A : Type 0) : Type 0 where
  reply : A → Reply A
  fails : RedisError → Reply A
  refuses : Reply A

-- Values of option dictionaries. A `float`, and an `object`, which is of none of these types, has a
-- truth value, and a number that tells it from others.
pub data Setting : Type 0 where
  unset : Setting
  text : Text → Setting
  number : ℤ → Setting
  boolean : Bool → Setting
  float : Bool → ℕ → Setting
  object : Bool → ℕ → Setting

-- The Lua scripts of `_incr`.
pub data Script : Type 0 where
  incrby_if_exists incrby : Script

pub record Driver (W C P : Type 0) : Type 0 where
  -- Connection pools. `none` is an exception of the pool class, such as a ValueError for the URL.
  pub from_url : Dict Setting → W → Option P × W
  pub pool_password : P → W → Option Text
  pub set_pool_password : P → Setting → W → W
  pub reset_pool : P → W → W
  pub new_client : P → W → C × W
  pub disconnect : C → W → W
  -- Commands, by the texts of the keys.
  pub set : C → Text → Encoded → Bool → Option ℤ → Bool → W → Reply Bool × W
  pub get : C → Text → W → Reply (Option Text) × W
  pub mget : C → List Text → W → Reply (List (Option Text)) × W
  pub delete : C → List Text → W → Reply ℕ × W
  pub exists : C → Text → W → Reply ℕ × W
  pub ttl : C → Text → W → Reply ℤ × W
  pub pttl : C → Text → W → Reply ℤ × W
  pub persist : C → Text → W → Reply Bool × W
  pub expire : C → Text → Option ℤ → W → Reply Bool × W
  pub pexpire : C → Text → Option ℤ → W → Reply Bool × W
  pub expireat : C → Text → ℤ → W → Reply Bool × W
  pub pexpireat : C → Text → ℤ → W → Reply Bool × W
  pub flushdb : C → W → Reply Unit × W
  pub keys : C → Text → W → Reply (List Text) × W
  pub scan_iter : C → Text → Option ℕ → W → Reply (List Text) × W
  pub eval : C → Script → Text → ℤ → W → Reply (Option ℤ) × W
  pub pipeline : C → W → C × W
  pub execute : C → W → Reply Unit × W
  pub hset : C → Text → Text → Encoded → W → Reply ℕ × W
  pub hdel : C → Text → Text → W → Reply ℕ × W
  pub hlen : C → Text → W → Reply ℕ × W
  pub hkeys : C → Text → W → Reply (List Text) × W
  pub hexists : C → Text → Text → W → Reply Bool × W
  -- random.choice, random.randint, int(time.time()).
  pub choice : List ℕ → W → ℕ × W
  pub randint : ℕ → ℕ → W → ℕ × W
  pub time : W → ℕ × W

-- What a client object and the process keep: `_clients`, and `ConnectionFactory._pools`.
pub record State (W C P : Type 0) : Type 0 where
  pub clients : List (Option C)
  pub pools : Dict P
  pub world : W

abbrev pub to_result : {A : Type 0} → Reply A → Result A
to_result (reply a) = ok a
to_result (fails e) = raise (redis_error e)
to_result refuses = raise other_error

module _ {W C P : Type 0} where
  -- A call of redis-py.
  abbrev pub command : {A : Type 0} → (W → Reply A × W) → M (State W C P) A
  command f s = let (r, w) = f s.world in (to_result r, record s { world = w })

  -- A call that does not raise.
  abbrev pub world : {A : Type 0} → (W → A × W) → M (State W C P) A
  world f s = let (a, w) = f s.world in (ok a, record s { world = w })

  abbrev pub change : (W → W) → M (State W C P) Unit
  change f s = (ok tt, record s { world = f s.world })
