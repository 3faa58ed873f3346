-- ===== src/Value.antt =====
-- Python values, as far as the program tells them apart, and what Redis stores of them.
use django_redis.Prelude.{ℕ, Bool, Option, Text, ℤ}

-- `null` is None, `marker` an instance of `Marker` (client/herd.py), `triple` a sequence of three
-- elements; `object n` is any other object, which is no sequence that starts with a marker.
pub data Value : Type 0 where
  null : Value
  boolean : Bool → Value
  integer : ℤ → Value
  marker : Value
  triple : Value → Value → Value → Value
  object : ℕ → Value

-- What `encode` returns and redis-py sends: bytes, or an integer.
pub data Encoded : Type 0 where
  bytes : Text → Encoded
  number : ℤ → Encoded

-- value is None
abbrev pub is_null : Value → Bool
is_null null = Bool.true
is_null _ = Bool.false

-- A timeout argument: DEFAULT_TIMEOUT, or None, or a number of seconds. Fractions of a second are not
-- modelled.
pub data Timeout : Type 0 where
  default_timeout : Timeout
  seconds : Option ℤ → Timeout
