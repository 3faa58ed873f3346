-- ===== src/Codec/Serializers.antt =====
-- django_redis/serializers/pickle.py, json.py and msgpack.py. The libraries are parameters.
pub mod Protocol
use django_redis.Prelude.{
  ℕ, Bool, true, false, Option, none, some, Text, ℤ, pos, pos_part, neg_part, leb, ◌+◌,
  if◌then◌else◌,
}
use django_redis.Python.Decimal.{int}
use django_redis.Exec.{Result, ok, raise, improperly_configured, value_error, type_error}
use django_redis.Value.{Value}
use django_redis.Codec.{Serializer}
use django_redis.Redis.{Setting, unset, text, number, boolean, float, object}

-- The module `pickle`; `none` is an exception. `int_of_float` is int(…) of a float, which may raise
-- a ValueError or an OverflowError, `int_of_object` that of another object, which may raise
-- anything.
pub record Pickle : Type 0 where
  pub default_protocol : ℤ
  pub highest_protocol : ℤ
  pub dumps : Value → ℤ → Option Text
  pub loads : Text → Option Value
  pub int_of_float : Bool → ℕ → Result ℤ
  pub int_of_object : Bool → ℕ → Result ℤ

-- a <= b
abbrev pub leb_ℤ : ℤ → ℤ → Bool
leb_ℤ a b = leb (pos_part a + neg_part b) (pos_part b + neg_part a)

-- int(value)
unfoldable pub to_int : Pickle → Setting → Result ℤ
unfolding int
to_int p unset = raise type_error
to_int p (text t) = elim (int t) [ none ↦ raise value_error | some i ↦ ok i ]
to_int p (number i) = ok i
to_int p (boolean true) = ok (pos 1)
to_int p (boolean false) = ok (pos 0)
to_int p (float b n) = p.int_of_float b n
to_int p (object b n) = p.int_of_object b n

-- The test of the protocol, and except (ValueError, TypeError) as e: raise ImproperlyConfigured
-- from e
abbrev pub check_version : Pickle → Result ℤ → Result ℤ
check_version p (ok version) =
    if leb_ℤ version p.highest_protocol then ok version else raise improperly_configured
check_version p (raise value_error) = raise improperly_configured
check_version p (raise type_error) = raise improperly_configured
check_version p (raise e) = raise e

-- The protocol, by the option PICKLE_VERSION if it is there.
unfoldable pub setup_pickle_version : Pickle → Option Setting → Result ℤ
unfolding to_int
setup_pickle_version p none = ok p.default_protocol
setup_pickle_version p (some value) = check_version p (to_int p value)

unfoldable pub pickle_serializer : Pickle → Option Setting → Result Serializer
unfolding setup_pickle_version
pickle_serializer p option = elim (setup_pickle_version p option) [
  | raise e ↦ raise e
  | ok version ↦ ok (record { dumps = λ value. p.dumps value version; loads = p.loads })
]

-- The module `json` with Django's encoder, and the conversion of texts to bytes and back.
pub record Json : Type 0 where
  pub dumps : Value → Option Text
  pub loads : Text → Option Value
  pub encode : Text → Option Text
  pub decode : Text → Option Text

abbrev and_then : {A B : Type 0} → Option A → (A → Option B) → Option B
and_then none f = none
and_then (some a) f = f a

unfoldable pub json_serializer : Json → Serializer
json_serializer j = record {
  dumps = λ value. and_then (j.dumps value) j.encode;
  loads = λ value. and_then (j.decode value) j.loads;
}

pub record MsgPack : Type 0 where
  pub dumps : Value → Option Text
  pub loads : Text → Option Value

unfoldable pub msgpack_serializer : MsgPack → Serializer
msgpack_serializer m = record { dumps = m.dumps; loads = m.loads }
