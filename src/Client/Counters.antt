-- ===== src/Client/Counters.antt =====
-- client/default.py: counters and versions.
use django_redis.Prelude.{
  Bool, true, false, Option, none, some, if◌then◌else◌, ℤ, pos, negsuc, ◌+ℤ◌, neg, int_eq,
}
use django_redis.Exec.{
  response_error, redis_error, Result, raise, value_error, type_error, index_error, M, ◌>>=◌, ◌>>◌,
  pure, throw, interrupted,
}
use django_redis.Value.{Value, null, boolean, integer, object, is_null, seconds}
use django_redis.Keys.{Key, raw, cache_key, make_key, original_key, or_else}
use django_redis.Redis.{Driver, State, incrby_if_exists, incrby, command}
use django_redis.Client.{Config, client_or}
use django_redis.Client.Basic.{key_of, get, set, delete}
use django_redis.Client.Expiry.{ttl}

-- except ResponseError as e: …
abbrev pub handle_response : {S A : Type 0} → Result A × S → M S A → Result A × S
handle_response (raise (redis_error response_error), s) h = h s
handle_response r h = r

module _ {W C P : Type 0} (d : Driver W C P) (k : Config) where
  -- self.get(…) + delta
  unfoldable pub plus : Value → ℤ → M (State W C P) Value
  unfolding ◌+ℤ◌
  plus (integer i) delta = pure (integer (i +ℤ delta))
  plus (boolean true) delta = pure (integer (pos 1 +ℤ delta))
  plus (boolean false) delta = pure (integer (pos 0 +ℤ delta))
  plus (object n) delta = elim (k.object_plus n delta) [ none ↦ throw type_error | some v ↦ pure v ]
  plus _ delta = throw type_error

  -- The inner `try` block: the script, by the check for a missing key.
  unfoldable pub run_script : C → Key → ℤ → Bool → M (State W C P) Value
  unfolding make_key
  run_script c key delta ignore_key_check = do
    value ← command (
        d.eval c (if ignore_key_check then incrby else incrby_if_exists) (key_of d k key none)
          delta)
    elim value [ none ↦ throw value_error | some i ↦ pure (integer i) ]

  -- timeout == -2
  abbrev pub is_minus_two : Option ℤ → Bool
  is_minus_two none = false
  is_minus_two (some t) = int_eq t (negsuc 1)

  -- The handler of ResponseError: the value is not one that Redis can increment.
  unfoldable pub incr_by_hand : C → Key → ℤ → Option ℤ → M (State W C P) Value
  unfolding ttl get set plus
  incr_by_hand c key delta version = do
    timeout ← ttl d k key version (some c)
    if is_minus_two timeout then throw value_error else (do
      old ← get d k key null version (some c)
      value ← plus old delta
      set d k key value (seconds timeout) version (some c) false false
      pure value)

  unfoldable pub incr_inner : C → Key → ℤ → Option ℤ → Bool → M (State W C P) Value
  unfolding run_script incr_by_hand
  incr_inner c key delta version ignore_key_check s =
      handle_response (run_script c key delta ignore_key_check s) (incr_by_hand c key delta version)

  unfoldable pub _incr : Key → ℤ → Option ℤ → Option C → Bool → M (State W C P) Value
  unfolding client_or make_key incr_inner
  _incr key delta version client ignore_key_check = do
    c ← client_or d k client true
    interrupted (incr_inner c (make_key k.backend key version none) delta version ignore_key_check)

  unfoldable pub incr : Key → ℤ → Option ℤ → Option C → Bool → M (State W C P) Value
  unfolding _incr
  incr key delta version client ignore_key_check = _incr key delta version client ignore_key_check

  unfoldable pub decr : Key → ℤ → Option ℤ → Option C → M (State W C P) Value
  unfolding _incr
  decr key delta version client = _incr key (neg delta) version client false

  -- The key under the new version: a `CacheKey` is taken apart first.
  unfoldable pub moved_key : Key → ℤ → M (State W C P) Key
  unfolding original_key make_key
  moved_key (raw t) version = pure (make_key k.backend (raw t) (some version) none)
  moved_key (cache_key t) version = elim (original_key t) [
    | none ↦ throw index_error
    | some o ↦ pure (make_key k.backend (raw o) (some version) none)
  ]

  unfoldable pub incr_version : Key → ℤ → Option ℤ → Option C → M (State W C P) ℤ
  unfolding client_or get ttl set delete moved_key ◌+ℤ◌
  incr_version key delta version client = do
    c ← client_or d k client true
    let v = or_else version k.backend.version
    let old_key = make_key k.backend key (some v) none
    value ← get d k old_key null (some v) (some c)
    timeout ← interrupted (ttl d k old_key (some v) (some c))
    if is_null value then throw value_error else (do
      new_key ← moved_key key (v +ℤ delta)
      set d k new_key value (seconds timeout) none (some c) false false
      delete d k old_key none none (some c)
      pure (v +ℤ delta))
