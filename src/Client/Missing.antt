-- ===== src/Client/Missing.antt =====
-- client/default.py: missing keys in `ttl` and `_incr`.
use django_redis.Prelude.{
  ℕ, ◌≡◌, Bool, true, false, Option, none, some, arith, if◌then◌else◌, ℤ, negsuc,
}
use django_redis.Exec.{response_error, ok, raise, type_error}
use django_redis.Keys.{Key, raw, cache_key, make_key}
use django_redis.Redis.{Driver, State, reply, fails, incrby, incrby_if_exists}
use django_redis.Client.{Config, client_or}
use django_redis.Client.Basic.{key_of, get}
use django_redis.Client.Expiry.{ttl_reply, ttl, pttl}
use django_redis.Client.Counters.{_incr, incr_inner, incr_by_hand, run_script, plus, incr}

module _ {W C P : Type 0} (d : Driver W C P) (k : Config) where
  -- On a client that is given, neither `ttl` nor `pttl` ever returns a negative number; so a caller
  -- does not see the -2 that Redis answers for a missing key.
  pub ttl-ne-neg :
      (key : Key) (version : Option ℤ) (c : C) (s : State W C P) (n : ℕ)
      → ¬ ((ttl d k key version (some c) s).0 ≡ ok (some (negsuc n)))
        × ¬ ((pttl d k key version (some c) s).0 ≡ ok (some (negsuc n)))
  unfolding ttl pttl client_or ttl_reply
  ttl-ne-neg key version c s n = (λ h. ground arith, λ h. ground arith)

  -- `incr` on a value that Redis refuses to increment, when the key is gone by the time of the
  -- handler: the handler's test for a missing key does not see that, and the caller gets the TypeError
  -- of None + delta in place of the ValueError for a missing key.
  pub incr_gone :
      (key : Key) (delta : ℤ) (version : Option ℤ) (c : C) (s : State W C P) (w w' w'' : W)
      (ignore_key_check : Bool)
      → d.eval c
          (if ignore_key_check then incrby else incrby_if_exists)
          (key_of d k key version)
          delta
          s.world
        ≡ (fails response_error, w)
      → d.exists c (key_of d k key version) w ≡ (reply 0, w')
      → d.get c (key_of d k key version) w' ≡ (reply none, w'')
      → (incr d k key delta version (some c) ignore_key_check s).0 ≡ raise type_error
  unfolding incr _incr incr_inner run_script incr_by_hand ttl ttl_reply get plus client_or make_key
  incr_gone (raw t) delta version c s w w' w'' true e gone lost = rw (e, gone, lost)
  incr_gone (raw t) delta version c s w w' w'' false e gone lost = rw (e, gone, lost)
  incr_gone (cache_key t) delta version c s w w' w'' true e gone lost = rw (e, gone, lost)
  incr_gone (cache_key t) delta version c s w w' w'' false e gone lost = rw (e, gone, lost)
