-- ===== src/Client/Retry.antt =====
-- client/default.py: what the second turn of the loop of `set` sends.
use mathlib.Core.Option
use django_redis.Prelude.{
  ℕ, zero, suc, ◌-◌, ◌*◌, ◌<◌, ◌≡◌, refl, ◌∙◌, Bool, true, false, Option, none, some, List, [], ◌∷◌,
  ◌++◌, arith, ℤ, pos, times_1000,
}
use django_redis.Exec.{RedisError, redis_error, ok, raise}
use django_redis.Value.{Value, Encoded, seconds}
use django_redis.Keys.{Key}
use django_redis.Codec.{encode}
use django_redis.Redis.{Driver, State, reply, fails, command}
use django_redis.Client.{Config, servers_count, get_client_with_index}
use django_redis.Client.Basic.{key_of, attempt_client, may_retry, set_once, set_loop, set}

module _ {W C P : Type 0} (d : Driver W C P) (k : Config) where
  set_once_positive :
      (key : Key) (nvalue : Encoded) (n : ℕ) (version : Option ℤ) (c : C) (nx xx : Bool)
      → 0 < n
      → set_once d k key nvalue (some (pos n)) version c nx xx
        ≡ command (d.set c (key_of d k key version) nvalue nx (some (pos n)) xx)
  unfolding set_once
  set_once_positive key nvalue zero version c nx xx h = elim h [ ]
  set_once_positive key nvalue (suc n) version c nx xx h = refl

  module _ (key : Key) (nvalue : Encoded) (timeout version : Option ℤ) (client : Option C)
      (given nx xx : Bool) (tried : List ℕ) (s s' : State W C P) (c : C) (i : ℕ)
      (got : attempt_client d k client tried s ≡ (ok (c, i), s')) where
    -- A turn whose command replies ends the loop.
    pub set_loop-reply :
        (f : ℕ) (b : Bool) (t : State W C P)
        → set_once d k key nvalue (Option.map times_1000 timeout) version c nx xx s' ≡ (ok b, t)
        → set_loop d k (suc f) key nvalue timeout version client given nx xx tried s ≡ (ok b, t)
    unfolding set_loop
    set_loop-reply f b t done = rw (got, done)

    -- A turn that fails goes on with another server if it may.
    pub set_loop-failure :
        (f : ℕ) (e : RedisError) (t : State W C P)
        → set_once d k key nvalue (Option.map times_1000 timeout) version c nx xx s'
          ≡ (raise (redis_error e), t)
        → may_retry d k given tried ≡ true
        → set_loop d k (suc f) key nvalue timeout version client given nx xx tried s
          ≡ set_loop d k f key nvalue
              (Option.map times_1000 timeout)
              version
              none
              given
              nx
              xx
              (tried ++ i ∷ [])
              t
    unfolding set_loop
    set_loop-failure f e t failed may = rw (got, failed, may)

  -- Where replicas take writes, and a first server fails a `set` with a positive timeout of
  -- `suc t` seconds, the second server is sent that timeout times 1,000,000 as milliseconds, 1,000 times
  -- what the caller asked for; if it replies, `set` returns its reply as if nothing had happened.
  pub set_retried :
      (key : Key) (value : Value) (t : ℕ) (version : Option ℤ) (nx xx : Bool) (nvalue : Encoded)
      (s s₁ s₂ : State W C P) (c c' : C) (i j : ℕ) (e : RedisError) (b : Bool) (w w' : W)
      → k.replica_read_only ≡ false
      → 0 < servers_count d k
      → encode k.serializer k.compressor value ≡ ok nvalue
      → get_client_with_index d k true [] s ≡ (ok (c, i), s₁)
      → d.set c (key_of d k key version) nvalue nx (some (pos (suc t * 1000))) xx s₁.world
        ≡ (fails e, w)
      → get_client_with_index d k true (i ∷ []) (record s₁ { world = w }) ≡ (ok (c', j), s₂)
      → d.set c' (key_of d k key version) nvalue nx (some (pos (suc t * 1000 * 1000))) xx s₂.world
        ≡ (reply b, w')
      → set d k key value (seconds (some (pos (suc t)))) version none nx xx s
        ≡ (ok b, record s₂ { world = w' })
  unfolding set times_1000
  set_retried key value t version nx xx nvalue s s₁ s₂ c c' i j e b w w' ro h enc g₁ f₁ g₂ f₂ =
      let n = suc t * 1000 in
      let more : servers_count d k ≡ suc (servers_count d k - 1) = omega arith in
      let first : set_once d k key nvalue (some (pos n)) version c nx xx s₁
          ≡ (raise (redis_error e), record s₁ { world = w }) =
        rw (set_once_positive key nvalue n version c nx xx (omega arith), f₁) in
      let second : set_once d k key nvalue (some (pos (n * 1000))) version c' nx xx s₂
          ≡ (ok b, record s₂ { world = w' }) =
        rw (set_once_positive key nvalue (n * 1000) version c' nx xx (omega arith), f₂) in
      rw enc (
        set_loop-failure key nvalue (some (pos (suc t))) version none false nx xx [] s s₁ c i g₁
          (servers_count d k) e (record s₁ { world = w }) first (ground arith)
        ∙ rw more (
            set_loop-reply key nvalue (some (pos n)) version none false nx xx (i ∷ [])
              (record s₁ { world = w }) s₂ c' j g₂ (servers_count d k - 1) b
              (record s₂ { world = w' }) second))
