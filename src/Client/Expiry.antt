-- ===== src/Client/Expiry.antt =====
-- client/default.py: the commands on expiration times.
use django_redis.Prelude.{
  zero, suc, Bool, true, false, Option, none, some, ◌==◌, if◌then◌else◌, ℤ, pos, negsuc, times_1000,
}
use django_redis.Exec.{M, ◌>>=◌, pure}
use django_redis.Value.{Timeout}
use django_redis.Keys.{Key, make_key}
use django_redis.Redis.{Driver, State, command}
use django_redis.Client.{Config, client_or}
use django_redis.Client.Basic.{resolve, key_of}

-- What the replies of TTL and PTTL mean: -1 is a key with no expiry, -2 a missing key.
unfoldable pub ttl_reply : ℤ → Option ℤ
ttl_reply (pos t) = some (pos t)
ttl_reply (negsuc zero) = none
ttl_reply (negsuc (suc zero)) = some (pos 0)
ttl_reply (negsuc (suc (suc n))) = none

module _ {W C P : Type 0} (d : Driver W C P) (k : Config) where
  unfoldable pub persist : Key → Option ℤ → Option C → M (State W C P) Bool
  unfolding client_or make_key
  persist key version client = do
    c ← client_or d k client true
    command (d.persist c (key_of d k key version))

  unfoldable pub expire : Key → Timeout → Option ℤ → Option C → M (State W C P) Bool
  unfolding client_or make_key
  expire key timeout version client = do
    c ← client_or d k client true
    command (d.expire c (key_of d k key version) (resolve k timeout))

  unfoldable pub pexpire : Key → Timeout → Option ℤ → Option C → M (State W C P) Bool
  unfolding client_or make_key
  pexpire key timeout version client = do
    c ← client_or d k client true
    command (d.pexpire c (key_of d k key version) (resolve k timeout))

  unfoldable pub pexpire_at : Key → ℤ → Option ℤ → Option C → M (State W C P) Bool
  unfolding client_or make_key
  pexpire_at key when version client = do
    c ← client_or d k client true
    command (d.pexpireat c (key_of d k key version) when)

  unfoldable pub expire_at : Key → ℤ → Option ℤ → Option C → M (State W C P) Bool
  unfolding client_or make_key
  expire_at key when version client = do
    c ← client_or d k client true
    command (d.expireat c (key_of d k key version) when)

  unfoldable pub ttl : Key → Option ℤ → Option C → M (State W C P) (Option ℤ)
  unfolding client_or make_key ttl_reply
  ttl key version client = do
    c ← client_or d k client false
    n ← command (d.exists c (key_of d k key version))
    if n == 0
        then pure (some (pos 0))
        else (do t ← command (d.ttl c (key_of d k key version)); pure (ttl_reply t))

  unfoldable pub pttl : Key → Option ℤ → Option C → M (State W C P) (Option ℤ)
  unfolding client_or make_key ttl_reply
  pttl key version client = do
    c ← client_or d k client false
    n ← command (d.exists c (key_of d k key version))
    if n == 0
        then pure (some (pos 0))
        else (do t ← command (d.pttl c (key_of d k key version)); pure (ttl_reply t))

  -- `touch` once it has a client and a key.
  abbrev pub touch_with : C → Key → Option ℤ → Option ℤ → M (State W C P) Bool
  touch_with c key version none = command (d.persist c (key_of d k key version))
  touch_with c key version (some t) =
      command (d.pexpire c (key_of d k key version) (some (times_1000 t)))

  unfoldable pub touch : Key → Timeout → Option ℤ → Option C → M (State W C P) Bool
  unfolding client_or make_key
  touch key timeout version client = do
    c ← client_or d k client true
    touch_with c key version (resolve k timeout)
