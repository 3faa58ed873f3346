-- ===== src/Shard/Single.antt =====
-- client/sharded.py and client/default.py: a command of ShardClient is that of DefaultClient on the
-- client of the key's server.
use django_redis.Prelude.{
  ℕ, zero, suc, ◌≡◌, refl, ◌∙◌, Bool, true, false, Option, none, some, List, Text, ℤ,
}
use django_redis.Exec.{ok, M, ◌>>=◌}
use django_redis.Value.{Value, Encoded, Timeout}
use django_redis.Keys.{Key, make_key}
use django_redis.Keys.Reverse.{make_key-make_key}
use django_redis.Redis.{Driver, State}
use django_redis.Client.{Config}
use django_redis.Client.Basic
use django_redis.Client.Basic.{key_of, resolve, set_loop, set_once}
use django_redis.Client.Expiry
use django_redis.Client.Expiry.{touch_with}
use django_redis.Client.Counters
use django_redis.Shard.{
  Servers, get_server, route, set, add, get, delete, ttl, pttl, persist, expire, pexpire,
  pexpire_at, expire_at, touch, incr, decr,
}

module _ {W C P : Type 0} (d : Driver W C P) (k : Config) (key : Key) (version : Option ℤ) where
  abbrev made : Key
  made = make_key k.backend key version none

  -- Commands on the key that was made are those on the key of the caller.
  made_same : make_key k.backend made version none ≡ make_key k.backend key version none
  made_same = make_key-make_key k.backend key version version none none

  set_once-made :
      (e : Encoded) (t : Option ℤ) (c : C) (nx xx : Bool)
      → set_once d k made e t version c nx xx ≡ set_once d k key e t version c nx xx
  unfolding set_once Basic.has_key Basic.delete
  set_once-made e t c nx xx = rw made_same refl

  set_loop-made :
      (f : ℕ) (e : Encoded) (t : Option ℤ) (client : Option C) (given nx xx : Bool) (tried : List ℕ)
      → set_loop d k f made e t version client given nx xx tried
        ≡ set_loop d k f key e t version client given nx xx tried
  unfolding set_loop
  set_loop-made zero e t client given nx xx tried = refl
  set_loop-made (suc f) e t client given nx xx tried = simp (set_once-made, set_loop-made f)

  touch_with-made :
      (c : C) (t : Option ℤ) → touch_with d k c made version t ≡ touch_with d k c key version t
  touch_with-made c none = rw made_same refl
  touch_with-made c (some t) = rw made_same refl

  module _ {A : Type 0} where
    -- What ShardClient does with a command `f` on the key and the client of `route`.
    abbrev on_route : (Text → ℕ) → Servers C → (Key → C → M (State W C P) A) → M (State W C P) A
    on_route sha256 v f = do r ← route d k sha256 v key version none; f r.0 r.1

    on_server :
        (sha256 : Text → ℕ) (v : Servers C) (c : C) (f : Key → C → M (State W C P) A)
        → get_server sha256 v (key_of d k key version) ≡ ok c
        → on_route sha256 v f ≡ f made c
    unfolding route
    on_server sha256 v c f h = rw h refl

  -- For a key of a server, without a client, fourteen methods of ShardClient are the methods of
  -- DefaultClient on the same key with the client of that server: set, add, get, delete, ttl, pttl,
  -- persist, expire, pexpire, pexpire_at, expire_at, touch, incr and decr.
  pub routed :
      (sha256 : Text → ℕ) (v : Servers C) (c : C) (value : Value) (timeout : Timeout) (nx xx : Bool)
      (i : ℤ)
      → get_server sha256 v (key_of d k key version) ≡ ok c
      → (set d k sha256 v key value timeout version none nx xx
          ≡ Basic.set d k key value timeout version (some c) nx xx)
        × (add d k sha256 v key value timeout version none
            ≡ Basic.add d k key value timeout version (some c))
        × (get d k sha256 v key value version none ≡ Basic.get d k key value version (some c))
        × (delete d k sha256 v key version none ≡ Basic.delete d k key version none (some c))
        × (ttl d k sha256 v key version none ≡ Expiry.ttl d k key version (some c))
        × (pttl d k sha256 v key version none ≡ Expiry.pttl d k key version (some c))
        × (persist d k sha256 v key version none ≡ Expiry.persist d k key version (some c))
        × (expire d k sha256 v key timeout version none
            ≡ Expiry.expire d k key timeout version (some c))
        × (pexpire d k sha256 v key timeout version none
            ≡ Expiry.pexpire d k key timeout version (some c))
        × (pexpire_at d k sha256 v key i version none
            ≡ Expiry.pexpire_at d k key i version (some c))
        × (expire_at d k sha256 v key i version none ≡ Expiry.expire_at d k key i version (some c))
        × (touch d k sha256 v key timeout version none
            ≡ Expiry.touch d k key timeout version (some c))
        × (incr d k sha256 v key i version none ≡ Counters.incr d k key i version (some c) false)
        × (decr d k sha256 v key i version none ≡ Counters.decr d k key i version (some c))
  unfolding set add get delete ttl pttl persist expire pexpire pexpire_at expire_at touch incr decr
      Basic.set Basic.add Basic.get Basic.delete Expiry.ttl Expiry.pttl Expiry.persist Expiry.expire
      Expiry.pexpire Expiry.pexpire_at Expiry.expire_at Expiry.touch Counters.incr Counters.decr
      Counters._incr route
  routed sha256 v c value timeout nx xx i h = (
    on_server sha256 v c (λ K x. Basic.set d k K value timeout version (some x) nx xx) h
        ∙ simp (set_loop-made),
    on_server sha256 v c (λ K x. Basic.set d k K value timeout version (some x) true false) h
        ∙ simp (set_loop-made),
    on_server sha256 v c (λ K x. Basic.get d k K value version (some x)) h ∙ rw made_same refl,
    on_server sha256 v c (λ K x. Basic.delete d k K version none (some x)) h ∙ rw made_same refl,
    on_server sha256 v c (λ K x. Expiry.ttl d k K version (some x)) h ∙ rw made_same refl,
    on_server sha256 v c (λ K x. Expiry.pttl d k K version (some x)) h ∙ rw made_same refl,
    on_server sha256 v c (λ K x. Expiry.persist d k K version (some x)) h ∙ rw made_same refl,
    on_server sha256 v c (λ K x. Expiry.expire d k K timeout version (some x)) h
        ∙ rw made_same refl,
    on_server sha256 v c (λ K x. Expiry.pexpire d k K timeout version (some x)) h
        ∙ rw made_same refl,
    on_server sha256 v c (λ K x. Expiry.pexpire_at d k K i version (some x)) h ∙ rw made_same refl,
    on_server sha256 v c (λ K x. Expiry.expire_at d k K i version (some x)) h ∙ rw made_same refl,
    on_server sha256 v c (λ K x. Expiry.touch d k K timeout version (some x)) h
        ∙ touch_with-made c (resolve k timeout),
    on_server sha256 v c (λ K x. Counters.incr d k K i version (some x) false) h
        ∙ rw made_same refl,
    on_server sha256 v c (λ K x. Counters.decr d k K i version (some x)) h ∙ rw made_same refl,
  )
