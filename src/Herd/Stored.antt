-- ===== src/Herd/Stored.antt =====
-- client/herd.py: what `set` with XX does.
use django_redis.Prelude.{
  ℕ, suc, ◌+◌, ◌≡◌, refl, ap, ◌∙◌, true, false, Option, some, arith, ℤ, pos, ◌+ℤ◌,
}
use django_redis.Exec.{ok}
use django_redis.Value.{Value, marker, triple, integer, Encoded, seconds}
use django_redis.Keys.{Key}
use django_redis.Codec.{encode}
use django_redis.Codec.RoundTrip.{wire}
use django_redis.Redis.{Driver, State}
use django_redis.Client.{Config}
use django_redis.Client.Basic.{key_of}
use django_redis.Client.Stored.{Serving, set-Stored, expires_now, is_nonpos_suc}
use django_redis.Prelude.{text_eq_refl}
use django_redis.Herd
use django_redis.Herd.Window.{pos-add}
use django_redis.Herd.{_pack}

later : (t window : ℕ) → expires_now (some (pos (suc t) +ℤ pos window)) ≡ false
later t window =
    ap (λ x. expires_now (some x)) (pos-add (suc t) window)
    ∙ is_nonpos_suc (suc t + window) (omega arith)

module _ {W C P : Type 0} (d : Driver W C P) (r : Serving d) (k : Config) (window : ℕ) where
  -- With a server that answers and a timeout of `suc t` seconds, `set` with `xx` writes the key and says
  -- that it did, whether or not the key was there.
  pub set_xx :
      (key : Key) (value : Value) (e : Encoded) (t : ℕ) (version : Option ℤ) (c : C)
      (s : State W C P)
      → encode k.serializer k.compressor
          (triple marker value (integer (pos (suc t) +ℤ pos (d.time s.world).0)))
        ≡ ok e
      → let after =
          Herd.set d k window key value
            (seconds (some (pos (suc t))))
            version
            (some c)
            false
            true
            s in
        (after.0 ≡ ok true) × (r.look after.1.world (key_of d k key version) ≡ some (wire e))
  unfolding Herd.set _pack
  set_xx key value e t version c s enc =
      let stored =
        set-Stored d r k key (triple marker value (integer (pos (suc t) +ℤ pos (d.time s.world).0)))
          e (seconds (some (pos (suc t) +ℤ pos window))) version c false false
          (record s { world = (d.time s.world).1 }) enc refl in
      let due = later t window in
      (stored.0 ∙ rw due, stored.1 (key_of d k key version) ∙ rw (due, text_eq_refl))
