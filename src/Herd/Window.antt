-- ===== src/Herd/Window.antt =====
-- herd.py: when a stored value counts as stale.
use django_redis.Prelude.{
  ℕ, zero, suc, ◌+◌, ◌-◌, ◌≤◌, ◌<◌, ◌≡◌, refl, true, false, some, arith, pos, ◌+ℤ◌, neg,
}
use django_redis.Exec.{ok}
use django_redis.Value.{Value}
use django_redis.Redis.{Driver, State}
use django_redis.Client.{Config}
use django_redis.Herd.{_is_expired, _pack, unpack_at, _unpack}

pub pos-add : (a b : ℕ) → pos a +ℤ pos b ≡ pos (a + b)
unfolding ◌+ℤ◌
pos-add a b = ground arith

sub-pos : (a b : ℕ) → b ≤ a → pos a +ℤ neg (pos b) ≡ pos (a - b)
unfolding ◌+ℤ◌
sub-pos a zero h = ground arith
sub-pos a (suc b) h = ground arith

module _ {W C P : Type 0} (d : Driver W C P) (k : Config) (window : ℕ) where
  unpack_fresh :
      (value : Value) (m : ℕ) (s : State W C P)
      → (d.time s.world).0 ≤ m
      → unpack_at d window value (pos m) s
        ≡ (ok (value, false), record s { world = (d.time s.world).1 })
  unfolding unpack_at
  unpack_fresh value m s h = ground arith

  unpack_stale :
      (value : Value) (m : ℕ) (s : State W C P)
      → m + window ≤ (d.time s.world).0
      → 0 < window
      → unpack_at d window value (pos m) s
        ≡ (ok (value, true), record s { world = (d.time s.world).1 })
  unfolding unpack_at _is_expired
  unpack_stale value m s h h' = rw (sub-pos (d.time s.world).0 m (omega arith)) (ground arith)

  -- A value packed with a timeout of `suc t` seconds and unpacked at most that many seconds later
  -- is the value, and fresh; the only change of the world is that the clock was read.
  pub _unpack-_pack_fresh :
      (value : Value) (t : ℕ) (s : State W C P) (w : W)
      → (d.time w).0 ≤ (d.time s.world).0 + suc t
      → (packed : Value) × (_pack d k value (some (pos (suc t))) s
          ≡ (ok packed, record s { world = (d.time s.world).1 }))
        × (_unpack d k window packed (record s { world = w })
            ≡ (ok (value, false), record s { world = (d.time w).1 }))
  unfolding _pack _unpack
  _unpack-_pack_fresh value t s w h = (
    _,
    refl,
    rw pos-add
        (unpack_fresh value (suc t + (d.time s.world).0) (record s { world = w }) (omega arith)),
  )

  -- A value packed with a timeout of `suc t` seconds and unpacked `window` seconds or more after
  -- the end of that time is the value, and stale, without a random number being drawn, for a window
  -- above 0.
  pub _unpack-_pack_stale :
      (value : Value) (t : ℕ) (s : State W C P) (w : W)
      → (d.time s.world).0 + suc t + window ≤ (d.time w).0
      → 0 < window
      → (packed : Value) × (_pack d k value (some (pos (suc t))) s
          ≡ (ok packed, record s { world = (d.time s.world).1 }))
        × (_unpack d k window packed (record s { world = w })
            ≡ (ok (value, true), record s { world = (d.time w).1 }))
  unfolding _pack _unpack
  _unpack-_pack_stale value t s w h h' = (
    _,
    refl,
    rw pos-add
        (unpack_stale value (suc t + (d.time s.world).0) (record s { world = w }) (omega arith) h'),
  )
