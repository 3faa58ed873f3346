-- ===== src/Tests/Herds.antt =====
-- Tests of client/herd.py.
use django_redis.Prelude.{◌≡◌, refl, true, false, none, some, codes, arith, pos, ◌+ℤ◌}
use django_redis.Exec.{ok}
use django_redis.Value.{Value, boolean, bytes, seconds, triple, marker, integer}
use django_redis.Codec.{encode, encode_dump, compress, zlib_compress}
use django_redis.Codec.RoundTrip.{wire}
use django_redis.Client.{Config}
use django_redis.Client.Basic.{key_of}
use django_redis.Herd.{_pack, _unpack}
use django_redis.Herd
use django_redis.Herd.Stored.{set_xx}
use django_redis.Herd.Window.{_unpack-_pack_fresh, _unpack-_pack_stale}
use django_redis.Tests.{key, at, driver, config, state}
use django_redis.Tests.Clients.{serving}

_unpack-_pack_fresh_example :
    (packed : Value) × (_pack (driver false) config (boolean true) (some (pos 60)) state
      ≡ (ok packed, state))
    × (_unpack (driver false) config 10 packed (record state { world = at 60 })
        ≡ (ok (boolean true, false), record state { world = at 60 }))
_unpack-_pack_fresh_example =
    _unpack-_pack_fresh (driver false) config 10 (boolean true) 59 state (at 60) (omega arith)

_unpack-_pack_stale_example :
    (packed : Value) × (_pack (driver false) config (boolean true) (some (pos 60)) state
      ≡ (ok packed, state))
    × (_unpack (driver false) config 10 packed (record state { world = at 70 })
        ≡ (ok (boolean true, true), record state { world = at 70 }))
_unpack-_pack_stale_example =
    _unpack-_pack_stale (driver false) config 10 (boolean true) 59 state (at 70) (omega arith)
      (omega arith)

-- A serializer that takes packed values too.
abbrev packing : Config
packing = record config { serializer = record { dumps = λ v. some (codes "p"); loads = λ t. none } }

encode-packed :
    encode packing.serializer packing.compressor
      (triple marker (boolean true) (integer (pos 60 +ℤ pos 0)))
    ≡ ok (bytes (codes "p"))
unfolding encode encode_dump compress zlib_compress
encode-packed = refl

set_xx_example :
    let after =
      Herd.set
        (driver false)
        packing
        10
        key
        (boolean true)
        (seconds (some (pos 60)))
        none
        (some 0)
        false
        true
        state in
    (after.0 ≡ ok true)
    × (after.1.world.held (key_of (driver false) packing key none)
        ≡ some (wire (bytes (codes "p"))))
set_xx_example =
    set_xx (driver false) serving packing 10 key (boolean true) (bytes (codes "p")) 59 none 0 state
      encode-packed
