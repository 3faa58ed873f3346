-- ===== src/Tests/Lists.antt =====
-- Tests of client/mixins/lists.py.
use django_redis.Prelude.{
  ℕ, ◌+◌, ◌≡◌, refl, true, false, none, some, List, [], ◌∷◌, ◌++◌, map, reverse, Text, text_eq,
  text_eq_refl, pos, negsuc, ℤ, length, if◌then◌else◌,
}
use django_redis.Exec.{ok}
use django_redis.Value.{Value, integer, number}
use django_redis.Codec.{encode}
use django_redis.Codec.RoundTrip.{wire, Storable}
use django_redis.Redis.{reply}
use django_redis.Redis.Lists.{nothing, one, ListCommands}
use django_redis.Client.Lists.{lpush, rpush, lpop, lrange}
use django_redis.Client.Lists.Stored.{ServingLists, popped_first, rest_of, lrange-push, lpop-lpush}
use django_redis.Tests.{key, World, driver, config, state}

abbrev put_list : Text → List Text → World → World
put_list key ts w = record w { lists = λ j. if text_eq key j then ts else w.lists j }

-- The commands that the theorems do not speak of do nothing.
abbrev lists : ListCommands World ℕ
lists = record {
  lpush = λ c key es w. (
    reply (length es + length (w.lists key)),
    put_list key (reverse (map wire es) ++ w.lists key) w,
  );
  rpush = λ c key es w.
      (reply (length (w.lists key) + length es), put_list key (w.lists key ++ map wire es) w);
  lpop = λ c key n w. (reply (popped_first (w.lists key)), put_list key (rest_of (w.lists key)) w);
  rpop = λ c key n w. (reply nothing, w);
  llen = λ c key w. (reply (length (w.lists key)), w);
  lrange = λ c key start end w. (reply (w.lists key), w);
  lindex = λ c key i w. (reply none, w);
  lset = λ c key i e w. (reply true, w);
  lrem = λ c key n e w. (reply 0, w);
  ltrim = λ c key start end w. (reply true, w);
  linsert = λ c key p r e w. (reply (pos 0), w);
}

serving_lists : ServingLists lists
serving_lists = record {
  held = λ w. w.lists;
  lpush_reply = λ c key es w h. refl;
  lpush_held = λ c key es w h. rw (text_eq_refl key) refl;
  rpush_reply = λ c key es w h. refl;
  rpush_held = λ c key es w h. rw (text_eq_refl key) refl;
  lrange_all = λ c key w. refl;
  lpop_reply = λ c key w. refl;
  lpop_held = λ c key w. rw (text_eq_refl key) refl;
}

abbrev five : Value
five = integer (pos 5)

abbrev seven : Value
seven = integer (pos 7)

integer-Storable : (i : ℤ) → Storable config.serializer config.compressor (integer i)
unfolding encode
integer-Storable i = record { encoded = (number i, refl); kept = tt }

lrange-push_example :
    ((rpush (driver false) lists config key (five ∷ seven ∷ []) none (some 0) state).0 ≡ ok 2)
    × ((lrange
          (driver false)
          lists
          config
          key
          (pos 0)
          (negsuc 0)
          none
          (some 0)
          (rpush (driver false) lists config key (five ∷ seven ∷ []) none (some 0) state).1).0
        ≡ ok (five ∷ seven ∷ []))
    × ((lpush (driver false) lists config key (five ∷ seven ∷ []) none (some 0) state).0 ≡ ok 2)
    × ((lrange
          (driver false)
          lists
          config
          key
          (pos 0)
          (negsuc 0)
          none
          (some 0)
          (lpush (driver false) lists config key (five ∷ seven ∷ []) none (some 0) state).1).0
        ≡ ok (seven ∷ five ∷ []))
unfolding serving_lists
lrange-push_example =
    lrange-push (driver false) lists serving_lists config key none 0 (five ∷ seven ∷ []) [] state tt
      (integer-Storable (pos 5), (integer-Storable (pos 7), tt)) (λ h. cc)

lpop-lpush_example :
    ((lpop
        (driver false)
        lists
        config
        key
        none
        none
        (some 0)
        (lpush (driver false) lists config key (five ∷ []) none (some 0) state).1).0
      ≡ ok (one five))
    × ((lrange
          (driver false)
          lists
          config
          key
          (pos 0)
          (negsuc 0)
          none
          (some 0)
          (lpop
            (driver false)
            lists
            config
            key
            none
            none
            (some 0)
            (lpush (driver false) lists config key (five ∷ []) none (some 0) state).1).1).0
        ≡ ok [])
unfolding serving_lists
lpop-lpush_example =
    lpop-lpush (driver false) lists serving_lists config key none 0 five [] state tt
      (integer-Storable (pos 5))
