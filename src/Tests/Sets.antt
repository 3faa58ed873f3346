-- ===== src/Tests/Sets.antt =====
-- Tests of client/mixins/sets.py.
use django_redis.Prelude.{
  ℕ, ◌≡◌, refl, Bool, true, false, not, ◌&&◌, ◌||◌, none, some, List, [], ◌∷◌, map, Text, codes,
  text_eq, arith, pos, length, if◌then◌else◌,
}
use django_redis.Python.Decimal.{str, digits}
use django_redis.Exec.{ok}
use django_redis.Value.{Value, integer, Encoded, number}
use django_redis.Keys.{Key, raw, make_key}
use django_redis.Codec.{encode}
use django_redis.Codec.RoundTrip.{wire}
use django_redis.Redis.{reply}
use django_redis.Redis.Lists.{nothing}
use django_redis.Redis.Sets.{SetCommands}
use django_redis.Client.Stored.{b2n}
use django_redis.Client.Sets.{Equality, sadd, sismember, smismember, smove}
use django_redis.Client.Sets.Stored.{
  ServingSets, among, Each, sismember-sadd, smove_version, smismember-sismember,
}
use django_redis.Tests.{key, World, empty, driver, config, state}

abbrev five : Value
five = integer (pos 5)

abbrev seven : Value
seven = integer (pos 7)

abbrev add_all : Text → List Encoded → World → World
add_all key es w = record w { sets = λ j x. w.sets j x || (text_eq key j && among x es) }

abbrev moved : Text → Text → Encoded → World → World
moved source destination e w = record w {
  sets = λ j x.
      if w.sets source (wire e) && text_eq (wire e) x
      then (text_eq destination j || (not (text_eq source j) && w.sets j x))
      else w.sets j x;
}

abbrev sets : SetCommands World ℕ
sets = record {
  sadd = λ c key es w. (reply (length es), add_all key es w);
  scard = λ c key w. (reply 0, w);
  sdiff = λ c keys w. (reply [], w);
  sdiffstore = λ c dest keys w. (reply 0, w);
  sinter = λ c keys w. (reply [], w);
  sinterstore = λ c dest keys w. (reply 0, w);
  sismember = λ c key e w. (reply (b2n (w.sets key (wire e))), w);
  smembers = λ c key w. (reply [], w);
  smismember = λ c key es w. (reply (map (λ e. b2n (w.sets key (wire e))) es), w);
  smove =
      λ c source destination e w. (reply (w.sets source (wire e)), moved source destination e w);
  spop = λ c key n w. (reply nothing, w);
  srandmember = λ c key n w. (reply nothing, w);
  srem = λ c key es w. (reply 0, w);
  sscan = λ c key m n w. (reply (0, []), w);
  sscan_iter = λ c key m n w. (reply [], w);
  sunion = λ c keys w. (reply [], w);
  sunionstore = λ c dest keys w. (reply 0, w);
}

serving_sets : ServingSets sets
serving_sets = record {
  held = λ w. w.sets;
  sadd_held = λ c key es w j x. refl;
  sismember_reply = λ c key e w. refl;
  smismember_reply = λ c key es w h. refl;
  smove_reply = λ c source destination e w. refl;
  smove_held = λ c source destination e w j x h. refl;
}

abbrev equality : Equality
equality = record { same = λ a b. false; hashable = λ v. true }

sismember-sadd_example :
    (sismember
      (driver false)
      sets
      equality
      config
      key
      seven
      none
      (some 0)
      (sadd (driver false) sets equality config key (five ∷ seven ∷ []) none (some 0) state).1).0
    ≡ ok (false || among (wire (number (pos 7))) (number (pos 5) ∷ number (pos 7) ∷ []))
unfolding encode
sismember-sadd_example =
    sismember-sadd (driver false) sets serving_sets equality config none 0 key (five ∷ seven ∷ [])
      (number (pos 5) ∷ number (pos 7) ∷ []) seven (number (pos 7)) false state (refl, (refl, tt))
      refl (unfold sismember in refl)

smismember-sismember_example :
    (bs : List Bool) × ((smismember
        (driver false)
        sets
        equality
        config
        key
        (five ∷ seven ∷ [])
        none
        (some 0)
        state).0
      ≡ ok bs)
    × Each (driver false) sets serving_sets equality config none 0 key state (five ∷ seven ∷ []) bs
unfolding encode
smismember-sismember_example =
    smismember-sismember (driver false) sets serving_sets equality config none 0 key
      (five ∷ seven ∷ []) (number (pos 5) ∷ number (pos 7) ∷ []) state (λ h. cc) (refl, (refl, tt))

abbrev full : World
full = record empty { sets = λ j x. text_eq j (codes "app:2:k") }

abbrev other : Key
other = raw (codes "m")

smove_version_example :
    let after =
      smove
        (driver false)
        sets
        equality
        config
        key
        other
        five
        (some (pos 2))
        (some 0)
        (record state { world = full }) in
    (after.0 ≡ ok true)
    × ((sismember (driver false) sets equality config key five (some (pos 2)) (some 0) after.1).0
        ≡ ok false)
    × ((sismember (driver false) sets equality config other five none (some 0) after.1).0 ≡ ok true)
    × ((sismember (driver false) sets equality config other five (some (pos 2)) (some 0) after.1).0
        ≡ (sismember
            (driver false)
            sets
            equality
            config
            other
            five
            (some (pos 2))
            (some 0)
            (record state { world = full })).0)
unfolding encode make_key str digits
smove_version_example =
    smove_version (driver false) sets serving_sets equality config (some (pos 2)) 0 key other five
      (number (pos 5)) (record state { world = full }) refl (unfold sismember text_eq in refl)
      (λ h. ground arith) (λ h. ground arith) (λ h. ground arith)
