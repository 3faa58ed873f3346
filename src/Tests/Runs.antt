-- ===== src/Tests/Runs.antt =====
-- Tests of client/default.py: runs of commands, the servers that a write reaches, the list of clients.
use django_redis.Prelude.{
  ℕ, Bool-cases, inl, inr, listed, lookup, Dict, map, text_eq, if◌then◌else◌, zero, suc, ◌≡◌, refl,
  true, false, Option, none, some, ℤ, List, [], ◌∷◌, codes, arith, pos,
}
use django_redis.Prelude.{Text}
use django_redis.Redis.{reply}
use django_redis.Keys.{raw, make_key}
use django_redis.Python.Decimal.{str, digits}
use django_redis.Codec.RoundTrip.{decode-encode}
use django_redis.Client.Many.{get_many}
use django_redis.Client.Many.Read.{Apart, get_many_lem}
use django_redis.Exec.{ok}
use django_redis.Value.{Value, null, boolean, bytes, default_timeout, seconds}
use django_redis.Codec.RoundTrip.{Storable}
use django_redis.Client.Basic.{key_of, set}
use django_redis.Client.Keeps.{Keeps}
use django_redis.Client.Keeps.Others.{length-clients}
use django_redis.Client.Reaches.{Acknowledged, FailsKnown, Accepts, Connected, set-Acknowledged}
use django_redis.Client.Runs.{Contents, Operation, perform_all, meaning_all}
use django_redis.Client.Runs.Steps.{Agrees}
use django_redis.Client.Runs.Refined.{perform_all_refines}
use django_redis.Client.Basic
use django_redis.Client.Expiry
use django_redis.Client.Many
use django_redis.Client.Counters
use django_redis.Client.{close}
use django_redis.Tests.{key, empty, driver, config, state, World, put}
use django_redis.Tests.Clients.{serving, encode-true, true-Keeps, random}

abbrev run : List Operation
run =
    Operation.set key (boolean true) (seconds (some (pos 60))) none
    ∷ Operation.get key null none
    ∷ Operation.add key (boolean true) default_timeout none
    ∷ Operation.delete key none
    ∷ Operation.has_key key none
    ∷ []

true-Storable : Storable config.serializer config.compressor (boolean true)
true-Storable = record { encoded = (bytes (codes "t"), encode-true); kept = true-Keeps }

nothing-Agrees : Agrees (driver false) serving config empty (λ j. none)
nothing-Agrees = record { at = λ j. tt }

perform_all_refines_example :
    ((perform_all (driver false) config 0 run state).0
      ≡ ok (meaning_all (driver false) config run (λ j. none)).0)
    × Agrees
        (driver false)
        serving
        config
        (perform_all (driver false) config 0 run state).1.world
        (meaning_all (driver false) config run (λ j. none)).1
perform_all_refines_example =
    perform_all_refines (driver false) serving config run 0 state (λ j. none) nothing-Agrees
      (true-Storable, (tt, (true-Storable, (tt, (tt, tt)))))

-- On the broken driver the client 0 fails, and the client 1 takes every write.
true-FailsKnown : FailsKnown (driver true) config key (bytes (codes "t")) none false false
true-FailsKnown zero t w h = ground arith
true-FailsKnown (suc c) t w h = ground arith

one-Accepts :
    (timeout : Option ℤ)
    → Accepts (driver true) config key (bytes (codes "t")) none false false 1 timeout
one-Accepts timeout j w h = (true, refl)

both-Connected :
    Connected (driver true) config key (bytes (codes "t")) none false false state.clients
both-Connected zero h = (0, refl)
both-Connected (suc zero) h = (1, refl)
both-Connected (suc (suc i)) h = absurd (omega arith)

set-Acknowledged_example :
    Acknowledged (driver true) config key (bytes (codes "t")) none false false (
      set
        (driver true)
        config
        key
        (boolean true)
        (seconds (some (pos 60)))
        none
        none
        false
        false
        state)
set-Acknowledged_example =
    set-Acknowledged (driver true) config key (bytes (codes "t")) none false false random 1 1
      (omega arith) (boolean true) (seconds (some (pos 60))) state true-FailsKnown
      (one-Accepts (some (pos 60))) refl encode-true refl both-Connected refl

length-clients_example :
    Keeps (set (driver true) config key (boolean true) default_timeout none none true false)
    × Keeps (Basic.add (driver true) config key (boolean true) default_timeout none none)
    × Keeps (Basic.get (driver true) config key (boolean true) none none)
    × Keeps (Basic.delete (driver true) config key none none none)
    × Keeps (Many.delete_many (driver true) config (key ∷ []) none none)
    × Keeps (Many.delete_pattern (driver true) config key none none none (some 10))
    × Keeps (Many.clear (driver true) config none)
    × Keeps (Many.get_many (driver true) config (key ∷ []) none none)
    × Keeps
        (Many.set_many (driver true) config ((key, boolean true) ∷ []) default_timeout none none)
    × Keeps (Counters.incr (driver true) config key (pos 2) none none true)
    × Keeps (Counters.decr (driver true) config key (pos 2) none none)
    × Keeps (Counters.incr_version (driver true) config key (pos 2) none none)
    × Keeps (Basic.has_key (driver true) config key none none)
    × Keeps (Many.keys (driver true) config key none none)
    × Keeps (Expiry.ttl (driver true) config key none none)
    × Keeps (Expiry.touch (driver true) config key default_timeout none none)
    × Keeps (close (driver true) config)
length-clients_example =
    length-clients (driver true) config key (boolean true) default_timeout none none true false none
      (key ∷ []) ((key, boolean true) ∷ []) (pos 2) (some 10)

-- The key of "k" holds True.
abbrev held : World
held = put (codes "app:1:k") (some (codes "t")) empty

abbrev contents : Contents
contents j = if text_eq (codes "app:1:k") j then some (boolean true) else none

mget-reply :
    (c : ℕ) (keys : List Text) (w : World)
    → ((driver false).mget c keys w).0 ≡ reply (map (serving.look w) keys)
mget-reply c keys w = refl

held-Agrees : Agrees (driver false) serving config held contents
held-Agrees = record {
  at = λ j. elim (Bool-cases (text_eq (codes "app:1:k") j)) [
    | inl e ↦ rw e (
        decode-encode config.serializer config.compressor (boolean true) (bytes (codes "t"))
          true-Keeps encode-true)
    | inr e ↦ rw e tt
  ];
}

config-Apart : Apart (driver false) config none
unfolding make_key str digits
config-Apart t u h = ground arith

get_many_lem_example :
    (dict : Dict Value) × ((get_many
        (driver false)
        config
        (map raw (codes "k" ∷ codes "l" ∷ []))
        none
        (some 0)
        (record state { world = held })).0
      ≡ ok dict)
    × ((j : Text)
        → lookup j dict ≡ (
            if listed j (codes "k" ∷ codes "l" ∷ [])
            then contents (key_of (driver false) config (raw j) none)
            else none))
get_many_lem_example =
    get_many_lem (driver false) config none serving contents mget-reply config-Apart
      (codes "k" ∷ codes "l" ∷ []) 0 (record state { world = held }) held-Agrees
