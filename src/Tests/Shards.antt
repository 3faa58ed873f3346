-- ===== src/Tests/Shards.antt =====
-- Tests of client/sharded.py.
use django_redis.Prelude.{
  listed, ℕ, ◌≡◌, ◌≢◌, refl, true, false, none, pos, some, [], ◌∷◌, Text, codes, arith, lookup,
  text_eq, text_eq_iff, Bool-cases, inl, inr, ◌||◌,
}
use django_redis.Python.Sorting.{elem, range, sort, insert_sorted}
use django_redis.Python.Decimal.{str, digits}
use django_redis.Exec.{ok}
use django_redis.Keys.{or_else}
use django_redis.HashRing
use django_redis.HashRing.{owner, init, add_node, add_nodes, add_points, set_owner, point}
use django_redis.HashRing.Points.{init-IsValid}
use django_redis.HashRing.Lookup.{Serves}
use django_redis.Shard.{Servers, find_hash, get_server}
use django_redis.Shard.Routing.{find_hash_tag, get_server_tag, get_server_total}
use django_redis.Redis.{State}
use django_redis.Shard.Init
use django_redis.Shard
use django_redis.Shard.Single.{routed}
use django_redis.Client.Basic
use django_redis.Client.Basic.{key_of}
use django_redis.Client.Expiry
use django_redis.Client.Counters
use django_redis.Value.{boolean, default_timeout}
use django_redis.Keys.{make_key}
use django_redis.HashRing.{get_node}
use django_redis.Shard.Built.{ConnectedTo, init-get_server}
use django_redis.Tests.{World, driver, config, key, state, digest, names}

abbrev servers : Servers ℕ
servers = record {
  ring = init digest [] names 2;
  serverdict = (codes "a", 1) ∷ (codes "b", 2) ∷ [];
}

servers-nonempty : servers.ring.self.ring ≢ []
unfolding init add_nodes add_node add_points set_owner range point str digits
servers-nonempty h = ground arith

owned_name :
    (p : ℕ) (n : Text)
    → owner p servers.ring.self.ring ≡ some n
    → (text_eq (codes "a") n || text_eq (codes "b") n) ≡ true
unfolding init add_nodes add_node add_points set_owner range point owner str digits
owned_name p n h = ground (arith, text_eq_iff (codes "a") n, text_eq_iff (codes "b") n)

servers-connected :
    (p : ℕ) (n : Text)
    → owner p servers.ring.self.ring ≡ some n
    → (c : ℕ) × (lookup n servers.serverdict ≡ some c)
unfolding lookup
servers-connected p n h = elim (Bool-cases (text_eq (codes "a") n)) [
  | inl e ↦ (1, rw e)
  | inr e ↦
      let other : text_eq (codes "b") n ≡ true = ground (arith, owned_name p n h) in
      (2, rw (e, other))
]

get_server_total_example :
    (c : ℕ) × (n : Text) × (get_server digest servers (codes "key") ≡ ok c)
    × (lookup n servers.serverdict ≡ some c)
    × (p : ℕ) × (owner p servers.ring.self.ring ≡ some n)
    × Serves
        (digest (or_else (find_hash (codes "key")) (codes "key")))
        servers.ring.self.sorted_keys
        p
get_server_total_example =
    get_server_total digest servers (codes "key") (init-IsValid digest [] names 2) servers-nonempty
      servers-connected

find_hash_tag_example : find_hash (codes "a{tag}b") ≡ some (codes "tag")
find_hash_tag_example =
    find_hash_tag (codes "a") (codes "tag") (codes "b") (unfold elem in refl) (unfold elem in refl)
      (unfold elem in refl) (unfold elem in refl) (unfold elem in refl)

get_server_tag_example :
    get_server digest servers (codes "a{tag}b") ≡ get_server digest servers (codes "{tag}")
get_server_tag_example =
    get_server_tag digest servers (codes "a") [] (codes "tag") (codes "b") [] (unfold elem in refl)
      (unfold elem in refl) (unfold elem in refl)

-- ShardClient over the two servers of the configuration.
abbrev built : Servers ℕ
built = record {
  ring = HashRing.init digest [] config.servers 128;
  serverdict = (codes "redis://a", 2) ∷ (codes "redis://b", 2) ∷ [];
}

abbrev connected : State World ℕ Text
connected = record state {
  pools = (codes "redis://a", codes "pool") ∷ (codes "redis://b", codes "pool") ∷ [];
}

init-built : Init.init (driver false) config digest [] state ≡ (ok built, connected)
unfolding Init.init text_eq lookup
init-built = refl

init-get_server_example :
    (c : ℕ) × (n : Text) × (get_server digest built (codes "key") ≡ ok c)
    × (lookup n built.serverdict ≡ some c)
    × (listed n config.servers ≡ true)
    × ConnectedTo (driver false) config n c
    × (p : ℕ) × Serves
        (digest (or_else (find_hash (codes "key")) (codes "key")))
        built.ring.self.sorted_keys
        p
    × (owner p built.ring.self.ring ≡ some n)
init-get_server_example =
    init-get_server (driver false) config digest [] (codes "key") built state connected (λ h. cc)
      init-built

key_server : get_server digest servers (key_of (driver false) config key none) ≡ ok 2
unfolding get_server get_node init add_nodes add_node add_points set_owner range point owner str
    digits find_hash make_key lookup text_eq sort insert_sorted
key_server = refl

routed_example :
    (Shard.set
        (driver false)
        config
        digest
        servers
        key
        (boolean true)
        default_timeout
        none
        none
        true
        false
      ≡ Basic.set (driver false) config key (boolean true) default_timeout none (some 2) true false)
    × (Shard.add (driver false) config digest servers key (boolean true) default_timeout none none
        ≡ Basic.add (driver false) config key (boolean true) default_timeout none (some 2))
    × (Shard.get (driver false) config digest servers key (boolean true) none none
        ≡ Basic.get (driver false) config key (boolean true) none (some 2))
    × (Shard.delete (driver false) config digest servers key none none
        ≡ Basic.delete (driver false) config key none none (some 2))
    × (Shard.ttl (driver false) config digest servers key none none
        ≡ Expiry.ttl (driver false) config key none (some 2))
    × (Shard.pttl (driver false) config digest servers key none none
        ≡ Expiry.pttl (driver false) config key none (some 2))
    × (Shard.persist (driver false) config digest servers key none none
        ≡ Expiry.persist (driver false) config key none (some 2))
    × (Shard.expire (driver false) config digest servers key default_timeout none none
        ≡ Expiry.expire (driver false) config key default_timeout none (some 2))
    × (Shard.pexpire (driver false) config digest servers key default_timeout none none
        ≡ Expiry.pexpire (driver false) config key default_timeout none (some 2))
    × (Shard.pexpire_at (driver false) config digest servers key (pos 9) none none
        ≡ Expiry.pexpire_at (driver false) config key (pos 9) none (some 2))
    × (Shard.expire_at (driver false) config digest servers key (pos 9) none none
        ≡ Expiry.expire_at (driver false) config key (pos 9) none (some 2))
    × (Shard.touch (driver false) config digest servers key default_timeout none none
        ≡ Expiry.touch (driver false) config key default_timeout none (some 2))
    × (Shard.incr (driver false) config digest servers key (pos 9) none none
        ≡ Counters.incr (driver false) config key (pos 9) none (some 2) false)
    × (Shard.decr (driver false) config digest servers key (pos 9) none none
        ≡ Counters.decr (driver false) config key (pos 9) none (some 2))
routed_example =
    routed (driver false) config key none digest servers 2 (boolean true) default_timeout true false
      (pos 9) key_server
