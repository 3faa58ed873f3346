-- ===== src/Lib.antt =====
-- A model of django-redis (django_redis/), a cache backend of Django over Redis, and what it
-- satisfies.
--
-- The program. `RedisCache` (django_redis/cache.py) sends each method of Django's cache to a client
-- and may ignore interrupted connections. `DefaultClient` (django_redis/client/default.py) makes
-- the key, encodes the value, chooses a server and sends a command through redis-py; `HerdClient`
-- (django_redis/client/herd.py) stores a value beside the time from which it is stale;
-- `ShardClient` (django_redis/client/sharded.py) spreads the keys over servers by a hash ring
-- (django_redis/hash_ring.py). Connections come from pools (django_redis/pool.py); values go
-- through a serializer (django_redis/serializers/) and a compressor (django_redis/compressors/).
--
-- The files.
-- - Prelude, Python: lists, integers, texts and dictionaries; sort, bisect, str and int of Python.
-- - Exec: blocks that change a state and may raise, with django_redis/exceptions.py; Exec/Raises
--   bounds what a block can raise.
-- - HashRing: django_redis/hash_ring.py. HashRing/Points has the invariant, HashRing/Lookup what a
--   lookup answers, HashRing/Nodes what an iteration yields, HashRing/Consistent and
--   HashRing/Removal what adding and removing a node change.
-- - Keys: django_redis/util.py and the key functions of django_redis/client/default.py, with
--   Keys/Reverse and Keys/Pattern.
-- - Value, Redis: the values, and the interface to redis-py, the clock and the random numbers.
--   `State` keeps `_clients`, the pools of the process, and the world behind the interface.
-- - Redis/Lists, Redis/Sets, Redis/SortedSets: the same for the commands on collections.
-- - Codec: django_redis/compressors/, encode and decode; Codec/RoundTrip. Codec/Serializers:
--   the classes of django_redis/serializers/, with Codec/Serializers/Protocol.
-- - Pool: ConnectionFactory of django_redis/pool.py; Pool/Cache. Pool/Sentinel: the rest of that
--   file, over the interface to urllib.parse in Pool/Urls.
-- - Client: django_redis/client/default.py. Client keeps the connections, Client/Locations reads
--   the servers, Client/Basic has get, set, add, delete and has_key, Client/Expiry, Client/Many,
--   Client/Counters, Client/Hashes and Client/Locks the other commands. The theorems are in
--   Client/Choice, Client/Stored, Client/Many/Read, Client/Runs, Client/Retry, Client/Reaches,
--   Client/Missing, Client/Wrapped, Client/Keeps.
-- - Client/Lists, Client/Sets, Client/SortedSets: django_redis/client/mixins/, with
--   Client/Lists/Stored, Client/Sets/Stored, Client/SortedSets/Scores; Client/Coded is about the
--   lists of values that they encode and decode.
-- - Herd: django_redis/client/herd.py; Herd/Window, Herd/Stored.
-- - Shard: django_redis/client/sharded.py, with Shard/Init, Shard/Many and Shard/Sets; the theorems
--   are in Shard/Routing, Shard/Built and Shard/Single.
-- - Sentinel: django_redis/client/sentinel.py; Sentinel/Roles.
-- - Cache: django_redis/cache.py, with Cache/Lists, Cache/Sets, Cache/SortedSets and
--   Cache/Opening, which has django_redis/__init__.py too; Cache/Ignored.
-- - Tests: a small world, and the theorems at concrete inputs.
-- A function has the name of the method that it models.
--
-- Conventions. A command of redis-py replies, raises one of the exceptions that the program handles
-- (`RedisError`), or raises another. Nothing is assumed of the replies but where a theorem takes a
-- record of laws: `Serving` for a server that answers, `Random` for Python's random numbers, `Glob`
-- for the patterns of Redis, `Inflates` and `Keeps` for compression libraries and serializers. A
-- text is the list of its codes, a timeout a whole number of seconds, a sha256 digest the number
-- that its hex digits write. The loop of `set` runs on fuel, one turn more than there are servers;
-- digits of a number n on fuel n + 1.
--
-- The lists, sets and sorted sets of a server have records of laws of their own: `ServingLists`,
-- `ServingSets`, `SameMembers`; `ReadsQueries` is about URLs. A Python set is the list of its
-- members, a generator the list that it yields, and a float a value of a type of its own, or an
-- `object`.
--
-- Not modelled: what `__init__` of DefaultClient imports by the settings, which the record `Config`
-- stands for, logging, fractions of a second, and the upper bound that Redis has for an expiry.
pub mod Prelude
pub mod Python
pub mod Exec
pub mod HashRing
pub mod Keys
pub mod Value
pub mod Redis
pub mod Codec
pub mod Pool
pub mod Client
pub mod Herd
pub mod Shard
pub mod Sentinel
pub mod Cache
pub mod Tests
