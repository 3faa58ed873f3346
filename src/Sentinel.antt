-- ===== src/Sentinel.antt =====
-- django_redis/client/sentinel.py: SentinelClient makes two locations of one, and checks the class of
-- the pools.
pub mod Roles
use django_redis.Prelude.{
  ℕ, Bool, true, false, Option, none, some, List, [], ◌∷◌, Text, codes, Dict, insert, if◌then◌else◌,
  ◌==◌,
}
use django_redis.Exec.{Result, ok, raise, improperly_configured, value_error, M, ◌>>=◌, pure, throw}
use django_redis.Redis.{Driver, State}
use django_redis.Pool.Urls.{Parts, Urls}
use django_redis.Pool.Sentinel.{is_master_key}
use django_redis.Client
use django_redis.Client.{Config}
use django_redis.Client.Locations.{Location, location, locations}

unfoldable pub replace_query : Urls → Parts → Dict (List Text) → Text
replace_query u url query = u.urlunparse (record url { query = u.urlencode query })

-- The LOCATION that `__init__` hands on.
unfoldable pub init : Urls → Location → Result Location
unfolding replace_query insert
init u (locations ts) = ok (locations ts)
init u (location t) = elim (u.urlparse t) [
  | none ↦ raise value_error
  | some url ↦
      let query = u.parse_qs true url.query in
      let primary_query = insert is_master_key (codes "1" ∷ []) query in
      let replica_query = insert is_master_key (codes "0" ∷ []) query in
      ok (locations (replace_query u url primary_query ∷ replace_query u url replica_query ∷ []))
]

module _ {W C P : Type 0} (d : Driver W C P) (k : Config) (is_sentinel : C → Bool) where
  -- `is_sentinel` tells whether the pool of a client is a SentinelConnectionPool.
  unfoldable pub connect : ℕ → M (State W C P) C
  unfolding Client.connect
  connect index = do
    connection ← Client.connect d k index
    if is_sentinel connection then pure connection else throw improperly_configured
