-- ===== src/Tests/Sentinels.antt =====
-- Tests of client/sentinel.py: URLs that are a query and nothing else.
use django_redis.Prelude.{
  ◌≡◌, refl, true, false, none, some, List, [], ◌∷◌, Text, codes, text_eq, if◌then◌else◌, Dict,
  insert,
}
use django_redis.Exec.{ok}
use django_redis.Redis.{unset}
use django_redis.Pool.Urls.{Parts, Urls}
use django_redis.Pool.Sentinel.{is_master_key}
use django_redis.Client.Locations.{location, locations}
use django_redis.Sentinel.{init}
use django_redis.Sentinel.Roles.{ReadsQueries, Pools, init-Pools, nonblank, nonblank_values}

abbrev parts : Text → Parts
parts t = record {
  scheme = [];
  netloc = codes "mymaster";
  path = [];
  params = [];
  query = t;
  fragment = [];
}

-- The query is the value of `is_master`.
abbrev entries : Text → Dict (List Text)
entries [] = []
entries (c ∷ t) = (is_master_key, (c ∷ t) ∷ []) ∷ []

abbrev written : Dict (List Text) → Text
written [] = []
written ((k, []) ∷ d) = []
written ((k, v ∷ vs) ∷ d) = v

abbrev urls : Urls
urls = record {
  urlparse = λ t. some (parts t);
  urlunparse = λ p. p.query;
  hostname = λ p. some p.netloc;
  parse_qs = λ blank t. entries t;
  urlencode = written;
  to_bool = λ t.
      if text_eq t (codes "1")
      then some true
      else if text_eq t (codes "0")
      then some false
      else none;
}

written_read :
    (v : Text)
    → entries (written (insert is_master_key (v ∷ []) []))
      ≡ nonblank (insert is_master_key (v ∷ []) [])
unfolding insert nonblank nonblank_values
written_read [] = refl
written_read (c ∷ v) = refl

reads : ReadsQueries urls [] (parts [])
unfolding text_eq
reads = record {
  parsed = refl;
  reparsed = λ q. refl;
  requeried = written_read;
  same_host = λ q. refl;
  one = refl;
  zero = refl;
}

init-Pools_example :
    (primary : Text) × (replica : Text) × (address : Text) × (init urls (location [])
      ≡ ok (locations (primary ∷ replica ∷ [])))
    × Pools urls unset [] primary true address (some (codes "mymaster"))
    × Pools urls unset [] replica false address (some (codes "mymaster"))
init-Pools_example = init-Pools urls unset [] (parts []) reads []
