-- ===== src/Pool/Sentinel.antt =====
-- django_redis/pool.py: SentinelConnectionFactory and `get_connection_factory`.
use django_redis.Prelude.{
  Bool, true, false, Option, none, some, List, [], ◌∷◌, Text, codes, Dict, lookup, insert, remove,
  update, if◌then◌else◌,
}
use django_redis.Exec.{
  Result, ok, raise, improperly_configured, value_error, other_error, M, ◌>>=◌, lift,
}
use django_redis.Redis.{Driver, State, Setting, unset, text, boolean}
use django_redis.Pool.{
  Options, truthy, make_connection_params, get_connection_pool, url_of, url_key,
}
use django_redis.Pool.Urls.{Parts, Urls}

abbrev pub is_master_key : Text
is_master_key = codes "is_master"

abbrev pub service_name_key : Text
service_name_key = codes "service_name"

abbrev pub sentinel_manager_key : Text
sentinel_manager_key = codes "sentinel_manager"

-- The options that only this factory reads.
pub record SentinelOptions : Type 0 where
  pub base : Options
  pub connection_pool_class : Setting
  pub sentinels : Setting
  pub sentinel_kwargs : Setting

abbrev pub default_pool_class : Setting
default_pool_class = text (codes "redis.sentinel.SentinelConnectionPool")

-- options.setdefault("CONNECTION_POOL_CLASS", …)
unfoldable pub set_pool_class : SentinelOptions → SentinelOptions
set_pool_class o = elim o.connection_pool_class [
  | unset ↦ record o { connection_pool_class = default_pool_class }
  | _ ↦ o
]

-- __init__: the options that it leaves, and the Sentinel object, which `new_sentinel` makes of its
-- arguments. `make_connection_params` is called without a URL, and the entry is removed again.
unfoldable pub init :
    (Setting → Setting)
    → (Setting → Setting → Dict Setting → Setting)
    → SentinelOptions
    → Result (SentinelOptions × Setting)
unfolding set_pool_class make_connection_params remove
init import_string new_sentinel o =
    let o' = set_pool_class o in
    if truthy o'.sentinels
    then elim (make_connection_params import_string o'.base []) [
      | raise e ↦ raise e
      | ok kwargs ↦ ok (
        o',
        new_sentinel o'.sentinels o'.sentinel_kwargs
            (update (remove url_key kwargs) o'.base.pool_cls_kwargs),
      )
    ]
    else raise improperly_configured

-- A setting that is a `bool`, or None.
abbrev pub flag : Option Bool → Setting
flag none = unset
flag (some true) = boolean true
flag (some false) = boolean false

abbrev pub text_or_none : Option Text → Setting
text_or_none none = unset
text_or_none (some t) = text t

-- if is_master: cp_params["is_master"] = to_bool(is_master[0])
unfoldable pub put_is_master : Urls → Option (List Text) → Dict Setting → Dict Setting
unfolding insert
put_is_master u (some (value ∷ _)) params = insert is_master_key (flag (u.to_bool value)) params
put_is_master u _ params = params

-- The parameters of the pool, once the URL is taken apart.
unfoldable pub pool_params_of : Urls → Setting → Parts → Dict Setting → Dict Setting
unfolding put_is_master lookup insert remove
pool_params_of u sentinel url params =
    let query_params = u.parse_qs false url.query in
    let cp_params = put_is_master u (lookup is_master_key query_params) params in
    let new_query = u.urlencode (remove is_master_key query_params) in
    let new_url = u.urlunparse (record url { query = new_query }) in
    insert url_key (text new_url) (
      insert sentinel_manager_key sentinel
        (insert service_name_key (text_or_none (u.hostname url)) cp_params))

-- `get_connection_pool` up to the call of its `super`.
unfoldable pub pool_params : Urls → Setting → Text → Dict Setting → Result (Dict Setting)
unfolding pool_params_of
pool_params u sentinel url params = elim (u.urlparse url) [
  | none ↦ raise value_error
  | some parts ↦ ok (pool_params_of u sentinel parts params)
]

module _ {W C P : Type 0} (d : Driver W C P) (import_string : Setting → Setting) (o : Options)
    (u : Urls) (sentinel : Setting) where
  unfoldable pub sentinel_pool : Dict Setting → M (State W C P) P
  unfolding pool_params get_connection_pool
  sentinel_pool params = do
    cp_params ← lift (pool_params u sentinel (url_of d import_string o params) params)
    get_connection_pool d import_string o cp_params

-- get_connection_factory: the path of the class, and the options that it is called with. `default` is
-- the setting DJANGO_REDIS_CONNECTION_FACTORY or its default; options of None have no `get`.
unfoldable pub get_connection_factory :
    Setting → Option Setting → Option (Dict Setting) → Result (Setting × Dict Setting)
unfolding lookup
get_connection_factory default path none = raise other_error
get_connection_factory default path (some options) =
    let chosen : Setting = elim path [ none ↦ default | some p ↦ p ] in
    elim (lookup (codes "CONNECTION_FACTORY") options) [
      | none ↦ ok (chosen, options)
      | some opt_conn_factory ↦
          if truthy opt_conn_factory then ok (opt_conn_factory, options) else ok (chosen, options)
    ]
