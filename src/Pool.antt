-- ===== src/Pool.antt =====
-- django_redis/pool.py, the class ConnectionFactory. The pools of the process are `State.pools`, by
-- URL. `import_string` is Django's, which the factory calls for the parser class.
pub mod Cache
pub mod Urls
pub mod Sentinel
use django_redis.Prelude.{
  Bool, true, false, Option, none, some, List, [], ◌∷◌, Text, codes, ℤ, pos, zero, suc, Dict,
  lookup, insert, update, if◌then◌else◌,
}
use django_redis.Exec.{
  Result, ok, raise, improperly_configured, other_error, M, ◌>>=◌, ◌>>◌, pure, throw, lift, gets,
}
use django_redis.Redis.{
  Driver, State, Setting, unset, text, number, boolean, float, object, world, change,
}

abbrev pub url_key : Text
url_key = codes "url"

abbrev pub parser_class_key : Text
parser_class_key = codes "parser_class"

abbrev pub password_key : Text
password_key = codes "password"

abbrev pub socket_timeout_key : Text
socket_timeout_key = codes "socket_timeout"

abbrev pub socket_connect_timeout_key : Text
socket_connect_timeout_key = codes "socket_connect_timeout"

-- The entries of OPTIONS that the factory reads.
pub record Options : Type 0 where
  pub password : Setting
  pub socket_timeout : Setting
  pub socket_connect_timeout : Setting
  pub parser_class : Setting
  pub pool_cls_kwargs : Dict Setting

-- The truth value of a setting.
abbrev pub truthy : Setting → Bool
truthy unset = false
truthy (text []) = false
truthy (text (c ∷ t)) = true
truthy (number (pos zero)) = false
truthy (number i) = true
truthy (boolean b) = b
truthy (float b n) = b
truthy (object b n) = b

-- isinstance(value, (int, float)); a `bool` is an `int`.
abbrev pub is_number : Setting → Bool
is_number (number i) = true
is_number (boolean b) = true
is_number (float b n) = true
is_number s = false

abbrev pub default_parser : Setting
default_parser = object true 0

-- The checks of a timeout option, and the entry that it makes.
unfoldable pub add_timeout : Text → Setting → Dict Setting → Result (Dict Setting)
add_timeout key value kwargs =
    if truthy value
    then (if is_number value then ok (insert key value kwargs) else raise improperly_configured)
    else ok kwargs

module _ (import_string : Setting → Setting) (o : Options) where
  unfoldable pub get_parser_cls : Setting
  get_parser_cls = elim o.parser_class [ unset ↦ default_parser | cls ↦ import_string cls ]

  -- The entries before the timeouts.
  unfoldable pub basic_params : Text → Dict Setting
  unfolding get_parser_cls insert
  basic_params url =
      let kwargs = insert parser_class_key get_parser_cls (insert url_key (text url) []) in
      if truthy o.password then insert password_key o.password kwargs else kwargs

  unfoldable pub make_connection_params : Text → Result (Dict Setting)
  unfolding basic_params add_timeout
  make_connection_params url =
      elim (add_timeout socket_timeout_key o.socket_timeout (basic_params url)) [
        | raise e ↦ raise e
        | ok kwargs ↦ add_timeout socket_connect_timeout_key o.socket_connect_timeout kwargs
      ]

module _ {W C P : Type 0} (d : Driver W C P) where
  abbrev or_raise : Option P × W → State W C P → Result P × State W C P
  or_raise (none, w) s = (raise other_error, record s { world = w })
  or_raise (some p, w) s = (ok p, record s { world = w })

  -- self.pool_cls.from_url(**cp_params)
  unfoldable pub from_url : Dict Setting → M (State W C P) P
  from_url params s = or_raise (d.from_url params s.world) s

  abbrev pub get_setting : Text → Dict Setting → Setting
  get_setting key params = elim (lookup key params) [ none ↦ unset | some v ↦ v ]

  -- The password that is set on a pool which has none.
  unfoldable pub give_password : Dict Setting → P → M (State W C P) Unit
  unfolding lookup
  give_password params pool s = elim (d.pool_password pool s.world) [
    | some _ ↦ (ok tt, s)
    | none ↦
        change
          (λ w. d.reset_pool pool (d.set_pool_password pool (get_setting password_key params) w)) s
  ]

  module _ (import_string : Setting → Setting) (o : Options) where
    unfoldable pub get_connection_pool : Dict Setting → M (State W C P) P
    unfolding from_url give_password insert
    get_connection_pool params = do
      pool ← from_url (update params o.pool_cls_kwargs)
      give_password params pool
      pure pool

    -- params["url"]
    abbrev pub url_of : Dict Setting → Text
    url_of params = elim (get_setting url_key params) [ text t ↦ t | _ ↦ [] ]

    unfoldable pub store_pool : Text → P → M (State W C P) Unit
    unfolding insert
    store_pool key pool s = (ok tt, record s { pools = insert key pool s.pools })

    -- self._pools[key] = self.get_connection_pool(params)
    unfoldable pub create_pool : Dict Setting → M (State W C P) P
    unfolding get_connection_pool store_pool
    create_pool params = do
      pool ← get_connection_pool params
      store_pool (url_of params) pool
      pure pool

    unfoldable pub get_or_create_connection_pool : Dict Setting → M (State W C P) P
    unfolding lookup create_pool
    get_or_create_connection_pool params s = elim (lookup (url_of params) s.pools) [
      | some pool ↦ (ok pool, s)
      | none ↦ create_pool params s
    ]

    unfoldable pub get_connection : Dict Setting → M (State W C P) C
    unfolding get_or_create_connection_pool
    get_connection params = do
      pool ← get_or_create_connection_pool params
      world (d.new_client pool)

    unfoldable pub connect : Text → M (State W C P) C
    unfolding make_connection_params get_connection
    connect url = do
      params ← lift (make_connection_params import_string o url)
      get_connection params

  unfoldable pub disconnect : C → M (State W C P) Unit
  disconnect connection = change (d.disconnect connection)
