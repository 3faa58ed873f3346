-- ===== src/Client/Keeps/Commands.antt =====
-- client/default.py: every command leaves as many entries in `_clients` as it found.
use mathlib.Core.Option
use django_redis.Prelude.{
  ℕ, zero, suc, refl, Bool, true, Option, none, some, List, [], ◌∷◌, ◌++◌, Text, Dict, arith,
  length-set, ℤ, get_elem?, times_1000,
}
use django_redis.Exec.{index_error, connection_interrupted, out_of_fuel, ◌>>=◌, throw}
use django_redis.Value.{Value, Encoded, Timeout}
use django_redis.Keys.{Key}
use django_redis.Redis.{Driver, Setting}
use django_redis.Pool
use django_redis.Client.{
  Config, get_next_client_index, connect, keep_client, client_at, get_client, get_client_with_index,
  client_or, if_none,
}
use django_redis.Client.Basic.{
  has_key, delete, get, set_once, set_loop, attempt_client, may_retry, set, or_default,
}
use django_redis.Client.Keeps.{
  Keeps, keeps_rules, pure-Keeps, bind-Keeps, throw-Keeps, lift-Keeps, if-Keeps, except_redis-Keeps,
}

module _ {W C P : Type 0} (d : Driver W C P) (k : Config) where
  from_url-Keeps : (params : Dict Setting) → Keeps (Pool.from_url d params)
  unfolding Pool.from_url
  from_url-Keeps params = record { kept = λ s. ground arith }

  give_password-Keeps :
      (params : Dict Setting) (pool : P) → Keeps (Pool.give_password d params pool)
  unfolding Pool.give_password
  give_password-Keeps params pool = record { kept = λ s. ground arith }

  get_connection_pool-Keeps :
      (params : Dict Setting) → Keeps (Pool.get_connection_pool d k.import_string k.options params)
  unfolding Pool.get_connection_pool
  get_connection_pool-Keeps params = search (keeps_rules, from_url-Keeps, give_password-Keeps)

  store_pool-Keeps :
      (key : Text) (pool : P) → Keeps (Pool.store_pool d k.import_string k.options key pool)
  unfolding Pool.store_pool
  store_pool-Keeps key pool = record { kept = λ s. refl }

  create_pool-Keeps :
      (params : Dict Setting) → Keeps (Pool.create_pool d k.import_string k.options params)
  unfolding Pool.create_pool
  create_pool-Keeps params = search (keeps_rules, get_connection_pool-Keeps, store_pool-Keeps)

  get_or_create-Keeps :
      (params : Dict Setting)
      → Keeps (Pool.get_or_create_connection_pool d k.import_string k.options params)
  unfolding Pool.get_or_create_connection_pool
  get_or_create-Keeps params = record {
    kept = λ s. ground (arith, (create_pool-Keeps params).kept s);
  }

  get_connection-Keeps :
      (params : Dict Setting) → Keeps (Pool.get_connection d k.import_string k.options params)
  unfolding Pool.get_connection
  get_connection-Keeps params = search (keeps_rules, get_or_create-Keeps)

  pool_connect-Keeps : (url : Text) → Keeps (Pool.connect d k.import_string k.options url)
  unfolding Pool.connect
  pool_connect-Keeps url = search (keeps_rules, get_connection-Keeps)

  connect-Keeps : (index : ℕ) → Keeps (connect d k index)
  unfolding connect
  connect-Keeps index =
      elim (get_elem? k.servers index)
        as (λ o. Keeps (if_none o (throw index_error) (Pool.connect d k.import_string k.options))) [
          | none ↦ throw-Keeps index_error
          | some url ↦ pool_connect-Keeps url
        ]

  keep_client-Keeps : (index : ℕ) (c : C) → Keeps (keep_client d k index c)
  unfolding keep_client
  keep_client-Keeps index c = record { kept = λ s. length-set s.clients index (some c) }

  make_client-Keeps : (index : ℕ) → Keeps (do c ← connect d k index; keep_client d k index c)
  make_client-Keeps index = search (keeps_rules, connect-Keeps, keep_client-Keeps)

  client_at-Keeps : (index : ℕ) → Keeps (client_at d k index)
  unfolding client_at
  client_at-Keeps index = record { kept = λ s. ground (arith, (make_client-Keeps index).kept s) }

  get_next_client_index-Keeps :
      (write : Bool) (tried : List ℕ) → Keeps (get_next_client_index d k write tried)
  unfolding get_next_client_index
  get_next_client_index-Keeps write tried = search keeps_rules

  pub get_client-Keeps : (write : Bool) (tried : List ℕ) → Keeps (get_client d k write tried)
  unfolding get_client
  get_client-Keeps write tried = search (keeps_rules, get_next_client_index-Keeps, client_at-Keeps)

  pub get_client_with_index-Keeps :
      (write : Bool) (tried : List ℕ) → Keeps (get_client_with_index d k write tried)
  unfolding get_client_with_index
  get_client_with_index-Keeps write tried =
      search (keeps_rules, get_next_client_index-Keeps, client_at-Keeps)

  pub client_or-Keeps : (client : Option C) (write : Bool) → Keeps (client_or d k client write)
  unfolding client_or
  client_or-Keeps none write = get_client-Keeps write []
  client_or-Keeps (some c) write = pure-Keeps c

  pub or_default-Keeps : (default : Value) (o : Option Text) → Keeps (or_default d k default o)
  or_default-Keeps default none = pure-Keeps default
  or_default-Keeps default (some t) = lift-Keeps _

  pub has_key-Keeps :
      (key : Key) (version : Option ℤ) (client : Option C) → Keeps (has_key d k key version client)
  unfolding has_key
  has_key-Keeps key version client = search (keeps_rules, client_or-Keeps)

  pub delete-Keeps :
      (key : Key) (version : Option ℤ) (prefix : Option Text) (client : Option C)
      → Keeps (delete d k key version prefix client)
  unfolding delete
  delete-Keeps key version prefix client = search (keeps_rules, client_or-Keeps)

  pub get-Keeps :
      (key : Key) (default : Value) (version : Option ℤ) (client : Option C)
      → Keeps (get d k key default version client)
  unfolding get
  get-Keeps key default version client = search (keeps_rules, client_or-Keeps, or_default-Keeps)

  set_once-Keeps :
      (key : Key) (nvalue : Encoded) (timeout version : Option ℤ) (c : C) (nx xx : Bool)
      → Keeps (set_once d k key nvalue timeout version c nx xx)
  unfolding set_once
  set_once-Keeps key nvalue timeout version c nx xx =
      search (keeps_rules, has_key-Keeps, delete-Keeps)

  attempt_client-Keeps :
      (client : Option C) (tried : List ℕ) → Keeps (attempt_client d k client tried)
  attempt_client-Keeps none tried = get_client_with_index-Keeps true tried
  attempt_client-Keeps (some c) tried = pure-Keeps (c, 0)

  set_loop-Keeps :
      (f : ℕ) (key : Key) (nvalue : Encoded) (timeout version : Option ℤ) (client : Option C)
      (given nx xx : Bool) (tried : List ℕ)
      → Keeps (set_loop d k f key nvalue timeout version client given nx xx tried)
  unfolding set_loop
  set_loop-Keeps zero key nvalue timeout version client given nx xx tried = throw-Keeps out_of_fuel
  set_loop-Keeps (suc f) key nvalue timeout version client given nx xx tried =
      bind-Keeps _ _ (attempt_client-Keeps client tried) (λ attempt.
        except_redis-Keeps _ _
          (set_once-Keeps key nvalue (Option.map times_1000 timeout) version attempt.0 nx xx)
          (λ e.
            if-Keeps (may_retry d k given tried) _ _
              (set_loop-Keeps f key nvalue (Option.map times_1000 timeout) version none given nx xx
                (tried ++ attempt.1 ∷ []))
              (throw-Keeps (connection_interrupted e))))

  pub set-Keeps :
      (key : Key) (value : Value) (timeout : Timeout) (version : Option ℤ) (client : Option C)
      (nx xx : Bool)
      → Keeps (set d k key value timeout version client nx xx)
  unfolding set
  set-Keeps key value timeout version client nx xx = search (keeps_rules, set_loop-Keeps)
