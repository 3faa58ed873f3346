-- ===== src/Client/Raises.antt =====
-- client/default.py: which exceptions reach the caller of a command.
use django_redis.Prelude.{
  ℕ, ◌≡◌, refl, Bool, Option, none, some, List, [], Text, Dict, arith, get_elem?,
}
use django_redis.Exec.{Exn, index_error, Result, ok, raise, ◌>>=◌, throw}
use django_redis.Exec.Raises.{
  OnlyRaises, IsBenign, pure-OnlyRaises, throw-OnlyRaises, lift-OnlyRaises, bind-OnlyRaises,
  raises_rules,
}
use django_redis.Redis.{Driver, State, Setting, world}
use django_redis.Pool
use django_redis.Client.{
  Config, get_next_client_index, connect, keep_client, client_at, get_client, get_client_with_index,
  client_or, if_none,
}

module _ {W C P : Type 0} (d : Driver W C P) (k : Config) where
  world-IsBenign : {A : Type 0} (f : W → A × W) → OnlyRaises {S = State W C P} IsBenign (world f)
  world-IsBenign f = record { at = λ s e h. cc }

  from_url-IsBenign : (params : Dict Setting) → OnlyRaises IsBenign (Pool.from_url d params)
  unfolding Pool.from_url
  from_url-IsBenign params = record { at = λ s e h. ground arith }

  give_password-IsBenign :
      (params : Dict Setting) (pool : P) → OnlyRaises IsBenign (Pool.give_password d params pool)
  unfolding Pool.give_password
  give_password-IsBenign params pool = record { at = λ s e h. ground arith }

  get_connection_pool-IsBenign :
      (params : Dict Setting)
      → OnlyRaises IsBenign (Pool.get_connection_pool d k.import_string k.options params)
  unfolding Pool.get_connection_pool
  get_connection_pool-IsBenign params =
      search (raises_rules, from_url-IsBenign, give_password-IsBenign)

  store_pool-IsBenign :
      (key : Text) (pool : P)
      → OnlyRaises IsBenign (Pool.store_pool d k.import_string k.options key pool)
  unfolding Pool.store_pool
  store_pool-IsBenign key pool = record { at = λ s e h. cc }

  create_pool-IsBenign :
      (params : Dict Setting)
      → OnlyRaises IsBenign (Pool.create_pool d k.import_string k.options params)
  unfolding Pool.create_pool
  create_pool-IsBenign params =
      search (raises_rules, get_connection_pool-IsBenign, store_pool-IsBenign)

  get_or_create-IsBenign :
      (params : Dict Setting)
      → OnlyRaises IsBenign (Pool.get_or_create_connection_pool d k.import_string k.options params)
  unfolding Pool.get_or_create_connection_pool
  get_or_create-IsBenign params = record {
    at = λ s e h. ground (arith, (create_pool-IsBenign params).at s e);
  }

  add_timeout_raises :
      (key : Text) (value : Setting) (kwargs : Dict Setting) (e : Exn)
      → Pool.add_timeout key value kwargs ≡ raise e
      → IsBenign e
  unfolding Pool.add_timeout
  add_timeout_raises key value kwargs e h = ground arith

  then_raises :
      (r : Result (Dict Setting)) (f : Dict Setting → Result (Dict Setting)) (e : Exn)
      → ((e : Exn) → r ≡ raise e → IsBenign e)
      → ((x : Dict Setting) (e : Exn) → f x ≡ raise e → IsBenign e)
      → elim r [ raise x ↦ raise x | ok x ↦ f x ] ≡ raise e
      → IsBenign e
  then_raises (ok x) f e h g q = g x e q
  then_raises (raise x) f e h g q = h e q

  params_raises :
      (url : Text) (e : Exn)
      → Pool.make_connection_params k.import_string k.options url ≡ raise e
      → IsBenign e
  unfolding Pool.make_connection_params
  params_raises url e h =
      let o = k.options in
      let first =
        Pool.add_timeout Pool.socket_timeout_key o.socket_timeout
          (Pool.basic_params k.import_string o url) in
      let second = Pool.add_timeout Pool.socket_connect_timeout_key o.socket_connect_timeout in
      then_raises first second e
        (add_timeout_raises Pool.socket_timeout_key o.socket_timeout
          (Pool.basic_params k.import_string o url))
        (add_timeout_raises Pool.socket_connect_timeout_key o.socket_connect_timeout) h

  get_connection-IsBenign :
      (params : Dict Setting)
      → OnlyRaises IsBenign (Pool.get_connection d k.import_string k.options params)
  unfolding Pool.get_connection
  get_connection-IsBenign params = search (raises_rules, get_or_create-IsBenign, world-IsBenign)

  connect-IsBenign :
      (url : Text) → OnlyRaises IsBenign (Pool.connect d k.import_string k.options url)
  unfolding Pool.connect
  connect-IsBenign url =
      bind-OnlyRaises _ _ (lift-OnlyRaises _ (params_raises url))
        (λ params. get_connection-IsBenign params)

  get_next_client_index-IsBenign :
      (write : Bool) (tried : List ℕ) → OnlyRaises IsBenign (get_next_client_index d k write tried)
  unfolding get_next_client_index
  get_next_client_index-IsBenign write tried = search (raises_rules, world-IsBenign)

  connect_index-IsBenign : (index : ℕ) → OnlyRaises IsBenign (connect d k index)
  unfolding connect
  connect_index-IsBenign index =
      elim (get_elem? k.servers index)
        as (λ o.
          OnlyRaises IsBenign
            (if_none o (throw index_error) (Pool.connect d k.import_string k.options))) [
              | none ↦ throw-OnlyRaises index_error refl
              | some url ↦ connect-IsBenign url
            ]

  keep_client-IsBenign : (index : ℕ) (c : C) → OnlyRaises IsBenign (keep_client d k index c)
  unfolding keep_client
  keep_client-IsBenign index c = record { at = λ s e h. cc }

  make_client-IsBenign :
      (index : ℕ) → OnlyRaises IsBenign (do c ← connect d k index; keep_client d k index c)
  make_client-IsBenign index = search (raises_rules, connect_index-IsBenign, keep_client-IsBenign)

  client_at-IsBenign : (index : ℕ) → OnlyRaises IsBenign (client_at d k index)
  unfolding client_at
  client_at-IsBenign index = record {
    at = λ s e h. ground (arith, (make_client-IsBenign index).at s e);
  }

  ruleset choosing = (raises_rules, get_next_client_index-IsBenign, client_at-IsBenign)

  pub get_client-IsBenign :
      (write : Bool) (tried : List ℕ) → OnlyRaises IsBenign (get_client d k write tried)
  unfolding get_client
  get_client-IsBenign write tried = search choosing

  pub get_client_with_index-IsBenign :
      (write : Bool) (tried : List ℕ) → OnlyRaises IsBenign (get_client_with_index d k write tried)
  unfolding get_client_with_index
  get_client_with_index-IsBenign write tried = search choosing

  pub client_or-IsBenign :
      (client : Option C) (write : Bool) → OnlyRaises IsBenign (client_or d k client write)
  unfolding client_or
  client_or-IsBenign none write = get_client-IsBenign write []
  client_or-IsBenign (some c) write = pure-OnlyRaises c
