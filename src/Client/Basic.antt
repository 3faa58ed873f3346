-- ===== src/Client/Basic.antt =====
-- client/default.py: the commands on one key.
use django_redis.Prelude.{
  ℕ, zero, suc, Bool, true, false, not, ◌&&◌, Option, none, some, List, [], ◌∷◌, ◌++◌, Text, ◌==◌,
  ltb, if◌then◌else◌, length, ℤ, times_1000, is_nonpos,
}
use mathlib.Core.Option
use django_redis.Exec.{
  connection_interrupted, out_of_fuel, M, ◌>>=◌, pure, throw, lift, except_redis, traverse,
  interrupted,
}
use django_redis.Value.{Value, Encoded, Timeout, default_timeout, seconds}
use django_redis.Keys.{Key, key_text, make_key}
use django_redis.Codec.{encode, decode}
use django_redis.Redis.{Driver, State, command}
use django_redis.Client.{Config, client_or, get_client_with_index, servers_count}

-- The default of the backend in place of DEFAULT_TIMEOUT.
abbrev pub resolve : Config → Timeout → Option ℤ
resolve k default_timeout = k.backend.default_timeout
resolve k (seconds t) = t

module _ {W C P : Type 0} (d : Driver W C P) (k : Config) where
  abbrev pub key_of : Key → Option ℤ → Text
  key_of key version = key_text (make_key k.backend key version none)

  abbrev pub encoded : Value → M (State W C P) Encoded
  encoded value = lift (encode k.serializer k.compressor value)

  abbrev pub decoded : Text → M (State W C P) Value
  decoded value = lift (decode k.serializer k.compressor value)

  -- [self.encode(value) for value in values]
  unfoldable pub encoded_values : List Value → M (State W C P) (List Encoded)
  unfolding traverse encode
  encoded_values values = traverse encoded values

  -- [self.decode(value) for value in result]
  unfoldable pub decoded_values : List Text → M (State W C P) (List Value)
  unfolding traverse decode
  decoded_values result = traverse decoded result

  unfoldable pub has_key : Key → Option ℤ → Option C → M (State W C P) Bool
  unfolding client_or make_key
  has_key key version client = do
    c ← client_or d k client false
    interrupted (do n ← command (d.exists c (key_of key version)); pure (n == 1))

  -- key in cache
  unfoldable pub __contains__ : Key → M (State W C P) Bool
  unfolding has_key
  __contains__ key = has_key key none none

  unfoldable pub delete : Key → Option ℤ → Option Text → Option C → M (State W C P) ℕ
  unfolding client_or make_key
  delete key version prefix client = do
    c ← client_or d k client true
    interrupted (command (d.delete c (key_text (make_key k.backend key version prefix) ∷ [])))

  -- `get` after the client and the key are known.
  abbrev pub or_default : Value → Option Text → M (State W C P) Value
  or_default default none = pure default
  or_default default (some value) = decoded value

  unfoldable pub get : Key → Value → Option ℤ → Option C → M (State W C P) Value
  unfolding client_or make_key encode decode
  get key default version client = do
    c ← client_or d k client false
    value ← interrupted (command (d.get c (key_of key version)))
    or_default default value

  -- The `try` block of `set` once it has a client: the timeout is in milliseconds.
  unfoldable pub set_once :
      Key → Encoded → Option ℤ → Option ℤ → C → Bool → Bool → M (State W C P) Bool
  unfolding has_key delete
  set_once key nvalue timeout version c nx xx =
      if elim timeout [ none ↦ false | some t ↦ is_nonpos t ]
      then (if nx
          then (do found ← has_key key version (some c); pure (not found))
          else (do n ← delete key version none (some c); pure (ltb 0 n)))
      else command (d.set c (key_of key version) nvalue nx timeout xx)

  -- The client of an attempt; the index counts only where no client was given.
  abbrev pub attempt_client : Option C → List ℕ → M (State W C P) (C × ℕ)
  attempt_client (some c) tried = pure (c, 0)
  attempt_client none tried = get_client_with_index d k true tried

  -- The condition of the handler: no client was given, replicas take writes, a server is untried.
  abbrev pub may_retry : Bool → List ℕ → Bool
  may_retry given tried =
      not given && (not k.replica_read_only && ltb (length tried) (servers_count d k))

  -- The loop of `set`, by fuel. `timeout` is converted on every turn, as the code does.
  unfoldable pub set_loop :
      ℕ
      → Key
      → Encoded
      → Option ℤ
      → Option ℤ
      → Option C
      → Bool
      → Bool
      → Bool
      → List ℕ
      → M (State W C P) Bool
  unfolding set_once get_client_with_index
  set_loop zero key nvalue timeout version client given nx xx tried = throw out_of_fuel
  set_loop (suc f) key nvalue timeout version client given nx xx tried = do
    attempt ← attempt_client client tried
    except_redis (set_once key nvalue (Option.map times_1000 timeout) version attempt.0 nx xx) (λ e.
        let again =
          set_loop f key nvalue (Option.map times_1000 timeout) version none given nx xx
            (tried ++ attempt.1 ∷ []) in
        if may_retry given tried then again else throw (connection_interrupted e))

  abbrev pub is_given : Option C → Bool
  is_given none = false
  is_given (some c) = true

  unfoldable pub set :
      Key → Value → Timeout → Option ℤ → Option C → Bool → Bool → M (State W C P) Bool
  unfolding set_loop encode make_key
  set key value timeout version client nx xx = do
    nvalue ← encoded value
    set_loop (suc (servers_count d k)) key nvalue (resolve k timeout) version client
        (is_given client) nx xx []

  unfoldable pub add : Key → Value → Timeout → Option ℤ → Option C → M (State W C P) Bool
  unfolding set
  add key value timeout version client = set key value timeout version client true false
