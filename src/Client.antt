-- ===== src/Client.antt =====
-- django_redis/client/default.py: how DefaultClient chooses and keeps its connections.
pub mod Basic
pub mod Expiry
pub mod Many
pub mod Counters
pub mod Hashes
pub mod Locations
pub mod Locks
pub mod Lists
pub mod Sets
pub mod SortedSets
pub mod Raises
pub mod Wrapped
pub mod Contained
pub mod Choice
pub mod Retry
pub mod Reaches
pub mod Missing
pub mod Stored
pub mod Runs
pub mod Coded
pub mod Keeps
use django_redis.Prelude.{
  ℕ, zero, suc, ◌-◌, Bool, true, false, not, ◌&&◌, ◌||◌, Option, none, some, List, [], ◌∷◌, Text,
  ◌==◌, ltb, if◌then◌else◌, length, get_elem?, set, replicate, ℤ,
}
use django_redis.Python.Sorting.{elem, range}
use django_redis.Exec.{
  Result, ok, raise, index_error, M, ◌>>=◌, ◌>>◌, pure, throw, lift, gets, for_each,
}
use django_redis.Keys.{Backend}
use django_redis.Value.{Value}
use django_redis.Codec.{Serializer, Compressor}
use django_redis.Redis.{Driver, State, Setting, world}
use django_redis.Pool
use django_redis.Pool.{Options}

-- What `__init__` reads of the settings. `import_string` is Django's.
pub record Config : Type 0 where
  pub backend : Backend
  pub servers : List Text
  pub replica_read_only : Bool
  pub serializer : Serializer
  pub compressor : Compressor
  -- The COMPRESSOR option, or its default.
  pub compressor_path : Text
  pub reverse_key : Text → Option Text
  pub close_connection : Bool
  pub options : Options
  pub import_string : Setting → Setting
  -- `value + delta` of a stored object that is neither an integer nor None; `none` is a TypeError.
  pub object_plus : ℕ → ℤ → Option Value
  -- `object < now`, and `now - object + r >= window`; `none` is a TypeError.
  pub object_before : ℕ → ℕ → Option Bool
  pub object_age : ℕ → ℕ → ℕ → ℕ → Option Bool

abbrev pub if_none {ℓ} : {A B : Type ℓ} → Option A → B → (A → B) → B
if_none none b f = b
if_none (some a) b f = f a

-- [i for i in xs if i not in tried]
unfoldable pub untried : List ℕ → List ℕ → List ℕ
untried tried [] = []
untried tried (i ∷ xs) = let rest = untried tried xs in if elem i tried then rest else i ∷ rest

-- bool(tried)
abbrev pub nonempty {ℓ} : {A : Type ℓ} → List A → Bool
nonempty [] = false
nonempty (x ∷ xs) = true

module _ {W C P : Type 0} (d : Driver W C P) (k : Config) where
  abbrev pub servers_count : ℕ
  servers_count = length k.servers

  unfoldable pub get_next_client_index : Bool → List ℕ → M (State W C P) ℕ
  unfolding untried range
  get_next_client_index write tried =
      if nonempty tried && ltb (length tried) servers_count
      then world (d.choice (untried tried (range servers_count)))
      else if write || servers_count == 1
      then pure 0
      else world (d.randint 1 (servers_count - 1))

  unfoldable pub connect : ℕ → M (State W C P) C
  connect index =
      if_none (get_elem? k.servers index) (throw index_error)
        (Pool.connect d k.import_string k.options)

  -- self._clients[index] = client
  unfoldable pub keep_client : ℕ → C → M (State W C P) C
  keep_client index c s = (ok c, record s { clients = set s.clients index (some c) })

  -- The client of an index, connected if it is not yet.
  unfoldable pub client_at : ℕ → M (State W C P) C
  unfolding connect keep_client
  client_at index s = elim (get_elem? s.clients index) [
    | none ↦ (raise index_error, s)
    | some (some c) ↦ (ok c, s)
    | some none ↦ (do c ← connect index; keep_client index c) s
  ]

  unfoldable pub get_client : Bool → List ℕ → M (State W C P) C
  unfolding get_next_client_index client_at
  get_client write tried = do index ← get_next_client_index write tried; client_at index

  unfoldable pub get_client_with_index : Bool → List ℕ → M (State W C P) (C × ℕ)
  unfolding get_next_client_index client_at
  get_client_with_index write tried = do
    index ← get_next_client_index write tried
    c ← client_at index
    pure (c, index)

  -- `if client is None: client = self.get_client(write=…)`
  unfoldable pub client_or : Option C → Bool → M (State W C P) C
  unfolding get_client
  client_or client write = if_none client (get_client write []) pure

  -- The connection that `disconnect` closes, if there is one.
  unfoldable pub close_client : Option C → M (State W C P) Unit
  close_client none = pure tt
  close_client (some c) = Pool.disconnect d c

  unfoldable pub disconnect : ℕ → Option C → M (State W C P) Unit
  unfolding close_client
  disconnect index (some c) s = close_client (some c) s
  disconnect index none s = elim (get_elem? s.clients index) [
    | none ↦ (raise index_error, s)
    | some c ↦ close_client c s
  ]

  unfoldable pub forget_clients : ℕ → M (State W C P) Unit
  forget_clients n s = (ok tt, record s { clients = replicate n none })

  unfoldable pub do_close_clients : M (State W C P) Unit
  unfolding disconnect forget_clients range for_each
  do_close_clients = do
    n ← gets (λ s. length s.clients)
    for_each (λ i. disconnect i none) (range n)
    forget_clients n

  unfoldable pub close : M (State W C P) Unit
  unfolding do_close_clients
  close = if k.close_connection then do_close_clients else pure tt
