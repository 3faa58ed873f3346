-- ===== src/Client/Many.antt =====
-- client/default.py: the commands on several keys.
pub mod Read
use django_redis.Prelude.{
  ℕ, true, false, Option, none, some, List, [], ◌∷◌, map, Text, Dict, insert, length, if◌then◌else◌,
  ℤ,
}
use django_redis.Exec.{index_error, M, ◌>>=◌, ◌>>◌, pure, throw, interrupted, traverse, for_each}
use django_redis.Value.{Value, Timeout}
use django_redis.Keys.{Key, key_text, make_key, make_pattern}
use django_redis.Codec.{decode}
use django_redis.Redis.{Driver, State, command, world}
use django_redis.Client.{Config, client_or, nonempty}
use django_redis.Client.Basic.{key_of, decoded, set}

module _ {W C P : Type 0} (d : Driver W C P) (k : Config) where
  -- The texts that the keys are stored under.
  unfoldable pub keys_of : List Key → Option ℤ → List Text
  unfolding make_key
  keys_of [] version = []
  keys_of (key ∷ keys) version = key_of d k key version ∷ keys_of keys version

  unfoldable pub delete_many : List Key → Option ℤ → Option C → M (State W C P) ℕ
  unfolding client_or keys_of
  delete_many keys version client = do
    c ← client_or d k client true
    elim (keys_of keys version) [
      | [] ↦ pure 0
      | key ∷ rest ↦ interrupted (command (d.delete c (key ∷ rest)))
    ]

  unfoldable pub clear : Option C → M (State W C P) Unit
  unfolding client_or
  clear client = do c ← client_or d k client true; interrupted (command (d.flushdb c))

  -- OrderedDict((self.make_key(k, version=version), k) for k in keys)
  unfoldable pub map_keys : List Key → Option ℤ → Dict Key → Dict Key
  unfolding make_key insert
  map_keys [] version acc = acc
  map_keys (key ∷ keys) version acc =
      map_keys keys version (insert (key_of d k key version) key acc)

  -- The loop over the results; an entry of the answer goes by the text of the caller's key.
  unfoldable pub collect : Dict Key → List (Option Text) → Dict Value → M (State W C P) (Dict Value)
  unfolding decode insert
  collect ((_, key) ∷ entries) (some value ∷ results) acc = do
    v ← decoded d k value
    collect entries results (insert (key_text key) v acc)
  collect (_ ∷ entries) (none ∷ results) acc = collect entries results acc
  collect [] results acc = pure acc
  collect (e ∷ entries) [] acc = pure acc

  unfoldable pub get_many : List Key → Option ℤ → Option C → M (State W C P) (Dict Value)
  unfolding client_or map_keys collect
  get_many keys version client = do
    c ← client_or d k client false
    if nonempty keys
        then (do
          let entries = map_keys keys version []
          results ← interrupted (command (d.mget c (map (λ e. e.0) entries)))
          collect entries results [])
        else pure []

  unfoldable pub set_many :
      List (Key × Value) → Timeout → Option ℤ → Option C → M (State W C P) Unit
  unfolding client_or set for_each
  set_many entries timeout version client = do
    c ← client_or d k client true
    interrupted (do
      pipe ← world (d.pipeline c)
      for_each (λ e. do set d k e.0 e.1 timeout version (some pipe) false false; pure tt) entries
      command (d.execute pipe))

  unfoldable pub delete_pattern :
      Key → Option ℤ → Option Text → Option C → Option ℕ → M (State W C P) ℕ
  unfolding client_or make_pattern for_each
  delete_pattern pattern version prefix client itersize = do
    c ← client_or d k client true
    interrupted (do
      pipe ← world (d.pipeline c)
      found ←
          command
            (d.scan_iter c (key_text (make_pattern k.backend pattern version prefix)) itersize)
      for_each (λ key. do command (d.delete pipe (key ∷ [])); pure tt) found
      command (d.execute pipe)
      pure (length found))

  -- self.reverse_key(key)
  abbrev pub reversed : Text → M (State W C P) Text
  reversed key = elim (k.reverse_key key) [ none ↦ throw index_error | some t ↦ pure t ]

  -- The keys that the generator yields, in order.
  unfoldable pub iter_keys : Key → Option ℕ → Option C → Option ℤ → M (State W C P) (List Text)
  unfolding client_or make_pattern traverse
  iter_keys search itersize client version = do
    c ← client_or d k client false
    found ← command (d.scan_iter c (key_text (make_pattern k.backend search version none)) itersize)
    traverse reversed found

  unfoldable pub keys : Key → Option ℤ → Option C → M (State W C P) (List Text)
  unfolding client_or make_pattern traverse
  keys search version client = do
    c ← client_or d k client false
    interrupted (do
      found ← command (d.keys c (key_text (make_pattern k.backend search version none)))
      traverse reversed found)
