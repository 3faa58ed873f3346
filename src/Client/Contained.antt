-- ===== src/Client/Contained.antt =====
-- client/default.py: the commands on several keys and the counters convert the exceptions of
-- `_main_exceptions` too.
use django_redis.Prelude.{ℕ, Bool, Option, none, some, List, [], ◌∷◌, Text, Dict, ℤ, arith}
use django_redis.Exec.Raises.{
  OnlyRaises, NotRaw, benign-NotRaw, pure-OnlyRaises, bind-OnlyRaises, raises_rules,
}
use django_redis.Value.{Value, Timeout}
use django_redis.Keys.{Key, raw, cache_key}
use django_redis.Redis.{Driver}
use django_redis.Client.{Config}
use django_redis.Client.Wrapped.{
  client_or-NotRaw, decoded-IsBenign, get-NotRaw, set-NotRaw, delete-NotRaw,
}
use django_redis.Client.Many.{
  keys_of, delete_many, clear, collect, get_many, set_many, delete_pattern, keys,
}
use django_redis.Client.Counters.{_incr, moved_key, incr_version}

module _ {W C P : Type 0} (d : Driver W C P) (k : Config) where
  pub delete_many-NotRaw :
      (keys : List Key) (version : Option ℤ) (client : Option C)
      → OnlyRaises NotRaw (delete_many d k keys version client)
  unfolding delete_many keys_of
  delete_many-NotRaw [] version client = search (raises_rules, client_or-NotRaw)
  delete_many-NotRaw (key ∷ keys) version client = search (raises_rules, client_or-NotRaw)

  pub clear-NotRaw : (client : Option C) → OnlyRaises NotRaw (clear d k client)
  unfolding clear
  clear-NotRaw client = search (raises_rules, client_or-NotRaw)

  collect-NotRaw :
      (entries : Dict Key) (results : List (Option Text)) (acc : Dict Value)
      → OnlyRaises NotRaw (collect d k entries results acc)
  unfolding collect
  collect-NotRaw [] results acc = pure-OnlyRaises acc
  collect-NotRaw (e ∷ entries) [] acc = pure-OnlyRaises acc
  collect-NotRaw (e ∷ entries) (none ∷ results) acc = collect-NotRaw entries results acc
  collect-NotRaw ((t, key) ∷ entries) (some value ∷ results) acc =
      bind-OnlyRaises _ _ (benign-NotRaw _ (decoded-IsBenign d k value))
        (λ v. collect-NotRaw entries results _)

  pub get_many-NotRaw :
      (keys : List Key) (version : Option ℤ) (client : Option C)
      → OnlyRaises NotRaw (get_many d k keys version client)
  unfolding get_many
  get_many-NotRaw keys version client = search (raises_rules, client_or-NotRaw, collect-NotRaw)

  pub set_many-NotRaw :
      (entries : List (Key × Value)) (timeout : Timeout) (version : Option ℤ) (client : Option C)
      → OnlyRaises NotRaw (set_many d k entries timeout version client)
  unfolding set_many
  set_many-NotRaw entries timeout version client = search (raises_rules, client_or-NotRaw)

  pub delete_pattern-NotRaw :
      (pattern : Key) (version : Option ℤ) (prefix : Option Text) (client : Option C)
      (itersize : Option ℕ)
      → OnlyRaises NotRaw (delete_pattern d k pattern version prefix client itersize)
  unfolding delete_pattern
  delete_pattern-NotRaw pattern version prefix client itersize =
      search (raises_rules, client_or-NotRaw)

  pub keys-NotRaw :
      (search' : Key) (version : Option ℤ) (client : Option C)
      → OnlyRaises NotRaw (keys d k search' version client)
  unfolding keys
  keys-NotRaw search' version client = search (raises_rules, client_or-NotRaw)

  pub _incr-NotRaw :
      (key : Key) (delta : ℤ) (version : Option ℤ) (client : Option C) (ignore_key_check : Bool)
      → OnlyRaises NotRaw (_incr d k key delta version client ignore_key_check)
  unfolding _incr
  _incr-NotRaw key delta version client ignore_key_check = search (raises_rules, client_or-NotRaw)

  moved_key-NotRaw : (key : Key) (version : ℤ) → OnlyRaises NotRaw (moved_key d k key version)
  unfolding moved_key
  moved_key-NotRaw (raw t) version = pure-OnlyRaises _
  moved_key-NotRaw (cache_key t) version =
      benign-NotRaw (moved_key d k (cache_key t) version) (record { at = λ s e h. ground arith })

  pub incr_version-NotRaw :
      (key : Key) (delta : ℤ) (version : Option ℤ) (client : Option C)
      → OnlyRaises NotRaw (incr_version d k key delta version client)
  unfolding incr_version
  incr_version-NotRaw key delta version client =
      search
        (raises_rules, client_or-NotRaw, get-NotRaw, set-NotRaw, delete-NotRaw, moved_key-NotRaw)
        depth 12
