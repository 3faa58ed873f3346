-- ===== src/Client/Wrapped.antt =====
-- client/default.py: the commands that convert the exceptions of `_main_exceptions`,
-- and the loop of `set`.
use mathlib.Core.Option
use django_redis.Prelude.{
  ℕ, zero, suc, ◌+◌, ◌≤◌, ◌≡◌, Bool, true, Option, none, some, List, [], ◌∷◌, ◌++◌, Text, ℤ, arith,
  length, length-append, times_1000,
}
use django_redis.Exec.{Exn, connection_interrupted, out_of_fuel, raise}
use django_redis.Exec.Raises.{
  OnlyRaises, NotRaw, NotCut, IsBenign, benign-NotRaw, benign-NotCut, pure-OnlyRaises,
  throw-OnlyRaises, if-OnlyRaises, guarded-OnlyRaises, except-NotRaw, except-NotCut,
  lift-OnlyRaises, bind-OnlyRaises, interrupted-NotCut, raises_rules,
}
use django_redis.Value.{Value, Encoded, Timeout}
use django_redis.Keys.{Key}
use django_redis.Codec.Raises.{encode_raises, decode_raises}
use django_redis.Redis.{Driver, State, Reply, reply, fails, refuses, command, to_result}
use django_redis.Client.{Config, client_or, servers_count}
use django_redis.Client.Raises.{client_or-IsBenign, get_client_with_index-IsBenign}
use django_redis.Client.Basic.{
  resolve, encoded, decoded, or_default, has_key, delete, get, set_once, attempt_client, may_retry,
  set_loop, set, is_given,
}

reply_cut : {A : Type 0} (r : Reply A) (e : Exn) → to_result r ≡ raise e → NotCut e
reply_cut (reply a) e h = cc
reply_cut (fails x) out_of_fuel h = cc
reply_cut refuses out_of_fuel h = cc
reply_cut r e h = tt

module _ {W C P : Type 0} (d : Driver W C P) (k : Config) where
  pub encoded-IsBenign : (value : Value) → OnlyRaises IsBenign (encoded d k value)
  encoded-IsBenign value = lift-OnlyRaises _ (encode_raises k.serializer k.compressor value)

  pub decoded-IsBenign : (value : Text) → OnlyRaises IsBenign (decoded d k value)
  decoded-IsBenign value = lift-OnlyRaises _ (decode_raises k.serializer k.compressor value)

  pub client_or-NotRaw :
      (client : Option C) (write : Bool) → OnlyRaises NotRaw (client_or d k client write)
  client_or-NotRaw client write = benign-NotRaw _ (client_or-IsBenign d k client write)

  pub client_or-NotCut :
      (client : Option C) (write : Bool) → OnlyRaises NotCut (client_or d k client write)
  client_or-NotCut client write = benign-NotCut _ (client_or-IsBenign d k client write)

  pub command-NotCut :
      {A : Type 0} (f : W → Reply A × W) → OnlyRaises {S = State W C P} NotCut (command f)
  command-NotCut f = record { at = λ s e h. reply_cut (f s.world).0 e h }

  pub or_default-NotRaw :
      (default : Value) (o : Option Text) → OnlyRaises NotRaw (or_default d k default o)
  or_default-NotRaw default none = pure-OnlyRaises default
  or_default-NotRaw default (some t) = benign-NotRaw _ (decoded-IsBenign t)

  pub has_key-NotRaw :
      (key : Key) (version : Option ℤ) (client : Option C)
      → OnlyRaises NotRaw (has_key d k key version client)
  unfolding has_key
  has_key-NotRaw key version client = search (raises_rules, client_or-NotRaw)

  pub delete-NotRaw :
      (key : Key) (version : Option ℤ) (prefix : Option Text) (client : Option C)
      → OnlyRaises NotRaw (delete d k key version prefix client)
  unfolding delete
  delete-NotRaw key version prefix client = search (raises_rules, client_or-NotRaw)

  pub get-NotRaw :
      (key : Key) (default : Value) (version : Option ℤ) (client : Option C)
      → OnlyRaises NotRaw (get d k key default version client)
  unfolding get
  get-NotRaw key default version client = search (raises_rules, client_or-NotRaw, or_default-NotRaw)

  pub attempt_client-IsBenign :
      (client : Option C) (tried : List ℕ) → OnlyRaises IsBenign (attempt_client d k client tried)
  attempt_client-IsBenign none tried = get_client_with_index-IsBenign d k true tried
  attempt_client-IsBenign (some c) tried = pure-OnlyRaises (c, 0)

  set_loop-NotRaw :
      (f : ℕ) (key : Key) (nvalue : Encoded) (timeout version : Option ℤ) (client : Option C)
      (given nx xx : Bool) (tried : List ℕ)
      → OnlyRaises NotRaw (set_loop d k f key nvalue timeout version client given nx xx tried)
  unfolding set_loop
  set_loop-NotRaw zero key nvalue timeout version client given nx xx tried =
      throw-OnlyRaises out_of_fuel tt
  set_loop-NotRaw (suc f) key nvalue timeout version client given nx xx tried =
      bind-OnlyRaises _ _ (benign-NotRaw _ (attempt_client-IsBenign client tried)) (λ attempt.
        except-NotRaw _
          (set_once d k key nvalue (Option.map times_1000 timeout) version attempt.0 nx xx)
          (λ e.
            if-OnlyRaises (may_retry d k given tried) _ _
              (set_loop-NotRaw f key nvalue (Option.map times_1000 timeout) version none given nx xx
                (tried ++ attempt.1 ∷ []))
              (throw-OnlyRaises (connection_interrupted e) tt)))

  pub set-NotRaw :
      (key : Key) (value : Value) (timeout : Timeout) (version : Option ℤ) (client : Option C)
      (nx xx : Bool)
      → OnlyRaises NotRaw (set d k key value timeout version client nx xx)
  unfolding set
  set-NotRaw key value timeout version client nx xx =
      bind-OnlyRaises _ _ (benign-NotRaw _ (encoded-IsBenign value)) (λ nvalue.
        set_loop-NotRaw (suc (servers_count d k)) key nvalue (resolve k timeout) version client
          (is_given d k client) nx xx [])

  has_key-NotCut :
      (key : Key) (version : Option ℤ) (client : Option C)
      → OnlyRaises NotCut (has_key d k key version client)
  unfolding has_key
  has_key-NotCut key version client =
      search (raises_rules, interrupted-NotCut, client_or-NotCut, command-NotCut)

  delete-NotCut :
      (key : Key) (version : Option ℤ) (prefix : Option Text) (client : Option C)
      → OnlyRaises NotCut (delete d k key version prefix client)
  unfolding delete
  delete-NotCut key version prefix client =
      search (raises_rules, interrupted-NotCut, client_or-NotCut, command-NotCut)

  set_once-NotCut :
      (key : Key) (nvalue : Encoded) (timeout version : Option ℤ) (c : C) (nx xx : Bool)
      → OnlyRaises NotCut (set_once d k key nvalue timeout version c nx xx)
  unfolding set_once
  set_once-NotCut key nvalue timeout version c nx xx =
      search (raises_rules, has_key-NotCut, delete-NotCut, command-NotCut)

  -- Each further turn needs a server that was not tried, so `f` further turns are enough.
  set_loop-NotCut :
      (f : ℕ) (key : Key) (nvalue : Encoded) (timeout version : Option ℤ) (client : Option C)
      (given nx xx : Bool) (tried : List ℕ)
      → servers_count d k ≤ f + length tried
      → OnlyRaises NotCut (set_loop d k (suc f) key nvalue timeout version client given nx xx tried)
  unfolding set_loop
  set_loop-NotCut zero key nvalue timeout version client given nx xx tried h =
      bind-OnlyRaises _ _ (benign-NotCut _ (attempt_client-IsBenign client tried)) (λ attempt.
        except-NotCut _ _
          (set_once-NotCut key nvalue (Option.map times_1000 timeout) version attempt.0 nx xx)
          (λ e.
            guarded-OnlyRaises (may_retry d k given tried) _ _ (λ q. absurd (ground arith))
              (λ q. throw-OnlyRaises (connection_interrupted e) tt)))
  set_loop-NotCut (suc f) key nvalue timeout version client given nx xx tried h =
      bind-OnlyRaises _ _ (benign-NotCut _ (attempt_client-IsBenign client tried)) (λ attempt.
        except-NotCut _ _
          (set_once-NotCut key nvalue (Option.map times_1000 timeout) version attempt.0 nx xx)
          (λ e.
            if-OnlyRaises (may_retry d k given tried) _ _
              (set_loop-NotCut f key nvalue (Option.map times_1000 timeout) version none given nx xx
                (tried ++ attempt.1 ∷ []) (omega (arith, length-append tried (attempt.1 ∷ []))))
              (throw-OnlyRaises (connection_interrupted e) tt)))

  -- `set` ends: whatever the servers do, its loop takes at most one turn more than there are
  -- servers.
  pub set-NotCut :
      (key : Key) (value : Value) (timeout : Timeout) (version : Option ℤ) (client : Option C)
      (nx xx : Bool)
      → OnlyRaises NotCut (set d k key value timeout version client nx xx)
  unfolding set
  set-NotCut key value timeout version client nx xx =
      bind-OnlyRaises _ _ (benign-NotCut _ (encoded-IsBenign value)) (λ nvalue.
        set_loop-NotCut (servers_count d k) key nvalue (resolve k timeout) version client
          (is_given d k client) nx xx [] (omega arith))
