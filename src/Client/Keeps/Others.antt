-- ===== src/Client/Keeps/Others.antt =====
-- client/default.py: the other commands leave as many entries in `_clients` as they found.
use django_redis.Prelude.{
  ℕ, zero, suc, ◌≡◌, refl, ◌∙◌, Bool, true, false, Option, none, some, List, [], ◌∷◌, Text, Dict,
  arith, length, replicate, ℤ, if◌then◌else◌, get_elem?,
}
use django_redis.Python.Sorting.{range}
use django_redis.Exec.{
  index_error, redis_error, response_error, Result, ok, raise, M, next, pure, for_each, value_error,
}
use django_redis.Value.{Value, Timeout, integer}
use django_redis.Keys.{Key, raw, cache_key}
use django_redis.Redis.{Driver, State, incrby, incrby_if_exists}
use django_redis.Pool
use django_redis.Client.{Config, close_client, disconnect, forget_clients, do_close_clients, close}
use django_redis.Client.Basic.{key_of, add, set, get, delete, has_key}
use django_redis.Client.Expiry.{ttl, touch, touch_with}
use django_redis.Client.Many.{
  delete_many, clear, collect, get_many, set_many, delete_pattern, keys, reversed,
}
use django_redis.Client.Counters.{
  handle_response, plus, run_script, incr_by_hand, incr_inner, _incr, incr, decr, moved_key,
  incr_version,
}
use django_redis.Client.Keeps.{
  Keeps, keeps_rules, pure-Keeps, bind-Keeps, throw-Keeps, lift-Keeps, command-Keeps, option-Keeps,
  for_each-Keeps,
}
use django_redis.Client.Keeps.Commands.{
  client_or-Keeps, has_key-Keeps, delete-Keeps, get-Keeps, set-Keeps,
}

module _ {W C P : Type 0} (d : Driver W C P) (k : Config) where
  ttl-Keeps :
      (key : Key) (version : Option ℤ) (client : Option C) → Keeps (ttl d k key version client)
  unfolding ttl
  ttl-Keeps key version client = search (keeps_rules, client_or-Keeps)

  touch_with-Keeps :
      (c : C) (key : Key) (version timeout : Option ℤ)
      → Keeps (touch_with d k c key version timeout)
  touch_with-Keeps c key version none = search keeps_rules
  touch_with-Keeps c key version (some t) = search keeps_rules

  touch-Keeps :
      (key : Key) (timeout : Timeout) (version : Option ℤ) (client : Option C)
      → Keeps (touch d k key timeout version client)
  unfolding touch
  touch-Keeps key timeout version client = search (keeps_rules, client_or-Keeps, touch_with-Keeps)

  delete_many-Keeps :
      (keys' : List Key) (version : Option ℤ) (client : Option C)
      → Keeps (delete_many d k keys' version client)
  unfolding delete_many
  delete_many-Keeps [] version client = search (keeps_rules, client_or-Keeps)
  delete_many-Keeps (key ∷ rest) version client = search (keeps_rules, client_or-Keeps)

  collect-Keeps :
      (entries : Dict Key) (results : List (Option Text)) (acc : Dict Value)
      → Keeps (collect d k entries results acc)
  unfolding collect
  collect-Keeps [] results acc = pure-Keeps acc
  collect-Keeps (e ∷ entries) [] acc = pure-Keeps acc
  collect-Keeps (e ∷ entries) (none ∷ results) acc = collect-Keeps entries results acc
  collect-Keeps ((t, key) ∷ entries) (some value ∷ results) acc =
      bind-Keeps _ _ (lift-Keeps _) (λ v. collect-Keeps entries results _)

  get_many-Keeps :
      (keys' : List Key) (version : Option ℤ) (client : Option C)
      → Keeps (get_many d k keys' version client)
  unfolding get_many
  get_many-Keeps keys' version client = search (keeps_rules, client_or-Keeps, collect-Keeps)

  set_many-Keeps :
      (entries : List (Key × Value)) (timeout : Timeout) (version : Option ℤ) (client : Option C)
      → Keeps (set_many d k entries timeout version client)
  unfolding set_many
  set_many-Keeps entries timeout version client =
      search (keeps_rules, client_or-Keeps, set-Keeps) depth 12

  reversed-Keeps : (t : Text) → Keeps (reversed d k t)
  reversed-Keeps t =
      option-Keeps (k.reverse_key t) _ _ (throw-Keeps index_error) (λ u. pure-Keeps u)

  plus-Keeps : (v : Value) (delta : ℤ) → Keeps (plus d k v delta)
  unfolding plus
  plus-Keeps v delta = record { kept = λ s. ground arith }

  run_script-Keeps :
      (c : C) (key : Key) (delta : ℤ) (b : Bool) → Keeps (run_script d k c key delta b)
  unfolding run_script
  run_script-Keeps c key delta b =
      bind-Keeps {A = Option ℤ} _ _
        (command-Keeps
          (d.eval c (if b then incrby else incrby_if_exists) (key_of d k key none) delta))
        (λ value.
          option-Keeps {A = ℤ} value _ (λ i. pure (integer i)) (throw-Keeps value_error)
            (λ i. pure-Keeps (integer i)))

  incr_by_hand-Keeps :
      (c : C) (key : Key) (delta : ℤ) (version : Option ℤ)
      → Keeps (incr_by_hand d k c key delta version)
  unfolding incr_by_hand
  incr_by_hand-Keeps c key delta version =
      search (keeps_rules, ttl-Keeps, get-Keeps, plus-Keeps, set-Keeps) depth 12

  response_kept :
      (r : Result Value × State W C P) (m : M (State W C P) Value)
      → Keeps m
      → length (handle_response r m).1.clients ≡ length r.1.clients
  response_kept (ok a, s) m h = refl
  response_kept (raise (redis_error response_error), s) m h = h.kept s
  response_kept (raise (redis_error other), s) m h = refl
  response_kept (raise other, s) m h = refl

  incr_inner-Keeps :
      (c : C) (key : Key) (delta : ℤ) (version : Option ℤ) (b : Bool)
      → Keeps (incr_inner d k c key delta version b)
  unfolding incr_inner
  incr_inner-Keeps c key delta version b = record {
    kept = λ s.
        response_kept (run_script d k c key delta b s) _ (incr_by_hand-Keeps c key delta version)
        ∙ (run_script-Keeps c key delta b).kept s;
  }

  _incr-Keeps :
      (key : Key) (delta : ℤ) (version : Option ℤ) (client : Option C) (b : Bool)
      → Keeps (_incr d k key delta version client b)
  unfolding _incr
  _incr-Keeps key delta version client b = search (keeps_rules, client_or-Keeps, incr_inner-Keeps)

  moved_key-Keeps : (key : Key) (version : ℤ) → Keeps (moved_key d k key version)
  unfolding moved_key
  moved_key-Keeps (raw t) version = pure-Keeps _
  moved_key-Keeps (cache_key t) version = record { kept = λ s. ground arith }

  incr_version-Keeps :
      (key : Key) (delta : ℤ) (version : Option ℤ) (client : Option C)
      → Keeps (incr_version d k key delta version client)
  unfolding incr_version
  incr_version-Keeps key delta version client =
      search
        (
          keeps_rules, client_or-Keeps, get-Keeps, ttl-Keeps, set-Keeps, delete-Keeps,
          moved_key-Keeps,
        )
        depth 14

  close_client-Keeps : (c : Option C) → Keeps (close_client d k c)
  unfolding close_client Pool.disconnect
  close_client-Keeps none = pure-Keeps tt
  close_client-Keeps (some c) = record { kept = λ s. refl }

  disconnect-Keeps : (index : ℕ) (c : Option C) → Keeps (disconnect d k index c)
  unfolding disconnect
  disconnect-Keeps index (some c) = close_client-Keeps (some c)
  disconnect-Keeps index none = record {
    kept = λ s.
        elim (get_elem? s.clients index)
          as (λ o.
            length
              (elim o as (λ x. Result (Unit {0}) × State W C P) [
                | none ↦ (raise index_error, s)
                | some c ↦ close_client d k c s
              ]).1.clients
            ≡ length s.clients) [ none ↦ refl | some c ↦ (close_client-Keeps c).kept s ];
  }

  length-replicate : (n : ℕ) (c : Option C) → length (replicate n c) ≡ n
  length-replicate zero c = refl
  length-replicate (suc n) c = omega (arith, length-replicate n c)

  forgotten :
      (r : Result (Unit {0}) × State W C P) (n : ℕ)
      → length r.1.clients ≡ n
      → length (next r (λ _. forget_clients d k n)).1.clients ≡ n
  unfolding forget_clients
  forgotten (ok u, s) n h = length-replicate n none
  forgotten (raise e, s) n h = h

  do_close_clients-Keeps : Keeps (do_close_clients d k)
  unfolding do_close_clients
  do_close_clients-Keeps = record {
    kept = λ s.
        forgotten (for_each (λ i. disconnect d k i none) (range (length s.clients)) s)
          (length s.clients)
          ((for_each-Keeps _ (range (length s.clients)) (λ i. disconnect-Keeps i none)).kept s);
  }

  close-Keeps : Keeps (close d k)
  unfolding close
  close-Keeps = search (keeps_rules, do_close_clients-Keeps)

  -- Whatever the servers do, and also where they raise, none of these methods changes the number of
  -- entries of the list of clients: set, add, get, delete, delete_many, delete_pattern, clear, get_many,
  -- set_many, incr, decr, incr_version, has_key, keys, ttl, touch and close.
  pub length-clients :
      (key : Key) (value : Value) (timeout : Timeout) (version : Option ℤ) (client : Option C)
      (nx xx : Bool) (prefix : Option Text) (keys' : List Key) (entries : List (Key × Value))
      (delta : ℤ) (itersize : Option ℕ)
      → Keeps (set d k key value timeout version client nx xx)
        × Keeps (add d k key value timeout version client)
        × Keeps (get d k key value version client)
        × Keeps (delete d k key version prefix client)
        × Keeps (delete_many d k keys' version client)
        × Keeps (delete_pattern d k key version prefix client itersize)
        × Keeps (clear d k client)
        × Keeps (get_many d k keys' version client)
        × Keeps (set_many d k entries timeout version client)
        × Keeps (incr d k key delta version client nx)
        × Keeps (decr d k key delta version client)
        × Keeps (incr_version d k key delta version client)
        × Keeps (has_key d k key version client)
        × Keeps (keys d k key version client)
        × Keeps (ttl d k key version client)
        × Keeps (touch d k key timeout version client)
        × Keeps (close d k)
  unfolding add delete_pattern clear keys incr decr
  length-clients key value timeout version client nx xx prefix keys' entries delta itersize = (
    set-Keeps d k key value timeout version client nx xx,
    set-Keeps d k key value timeout version client true false,
    get-Keeps d k key value version client,
    delete-Keeps d k key version prefix client,
    delete_many-Keeps keys' version client,
    search (keeps_rules, client_or-Keeps) depth 12,
    search (keeps_rules, client_or-Keeps),
    get_many-Keeps keys' version client,
    set_many-Keeps entries timeout version client,
    _incr-Keeps key delta version client nx,
    _incr-Keeps key _ version client false,
    incr_version-Keeps key delta version client,
    has_key-Keeps d k key version client,
    search (keeps_rules, client_or-Keeps, reversed-Keeps) depth 12,
    ttl-Keeps key version client,
    touch-Keeps key timeout version client,
    close-Keeps,
  )
