-- ===== src/Herd.antt =====
-- django_redis/client/herd.py: HerdClient keeps a value beside the time from which it counts as stale,
-- and lets one caller at a time, by chance, see a stale value as missing.
pub mod Window
pub mod Stored
use django_redis.Prelude.{
  ℕ, zero, suc, ◌+◌, Bool, true, false, Option, none, some, List, [], ◌∷◌, map, Text, Dict, lookup,
  insert, ltb, leb, if◌then◌else◌, ℤ, pos, negsuc, ◌+ℤ◌, neg, pos_part, neg_part, is_nonpos,
}
use django_redis.Exec.{
  Result, ok, raise, type_error, key_error, not_implemented, M, ◌>>=◌, ◌>>◌, pure, throw,
  interrupted, for_each,
}
use django_redis.Value.{
  Value, null, boolean, integer, marker, triple, object, is_null, Timeout, seconds,
}
use django_redis.Keys.{Key, key_text, make_key}
use django_redis.Redis.{Driver, State, command, world}
use django_redis.Client.{Config, client_or, nonempty}
use django_redis.Client.Basic
use django_redis.Client.Basic.{resolve, decoded}
use django_redis.Client.Many.{keys_of}

module _ {W C P : Type 0} (d : Driver W C P) where
  unfoldable pub _is_expired : ℕ → ℕ → M (State W C P) Bool
  _is_expired x herd_timeout =
      if leb herd_timeout x
      then pure true
      else (do r ← world (d.randint 1 herd_timeout); pure (leb herd_timeout (x + r)))

  -- `timeout or default`: None and 0 are false.
  abbrev pub or_timeout : Option ℤ → Option ℤ → Option ℤ
  or_timeout none default = default
  or_timeout (some (pos zero)) default = default
  or_timeout t default = t

  unfoldable pub _pack : Config → Value → Option ℤ → M (State W C P) Value
  unfolding ◌+ℤ◌
  _pack k value timeout = elim (or_timeout timeout k.backend.default_timeout) [
    | none ↦ throw type_error
    | some t ↦ do now ← world d.time; pure (triple marker value (integer (t +ℤ pos now)))
  ]

  -- What `_unpack` makes of the value and of the time after which it is stale.
  unfoldable pub unpack_at : ℕ → Value → ℤ → M (State W C P) (Value × Bool)
  unfolding _is_expired ◌+ℤ◌
  unpack_at window value stale_from = do
    now ← world d.time
    if ltb (pos_part stale_from) (now + neg_part stale_from)
        then (do
          expired ← _is_expired (pos_part (pos now +ℤ neg stale_from)) window
          pure (value, expired))
        else pure (value, false)

  abbrev or_type_error : Option Bool → M (State W C P) Bool
  or_type_error none = throw type_error
  or_type_error (some b) = pure b

  -- The same where the time is an object, such as a float.
  unfoldable pub unpack_object : Config → ℕ → Value → ℕ → M (State W C P) (Value × Bool)
  unpack_object k window value n = do
    now ← world d.time
    before ← or_type_error (k.object_before n now)
    if before
        then (do
          old ← or_type_error (k.object_age n now 0 window)
          expired ←
              if old
              then pure true
              else (do r ← world (d.randint 1 window); or_type_error (k.object_age n now r window))
          pure (value, expired))
        else pure (value, false)

  unfoldable pub _unpack : Config → ℕ → Value → M (State W C P) (Value × Bool)
  unfolding unpack_at unpack_object
  _unpack k window (triple marker value (integer stale_from)) = unpack_at window value stale_from
  _unpack k window (triple marker value (boolean true)) = unpack_at window value (pos 1)
  _unpack k window (triple marker value (boolean false)) = unpack_at window value (pos 0)
  _unpack k window (triple marker value (object n)) = unpack_object k window value n
  _unpack k window (triple marker value other) = do world d.time; throw type_error
  _unpack k window value = pure (value, false)

  module _ (k : Config) (window : ℕ) where
    abbrev pub is_plain : Option ℤ → Bool
    is_plain none = true
    is_plain (some t) = is_nonpos t

    abbrev pub extended : Option ℤ → Option ℤ
    extended none = none
    extended (some t) = some (t +ℤ pos window)

    unfoldable pub set :
        Key → Value → Timeout → Option ℤ → Option C → Bool → Bool → M (State W C P) Bool
    unfolding _pack Basic.set
    set key value timeout version client nx xx =
        let t = resolve k timeout in
        if is_plain t then Basic.set d k key value (seconds t) version client nx xx else (do
          packed ← _pack k value t
          Basic.set d k key packed (seconds (extended t)) version client nx false)

    unfoldable pub get : Key → Value → Option ℤ → Option C → M (State W C P) Value
    unfolding _unpack Basic.get
    get key default version client = do
      packed ← Basic.get d k key default version client
      answer ← _unpack k window packed
      pure (if answer.1 then default else answer.0)

    -- The loop of `get_many` over the keys and the results.
    unfoldable pub collect :
        Dict Key → List Text → List (Option Text) → Dict Value → M (State W C P) (Dict Value)
    unfolding _unpack lookup insert
    collect names (key ∷ keys) (some value ∷ results) acc = do
      packed ← decoded d k value
      answer ← _unpack k window packed
      elim (lookup key names) [
        | none ↦ throw key_error
        | some name ↦
            collect names keys results
              (insert (key_text name) (if answer.1 then null else answer.0) acc)
      ]
    collect names (_ ∷ keys) (none ∷ results) acc = collect names keys results acc
    collect names [] results acc = pure acc
    collect names (key ∷ keys) [] acc = pure acc

    -- dict(zip(new_keys, keys))
    abbrev pub zipped : List Text → List Key → Dict Key → Dict Key
    zipped (t ∷ ts) (key ∷ keys) acc = zipped ts keys (insert t key acc)
    zipped _ _ acc = acc

    unfoldable pub get_many : List Key → Option ℤ → Option C → M (State W C P) (Dict Value)
    unfolding client_or keys_of collect
    get_many keys version client = do
      c ← client_or d k client false
      if nonempty keys
          then (do
            let new_keys = keys_of d k keys version
            results ← interrupted (command (d.mget c new_keys))
            collect (zipped new_keys keys []) new_keys results [])
          else pure []

    unfoldable pub set_many :
        List (Key × Value) → Timeout → Option ℤ → Option C → Bool → M (State W C P) Unit
    unfolding client_or set Basic.set for_each
    set_many entries timeout version client herd = do
      c ← client_or d k client true
      interrupted (do
        pipe ← world (d.pipeline c)
        for_each
            (λ e. do
              (if herd then set else Basic.set d k) e.0 e.1 timeout version (some pipe) false false
              pure tt)
            entries
        command (d.execute pipe))

    unfoldable pub incr : Key → ℤ → M (State W C P) Value
    incr key delta = throw not_implemented

    unfoldable pub decr : Key → ℤ → M (State W C P) Value
    decr key delta = throw not_implemented

    unfoldable pub touch : Key → Timeout → Option ℤ → Option C → M (State W C P) Bool
    unfolding client_or get set
    touch key timeout version client = do
      c ← client_or d k client true
      value ← get key null version (some c)
      if is_null value
          then pure false
          else (do set key value timeout version (some c) false false; pure true)
