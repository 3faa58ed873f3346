-- ===== src/Client/Lists/Stored.antt =====
-- client/mixins/lists.py: what the commands do to a list of the server.
use django_redis.Prelude.{
  ◌+◌, ◌≡◌, ◌≢◌, refl, ap, Option, none, some, List, [], ◌∷◌, ◌++◌, map, reverse, Text, ℤ, pos,
  negsuc, length, arith,
}
use django_redis.Exec.{ok, next}
use django_redis.Value.{Value, Encoded}
use django_redis.Keys.{Key}
use django_redis.Codec.RoundTrip.{wire, Storable}
use django_redis.Redis.{Driver, State, Reply, reply, to_result}
use django_redis.Redis.Lists.{Popped, nothing, one, ListCommands}
use django_redis.Client.{Config, client_or}
use django_redis.Client.Basic.{key_of}
use django_redis.Client.Coded.{
  Decodes, length-Decodes, AllStorable, Decodes-append, Decodes-reverse, decoded_values-Decodes,
  encoded_values-Storable,
}
use django_redis.Client.Lists.{lpush, rpush, lpop, decoded_popped, lrange}

abbrev pub popped_first : List Text → Popped Text
popped_first [] = nothing
popped_first (t ∷ ts) = one t

abbrev pub rest_of : List Text → List Text
rest_of [] = []
rest_of (t ∷ ts) = ts

-- A reachable Redis server whose list commands act as documented: `held w` is what its lists hold.
-- LPUSH and RPUSH take at least one value.
pub record ServingLists {W C : Type 0} (l : ListCommands W C) : Type 0 where
  pub held : W → Text → List Text
  pub lpush_reply :
      (c : C) (key : Text) (es : List Encoded) (w : W)
      → es ≢ []
      → (l.lpush c key es w).0 ≡ reply (length es + length (held w key))
  pub lpush_held :
      (c : C) (key : Text) (es : List Encoded) (w : W)
      → es ≢ []
      → held (l.lpush c key es w).1 key ≡ reverse (map wire es) ++ held w key
  pub rpush_reply :
      (c : C) (key : Text) (es : List Encoded) (w : W)
      → es ≢ []
      → (l.rpush c key es w).0 ≡ reply (length (held w key) + length es)
  pub rpush_held :
      (c : C) (key : Text) (es : List Encoded) (w : W)
      → es ≢ []
      → held (l.rpush c key es w).1 key ≡ held w key ++ map wire es
  pub lrange_all :
      (c : C) (key : Text) (w : W) → (l.lrange c key (pos 0) (negsuc 0) w).0 ≡ reply (held w key)
  pub lpop_reply :
      (c : C) (key : Text) (w : W) → (l.lpop c key none w).0 ≡ reply (popped_first (held w key))
  pub lpop_held :
      (c : C) (key : Text) (w : W) → held (l.lpop c key none w).1 key ≡ rest_of (held w key)

module _ {W C P : Type 0} (d : Driver W C P) (l : ListCommands W C) (r : ServingLists l)
    (k : Config) (key : Key) (version : Option ℤ) (c : C) where
  -- The list under the key decodes to these values.
  abbrev pub ListsAs : State W C P → List Value → Type 0
  ListsAs s vs = Decodes k (r.held s.world (key_of d k key version)) vs

  lrange-ListsAs :
      (s : State W C P) (vs : List Value)
      → ListsAs s vs
      → (lrange d l k key (pos 0) (negsuc 0) version (some c) s).0 ≡ ok vs
  unfolding lrange client_or
  lrange-ListsAs s vs h =
      let K = key_of d k key version in
      rw
        (
          r.lrange_all c K s.world,
          decoded_values-Decodes k d (r.held s.world K) vs
              (record s { world = (l.lrange c K (pos 0) (negsuc 0) s.world).1 }) h,
        )
        refl

  encoded-ne-nil :
      (values : List Value) (es : List Encoded) → length es ≡ length values → values ≢ [] → es ≢ []
  encoded-ne-nil [] es h some_value = absurd (some_value refl)
  encoded-ne-nil (v ∷ vs) es h some_value = λ q. omega (arith, h, ap length q)

  rpush_lem :
      (values before : List Value) (s : State W C P)
      → ListsAs s before
      → AllStorable k values
      → values ≢ []
      → ((rpush d l k key values version (some c) s).0 ≡ ok (length before + length values))
        × ListsAs (rpush d l k key values version (some c) s).1 (before ++ values)
  unfolding rpush client_or
  rpush_lem values before s h kept some_value =
      let K = key_of d k key version in
      let (es, enc, decodes, same) = encoded_values-Storable k d values s kept in
      let full : es ≢ [] = encoded-ne-nil values es same some_value in
      let count : length (r.held s.world K) + length es ≡ length before + length values =
        omega (arith, length-Decodes k (r.held s.world K) before h, same) in
      (
        rw (enc, r.rpush_reply c K es s.world full) (ap ok count),
        rw (enc, r.rpush_held c K es s.world full)
            (Decodes-append k _ (map wire es) before values h decodes),
      )

  lpush_lem :
      (values before : List Value) (s : State W C P)
      → ListsAs s before
      → AllStorable k values
      → values ≢ []
      → ((lpush d l k key values version (some c) s).0 ≡ ok (length values + length before))
        × ListsAs (lpush d l k key values version (some c) s).1 (reverse values ++ before)
  unfolding lpush client_or
  lpush_lem values before s h kept some_value =
      let K = key_of d k key version in
      let (es, enc, decodes, same) = encoded_values-Storable k d values s kept in
      let full : es ≢ [] = encoded-ne-nil values es same some_value in
      let count : length es + length (r.held s.world K) ≡ length values + length before =
        omega (arith, length-Decodes k (r.held s.world K) before h, same) in
      (
        rw (enc, r.lpush_reply c K es s.world full) (ap ok count),
        rw (enc, r.lpush_held c K es s.world full)
            (Decodes-append k (reverse (map wire es)) _ (reverse values) before
              (Decodes-reverse k (map wire es) values decodes) h),
      )

  lpop_lem :
      (v : Value) (after : List Value) (s : State W C P)
      → ListsAs s (v ∷ after)
      → ((lpop d l k key none version (some c) s).0 ≡ ok (one v))
        × ListsAs (lpop d l k key none version (some c) s).1 after
  unfolding lpop client_or decoded_popped
  lpop_lem v after s h =
      let K = key_of d k key version in
      first (r.held s.world K) (l.lpop c K none s.world) (r.lpop_reply c K s.world)
        (r.lpop_held c K s.world) h
    where
      first :
          (ts : List Text) (p : Reply (Popped Text) × W)
          → p.0 ≡ reply (popped_first ts)
          → r.held p.1 (key_of d k key version) ≡ rest_of ts
          → Decodes k ts (v ∷ after)
          → ((next (to_result p.0, record s { world = p.1 }) (decoded_popped d l k)).0 ≡ ok (one v))
            × ListsAs
                (next (to_result p.0, record s { world = p.1 }) (decoded_popped d l k)).1
                after
      first [] p e g h' = absurd h'
      first (t ∷ ts) p e g h' = rw (e, h'.0) (refl, rw g h'.1)

  -- On a client that is given, with a server whose list commands act as documented, a list that
  -- decodes, and at least one value, where all values are encoded and decoded to themselves: rpush
  -- and lpush return the new length, and lrange from 0 to -1 then returns the values of before with
  -- the new ones behind them, and in front of them in reverse.
  pub lrange-push :
      (values before : List Value) (s : State W C P)
      → ListsAs s before
      → AllStorable k values
      → values ≢ []
      → ((rpush d l k key values version (some c) s).0 ≡ ok (length before + length values))
        × ((lrange d l k key
              (pos 0)
              (negsuc 0)
              version
              (some c)
              (rpush d l k key values version (some c) s).1).0
            ≡ ok (before ++ values))
        × ((lpush d l k key values version (some c) s).0 ≡ ok (length values + length before))
        × ((lrange d l k key
              (pos 0)
              (negsuc 0)
              version
              (some c)
              (lpush d l k key values version (some c) s).1).0
            ≡ ok (reverse values ++ before))
  lrange-push values before s h kept some_value =
      let (right, behind) = rpush_lem values before s h kept some_value in
      let (left, front) = lpush_lem values before s h kept some_value in
      (
        right,
        lrange-ListsAs (rpush d l k key values version (some c) s).1 (before ++ values) behind,
        left,
        lrange-ListsAs (lpush d l k key values version (some c) s).1 (reverse values ++ before)
            front,
      )

  -- On a client that is given, with a server whose list commands act as documented, a list that
  -- decodes, and a value that is encoded and decoded to itself: a lpop after a lpush of the value
  -- takes it out again and returns it, and lrange from 0 to -1 then returns the values of before.
  pub lpop-lpush :
      (v : Value) (before : List Value) (s : State W C P)
      → ListsAs s before
      → Storable k.serializer k.compressor v
      → let pushed = (lpush d l k key (v ∷ []) version (some c) s).1 in
        ((lpop d l k key none version (some c) pushed).0 ≡ ok (one v))
        × ((lrange d l k key
              (pos 0)
              (negsuc 0)
              version
              (some c)
              (lpop d l k key none version (some c) pushed).1).0
            ≡ ok before)
  lpop-lpush v before s h kept =
      let (left, front) = lpush_lem (v ∷ []) before s h (kept, tt) (λ q. cc) in
      let (got, rest) = lpop_lem v before (lpush d l k key (v ∷ []) version (some c) s).1 front in
      (got, lrange-ListsAs _ before rest)
