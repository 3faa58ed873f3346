-- ===== src/Client/SortedSets/Scores.antt =====
-- client/mixins/sorted_sets.py: the range commands with scores and without.
use django_redis.Prelude.{
  ◌≡◌, refl, sym, ◌∙◌, ap, Bool, true, false, Option, some, List, [], ◌∷◌, map, Text, ℤ, arith,
}
use django_redis.Exec.{Result, ok, raise, M, next, ◌>>=◌, pure, traverse}
use django_redis.Value.{Value}
use django_redis.Keys.{Key}
use django_redis.Codec.{decode}
use django_redis.Redis.{Driver, State, Reply, reply, fails, refuses, to_result}
use django_redis.Redis.SortedSets.{Bound, Ranged, members, scored, SortedSetCommands}
use django_redis.Client.{Config, client_or}
use django_redis.Client.Basic.{key_of, decoded_values}
use django_redis.Client.SortedSets.{
  decoded_pair, decoded_pairs, zrange, zrangebyscore, zrevrange, zrevrangebyscore,
}

abbrev pub map_reply : {A B : Type 0} → (A → B) → Reply A → Reply B
map_reply f (reply a) = reply (f a)
map_reply f (fails e) = fails e
map_reply f refuses = refuses

abbrev pub without_scores : {A F : Type 0} → Result (Ranged A F) → Result (Ranged A F)
without_scores (ok (scored pairs)) = ok (members (map (λ p. p.0) pairs))
without_scores r = r

-- A server answers the range commands without WITHSCORES by the members of the answer with it.
pub record SameMembers {W C F : Type 0} (z : SortedSetCommands W C F) : Type 0 where
  pub zrange :
      (c : C) (key : Text) (start end : ℤ) (desc : Bool) (cast : Text → F) (w : W)
      → (z.zrange c key start end desc cast w).0
        ≡ map_reply (map (λ p. p.0)) (z.zrange_scored c key start end desc cast w).0
  pub zrangebyscore :
      (c : C) (key : Text) (min max : Bound F) (start num : Option ℤ) (cast : Text → F) (w : W)
      → (z.zrangebyscore c key min max start num cast w).0
        ≡ map_reply (map (λ p. p.0)) (z.zrangebyscore_scored c key min max start num cast w).0
  pub zrevrange :
      (c : C) (key : Text) (start end : ℤ) (cast : Text → F) (w : W)
      → (z.zrevrange c key start end cast w).0
        ≡ map_reply (map (λ p. p.0)) (z.zrevrange_scored c key start end cast w).0
  pub zrevrangebyscore :
      (c : C) (key : Text) (max min : Bound F) (start num : Option ℤ) (cast : Text → F) (w : W)
      → (z.zrevrangebyscore c key max min start num cast w).0
        ≡ map_reply (map (λ p. p.0)) (z.zrevrangebyscore_scored c key max min start num cast w).0

-- The values of the texts, or the first exception.
values_of : Config → List Text → Result (List Value)
values_of k [] = ok []
values_of k (t ∷ ts) = elim (decode k.serializer k.compressor t) [
  | raise e ↦ raise e
  | ok v ↦ elim (values_of k ts) [ raise e ↦ raise e | ok vs ↦ ok (v ∷ vs) ]
]

pairs_of : {F : Type 0} → Config → List (Text × F) → Result (List (Value × F))
pairs_of k [] = ok []
pairs_of k ((t, x) ∷ ts) = elim (decode k.serializer k.compressor t) [
  | raise e ↦ raise e
  | ok v ↦ elim (pairs_of k ts) [ raise e ↦ raise e | ok vs ↦ ok ((v, x) ∷ vs) ]
]

abbrev first_of : {A F : Type 0} → Result (List (A × F)) → Result (List A)
first_of (ok ps) = ok (map (λ p. p.0) ps)
first_of (raise e) = raise e

values_of-first :
    {F : Type 0} (k : Config) (result : List (Text × F))
    → values_of k (map (λ p. p.0) result) ≡ first_of (pairs_of k result)
unfolding values_of pairs_of
values_of-first k [] = refl
values_of-first k ((t, x) ∷ ts) = ground (arith, values_of-first k ts)

module _ {W C P F : Type 0} (d : Driver W C P) (z : SortedSetCommands W C F) (k : Config) where
  -- One more element in front of a list that was decoded.
  one_more :
      {A : Type 0} (f : Value → A) (r : Result Value) (rest : M (State W C P) (List A))
      (rs : Result (List A)) (s : State W C P)
      → rest s ≡ (rs, s)
      → next (next (r, s) (λ v. pure (f v))) (λ y. do ys ← rest; pure (y ∷ ys)) ≡ (
        elim r [ raise e ↦ raise e | ok v ↦ elim rs [ raise e ↦ raise e | ok vs ↦ ok (f v ∷ vs) ] ],
        s,
      )
  one_more f (raise e) rest rs s h = refl
  one_more f (ok v) rest (ok vs) s h = rw h refl
  one_more f (ok v) rest (raise e) s h = rw h refl

  same_value : (r : Result Value) (s : State W C P) → next (r, s) (λ v. pure v) ≡ (r, s)
  same_value (ok v) s = refl
  same_value (raise e) s = refl

  decoded_values_lem :
      (ts : List Text) (s : State W C P) → decoded_values d k ts s ≡ (values_of k ts, s)
  unfolding decoded_values traverse values_of
  decoded_values_lem [] s = refl
  decoded_values_lem (t ∷ ts) s =
      let r = decode k.serializer k.compressor t in
      ap (λ m. next m (λ y. do ys ← decoded_values d k ts; pure (y ∷ ys))) (sym (same_value r s))
      ∙ one_more (λ v. v) r (decoded_values d k ts) (values_of k ts) s (decoded_values_lem ts s)

  decoded_pairs_lem :
      (ts : List (Text × F)) (s : State W C P) → decoded_pairs d z k ts s ≡ (pairs_of k ts, s)
  unfolding decoded_pairs traverse pairs_of decoded_pair
  decoded_pairs_lem [] s = refl
  decoded_pairs_lem ((t, x) ∷ ts) s =
      one_more (λ v. (v, x)) (decode k.serializer k.compressor t) (decoded_pairs d z k ts)
        (pairs_of k ts) s (decoded_pairs_lem ts s)

  -- What a range command answers with scores and without.
  abbrev with_scores : Reply (List (Text × F)) × W → State W C P → Result (Ranged Value F)
  with_scores r s =
      (next (to_result r.0, record s { world = r.1 })
        (λ ts. do ps ← decoded_pairs d z k ts; pure (scored ps))).0

  abbrev plain : Reply (List Text) × W → State W C P → Result (Ranged Value F)
  plain r s =
      (next (to_result r.0, record s { world = r.1 })
        (λ ts. do vs ← decoded_values d k ts; pure (members vs))).0

  no_scores :
      (ps : Result (List (Value × F))) (s t : State W C P)
      → (next (first_of ps, s) (λ vs. pure (members vs))).0
        ≡ without_scores (next (ps, t) (λ ps. pure (scored ps))).0
  no_scores (ok ps) s t = refl
  no_scores (raise e) s t = refl

  replied :
      (ts : List (Text × F)) (v w : W) (s : State W C P)
      → plain (reply (map (λ p. p.0) ts), w) s ≡ without_scores (with_scores (reply ts, v) s)
  replied ts v w s =
      ap (λ r. (next r (λ vs. pure (members vs))).0)
        (decoded_values_lem (map (λ p. p.0) ts) (record s { world = w }))
      ∙ ap (λ r. (next {S = State W C P} (r, record s { world = w }) (λ vs. pure (members vs))).0)
          (values_of-first k ts)
      ∙ no_scores (pairs_of k ts) (record s { world = w }) (record s { world = v })
      ∙ sym (
          ap (λ r. without_scores (next r (λ ps. pure (scored ps))).0)
            (decoded_pairs_lem ts (record s { world = v })))

  plain-with_scores :
      (a : Reply (List (Text × F)) × W) (b : Reply (List Text) × W) (s : State W C P)
      → b.0 ≡ map_reply (map (λ p. p.0)) a.0
      → plain b s ≡ without_scores (with_scores a s)
  plain-with_scores (fails e, v) (r, w) s h = rw h refl
  plain-with_scores (refuses, v) (r, w) s h = rw h refl
  plain-with_scores (reply ts, v) (r, w) s h = rw h (replied ts v w s)

  -- On a client that is given, with a server whose range commands answer the same members with scores
  -- and without: the four range methods without `withscores` return what they return with it, the scores
  -- left out, or raise what they raise with it.
  pub ranges-without_scores :
      SameMembers z
      → (name : Key) (start end : ℤ) (min max : Bound F) (offset num : Option ℤ) (desc : Bool)
        (cast : Text → F) (version : Option ℤ) (c : C) (s : State W C P)
      → ((zrange d z k name start end desc false cast version (some c) s).0
          ≡ without_scores (zrange d z k name start end desc true cast version (some c) s).0)
        × ((zrangebyscore d z k name min max offset num false cast version (some c) s).0
            ≡ without_scores
                (zrangebyscore d z k name min max offset num true cast version (some c) s).0)
        × ((zrevrange d z k name start end false cast version (some c) s).0
            ≡ without_scores (zrevrange d z k name start end true cast version (some c) s).0)
        × ((zrevrangebyscore d z k name max min offset num false cast version (some c) s).0
            ≡ without_scores
                (zrevrangebyscore d z k name max min offset num true cast version (some c) s).0)
  unfolding zrange zrangebyscore zrevrange zrevrangebyscore client_or
  ranges-without_scores r name start end min max offset num desc cast version c s =
      let K = key_of d k name version in
      (
        plain-with_scores (z.zrange_scored c K start end desc cast s.world)
            (z.zrange c K start end desc cast s.world) s (r.zrange c K start end desc cast s.world),
        plain-with_scores (z.zrangebyscore_scored c K min max offset num cast s.world)
            (z.zrangebyscore c K min max offset num cast s.world) s
            (r.zrangebyscore c K min max offset num cast s.world),
        plain-with_scores (z.zrevrange_scored c K start end cast s.world)
            (z.zrevrange c K start end cast s.world) s (r.zrevrange c K start end cast s.world),
        plain-with_scores (z.zrevrangebyscore_scored c K max min offset num cast s.world)
            (z.zrevrangebyscore c K max min offset num cast s.world) s
            (r.zrevrangebyscore c K max min offset num cast s.world),
      )
