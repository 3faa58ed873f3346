-- ===== src/Tests/SortedSets.antt =====
-- Tests of client/mixins/sorted_sets.py and serializers/pickle.py.
use django_redis.Prelude.{ℕ, ◌≡◌, refl, true, false, none, some, [], ◌∷◌, Text, codes, pos, length}
use django_redis.Python.Decimal.{str}
use django_redis.Exec.{ok, raise, improperly_configured, type_error, other_error}
use django_redis.Redis.{reply, Setting, unset, text}
use django_redis.Redis.SortedSets.{count, SortedSetCommands, score}
use django_redis.Client.SortedSets.{zrange, zrangebyscore, zrevrange, zrevrangebyscore}
use django_redis.Client.SortedSets.Scores.{SameMembers, without_scores, ranges-without_scores}
use django_redis.Codec.Serializers.{Pickle, setup_pickle_version}
use django_redis.Codec.Serializers.Protocol.{Bounded, setup_pickle_version_bounds}
use django_redis.Tests.{key, World, driver, config, state}

-- Scores are numbers, and every sorted set has one member, 5, with the score 1.
abbrev sorted_sets : SortedSetCommands World ℕ ℕ
sorted_sets = record {
  to_int = λ x. some (pos x);
  zadd = λ c key d f w. (reply (count 0), w);
  zcard = λ c key w. (reply 1, w);
  zcount = λ c key a b w. (reply 1, w);
  zincrby = λ c key x e w. (reply x, w);
  zpopmax = λ c key n w. (reply [], w);
  zpopmin = λ c key n w. (reply [], w);
  zrange = λ c key a b desc f w. (reply (codes "5" ∷ []), w);
  zrange_scored = λ c key a b desc f w. (reply ((codes "5", 1) ∷ []), w);
  zrangebyscore = λ c key a b s n f w. (reply (codes "5" ∷ []), w);
  zrangebyscore_scored = λ c key a b s n f w. (reply ((codes "5", 1) ∷ []), w);
  zrank = λ c key e w. (reply none, w);
  zrem = λ c key es w. (reply 0, w);
  zremrangebyscore = λ c key a b w. (reply 0, w);
  zrevrange = λ c key a b f w. (reply (codes "5" ∷ []), w);
  zrevrange_scored = λ c key a b f w. (reply ((codes "5", 1) ∷ []), w);
  zrevrangebyscore = λ c key a b s n f w. (reply (codes "5" ∷ []), w);
  zrevrangebyscore_scored = λ c key a b s n f w. (reply ((codes "5", 1) ∷ []), w);
  zscore = λ c key e w. (reply none, w);
}

same_members : SameMembers sorted_sets
same_members = record {
  zrange = λ c key a b desc f w. refl;
  zrangebyscore = λ c key a b s n f w. refl;
  zrevrange = λ c key a b f w. refl;
  zrevrangebyscore = λ c key a b s n f w. refl;
}

abbrev cast : Text → ℕ
cast t = length t

ranges-without_scores_example :
    ((zrange
        (driver false)
        sorted_sets
        config
        key
        (pos 0)
        (pos 1)
        true
        false
        cast
        none
        (some 0)
        state).0
      ≡ without_scores
          (zrange
            (driver false)
            sorted_sets
            config
            key
            (pos 0)
            (pos 1)
            true
            true
            cast
            none
            (some 0)
            state).0)
    × ((zrangebyscore
          (driver false)
          sorted_sets
          config
          key
          (score 0)
          (score 2)
          none
          none
          false
          cast
          none
          (some 0)
          state).0
        ≡ without_scores
            (zrangebyscore
              (driver false)
              sorted_sets
              config
              key
              (score 0)
              (score 2)
              none
              none
              true
              cast
              none
              (some 0)
              state).0)
    × ((zrevrange
          (driver false)
          sorted_sets
          config
          key
          (pos 0)
          (pos 1)
          false
          cast
          none
          (some 0)
          state).0
        ≡ without_scores
            (zrevrange
              (driver false)
              sorted_sets
              config
              key
              (pos 0)
              (pos 1)
              true
              cast
              none
              (some 0)
              state).0)
    × ((zrevrangebyscore
          (driver false)
          sorted_sets
          config
          key
          (score 2)
          (score 0)
          none
          none
          false
          cast
          none
          (some 0)
          state).0
        ≡ without_scores
            (zrevrangebyscore
              (driver false)
              sorted_sets
              config
              key
              (score 2)
              (score 0)
              none
              none
              true
              cast
              none
              (some 0)
              state).0)
ranges-without_scores_example =
    ranges-without_scores (driver false) sorted_sets config same_members key (pos 0) (pos 1)
      (score 0) (score 2) none none true cast none 0 state

abbrev pickle : Pickle
pickle = record {
  default_protocol = pos 4;
  highest_protocol = pos 5;
  dumps = λ v p. none;
  loads = λ t. none;
  int_of_float = λ b n. raise other_error;
  int_of_object = λ b n. raise type_error;
}

setup_pickle_version_bounds_example :
    Bounded pickle (setup_pickle_version pickle (some (Setting.float true 1)))
    × (setup_pickle_version pickle none ≡ ok (pos 4))
    × (setup_pickle_version pickle (some (Setting.number (pos 2))) ≡ ok (pos 2))
    × (setup_pickle_version pickle (some (text (str (pos 2)))) ≡ ok (pos 2))
    × (setup_pickle_version pickle (some unset) ≡ raise improperly_configured)
setup_pickle_version_bounds_example =
    setup_pickle_version_bounds pickle (some (Setting.float true 1)) (pos 2) refl
