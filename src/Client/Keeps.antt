-- ===== src/Client/Keeps.antt =====
-- client/default.py and pool.py: no command changes the number of entries of `_clients`.
pub mod Commands
pub mod Others
use mathlib.Core.Option
use django_redis.Prelude.{
  ℕ, zero, suc, ◌≡◌, refl, ◌∙◌, Bool, true, false, Option, none, some, List, [], ◌∷◌, ◌++◌, Text,
  Dict, arith, length, length-set, ℤ, if◌then◌else◌, get_elem?, lookup, times_1000,
}
use django_redis.Exec.{
  RedisError, Exn, redis_error, Result, ok, raise, M, next, ◌>>=◌, ◌>>◌, pure, throw, lift, handle,
  except_redis, interrupted, traverse, for_each,
}
use django_redis.Redis.{Driver, State, Reply, Setting, command, world}

-- The block leaves as many entries as it found.
pub record Keeps {W C P A : Type 0} (m : M (State W C P) A) : Type 0 where
  pub kept : (s : State W C P) → length (m s).1.clients ≡ length s.clients

module _ {W C P : Type 0} where
  module _ {A : Type 0} where
    pub pure-Keeps : (a : A) → Keeps {W = W} {C = C} {P = P} (pure a)
    pure-Keeps a = record { kept = λ s. refl }

    pub throw-Keeps : (e : Exn) → Keeps {W = W} {C = C} {P = P} {A = A} (throw e)
    throw-Keeps e = record { kept = λ s. refl }

    pub lift-Keeps : (r : Result A) → Keeps {W = W} {C = C} {P = P} (lift r)
    lift-Keeps r = record { kept = λ s. refl }

    pub command-Keeps : (f : W → Reply A × W) → Keeps {W = W} {C = C} {P = P} (command f)
    command-Keeps f = record { kept = λ s. refl }

    pub world-Keeps : (f : W → A × W) → Keeps {W = W} {C = C} {P = P} (world f)
    world-Keeps f = record { kept = λ s. refl }

    pub if-Keeps :
        (b : Bool) (m n : M (State W C P) A) → Keeps m → Keeps n → Keeps (if b then m else n)
    if-Keeps true m n h k = h
    if-Keeps false m n h k = k

    handled_kept :
        (r : Result A × State W C P) (f : RedisError → M (State W C P) A)
        → ((e : RedisError) → Keeps (f e))
        → length (handle r f).1.clients ≡ length r.1.clients
    handled_kept (ok a, s) f h = refl
    handled_kept (raise (redis_error e), s) f h = (h e).kept s
    handled_kept (raise other, s) f h = refl

    pub except_redis-Keeps :
        (m : M (State W C P) A) (f : RedisError → M (State W C P) A)
        → Keeps m
        → ((e : RedisError) → Keeps (f e))
        → Keeps (except_redis m f)
    except_redis-Keeps m f h k = record { kept = λ s. handled_kept (m s) f k ∙ h.kept s }

    pub interrupted-Keeps : (m : M (State W C P) A) → Keeps m → Keeps (interrupted m)
    interrupted-Keeps m h = except_redis-Keeps m _ h (λ e. throw-Keeps _)

  module _ {A B : Type 0} where
    next_kept :
        (r : Result A × State W C P) (f : A → M (State W C P) B)
        → ((a : A) → Keeps (f a))
        → length (next r f).1.clients ≡ length r.1.clients
    next_kept (ok a, s) f h = (h a).kept s
    next_kept (raise e, s) f h = refl

    pub bind-Keeps :
        (m : M (State W C P) A) (f : A → M (State W C P) B)
        → Keeps m
        → ((a : A) → Keeps (f a))
        → Keeps (m >>= f)
    bind-Keeps m f h k = record { kept = λ s. next_kept (m s) f k ∙ h.kept s }

  pub traverse-Keeps :
      {A B : Type 0} (f : A → M (State W C P) B) (xs : List A)
      → ((a : A) → Keeps (f a))
      → Keeps (traverse f xs)
  unfolding traverse
  traverse-Keeps f [] h = pure-Keeps []
  traverse-Keeps f (x ∷ xs) h =
      bind-Keeps (f x) _ (h x)
        (λ y. bind-Keeps (traverse f xs) _ (traverse-Keeps f xs h) (λ ys. pure-Keeps _))

  pub option-Keeps :
      {A B : Type 0} (o : Option A) (m : M (State W C P) B) (f : A → M (State W C P) B)
      → Keeps m
      → ((a : A) → Keeps (f a))
      → Keeps (elim o as (λ x. M (State W C P) B) [ none ↦ m | some a ↦ f a ])
  option-Keeps none m f h g = h
  option-Keeps (some a) m f h g = g a

  pub for_each-Keeps :
      {A : Type 0} (f : A → M (State W C P) Unit) (xs : List A)
      → ((a : A) → Keeps (f a))
      → Keeps (for_each f xs)
  unfolding for_each
  for_each-Keeps f [] h = pure-Keeps tt
  for_each-Keeps f (x ∷ xs) h = bind-Keeps _ _ (h x) (λ _. for_each-Keeps f xs h)

pub ruleset keeps_rules = (
  pure-Keeps, throw-Keeps, lift-Keeps, command-Keeps, world-Keeps, if-Keeps, except_redis-Keeps,
  interrupted-Keeps, bind-Keeps, traverse-Keeps, for_each-Keeps,
)
