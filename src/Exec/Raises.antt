-- ===== src/Exec/Raises.antt =====
-- Which exceptions a block can raise: one rule for each way to build a block.
use django_redis.Prelude.{◌≡◌, refl, Bool, true, false, if◌then◌else◌, arith, List, [], ◌∷◌}
use django_redis.Exec.{
  RedisError, Exn, redis_error, connection_interrupted, out_of_fuel, Result, ok, raise, M, next,
  ◌>>=◌, pure, throw, lift, handle, except_redis, interrupted, traverse, for_each,
}

pub record OnlyRaises {S A : Type 0} (P : Exn → Type 0) (m : M S A) : Type 0 where
  pub at : (s : S) (e : Exn) → (m s).0 ≡ raise e → P e

-- No bare exception of `_main_exceptions`.
abbrev pub NotRaw : Exn → Type 0
NotRaw (redis_error e) = ⊥
NotRaw _ = Unit

-- Neither that nor a ConnectionInterrupted.
abbrev pub IsSilent : Exn → Type 0
IsSilent (redis_error e) = ⊥
IsSilent (connection_interrupted e) = ⊥
IsSilent _ = Unit

-- No loop was cut off.
abbrev pub NotCut : Exn → Type 0
NotCut out_of_fuel = ⊥
NotCut _ = Unit

raised_same :
    {A : Type 0} (P : Exn → Type 0) (e e' : Exn)
    → ◌≡◌ {A = Result A} (raise e) (raise e')
    → P e
    → P e'
raised_same P e e' h p = let q : e ≡ e' = ground arith in rw (← q) p

abbrev pub is_benign : Exn → Bool
is_benign (redis_error e) = false
is_benign (connection_interrupted e) = false
is_benign out_of_fuel = false
is_benign _ = true

-- None of the above.
abbrev pub IsBenign : Exn → Type 0
IsBenign e = is_benign e ≡ true

NotRaw-benign : (e : Exn) → IsBenign e → NotRaw e
NotRaw-benign (redis_error x) h = cc
NotRaw-benign _ h = tt

NotCut-benign : (e : Exn) → IsBenign e → NotCut e
NotCut-benign out_of_fuel h = cc
NotCut-benign _ h = tt

module _ {S A : Type 0} {P : Exn → Type 0} where
  pub pure-OnlyRaises : (a : A) → OnlyRaises {S = S} P (pure a)
  pure-OnlyRaises a = record { at = λ s e h. cc }

  pub throw-OnlyRaises : (e : Exn) → P e → OnlyRaises {S = S} {A = A} P (throw e)
  throw-OnlyRaises e p = record { at = λ s e' h. raised_same P e e' h p }

  pub if-OnlyRaises :
      (b : Bool) (m n : M S A) → OnlyRaises P m → OnlyRaises P n → OnlyRaises P (if b then m else n)
  if-OnlyRaises true m n h k = h
  if-OnlyRaises false m n h k = k

  pub lift-OnlyRaises :
      (r : Result A) → ((e : Exn) → r ≡ raise e → P e) → OnlyRaises {S = S} P (lift r)
  lift-OnlyRaises r h = record { at = λ s e q. h e q }

module _ {S A B : Type 0} {P : Exn → Type 0} where
  next_raises :
      (r : Result A × S) (f : A → M S B) (e : Exn)
      → ((e : Exn) → r.0 ≡ raise e → P e)
      → ((a : A) → OnlyRaises P (f a))
      → (next r f).0 ≡ raise e
      → P e
  next_raises (ok a, s) f e h k q = (k a).at s e q
  next_raises (raise x, s) f e h k q = h e (ground arith)

  pub bind-OnlyRaises :
      (m : M S A) (f : A → M S B)
      → OnlyRaises P m
      → ((a : A) → OnlyRaises P (f a))
      → OnlyRaises P (m >>= f)
  bind-OnlyRaises m f h k = record { at = λ s e q. next_raises (m s) f e (h.at s) k q }

pub guarded-OnlyRaises :
    {S A : Type 0} {P : Exn → Type 0} (b : Bool) (m n : M S A)
    → (b ≡ true → OnlyRaises P m)
    → (b ≡ false → OnlyRaises P n)
    → OnlyRaises P (if b then m else n)
guarded-OnlyRaises true m n h k = h refl
guarded-OnlyRaises false m n h k = k refl

module _ {S A : Type 0} (f : RedisError → M S A) where
  handled_raw :
      (r : Result A × S) (e : Exn)
      → ((x : RedisError) → OnlyRaises NotRaw (f x))
      → (handle r f).0 ≡ raise e
      → NotRaw e
  handled_raw (ok a, s) e h q = cc
  handled_raw (raise (redis_error x), s) e h q = (h x).at s e q
  handled_raw (raise other, s) (redis_error x) h q = cc
  handled_raw (raise other, s) e h q = tt

  -- A block whose handler of `_main_exceptions` raises none of them raises none of them.
  pub except-NotRaw :
      (m : M S A)
      → ((x : RedisError) → OnlyRaises NotRaw (f x))
      → OnlyRaises NotRaw (except_redis m f)
  except-NotRaw m h = record { at = λ s e q. handled_raw (m s) e h q }

  handled_cut :
      (r : Result A × S) (e : Exn)
      → ((e : Exn) → r.0 ≡ raise e → NotCut e)
      → ((x : RedisError) → OnlyRaises NotCut (f x))
      → (handle r f).0 ≡ raise e
      → NotCut e
  handled_cut (ok a, s) e h g q = h e q
  handled_cut (raise (redis_error x), s) e h g q = (g x).at s e q
  handled_cut (raise other, s) e h g q = h e q

  pub except-NotCut :
      (m : M S A)
      → OnlyRaises NotCut m
      → ((x : RedisError) → OnlyRaises NotCut (f x))
      → OnlyRaises NotCut (except_redis m f)
  except-NotCut m h g = record { at = λ s e q. handled_cut (m s) e (h.at s) g q }

module _ {S A : Type 0} where
  pub interrupted-NotRaw : (m : M S A) → OnlyRaises NotRaw (interrupted m)
  interrupted-NotRaw m = except-NotRaw _ m (λ x. throw-OnlyRaises (connection_interrupted x) tt)

  pub interrupted-NotCut : (m : M S A) → OnlyRaises NotCut m → OnlyRaises NotCut (interrupted m)
  interrupted-NotCut m h = except-NotCut _ m h (λ x. throw-OnlyRaises (connection_interrupted x) tt)

module _ {S A : Type 0} (m : M S A) (h : OnlyRaises IsBenign m) where
  pub benign-NotRaw : OnlyRaises NotRaw m
  benign-NotRaw = record { at = λ s e q. NotRaw-benign e (h.at s e q) }

  pub benign-NotCut : OnlyRaises NotCut m
  benign-NotCut = record { at = λ s e q. NotCut-benign e (h.at s e q) }

pub traverse-OnlyRaises :
    {S A B : Type 0} {P : Exn → Type 0} (f : A → M S B) (xs : List A)
    → ((a : A) → OnlyRaises P (f a))
    → OnlyRaises P (traverse f xs)
unfolding traverse
traverse-OnlyRaises f [] h = pure-OnlyRaises []
traverse-OnlyRaises f (x ∷ xs) h =
    bind-OnlyRaises (f x) _ (h x) (λ y.
      bind-OnlyRaises (traverse f xs) _ (traverse-OnlyRaises f xs h) (λ ys. pure-OnlyRaises _))

pub for_each-OnlyRaises :
    {S A : Type 0} {P : Exn → Type 0} (f : A → M S Unit) (xs : List A)
    → ((a : A) → OnlyRaises P (f a))
    → OnlyRaises P (for_each f xs)
unfolding for_each
for_each-OnlyRaises f [] h = pure-OnlyRaises tt
for_each-OnlyRaises f (x ∷ xs) h = bind-OnlyRaises (f x) _ (h x) (λ _. for_each-OnlyRaises f xs h)

pub ruleset raises_rules = (
  pure-OnlyRaises, throw-OnlyRaises, if-OnlyRaises, bind-OnlyRaises, interrupted-NotRaw,
  traverse-OnlyRaises, for_each-OnlyRaises,
)
