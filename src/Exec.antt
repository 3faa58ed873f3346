-- ===== src/Exec.antt =====
-- Python code that mutates a state and may raise: django_redis/exceptions.py, the `try` blocks, and
-- the order of effects. What was written before a raise stays written, so the state comes back
-- beside the error too.
pub mod Raises
use django_redis.Prelude.{Bool, Option, none, some, List, [], ◌∷◌}

-- The members of `_main_exceptions`: redis-py's ConnectionError, TimeoutError and ResponseError, and
-- socket.timeout.
pub data RedisError : Type 0 where
  connection_error timeout_error response_error socket_timeout : RedisError

-- `connection_interrupted` carries its `__cause__`. `out_of_fuel` is no exception of the program: it
-- marks a loop that was cut off.
pub data Exn : Type 0 where
  redis_error : RedisError → Exn
  connection_interrupted : RedisError → Exn
  compressor_error serializer_error : Exn
  value_error type_error key_error index_error : Exn
  not_implemented improperly_configured : Exn
  other_error : Exn
  out_of_fuel : Exn

pub data Result {ℓ} (A : Type ℓ) : Type ℓ where
  ok : A → Result A
  raise : Exn → Result A

abbrev pub M : Type 0 → Type 0 → Type 0
M S A = S → Result A × S

-- What follows a step: the rest of the block, unless the step raised.
abbrev pub next {ℓ} :
    {S A : Type 0} {B : Type ℓ} → Result A × S → (A → S → Result B × S) → Result B × S
next (ok a, s) f = f a s
next (raise e, s) f = (raise e, s)

infixl 5 ◌>>=◌ ◌>>◌
abbrev pub ◌>>=◌ : {S A B : Type 0} → M S A → (A → M S B) → M S B
◌>>=◌ m f s = next (m s) f

abbrev pub ◌>>◌ : {S A B : Type 0} → M S A → M S B → M S B
m >> k = m >>= λ _. k

abbrev pub pure : {S A : Type 0} → A → M S A
pure a s = (ok a, s)

abbrev pub throw : {S A : Type 0} → Exn → M S A
throw e s = (raise e, s)

abbrev pub lift : {S A : Type 0} → Result A → M S A
lift r s = (r, s)

abbrev pub gets : {S A : Type 0} → (S → A) → M S A
gets f s = (ok (f s), s)

-- except _main_exceptions as e: …
abbrev pub handle : {S A : Type 0} → Result A × S → (RedisError → M S A) → Result A × S
handle (raise (redis_error e), s) h = h e s
handle r h = r

abbrev pub except_redis : {S A : Type 0} → M S A → (RedisError → M S A) → M S A
except_redis m h s = handle (m s) h

-- except _main_exceptions as e: raise ConnectionInterrupted(connection=client) from e
abbrev pub interrupted : {S A : Type 0} → M S A → M S A
interrupted m = except_redis m (λ e. throw (connection_interrupted e))

-- A list comprehension whose element may raise.
unfoldable pub traverse : {S A B : Type 0} → (A → M S B) → List A → M S (List B)
traverse f [] = pure []
traverse f (x ∷ xs) = do y ← f x; ys ← traverse f xs; pure (y ∷ ys)

-- for x in xs: …
unfoldable pub for_each : {S A : Type 0} → (A → M S (Unit {0})) → List A → M S (Unit {0})
for_each f [] = pure tt
for_each f (x ∷ xs) = do f x; for_each f xs
