-- ===== src/Client/Runs.antt =====
-- client/default.py: the commands of a caller, and what they mean to him.
pub mod Steps
pub mod Refined
use mathlib.Core.Option
use django_redis.Prelude.{
  ℕ, ◌≡◌, refl, sym, ◌∙◌, ap, Bool, true, false, not, Option, none, some, List, [], ◌∷◌, ltb, arith,
  ℤ, if◌then◌else◌, inl, inr, Bool-cases, Text, text_eq, text_eq_iff, text_eq_refl, All,
}
use django_redis.Exec.{Result, ok, raise, M, next, ◌>>=◌, pure}
use django_redis.Value.{Value, Timeout, Encoded}
use django_redis.Keys.{Key}
use django_redis.Codec.{encode, decode}
use django_redis.Codec.RoundTrip.{wire, IsKept, decode-encode}
use django_redis.Redis.{Driver, State}
use django_redis.Client.{Config, client_or}
use django_redis.Client.Basic
use django_redis.Client.Basic.{key_of, resolve, or_default}
use django_redis.Client.Stored.{Serving, Stored, set-Stored, expires_now, is_set, b2n, b2n_one}

pub data Operation : Type 0 where
  set add : Key → Value → Timeout → Option ℤ → Operation
  get : Key → Value → Option ℤ → Operation
  delete has_key : Key → Option ℤ → Operation

pub data Answer : Type 0 where
  flag : Bool → Answer
  value : Value → Answer
  number : ℕ → Answer

-- The cache that a caller has in mind: values by the texts of keys.
abbrev pub Contents : Type 0
Contents = Text → Option Value

abbrev pub changed : Text → Option Value → Contents → Contents
changed key v m = λ j. if text_eq key j then v else m j

abbrev pub present : Option Value → Bool
present none = false
present (some v) = true

abbrev pub value_or : Value → Option Value → Value
value_or default none = default
value_or default (some v) = v

module _ {W C P : Type 0} (d : Driver W C P) (k : Config) where
  -- The commands, on a client that is given.
  unfoldable pub perform : C → Operation → M (State W C P) Answer
  unfolding Basic.set Basic.add Basic.get Basic.delete Basic.has_key
  perform c (set key v timeout version) = do
    b ← Basic.set d k key v timeout version (some c) false false
    pure (flag b)
  perform c (add key v timeout version) = do
    b ← Basic.add d k key v timeout version (some c)
    pure (flag b)
  perform c (get key default version) = do
    v ← Basic.get d k key default version (some c)
    pure (value v)
  perform c (delete key version) = do
    n ← Basic.delete d k key version none (some c)
    pure (number n)
  perform c (has_key key version) = do b ← Basic.has_key d k key version (some c); pure (flag b)

  unfoldable pub perform_all : C → List Operation → M (State W C P) (List Answer)
  unfolding perform
  perform_all c [] = pure []
  perform_all c (op ∷ ops) = do a ← perform c op; rest ← perform_all c ops; pure (a ∷ rest)

  -- What they mean: a timeout that is 0 or below removes the key or, in `add`, leaves it.
  unfoldable pub meaning : Operation → Contents → Answer × Contents
  meaning (set key v timeout version) m =
      let K = key_of d k key version in
      if expires_now (resolve k timeout)
      then (flag (present (m K)), changed K none m)
      else (flag true, changed K (some v) m)
  meaning (add key v timeout version) m =
      let K = key_of d k key version in
      if expires_now (resolve k timeout)
      then (flag (not (present (m K))), m)
      else if present (m K)
      then (flag false, m)
      else (flag true, changed K (some v) m)
  meaning (get key default version) m = (value (value_or default (m (key_of d k key version))), m)
  meaning (delete key version) m =
      let K = key_of d k key version in (number (if present (m K) then 1 else 0), changed K none m)
  meaning (has_key key version) m = (flag (present (m (key_of d k key version))), m)

  unfoldable pub meaning_all : List Operation → Contents → List Answer × Contents
  unfolding meaning
  meaning_all [] m = ([], m)
  meaning_all (op ∷ ops) m =
      let (a, m') = meaning op m in let (rest, m'') = meaning_all ops m' in (a ∷ rest, m'')
