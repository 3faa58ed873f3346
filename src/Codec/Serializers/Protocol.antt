-- ===== src/Codec/Serializers/Protocol.antt =====
-- django_redis/serializers/pickle.py: the protocol that `setup_pickle_version` leaves.
use django_redis.Prelude.{
  ◌≡◌, refl, ap, ◌⊎◌, inl, inr, true, Option, none, some, ℤ, if◌then◌else◌, Bool-cases,
}
use django_redis.Python.Decimal.{str}
use django_redis.Python.Decimal.Laws.{int-str}
use django_redis.Exec.{Exn, Result, ok, raise, improperly_configured, value_error, type_error}
use django_redis.Redis.{Setting, unset, text, number}
use django_redis.Codec.Serializers.{Pickle, leb_ℤ, to_int, check_version, setup_pickle_version}

-- A protocol of at most the highest one, or an exception.
abbrev pub Bounded : Pickle → Result ℤ → Type 0
Bounded p r =
    ((version : ℤ) × (r ≡ ok version) × (leb_ℤ version p.highest_protocol ≡ true))
    ⊎ ((e : Exn) × (r ≡ raise e))

-- The protocol of an option that is an integer.
abbrev pub at_most_highest : Pickle → ℤ → Result ℤ
at_most_highest p i = if leb_ℤ i p.highest_protocol then ok i else raise improperly_configured

check_version-Bounded : (p : Pickle) (r : Result ℤ) → Bounded p (check_version p r)
check_version-Bounded p (ok version) = elim (Bool-cases (leb_ℤ version p.highest_protocol)) [
  | inl low ↦ inl (version, rw low refl, low)
  | inr high ↦ inr (improperly_configured, rw high refl)
]
check_version-Bounded p (raise value_error) = inr (improperly_configured, refl)
check_version-Bounded p (raise type_error) = inr (improperly_configured, refl)
check_version-Bounded p (raise e) = inr (e, refl)

to_int-str : (p : Pickle) (i : ℤ) → to_int p (text (str i)) ≡ ok i
unfolding to_int
to_int-str p i = rw (int-str i, to_int) refl

-- Where the default protocol is not above the highest one: whatever PICKLE_VERSION is, or without
-- it, the serializer gets a protocol of at most the highest one, or an exception is raised. Without
-- the option it gets the default protocol, and with an integer, or with the text of its decimal
-- digits, that integer, or ImproperlyConfigured if it is above the highest one; None ends in
-- ImproperlyConfigured.
pub setup_pickle_version_bounds :
    (p : Pickle) (option : Option Setting) (i : ℤ)
    → leb_ℤ p.default_protocol p.highest_protocol ≡ true
    → Bounded p (setup_pickle_version p option)
      × (setup_pickle_version p none ≡ ok p.default_protocol)
      × (setup_pickle_version p (some (number i)) ≡ at_most_highest p i)
      × (setup_pickle_version p (some (text (str i))) ≡ at_most_highest p i)
      × (setup_pickle_version p (some unset) ≡ raise improperly_configured)
unfolding setup_pickle_version
setup_pickle_version_bounds p none i h = (
  inl (p.default_protocol, refl, h),
  refl,
  unfold to_int in refl,
  ap (check_version p) (to_int-str p i),
  unfold to_int in refl,
)
setup_pickle_version_bounds p (some value) i h = (
  check_version-Bounded p (to_int p value),
  refl,
  unfold to_int in refl,
  ap (check_version p) (to_int-str p i),
  unfold to_int in refl,
)
