-- ===== src/Keys.antt =====
-- django_redis/util.py, and the key functions of django_redis/client/default.py. A text is the list
-- of its code points. `CacheKey` is a subclass of `str`: a key is a plain text or a `CacheKey`.
pub mod Reverse
pub mod Pattern
use django_redis.Prelude.{
  ℕ, Bool, Option, none, some, List, [], ◌∷◌, ◌||◌, ◌==◌, if◌then◌else◌, Text, ℤ,
}
use django_redis.Python.Decimal.{str}

pub data Key : Type 0 where
  raw : Text → Key
  cache_key : Text → Key

-- str(key)
abbrev pub key_text : Key → Text
key_text (raw t) = t
key_text (cache_key t) = t

-- A version is an integer; `make_pattern` hands its text to the key function instead.
pub data Version : Type 0 where
  number : ℤ → Version
  text : Text → Version

abbrev pub version_text : Version → Text
version_text (number i) = str i
version_text (text t) = t

-- What the program reads of Django's `BaseCache`.
pub record Backend : Type 0 where
  pub key_prefix : Text
  pub version : ℤ
  pub default_timeout : Option ℤ
  pub key_func : Text → Text → Version → Text

-- s.rsplit(c, 1)[1]; `none` is an IndexError.
unfoldable pub after_last : ℕ → Text → Option Text
after_last c [] = none
after_last c (x ∷ s) = elim (after_last c s) [
  | some t ↦ some t
  | none ↦ if x == c then some s else none
]

-- s.split(c, 1)[1]; `none` is an IndexError.
unfoldable pub after_first : ℕ → Text → Option Text
after_first c [] = none
after_first c (x ∷ s) = if x == c then some s else after_first c s

-- CacheKey.original_key
unfoldable pub original_key : Text → Option Text
unfolding after_last
original_key key = after_last b':' key

-- key.split(":", 2)[2]
unfoldable pub default_reverse_key : Text → Option Text
unfolding after_first
default_reverse_key key = elim (after_first b':' key) [ none ↦ none | some t ↦ after_first b':' t ]

-- The characters of `special_re`.
unfoldable pub is_special : ℕ → Bool
is_special c = c == b'*' || c == b'?' || c == b'['

unfoldable pub glob_escape : Text → Text
unfolding is_special
glob_escape [] = []
glob_escape (c ∷ s) =
    let rest = glob_escape s in if is_special c then b'[' ∷ c ∷ b']' ∷ rest else c ∷ rest

abbrev pub or_else {ℓ} : {A : Type ℓ} → Option A → A → A
or_else none d = d
or_else (some a) d = a

module _ (b : Backend) where
  unfoldable pub make_key : Key → Option ℤ → Option Text → Key
  make_key (cache_key t) version prefix = cache_key t
  make_key (raw t) version prefix =
      cache_key (b.key_func t (or_else prefix b.key_prefix) (number (or_else version b.version)))

  unfoldable pub make_pattern : Key → Option ℤ → Option Text → Key
  unfolding glob_escape
  make_pattern (cache_key t) version prefix = cache_key t
  make_pattern (raw t) version prefix = cache_key (
      b.key_func t (glob_escape (or_else prefix b.key_prefix))
        (text (glob_escape (version_text (number (or_else version b.version))))))
