-- ===== src/Keys/Reverse.antt =====
-- util.py: from a cache key back to the key of the caller.
use django_redis.Prelude.{
  ℕ, ◌≡◌, refl, false, Option, none, some, [], ◌∷◌, ◌++◌, arith, Text, ℤ, inr,
}
use django_redis.Python.Sorting.{elem}
use django_redis.Python.Decimal.{str}
use django_redis.Python.Decimal.Laws.{elem-str}
use django_redis.Keys.{
  Key, raw, cache_key, key_text, Version, number, version_text, Backend, after_last, after_first,
  original_key, default_reverse_key, or_else, make_key,
}

-- Django's `default_key_func`, as its documentation gives it: "%s:%s:%s" % (prefix, version, key).
abbrev pub IsDefaultKeyFunc : Backend → Type 0
IsDefaultKeyFunc b =
    (key prefix : Text) (version : Version)
    → b.key_func key prefix version ≡ prefix ++ b':' ∷ (version_text version ++ b':' ∷ key)

after_first-append : (c : ℕ) (s t : Text) → elem c s ≡ false → after_first c (s ++ c ∷ t) ≡ some t
unfolding after_first elem
after_first-append c [] t h = ground arith
after_first-append c (x ∷ s) t h = ground (arith, after_first-append c s t)

after_last-absent : (c : ℕ) (s : Text) → elem c s ≡ false → after_last c s ≡ none
unfolding after_last elem
after_last-absent c [] h = refl
after_last-absent c (x ∷ s) h = ground (arith, after_last-absent c s)

pub after_last-append : (c : ℕ) (s t : Text) → elem c t ≡ false → after_last c (s ++ c ∷ t) ≡ some t
unfolding after_last
after_last-append c [] t h = ground (arith, after_last-absent c t h)
after_last-append c (x ∷ s) t h = rw (after_last-append c s t h, after_last)

after_last-behind :
    (c : ℕ) (s t u : Text) → after_last c t ≡ some u → after_last c (s ++ t) ≡ some u
unfolding after_last
after_last-behind c [] t u h = h
after_last-behind c (x ∷ s) t u h = rw (after_last-behind c s t u h, after_last)

after_last-key :
    (prefix version t key : Text)
    → after_last b':' (b':' ∷ t) ≡ some key
    → after_last b':' (prefix ++ b':' ∷ (version ++ b':' ∷ t)) ≡ some key
after_last-key prefix version t key h =
    after_last-behind b':' prefix _ key
      (after_last-behind b':' (b':' ∷ []) _ key (after_last-behind b':' version _ key h))

-- Making a key of a key changes nothing, whatever version and prefix are given.
pub make_key-make_key :
    (b : Backend) (key : Key) (v w : Option ℤ) (p q : Option Text)
    → make_key b (make_key b key v p) w q ≡ make_key b key v p
unfolding make_key
make_key-make_key b (raw t) v w p q = refl
make_key-make_key b (cache_key t) v w p q = refl

-- With Django's key function and a prefix that has no colon, `default_reverse_key` returns the key
-- that `make_key` was given, colons in it included.
pub default_reverse_key-make_key :
    (b : Backend) (key : Text) (v : Option ℤ) (p : Option Text)
    → IsDefaultKeyFunc b
    → elem b':' (or_else p b.key_prefix) ≡ false
    → default_reverse_key (key_text (make_key b (raw key) v p)) ≡ some key
unfolding default_reverse_key make_key
default_reverse_key-make_key b key v p d h =
    let prefix = or_else p b.key_prefix in
    let version = or_else v b.version in
    let e = elem-str b':' version (omega arith) (inr (omega arith)) in
    rw (
      d key prefix (number version),
      after_first-append b':' prefix (str version ++ b':' ∷ key) h,
      after_first-append b':' (str version) key e,
    )

-- `original_key` returns what stands behind the last colon: of a key with a colon in it, `a:b`, it
-- loses `a` if `b` has none.
pub original_key-make_key :
    (b : Backend) (a key : Text) (v : Option ℤ) (p : Option Text)
    → IsDefaultKeyFunc b
    → elem b':' key ≡ false
    → (original_key (key_text (make_key b (raw key) v p)) ≡ some key)
      × (original_key (key_text (make_key b (raw (a ++ b':' ∷ key)) v p)) ≡ some key)
unfolding original_key make_key
original_key-make_key b a key v p d h =
    let version = or_else v b.version in
    let prefix = or_else p b.key_prefix in
    let last = after_last-append b':' a key h in
    (
      rw (d key prefix (number version))
          (after_last-key prefix (str version) key key (after_last-append b':' [] key h)),
      rw (d (a ++ b':' ∷ key) prefix (number version)) (
          after_last-key prefix (str version) (a ++ b':' ∷ key) key
            (after_last-behind b':' (b':' ∷ []) (a ++ b':' ∷ key) key last)),
    )
