-- ===== src/Tests/Keys.antt =====
-- Tests of the key functions, of `encode` and `decode`, and of the connection pools.
use django_redis.Prelude.{
  ℕ, ◌≡◌, ◌↔◌, refl, true, false, none, some, [], ◌∷◌, Text, codes, text_eq, arith, if◌then◌else◌,
  ◌==◌, ◌&&◌,
}
use django_redis.Python.Sorting.{elem}
use django_redis.Keys.{raw, key_text, make_key, make_pattern, original_key, default_reverse_key}
use django_redis.Keys.Reverse.{
  IsDefaultKeyFunc, default_reverse_key-make_key, original_key-make_key,
}
use django_redis.Keys.Pattern.{Glob, magic, matches-make_pattern}
use django_redis.Tests.{backend}

backend-IsDefaultKeyFunc : IsDefaultKeyFunc backend
backend-IsDefaultKeyFunc key prefix version = refl

default_reverse_key-make_key_example :
    default_reverse_key (key_text (make_key backend (raw (codes "a:b")) none none))
    ≡ some (codes "a:b")
default_reverse_key-make_key_example =
    default_reverse_key-make_key backend (codes "a:b") none none backend-IsDefaultKeyFunc
      (unfold elem in refl)

original_key-make_key_example :
    (original_key (key_text (make_key backend (raw (codes "b")) none none)) ≡ some (codes "b"))
    × (original_key (key_text (make_key backend (raw (codes "a:b")) none none)) ≡ some (codes "b"))
original_key-make_key_example =
    original_key-make_key backend (codes "a") (codes "b") none none backend-IsDefaultKeyFunc
      (unfold elem in refl)

-- A matcher that knows brackets around one character, and no other special character.
unescape : Text → Text
unescape [] = []
unescape (c ∷ []) = c ∷ []
unescape (c ∷ d ∷ []) = c ∷ d ∷ []
unescape (c ∷ d ∷ e ∷ p) =
    let rest = unescape p in
    let later = unescape (d ∷ e ∷ p) in if c == b'[' && e == b']' then d ∷ rest else c ∷ later

unescape_literal : (c : ℕ) (p : Text) → elem c magic ≡ false → unescape (c ∷ p) ≡ c ∷ unescape p
unfolding unescape elem
unescape_literal c [] h = refl
unescape_literal c (d ∷ []) h = refl
unescape_literal c (d ∷ e ∷ p) h = ground arith

text_eq_cons :
    (c : ℕ) (u t : Text)
    → (text_eq (c ∷ u) t ≡ true) ↔ ((r : Text) × (t ≡ c ∷ r) × (text_eq u r ≡ true))
unfolding text_eq
text_eq_cons c u [] = (λ h. absurd (ground arith), λ (r, e, m). ground arith)
text_eq_cons c u (x ∷ t) = (λ h. (t, ground arith, ground arith), λ (r, e, m). ground arith)

abbrev glob : Glob
unfolding unescape
glob = record {
  matches = λ p t. text_eq (unescape p) t;
  literal = λ c p t h n. rw (unescape_literal c p h) (text_eq_cons c (unescape p) t);
  bracket = λ c p t h. text_eq_cons c (unescape p) t;
}

matches-make_pattern_example :
    (glob.matches (key_text (make_pattern backend (raw (codes "k")) none none)) (codes "app:1:k")
      ≡ true)
    ↔ ((key : Text) × (codes "app:1:k" ≡ key_text (make_key backend (raw key) none none))
        × (glob.matches (codes "k") key ≡ true))
matches-make_pattern_example =
    matches-make_pattern glob backend (codes "k") (codes "app:1:k") none none
      backend-IsDefaultKeyFunc (unfold elem in refl)
