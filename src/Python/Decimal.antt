-- ===== src/Python/Decimal.antt =====
-- `str(i)` and `int(text)` on integers: Python's decimal notation, with the blanks, the sign and the
-- underscores that `int` accepts. Integers longer than Python's digit limit (4300) are not treated
-- apart.
pub mod Laws
use django_redis.Prelude.{
  ℕ, zero, suc, ◌+◌, ◌-◌, ◌*◌, ◌/◌, ◌%◌, ◌<◌, ◌≡◌, refl, sym, ◌∙◌, Bool, true, false, not, ◌&&◌,
  ◌||◌, Option, none, some, List, [], ◌∷◌, ◌++◌, reverse, arith, ltb, leb, ◌==◌, if◌then◌else◌,
  Text, Bool-cases, inl, inr, ℤ, pos, negsuc, neg, ap,
}

-- The digits of `n`, most significant first, by fuel.
unfoldable pub digits : ℕ → ℕ → Text
digits zero n = []
digits (suc f) n =
    let rest = digits f (n / 10) in if ltb n 10 then (48 + n) ∷ [] else rest ++ (48 + n % 10) ∷ []

-- str(i)
unfoldable pub str : ℤ → Text
unfolding digits
str (pos n) = digits (suc n) n
str (negsuc n) = b'-' ∷ digits (suc (suc n)) (suc n)

unfoldable pub is_digit : ℕ → Bool
is_digit c = leb b'0' c && leb c b'9'

-- The blanks that `int` strips from bytes.
unfoldable pub is_blank : ℕ → Bool
is_blank c = c == 32 || (leb 9 c && leb c 13)

unfoldable pub lstrip : Text → Text
unfolding is_blank
lstrip [] = []
lstrip (c ∷ s) = let rest = lstrip s in if is_blank c then rest else c ∷ s

unfoldable pub rstrip : Text → Text
unfolding is_blank
rstrip [] = []
rstrip (c ∷ s) = elim (rstrip s) [ [] ↦ if is_blank c then [] else c ∷ [] | d ∷ r ↦ c ∷ d ∷ r ]

unfoldable pub strip : Text → Text
unfolding lstrip rstrip
strip s = rstrip (lstrip s)

-- Digits, with single underscores between them; `after` tells whether a digit stands just before.
unfoldable pub number : Bool → ℕ → Text → Option ℕ
unfolding is_digit
number after acc [] = if after then some acc else none
number after acc (c ∷ s) =
    let next = number true (acc * 10 + (c - 48)) s in
    let skip = number false acc s in
    if is_digit c then next else if c == b'_' && after then skip else none

unfoldable pub signed : Text → Option ℤ
unfolding number
signed [] = none
signed (c ∷ s) =
    if c == b'-'
    then elim (number false 0 s) [ none ↦ none | some n ↦ some (neg (pos n)) ]
    else elim (if c == b'+' then number false 0 s else number false 0 (c ∷ s)) [
      | none ↦ none
      | some n ↦ some (pos n)
    ]

-- int(text); `none` is a ValueError.
unfoldable pub int : Text → Option ℤ
unfolding strip signed
int s = signed (strip s)
