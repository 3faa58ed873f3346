-- ===== src/Python/Decimal/Laws.antt =====
-- Facts on decimal notation: which characters it uses, and that `int` reads what `str` writes.
use django_redis.Prelude.{
  ℕ, zero, suc, ◌+◌, ◌-◌, ◌*◌, ◌/◌, ◌%◌, ◌<◌, ◌≡◌, ◌≢◌, refl, ◌∙◌, ap, ◌⊎◌, inl, inr, Bool, true,
  false, ◌&&◌, some, [], ◌∷◌, ◌++◌, arith, ltb, ◌==◌, Text, Bool-cases, ℤ, pos, negsuc,
}
use django_redis.Python.Sorting.{elem, elem-append}
use django_redis.Python.Decimal.{
  digits, str, is_digit, is_blank, lstrip, rstrip, strip, number, signed, int,
}

elem-digits : (c f n : ℕ) → (c < 48) ⊎ (57 < c) → elem c (digits f n) ≡ false
unfolding digits elem
elem-digits c zero n h = refl
elem-digits c (suc f) n h = elim (Bool-cases (ltb n 10)) [
  | inl small ↦ rw small (ground arith)
  | inr large ↦ rw large (
      elem-append c (digits f (n / 10)) ((48 + n % 10) ∷ [])
      ∙ ground (arith, elem-digits c f (n / 10) h))
]

-- A number is written with digits and a minus sign.
pub elem-str : (c : ℕ) (i : ℤ) → c ≢ 45 → (c < 48) ⊎ (57 < c) → elem c (str i) ≡ false
unfolding str elem
elem-str c (pos n) h k = elem-digits c (suc n) n k
elem-str c (negsuc n) h k = ground (arith, elem-digits c (suc (suc n)) (suc n) k)

number-append :
    (s : Text) (after : Bool) (acc n c : ℕ)
    → number after acc s ≡ some n
    → is_digit c ≡ true
    → number after acc (s ++ c ∷ []) ≡ some (n * 10 + (c - 48))
unfolding number
number-append [] after acc n c h d = ground arith
number-append (x ∷ s) after acc n c h d = elim (Bool-cases (is_digit x)) [
  | inl e ↦ rw e (number-append s true _ n c (rw e at h) d)
  | inr e ↦ elim (Bool-cases (x == b'_' && after)) [
    | inl u ↦ rw (e, u) (number-append s false acc n c (rw (e, u) at h) d)
    | inr u ↦ absurd (ground arith)
  ]
]

is_digit_add : (n : ℕ) → n < 10 → is_digit (48 + n) ≡ true
unfolding is_digit
is_digit_add n h = ground arith

number_digit : (n : ℕ) → n < 10 → number false 0 ((48 + n) ∷ []) ≡ some n
unfolding number is_digit
number_digit n h = ground arith

number-digits : (f n : ℕ) → n < f → number false 0 (digits f n) ≡ some n
unfolding digits
number-digits zero n h = elim h [ ]
number-digits (suc f) n h = elim (Bool-cases (ltb n 10)) [
  | inl small ↦ rw small (number_digit n (ground arith))
  | inr large ↦ rw large (
      number-append (digits f (n / 10)) false 0 (n / 10) (48 + n % 10)
        (number-digits f (n / 10) (ground arith)) (is_digit_add (n % 10) (omega arith))
      ∙ ap some (omega arith))
]

abbrev IsSolid : Text → Type 0
IsSolid [] = Unit
IsSolid (c ∷ s) = (is_blank c ≡ false) × IsSolid s

rstrip-IsSolid : (s : Text) → IsSolid s → rstrip s ≡ s
unfolding rstrip
rstrip-IsSolid [] h = refl
rstrip-IsSolid (c ∷ []) h = rw h.0
rstrip-IsSolid (c ∷ d ∷ s) h = rw (rstrip-IsSolid (d ∷ s) h.1, rstrip)

lstrip-IsSolid : (s : Text) → IsSolid s → lstrip s ≡ s
unfolding lstrip
lstrip-IsSolid [] h = refl
lstrip-IsSolid (c ∷ s) h = rw h.0

strip-IsSolid : (s : Text) → IsSolid s → strip s ≡ s
unfolding strip
strip-IsSolid s h = rw (lstrip-IsSolid s h) (rstrip-IsSolid s h)

IsSolid-append : (s t : Text) → IsSolid s → IsSolid t → IsSolid (s ++ t)
IsSolid-append [] t h k = k
IsSolid-append (c ∷ s) t h k = (h.0, IsSolid-append s t h.1 k)

is_blank_digit : (n : ℕ) → is_blank (48 + n) ≡ false
unfolding is_blank
is_blank_digit n = ground arith

digits-IsSolid : (f n : ℕ) → IsSolid (digits f n)
unfolding digits
digits-IsSolid zero n = tt
digits-IsSolid (suc f) n = elim (Bool-cases (ltb n 10)) [
  | inl small ↦ rw small (is_blank_digit n, tt)
  | inr large ↦ rw large (
      IsSolid-append (digits f (n / 10)) ((48 + n % 10) ∷ []) (digits-IsSolid f (n / 10))
        (is_blank_digit (n % 10), tt))
]

str-IsSolid : (i : ℤ) → IsSolid (str i)
unfolding str is_blank
str-IsSolid (pos n) = digits-IsSolid (suc n) n
str-IsSolid (negsuc n) = (refl, digits-IsSolid (suc (suc n)) (suc n))

-- The first character of a number is a digit, not a sign.
signed_digits :
    (s : Text) (n : ℕ)
    → elem b'-' s ≡ false
    → elem b'+' s ≡ false
    → number false 0 s ≡ some n
    → signed s ≡ some (pos n)
unfolding elem signed
signed_digits [] n h k e = unfold number in cc
signed_digits (c ∷ s) n h k e = ground (arith, e)

signed-str : (i : ℤ) → signed (str i) ≡ some i
unfolding str
signed-str (pos n) =
    signed_digits (digits (suc n) n) n (elem-digits b'-' (suc n) n (inl (omega arith)))
      (elem-digits b'+' (suc n) n (inl (omega arith))) (number-digits (suc n) n (omega arith))
signed-str (negsuc n) =
    unfold signed in rw (number-digits (suc (suc n)) (suc n) (omega arith), signed) (ground arith)

-- `int` reads back every integer that `str` writes.
pub int-str : (i : ℤ) → int (str i) ≡ some i
unfolding int
int-str i = rw (strip-IsSolid (str i) (str-IsSolid i)) (signed-str i)
