-- ===== src/Client/Choice/Untried.antt =====
-- client/default.py: how the servers that `set` has not tried become fewer.
use django_redis.Prelude.{ℕ, ◌≤◌, ◌<◌, ◌≡◌, true, false, List, [], ◌∷◌, ◌++◌, arith, ◌==◌, length}
use django_redis.Python.Sorting.{elem, elem-append}
use django_redis.Client.{untried}

-- A tried server more leaves no more untried ones, and one less if it was untried.
pub untried-le :
    (i : ℕ) (tried xs : List ℕ) → length (untried (tried ++ i ∷ []) xs) ≤ length (untried tried xs)
unfolding untried
untried-le i tried [] = omega arith
untried-le i tried (x ∷ xs) = ground (arith, untried-le i tried xs, elem-append x tried (i ∷ []))

pub untried-lt :
    (i : ℕ) (tried xs : List ℕ)
    → elem i (untried tried xs) ≡ true
    → length (untried (tried ++ i ∷ []) xs) < length (untried tried xs)
unfolding untried elem
untried-lt i tried [] h = cc
untried-lt i tried (x ∷ xs) h =
    ground (arith, untried-lt i tried xs, untried-le i tried xs, elem-append x tried (i ∷ []))

pub length_pos : (g : ℕ) (xs : List ℕ) → elem g xs ≡ true → 0 < length xs
unfolding elem
length_pos g [] h = cc
length_pos g (x ∷ xs) h = omega arith

pub elem-snoc :
    (g i : ℕ) (tried : List ℕ)
    → elem g tried ≡ false
    → (i == g) ≡ false
    → elem g (tried ++ i ∷ []) ≡ false
unfolding elem
elem-snoc g i tried h other = ground (arith, elem-append g tried (i ∷ []))
