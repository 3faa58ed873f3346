-- ===== src/Python/Sorting.antt =====
-- `list.sort`, `bisect.bisect` and indexing with Python's negative indices, on lists of numbers.
use django_redis.Prelude.{
  ℕ, zero, suc, ◌+◌, ◌-◌, ◌≤◌, ◌<◌, ◌≡◌, refl, Bool, false, ◌||◌, Option, none, some, List, [], ◌∷◌,
  ◌++◌, arith, ltb, leb, ◌==◌, if◌then◌else◌, length, length-append, get_elem?, All, ℤ, pos, negsuc,
  Bool-cases, Option-cases, inl, inr,
}

unfoldable pub elem : ℕ → List ℕ → Bool
elem a [] = false
elem a (x ∷ xs) = a == x || elem a xs

unfoldable pub insert_sorted : ℕ → List ℕ → List ℕ
insert_sorted a [] = a ∷ []
insert_sorted a (x ∷ xs) = if leb a x then a ∷ x ∷ xs else x ∷ insert_sorted a xs

-- xs.sort()
unfoldable pub sort : List ℕ → List ℕ
sort [] = []
sort (x ∷ xs) = insert_sorted x (sort xs)

-- bisect.bisect(xs, a) on a sorted list: the number of leading elements that are not above `a`.
unfoldable pub bisect : List ℕ → ℕ → ℕ
bisect [] a = 0
bisect (x ∷ xs) a = if ltb a x then 0 else suc (bisect xs a)

-- xs[i]; a negative index counts from the end; `none` is an IndexError.
unfoldable pub get_item {ℓ} : {A : Type ℓ} → List A → ℤ → Option A
get_item xs (pos i) = get_elem? xs i
get_item xs (negsuc i) = if ltb i (length xs) then get_elem? xs (length xs - 1 - i) else none

-- xs.remove(a) removes the first occurrence; `none` is a ValueError.
unfoldable pub remove_first : ℕ → List ℕ → Option (List ℕ)
remove_first a [] = none
remove_first a (x ∷ xs) =
    if a == x then some xs else elim (remove_first a xs) [ none ↦ none | some ys ↦ some (x ∷ ys) ]

abbrev pub IsSorted : List ℕ → Type 0
IsSorted [] = Unit
IsSorted (x ∷ xs) = All (λ y. x ≤ y) xs × IsSorted xs

pub elem-append : (a : ℕ) (xs ys : List ℕ) → elem a (xs ++ ys) ≡ (elem a xs || elem a ys)
unfolding elem
elem-append a [] ys = refl
elem-append a (x ∷ xs) ys = ground (arith, elem-append a xs ys)

pub elem-insert_sorted :
    (a b : ℕ) (xs : List ℕ) → elem a (insert_sorted b xs) ≡ (a == b || elem a xs)
unfolding elem insert_sorted
elem-insert_sorted a b [] = refl
elem-insert_sorted a b (x ∷ xs) = ground (arith, elem-insert_sorted a b xs)

pub elem-sort : (a : ℕ) (xs : List ℕ) → elem a (sort xs) ≡ elem a xs
unfolding elem sort
elem-sort a [] = refl
elem-sort a (x ∷ xs) = ground (arith, elem-sort a xs, elem-insert_sorted a x (sort xs))

All-weaken : (a b : ℕ) (xs : List ℕ) → a ≤ b → All (λ y. b ≤ y) xs → All (λ y. a ≤ y) xs
All-weaken a b [] h k = tt
All-weaken a b (x ∷ xs) h k = (omega arith, All-weaken a b xs h k.1)

All-insert_sorted :
    (a b : ℕ) (xs : List ℕ) → a ≤ b → All (λ y. a ≤ y) xs → All (λ y. a ≤ y) (insert_sorted b xs)
unfolding insert_sorted
All-insert_sorted a b [] h k = (h, tt)
All-insert_sorted a b (x ∷ xs) h k = ground (arith, All-insert_sorted a b xs h k.1)

pub insert_sorted-IsSorted : (a : ℕ) (xs : List ℕ) → IsSorted xs → IsSorted (insert_sorted a xs)
unfolding insert_sorted
insert_sorted-IsSorted a [] s = (tt, tt)
insert_sorted-IsSorted a (x ∷ xs) s =
    ground (arith, All-weaken a x xs, All-insert_sorted x a xs, insert_sorted-IsSorted a xs s.1)

pub sort-IsSorted : (xs : List ℕ) → IsSorted (sort xs)
unfolding sort
sort-IsSorted [] = tt
sort-IsSorted (x ∷ xs) = insert_sorted-IsSorted x (sort xs) (sort-IsSorted xs)

length-insert_sorted : (a : ℕ) (xs : List ℕ) → length (insert_sorted a xs) ≡ suc (length xs)
unfolding insert_sorted
length-insert_sorted a [] = refl
length-insert_sorted a (x ∷ xs) = ground (arith, length-insert_sorted a xs)

pub length-sort : (xs : List ℕ) → length (sort xs) ≡ length xs
unfolding sort
length-sort [] = refl
length-sort (x ∷ xs) = omega (arith, length-sort xs, length-insert_sorted x (sort xs))

pub bisect-le-length : (xs : List ℕ) (a : ℕ) → bisect xs a ≤ length xs
unfolding bisect
bisect-le-length [] a = omega arith
bisect-le-length (x ∷ xs) a = ground (arith, bisect-le-length xs a)

-- range(n)
unfoldable pub range : ℕ → List ℕ
range zero = []
range (suc n) = range n ++ n ∷ []

pub length-range : (n : ℕ) → length (range n) ≡ n
unfolding range
length-range zero = refl
length-range (suc n) = omega (arith, length-range n, length-append (range n) (n ∷ []))

pub elem-range : (i n : ℕ) → elem i (range n) ≡ ltb i n
unfolding range elem
elem-range i zero = ground arith
elem-range i (suc n) = ground (arith, elem-range i n, elem-append i (range n) (n ∷ []))

-- How often a number occurs.
unfoldable pub count : ℕ → List ℕ → ℕ
count a [] = 0
count a (x ∷ xs) = (if a == x then 1 else 0) + count a xs

pub elem-count : (a : ℕ) (xs : List ℕ) → elem a xs ≡ ltb 0 (count a xs)
unfolding elem count
elem-count a [] = refl
elem-count a (x ∷ xs) = ground (arith, elem-count a xs)

pub count-append : (a : ℕ) (xs ys : List ℕ) → count a (xs ++ ys) ≡ count a xs + count a ys
unfolding count
count-append a [] ys = omega arith
count-append a (x ∷ xs) ys = omega (arith, count-append a xs ys)

count-insert_sorted :
    (a b : ℕ) (xs : List ℕ) → count a (insert_sorted b xs) ≡ (if a == b then 1 else 0) + count a xs
unfolding count insert_sorted
count-insert_sorted a b [] = refl
count-insert_sorted a b (x ∷ xs) = ground (arith, count-insert_sorted a b xs)

pub count-sort : (a : ℕ) (xs : List ℕ) → count a (sort xs) ≡ count a xs
unfolding count sort
count-sort a [] = refl
count-sort a (x ∷ xs) = ground (arith, count-sort a xs, count-insert_sorted a x (sort xs))

-- Removing a number that occurs takes one occurrence away, and keeps the order.
pub remove_first_lem :
    (h : ℕ) (xs : List ℕ)
    → 0 < count h xs
    → (ys : List ℕ) × (remove_first h xs ≡ some ys)
      × ((a : ℕ) → count a ys + (if a == h then 1 else 0) ≡ count a xs)
      × (length ys + 1 ≡ length xs)
unfolding count remove_first
remove_first_lem h [] e = absurd (omega arith)
remove_first_lem h (x ∷ xs) e = elim (Bool-cases (h == x)) [
  | inl here ↦ (xs, rw here, λ a. ground arith, omega arith)
  | inr later ↦
      let (ys, found, counts, len) = remove_first_lem h xs (ground arith) in
      (x ∷ ys, rw (later, found), λ a. omega (arith, counts a), omega arith)
]

All-remove_first :
    (b h : ℕ) (xs ys : List ℕ)
    → remove_first h xs ≡ some ys
    → All (λ y. b ≤ y) xs
    → All (λ y. b ≤ y) ys
unfolding remove_first
All-remove_first b h [] ys e k = cc
All-remove_first b h (x ∷ xs) ys e k = elim (Option-cases (remove_first h xs)) [
  | inl gone ↦ ground arith
  | inr (zs, found) ↦ ground (arith, All-remove_first b h xs zs found k.1)
]

pub remove_first-IsSorted :
    (h : ℕ) (xs ys : List ℕ) → remove_first h xs ≡ some ys → IsSorted xs → IsSorted ys
unfolding remove_first
remove_first-IsSorted h [] ys e s = cc
remove_first-IsSorted h (x ∷ xs) ys e s = elim (Option-cases (remove_first h xs)) [
  | inl gone ↦ ground arith
  | inr (zs, found) ↦
      ground (arith, All-remove_first x h xs zs found s.0, remove_first-IsSorted h xs zs found s.1)
]
