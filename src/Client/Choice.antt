-- ===== src/Client/Choice.antt =====
-- client/default.py: which server `get_next_client_index` chooses.
pub mod Untried
use django_redis.Prelude.{
  ℕ, zero, suc, ◌+◌, ◌-◌, ◌≤◌, ◌<◌, ◌≡◌, ◌≢◌, refl, ap, Bool, true, false, ◌&&◌, ◌||◌, List, [],
  ◌∷◌, arith, ◌==◌, ltb, leb, not, if◌then◌else◌, length, Bool-cases, ◌⊎◌, inl, inr,
}
use django_redis.Python.Sorting.{elem, range, count, length-range, elem-range, count-append}
use django_redis.Exec.{ok, pure}
use django_redis.Redis.{Driver, State, world}
use django_redis.Client.Choice.Untried.{length_pos}
use django_redis.Client.{Config, untried, servers_count, get_next_client_index}

-- What the documentation of `random` says of `choice` and `randint`.
pub record Random {W C P : Type 0} (d : Driver W C P) : Type 0 where
  pub choice_from : (xs : List ℕ) (w : W) → xs ≢ [] → elem (d.choice xs w).0 xs ≡ true
  pub randint_low : (a b : ℕ) (w : W) → a ≤ b → a ≤ (d.randint a b w).0
  pub randint_high : (a b : ℕ) (w : W) → a ≤ b → (d.randint a b w).0 ≤ b

pub elem-untried :
    (i : ℕ) (tried xs : List ℕ)
    → elem i (untried tried xs) ≡ (if elem i tried then false else elem i xs)
unfolding elem untried
elem-untried i tried [] = ground arith
elem-untried i tried (x ∷ xs) = elim (Bool-cases (i == x)) [
  | inl e ↦ let q : i ≡ x = ground arith in rw q (ground (arith, elem-untried x tried xs))
  | inr e ↦ ground (arith, elem-untried i tried xs)
]

untried-cons :
    (a : ℕ) (tried xs : List ℕ)
    → length (untried tried xs) ≤ length (untried (a ∷ tried) xs) + count a xs
unfolding elem untried count
untried-cons a tried [] = omega arith
untried-cons a tried (x ∷ xs) = ground (arith, untried-cons a tried xs)

pub untried-nil : (xs : List ℕ) → length (untried [] xs) ≡ length xs
unfolding elem untried
untried-nil [] = refl
untried-nil (x ∷ xs) = omega (arith, untried-nil xs)

count-range : (a n : ℕ) → (count a (range n) ≤ 1) × (n ≤ a → count a (range n) ≡ 0)
unfolding count range
count-range a zero = (omega arith, λ h. refl)
count-range a (suc n) =
    let (most, absent) = count-range a n in
    let split = count-append a (range n) (n ∷ []) in
    (ground (arith, absent, split), λ h. ground (arith, absent, split))

-- Fewer tried servers than servers leave one.
untried-left : (tried : List ℕ) (n : ℕ) → n ≤ length (untried tried (range n)) + length tried
untried-left [] n = omega (arith, untried-nil (range n), length-range n)
untried-left (a ∷ tried) n =
    omega (arith, untried-left tried n, untried-cons a tried (range n), (count-range a n).0)

-- The servers tried are in range and different, as the loop of `set` keeps them.
abbrev pub AreTried : ℕ → List ℕ → Type 0
AreTried n [] = Unit
AreTried n (a ∷ tried) = (a < n) × (elem a tried ≡ false) × AreTried n tried

untried_cons-le :
    (a : ℕ) (tried xs : List ℕ) → length (untried (a ∷ tried) xs) ≤ length (untried tried xs)
unfolding elem untried
untried_cons-le a tried [] = omega arith
untried_cons-le a tried (x ∷ xs) = ground (arith, untried_cons-le a tried xs)

untried_cons-lt :
    (a : ℕ) (tried xs : List ℕ)
    → elem a (untried tried xs) ≡ true
    → length (untried (a ∷ tried) xs) < length (untried tried xs)
unfolding elem untried
untried_cons-lt a tried [] h = cc
untried_cons-lt a tried (x ∷ xs) h =
    ground (arith, untried_cons-lt a tried xs, untried_cons-le a tried xs)

length-AreTried :
    (n : ℕ) (tried : List ℕ)
    → AreTried n tried
    → length tried + length (untried tried (range n)) ≤ n
length-AreTried n [] h = omega (arith, untried-nil (range n), length-range n)
length-AreTried n (a ∷ tried) h =
    let new : elem a (untried tried (range n)) ≡ true =
      ground (arith, h.0, h.1, elem-untried a tried (range n), elem-range a n) in
    omega (arith, length-AreTried n tried h.2, untried_cons-lt a tried (range n) new)

-- As many tried servers as there are leave none.
all_tried :
    (n : ℕ) (tried : List ℕ)
    → AreTried n tried
    → n ≤ length tried
    → (j : ℕ) → j < n
    → elem j tried ≡ true
all_tried n tried h full j bound = elim (Bool-cases (elem j tried)) [
  | inl e ↦ e
  | inr e ↦
      let new : elem j (untried tried (range n)) ≡ true =
        ground (arith, elem-untried j tried (range n), elem-range j n) in
      absurd (omega (arith, length-AreTried n tried h, length_pos j (untried tried (range n)) new))
]

module _ {W C P : Type 0} (d : Driver W C P) (k : Config) (random : Random d) where
  -- The choice where no server was tried, or all were.
  fresh_choice :
      (write : Bool) (s : State W C P)
      → 0 < servers_count d k
      → (i : ℕ) × (t : State W C P) × ((if write || servers_count d k == 1
              then pure 0
              else world (d.randint 1 (servers_count d k - 1)))
            s
          ≡ (ok i, t))
        × (i < servers_count d k)
        × (write ≡ true → i ≡ 0)
        × (write ≡ false → 1 < servers_count d k → 1 ≤ i)
  fresh_choice write s h = elim (Bool-cases (write || servers_count d k == 1)) [
    | inl e ↦ (0, s, rw e, h, λ _. refl, λ q l. absurd (ground arith))
    | inr e ↦
        let r = d.randint 1 (servers_count d k - 1) s.world in
        let low = random.randint_low 1 (servers_count d k - 1) s.world (ground arith) in
        let high = random.randint_high 1 (servers_count d k - 1) s.world (ground arith) in
        (r.0, record s { world = r.1 }, rw e, omega arith, λ q. absurd (ground arith), λ _ _. low)
  ]

  -- The choice of a retry.
  retry_choice :
      (tried : List ℕ) (s : State W C P)
      → length tried < servers_count d k
      → (elem (d.choice (untried tried (range (servers_count d k))) s.world).0 tried ≡ false)
        × ((d.choice (untried tried (range (servers_count d k))) s.world).0 < servers_count d k)
  retry_choice tried s h =
      let xs = untried tried (range (servers_count d k)) in
      let left : xs ≢ [] =
        λ e. omega (arith, untried-left tried (servers_count d k), ap length e) in
      let i = (d.choice xs s.world).0 in
      let chosen = random.choice_from xs s.world left in
      (
        ground (arith, chosen, elem-untried i tried (range (servers_count d k))),
        ground (
          arith,
          chosen,
          elem-untried i tried (range (servers_count d k)),
          elem-range i (servers_count d k),
        ),
      )

  due :
      (write : Bool) (i : ℕ)
      → 0 < servers_count d k
      → (write ≡ true → i ≡ 0)
      → (write ≡ false → 1 < servers_count d k → 1 ≤ i)
      → (if write then i == 0 else (servers_count d k == 1 || leb 1 i)) ≡ true
  due true i h first read = ground (arith, first refl)
  due false i h first read = elim (Bool-cases (servers_count d k == 1)) [
    | inl e ↦ rw e
    | inr e ↦ ground (arith, read refl)
  ]

  -- On a retry a server that was not tried; else, if none was tried or all were, the primary for a
  -- write, and for a read a replica, or the only server.
  abbrev pub Due : Bool → List ℕ → ℕ → Type 0
  Due write tried i =
      ((tried ≢ []) × (elem i tried ≡ false))
      ⊎ (((tried ≡ []) ⊎ ((j : ℕ) → j < servers_count d k → elem j tried ≡ true))
          × ((if write then i == 0 else (servers_count d k == 1 || leb 1 i)) ≡ true))

  -- With at least one server, and random numbers as documented, an index is chosen, and it is in
  -- range, where the servers tried are in range and different. On a retry it is a server that was
  -- not tried, unless all were; if all were, or none, it is the primary for a write, and for a read
  -- a replica if there is one.
  pub get_next_client_index_lem :
      (write : Bool) (tried : List ℕ) (s : State W C P)
      → 0 < servers_count d k
      → AreTried (servers_count d k) tried
      → (i : ℕ) × (t : State W C P) × (get_next_client_index d k write tried s ≡ (ok i, t))
        × (i < servers_count d k)
        × Due write tried i
  unfolding get_next_client_index
  get_next_client_index_lem write [] s h distinct =
      let (i, t, ran, bound, first, read) = fresh_choice write s h in
      (i, t, ran, bound, inr (inl refl, due write i h first read))
  get_next_client_index_lem write (a ∷ tried) s h distinct =
      elim (Bool-cases (ltb (length (a ∷ tried)) (servers_count d k))) [
        | inl left ↦
            let r = d.choice (untried (a ∷ tried) (range (servers_count d k))) s.world in
            let (new, bound) = retry_choice (a ∷ tried) s (ground arith) in
            (r.0, record s { world = r.1 }, rw left, bound, inl (λ q. cc, new))
        | inr all ↦
            let (i, t, ran, bound, first, read) = fresh_choice write s h in
            let full = all_tried (servers_count d k) (a ∷ tried) distinct (ground arith) in
            (i, t, rw all ran, bound, inr (inr full, due write i h first read))
      ]
