-- ===== src/HashRing/Lookup.antt =====
-- hash_ring.py: which node `get_node` returns.
use django_redis.Prelude.{
  ℕ, zero, suc, ◌*◌, ◌≤◌, ◌<◌, ◌≡◌, ◌≢◌, refl, sym, ◌∙◌, ap, ◌⊎◌, inl, inr, true, none, some, List,
  [], ◌∷◌, arith, Text, length, get_elem?, All,
}
use django_redis.Python.Sorting.{elem, IsSorted, bisect, get_item, bisect-le-length}
use django_redis.Exec.{ok}
use django_redis.HashRing.{Owners, owner, Shared, clamp, get_node}
use django_redis.HashRing.Points.{is_some, IsValid}

-- The point that serves a digest `h`: the greatest point that is not above it, or, below all
-- points, the greatest of all.
pub record Serves (h : ℕ) (points : List ℕ) (p : ℕ) : Type 0 where
  pub on_circle : elem p points ≡ true
  pub nearest :
      ((p ≤ h) × ((q : ℕ) → elem q points ≡ true → q ≤ h → q ≤ p))
      ⊎ ((q : ℕ) → elem q points ≡ true → (h < q) × (q ≤ p))

le_of_elem : (a q : ℕ) (xs : List ℕ) → All (λ y. a ≤ y) xs → elem q xs ≡ true → a ≤ q
unfolding elem
le_of_elem a q [] h e = cc
le_of_elem a q (x ∷ xs) h e = ground (arith, le_of_elem a q xs h.1)

above_all : (xs : List ℕ) (h q : ℕ) → IsSorted xs → bisect xs h ≡ 0 → elem q xs ≡ true → h < q
unfolding bisect elem
above_all [] h q s e m = cc
above_all (x ∷ xs) h q s e m = ground (arith, le_of_elem x q xs s.0)

elem-get_elem? : (xs : List ℕ) (i p : ℕ) → get_elem? xs i ≡ some p → elem p xs ≡ true
unfolding elem
elem-get_elem? [] i p e = cc
elem-get_elem? (x ∷ xs) zero p e = ground arith
elem-get_elem? (x ∷ xs) (suc i) p e = ground (arith, elem-get_elem? xs i p e)

-- The element before the place that `bisect` finds.
before_place :
    (xs : List ℕ) (h i : ℕ)
    → IsSorted xs
    → bisect xs h ≡ suc i
    → (p : ℕ) × (get_elem? xs i ≡ some p) × (p ≤ h) × ((q : ℕ) → elem q xs ≡ true → q ≤ h → q ≤ p)
unfolding bisect elem
before_place [] h i s e = absurd (omega arith)
before_place (x ∷ xs) h zero s e =
    (x, refl, ground arith, λ q m k. ground (arith, above_all xs h q s.1))
before_place (x ∷ xs) h (suc i) s e =
    let (p, found, below, best) = before_place xs h i s.1 (ground arith) in
    (
      p,
      found,
      below,
      λ q m k. ground (arith, best q, le_of_elem x p xs s.0 (elem-get_elem? xs i p found)),
    )

last_point :
    (x : ℕ) (xs : List ℕ)
    → IsSorted (x ∷ xs)
    → (p : ℕ) × (get_elem? (x ∷ xs) (length xs) ≡ some p)
      × ((q : ℕ) → elem q (x ∷ xs) ≡ true → q ≤ p)
unfolding elem
last_point x [] s = (x, refl, λ q m. ground arith)
last_point x (y ∷ xs) s =
    let (p, found, best) = last_point y xs s.1 in
    (
      p,
      found,
      λ q m. ground (
        arith,
        best q,
        le_of_elem x p (y ∷ xs) s.0 (elem-get_elem? (y ∷ xs) (length xs) p found),
      ),
    )

zero-or-suc : (n : ℕ) → (n ≡ 0) ⊎ ((i : ℕ) × (n ≡ suc i))
zero-or-suc zero = inl refl
zero-or-suc (suc i) = inr (i, refl)

-- The indexing of `get_node_pos`, negative index included, lands on the point that serves.
item-Serves :
    (x : ℕ) (xs : List ℕ) (h total : ℕ)
    → IsSorted (x ∷ xs)
    → length (x ∷ xs) ≤ total
    → (p : ℕ) × (get_item (x ∷ xs) (clamp (bisect (x ∷ xs) h) total) ≡ some p) × Serves h (x ∷ xs) p
item-Serves x xs h total s fits = elim (zero-or-suc (bisect (x ∷ xs) h)) [
  | inl e ↦
      let (p, found, best) = last_point x xs s in
      (
        p,
        unfold get_item clamp in ground (arith, e, found),
        record {
          on_circle = elem-get_elem? (x ∷ xs) (length xs) p found;
          nearest = inr (λ q m. (above_all (x ∷ xs) h q s e m, best q m));
        },
      )
  | inr (i, e) ↦
      let (p, found, below, best) = before_place (x ∷ xs) h i s e in
      (
        p,
        unfold get_item clamp in ground (arith, e, found, bisect-le-length (x ∷ xs) h),
        record { on_circle = elem-get_elem? (x ∷ xs) i p found; nearest = inl (below, best) },
      )
]

-- At most one point serves a digest.
pub Serves-unique :
    {h : ℕ} {points : List ℕ} {p q : ℕ} → Serves h points p → Serves h points q → p ≡ q
Serves-unique {p = p} {q = q} s t = grind (arith, s.nearest, t.nearest, s.on_circle, t.on_circle)

abbrev ring_of : List Text → ℕ → Owners → List ℕ → Shared
ring_of nodes replicas ring keys = record {
  nodes = nodes;
  self = record { replicas = replicas; ring = ring; sorted_keys = keys };
}

owner_of_elem :
    (p : ℕ) (r : Owners) → is_some (owner p r) ≡ true → (n : Text) × (owner p r ≡ some n)
owner_of_elem p r h = ground arith

get_node_lem :
    (sha256 : Text → ℕ) (key : Text) (nodes : List Text) (replicas : ℕ) (ring : Owners)
    (keys : List ℕ)
    → IsValid (ring_of nodes replicas ring keys)
    → ring ≢ []
    → (p : ℕ) × (n : Text) × (get_node sha256 key (ring_of nodes replicas ring keys) ≡ ok (some n))
      × Serves (sha256 key) keys p
      × (owner p ring ≡ some n)
unfolding get_node
get_node_lem sha256 key nodes replicas [] keys v h = absurd (h refl)
get_node_lem sha256 key nodes replicas ((q, m) ∷ r) [] v h =
    absurd (unfold elem owner in ground (arith, v.agrees q))
get_node_lem sha256 key nodes replicas ((q, m) ∷ r) (x ∷ xs) v h =
    let (p, found, best) =
      item-Serves x xs (sha256 key) (replicas * length nodes) v.ordered v.bounded in
    let (n, owned) = owner_of_elem p ((q, m) ∷ r) (sym (v.agrees p) ∙ best.on_circle) in
    (p, n, ground (arith, found, owned), best, owned)

-- A valid ring with a point answers every key, with the node that owns the point serving the key's
-- digest: no index is out of range and no point lacks its owner.
pub get_node-Serves :
    (sha256 : Text → ℕ) (key : Text) (s : Shared)
    → IsValid s
    → s.self.ring ≢ []
    → (p : ℕ) × (n : Text) × (get_node sha256 key s ≡ ok (some n))
      × Serves (sha256 key) s.self.sorted_keys p
      × (owner p s.self.ring ≡ some n)
get_node-Serves sha256 key s v h =
    get_node_lem sha256 key s.nodes s.self.replicas s.self.ring s.self.sorted_keys v h

pub first_owner : (r : Owners) → r ≢ [] → (q : ℕ) × (n : Text) × (owner q r ≡ some n)
unfolding owner
first_owner [] h = absurd (h refl)
first_owner ((q, n) ∷ r) h = (q, n, ground arith)

Serves-ext :
    {h : ℕ} {xs ys : List ℕ} {p : ℕ}
    → ((q : ℕ) → elem q ys ≡ elem q xs)
    → Serves h xs p
    → Serves h ys p
Serves-ext {p = p} same t = record {
  on_circle = same p ∙ t.on_circle;
  nearest = elim t.nearest [
    | inl (below, best) ↦ inl (below, λ q m k. best q (sym (same q) ∙ m) k)
    | inr best ↦ inr (λ q m. best q (sym (same q) ∙ m))
  ];
}

get_node-empty :
    (sha256 : Text → ℕ) (key : Text) (s : Shared)
    → s.self.ring ≡ []
    → get_node sha256 key s ≡ ok none
unfolding get_node
get_node-empty sha256 key s e = rw e

ring-cases : (r : Owners) → (r ≡ []) ⊎ (r ≢ [])
ring-cases [] = inl refl
ring-cases (e ∷ r) = inr (λ h. cc)

-- The answers of a valid ring depend on nothing but the owner of each point.
pub get_node-ext :
    (sha256 : Text → ℕ) (key : Text) (s t : Shared)
    → IsValid s
    → IsValid t
    → ((p : ℕ) → owner p t.self.ring ≡ owner p s.self.ring)
    → get_node sha256 key t ≡ get_node sha256 key s
get_node-ext sha256 key s t v w same =
    let same_points : (q : ℕ) → elem q t.self.sorted_keys ≡ elem q s.self.sorted_keys =
      λ q. w.agrees q ∙ ap is_some (same q) ∙ sym (v.agrees q) in
    elim (ring-cases s.self.ring) [
      | inl e ↦ elim (ring-cases t.self.ring) [
        | inl e' ↦ get_node-empty sha256 key t e' ∙ sym (get_node-empty sha256 key s e)
        | inr h' ↦
            let (q, n, owned) = first_owner t.self.ring h' in
            absurd (unfold owner in ground (arith, same q, ap (λ (r : Owners). owner q r) e))
      ]
      | inr h ↦ elim (ring-cases t.self.ring) [
        | inl e' ↦
            let (q, n, owned) = first_owner s.self.ring h in
            absurd (unfold owner in ground (arith, same q, ap (λ (r : Owners). owner q r) e'))
        | inr h' ↦
            let (p, n, got, serves, owned) = get_node-Serves sha256 key s v h in
            let (p', n', got', serves', owned') = get_node-Serves sha256 key t w h' in
            let e : p' ≡ p = Serves-unique (Serves-ext (λ q. sym (same_points q)) serves') serves in
            ground (arith, same p, ap (λ (q : ℕ). owner q t.self.ring) e)
      ]
    ]
