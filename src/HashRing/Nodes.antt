-- ===== src/HashRing/Nodes.antt =====
-- hash_ring.py: what `iter_nodes` yields.
use django_redis.Prelude.{
  ℕ, zero, suc, ◌*◌, ◌-◌, ◌≡◌, ◌≢◌, refl, sym, ◌∙◌, true, Option, none, some, List, [], ◌∷◌, arith,
  Text, length, get_elem?, drop, ℤ, pos, negsuc, inl, inr, Option-cases,
}
use django_redis.Python.Sorting.{elem, get_item, bisect}
use django_redis.Exec.{Result, ok, raise}
use django_redis.HashRing.{
  Owners, owner, Shared, node_at, get_node, get_node_pos, clamp, slice_from, owned_points,
  iter_nodes,
}
use django_redis.HashRing.Points.{IsValid, is_some}
use django_redis.HashRing.Lookup.{get_node-Serves}

drop-get_elem? :
    (i : ℕ) (xs : List ℕ) (p : ℕ) → get_elem? xs i ≡ some p → (ys : List ℕ) × (drop i xs ≡ p ∷ ys)
drop-get_elem? i [] p h = absurd (ground arith)
drop-get_elem? zero (x ∷ xs) p h = (xs, ground arith)
drop-get_elem? (suc i) (x ∷ xs) p h = drop-get_elem? i xs p h

-- A slice from a position begins with the item at the position.
slice_from-get_item :
    (i : ℤ) (xs : List ℕ) (p : ℕ)
    → get_item xs i ≡ some p
    → (ys : List ℕ) × (slice_from i xs ≡ p ∷ ys)
unfolding slice_from get_item
slice_from-get_item (pos i) xs p h = drop-get_elem? i xs p h
slice_from-get_item (negsuc i) xs p h = drop-get_elem? (length xs - 1 - i) xs p (ground arith)

elem-drop : (q i : ℕ) (xs : List ℕ) → elem q (drop i xs) ≡ true → elem q xs ≡ true
unfolding elem
elem-drop q zero xs h = h
elem-drop q (suc i) [] h = h
elem-drop q (suc i) (x ∷ xs) h = ground (arith, elem-drop q i xs)

owned_points_lem :
    (ring : Owners) (ps : List ℕ)
    → ((q : ℕ) → elem q ps ≡ true → is_some (owner q ring) ≡ true)
    → (rest : List (Option ℕ × Option Text)) × (owned_points ring ps ≡ ok rest)
unfolding owned_points elem
owned_points_lem ring [] h = ([], refl)
owned_points_lem ring (p ∷ ps) h =
    let (rest, e) = owned_points_lem ring ps (λ q m. h q (ground arith)) in
    elim (Option-cases (owner p ring)) [
      | inl missing ↦ absurd (ground (arith, h p))
      | inr (n, found) ↦ ((some p, some n) ∷ rest, rw (owned_points, found, e))
    ]

shown :
    {A : Type 0} (x : Result (Option (Text × A))) (n : Text)
    → (elim x [ raise e ↦ raise e | ok none ↦ ok none | ok (some (m, _)) ↦ ok (some m) ])
      ≡ ok (some n)
    → (i : A) × (x ≡ ok (some (n, i)))
shown (raise e) n h = absurd (ground arith)
shown (ok none) n h = absurd (ground arith)
shown (ok (some (m, i))) n h = (i, ground arith)

uncons : (r : Owners) → r ≢ [] → (e : ℕ × Text) × (t : Owners) × (r ≡ e ∷ t)
uncons [] h = absurd (h refl)
uncons (e ∷ t) h = (e, t, refl)

position_lem :
    (sha256 : Text → ℕ) (key : Text) (s : Shared) (n : Text) (i : ℤ) (q : ℕ) (m : Text) (r : Owners)
    → s.self.ring ≡ (q, m) ∷ r
    → get_node_pos sha256 key s ≡ ok (some (n, i))
    → (p : ℕ) × (get_item s.self.sorted_keys i ≡ some p) × (owner p s.self.ring ≡ some n)
unfolding get_node_pos node_at
position_lem sha256 key s n i q m r full h =
    let idx = clamp (bisect s.self.sorted_keys (sha256 key)) (s.self.replicas * length s.nodes) in
    elim (Option-cases (get_item s.self.sorted_keys idx)) [
      | inl missing ↦ absurd (ground (arith, h, full))
      | inr (p, item) ↦ elim (Option-cases (owner p s.self.ring)) [
        | inl missing ↦ absurd (ground (arith, h, full))
        | inr (n', owned) ↦ (p, ground (arith, h, full), ground (arith, h, full))
      ]
    ]

elem-slice_from : (q : ℕ) (i : ℤ) (xs : List ℕ) → elem q (slice_from i xs) ≡ true → elem q xs ≡ true
unfolding slice_from
elem-slice_from q (pos i) xs h = elem-drop q i xs h
elem-slice_from q (negsuc i) xs h = elem-drop q (length xs - 1 - i) xs h

owned_points_first :
    (ring : Owners) (p : ℕ) (ps : List ℕ) (n : Text)
    → ((q : ℕ) → elem q ps ≡ true → is_some (owner q ring) ≡ true)
    → owner p ring ≡ some n
    → (rest : List (Option ℕ × Option Text)) × (owned_points ring (p ∷ ps)
        ≡ ok ((some p, some n) ∷ rest))
unfolding owned_points
owned_points_first ring p ps n h owned =
    let (rest, e) = owned_points_lem ring ps h in (rest, rw (owned_points, owned, e))

iter_nodes_at :
    (sha256 : Text → ℕ) (key : Text) (s : Shared) (n : Text) (i : ℤ) (p : ℕ)
    → IsValid s
    → get_node_pos sha256 key s ≡ ok (some (n, i))
    → get_item s.self.sorted_keys i ≡ some p
    → owner p s.self.ring ≡ some n
    → (rest : List (Option ℕ × Option Text)) × (iter_nodes sha256 key s
        ≡ ok ((some p, some n) ∷ rest))
unfolding iter_nodes elem
iter_nodes_at sha256 key s n i p v at item owned =
    let (ys, cut) = slice_from-get_item i s.self.sorted_keys p item in
    let on_circle : (q : ℕ) → elem q ys ≡ true → is_some (owner q s.self.ring) ≡ true =
      λ q m. sym (v.agrees q) ∙ elem-slice_from q i s.self.sorted_keys (rw cut (ground arith)) in
    let (rest, e) = owned_points_first s.self.ring p ys n on_circle owned in
    (rest, rw (iter_nodes, at, cut, e))

-- On a valid ring with a point, the iteration raises nothing, and it begins with the node that
-- `get_node` answers, beside one of its points.
pub iter_nodes_lem :
    (sha256 : Text → ℕ) (key : Text) (s : Shared)
    → IsValid s
    → s.self.ring ≢ []
    → (p : ℕ) × (n : Text) × (rest : List (Option ℕ × Option Text)) × (iter_nodes sha256 key s
        ≡ ok ((some p, some n) ∷ rest))
      × (get_node sha256 key s ≡ ok (some n))
      × (owner p s.self.ring ≡ some n)
unfolding get_node
iter_nodes_lem sha256 key s v full =
    let (p', n, got, serves, owned') = get_node-Serves sha256 key s v full in
    let (i, at) = shown (get_node_pos sha256 key s) n got in
    let ((q, m), r, cons) = uncons s.self.ring full in
    let (p, item, owned) = position_lem sha256 key s n i q m r cons at in
    let (rest, e) = iter_nodes_at sha256 key s n i p v at item owned in (p, n, rest, e, got, owned)
