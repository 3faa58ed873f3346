-- ===== src/HashRing/Points.antt =====
-- hash_ring.py: the invariant of a ring, and that adding nodes keeps it.
use django_redis.Prelude.{
  ℕ, ◌+◌, ◌*◌, ◌≤◌, ◌≡◌, refl, Bool, true, false, ◌||◌, Option, none, some, List, [], ◌∷◌, ◌++◌,
  arith, ◌==◌, if◌then◌else◌, Text, length, length-append,
}
use django_redis.Python.Sorting.{
  range, length-range, elem, IsSorted, elem-append, count, count-append, elem-sort, sort-IsSorted,
  length-sort,
}
use django_redis.HashRing.{
  Owners, owner, set_owner, HashRing, Shared, point, add_points, add_node, add_nodes, init,
}

abbrev pub is_some {ℓ} : {A : Type ℓ} → Option A → Bool
is_some none = false
is_some (some a) = true

-- The points are in order, each has an owner and each owner a point, and there are at most
-- `replicas` of them for each name on the shared list.
pub record IsValid (s : Shared) : Type 0 where
  pub ordered : IsSorted s.self.sorted_keys
  pub agrees : (p : ℕ) → elem p s.self.sorted_keys ≡ is_some (owner p s.self.ring)
  pub bounded : length s.self.sorted_keys ≤ s.self.replicas * length s.nodes

owner-set_owner :
    (p h : ℕ) (n : Text) (r : Owners)
    → owner p (set_owner h n r) ≡ (if h == p then some n else owner p r)
unfolding owner set_owner
owner-set_owner p h n [] = refl
owner-set_owner p h n ((q, m) ∷ r) = ground (arith, owner-set_owner p h n r)

module _ (sha256 : Text → ℕ) where
  -- The points that the loop adds.
  unfoldable pub points_of : Text → List ℕ → List ℕ
  points_of node [] = []
  points_of node (x ∷ xs) = point sha256 node x ∷ points_of node xs

  -- After the loop exactly the new points belong to the node, and all others keep their owner.
  pub owner-add_points :
      (node : Text) (xs : List ℕ) (r : HashRing) (p : ℕ)
      → owner p (add_points sha256 node xs r).ring
        ≡ (if elem p (points_of node xs) then some node else owner p r.ring)
  unfolding add_points points_of elem
  owner-add_points node [] r p = refl
  owner-add_points node (x ∷ xs) r p =
      let r' : HashRing = record r {
        ring = set_owner (point sha256 node x) node r.ring;
        sorted_keys = r.sorted_keys ++ point sha256 node x ∷ [];
      } in
      ground
        (arith, owner-add_points node xs r' p, owner-set_owner p (point sha256 node x) node r.ring)

  pub elem-add_points :
      (node : Text) (xs : List ℕ) (r : HashRing) (p : ℕ)
      → elem p (add_points sha256 node xs r).sorted_keys
        ≡ (elem p r.sorted_keys || elem p (points_of node xs))
  unfolding add_points points_of elem
  elem-add_points node [] r p = ground arith
  elem-add_points node (x ∷ xs) r p =
      let h = point sha256 node x in
      let r' : HashRing = record r {
        ring = set_owner h node r.ring;
        sorted_keys = r.sorted_keys ++ h ∷ [];
      } in
      ground (arith, elem-add_points node xs r' p, elem-append p r.sorted_keys (h ∷ []))

  pub replicas-add_points :
      (node : Text) (xs : List ℕ) (r : HashRing)
      → (add_points sha256 node xs r).replicas ≡ r.replicas
  unfolding add_points
  replicas-add_points node [] r = refl
  replicas-add_points node (x ∷ xs) r = replicas-add_points node xs _

  pub length-add_points :
      (node : Text) (xs : List ℕ) (r : HashRing)
      → length (add_points sha256 node xs r).sorted_keys ≡ length r.sorted_keys + length xs
  unfolding add_points
  length-add_points node [] r = omega arith
  length-add_points node (x ∷ xs) r =
      let h = point sha256 node x in
      let r' : HashRing = record r {
        ring = set_owner h node r.ring;
        sorted_keys = r.sorted_keys ++ h ∷ [];
      } in
      omega (arith, length-add_points node xs r', length-append r.sorted_keys (h ∷ []))

  pub count-add_points :
      (node : Text) (xs : List ℕ) (r : HashRing) (p : ℕ)
      → count p (add_points sha256 node xs r).sorted_keys
        ≡ count p r.sorted_keys + count p (points_of node xs)
  unfolding add_points points_of count
  count-add_points node [] r p = omega arith
  count-add_points node (x ∷ xs) r p =
      let h = point sha256 node x in
      let r' : HashRing = record r {
        ring = set_owner h node r.ring;
        sorted_keys = r.sorted_keys ++ h ∷ [];
      } in
      omega (arith, count-add_points node xs r' p, count-append p r.sorted_keys (h ∷ []))

  pub add_node-IsValid : (node : Text) (s : Shared) → IsValid s → IsValid (add_node sha256 node s)
  unfolding add_node
  add_node-IsValid node s v =
      let xs = range s.self.replicas in
      let r = add_points sha256 node xs s.self in
      record {
        ordered = sort-IsSorted r.sorted_keys;
        agrees = λ p. ground (
          arith,
          elem-sort p r.sorted_keys,
          elem-add_points node xs s.self p,
          owner-add_points node xs s.self p,
          v.agrees p,
        );
        bounded = grind (
          arith,
          v.bounded,
          length-sort r.sorted_keys,
          length-add_points node xs s.self,
          replicas-add_points node xs s.self,
          length-range s.self.replicas,
          length-append s.nodes (node ∷ []),
        );
      }

  add_nodes-IsValid :
      (nodes : List Text) (s : Shared) → IsValid s → IsValid (add_nodes sha256 nodes s)
  unfolding add_nodes
  add_nodes-IsValid [] s v = v
  add_nodes-IsValid (n ∷ ns) s v = add_nodes-IsValid ns _ (add_node-IsValid n s v)

  -- A ring that the constructor builds meets the invariant, whatever other rings of the process have
  -- put on the shared list before.
  pub init-IsValid :
      (shared nodes : List Text) (replicas : ℕ) → IsValid (init sha256 shared nodes replicas)
  unfolding init
  init-IsValid shared nodes replicas =
      add_nodes-IsValid nodes _
        (record { ordered = tt; agrees = λ p. unfold elem owner in refl; bounded = omega arith })
