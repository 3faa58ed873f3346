-- ===== src/HashRing/Consistent.antt =====
-- hash_ring.py: which keys move when a node joins.
use django_redis.Prelude.{
  ℕ, ◌≡◌, ◌≢◌, ◌∙◌, ◌⊎◌, inl, inr, false, ◌||◌, some, List, [], arith, Text, Bool-cases, ap,
  if◌then◌else◌,
}
use django_redis.Python.Sorting.{range, elem, elem-sort}
use django_redis.Exec.{ok}
use django_redis.HashRing.{Owners, owner, Shared, add_points, add_node, get_node}
use django_redis.HashRing.Points.{
  IsValid, points_of, owner-add_points, elem-add_points, add_node-IsValid,
}
use django_redis.HashRing.Lookup.{Serves, Serves-unique, get_node-Serves, first_owner}

module _ (sha256 : Text → ℕ) (node : Text) (s : Shared) where
  -- The points that `add_node` brings.
  new_points : List ℕ
  new_points = points_of sha256 node (range s.self.replicas)

  owner-add_node :
      (p : ℕ)
      → owner p (add_node sha256 node s).self.ring
        ≡ (if elem p new_points then some node else owner p s.self.ring)
  unfolding add_node new_points
  owner-add_node p = owner-add_points sha256 node (range s.self.replicas) s.self p

  elem-add_node :
      (p : ℕ)
      → elem p (add_node sha256 node s).self.sorted_keys
        ≡ (elem p s.self.sorted_keys || elem p new_points)
  unfolding add_node new_points
  elem-add_node p =
      let xs = range s.self.replicas in
      elem-sort p (add_points sha256 node xs s.self).sorted_keys
      ∙ elem-add_points sha256 node xs s.self p

  -- A point that serves after a node joined, and is not one of the node's, served before.
  Serves-before :
      (h p : ℕ)
      → Serves h (add_node sha256 node s).self.sorted_keys p
      → elem p new_points ≡ false
      → Serves h s.self.sorted_keys p
  Serves-before h p t old = record {
    on_circle = ground (arith, elem-add_node p, t.on_circle);
    nearest = elim t.nearest [
      | inl (below, best) ↦ inl (below, λ q m k. best q (ground (arith, elem-add_node q)) k)
      | inr best ↦ inr (λ q m. best q (ground (arith, elem-add_node q)))
    ];
  }

  ring_nonempty : s.self.ring ≢ [] → (add_node sha256 node s).self.ring ≢ []
  ring_nonempty h e =
      let (q, n, owned) = first_owner s.self.ring h in
      unfold owner in ground (arith, owner-add_node q, ap (λ (r : Owners). owner q r) e)

  -- Adding a node to a valid, nonempty ring moves a key to the new node or leaves it where it was.
  pub get_node-add_node :
      (key : Text)
      → IsValid s
      → s.self.ring ≢ []
      → (get_node sha256 key (add_node sha256 node s) ≡ get_node sha256 key s)
        ⊎ (get_node sha256 key (add_node sha256 node s) ≡ ok (some node))
  get_node-add_node key v h =
      let v' = add_node-IsValid sha256 node s v in
      let (p, n, got, serves, owned) = get_node-Serves sha256 key s v h in
      let (p', n', got', serves', owned') =
        get_node-Serves sha256 key (add_node sha256 node s) v' (ring_nonempty h) in
      elim (Bool-cases (elem p' new_points)) [
        | inl new ↦ inr (ground (arith, owner-add_node p'))
        | inr old ↦ inl (
            let same = Serves-unique (Serves-before _ p' serves' old) serves in
            ground (arith, owner-add_node p', ap (λ (q : ℕ). owner q s.self.ring) same))
      ]
