-- ===== src/Tests/Rings.antt =====
-- Tests of hash_ring.py.
use django_redis.Prelude.{
  ℕ, ◌≡◌, ◌≢◌, ◌⊎◌, refl, true, none, some, [], Text, codes, arith, Option, List, ◌∷◌,
}
use django_redis.Python.Sorting.{elem, range}
use django_redis.Python.Decimal.{str, digits}
use django_redis.Exec.{ok}
use django_redis.HashRing.{
  iter_nodes, Shared, owner, init, add_node, add_nodes, add_points, set_owner, point, get_node,
  remove_node,
}
use django_redis.HashRing.Points.{IsValid, init-IsValid, points_of}
use django_redis.HashRing.Lookup.{Serves, get_node-Serves}
use django_redis.HashRing.Nodes.{iter_nodes_lem}
use django_redis.HashRing.Consistent.{get_node-add_node}
use django_redis.HashRing.Removal.{IsFresh, get_node-remove_node}
use django_redis.Tests.{digest, names}

abbrev two_names : Shared
two_names = init digest [] names 2

two_names-nonempty : two_names.self.ring ≢ []
unfolding init add_nodes add_node add_points set_owner range point
two_names-nonempty h = ground arith

init-IsValid_example : IsValid two_names
init-IsValid_example = init-IsValid digest [] names 2

get_node-Serves_example :
    (p : ℕ) × (n : Text) × (get_node digest (codes "key") two_names ≡ ok (some n))
    × Serves (digest (codes "key")) two_names.self.sorted_keys p
    × (owner p two_names.self.ring ≡ some n)
get_node-Serves_example =
    get_node-Serves digest (codes "key") two_names (init-IsValid digest [] names 2)
      two_names-nonempty

get_node-add_node_example :
    (get_node digest (codes "key") (add_node digest (codes "c") two_names)
      ≡ get_node digest (codes "key") two_names)
    ⊎ (get_node digest (codes "key") (add_node digest (codes "c") two_names)
        ≡ ok (some (codes "c")))
get_node-add_node_example =
    get_node-add_node digest (codes "c") two_names (codes "key") (init-IsValid digest [] names 2)
      two_names-nonempty

two_names-IsFresh :
    IsFresh digest (codes "c") (points_of digest (codes "c") (range two_names.self.replicas))
unfolding init add_nodes add_node add_points set_owner range point points_of elem str digits
two_names-IsFresh = (refl, (refl, tt))

two_names-free :
    (p : ℕ)
    → elem p (points_of digest (codes "c") (range two_names.self.replicas)) ≡ true
    → owner p two_names.self.ring ≡ none
unfolding init add_nodes add_node add_points set_owner range point points_of elem owner str digits
two_names-free p h = ground arith

get_node-remove_node_example :
    (t : Shared) × (remove_node digest (codes "c") (add_node digest (codes "c") two_names)
      ≡ (ok tt, t))
    × IsValid t
    × ((key : Text) → get_node digest key t ≡ get_node digest key two_names)
get_node-remove_node_example =
    get_node-remove_node digest (codes "c") two_names (init-IsValid digest [] names 2)
      two_names-IsFresh two_names-free

iter_nodes_lem_example :
    (p : ℕ) × (n : Text) × (rest : List (Option ℕ × Option Text)) × (iter_nodes digest
        (codes "key")
        two_names
      ≡ ok ((some p, some n) ∷ rest))
    × (get_node digest (codes "key") two_names ≡ ok (some n))
    × (owner p two_names.self.ring ≡ some n)
iter_nodes_lem_example =
    iter_nodes_lem digest (codes "key") two_names (init-IsValid digest [] names 2)
      two_names-nonempty
