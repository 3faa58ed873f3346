-- ===== src/HashRing.antt =====
-- django_redis/hash_ring.py. A sha256 digest is the number that its 64 hex digits write: such texts
-- compare as these numbers do. `nodes` is a class attribute, so one list is shared by all rings of
-- the process; it is threaded beside the ring whose method runs.
pub mod Points
pub mod Lookup
pub mod Consistent
pub mod Removal
pub mod Nodes
use django_redis.Prelude.{
  ℕ, zero, suc, ◌+◌, ◌-◌, ◌*◌, Bool, Option, none, some, List, [], ◌∷◌, ◌++◌, arith, ltb, leb, ◌==◌,
  if◌then◌else◌, Text, text_eq, length, drop, ℤ, pos, negsuc, sub_ℕ,
}
use django_redis.Python.Sorting.{range, sort, bisect, get_item, remove_first}
use django_redis.Python.Decimal.{str}
use django_redis.Exec.{
  M, Result, ok, raise, key_error, index_error, value_error, ◌>>=◌, ◌>>◌, pure, throw, gets,
  for_each,
}

-- `self.ring`: the owner of each point of the circle.
abbrev pub Owners : Type 0
Owners = List (ℕ × Text)

unfoldable pub owner : ℕ → Owners → Option Text
owner h [] = none
owner h ((p, n) ∷ r) = if p == h then some n else owner h r

unfoldable pub set_owner : ℕ → Text → Owners → Owners
set_owner h n [] = (h, n) ∷ []
set_owner h n ((p, m) ∷ r) = if p == h then (p, n) ∷ r else (p, m) ∷ set_owner h n r

unfoldable pub del_owner : ℕ → Owners → Owners
del_owner h [] = []
del_owner h ((p, m) ∷ r) = let rest = del_owner h r in if p == h then rest else (p, m) ∷ rest

pub record HashRing : Type 0 where
  pub replicas : ℕ
  pub ring : Owners
  pub sorted_keys : List ℕ

-- A ring beside the class attribute.
pub record Shared : Type 0 where
  pub nodes : List Text
  pub self : HashRing

-- self.nodes.remove(node)
unfoldable pub remove_name : Text → List Text → Option (List Text)
remove_name n [] = none
remove_name n (m ∷ ms) =
    if text_eq m n then some ms else elim (remove_name n ms) [ none ↦ none | some r ↦ some (m ∷ r) ]

-- min(idx - 1, replicas * len(nodes) - 1), over Python's integers.
unfoldable pub clamp : ℕ → ℕ → ℤ
clamp idx total = if leb idx total then sub_ℕ idx 1 else sub_ℕ total 1

-- The owner under a digest; the lookups that fail are an IndexError and a KeyError.
unfoldable pub node_at : Shared → ℤ → Result Text
unfolding get_item owner
node_at s idx = elim (get_item s.self.sorted_keys idx) [
  | none ↦ raise index_error
  | some p ↦ elim (owner p s.self.ring) [ none ↦ raise key_error | some n ↦ ok n ]
]

module _ (sha256 : Text → ℕ) where
  -- The point of a node's replica: the digest of f"{node}:{x}".
  unfoldable pub point : Text → ℕ → ℕ
  point node x = sha256 (node ++ b':' ∷ str (pos x))

  -- The body of the loop of `add_node`, over the replicas.
  unfoldable pub add_points : Text → List ℕ → HashRing → HashRing
  unfolding set_owner
  add_points node [] r = r
  add_points node (x ∷ xs) r = add_points node xs (record r {
    ring = set_owner (point node x) node r.ring;
    sorted_keys = r.sorted_keys ++ point node x ∷ [];
  })

  unfoldable pub add_node : Text → Shared → Shared
  unfolding add_points range
  add_node node s =
      let r = add_points node (range s.self.replicas) s.self in
      record { nodes = s.nodes ++ node ∷ []; self = record r { sorted_keys = sort r.sorted_keys } }

  -- __init__
  unfoldable pub add_nodes : List Text → Shared → Shared
  unfolding add_node
  add_nodes [] s = s
  add_nodes (n ∷ ns) s = add_nodes ns (add_node n s)

  unfoldable pub init : List Text → List Text → ℕ → Shared
  unfolding add_nodes
  init shared nodes replicas = add_nodes nodes (record {
    nodes = shared;
    self = record { replicas = replicas; ring = []; sorted_keys = [] };
  })

  -- The body of the loop of `remove_node`.
  unfoldable pub remove_point : Text → ℕ → M Shared Unit
  unfolding owner del_owner remove_first
  remove_point node x s =
      let h = point node x in
      let r = s.self in
      let cut = record r { ring = del_owner h r.ring } in
      elim (owner h r.ring) [
        | none ↦ (raise key_error, s)
        | some _ ↦ elim (remove_first h r.sorted_keys) [
          | none ↦ (raise value_error, record s { self = cut })
          | some keys ↦ (ok tt, record s { self = record cut { sorted_keys = keys } })
        ]
      ]

  unfoldable pub remove_node : Text → M Shared Unit
  unfolding remove_name remove_point range for_each
  remove_node node s = elim (remove_name node s.nodes) [
    | none ↦ (raise value_error, s)
    | some ms ↦ for_each (remove_point node) (range s.self.replicas) (record s { nodes = ms })
  ]

  unfoldable pub get_node_pos : Text → Shared → Result (Option (Text × ℤ))
  unfolding clamp bisect node_at
  get_node_pos key s =
      let idx = clamp (bisect s.self.sorted_keys (sha256 key)) (s.self.replicas * length s.nodes) in
      elim s.self.ring [
        | [] ↦ ok none
        | _ ∷ _ ↦ elim (node_at s idx) [ raise e ↦ raise e | ok n ↦ ok (some (n, idx)) ]
      ]

  unfoldable pub get_node : Text → Shared → Result (Option Text)
  unfolding get_node_pos
  get_node key s = elim (get_node_pos key s) [
    | raise e ↦ raise e
    | ok none ↦ ok none
    | ok (some (n, _)) ↦ ok (some n)
  ]

-- xs[i:]
unfoldable pub slice_from : ℤ → List ℕ → List ℕ
slice_from (pos i) xs = drop i xs
slice_from (negsuc i) xs = drop (length xs - 1 - i) xs

-- The loop of `iter_nodes`.
unfoldable pub owned_points : Owners → List ℕ → Result (List (Option ℕ × Option Text))
unfolding owner
owned_points ring [] = ok []
owned_points ring (p ∷ ps) = elim (owner p ring) [
  | none ↦ raise key_error
  | some n ↦ elim (owned_points ring ps) [
    | raise e ↦ raise e
    | ok rest ↦ ok ((some p, some n) ∷ rest)
  ]
]

-- What the generator yields, or the exception that ends it. Where the ring is empty, `pos` is None, and
-- the slice is the whole list.
unfoldable pub iter_nodes : (Text → ℕ) → Text → Shared → Result (List (Option ℕ × Option Text))
unfolding get_node_pos slice_from owned_points
iter_nodes sha256 key s = elim (get_node_pos sha256 key s) [
  | raise e ↦ raise e
  | ok none ↦ elim (owned_points s.self.ring s.self.sorted_keys) [
    | raise e ↦ raise e
    | ok rest ↦ ok ((none, none) ∷ rest)
  ]
  | ok (some (_, i)) ↦ owned_points s.self.ring (slice_from i s.self.sorted_keys)
]

unfoldable pub __call__ : (Text → ℕ) → Text → Shared → Result (Option Text)
unfolding get_node
__call__ sha256 key s = get_node sha256 key s
