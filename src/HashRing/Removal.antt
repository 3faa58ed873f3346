-- ===== src/HashRing/Removal.antt =====
-- hash_ring.py: `remove_node` undoes `add_node`.
use django_redis.Prelude.{
  ℕ, ◌+◌, ◌*◌, ◌≤◌, ◌≡◌, refl, sym, ◌∙◌, inl, inr, true, false, none, some, List, [], ◌∷◌, ◌++◌,
  arith, ◌==◌, if◌then◌else◌, Text, text_eq, text_eq_refl, length, length-append, Bool-cases, ap,
}
use django_redis.Python.Sorting.{
  range, elem, IsSorted, count, elem-count, count-sort, sort, sort-IsSorted, length-sort,
  remove_first, remove_first_lem, remove_first-IsSorted,
}
use django_redis.Exec.{ok, for_each}
use django_redis.HashRing.{
  Owners, owner, del_owner, Shared, point, add_points, add_node, remove_name, remove_point,
  remove_node, get_node,
}
use django_redis.HashRing.Points.{
  IsValid, points_of, owner-add_points, count-add_points, replicas-add_points, length-add_points,
}
use django_redis.HashRing.Lookup.{get_node-ext}

owner-del_owner :
    (p h : ℕ) (r : Owners) → owner p (del_owner h r) ≡ (if h == p then none else owner p r)
unfolding owner del_owner
owner-del_owner p h [] = ground arith
owner-del_owner p h ((q, m) ∷ r) = ground (arith, owner-del_owner p h r)

remove_name-append :
    (n : Text) (ms : List Text)
    → (r : List Text) × (remove_name n (ms ++ n ∷ []) ≡ some r) × (length r ≡ length ms)
unfolding remove_name
remove_name-append n [] = ([], rw (text_eq_refl n), refl)
remove_name-append n (m ∷ ms) = elim (Bool-cases (text_eq m n)) [
  | inl here ↦ (ms ++ n ∷ [], rw here, omega (arith, length-append ms (n ∷ [])))
  | inr later ↦
      let (r, found, len) = remove_name-append n ms in (m ∷ r, rw (later, found), omega arith)
]

module _ (sha256 : Text → ℕ) (node : Text) where
  -- No point comes twice.
  abbrev pub IsFresh : List ℕ → Type 0
  IsFresh [] = Unit
  IsFresh (p ∷ ps) = (elem p ps ≡ false) × IsFresh ps

  abbrev without : ℕ → List ℕ → Shared → Shared
  without x ys s = record s {
    self = record s.self { ring = del_owner (point sha256 node x) s.self.ring; sorted_keys = ys };
  }

  -- What removing the points of a list of replicas leaves of a state.
  record Cut (xs : List ℕ) (s t : Shared) : Type 0 where
    same_names : t.nodes ≡ s.nodes
    same_replicas : t.self.replicas ≡ s.self.replicas
    ordered : IsSorted t.self.sorted_keys
    counts :
        (p : ℕ)
        → count p t.self.sorted_keys + count p (points_of sha256 node xs)
          ≡ count p s.self.sorted_keys
    owners :
        (p : ℕ)
        → owner p t.self.ring
          ≡ (if elem p (points_of sha256 node xs) then none else owner p s.self.ring)
    size : length t.self.sorted_keys + length xs ≡ length s.self.sorted_keys

  -- One turn of the loop, at a point that is there.
  remove_point_lem :
      (x : ℕ) (s : Shared) (n : Text) (ys : List ℕ)
      → owner (point sha256 node x) s.self.ring ≡ some n
      → remove_first (point sha256 node x) s.self.sorted_keys ≡ some ys
      → remove_point sha256 node x s ≡ (ok tt, without x ys s)
  unfolding remove_point
  remove_point_lem x s n ys here found = ground (arith, here, found)

  remove_points :
      (xs : List ℕ) (s : Shared)
      → IsSorted s.self.sorted_keys
      → IsFresh (points_of sha256 node xs)
      → ((p : ℕ) → count p (points_of sha256 node xs) ≤ count p s.self.sorted_keys)
      → ((p : ℕ)
          → elem p (points_of sha256 node xs) ≡ true
          → (n : Text) × (owner p s.self.ring ≡ some n))
      → (t : Shared) × (for_each (remove_point sha256 node) xs s ≡ (ok tt, t)) × Cut xs s t
  unfolding for_each points_of count elem
  remove_points [] s sorted fresh enough owned = (
    s,
    refl,
    record {
      same_names = refl;
      same_replicas = refl;
      ordered = sorted;
      counts = λ p. omega arith;
      owners = λ p. refl;
      size = omega arith;
    },
  )
  remove_points (x ∷ xs) s sorted fresh enough owned =
      let h = point sha256 node x in
      let (n, here) = owned h (ground arith) in
      let (ys, found, counts, len) =
        remove_first_lem h s.self.sorted_keys (ground (arith, enough h)) in
      let s' = without x ys s in
      let (t, ran, cut) =
        remove_points xs s' (remove_first-IsSorted h s.self.sorted_keys ys found sorted) fresh.1
          (λ p. ground (arith, enough p, counts p))
          (λ p m. ground (arith, owned p, owner-del_owner p h s.self.ring, fresh.0)) in
      (
        t,
        rw (remove_point_lem x s n ys here found) ran,
        record {
          same_names = cut.same_names;
          same_replicas = cut.same_replicas;
          ordered = cut.ordered;
          counts = λ p. ground (arith, cut.counts p, counts p);
          owners = λ p. ground (arith, cut.owners p, owner-del_owner p h s.self.ring);
          size = omega (arith, cut.size);
        },
      )

  remove_node_lem :
      (s : Shared) (names : List Text) (xs : List ℕ) (t : Shared)
      → remove_name node s.nodes ≡ some names
      → xs ≡ range s.self.replicas
      → for_each (remove_point sha256 node) xs (record s { nodes = names }) ≡ (ok tt, t)
      → remove_node sha256 node s ≡ (ok tt, t)
  unfolding remove_node
  remove_node_lem s names xs t found same ran = rw (found, remove_node) (rw (← same) ran)

  -- The arithmetic of the bound on the number of points.
  bound_kept :
      (now added before most replicas replicas' names names' : ℕ)
      → now + added ≡ most
      → most ≡ before + added
      → replicas' ≡ replicas
      → names' ≡ names
      → before ≤ replicas * names
      → now ≤ replicas' * names'
  bound_kept now added before most replicas replicas' names names' a b c d h =
      rw (c, d) (omega arith)

  -- Removing a node right after it was added succeeds and leaves a ring that answers every key as
  -- before, if its points are pairwise different and none of them was on the circle.
  pub get_node-remove_node :
      (s : Shared)
      → IsValid s
      → IsFresh (points_of sha256 node (range s.self.replicas))
      → ((p : ℕ)
          → elem p (points_of sha256 node (range s.self.replicas)) ≡ true
          → owner p s.self.ring ≡ none)
      → (t : Shared) × (remove_node sha256 node (add_node sha256 node s) ≡ (ok tt, t))
        × IsValid t
        × ((key : Text) → get_node sha256 key t ≡ get_node sha256 key s)
  unfolding add_node
  get_node-remove_node s v fresh new =
      let xs = range s.self.replicas in
      let pts = points_of sha256 node xs in
      let r = add_points sha256 node xs s.self in
      let (names, found, len) = remove_name-append node s.nodes in
      let s' : Shared = record {
        nodes = names;
        self = record r { sorted_keys = sort r.sorted_keys };
      } in
      let counted =
        λ (p : ℕ). count-sort p r.sorted_keys ∙ count-add_points sha256 node xs s.self p in
      let (t, ran, cut) =
        remove_points xs s' (sort-IsSorted r.sorted_keys) fresh (λ p. omega (arith, counted p))
          (λ p m. (node, ground (arith, owner-add_points sha256 node xs s.self p))) in
      let owners : (p : ℕ) → owner p t.self.ring ≡ owner p s.self.ring =
        λ p. ground (arith, cut.owners p, owner-add_points sha256 node xs s.self p, new p) in
      let w : IsValid t = record {
        ordered = cut.ordered;
        agrees = λ p. ground (
          arith,
          owners p,
          v.agrees p,
          cut.counts p,
          counted p,
          elem-count p t.self.sorted_keys,
          elem-count p s.self.sorted_keys,
        );
        bounded =
            bound_kept _ (length xs) (length s.self.sorted_keys) _ s.self.replicas _
              (length s.nodes) _ cut.size
              (length-sort r.sorted_keys ∙ length-add_points sha256 node xs s.self)
              (cut.same_replicas ∙ replicas-add_points sha256 node xs s.self)
              (ap length cut.same_names ∙ len) v.bounded;
      } in
      let same = ap range (sym (replicas-add_points sha256 node xs s.self)) in
      (
        t,
        remove_node_lem (add_node sha256 node s) names xs t found same ran,
        w,
        λ key. get_node-ext sha256 key s t v w owners,
      )
