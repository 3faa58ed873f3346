-- ===== src/Shard/Built.antt =====
-- client/sharded.py and hash_ring.py: what `__init__` of ShardClient leaves.
use django_redis.Prelude.{
  listed, ℕ, length, ◌≡◌, ◌≢◌, refl, sym, ◌∙◌, ap, ◌⊎◌, inl, inr, Bool, true, ◌||◌, Option, none,
  some, List, [], ◌∷◌, Text, Dict, lookup, insert, lookup-insert, text_eq, text_eq_iff,
  text_eq_refl, arith, subst, Bool-cases,
}
use django_redis.Python.Sorting.{range, length-range}
use django_redis.Exec.{Result, ok, raise, next}
use django_redis.Keys.{or_else}
use django_redis.HashRing
use django_redis.HashRing.{
  Owners, owner, set_owner, HashRing, Shared, point, add_points, add_node, add_nodes,
}
use django_redis.HashRing.Points.{is_some, init-IsValid, owner-add_points}
use django_redis.HashRing.Lookup.{Serves}
use django_redis.Redis.{Driver, State}
use django_redis.Pool
use django_redis.Client.{Config}
use django_redis.Shard.{Servers, get_server, find_hash}
use django_redis.Shard.Init.{connect_all, connect, init}
use django_redis.Shard.Routing.{get_server_total}

set_owner-ne-nil : (h : ℕ) (n : Text) (r : Owners) → set_owner h n r ≢ []
unfolding set_owner
set_owner-ne-nil h n [] e = cc
set_owner-ne-nil h n ((p, m) ∷ r) e = ground arith

module _ (sha256 : Text → ℕ) where
  add_points-ne-nil :
      (node : Text) (xs : List ℕ) (r : HashRing)
      → r.ring ≢ []
      → (add_points sha256 node xs r).ring ≢ []
  unfolding add_points
  add_points-ne-nil node [] r h = h
  add_points-ne-nil node (x ∷ xs) r h = add_points-ne-nil node xs _ (set_owner-ne-nil _ node r.ring)

  add_points-ne-nil_of :
      (node : Text) (xs : List ℕ) (r : HashRing) → xs ≢ [] → (add_points sha256 node xs r).ring ≢ []
  unfolding add_points
  add_points-ne-nil_of node [] r h = absurd (h refl)
  add_points-ne-nil_of node (x ∷ xs) r h =
      add_points-ne-nil node xs _ (set_owner-ne-nil _ node r.ring)

  add_nodes-ne-nil :
      (ns : List Text) (s : Shared) → s.self.ring ≢ [] → (add_nodes sha256 ns s).self.ring ≢ []
  unfolding add_nodes add_node
  add_nodes-ne-nil [] s h = h
  add_nodes-ne-nil (n ∷ ns) s h =
      add_nodes-ne-nil ns _ (add_points-ne-nil n (range s.self.replicas) s.self h)

  init-ne-nil :
      (shared ns : List Text) → ns ≢ [] → (HashRing.init sha256 shared ns 128).self.ring ≢ []
  unfolding HashRing.init add_nodes add_node
  init-ne-nil shared [] h = absurd (h refl)
  init-ne-nil shared (n ∷ ns) h =
      let r : HashRing = record { replicas = 128; ring = []; sorted_keys = [] } in
      add_nodes-ne-nil ns (add_node sha256 n (record { nodes = shared; self = r }))
        (add_points-ne-nil_of n (range 128) r (λ e. omega (arith, ap length e, length-range 128)))

  added :
      (m n : Text) (s : Shared) (p : ℕ) (xs : List ℕ) (rest : Bool)
      → owner p (add_points sha256 m xs s.self).ring ≡ some n
      → ((text_eq m n || rest) ≡ true) ⊎ (owner p s.self.ring ≡ some n)
  added m n s p xs rest e = ground (arith, owner-add_points sha256 m xs s.self p, text_eq_refl m)

  -- Each point belongs to a node that was added, or to the node that it belonged to.
  owner-add_nodes :
      (ns : List Text) (s : Shared) (p : ℕ) (n : Text)
      → owner p (add_nodes sha256 ns s).self.ring ≡ some n
      → (listed n ns ≡ true) ⊎ (owner p s.self.ring ≡ some n)
  unfolding add_nodes add_node
  owner-add_nodes [] s p n h = inr h
  owner-add_nodes (m ∷ ns) s p n h = elim (owner-add_nodes ns (add_node sha256 m s) p n h) [
    | inl e ↦ inl (ground (arith, e))
    | inr e ↦ added m n s p (range s.self.replicas) (listed n ns) e
  ]

  owner-init :
      (shared ns : List Text) (replicas p : ℕ) (n : Text)
      → owner p (HashRing.init sha256 shared ns replicas).self.ring ≡ some n
      → listed n ns ≡ true
  unfolding HashRing.init owner
  owner-init shared ns replicas p n h = elim (owner-add_nodes ns _ p n h) [ inl e ↦ e | inr e ↦ cc ]

some_of : {A : Type 0} {o : Option A} → is_some o ≡ true → (a : A) × (o ≡ some a)
some_of {o = none} h = cc
some_of {o = some a} h = (a, refl)

module _ {W C P : Type 0} (d : Driver W C P) (k : Config) where
  connected :
      (names : List Text) (acc dict : Dict C) (s t : State W C P) (n : Text)
      → connect_all d k names acc s ≡ (ok dict, t)
      → (listed n names || is_some (lookup n acc)) ≡ true
      → is_some (lookup n dict) ≡ true
  unfolding connect_all
  connected [] acc dict s t n e h = ground arith
  connected (m ∷ names) acc dict s t n e h =
      connected_next (Pool.connect d k.import_string k.options m s) e h (λ c u e'.
        connected names (insert m c acc) dict u t n e'
          (ground (arith, lookup-insert m n c acc, text_eq_iff m n)))
    where
      connected_next :
          (r : Result C × State W C P)
          → next r (λ c. connect_all d k names (insert m c acc)) ≡ (ok dict, t)
          → (listed n (m ∷ names) || is_some (lookup n acc)) ≡ true
          → ((c : C) (u : State W C P)
              → connect_all d k names (insert m c acc) u ≡ (ok dict, t)
              → is_some (lookup n dict) ≡ true)
          → is_some (lookup n dict) ≡ true
      connected_next (ok c, u) e' h' f = f c u e'
      connected_next (raise x, u) e' h' f = cc

  -- The client is what `ConnectionFactory.connect` returned for the server of this name.
  abbrev pub ConnectedTo : Text → C → Type 0
  ConnectedTo n c =
      (u : State W C P) × (u' : State W C P) × (Pool.connect d k.import_string k.options n u
        ≡ (ok c, u'))

  abbrev AllConnected : Dict C → Type 0
  AllConnected dict = (n : Text) (c : C) → lookup n dict ≡ some c → ConnectedTo n c

  insert-AllConnected :
      (m : Text) (c : C) (acc : Dict C)
      → ConnectedTo m c
      → AllConnected acc
      → AllConnected (insert m c acc)
  insert-AllConnected m c acc h all n c' found = elim (Bool-cases (text_eq m n)) [
    | inl same ↦
        let q : m ≡ n = ground (arith, text_eq_iff m n) in
        let e : c ≡ c' = ground (arith, lookup-insert m n c acc) in
        let (u, u', ran) = h in (u, u', rw (← q, ← e) ran)
    | inr other ↦ all n c' (ground (arith, lookup-insert m n c acc))
  ]

  connect_all-AllConnected :
      (names : List Text) (acc dict : Dict C) (s t : State W C P)
      → connect_all d k names acc s ≡ (ok dict, t)
      → AllConnected acc
      → AllConnected dict
  unfolding connect_all
  connect_all-AllConnected [] acc dict s t e all =
      let same : acc ≡ dict = ground arith in subst AllConnected same all
  connect_all-AllConnected (m ∷ names) acc dict s t e all =
      connected_to (Pool.connect d k.import_string k.options m s) refl e (λ c u ran e'.
        connect_all-AllConnected names (insert m c acc) dict u t e'
          (insert-AllConnected m c acc (s, u, ran) all))
    where
      connected_to :
          (r : Result C × State W C P)
          → Pool.connect d k.import_string k.options m s ≡ r
          → next r (λ c. connect_all d k names (insert m c acc)) ≡ (ok dict, t)
          → ((c : C) (u : State W C P)
              → Pool.connect d k.import_string k.options m s ≡ (ok c, u)
              → connect_all d k names (insert m c acc) u ≡ (ok dict, t)
              → AllConnected dict)
          → AllConnected dict
      connected_to (ok c, u) ran e' f = f c u ran e'
      connected_to (raise x, u) ran e' f = cc

  -- What `__init__` sets when it returns.
  built :
      (sha256 : Text → ℕ) (shared : List Text) (v : Servers C) (t : State W C P)
      (r : Result (Dict C) × State W C P)
      → next r (λ dict u.
        (ok (record { ring = HashRing.init sha256 shared k.servers 128; serverdict = dict }), u))
        ≡ (ok v, t)
      → (u : State W C P) × (r ≡ (ok v.serverdict, u))
        × (v.ring ≡ HashRing.init sha256 shared k.servers 128)
  built sha256 shared v t (ok dict, u) h = (u, ground arith, ground arith)
  built sha256 shared v t (raise e, u) h = cc

  -- When `__init__` of ShardClient returns, and there is a server, every key has a client: one that
  -- `ConnectionFactory.connect` returned for a server of the configuration, the one whose point of
  -- the ring serves the digest of the key or of its tag. Whatever other rings of the process put on
  -- the shared list before.
  pub init-get_server :
      (sha256 : Text → ℕ) (shared : List Text) (key : Text) (v : Servers C) (s t : State W C P)
      → k.servers ≢ []
      → init d k sha256 shared s ≡ (ok v, t)
      → (c : C) × (n : Text) × (get_server sha256 v key ≡ ok c)
        × (lookup n v.serverdict ≡ some c)
        × (listed n k.servers ≡ true)
        × ConnectedTo n c
        × (p : ℕ) × Serves (sha256 (or_else (find_hash key) key)) v.ring.self.sorted_keys p
        × (owner p v.ring.self.ring ≡ some n)
  unfolding init connect
  init-get_server sha256 shared key v s t full h =
      let (u, made, ring) = built sha256 shared v t (connect_all d k k.servers [] s) h in
      let named : (p : ℕ) (n : Text)
          → owner p v.ring.self.ring ≡ some n
          → listed n k.servers ≡ true =
        λ p n e.
          owner-init sha256 shared k.servers 128 p n
            (ap (λ x. owner p x.self.ring) (sym ring) ∙ e) in
      let (c, n, got, found, p, owned, serves) =
        get_server_total sha256 v key (rw ring (init-IsValid sha256 shared k.servers 128))
          (rw ring (init-ne-nil sha256 shared k.servers full))
          (λ p n e.
            some_of
              (connected k.servers [] v.serverdict s u n made (ground (arith, named p n e)))) in
      let from = connect_all-AllConnected k.servers [] v.serverdict s u made (λ m c' q. cc) in
      (c, n, got, found, named p n owned, from n c found, p, serves, owned)
