-- ===== src/Shard/Routing.antt =====
-- sharded.py: which server a key goes to.
use django_redis.Prelude.{
  ℕ, ◌≡◌, ◌∙◌, ap, ◌≢◌, refl, sym, false, none, some, [], ◌∷◌, ◌++◌, Text, lookup, arith,
}
use django_redis.Python.Sorting.{elem, elem-append}
use django_redis.Exec.{ok}
use django_redis.Keys.{or_else}
use django_redis.Keys.Reverse.{after_last-append}
use django_redis.HashRing.{get_node, owner}
use django_redis.HashRing.Points.{IsValid}
use django_redis.HashRing.Lookup.{Serves, get_node-Serves}
use django_redis.Shard.{
  Servers, first_line, before_last, find_hash, get_server_name, server_named, get_server,
}

before_last-absent : (c : ℕ) (s : Text) → elem c s ≡ false → before_last c s ≡ none
unfolding before_last elem
before_last-absent c [] h = refl
before_last-absent c (x ∷ s) h = ground (arith, before_last-absent c s)

before_last-append : (c : ℕ) (s t : Text) → elem c t ≡ false → before_last c (s ++ c ∷ t) ≡ some s
unfolding before_last
before_last-append c [] t h = ground (arith, before_last-absent c t h)
before_last-append c (x ∷ s) t h = ground (arith, before_last-append c s t h)

first_line-append : (s t : Text) → elem 10 s ≡ false → first_line (s ++ t) ≡ s ++ first_line t
unfolding first_line elem
first_line-append [] t h = refl
first_line-append (x ∷ s) t h = ground (arith, first_line-append s t)

first_line-whole : (s : Text) → elem 10 s ≡ false → first_line s ≡ s
unfolding first_line elem
first_line-whole [] h = refl
first_line-whole (x ∷ s) h = ground (arith, first_line-whole s)

-- In a key of one line, the tag is what stands between the last opening brace before the last closing
-- brace and that closing brace, whatever comes before and after.
pub find_hash_tag :
    (head tag tail : Text)
    → elem 10 head ≡ false
    → elem 10 tag ≡ false
    → elem b'{' tag ≡ false
    → elem 10 tail ≡ false
    → elem b'}' tail ≡ false
    → find_hash ((head ++ b'{' ∷ tag) ++ b'}' ∷ tail) ≡ some tag
unfolding find_hash
find_hash_tag head tag tail p q q' r r' =
    let rest : first_line (b'}' ∷ tail) ≡ b'}' ∷ tail =
      unfold first_line in ground (arith, first_line-whole tail r) in
    let open_line : elem 10 (head ++ b'{' ∷ tag) ≡ false =
      unfold elem in ground (arith, elem-append 10 head (b'{' ∷ tag)) in
    let line : first_line ((head ++ b'{' ∷ tag) ++ b'}' ∷ tail)
        ≡ (head ++ b'{' ∷ tag) ++ b'}' ∷ tail =
      first_line-append (head ++ b'{' ∷ tag) (b'}' ∷ tail) open_line
      ∙ ap (λ t. (head ++ b'{' ∷ tag) ++ t) rest in
    rw (
      find_hash,
      line,
      before_last-append b'}' (head ++ b'{' ∷ tag) tail r',
      after_last-append b'{' head tag q',
    )

same_tag :
    {C : Type 0} (sha256 : Text → ℕ) (v : Servers C) (key key' : Text) (tag : Text)
    → find_hash key ≡ some tag
    → find_hash key' ≡ some tag
    → get_server sha256 v key ≡ get_server sha256 v key'
unfolding get_server_name get_server
same_tag sha256 v key key' tag h h' =
    let name : get_server_name sha256 v key ≡ get_server_name sha256 v key' =
      ap (λ t. get_node sha256 (or_else t key) v.ring) h
      ∙ sym (ap (λ t. get_node sha256 (or_else t key') v.ring) h') in
    rw (get_server, name)

-- Two keys of one line with the same text in braces go to the same server, whatever the ring, where
-- neither has another closing brace behind these and the text holds no opening brace.
pub get_server_tag :
    {C : Type 0} (sha256 : Text → ℕ) (v : Servers C) (head head' tag tail tail' : Text)
    → elem 10 (head ++ (head' ++ (tag ++ (tail ++ tail')))) ≡ false
    → elem b'{' tag ≡ false
    → elem b'}' (tail ++ tail') ≡ false
    → get_server sha256 v ((head ++ b'{' ∷ tag) ++ b'}' ∷ tail)
      ≡ get_server sha256 v ((head' ++ b'{' ∷ tag) ++ b'}' ∷ tail')
get_server_tag sha256 v head head' tag tail tail' line no_brace close =
    let a = elem-append 10 head (head' ++ (tag ++ (tail ++ tail'))) in
    let b = elem-append 10 head' (tag ++ (tail ++ tail')) in
    let c = elem-append 10 tag (tail ++ tail') in
    let e = elem-append 10 tail tail' in
    same_tag sha256 v _ _ tag
      (find_hash_tag head tag tail (ground (arith, line, a, b, c, e))
        (ground (arith, line, a, b, c, e)) no_brace (ground (arith, line, a, b, c, e))
        (ground (arith, close, elem-append b'}' tail tail')))
      (find_hash_tag head' tag tail' (ground (arith, line, a, b, c, e))
        (ground (arith, line, a, b, c, e)) no_brace (ground (arith, line, a, b, c, e))
        (ground (arith, close, elem-append b'}' tail tail')))

-- With a ring that `__init__` built over the names of all servers, and a connection for each owner of a
-- point, every key has a server.
pub get_server_total :
    {C : Type 0} (sha256 : Text → ℕ) (v : Servers C) (key : Text)
    → IsValid v.ring
    → v.ring.self.ring ≢ []
    → ((p : ℕ) (n : Text)
        → owner p v.ring.self.ring ≡ some n
        → (c : C) × (lookup n v.serverdict ≡ some c))
    → (c : C) × (n : Text) × (get_server sha256 v key ≡ ok c)
      × (lookup n v.serverdict ≡ some c)
      × (p : ℕ) × (owner p v.ring.self.ring ≡ some n)
      × Serves (sha256 (or_else (find_hash key) key)) v.ring.self.sorted_keys p
unfolding get_server get_server_name server_named
get_server_total sha256 v key valid full all =
    let (p, n, got, serves, owned) =
      get_node-Serves sha256 (or_else (find_hash key) key) v.ring valid full in
    let (c, found) = all p n owned in
    (c, n, rw (get_server, get_server_name, got, server_named, found), found, p, owned, serves)
