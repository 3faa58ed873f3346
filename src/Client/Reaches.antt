-- ===== src/Client/Reaches.antt =====
-- client/default.py: a `set` reaches a server that takes writes, whichever others fail.
use mathlib.Core.Option
use django_redis.Prelude.{
  ℕ, zero, suc, ◌+◌, ◌≤◌, ◌<◌, ◌≡◌, ◌≢◌, refl, ◌∙◌, ap, Bool, true, false, Option, none, some, List,
  [], ◌∷◌, ◌++◌, arith, ℤ, times_1000, ltb, ◌==◌, length, length-append, get_elem?, inl, inr,
  Bool-cases,
}
use django_redis.Python.Sorting.{elem, range, length-range, elem-range}
use django_redis.Exec.{RedisError, redis_error, Result, ok, raise}
use django_redis.Value.{Value, Encoded, Timeout}
use django_redis.Keys.{Key}
use django_redis.Codec.{encode}
use django_redis.Redis.{Driver, State, Reply, reply, fails, refuses, command}
use django_redis.Client.{
  Config, servers_count, untried, client_at, get_client_with_index, get_next_client_index,
}
use django_redis.Client.Basic.{key_of, resolve, attempt_client, set_once, set_loop, set}
use django_redis.Client.Choice.{Random, elem-untried, untried-nil}
use django_redis.Client.Choice.Untried.{untried-lt, length_pos, elem-snoc}
use django_redis.Client.Retry.{set_loop-reply, set_loop-failure}
use django_redis.Client.Stored.{expires_now, expires_now-times_1000}

-- A timeout after so many turns of the loop.
abbrev pub scaled : ℕ → Option ℤ → Option ℤ
scaled zero timeout = timeout
scaled (suc j) timeout = Option.map times_1000 (scaled j timeout)

module _ {W C P : Type 0} (d : Driver W C P) (k : Config) (key : Key) (e : Encoded)
    (version : Option ℤ) (nx xx : Bool) where
  -- A write that a server has acknowledged, and nothing after it.
  pub record Acknowledged (r : Result Bool × State W C P) : Type 0 where
    pub client : C
    pub timeout : Option ℤ
    pub before : W
    pub answer : Bool
    pub replied : (d.set client (key_of d k key version) e nx timeout xx before).0 ≡ reply answer
    pub returned : r.0 ≡ ok answer
    pub last : r.1.world ≡ (d.set client (key_of d k key version) e nx timeout xx before).1

  -- SET raises no exception but those of `_main_exceptions`.
  abbrev pub FailsKnown : Type 0
  FailsKnown =
      (c : C) (t : Option ℤ) (w : W) → (d.set c (key_of d k key version) e nx t xx w).0 ≢ refuses

  -- The client replies to the write on every turn that there can be, one for each server: the first
  -- sends 1,000 times the timeout, and each later one 1,000 times what the one before sent.
  abbrev pub Accepts : C → Option ℤ → Type 0
  Accepts c timeout =
      (j : ℕ) (w : W)
      → j < servers_count d k
      → (b : Bool) × ((d.set c (key_of d k key version) e nx (scaled (suc j) timeout) xx w).0
          ≡ reply b)

  abbrev pub Connected : List (Option C) → Type 0
  Connected clients =
      (i : ℕ) → i < servers_count d k → (c : C) × (get_elem? clients i ≡ some (some c))

  set_once-command :
      (t : Option ℤ) (c : C)
      → expires_now t ≡ false
      → set_once d k key e t version c nx xx ≡ command (d.set c (key_of d k key version) e nx t xx)
  unfolding set_once
  set_once-command t c h = rw h refl

  client_at-connected :
      (i : ℕ) (c : C) (s : State W C P)
      → get_elem? s.clients i ≡ some (some c)
      → client_at d k i s ≡ (ok c, s)
  unfolding client_at
  client_at-connected i c s h = rw (h, client_at) refl

  module _ (random : Random d) (g : ℕ) (cg : C) (in_range : g < servers_count d k) where
    -- While the server `g` is untried, an untried server is chosen, and only the world changes.
    next_index :
        (tried : List ℕ) (s : State W C P)
        → elem g tried ≡ false
        → length tried + length (untried tried (range (servers_count d k))) ≤ servers_count d k
        → (i : ℕ) × (w : W) × (get_next_client_index d k true tried s
            ≡ (ok i, record s { world = w }))
          × (elem i (untried tried (range (servers_count d k))) ≡ true)
    unfolding get_next_client_index elem
    next_index [] s new few = (
      0,
      s.world,
      refl,
      ground
          (arith, elem-untried 0 [] (range (servers_count d k)), elem-range 0 (servers_count d k)),
    )
    next_index (a ∷ tried) s new few =
        let xs = untried (a ∷ tried) (range (servers_count d k)) in
        let left : elem g xs ≡ true = ground (
          arith,
          new,
          elem-untried g (a ∷ tried) (range (servers_count d k)),
          elem-range g (servers_count d k),
        ) in
        let more : ltb (length (a ∷ tried)) (servers_count d k) ≡ true =
          ground (arith, length_pos g xs left) in
        let r = d.choice xs s.world in
        (
          r.0,
          r.1,
          rw more refl,
          random.choice_from xs s.world (λ q. omega (arith, length_pos g xs left, ap length q)),
        )

    module _ (timeout : Option ℤ) (fails_known : FailsKnown) (accepts : Accepts cg timeout)
        (nw : k.replica_read_only ≡ false) where
      -- The turn ends the loop, or fails on another server than `g`.
      not_here :
          (i : ℕ) (c : C) (j : ℕ) (w w' : W) (x : RedisError) (clients : List (Option C))
          → j < servers_count d k
          → get_elem? clients i ≡ some (some c)
          → get_elem? clients g ≡ some (some cg)
          → d.set c (key_of d k key version) e nx (scaled (suc j) timeout) xx w ≡ (fails x, w')
          → (i == g) ≡ false
      not_here i c j w w' x clients bound at here failed = elim (Bool-cases (i == g)) [
        | inr other ↦ other
        | inl same ↦
            let same' : i ≡ g = ground arith in
            let one : c ≡ cg = let q = ap (λ j. get_elem? clients j) same' in cc in
            let (b, replied) = accepts j w bound in
            let q : (d.set cg (key_of d k key version) e nx (scaled (suc j) timeout) xx w).0
                ≡ fails x =
              rw (← one) (ap (λ r. r.0) failed) in
            cc
      ]

      -- The client of an untried server.
      got_client :
          (tried : List ℕ) (s : State W C P) (i : ℕ) (w : W) (c : C)
          → get_next_client_index d k true tried s ≡ (ok i, record s { world = w })
          → get_elem? s.clients i ≡ some (some c)
          → attempt_client d k none tried s ≡ (ok (c, i), record s { world = w })
      unfolding get_client_with_index
      got_client tried s i w c chosen at =
          rw (chosen, client_at-connected i c (record s { world = w }) at) refl

      untried_in_range :
          (i : ℕ) (tried : List ℕ)
          → elem i (untried tried (range (servers_count d k))) ≡ true
          → i < servers_count d k
      untried_in_range i tried h = ground (
        arith,
        elem-untried i tried (range (servers_count d k)),
        elem-range i (servers_count d k),
      )

      -- A turn of the loop, on the reply of its client.
      turn :
          (f : ℕ) (t : Option ℤ) (tried : List ℕ) (s : State W C P) (i : ℕ) (w : W) (c : C)
          (r : Reply Bool × W)
          → expires_now (Option.map times_1000 t) ≡ false
          → attempt_client d k none tried s ≡ (ok (c, i), record s { world = w })
          → ltb (length tried) (servers_count d k) ≡ true
          → d.set c (key_of d k key version) e nx (Option.map times_1000 t) xx w ≡ r
          → ((x : RedisError) (w' : W)
              → d.set c (key_of d k key version) e nx (Option.map times_1000 t) xx w ≡ (fails x, w')
              → Acknowledged (
                  set_loop d k f key e
                    (Option.map times_1000 t)
                    version
                    none
                    false
                    nx
                    xx
                    (tried ++ i ∷ [])
                    (record s { world = w' })))
          → Acknowledged (set_loop d k (suc f) key e t version none false nx xx tried s)
      turn f t tried s i w c (reply b, w') later got more q again =
          let t' = Option.map times_1000 t in
          let once : set_once d k key e t' version c nx xx (record s { world = w })
              ≡ (ok b, record s { world = w' }) =
            rw (set_once-command t' c later, q) refl in
          let done =
            set_loop-reply d k key e t version none false nx xx tried s (record s { world = w }) c i
              got f b (record s { world = w' }) once in
          rw done (record {
            client = c;
            timeout = t';
            before = w;
            answer = b;
            replied = rw q refl;
            returned = refl;
            last = rw q refl;
          })
      turn f t tried s i w c (fails x, w') later got more q again =
          let t' = Option.map times_1000 t in
          let once : set_once d k key e t' version c nx xx (record s { world = w })
              ≡ (raise (redis_error x), record s { world = w' }) =
            rw (set_once-command t' c later, q) refl in
          let next =
            set_loop-failure d k key e t version none false nx xx tried s (record s { world = w }) c
              i got f x (record s { world = w' }) once (rw (nw, more) refl) in
          rw next (again x w' q)
      turn f t tried s i w c (refuses, w') later got more q again =
          absurd (fails_known c (Option.map times_1000 t) w (ap (λ r. r.0) q))

      -- The loop, while `g` is untried.
      loop-Acknowledged :
          (f j : ℕ) (tried : List ℕ) (s : State W C P)
          → j ≡ length tried
          → expires_now (scaled j timeout) ≡ false
          → Connected s.clients
          → get_elem? s.clients g ≡ some (some cg)
          → elem g tried ≡ false
          → length tried + length (untried tried (range (servers_count d k))) ≤ servers_count d k
          → length (untried tried (range (servers_count d k))) < f
          → Acknowledged (set_loop d k f key e (scaled j timeout) version none false nx xx tried s)
      loop-Acknowledged zero j tried s turns later all here new few fuel = elim fuel [ ]
      loop-Acknowledged (suc f) j tried s turns later all here new few fuel =
          let (i, w, chosen, fresh) = next_index tried s new few in
          let (c, at) = all i (untried_in_range i tried fresh) in
          let t = scaled j timeout in
          let t' = Option.map times_1000 t in
          let later' : expires_now t' ≡ false = expires_now-times_1000 t ∙ later in
          let got = got_client tried s i w c chosen at in
          let n = servers_count d k in
          let left : 0 < length (untried tried (range n)) =
            length_pos i (untried tried (range n)) fresh in
          turn f t tried s i w c (d.set c (key_of d k key version) e nx t' xx w) later' got
            (ground (arith, left)) refl
            (λ x w' failed.
              let other =
                not_here i c j w w' x s.clients (omega (arith, turns, left, few)) at here failed in
              let less = untried-lt i tried (range n) fresh in
              loop-Acknowledged f (suc j) (tried ++ i ∷ []) (record s { world = w' })
                (omega (arith, turns, length-append tried (i ∷ []))) later' all here
                (elem-snoc g i tried new other) (omega (arith, less, length-append tried (i ∷ [])))
                (omega (arith, less)))

    -- Where replicas take writes, all servers are connected, random choices are as documented, SET
    -- fails with an exception of _main_exceptions at most, and the server `g` replies to the write
    -- with each expiry that the loop can send, which is the timeout times 1,000, times 1,000,000,
    -- and so on, as often as there are servers: a `set` without a client, of a value that is
    -- encoded, with no timeout or a positive one, returns what a server answered to the write, as
    -- its last command.
    pub set-Acknowledged :
        (value : Value) (timeout : Timeout) (s : State W C P)
        → FailsKnown
        → Accepts cg (resolve k timeout)
        → k.replica_read_only ≡ false
        → encode k.serializer k.compressor value ≡ ok e
        → expires_now (resolve k timeout) ≡ false
        → Connected s.clients
        → get_elem? s.clients g ≡ some (some cg)
        → Acknowledged (set d k key value timeout version none nx xx s)
    unfolding set
    set-Acknowledged value timeout s known accepts nw enc later all here =
        let all_left = untried-nil (range (servers_count d k)) in
        rw enc (
          loop-Acknowledged (resolve k timeout) known accepts nw (suc (servers_count d k)) 0 [] s
            refl later all here (unfold elem in refl)
            (omega (arith, all_left, length-range (servers_count d k)))
            (omega (arith, all_left, length-range (servers_count d k))))
