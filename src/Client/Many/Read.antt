-- ===== src/Client/Many/Read.antt =====
-- client/default.py: what `get_many` answers.
use django_redis.Prelude.{
  ◌≡◌, refl, sym, ◌∙◌, ap, Bool, Bool-cases, inl, inr, true, false, ◌||◌, Option, none, some, List,
  [], ◌∷◌, ◌++◌, map, Text, Dict, lookup, insert, lookup-insert, listed, text_eq, text_eq_iff,
  text_eq_refl, if◌then◌else◌, ℤ, arith,
}
use django_redis.Exec.{Result, ok, ◌>>=◌, interrupted}
use django_redis.Value.{Value}
use django_redis.Keys.{Key, raw}
use django_redis.Redis.{Driver, State, reply, command}
use django_redis.Client.{Config, client_or}
use django_redis.Client.Basic.{key_of}
use django_redis.Client.Many.{map_keys, collect, get_many}
use django_redis.Client.Stored.{Serving}
use django_redis.Client.Runs.{Contents}
use django_redis.Client.Runs.Steps.{Agrees, Holds}

-- The texts in the order in which they first occur.
add_text : Text → List Text → List Text
add_text t us = if listed t us then us else us ++ t ∷ []

add_texts : List Text → List Text → List Text
unfolding add_text
add_texts [] us = us
add_texts (t ∷ ts) us = add_texts ts (add_text t us)

listed-snoc : (t u : Text) (us : List Text) → listed t (us ++ u ∷ []) ≡ (text_eq u t || listed t us)
listed-snoc t u [] = refl
listed-snoc t u (v ∷ us) = ground (arith, listed-snoc t u us)

listed-add_text :
    (t u : Text) (us : List Text) → listed t (add_text u us) ≡ (text_eq u t || listed t us)
unfolding add_text
listed-add_text t u us = ground (arith, listed-snoc t u us, text_eq_iff u t)

listed-add_texts :
    (t : Text) (ts us : List Text) → listed t (add_texts ts us) ≡ (listed t ts || listed t us)
unfolding add_texts
listed-add_texts t [] us = refl
listed-add_texts t (u ∷ ts) us =
    ground (arith, listed-add_texts t ts (add_text u us), listed-add_text t u us)

map-first :
    {A : Type 0} (f : Text → A) (e : Dict Key) → map f (map (λ x. x.0) e) ≡ map (λ x. f x.0) e
map-first f [] = refl
map-first f (x ∷ e) = ap (λ xs. f x.0 ∷ xs) (map-first f e)

abbrev first_of : Option Value → Option Value → Option Value
first_of none o = o
first_of (some v) o = some v

asked :
    (b : Bool) (o : Option Value) (x : Bool)
    → x ≡ (b || false)
    → (if x then first_of o none else none) ≡ (if b then o else none)
asked true none x h = rw h refl
asked true (some v) x h = rw h refl
asked false o x h = rw h refl

module _ {W C P : Type 0} (d : Driver W C P) (k : Config) (version : Option ℤ) where
  -- Different texts are stored under different keys.
  abbrev pub Apart : Type 0
  Apart = (t u : Text) → key_of d k (raw t) version ≡ key_of d k (raw u) version → t ≡ u

  entries : List Text → Dict Key
  entries [] = []
  entries (t ∷ ts) = (key_of d k (raw t) version, raw t) ∷ entries ts

  same_key :
      Apart
      → (t u : Text)
      → text_eq (key_of d k (raw t) version) (key_of d k (raw u) version) ≡ text_eq t u
  same_key apart t u = elim (Bool-cases (text_eq t u)) [
    | inl e ↦ rw ((text_eq_iff t u).0 e) (text_eq_refl _ ∙ sym (text_eq_refl u))
    | inr e ↦ ground (
      arith,
      apart t u,
      text_eq_iff t u,
      text_eq_iff (key_of d k (raw t) version) (key_of d k (raw u) version),
    )
  ]

  entries-cons :
      (u : Text) (us vs : List Text) (b : Bool)
      → (key_of d k (raw u) version, raw u) ∷ entries (if b then us else vs)
        ≡ entries (if b then u ∷ us else u ∷ vs)
  unfolding entries
  entries-cons u us vs true = refl
  entries-cons u us vs false = refl

  insert-entries :
      Apart
      → (t : Text) (us : List Text)
      → insert (key_of d k (raw t) version) (raw t) (entries us) ≡ entries (add_text t us)
  unfolding insert entries add_text
  insert-entries apart t [] = refl
  insert-entries apart t (u ∷ us) = elim (Bool-cases (text_eq u t)) [
    | inl e ↦
        rw (same_key apart u t, e)
          (ap (λ x. (key_of d k (raw u) version, raw x) ∷ entries us) (sym ((text_eq_iff u t).0 e)))
    | inr e ↦
        rw (same_key apart u t, e)
          (ap (λ rest. (key_of d k (raw u) version, raw u) ∷ rest) (insert-entries apart t us)
            ∙ entries-cons u us (us ++ t ∷ []) (listed t us))
  ]

  map_keys-raw :
      Apart
      → (ts us : List Text)
      → map_keys d k (map raw ts) version (entries us) ≡ entries (add_texts ts us)
  unfolding map_keys add_texts
  map_keys-raw apart [] us = refl
  map_keys-raw apart (t ∷ ts) us =
      ap (λ e. map_keys d k (map raw ts) version e) (insert-entries apart t us)
      ∙ map_keys-raw apart ts (add_text t us)

  module _ (r : Serving d) (m : Contents) where
    -- What the dictionary holds for `j`: the value of the cache if `j` was asked for, or what it
    -- held.
    abbrev answer : Text → List Text → Dict Value → Option Value
    answer j ts acc =
        if listed j ts
        then first_of (m (key_of d k (raw j) version)) (lookup j acc)
        else lookup j acc

    -- The answer for one text more, by what the cache holds of it.
    answer-missing :
        (t j : Text) (ts : List Text) (acc : Dict Value)
        → m (key_of d k (raw t) version) ≡ none
        → answer j ts acc ≡ answer j (t ∷ ts) acc
    answer-missing t j ts acc e = elim (Bool-cases (text_eq t j)) [
      | inl same ↦
          let q : m (key_of d k (raw j) version) ≡ none = rw (← (text_eq_iff t j).0 same) e in
          rw (same, q) (both (listed j ts))
      | inr other ↦ rw other refl
    ]
      where
        both :
            (b : Bool) → (if b then first_of none (lookup j acc) else lookup j acc) ≡ lookup j acc
        both true = refl
        both false = refl

    answer-found :
        (t j : Text) (v : Value) (ts : List Text) (acc : Dict Value)
        → m (key_of d k (raw t) version) ≡ some v
        → answer j ts (insert t v acc) ≡ answer j (t ∷ ts) acc
    answer-found t j v ts acc e = elim (Bool-cases (text_eq t j)) [
      | inl same ↦
          let q : m (key_of d k (raw j) version) ≡ some v = rw (← (text_eq_iff t j).0 same) e in
          rw (lookup-insert t j v acc, same, q) (both (listed j ts))
      | inr other ↦ rw (lookup-insert t j v acc, other) refl
    ]
      where
        both : (b : Bool) → (if b then first_of (some v) (some v) else some v) ≡ some v
        both true = refl
        both false = refl

    one_entry :
        (t : Text) (ts : List Text) (w : W) (acc : Dict Value) (s : State W C P) (o : Option Text)
        (v : Option Value)
        → Holds d r k o v
        → m (key_of d k (raw t) version) ≡ v
        → ((acc' : Dict Value)
            → (dict : Dict Value) × (collect d k
                  (entries ts)
                  (map (λ e. r.look w e.0) (entries ts))
                  acc'
                  s
                ≡ (ok dict, s))
              × ((j : Text) → lookup j dict ≡ answer j ts acc'))
        → (dict : Dict Value) × (collect d k
              ((key_of d k (raw t) version, raw t) ∷ entries ts)
              (o ∷ map (λ e. r.look w e.0) (entries ts))
              acc
              s
            ≡ (ok dict, s))
          × ((j : Text) → lookup j dict ≡ answer j (t ∷ ts) acc)
    unfolding collect
    one_entry t ts w acc s none none h e rest =
        let (dict, ran, says) = rest acc in (dict, ran, λ j. says j ∙ answer-missing t j ts acc e)
    one_entry t ts w acc s none (some v) h e rest = absurd h
    one_entry t ts w acc s (some x) none h e rest = absurd h
    one_entry t ts w acc s (some x) (some v) h e rest =
        let (dict, ran, says) = rest (insert t v acc) in
        (dict, rw h ran, λ j. says j ∙ answer-found t j v ts acc e)

    collect-entries :
        (ts : List Text) (w : W) (acc : Dict Value) (s : State W C P)
        → Agrees d r k w m
        → (dict : Dict Value) × (collect d k
              (entries ts)
              (map (λ e. r.look w e.0) (entries ts))
              acc
              s
            ≡ (ok dict, s))
          × ((j : Text) → lookup j dict ≡ answer j ts acc)
    unfolding collect entries
    collect-entries [] w acc s a = (acc, refl, λ j. refl)
    collect-entries (t ∷ ts) w acc s a =
        let K = key_of d k (raw t) version in
        one_entry t ts w acc s (r.look w K) (m K) (a.at K) refl
          (λ acc'. collect-entries ts w acc' s a)

    abbrev fetched : C → State W C P → Dict Key → Result (Dict Value) × State W C P
    fetched c s e =
        (do results ← interrupted (command (d.mget c (map (λ x. x.0) e))); collect d k e results [])
          s

    -- On a client that is given, with a server that answers, also MGET: get_many on plain texts
    -- raises nothing, where different texts are stored under different keys and what is stored
    -- decodes. For each text that was asked for, and no other, the dictionary holds what is stored
    -- under its key, if that is there.
    pub get_many_lem :
        ((c : C) (keys : List Text) (w : W) → (d.mget c keys w).0 ≡ reply (map (r.look w) keys))
        → Apart
        → (ts : List Text) (c : C) (s : State W C P) → Agrees d r k s.world m
        → (dict : Dict Value) × ((get_many d k (map raw ts) version (some c) s).0 ≡ ok dict)
          × ((j : Text)
              → lookup j dict ≡ (if listed j ts then m (key_of d k (raw j) version) else none))
    unfolding get_many client_or lookup entries
    get_many_lem mget apart [] c s a = ([], refl, λ j. refl)
    get_many_lem mget apart (t ∷ ts) c s a =
        let us = add_texts (t ∷ ts) [] in
        let s' : State W C P = record s {
          world = (d.mget c (map (λ e. e.0) (entries us)) s.world).1;
        } in
        let (dict, ran, says) = collect-entries us s.world [] s' a in
        (
          dict,
          ap (λ e. (fetched c s e).0) (map_keys-raw apart (t ∷ ts) [])
              ∙ rw (mget c (map (λ e. e.0) (entries us)) s.world)
                  (rw (map-first (r.look s.world) (entries us), ran) refl),
          λ j.
              says j
              ∙ asked (listed j (t ∷ ts)) (m (key_of d k (raw j) version)) _
                  (listed-add_texts j (t ∷ ts) []),
        )
