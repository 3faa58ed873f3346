-- ===== src/Client/Sets/Stored.antt =====
-- client/mixins/sets.py: what the commands do to a set of the server.
use django_redis.Prelude.{
  ◌≡◌, ◌≢◌, refl, sym, ◌∙◌, ap, Bool, true, false, ◌||◌, ◌&&◌, ◌==◌, not, Option, none, some, List,
  [], ◌∷◌, map, Text, text_eq, text_eq_refl, text_eq_iff, ℤ, arith, if◌then◌else◌,
}
use django_redis.Exec.{ok}
use django_redis.Value.{Value, Encoded}
use django_redis.Keys.{Key}
use django_redis.Codec.{encode}
use django_redis.Codec.RoundTrip.{wire}
use django_redis.Redis.{Driver, State, reply}
use django_redis.Redis.Sets.{SetCommands}
use django_redis.Client.{Config, client_or}
use django_redis.Client.Basic.{key_of}
use django_redis.Client.Coded.{Encodes, encoded_values-Encodes}
use django_redis.Client.Sets.{Equality, sadd, sismember, smismember, smove}
use django_redis.Client.Stored.{b2n}

-- Whether a text is one of these.
abbrev pub among : Text → List Encoded → Bool
among x [] = false
among x (e ∷ es) = text_eq (wire e) x || among x es

-- A reachable Redis server whose set commands act as documented: `held w key x` tells whether the
-- set has the member. SMISMEMBER takes at least one member; a SADD of no value, which fails,
-- changes nothing.
pub record ServingSets {W C : Type 0} (t : SetCommands W C) : Type 0 where
  pub held : W → Text → Text → Bool
  pub sadd_held :
      (c : C) (key : Text) (es : List Encoded) (w : W) (j x : Text)
      → held (t.sadd c key es w).1 j x ≡ (held w j x || (text_eq key j && among x es))
  pub sismember_reply :
      (c : C) (key : Text) (e : Encoded) (w : W)
      → (t.sismember c key e w).0 ≡ reply (b2n (held w key (wire e)))
  pub smismember_reply :
      (c : C) (key : Text) (es : List Encoded) (w : W)
      → es ≢ []
      → (t.smismember c key es w).0 ≡ reply (map (λ e. b2n (held w key (wire e))) es)
  -- A member is moved if the source has it.
  pub smove_reply :
      (c : C) (source destination : Text) (e : Encoded) (w : W)
      → (t.smove c source destination e w).0 ≡ reply (held w source (wire e))
  pub smove_held :
      (c : C) (source destination : Text) (e : Encoded) (w : W) (j x : Text)
      → source ≢ destination
      → held (t.smove c source destination e w).1 j x ≡ (
          if held w source (wire e) && text_eq (wire e) x
          then (text_eq destination j || (not (text_eq source j) && held w j x))
          else held w j x)

module _ {W C P : Type 0} (d : Driver W C P) (t : SetCommands W C) (r : ServingSets t)
    (q : Equality) (k : Config) (version : Option ℤ) (c : C) where
  abbrev pub holds : State W C P → Key → Option ℤ → Encoded → Bool
  holds s key v e = r.held s.world (key_of d k key v) (wire e)

  not-b2n : (b : Bool) → not (b2n b == 0) ≡ b
  not-b2n true = refl
  not-b2n false = refl

  sismember_lem :
      (key : Key) (v' : Option ℤ) (v : Value) (e : Encoded) (s : State W C P)
      → encode k.serializer k.compressor v ≡ ok e
      → (sismember d t q k key v v' (some c) s).0 ≡ ok (holds s key v' e)
  unfolding sismember client_or
  sismember_lem key v' v e s enc =
      rw (enc, r.sismember_reply c (key_of d k key v') e s.world, not-b2n) refl

  -- The answers of `sismember` for these members.
  abbrev pub Each : Key → State W C P → List Value → List Bool → Type 0
  Each key s [] [] = Unit
  Each key s [] (b ∷ bs) = ⊥
  Each key s (v ∷ vs) [] = ⊥
  Each key s (v ∷ vs) (b ∷ bs) =
      ((sismember d t q k key v version (some c) s).0 ≡ ok b) × Each key s vs bs

  answers :
      (key : Key) (s : State W C P) (vs : List Value) (es : List Encoded)
      → Encodes k vs es
      → Each key s vs (map (holds s key version) es)
  answers key s [] [] h = tt
  answers key s [] (e ∷ es) h = absurd h
  answers key s (v ∷ vs) [] h = absurd h
  answers key s (v ∷ vs) (e ∷ es) h = (sismember_lem key version v e s h.0, answers key s vs es h.1)

  map_bool :
      (f : Encoded → Bool) (es : List Encoded)
      → map (λ n. not (n == 0)) (map (λ e. b2n (f e)) es) ≡ map f es
  map_bool f [] = refl
  map_bool f (e ∷ es) = rw (not-b2n (f e), map_bool f es) refl

  Encodes-ne-nil : (vs : List Value) (es : List Encoded) → Encodes k vs es → vs ≢ [] → es ≢ []
  Encodes-ne-nil [] es h some_value = absurd (some_value refl)
  Encodes-ne-nil (v ∷ vs) [] h some_value = absurd h
  Encodes-ne-nil (v ∷ vs) (e ∷ es) h some_value = λ q. cc

  -- On a client that is given, with a server whose set commands act as documented: smismember of at
  -- least one member returns for each member what sismember returns for it alone, where all members
  -- are encoded.
  pub smismember-sismember :
      (key : Key) (members : List Value) (es : List Encoded) (s : State W C P)
      → members ≢ []
      → Encodes k members es
      → (bs : List Bool) × ((smismember d t q k key members version (some c) s).0 ≡ ok bs)
        × Each key s members bs
  unfolding smismember client_or
  smismember-sismember key members es s some_member h =
      let K = key_of d k key version in
      (
        map (holds s key version) es,
        rw
            (
              encoded_values-Encodes k d members es s h,
              r.smismember_reply c K es s.world (Encodes-ne-nil members es h some_member),
              map_bool (holds s key version) es,
            )
            refl,
        answers key s members es h,
      )

  sadd_held :
      (key : Key) (values : List Value) (es : List Encoded) (s : State W C P) (j x : Text)
      → Encodes k values es
      → r.held (sadd d t q k key values version (some c) s).1.world j x
        ≡ (r.held s.world j x || (text_eq (key_of d k key version) j && among x es))
  unfolding sadd client_or
  sadd_held key values es s j x h =
      rw (encoded_values-Encodes k d values es s h)
        (r.sadd_held c (key_of d k key version) es s.world j x)

  -- On a client that is given, with a server whose set commands act as documented: after a sadd of
  -- encoded values sismember is true of a member if it was so before or if its
  -- bytes are those of a value added, and otherwise false.
  pub sismember-sadd :
      (key : Key) (values : List Value) (es : List Encoded) (v : Value) (e : Encoded) (b : Bool)
      (s : State W C P)
      → Encodes k values es
      → encode k.serializer k.compressor v ≡ ok e
      → (sismember d t q k key v version (some c) s).0 ≡ ok b
      → (sismember d t q k key v version (some c) (sadd d t q k key values version (some c) s).1).0
        ≡ ok (b || among (wire e) es)
  sismember-sadd key values es v e b s h enc before =
      let K = key_of d k key version in
      let now : holds s key version e ≡ b =
        ground (arith, sismember_lem key version v e s enc, before) in
      sismember_lem key version v e (sadd d t q k key values version (some c) s).1 enc
      ∙ ap ok (sadd_held key values es s K (wire e) h ∙ rw (text_eq_refl K, now) refl)

  smove_after :
      (source destination : Key) (member : Value) (e : Encoded) (s : State W C P)
      → encode k.serializer k.compressor member ≡ ok e
      → holds s source version e ≡ true
      → key_of d k source version ≢ key_of d k destination none
      → let after = smove d t q k source destination member version (some c) s in
        (after.0 ≡ ok true)
        × ((j : Text)
            → r.held after.1.world j (wire e) ≡ (
                text_eq (key_of d k destination none) j
                || (not (text_eq (key_of d k source version) j) && r.held s.world j (wire e))))
  unfolding smove client_or
  smove_after source destination member e s enc there apart =
      let S = key_of d k source version in
      let D = key_of d k destination none in
      (
        rw (enc, r.smove_reply c S D e s.world, there) refl,
        λ j. rw enc (
            r.smove_held c S D e s.world j (wire e) apart ∙ rw (there, text_eq_refl (wire e)) refl),
      )

  -- On a client that is given, with a server whose set commands act as documented: a smove with a
  -- version takes the member from the source of that version to the destination of the backend's
  -- own version: the destination of the version that was asked for is as before. Where the source
  -- has the member, and these three keys differ.
  pub smove_version :
      (source destination : Key) (member : Value) (e : Encoded) (s : State W C P)
      → encode k.serializer k.compressor member ≡ ok e
      → (sismember d t q k source member version (some c) s).0 ≡ ok true
      → key_of d k source version ≢ key_of d k destination none
      → key_of d k source version ≢ key_of d k destination version
      → key_of d k destination none ≢ key_of d k destination version
      → let after = smove d t q k source destination member version (some c) s in
        (after.0 ≡ ok true)
        × ((sismember d t q k source member version (some c) after.1).0 ≡ ok false)
        × ((sismember d t q k destination member none (some c) after.1).0 ≡ ok true)
        × ((sismember d t q k destination member version (some c) after.1).0
            ≡ (sismember d t q k destination member version (some c) s).0)
  smove_version source destination member e s enc before a b c' =
      let S = key_of d k source version in
      let D = key_of d k destination none in
      let V = key_of d k destination version in
      let there : holds s source version e ≡ true =
        ground (arith, sismember_lem source version member e s enc, before) in
      let (done, held) = smove_after source destination member e s enc there a in
      let after = (smove d t q k source destination member version (some c) s).1 in
      (
        done,
        sismember_lem source version member e after enc
            ∙ ap ok (held S ∙ ground (arith, text_eq_iff D S, text_eq_refl S)),
        sismember_lem destination none member e after enc
            ∙ ap ok (held D ∙ rw (text_eq_refl D) refl),
        sismember_lem destination version member e after enc
            ∙ ap ok (held V ∙ ground (arith, text_eq_iff D V, text_eq_iff S V))
            ∙ sym (sismember_lem destination version member e s enc),
      )
