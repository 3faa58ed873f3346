-- ===== src/Client/Runs/Steps.antt =====
-- client/default.py: each command does to the server what it means to the caller.
use django_redis.Prelude.{
  ◌≡◌, refl, ◌∙◌, ap, Bool, true, false, not, Option, none, some, arith, ℤ, if◌then◌else◌, inl, inr,
  Bool-cases, Text, text_eq,
}
use django_redis.Exec.{Result, ok, raise, M, next, pure}
use django_redis.Value.{Value, Timeout}
use django_redis.Keys.{Key}
use django_redis.Codec.{decode}
use django_redis.Codec.RoundTrip.{wire, Storable, decode-encode}
use django_redis.Redis.{Driver, State}
use django_redis.Client.{Config, client_or}
use django_redis.Client.Basic
use django_redis.Client.Basic.{key_of, resolve, or_default}
use django_redis.Client.Stored.{Serving, set-Stored, expires_now, is_set, b2n, b2n_one}
use django_redis.Client.Runs.{
  Operation, set, add, get, delete, has_key, Answer, flag, value, Contents, changed, present,
  value_or, perform, meaning,
}

b2n-present : (b : Bool) → b2n b ≡ (if b then 1 else 0)
b2n-present true = refl
b2n-present false = refl

-- What follows a step that returned.
pub next-ok :
    {S A B : Type 0} (r : Result A × S) (f : A → M S B) (a : A) → r.0 ≡ ok a → next r f ≡ f a r.1
next-ok (ok b, s) f a h = ground arith
next-ok (raise e, s) f a h = cc

module _ {W C P : Type 0} (d : Driver W C P) (r : Serving d) (k : Config) where
  -- A stored text decodes to the value that the caller has in mind.
  abbrev pub Holds : Option Text → Option Value → Type 0
  Holds none none = Unit
  Holds none (some v) = ⊥
  Holds (some t) none = ⊥
  Holds (some t) (some v) = decode k.serializer k.compressor t ≡ ok v

  pub record Agrees (w : W) (m : Contents) : Type 0 where
    pub at : (j : Text) → Holds (r.look w j) (m j)

  abbrev pub IsStorable : Operation → Type 0
  IsStorable (set key v timeout version) = Storable k.serializer k.compressor v
  IsStorable (add key v timeout version) = Storable k.serializer k.compressor v
  IsStorable other = Unit

  is_set-Holds : (o : Option Text) (v : Option Value) → Holds o v → is_set o ≡ present v
  is_set-Holds none none h = refl
  is_set-Holds none (some v) h = absurd h
  is_set-Holds (some t) none h = absurd h
  is_set-Holds (some t) (some v) h = refl

  changed-Agrees :
      (w w' : W) (m : Contents) (key : Text) (t : Option Text) (v : Option Value)
      → Agrees w m
      → Holds t v
      → ((j : Text) → r.look w' j ≡ (if text_eq key j then t else r.look w j))
      → Agrees w' (changed key v m)
  changed-Agrees w w' m key t v a h e = record {
    at = λ j. elim (Bool-cases (text_eq key j)) [
      | inl same ↦ rw (e j, same) h
      | inr other ↦ rw (e j, other) (a.at j)
    ];
  }

  same-Agrees :
      (w w' : W) (m : Contents) → Agrees w m → ((j : Text) → r.look w' j ≡ r.look w j) → Agrees w' m
  same-Agrees w w' m a e = record { at = λ j. rw (e j) (a.at j) }

  -- The answer of a command, and the contents that it leaves.
  pub record Refines (after : Result Answer × State W C P) (meant : Answer × Contents)
      : Type 0 where
    pub answered : after.0 ≡ ok meant.0
    pub agrees : Agrees after.1.world meant.1

  returned :
      {A : Type 0} (f : A → Answer) (after : Result A × State W C P) (b : A)
      (meant : Answer × Contents)
      → after.0 ≡ ok b
      → f b ≡ meant.0
      → Agrees after.1.world meant.1
      → Refines (next after (λ x. pure (f x))) meant
  returned f (ok x, t) b meant h q g = record {
    answered = ap ok (let e : x ≡ b = ground arith in ap f e ∙ q);
    agrees = g;
  }
  returned f (raise e, t) b meant h q g = cc

  read :
      (default : Value) (o : Option Text) (v : Option Value) (t : State W C P)
      → Holds o v
      → ((or_default d k default o t).0 ≡ ok (value_or default v))
        × ((or_default d k default o t).1 ≡ t)
  read default none none t h = (refl, refl)
  read default none (some v) t h = absurd h
  read default (some x) none t h = absurd h
  read default (some x) (some v) t h = (h, refl)

  module _ (c : C) (s : State W C P) (m : Contents) (a : Agrees s.world m) where
    set-Refines :
        (key : Key) (v : Value) (timeout : Timeout) (version : Option ℤ)
        → Storable k.serializer k.compressor v
        → Refines
            (perform d k c (set key v timeout version) s)
            (meaning d k (set key v timeout version) m)
    unfolding perform meaning
    set-Refines key v timeout version h =
        let (e, enc) = h.encoded in
        let stored = set-Stored d r k key v e timeout version c false false s enc refl in
        let K = key_of d k key version in
        let old = is_set-Holds _ _ (a.at K) in
        let after = Basic.set d k key v timeout version (some c) false false s in
        elim (Bool-cases (expires_now (resolve k timeout))) [
          | inl now ↦ rw now (
              returned flag after _ (flag (present (m K)), changed K none m) stored.0
                (rw now (ap flag old))
                (changed-Agrees s.world after.1.world m K none none a tt
                  (λ j. stored.1 j ∙ rw now refl)))
          | inr later ↦ rw later (
              returned flag after _ (flag true, changed K (some v) m) stored.0 (rw later refl)
                (changed-Agrees s.world after.1.world m K (some (wire e)) (some v) a
                  (decode-encode k.serializer k.compressor v e h.kept enc)
                  (λ j. stored.1 j ∙ rw later refl)))
        ]

    get-Refines :
        (key : Key) (default : Value) (version : Option ℤ)
        → Refines
            (perform d k c (get key default version) s)
            (meaning d k (get key default version) m)
    unfolding perform meaning Basic.get client_or
    get-Refines key default version =
        let K = key_of d k key version in
        let t : State W C P = record s { world = (d.get c K s.world).1 } in
        rw (r.get_reply c K s.world) (
          returned value (or_default d k default (r.look s.world K) t) (value_or default (m K)) _
            (read default (r.look s.world K) (m K) t (a.at K)).0 refl
            (rw ((read default (r.look s.world K) (m K) t (a.at K)).1)
              (same-Agrees s.world _ m a (r.get_look c K s.world))))

    delete-Refines :
        (key : Key) (version : Option ℤ)
        → Refines (perform d k c (delete key version) s) (meaning d k (delete key version) m)
    unfolding perform meaning Basic.delete client_or
    delete-Refines key version =
        let K = key_of d k key version in
        record {
          answered =
              rw
                (
                  r.delete_reply c K s.world,
                  b2n-present (is_set (r.look s.world K)),
                  is_set-Holds _ _ (a.at K),
                )
                refl;
          agrees =
              rw (r.delete_reply c K s.world)
                (changed-Agrees s.world _ m K none none a tt (r.delete_look c K s.world));
        }

    has_key-Refines :
        (key : Key) (version : Option ℤ)
        → Refines (perform d k c (has_key key version) s) (meaning d k (has_key key version) m)
    unfolding perform meaning Basic.has_key client_or
    has_key-Refines key version =
        let K = key_of d k key version in
        record {
          answered =
              rw
                (
                  r.exists_reply c K s.world,
                  b2n_one (is_set (r.look s.world K)),
                  is_set-Holds _ _ (a.at K),
                )
                refl;
          agrees =
              rw (r.exists_reply c K s.world)
                (same-Agrees s.world _ m a (r.exists_look c K s.world));
        }

    add-Refines :
        (key : Key) (v : Value) (timeout : Timeout) (version : Option ℤ)
        → Storable k.serializer k.compressor v
        → Refines
            (perform d k c (add key v timeout version) s)
            (meaning d k (add key v timeout version) m)
    unfolding perform meaning Basic.add
    add-Refines key v timeout version h =
        let (e, enc) = h.encoded in
        let stored = set-Stored d r k key v e timeout version c true false s enc refl in
        let K = key_of d k key version in
        let old = is_set-Holds _ _ (a.at K) in
        let after = Basic.set d k key v timeout version (some c) true false s in
        elim (Bool-cases (expires_now (resolve k timeout))) [
          | inl now ↦ rw now (
              returned flag after _ (flag (not (present (m K))), m) stored.0
                (rw now (ap (λ b. flag (not b)) old))
                (same-Agrees s.world after.1.world m a (λ j. stored.1 j ∙ rw now refl)))
          | inr later ↦ elim (Bool-cases (present (m K))) [
            | inl found ↦
                rw (later, found)
                  (returned flag after _ (flag false, m) stored.0 (rw (later, old, found) refl)
                    (same-Agrees s.world after.1.world m a
                      (λ j. stored.1 j ∙ rw (later, old, found) refl)))
            | inr missing ↦
                rw (later, missing)
                  (returned flag after _ (flag true, changed K (some v) m) stored.0
                    (rw (later, old, missing) refl)
                    (changed-Agrees s.world after.1.world m K (some (wire e)) (some v) a
                      (decode-encode k.serializer k.compressor v e h.kept enc)
                      (λ j. stored.1 j ∙ rw (later, old, missing) refl)))
          ]
        ]

    pub perform-Refines :
        (op : Operation) → IsStorable op → Refines (perform d k c op s) (meaning d k op m)
    perform-Refines (set key v timeout version) h = set-Refines key v timeout version h
    perform-Refines (add key v timeout version) h = add-Refines key v timeout version h
    perform-Refines (get key default version) h = get-Refines key default version
    perform-Refines (delete key version) h = delete-Refines key version
    perform-Refines (has_key key version) h = has_key-Refines key version
