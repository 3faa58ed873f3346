-- ===== src/Client/Stored.antt =====
-- client/default.py: what `set`, `add` and `get` do to the keys of the server.
use mathlib.Core.Option
use django_redis.Prelude.{
  ℕ, zero, suc, ◌<◌, ◌≡◌, refl, ◌∙◌, Bool, true, false, not, ◌&&◌, Option, none, some, [], ◌∷◌,
  arith, ltb, ◌==◌, inl, inr, Bool-cases, ◌*◌, if◌then◌else◌, ℤ, pos, negsuc, times_1000, is_nonpos,
  Text, text_eq, text_eq_refl,
}
use django_redis.Exec.{Result, ok}
use django_redis.Value.{Value, Encoded, Timeout}
use django_redis.Keys.{Key}
use django_redis.Codec.{encode}
use django_redis.Codec.RoundTrip.{wire, IsKept, decode-encode}
use django_redis.Redis.{Driver, State, reply}
use django_redis.Client.{Config, client_or, servers_count}
use django_redis.Client.Retry.{set_loop-reply}
use django_redis.Client.Basic.{key_of, resolve, set_once, set_loop, set, get, delete, has_key}

abbrev pub is_set {ℓ} : {A : Type ℓ} → Option A → Bool
is_set none = false
is_set (some a) = true

-- Whether SET with NX and XX writes a key with this value.
abbrev pub allowed : Bool → Bool → Option Text → Bool
allowed nx xx old = not (nx && is_set old) && not (xx && not (is_set old))

abbrev pub b2n : Bool → ℕ
b2n true = 1
b2n false = 0

abbrev pub expires_now : Option ℤ → Bool
expires_now none = false
expires_now (some t) = is_nonpos t

-- A reachable Redis server: `look w` is what its keys hold. SET is only described for an expiry
-- above 0, and not for NX and XX at once, which is what Redis takes;
-- that it refuses an expiry beyond 64 bits is left out.
pub record Serving {W C P : Type 0} (d : Driver W C P) : Type 0 where
  pub look : W → Text → Option Text
  pub get_reply : (c : C) (key : Text) (w : W) → (d.get c key w).0 ≡ reply (look w key)
  pub get_look : (c : C) (key : Text) (w : W) (j : Text) → look (d.get c key w).1 j ≡ look w j
  pub set_reply :
      (c : C) (key : Text) (e : Encoded) (nx xx : Bool) (t : Option ℤ) (w : W)
      → (nx && xx) ≡ false
      → expires_now t ≡ false
      → (d.set c key e nx t xx w).0 ≡ reply (allowed nx xx (look w key))
  pub set_look :
      (c : C) (key : Text) (e : Encoded) (nx xx : Bool) (t : Option ℤ) (w : W) (j : Text)
      → (nx && xx) ≡ false
      → expires_now t ≡ false
      → look (d.set c key e nx t xx w).1 j
        ≡ (if allowed nx xx (look w key) && text_eq key j then some (wire e) else look w j)
  pub exists_reply :
      (c : C) (key : Text) (w : W) → (d.exists c key w).0 ≡ reply (b2n (is_set (look w key)))
  pub exists_look : (c : C) (key : Text) (w : W) (j : Text) → look (d.exists c key w).1 j ≡ look w j
  pub delete_reply :
      (c : C) (key : Text) (w : W) → (d.delete c (key ∷ []) w).0 ≡ reply (b2n (is_set (look w key)))
  pub delete_look :
      (c : C) (key : Text) (w : W) (j : Text)
      → look (d.delete c (key ∷ []) w).1 j ≡ (if text_eq key j then none else look w j)

-- SET with NX and XX at once would write nothing.
allowed-apart : (nx xx : Bool) (old : Option Text) → allowed nx xx old ≡ true → (nx && xx) ≡ false
allowed-apart nx xx old h = ground arith

pub b2n_one : (b : Bool) → (b2n b == 1) ≡ b
b2n_one true = refl
b2n_one false = refl

pub b2n_pos : (b : Bool) → ltb 0 (b2n b) ≡ b
b2n_pos true = refl
b2n_pos false = refl

pub is_nonpos_suc : (m : ℕ) → 0 < m → is_nonpos (pos m) ≡ false
is_nonpos_suc zero h = elim h [ ]
is_nonpos_suc (suc m) h = refl

pub expires_now-times_1000 : (t : Option ℤ) → expires_now (Option.map times_1000 t) ≡ expires_now t
unfolding times_1000
expires_now-times_1000 none = refl
expires_now-times_1000 (some (pos zero)) = refl
expires_now-times_1000 (some (pos (suc n))) = is_nonpos_suc (suc n * 1000) (omega arith)
expires_now-times_1000 (some (negsuc n)) = refl

-- What a call of `set` leaves: the timeout decides, then NX and XX.
abbrev pub after_set :
    Text → Text → Option ℤ → Bool → Bool → Option Text → Text → Option Text → Option Text
after_set key new t nx xx old j now =
    if expires_now t
    then (if nx then now else if text_eq key j then none else now)
    else if allowed nx xx old && text_eq key j
    then some new
    else now

abbrev pub set_answer : Option ℤ → Bool → Bool → Option Text → Bool
set_answer t nx xx old =
    if expires_now t then (if nx then not (is_set old) else is_set old) else allowed nx xx old

module _ {W C P : Type 0} (d : Driver W C P) (r : Serving d) (k : Config) where
  -- The answer and the keys after one turn.
  abbrev pub Stored :
      Key
      → Encoded
      → Option ℤ
      → Option ℤ
      → C
      → Bool
      → Bool
      → State W C P
      → Result Bool × State W C P
      → Type 0
  Stored key e t version c nx xx s after =
      let K = key_of d k key version in
      (after.0 ≡ ok (set_answer t nx xx (r.look s.world K)))
      × ((j : Text)
          → r.look after.1.world j
            ≡ after_set K (wire e) t nx xx (r.look s.world K) j (r.look s.world j))

  set_once_lem :
      (key : Key) (e : Encoded) (t version : Option ℤ) (c : C) (nx xx : Bool) (s : State W C P)
      → (nx && xx) ≡ false
      → Stored key e t version c nx xx s (set_once d k key e t version c nx xx s)
  unfolding set_once has_key delete client_or
  set_once_lem key e t version c nx xx s apart = elim (Bool-cases (expires_now t)) [
    | inl h ↦
        elim nx
          as (λ nx. Stored key e t version c nx xx s (set_once d k key e t version c nx xx s)) [
            | true ↦ (rw (h, r.exists_reply, b2n_one), λ j. rw (h, r.exists_reply, r.exists_look))
            | false ↦ (rw (h, r.delete_reply, b2n_pos), λ j. rw (h, r.delete_reply, r.delete_look))
          ]
    | inr h ↦ (
      rw (h, r.set_reply c (key_of d k key version) e nx xx t s.world apart h),
      λ j. rw (h, r.set_look c (key_of d k key version) e nx xx t s.world j apart h),
    )
  ]

  set_loop_lem :
      (n : ℕ) (key : Key) (e : Encoded) (t version : Option ℤ) (c : C) (nx xx : Bool)
      (s : State W C P)
      → (nx && xx) ≡ false
      → Stored key e t version c nx xx s
          (set_loop d k (suc n) key e t version (some c) true nx xx [] s)
  set_loop_lem n key e t version c nx xx s apart =
      let once = set_once_lem key e (Option.map times_1000 t) version c nx xx s apart in
      let same = expires_now-times_1000 t in
      let t' = (set_once d k key e (Option.map times_1000 t) version c nx xx s).1 in
      let done =
        set_loop-reply d k key e t version (some c) true nx xx [] s s c 0 refl n _ t'
          (λ i. (once.0 i, t')) in
      rw done (rw same refl, λ j. once.1 j ∙ rw same refl)

  -- On a client that is given, with a server that answers, and not with `nx` and `xx` at once:
  -- `set` of a value that is encoded, with a timeout that is 0 or below, tells with `nx` whether
  -- the key is missing and changes nothing, and otherwise deletes the key and tells whether it was
  -- there; with another timeout, or none, it stores the encoded value exactly if `nx` and `xx`
  -- allow, tells whether it did, and no other key changes.
  pub set-Stored :
      (key : Key) (value : Value) (e : Encoded) (timeout : Timeout) (version : Option ℤ) (c : C)
      (nx xx : Bool) (s : State W C P)
      → encode k.serializer k.compressor value ≡ ok e
      → (nx && xx) ≡ false
      → Stored key e
          (resolve k timeout)
          version
          c
          nx
          xx
          s
          (set d k key value timeout version (some c) nx xx s)
  unfolding set
  set-Stored key value e timeout version c nx xx s enc apart =
      rw enc (set_loop_lem (servers_count d k) key e (resolve k timeout) version c nx xx s apart)

  -- On a client that is given, and with a server that answers, a `get` after a `set` that stored
  -- its value returns that value, where serializer and compressor keep it.
  pub get-set :
      (key : Key) (value default : Value) (e : Encoded) (timeout : Timeout) (version : Option ℤ)
      (c : C) (nx xx : Bool) (s : State W C P)
      → IsKept k.serializer k.compressor value
      → encode k.serializer k.compressor value ≡ ok e
      → expires_now (resolve k timeout) ≡ false
      → allowed nx xx (r.look s.world (key_of d k key version)) ≡ true
      → (get d k key default version
          (some c)
          (set d k key value timeout version (some c) nx xx s).1).0
        ≡ ok value
  unfolding get client_or
  get-set key value default e timeout version c nx xx s kept enc later may =
      let K = key_of d k key version in
      let s' = (set d k key value timeout version (some c) nx xx s).1 in
      let holds : r.look s'.world K ≡ some (wire e) =
        (set-Stored key value e timeout version c nx xx s enc
            (allowed-apart nx xx (r.look s.world K) may)).1
          K
        ∙ rw (later, may, text_eq_refl K) in
      rw (r.get_reply c K s'.world, holds, decode-encode k.serializer k.compressor value e kept enc)
