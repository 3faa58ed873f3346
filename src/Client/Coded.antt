-- ===== src/Client/Coded.antt =====
-- client/default.py: lists of values, encoded and decoded.
use mathlib.Core.List.{reverse-append}
use django_redis.Prelude.{
  ◌≡◌, refl, ap, List, [], ◌∷◌, ◌++◌, map, reverse, Text, All, suc, length, arith,
}
use django_redis.Exec.{ok, traverse}
use django_redis.Value.{Value, Encoded}
use django_redis.Codec.{encode, decode}
use django_redis.Codec.RoundTrip.{wire, Storable, decode-encode}
use django_redis.Redis.{Driver, State}
use django_redis.Client.{Config}
use django_redis.Client.Basic.{encoded_values, decoded_values}

reverse-cons : {A : Type 0} (x : A) (xs : List A) → reverse (x ∷ xs) ≡ reverse xs ++ x ∷ []
reverse-cons x xs = reverse-append (x ∷ []) xs

module _ (k : Config) where
  -- Text by text, what is stored decodes to these values.
  abbrev pub Decodes : List Text → List Value → Type 0
  Decodes [] [] = Unit
  Decodes [] (v ∷ vs) = ⊥
  Decodes (t ∷ ts) [] = ⊥
  Decodes (t ∷ ts) (v ∷ vs) = (decode k.serializer k.compressor t ≡ ok v) × Decodes ts vs

  -- Value by value, these are encoded to those.
  abbrev pub Encodes : List Value → List Encoded → Type 0
  Encodes [] [] = Unit
  Encodes [] (e ∷ es) = ⊥
  Encodes (v ∷ vs) [] = ⊥
  Encodes (v ∷ vs) (e ∷ es) = (encode k.serializer k.compressor v ≡ ok e) × Encodes vs es

  abbrev pub AllStorable : List Value → Type 0
  AllStorable vs = All (Storable k.serializer k.compressor) vs

  pub length-Decodes : (ts : List Text) (vs : List Value) → Decodes ts vs → length ts ≡ length vs
  length-Decodes [] [] h = refl
  length-Decodes [] (v ∷ vs) h = absurd h
  length-Decodes (t ∷ ts) [] h = absurd h
  length-Decodes (t ∷ ts) (v ∷ vs) h = ap suc (length-Decodes ts vs h.1)

  pub Decodes-append :
      (ts us : List Text) (vs ws : List Value)
      → Decodes ts vs
      → Decodes us ws
      → Decodes (ts ++ us) (vs ++ ws)
  Decodes-append [] us [] ws h g = g
  Decodes-append [] us (v ∷ vs) ws h g = absurd h
  Decodes-append (t ∷ ts) us [] ws h g = absurd h
  Decodes-append (t ∷ ts) us (v ∷ vs) ws h g = (h.0, Decodes-append ts us vs ws h.1 g)

  pub Decodes-reverse :
      (ts : List Text) (vs : List Value) → Decodes ts vs → Decodes (reverse ts) (reverse vs)
  Decodes-reverse [] [] h = tt
  Decodes-reverse [] (v ∷ vs) h = absurd h
  Decodes-reverse (t ∷ ts) [] h = absurd h
  Decodes-reverse (t ∷ ts) (v ∷ vs) h =
      rw (reverse-cons t ts, reverse-cons v vs)
        (Decodes-append (reverse ts) (t ∷ []) (reverse vs) (v ∷ []) (Decodes-reverse ts vs h.1)
          (h.0, tt))

  module _ {W C P : Type 0} (d : Driver W C P) where
    pub decoded_values-Decodes :
        (ts : List Text) (vs : List Value) (s : State W C P)
        → Decodes ts vs
        → decoded_values d k ts s ≡ (ok vs, s)
    unfolding decoded_values traverse
    decoded_values-Decodes [] [] s h = refl
    decoded_values-Decodes [] (v ∷ vs) s h = absurd h
    decoded_values-Decodes (t ∷ ts) [] s h = absurd h
    decoded_values-Decodes (t ∷ ts) (v ∷ vs) s h = rw (h.0, decoded_values-Decodes ts vs s h.1) refl

    -- Values that keep are encoded, one by one, to texts that decode to them.
    pub encoded_values-Storable :
        (vs : List Value) (s : State W C P)
        → AllStorable vs
        → (es : List Encoded) × (encoded_values d k vs s ≡ (ok es, s))
          × Decodes (map wire es) vs
          × (length es ≡ length vs)
    unfolding encoded_values traverse
    encoded_values-Storable [] s h = ([], refl, tt, refl)
    encoded_values-Storable (v ∷ vs) s h =
        let (e, enc) = h.0.encoded in
        let (es, all, decodes, same) = encoded_values-Storable vs s h.1 in
        (
          e ∷ es,
          rw (enc, all) refl,
          (decode-encode k.serializer k.compressor v e h.0.kept enc, decodes),
          omega arith,
        )

    pub encoded_values-Encodes :
        (vs : List Value) (es : List Encoded) (s : State W C P)
        → Encodes vs es
        → encoded_values d k vs s ≡ (ok es, s)
    unfolding encoded_values traverse
    encoded_values-Encodes [] [] s h = refl
    encoded_values-Encodes [] (e ∷ es) s h = absurd h
    encoded_values-Encodes (v ∷ vs) [] s h = absurd h
    encoded_values-Encodes (v ∷ vs) (e ∷ es) s h = rw (h.0, encoded_values-Encodes vs es s h.1) refl
