-- ===== src/Codec/RoundTrip.antt =====
-- client/default.py: `decode` undoes `encode`, for every serializer and compressor.
use django_redis.Prelude.{◌≡◌, refl, inl, inr, none, some, Text, arith, Option-cases}
use django_redis.Python.Decimal.{int, str}
use django_redis.Python.Decimal.Laws.{int-str}
use django_redis.Exec.{ok}
use django_redis.Value.{Value, integer, Encoded, bytes, number}
use django_redis.Codec.{
  inflated, bad_data, Library, Compressor, identity, zlib, gzip, lz4, lzma, zstd, compress,
  decompress, Serializer, suppress, encode, encode_dump, decode,
}

-- What Redis gives back of what it was sent: bytes unchanged, and the decimal digits of an integer.
abbrev pub wire : Encoded → Text
wire (bytes t) = t
wire (number i) = str i

-- A compression library restores what it compressed, and raises its error for bad data on bytes that
-- it did not write.
pub record Inflates (l : Library) (dump : Text) : Type 0 where
  pub restored : l.inflate (l.deflate dump) ≡ inflated dump
  pub foreign : l.inflate dump ≡ bad_data

abbrev pub Restores : Compressor → Text → Type 0
Restores identity dump = Unit
Restores (zlib l) dump = Inflates l dump
Restores (gzip l) dump = Inflates l dump
Restores (lz4 l) dump = Inflates l dump
Restores (lzma l) dump = Inflates l dump
Restores (zstd l) dump = Inflates l dump

-- Whether the class compressed the bytes or left them alone, `decompress` under `suppress` gives them
-- back.
suppress-compress :
    (c : Compressor) (dump : Text)
    → Restores c dump
    → suppress (decompress c (compress c dump)) (compress c dump) ≡ ok dump
unfolding suppress decompress compress
suppress-compress identity dump h = refl
suppress-compress (zlib l) dump h = ground arith
suppress-compress (gzip l) dump h = ground arith
suppress-compress (lz4 l) dump h = ground arith
suppress-compress (lzma l) dump h = ground arith
suppress-compress (zstd l) dump h = ground arith

module _ (z : Serializer) (c : Compressor) where
  -- The serializer loads what it dumped, the compressor restores it, and the stored bytes do not read
  -- as an integer.
  pub record Keeps (value : Value) : Type 0 where
    pub loaded : (dump : Text) → z.dumps value ≡ some dump → z.loads dump ≡ some value
    pub restored : (dump : Text) → z.dumps value ≡ some dump → Restores c dump
    pub no_integer : (dump : Text) → z.dumps value ≡ some dump → int (compress c dump) ≡ none

  decode_dump :
      (value : Value) (dump : Text)
      → z.dumps value ≡ some dump
      → Keeps value
      → decode z c (compress c dump) ≡ ok value
  unfolding decode
  decode_dump value dump e k =
      ground
        (arith, k.no_integer dump e, suppress-compress c dump (k.restored dump e), k.loaded dump e)

  -- Integers are stored as such; for every other value `Keeps`.
  abbrev pub IsKept : Value → Type 0
  IsKept (integer i) = Unit
  IsKept value = Keeps value

  decode-encode_dump :
      (value : Value) (e : Encoded)
      → Keeps value
      → encode_dump z c value ≡ ok e
      → decode z c (wire e) ≡ ok value
  unfolding encode_dump
  decode-encode_dump value e k h = elim (Option-cases (z.dumps value)) [
    | inl failed ↦ absurd (ground arith)
    | inr (dump, d) ↦
        let same : e ≡ bytes (compress c dump) = ground arith in
        rw same (decode_dump value dump d k)
  ]

  -- Decoding what Redis gives back of an encoded value returns the value: an integer always, and any
  -- other value if the serializer and the compressor keep it.
  pub decode-encode :
      (value : Value) (e : Encoded)
      → IsKept value
      → encode z c value ≡ ok e
      → decode z c (wire e) ≡ ok value
  unfolding encode
  decode-encode (integer i) e k h =
      let same : e ≡ number i = ground arith in rw same (unfold decode in ground (arith, int-str i))
  decode-encode value e k h = decode-encode_dump value e k h

  -- The value is encoded, and decoded again to itself.
  pub record Storable (value : Value) : Type 0 where
    pub encoded : (e : Encoded) × (encode z c value ≡ ok e)
    pub kept : IsKept value
