-- ===== src/Codec/Raises.antt =====
-- client/default.py: what `encode` and `decode` can raise.
use django_redis.Prelude.{◌≡◌, Text, arith}
use django_redis.Exec.{Exn, compressor_error, Result, ok, raise}
use django_redis.Exec.Raises.{IsBenign}
use django_redis.Value.{Value, integer}
use django_redis.Codec.{
  Compressor, identity, Serializer, suppress, decompress, encode, encode_dump, decode_bytes, decode,
}

module _ (z : Serializer) (c : Compressor) where
  pub encode_raises : (value : Value) (e : Exn) → encode z c value ≡ raise e → IsBenign e
  unfolding encode encode_dump
  encode_raises (integer i) e h = cc
  encode_raises value e h = ground arith

  decompress_raises : (c : Compressor) (t : Text) (e : Exn) → decompress c t ≡ raise e → IsBenign e
  unfolding decompress
  decompress_raises identity t e h = cc
  decompress_raises _ t e h = ground arith

  suppress_raises :
      (r : Result Text) (t : Text) (e : Exn)
      → ((e : Exn) → r ≡ raise e → IsBenign e)
      → suppress r t ≡ raise e
      → IsBenign e
  unfolding suppress
  suppress_raises (ok u) t e h q = cc
  suppress_raises (raise compressor_error) t e h q = cc
  suppress_raises (raise _) t e h q = h e q

  decode_bytes_raises : (t : Text) (e : Exn) → decode_bytes z c t ≡ raise e → IsBenign e
  unfolding decode_bytes
  decode_bytes_raises t e h =
      ground (arith, suppress_raises (decompress c t) t e (decompress_raises c t))

  pub decode_raises : (t : Text) (e : Exn) → decode z c t ≡ raise e → IsBenign e
  unfolding decode
  decode_raises t e h = ground (arith, decode_bytes_raises t e)
