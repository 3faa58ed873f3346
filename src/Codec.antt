-- ===== src/Codec.antt =====
-- django_redis/compressors/*.py, the serializer interface of django_redis/serializers/base.py, and
-- `encode` and `decode` of client/default.py. The libraries that compress and serialize are
-- parameters.
pub mod RoundTrip
pub mod Raises
pub mod Serializers
use django_redis.Prelude.{
  Bool, true, false, Option, none, some, Text, ltb, if◌then◌else◌, length, ℤ,
}
use django_redis.Python.Decimal.{int}
use django_redis.Exec.{Exn, Result, ok, raise, compressor_error, serializer_error, other_error}
use django_redis.Value.{Value, integer, Encoded, bytes, number}

-- What a decompression function does: it returns, raises the library's own error for bad data, or
-- raises another exception.
pub data Inflated : Type 0 where
  inflated : Text → Inflated
  bad_data : Inflated
  failure : Inflated

pub record Library : Type 0 where
  pub deflate : Text → Text
  pub inflate : Text → Inflated

-- except <the library's error> as e: raise CompressorError from e
abbrev pub except_bad_data : Inflated → Result Text
except_bad_data (inflated t) = ok t
except_bad_data bad_data = raise compressor_error
except_bad_data failure = raise other_error

-- except Exception as e: raise CompressorError from e
abbrev pub except_all : Inflated → Result Text
except_all (inflated t) = ok t
except_all _ = raise compressor_error

abbrev pub compress_long : Library → Text → Bool → Text
compress_long l value long = if long then l.deflate value else value

unfoldable pub zlib_compress : Library → Text → Text
zlib_compress l value = compress_long l value (ltb 15 (length value))

unfoldable pub zlib_decompress : Library → Text → Result Text
zlib_decompress l value = except_bad_data (l.inflate value)

unfoldable pub gzip_compress : Library → Text → Text
gzip_compress l value = compress_long l value (ltb 15 (length value))

unfoldable pub gzip_decompress : Library → Text → Result Text
gzip_decompress l value = except_bad_data (l.inflate value)

unfoldable pub lz4_compress : Library → Text → Text
lz4_compress l value = compress_long l value (ltb 15 (length value))

unfoldable pub lz4_decompress : Library → Text → Result Text
lz4_decompress l value = except_all (l.inflate value)

unfoldable pub lzma_compress : Library → Text → Text
lzma_compress l value = compress_long l value (ltb 100 (length value))

unfoldable pub lzma_decompress : Library → Text → Result Text
lzma_decompress l value = except_bad_data (l.inflate value)

unfoldable pub zstd_compress : Library → Text → Text
zstd_compress l value = compress_long l value (ltb 15 (length value))

unfoldable pub zstd_decompress : Library → Text → Result Text
zstd_decompress l value = except_bad_data (l.inflate value)

-- The class that COMPRESSOR names.
pub data Compressor : Type 0 where
  identity : Compressor
  zlib gzip lz4 lzma zstd : Library → Compressor

unfoldable pub compress : Compressor → Text → Text
unfolding zlib_compress gzip_compress lz4_compress lzma_compress zstd_compress
compress identity value = value
compress (zlib l) value = zlib_compress l value
compress (gzip l) value = gzip_compress l value
compress (lz4 l) value = lz4_compress l value
compress (lzma l) value = lzma_compress l value
compress (zstd l) value = zstd_compress l value

unfoldable pub decompress : Compressor → Text → Result Text
unfolding zlib_decompress gzip_decompress lz4_decompress lzma_decompress zstd_decompress
decompress identity value = ok value
decompress (zlib l) value = zlib_decompress l value
decompress (gzip l) value = gzip_decompress l value
decompress (lz4 l) value = lz4_decompress l value
decompress (lzma l) value = lzma_decompress l value
decompress (zstd l) value = zstd_decompress l value

-- A serializer class; `none` is an exception.
pub record Serializer : Type 0 where
  pub dumps : Value → Option Text
  pub loads : Text → Option Value

abbrev pub or_serializer_error : {A : Type 0} → Option A → Result A
or_serializer_error none = raise serializer_error
or_serializer_error (some a) = ok a

-- with suppress(CompressorError): value = …
unfoldable pub suppress : Result Text → Text → Result Text
suppress (ok t) value = ok t
suppress (raise compressor_error) value = ok value
suppress (raise e) value = raise e

module _ (z : Serializer) (c : Compressor) where
  unfoldable pub encode_dump : Value → Result Encoded
  encode_dump value = elim (z.dumps value) [
    | none ↦ raise serializer_error
    | some dump ↦ ok (bytes (compress c dump))
  ]

  -- A `bool` is an `int` in Python, and is serialized all the same.
  unfoldable pub encode : Value → Result Encoded
  encode (integer i) = ok (number i)
  encode value = encode_dump value

  unfoldable pub decode_bytes : Text → Result Value
  unfolding suppress
  decode_bytes value = elim (suppress (decompress c value) value) [
    | raise e ↦ raise e
    | ok plain ↦ or_serializer_error (z.loads plain)
  ]

  unfoldable pub decode : Text → Result Value
  unfolding decode_bytes
  decode value = elim (int value) [ some i ↦ ok (integer i) | none ↦ decode_bytes value ]
