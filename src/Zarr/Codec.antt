-- ===== src/Zarr/Codec.antt =====
-- src/zarr/Codec.h and Codec.cpp. The output span of a decode is given by its size, and what the codec wrote
-- there is the result.
pub mod Decoded
pub mod Tests
use scrollviewer.Base.{
  ℕ, Bool, true, false, not, ◌||◌, Option, none, some, List, length, ltb, ◌==◌, if◌then◌else◌,
}
use scrollviewer.Zarr.ArrayMeta.{CompressorId}
use scrollviewer.Zarr.Json.{Parsed, parsed, failed}

pub data CodecError : Type 0 where
  raw_size blosc_size zstd_size : ℕ → ℕ → CodecError
  short_header invalid_header truncated no_context blosc_failed zstd_failed gzip_missing :
      CodecError

pub data Codec : Type 0 where
  raw blosc zstd : Codec

-- The calls of blosc2 and zstd. `cbuffer_sizes` gives the sizes of the content and of the frame, as
-- `std::size_t`; a decompression gives what it wrote into an output of that size, `none` for an error.
pub record Decompressors : Type 0 where
  pub min_header_length : ℕ
  pub cbuffer_sizes : List ℕ → Option (ℕ × ℕ)
  pub creates_context : Bool
  pub blosc2_decompress : List ℕ → ℕ → Option (List ℕ)
  pub zstd_decompress : List ℕ → ℕ → Option (List ℕ)

unfoldable pub make_codec : CompressorId → Parsed CodecError Codec
make_codec CompressorId.no_compressor = parsed raw
make_codec CompressorId.blosc = parsed blosc
make_codec CompressorId.zstd = parsed zstd
make_codec CompressorId.gzip = failed gzip_missing

unfoldable pub decode_raw : List ℕ → ℕ → Parsed CodecError (List ℕ)
decode_raw src n = if not (length src == n) then failed (raw_size (length src) n) else parsed src

module _ (libs : Decompressors) where
  unfoldable pub run_blosc : List ℕ → ℕ → Parsed CodecError (List ℕ)
  run_blosc src n = elim (libs.blosc2_decompress src n) [
    | none ↦ failed blosc_failed
    | some out ↦ if not (length out == n) then failed blosc_failed else parsed out
  ]

  unfoldable pub check_frame : List ℕ → ℕ → ℕ → ℕ → Parsed CodecError (List ℕ)
  check_frame src n nbytes cbytes =
      if ltb (length src) cbytes
      then failed truncated
      else (if not (nbytes == n)
          then failed (blosc_size nbytes n)
          else (if not libs.creates_context then failed no_context else run_blosc src n))

  unfoldable pub decode_blosc : List ℕ → ℕ → Parsed CodecError (List ℕ)
  decode_blosc src n =
      if ltb (length src) libs.min_header_length
      then failed short_header
      else (elim (libs.cbuffer_sizes src) [
        | none ↦ failed invalid_header
        | some (nbytes, cbytes) ↦ check_frame src n nbytes cbytes
      ])

  unfoldable pub decode_zstd : List ℕ → ℕ → Parsed CodecError (List ℕ)
  decode_zstd src n = elim (libs.zstd_decompress src n) [
    | none ↦ failed zstd_failed
    | some out ↦ if not (length out == n) then failed (zstd_size (length out) n) else parsed out
  ]

  unfoldable pub decode : Codec → List ℕ → ℕ → Parsed CodecError (List ℕ)
  decode raw src n = decode_raw src n
  decode blosc src n = decode_blosc src n
  decode zstd src n = decode_zstd src n
