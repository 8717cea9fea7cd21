-- ===== src/Zarr/Codec/Decoded.antt =====
-- src/zarr/Codec.cpp: what a decode that succeeds gives.
use scrollviewer.Base.{ℕ, ◌≡◌, ◌≢◌, List, length, arith, Option-cases, inl, inr}
use scrollviewer.Zarr.ArrayMeta.{CompressorId}
use scrollviewer.Zarr.Json.{parsed}
use scrollviewer.Zarr.Codec.{
  Codec, raw, blosc, zstd, Decompressors, make_codec, decode_raw, run_blosc, check_frame,
  decode_blosc, decode_zstd, decode,
}

decode_raw-length :
    (src out : List ℕ) (n : ℕ) → decode_raw src n ≡ parsed out → (length out ≡ n) × (out ≡ src)
unfolding decode_raw
decode_raw-length src out n h = (ground arith, ground arith)

module _ (libs : Decompressors) where
  run_blosc-length : (src out : List ℕ) (n : ℕ) → run_blosc libs src n ≡ parsed out → length out ≡ n
  unfolding run_blosc
  run_blosc-length src out n h = elim (Option-cases (libs.blosc2_decompress src n)) [
    | inl e ↦ absurd (ground (arith, e, h))
    | inr (bs, e) ↦ ground (arith, e, h)
  ]

  decode_blosc-length :
      (src out : List ℕ) (n : ℕ) → decode_blosc libs src n ≡ parsed out → length out ≡ n
  unfolding decode_blosc check_frame
  decode_blosc-length src out n h = elim (Option-cases (libs.cbuffer_sizes src)) [
    | inl e ↦ absurd (ground (arith, e, h))
    | inr (sizes, e) ↦ ground (arith, e, h, run_blosc-length src out n)
  ]

  decode_zstd-length :
      (src out : List ℕ) (n : ℕ) → decode_zstd libs src n ≡ parsed out → length out ≡ n
  unfolding decode_zstd
  decode_zstd-length src out n h = elim (Option-cases (libs.zstd_decompress src n)) [
    | inl e ↦ absurd (ground (arith, e, h))
    | inr (bs, e) ↦ ground (arith, e, h)
  ]

  -- Whatever blosc and zstd answer: the codec for a compressor, if there is one, gives as many bytes as were
  -- asked for when it succeeds; without a compressor these are the source's; and there is none for gzip.
  pub make_codec-decode :
      (id : CompressorId) (c : Codec) (src out : List ℕ) (n : ℕ)
      → make_codec id ≡ parsed c
      → decode libs c src n ≡ parsed out
      → (length out ≡ n)
        × ((id ≡ CompressorId.no_compressor) → out ≡ src)
        × (id ≢ CompressorId.gzip)
  unfolding make_codec decode
  make_codec-decode id raw src out n made h = (
    (decode_raw-length src out n h).0,
    λ _. (decode_raw-length src out n h).1,
    λ e. ground (arith, made, e),
  )
  make_codec-decode id blosc src out n made h = (
    decode_blosc-length src out n h,
    λ e. absurd (ground (arith, made, e)),
    λ e. ground (arith, made, e),
  )
  make_codec-decode id zstd src out n made h = (
    decode_zstd-length src out n h,
    λ e. absurd (ground (arith, made, e)),
    λ e. ground (arith, made, e),
  )
