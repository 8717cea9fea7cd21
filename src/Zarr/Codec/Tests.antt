-- ===== src/Zarr/Codec/Tests.antt =====
-- src/zarr/Codec.cpp: a frame of three bytes whose content is two.
use scrollviewer.Base.{ℕ, ◌≡◌, ◌≢◌, refl, true, some, none, List, [], ◌∷◌, length}
use scrollviewer.Zarr.ArrayMeta.{CompressorId}
use scrollviewer.Zarr.Codec.{
  blosc, Decompressors, make_codec, run_blosc, check_frame, decode_blosc, decode,
}
use scrollviewer.Zarr.Codec.Decoded.{make_codec-decode}

abbrev libs : Decompressors
libs = record {
  min_header_length = 1;
  cbuffer_sizes = λ _. some (2, 3);
  creates_context = true;
  blosc2_decompress = λ _ _. some (5 ∷ 6 ∷ []);
  zstd_decompress = λ _ _. none;
}

abbrev frame : List ℕ
frame = 1 ∷ 2 ∷ 3 ∷ []

abbrev content : List ℕ
content = 5 ∷ 6 ∷ []

make_codec-decode_example :
    (length content ≡ 2)
    × ((CompressorId.blosc ≡ CompressorId.no_compressor) → content ≡ frame)
    × (CompressorId.blosc ≢ CompressorId.gzip)
unfolding make_codec decode decode_blosc check_frame run_blosc
make_codec-decode_example =
    make_codec-decode libs CompressorId.blosc blosc frame content 2 refl refl
