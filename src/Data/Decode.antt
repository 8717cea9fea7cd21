-- ===== src/Data/Decode.antt =====
-- src/data/ChunkFetchPipeline.cpp, the first half of `decodeAndPublish`: the brick that a decode job
-- makes, before any lock is taken.
use scrollviewer.Base.{
  ℕ, ◌+◌, ◌*◌, ◌/◌, ◌%◌, Bool, true, false, ◌&&◌, Option, none, some, List, [], ◌∷◌, ltb, ◌==◌,
  if◌then◌else◌,
}
use scrollviewer.Data.BrickKey.{BrickKey}
use scrollviewer.Data.RamCache.{Brick}
use scrollviewer.Data.Volume.{Volume, Dtype}

-- Two bytes are a `std::uint16_t` of a little-endian host, whatever the byte order of the volume; its
-- high byte is what the 8-bit domain keeps. An odd byte at the end is not read.
unfoldable pub high_bytes : List ℕ → List ℕ
high_bytes [] = []
high_bytes (lo ∷ []) = []
high_bytes (lo ∷ hi ∷ bs) = ((lo + 256 * hi) / 256 % 256) ∷ high_bytes bs

-- The values in the 8-bit domain.
unfoldable pub eight_bit : Dtype → List ℕ → List ℕ
eight_bit Dtype.u8 bs = bs
eight_bit _ bs = high_bytes bs

-- `lo` and `hi` start at 255 and 0.
unfoldable pub min_max : ℕ → ℕ → List ℕ → ℕ × ℕ
min_max lo hi [] = (lo, hi)
min_max lo hi (v ∷ vs) = min_max (if ltb v lo then v else lo) (if ltb hi v then v else hi) vs

-- A chunk of the one value `fill` keeps no voxels.
unfoldable pub brick_of : BrickKey → ℕ → List ℕ → ℕ × ℕ → Brick
brick_of key fill voxels (lo, hi) =
    let uniform = lo == hi && lo == fill in
    record {
      key = key;
      voxels = (if uniform then [] else voxels);
      is_fill_value = uniform;
      min_val = lo;
      max_val = hi;
    }

unfoldable pub build_brick : Volume → BrickKey → List ℕ → Bool → Option Brick
build_brick vol key compressed true =
    some (record { key = key; voxels = []; is_fill_value = true; min_val = 0; max_val = 255 })
build_brick vol key compressed false =
    elim (vol.decode key.level compressed (vol.chunk_bytes key.level)) [
      | none ↦ none
      | some voxels ↦ some (
          brick_of key (vol.fill_byte key.level) voxels
            (min_max 255 0 (eight_bit (vol.dtype key.level) voxels)))
    ]
