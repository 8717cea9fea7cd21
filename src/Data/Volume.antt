-- ===== src/Data/Volume.antt =====
-- What the fetch pipeline and the brick assembler ask of src/zarr/OmeZarrVolume.h.
use Prim.Native.String.{String}
use scrollviewer.Base.{ℕ, Option, List}
use scrollviewer.Data.BrickKey.{ChunkCoord}

-- `zarr::Dtype`.
pub data Dtype : Type 0 where
  u8 u16_le u16_be : Dtype

-- `chunk_bytes l`, `dtype l` and `fill_byte l` are `level(l).chunkBytes()`, `level(l).dtype` and
-- `static_cast<std::uint8_t>(level(l).fillValue)`; `decode l src n` is `codec(l).decode` into a
-- buffer of n bytes, `none` for an error.
pub record Volume : Type 0 where
  pub chunk_bytes : ℕ → ℕ
  pub dtype : ℕ → Dtype
  pub fill_byte : ℕ → ℕ
  pub decode : ℕ → List ℕ → ℕ → Option (List ℕ)
  pub chunk_store_key : ChunkCoord → String
