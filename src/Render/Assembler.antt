-- ===== src/Render/Assembler.antt =====
-- src/render/BrickAssembler.h and BrickAssembler.cpp. A coordinate of the bordered brick counts from 0, the
-- source's from -1: the payload is at 1 to the chunk dimension. A read outside a brick's voxels is `none`.
pub mod Rows
pub mod Seams
pub mod Tests
use scrollviewer.Base.{
  ℕ, zero, suc, ◌+◌, ◌-◌, ◌*◌, ◌/◌, ◌%◌, ◌^◌, Bool, true, false, not, ◌&&◌, ◌||◌, Option, none,
  some, List, [], ◌∷◌, ◌++◌, ltb, leb, ◌==◌, if◌then◌else◌, get_elem?,
}
use scrollviewer.Data.BrickKey.{BrickKey, ChunkCoord}
use scrollviewer.Data.RamCache.{Brick, RamCache, get}
use scrollviewer.Data.Volume.{Dtype}
use scrollviewer.Zarr.ArrayMeta.{Axes, ArrayMeta, chunk_grid_dims}

-- `levels` is `level(i)` of the volume, and `to_byte` the cast of a fill value to `std::uint8_t`.
pub record BrickAssembler (D : Type 0) : Type 0 where
  pub levels : ℕ → ArrayMeta D
  pub to_byte : D → ℕ
  pub volume_id : ℕ

unfoldable pub is_u8 : Dtype → Bool
is_u8 Dtype.u8 = true
is_u8 _ = false

unfoldable pub no_voxels : List ℕ → Bool
no_voxels [] = true
no_voxels (_ ∷ _) = false

-- The high byte of a `std::uint16_t` of a little-endian host.
unfoldable pub voxel_at : Dtype → List ℕ → ℕ → Option ℕ
voxel_at Dtype.u8 voxels i = get_elem? voxels i
voxel_at _ voxels i = get_elem? voxels (2 * i + 1)

-- The 27 offsets in the order of the three loops, each counted from 0.
abbrev pub offsets : List Axes
offsets =
    record { z = 0; y = 0; x = 0 }
    ∷ record { z = 0; y = 0; x = 1 }
    ∷ record { z = 0; y = 0; x = 2 }
    ∷ record { z = 0; y = 1; x = 0 }
    ∷ record { z = 0; y = 1; x = 1 }
    ∷ record { z = 0; y = 1; x = 2 }
    ∷ record { z = 0; y = 2; x = 0 }
    ∷ record { z = 0; y = 2; x = 1 }
    ∷ record { z = 0; y = 2; x = 2 }
    ∷ record { z = 1; y = 0; x = 0 }
    ∷ record { z = 1; y = 0; x = 1 }
    ∷ record { z = 1; y = 0; x = 2 }
    ∷ record { z = 1; y = 1; x = 0 }
    ∷ record { z = 1; y = 1; x = 1 }
    ∷ record { z = 1; y = 1; x = 2 }
    ∷ record { z = 1; y = 2; x = 0 }
    ∷ record { z = 1; y = 2; x = 1 }
    ∷ record { z = 1; y = 2; x = 2 }
    ∷ record { z = 2; y = 0; x = 0 }
    ∷ record { z = 2; y = 0; x = 1 }
    ∷ record { z = 2; y = 0; x = 2 }
    ∷ record { z = 2; y = 1; x = 0 }
    ∷ record { z = 2; y = 1; x = 1 }
    ∷ record { z = 2; y = 1; x = 2 }
    ∷ record { z = 2; y = 2; x = 0 }
    ∷ record { z = 2; y = 2; x = 1 }
    ∷ record { z = 2; y = 2; x = 2 }
    ∷ []

unfoldable pub is_center : Axes → Bool
is_center o = o.z == 1 && (o.y == 1 && o.x == 1)

-- The neighbour at the offset is in the grid: `n < 0` is c + o < 1.
unfoldable pub in_grid : Axes → ChunkCoord → Axes → Bool
in_grid g c o =
    (leb 1 (c.z + o.z) && (leb 1 (c.y + o.y) && leb 1 (c.x + o.x)))
    && (ltb (c.z + o.z - 1) g.z && (ltb (c.y + o.y - 1) g.y && ltb (c.x + o.x - 1) g.x))

-- Which neighbour owns a coordinate, and where it is there; and the nearest coordinate of the payload.
unfoldable pub owner : ℕ → ℕ → ℕ
owner dim c = if ltb c 1 then 0 else (if ltb dim c then 2 else 1)

unfoldable pub local : ℕ → ℕ → ℕ
local dim c = if ltb c 1 then dim - 1 else (if ltb dim c then c - 1 - dim else c - 1)

unfoldable pub clamped : ℕ → ℕ → ℕ
clamped dim c = if ltb c 1 then 0 else (if ltb dim c then dim - 1 else c - 1)

-- `copy_n` of a row.
unfoldable pub copy_n : List ℕ → ℕ → ℕ → List (Option ℕ)
copy_n src i zero = []
copy_n src i (suc n) = get_elem? src i ∷ copy_n src (suc i) n

module _ {D : Type 0} (a : BrickAssembler D) where
  unfoldable pub chunk_dim : ℕ
  chunk_dim = (a.levels 0).chunks.z

  unfoldable pub voxel_from : Brick → ℕ → ℕ → ℕ → Option ℕ
  voxel_from b z y x =
      let meta = a.levels b.key.coord.level in
      if b.is_fill_value || no_voxels b.voxels
      then some (a.to_byte meta.fill_value)
      else voxel_at meta.dtype b.voxels ((z * meta.chunks.y + y) * meta.chunks.x + x)

  unfoldable pub neighbour_key : Brick → Axes → BrickKey
  neighbour_key b o = record {
    volume_id = a.volume_id;
    coord = record {
      level = b.key.coord.level;
      z = (b.key.coord.z + o.z - 1) % 2 ^ 32;
      y = (b.key.coord.y + o.y - 1) % 2 ^ 32;
      x = (b.key.coord.x + o.x - 1) % 2 ^ 32;
    };
  }

  -- One round of the loops that fill `nb`, with the RAM cache, where a get moves what it finds to the front.
  unfoldable pub neighbour : Brick → Axes → RamCache → RamCache × Option Brick
  neighbour b o ram =
      let found = get ram (neighbour_key b o) in
      if is_center o
      then (ram, some b)
      else (if in_grid (chunk_grid_dims (a.levels b.key.coord.level)) b.key.coord o
          then found
          else (ram, none))

  unfoldable pub prefetch : Brick → List Axes → RamCache → RamCache × List (Option Brick)
  prefetch b [] ram = (ram, [])
  prefetch b (o ∷ os) ram =
      let (ram1, n) = neighbour b o ram in let (ram2, ns) = prefetch b os ram1 in (ram2, n ∷ ns)

  module _ (b : Brick) (nb : List (Option Brick)) where
    unfoldable pub neighbour_at : ℕ → ℕ → ℕ → Option Brick
    neighbour_at cz cy cx = elim (get_elem? nb ((cz * 3 + cy) * 3 + cx)) [
      | none ↦ none
      | some n ↦ n
    ]

    unfoldable pub sample : ℕ → ℕ → ℕ → Option ℕ
    sample z y x =
        let d = chunk_dim in
        elim (neighbour_at (owner d z) (owner d y) (owner d x)) [
          | none ↦ voxel_from b (clamped d z) (clamped d y) (clamped d x)
          | some src ↦ voxel_from src (local d z) (local d y) (local d x)
        ]

    unfoldable pub sample_row : ℕ → ℕ → ℕ → ℕ → List (Option ℕ)
    sample_row z y x zero = []
    sample_row z y x (suc n) = sample z y x ∷ sample_row z y (suc x) n

    unfoldable pub is_interior : ℕ → Bool
    is_interior c = leb 1 c && leb c chunk_dim

    -- A row of the output. The copy is from `brick.voxels`, whatever the brick.
    unfoldable pub row : ℕ → ℕ → List (Option ℕ)
    row z y =
        let d = chunk_dim in
        if (is_interior z && is_interior y) && is_u8 (a.levels b.key.coord.level).dtype
        then sample z y 0
          ∷ (copy_n b.voxels (((z - 1) * d + (y - 1)) * d) d ++ sample z y (d + 1) ∷ [])
        else sample_row z y 0 (d + 2)

    unfoldable pub rows : ℕ → ℕ → ℕ → List (Option ℕ)
    rows z y zero = []
    rows z y (suc n) = row z y ++ rows z (suc y) n

    unfoldable pub planes : ℕ → ℕ → List (Option ℕ)
    planes z zero = []
    planes z (suc n) = rows z 0 (chunk_dim + 2) ++ planes (suc z) n

  -- The bytes that are written, in the order of the output, and the RAM cache afterwards.
  unfoldable pub assemble : Brick → RamCache → RamCache × List (Option ℕ)
  assemble b ram = let (ram', nb) = prefetch b offsets ram in (ram', planes b nb 0 (chunk_dim + 2))
