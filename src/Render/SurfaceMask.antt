-- ===== src/Render/SurfaceMask.antt =====
-- src/render/SurfaceMask.h and SurfaceMask.cpp: the blocks of cells that the swept samples mark, their merge,
-- and the presence of bricks on each level. The samples that `build` computes in floating point are
-- arguments: for each task the voxels that it marks, in order.
pub mod Marked
pub mod Merged
pub mod Present
pub mod Children
pub mod Levels
mod Tests
use scrollviewer.Base.{
  ℕ, zero, suc, ◌+◌, ◌-◌, ◌*◌, ◌/◌, ◌%◌, ◌^◌, max, min, Bool, true, false, Option, none, some, List,
  [], ◌∷◌, ◌++◌, get_or, set, replicate, ltb, ◌==◌, if◌then◌else◌, ℕ_discrete,
}
use scrollviewer.Base.Assoc

abbrev u32 : ℕ → ℕ
u32 n = n % 2 ^ 32

-- A voxel or a grid, by its three axes.
pub record Triple : Type 0 where
  pub z : ℕ
  pub y : ℕ
  pub x : ℕ

unfoldable pub block_cells : ℕ
block_cells = 16 * 16 * 16

abbrev pub Block : Type 0
Block = List ℕ

-- `std::unordered_map` from the index of a brick to its block.
abbrev pub Blocks : Type 0
Blocks = List (ℕ × Block)

-- One axis of `grid_`, for a shape in 64 bits.
unfoldable pub mask_axis : ℕ → ℕ
mask_axis n = u32 ((n + 127) % 2 ^ 64 / 128)

unfoldable pub mask_grid : Triple → Triple
mask_grid shape = record { z = mask_axis shape.z; y = mask_axis shape.y; x = mask_axis shape.x }

-- The index of the brick that holds a voxel, and that of the voxel's cell in the block.
unfoldable pub brick_index : Triple → Triple → ℕ
brick_index grid v = u32 ((v.z / 128 * grid.y + v.y / 128) * grid.x + v.x / 128)

unfoldable pub cell_index : Triple → ℕ
cell_index v = (v.z / 8 % 16 * 16 + v.y / 8 % 16) * 16 + v.x / 8 % 16

-- `block.assign(kBlockDim * kBlockDim * kBlockDim, 0)` on a block that is empty.
unfoldable pub block_or : Option Block → Block
block_or none = replicate block_cells 0
block_or (some b) = b

abbrev pub block_of : ℕ → Blocks → Block
block_of brick m = block_or (Assoc.lookup ℕ_discrete brick m)

-- The lambda `mark`, on a sample that is inside the volume.
unfoldable pub mark_sample : Triple → Triple → Blocks → Blocks
mark_sample grid v m =
    let brick = brick_index grid v in
    Assoc.insert ℕ_discrete brick (set (block_of brick m) (cell_index v) 255) m

unfoldable pub mark_samples : Triple → List Triple → Blocks → Blocks
mark_samples grid [] m = m
mark_samples grid (v ∷ vs) m = mark_samples grid vs (mark_sample grid v m)

-- The rows of a task, from the first to before the last.
unfoldable pub band : ℕ → ℕ → ℕ × ℕ
band rows task = (u32 (rows * task) / 8, u32 (rows * (task + 1)) / 8)

-- `dst[i] = max(dst[i], block[i])`.
unfoldable pub zip_max : Block → Block → Block
zip_max [] bs = []
zip_max (a ∷ as') [] = a ∷ as'
zip_max (a ∷ as') (b ∷ bs) = max a b ∷ zip_max as' bs

unfoldable pub merge_into : Option Block → Block → Block
merge_into none block = block
merge_into (some dst) block = zip_max dst block

-- One entry of a task's map is merged.
abbrev pub merge_one : ℕ → Block → Blocks → Blocks
merge_one brick block m =
    Assoc.insert ℕ_discrete brick (merge_into (Assoc.lookup ℕ_discrete brick m) block) m

unfoldable pub merge_part : Blocks → Blocks → Blocks
merge_part [] m = m
merge_part ((brick, block) ∷ rest) m = merge_part rest (merge_one brick block m)

-- `blocks_` after `build`, from the voxels that each task marks.
unfoldable pub merge_parts : Triple → List (List Triple) → Blocks → Blocks
merge_parts grid [] m = m
merge_parts grid (vs ∷ rest) m = merge_parts grid rest (merge_part (mark_samples grid vs []) m)

unfoldable pub build_blocks : Triple → List (List Triple) → Blocks
build_blocks grid parts = merge_parts grid parts []

abbrev pub cells : Triple → ℕ
cells g = g.z * g.y * g.x

-- Level 0 of the presence.
unfoldable pub set_bricks : Blocks → List ℕ → List ℕ
set_bricks [] p = p
set_bricks ((brick, block) ∷ rest) p = set_bricks rest (set p brick 255)

unfoldable pub presence_0 : Triple → Blocks → List ℕ
presence_0 grid m = set_bricks m (replicate (cells grid % 2 ^ 64) 0)

abbrev pub flat : Triple → ℕ → ℕ → ℕ → ℕ
flat g z y x = (z * g.y + y) * g.x + x

-- The brick of the next level that has a brick as its child.
unfoldable pub parent : Triple → ℕ → ℕ → ℕ → ℕ
parent g z y x = flat g (min (z / 2) (g.z - 1)) (min (y / 2) (g.y - 1)) (min (x / 2) (g.x - 1))

-- One round of the innermost loop.
abbrev pub lift_one : Triple → Triple → List ℕ → ℕ → ℕ → ℕ → List ℕ → List ℕ
lift_one cg g c z y x p = if get_or c (flat cg z y x) 0 == 0 then p else set p (parent g z y x) 255

-- The three loops over the bricks of the finer level, where a read outside its presence gives 0 (in the
-- source it is undefined, and there is none if the first grid is that of the mask), `left` rounds from an index on.
unfoldable pub lift_row : Triple → Triple → List ℕ → ℕ → ℕ → ℕ → ℕ → List ℕ → List ℕ
lift_row cg g c z y zero x p = p
lift_row cg g c z y (suc left) x p = lift_row cg g c z y left (x + 1) (lift_one cg g c z y x p)

unfoldable pub lift_plane : Triple → Triple → List ℕ → ℕ → ℕ → ℕ → List ℕ → List ℕ
lift_plane cg g c z zero y p = p
lift_plane cg g c z (suc left) y p = lift_plane cg g c z left (y + 1) (lift_row cg g c z y cg.x 0 p)

unfoldable pub lift_level : Triple → Triple → List ℕ → ℕ → ℕ → List ℕ → List ℕ
lift_level cg g c zero z p = p
lift_level cg g c (suc left) z p = lift_level cg g c left (z + 1) (lift_plane cg g c z cg.y 0 p)

-- The levels after the first, from the grid and the presence of the one before.
unfoldable pub presence_from : Triple → List ℕ → List Triple → List (List ℕ)
presence_from cg c [] = []
presence_from cg c (g ∷ gs) =
    let p = lift_level cg g c cg.z 0 (replicate (cells g % 2 ^ 64) 0) in p ∷ presence_from g p gs

unfoldable pub presence : Triple → List Triple → Blocks → List (List ℕ)
presence grid [] m = []
presence grid (g ∷ gs) m = let p0 = presence_0 grid m in p0 ∷ presence_from g p0 gs
