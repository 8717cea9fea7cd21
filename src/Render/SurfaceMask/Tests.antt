-- ===== src/Render/SurfaceMask/Tests.antt =====
-- src/render/SurfaceMask.cpp: samples of two tasks, merged.
use scrollviewer.Base.{ℕ_discrete, arith, ◌≡◌, refl, [], ◌∷◌}
use scrollviewer.Base.Assoc
use scrollviewer.Render.SurfaceMask.{
  Triple, Blocks, mask_axis, mask_grid, brick_index, cell_index, mark_sample, mark_samples,
  merge_into, merge_part, merge_parts, build_blocks, set_bricks, presence_0, parent, lift_row,
  lift_plane, lift_level, presence_from, presence,
}
use scrollviewer.Render.SurfaceMask.Marked.{cell_at}
use scrollviewer.Render.SurfaceMask.Levels.{IsPresent, AreInside, presence-IsPresent}
use scrollviewer.Render.SurfaceMask.Merged.{build_blocks-any_part}

abbrev shape : Triple
shape = record { z = 200; y = 130; x = 100 }

abbrev grid : Triple
grid = record { z = 2; y = 2; x = 1 }

abbrev low : Triple
low = record { z = 3; y = 9; x = 20 }

abbrev high : Triple
high = record { z = 140; y = 129; x = 99 }

grid-of_shape : mask_grid shape ≡ grid
unfolding mask_grid mask_axis
grid-of_shape = refl

brick_of_high : brick_index grid high ≡ 3
unfolding brick_index
brick_of_high = refl

cell_of_low : cell_index low ≡ 18
unfolding cell_index
cell_of_low = refl

-- Two tasks, of which both mark the voxel `low`.
build_blocks-any_part_example :
    cell_at (build_blocks grid ((low ∷ high ∷ []) ∷ (low ∷ []) ∷ [])) 0 18 ≡ 255
unfolding brick_index cell_index
build_blocks-any_part_example =
    build_blocks-any_part grid ((low ∷ high ∷ []) ∷ (low ∷ []) ∷ []) 0 18

-- One brick above the four of the grid.
abbrev top : Triple
top = record { z = 1; y = 1; x = 1 }

abbrev touched : Blocks
touched = build_blocks grid ((low ∷ []) ∷ (high ∷ []) ∷ [])

presence_of_touched :
    presence grid (grid ∷ top ∷ []) touched ≡ (255 ∷ 0 ∷ 0 ∷ 255 ∷ []) ∷ (255 ∷ []) ∷ []
unfolding presence presence_0 presence_from set_bricks lift_level lift_plane lift_row parent
    build_blocks merge_parts merge_part mark_samples mark_sample ℕ_discrete brick_index Assoc.insert
    Assoc.lookup merge_into
presence_of_touched = refl

touched-AreInside : AreInside grid touched
unfolding presence presence_0 presence_from set_bricks lift_level lift_plane lift_row parent
    build_blocks merge_parts merge_part mark_samples mark_sample ℕ_discrete brick_index Assoc.insert
    Assoc.lookup merge_into
touched-AreInside = (omega arith, (omega arith, tt))

presence-IsPresent_example :
    IsPresent touched (grid ∷ top ∷ []) (presence grid (grid ∷ top ∷ []) touched)
presence-IsPresent_example =
    presence-IsPresent grid (top ∷ []) touched (omega arith) touched-AreInside
      ((omega arith, omega arith, omega arith, omega arith), tt)
