-- ===== src/Render/GpuBrickCache/PageTests.antt =====
-- src/render/GpuBrickCache.cpp: the page tables of a level with two tiles.
use scrollviewer.Base.{
  get_or, inl, false, ◌*◌, ap, ℕ, ◌≡◌, ◌<◌, refl, Bool, true, List, [], ◌∷◌, map, arith, ℕ_discrete,
}
use scrollviewer.Data.BrickKey.{BrickKey, coord_dec}
use scrollviewer.Render.GpuBrickCache.{
  Dims, Level, Pages, dir_index, read_entry, write_entry, write_at, allocate_tile, store_entry,
  resident_bit, empty_bit,
}
use scrollviewer.Render.GpuBrickCache.Sizing.{
  dir_dims, dir_axis, new_level, new_pages, tile_pool_dims, most_tiles, AreSizable,
}
use scrollviewer.Render.GpuBrickCache.Refined.{InGrid, Write, write_all, latest}
use scrollviewer.Render.GpuBrickCache.Fresh.{new_pages-IsPaged, new_pages-latest}
use scrollviewer.Render.GpuBrickCache.Seeding.{seed_empties}
use scrollviewer.Render.GpuBrickCache.Marks.{IsBrick}
use scrollviewer.Render.GpuBrickCache.Seeded.{IsSeededAt, seed_empties-IsSeededAt}
use scrollviewer.Render.GpuBrickCache.Syncing.{tile_box, sync_page_tables}
use scrollviewer.Render.GpuBrickCache.Synced.{held, IsBoxOf, IsMirrored, sync_page_tables-held}

abbrev brick : ℕ → BrickKey
brick x = record { volume_id = 0; coord = record { level = 0; z = 0; y = 0; x = x } }

abbrev grid : Dims
grid = record { z = 1; y = 1; x = 20 }

abbrev fresh : Pages
fresh = new_pages (λ _. 2) (grid ∷ [])

abbrev writes : List Write
writes =
    record { key = brick 1; value = resident_bit; lo = 0; hi = 9 }
    ∷ record { key = brick 17; value = empty_bit; lo = 0; hi = 0 }
    ∷ record { key = brick 1; value = 5; lo = 0; hi = 9 }
    ∷ []

brick-InGrid : (x : ℕ) → x < 20 → InGrid (map dir_dims (grid ∷ [])) (brick x)
unfolding dir_dims dir_axis
brick-InGrid x h = record {
  d = dir_dims grid;
  there = refl;
  z_in = omega arith;
  y_in = omega arith;
  x_in = omega arith;
}

two_tiles : (write_all writes fresh).tiles_allocated ≡ 2
unfolding write_all write_entry write_at allocate_tile store_entry dir_index new_pages new_level
    dir_dims dir_axis tile_pool_dims most_tiles
two_tiles = refl

fresh-AreSizable : AreSizable (λ _. 2) (grid ∷ [])
unfolding most_tiles dir_dims dir_axis
fresh-AreSizable = record {
  small = (omega arith, tt);
  a_tile = omega arith;
  root_bounds = λ n pos small. (omega arith, omega arith);
}

four_tiles : fresh.tile_capacity ≡ 4
unfolding new_pages tile_pool_dims most_tiles dir_dims dir_axis
four_tiles = refl

new_pages-latest_example :
    read_entry (write_all writes fresh) (brick 17) ≡ latest writes (brick 17) 0
new_pages-latest_example =
    new_pages-latest (λ _. 2) (grid ∷ []) writes (brick 17) fresh-AreSizable
      (
        brick-InGrid 1 (omega arith),
        (brick-InGrid 17 (omega arith), (brick-InGrid 1 (omega arith), tt)),
      )
      (brick-InGrid 17 (omega arith)) (omega (arith, two_tiles, four_tiles))

latest_17 : latest writes (brick 17) 0 ≡ empty_bit
unfolding latest coord_dec ℕ_discrete
latest_17 = refl

abbrev all_empty : ℕ → ℕ → ℕ → Bool
all_empty z y x = true

abbrev level : Level
level = new_level grid

level_there : fresh.levels ≡ level ∷ []
unfolding new_pages
level_there = refl

brick-IsBrick : IsBrick (map dir_dims (grid ∷ [])) 0 level.dir_dim level.grid all_empty (brick 17)
unfolding new_level
brick-IsBrick = record {
  placed = brick-InGrid 17 (omega arith);
  inside = λ _. (omega arith, omega arith, omega arith);
}

level_fits : (level.grid.z ≡ 1) × (level.grid.y ≡ 1) × (level.grid.x ≡ 20)
unfolding new_level
level_fits = (refl, refl, refl)

seed_empties-IsSeededAt_example :
    IsSeededAt
      (map dir_dims (grid ∷ []))
      0
      all_empty
      fresh
      (seed_empties 0 all_empty fresh)
      (brick 17)
unfolding new_pages
seed_empties-IsSeededAt_example =
    seed_empties-IsSeededAt (map dir_dims (grid ∷ [])) 0 all_empty fresh level (brick 17)
      (new_pages-IsPaged (λ _. 2) (grid ∷ []) fresh-AreSizable) refl (omega arith)
      (omega (arith, level_fits), omega (arith, level_fits), omega (arith, level_fits))
      brick-IsBrick

-- The new tile of the brick 17, after the writes above: its flag is set.
second_dirty : get_or (write_all writes fresh).tile_dirty 1 false ≡ true
unfolding two_tiles
second_dirty = refl

abbrev pool : Dims
pool = tile_pool_dims (λ _. 2) (grid ∷ [])

pool_is : (pool.z ≡ 2) × (pool.y ≡ 2) × (pool.x ≡ 1)
unfolding tile_pool_dims most_tiles dir_dims dir_axis
pool_is = (refl, refl, refl)

tile_1_inside : 1 < pool.z * pool.y * pool.x
tile_1_inside =
    omega
      (arith, pool_is, ap (λ n. n * pool.y * pool.x) pool_is.0, ap (λ n. 2 * n * pool.x) pool_is.1)

sync_page_tables-held_example :
    IsBoxOf pool 1 (tile_box pool 1)
    × IsMirrored (write_all writes fresh) 1 (
        held
          (tile_box pool 1)
          (sync_page_tables (λ _. true) true pool (write_all writes fresh)).0
          [])
    × (get_or (sync_page_tables (λ _. true) true pool (write_all writes fresh)).1.tile_dirty 1 false
        ≡ false)
sync_page_tables-held_example =
    sync_page_tables-held (λ _. true) pool (write_all writes fresh) 1 [] (omega (arith, two_tiles))
      tile_1_inside (inl second_dirty)
