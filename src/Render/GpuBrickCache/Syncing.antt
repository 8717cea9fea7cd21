-- ===== src/Render/GpuBrickCache/Syncing.antt =====
-- src/render/GpuBrickCache.cpp: `syncPageTables`, as the copies to the textures that it makes in order, and
-- what `initialize` and `releaseGraphicsResources` do to the state.
use scrollviewer.Base.{
  ℕ, zero, suc, ◌*◌, ◌/◌, ◌%◌, Bool, true, false, not, ◌&&◌, List, [], ◌∷◌, ◌++◌, get_or, set, take,
  drop, if◌then◌else◌,
}
use scrollviewer.Render.GpuBrickCache.{Dims, Level, Pages, GpuBrickCache, tile_entries}

-- A call of `glTexSubImage3D`: a whole directory of a level, or a tile of the entries or of the occupancy,
-- with its place in the texture and the data.
pub data Copy : Type 0 where
  dir : ℕ → List ℕ → Copy
  entries : Dims → List ℕ → Copy
  occupancy : Dims → List ℕ → Copy

-- The level is copied if its directory has changed and has a texture.
unfoldable pub sync_levels : (ℕ → Bool) → ℕ → List Level → List Copy × List Level
sync_levels has n [] = ([], [])
sync_levels has n (l ∷ ls) =
    let rest = sync_levels has (suc n) ls in
    if l.dir_dirty && has n
    then (Copy.dir n l.dir_mirror ∷ rest.0, record l { dir_dirty = false } ∷ rest.1)
    else (rest.0, l ∷ rest.1)

unfoldable pub tile_box : Dims → ℕ → Dims
tile_box dims t = record { z = t / (dims.x * dims.y); y = t / dims.x % dims.y; x = t % dims.x }

unfoldable pub tile_slice : ℕ → Pages → List ℕ
tile_slice t p = take tile_entries (drop (t * tile_entries) p.tile_mirror)

unfoldable pub occ_slice : ℕ → Pages → List ℕ
occ_slice t p = take (tile_entries * 2) (drop (t * tile_entries * 2) p.occ_mirror)

-- The two loops over the tiles, `left` rounds from a tile on.
unfoldable pub sync_tiles : Dims → Pages → ℕ → ℕ → List Copy
sync_tiles dims p zero t = []
sync_tiles dims p (suc left) t =
    let rest = sync_tiles dims p left (suc t) in
    if get_or p.tile_dirty t false
    then Copy.entries (tile_box dims t) (tile_slice t p) ∷ rest
    else rest

unfoldable pub sync_occupancy : Dims → Pages → ℕ → ℕ → List Bool → List Copy × List Bool
sync_occupancy dims p zero t dirty = ([], dirty)
sync_occupancy dims p (suc left) t dirty =
    let clean = sync_occupancy dims p left (suc t) dirty in
    let rest = sync_occupancy dims p left (suc t) (set dirty t false) in
    if get_or dirty t false
    then (Copy.occupancy (tile_box dims t) (occ_slice t p) ∷ rest.0, rest.1)
    else clean

-- `has` tells which levels have a texture, `ready` whether the tiles do.
unfoldable pub sync_page_tables : (ℕ → Bool) → Bool → Dims → Pages → List Copy × Pages
sync_page_tables has ready dims p =
    let levels = sync_levels has 0 p.levels in
    let occupancy = sync_occupancy dims p p.tiles_allocated 0 p.tile_dirty in
    if not ready then (levels.0, record p { levels = levels.1 }) else (
      levels.0 ++ (sync_tiles dims p p.tiles_allocated 0 ++ occupancy.0),
      record p { levels = levels.1; tile_dirty = occupancy.1 },
    )

unfoldable pub clean_levels : List Level → List Level
clean_levels [] = []
clean_levels (l ∷ ls) = record l { dir_dirty = false } ∷ clean_levels ls

-- `initialize`: the textures are made with what the mirrors hold.
unfoldable pub make_textures : GpuBrickCache → GpuBrickCache
make_textures c = record c {
  pages = record c.pages { levels = clean_levels c.pages.levels };
  ready = true;
}

unfoldable pub release_graphics_resources : GpuBrickCache → GpuBrickCache
release_graphics_resources c = record c { ready = false }
