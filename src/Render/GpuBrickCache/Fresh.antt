-- ===== src/Render/GpuBrickCache/Fresh.antt =====
-- src/render/GpuBrickCache.cpp: the page tables of a new cache, and any writes to them.
use scrollviewer.Base.{
  ℕ, zero, suc, ◌*◌, ◌%◌, ◌^◌, All, ◌<◌, ◌≡◌, refl, subst, ap, ◌∙◌, none, some, List, [], ◌∷◌, map,
  arith, get_elem?, get_or-replicate, length-replicate,
}
use scrollviewer.Data.BrickKey.{BrickKey}
use scrollviewer.Render.GpuBrickCache.{
  Dims, Level, in_tile_index, read_entry, tile_entry, tile_entries,
}
use scrollviewer.Render.GpuBrickCache.Sizing.{
  dir_dims, new_level, new_pages, tile_pool_dims, box, AreSizable,
}
use scrollviewer.Render.GpuBrickCache.Tables.{dir_at, IsPaged, IsSized}
use scrollviewer.Render.GpuBrickCache.Refined.{
  InGrid, AllInGrid, Write, write_all, latest, write_all-latest, read_entry-read_at, index_in,
}

new_level-shape :
    (gs : List Dims) → map (λ (l : Level). l.dir_dim) (map new_level gs) ≡ map dir_dims gs
unfolding new_level
new_level-shape [] = refl
new_level-shape (g ∷ gs) = ap (λ t. dir_dims g ∷ t) (new_level-shape gs)

new_level-dir_at : (gs : List Dims) (n i : ℕ) → dir_at (map new_level gs) n i ≡ 0
unfolding new_level
new_level-dir_at [] n i = refl
new_level-dir_at (g ∷ gs) zero i = get_or-replicate {A = ℕ} (box (dir_dims g) % 2 ^ 64) i 0
new_level-dir_at (g ∷ gs) (suc n) i = new_level-dir_at gs n i

no_wrap : (n : ℕ) → n < 2 ^ 64 → n % 2 ^ 64 ≡ n
no_wrap n h = omega arith

new_level-IsSized :
    (gs : List Dims) (n : ℕ) (l : Level)
    → All (λ g. box (dir_dims g) < 2 ^ 64) gs
    → get_elem? (map new_level gs) n ≡ some l
    → IsSized l
unfolding new_level
new_level-IsSized [] n l h e = absurd (cc)
new_level-IsSized (g ∷ gs) zero l h e =
    subst (λ o. elim o as (λ _. Type 0) [ none ↦ Unit | some t ↦ IsSized t ]) e
      (length-replicate {A = ℕ} (box (dir_dims g) % 2 ^ 64) 0 ∙ no_wrap (box (dir_dims g)) h.0)
new_level-IsSized (g ∷ gs) (suc n) l h e = new_level-IsSized gs n l h.1 e

pub new_pages-IsPaged :
    (root : ℕ → ℕ) (gs : List Dims)
    → AreSizable root gs
    → IsPaged (map dir_dims gs) (new_pages root gs)
unfolding new_pages
new_pages-IsPaged root gs h =
    let capacity : ℕ = box (tile_pool_dims root gs) % 2 ^ 32 in
    record {
      shape = new_level-shape gs;
      sized = λ n l e. new_level-IsSized gs n l h.small e;
      whole = omega (arith, length-replicate {A = ℕ} (capacity * tile_entries % 2 ^ 64) 0);
      fits = omega arith;
      known = λ n i. omega (arith, new_level-dir_at gs n i);
      apart = λ n i m j g e. absurd (omega (arith, g, new_level-dir_at gs n i));
    }

new_pages-read_entry :
    (root : ℕ → ℕ) (gs : List Dims) (j : BrickKey)
    → AreSizable root gs
    → InGrid (map dir_dims gs) j
    → read_entry (new_pages root gs) j ≡ 0
unfolding new_pages tile_entry
new_pages-read_entry root gs j s h =
    read_entry-read_at (map dir_dims gs) (new_pages root gs) (new_pages-IsPaged root gs s) j h
    ∙ ap (λ d. tile_entry (new_pages root gs) d (in_tile_index j.z j.y j.x))
        (new_level-dir_at gs j.level (index_in h.d j))

-- For levels with a tile whose directories have sizes that do not wrap, and a root that is between 1 and 41 for
-- up to 65536 tiles: after any writes to the page tables of a new cache, of bricks that have a place in them, and
-- as long as the tiles are not used up, the entry of a brick is the one that was written last under its
-- coordinates, and 0 if there was none.
pub new_pages-latest :
    (root : ℕ → ℕ) (gs : List Dims) (ws : List Write) (j : BrickKey)
    → AreSizable root gs
    → AllInGrid (map dir_dims gs) ws
    → InGrid (map dir_dims gs) j
    → (write_all ws (new_pages root gs)).tiles_allocated < (new_pages root gs).tile_capacity
    → read_entry (write_all ws (new_pages root gs)) j ≡ latest ws j 0
new_pages-latest root gs ws j s all h room =
    write_all-latest (map dir_dims gs) ws (new_pages root gs) j (new_pages-IsPaged root gs s) all h
      room
    ∙ ap (latest ws j) (new_pages-read_entry root gs j s h)
