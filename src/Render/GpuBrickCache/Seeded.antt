-- ===== src/Render/GpuBrickCache/Seeded.antt =====
-- src/render/GpuBrickCache.cpp: `seedEmpties` enters exactly the empty bricks of a level.
use scrollviewer.Base.{
  ℕ, zero, suc, ◌+◌, ◌/◌, ◌%◌, ◌^◌, ◌<◌, ◌≤◌, ◌≡◌, sym, subst, ap, ◌∙◌, ◌⊎◌, inl, inr, Bool, true,
  some, List, [], ◌∷◌, map, arith, get_elem?, false, ◌≢◌, ℕ_discrete, Bool-cases,
}
use scrollviewer.Base.Loops.{for_range, for_range_rule}
use scrollviewer.Data.BrickKey.{BrickKey}
use scrollviewer.Render.GpuBrickCache.{Dims, Level, Pages, tile_dim, is_empty_entry, read_entry}
use scrollviewer.Render.GpuBrickCache.Tables.{IsPaged}
use scrollviewer.Render.GpuBrickCache.Refined.{read_entry-coord, some_eq}
use scrollviewer.Render.GpuBrickCache.Seeding.{seed_key, seed_tile, seed_empties}
use scrollviewer.Render.GpuBrickCache.Scanned.{Within}
use scrollviewer.Render.GpuBrickCache.Marks.{
  IsBrick, Seeds, Seeds-same, Seeds-both, Emptied, Emptied-keeps,
}
use scrollviewer.Render.GpuBrickCache.Whole.{seed_tile-Seeds}
use scrollviewer.Render.GpuBrickCache.OneEntry.{tile_of-Within}

get_elem?-map :
    (ls : List Level) (n : ℕ) (l : Level)
    → get_elem? ls n ≡ some l
    → get_elem? (map (λ (t : Level). t.dir_dim) ls) n ≡ some l.dir_dim
get_elem?-map [] n l e = absurd (cc)
get_elem?-map (k ∷ ls) zero l e = cc
get_elem?-map (k ∷ ls) (suc n) l e = get_elem?-map ls n l e

-- The axes of a grid stay below the range of 32 bits when they are rounded up to tiles.
abbrev pub Fits : Dims → Type 0
Fits g = (g.z + 16 ≤ 2 ^ 32) × (g.y + 16 ≤ 2 ^ 32) × (g.x + 16 ≤ 2 ^ 32)

module _ (dims : List Dims) (level : ℕ) (d grid : Dims) (is_empty : ℕ → ℕ → ℕ → Bool)
    (there : get_elem? dims level ≡ some d) (small : level < 2 ^ 8) (fit : Fits grid) where
  abbrev Rel : Pages → Pages → Type 0
  Rel = Seeds dims level d grid is_empty

  -- The empty bricks of a tile.
  abbrev Tile : ℕ → ℕ → ℕ → Pages → Type 0
  Tile tz ty tx q =
      (z : ℕ)
      → Within grid.z tz z
      → (y : ℕ) → Within grid.y ty y
      → (x : ℕ) → Within grid.x tx x
      → Emptied dims level d grid is_empty z y x q

  abbrev Row : ℕ → ℕ → Pages → Type 0
  Row tz ty q = (tx : ℕ) → tx < d.x → Tile tz ty tx q

  abbrev Plane : ℕ → Pages → Type 0
  Plane tz q = (ty : ℕ) → ty < d.y → Row tz ty q

  Tile-keeps : (tz ty tx : ℕ) (p q : Pages) → Rel p q → Tile tz ty tx p → Tile tz ty tx q
  Tile-keeps tz ty tx p q r h z wz y wy x wx =
      Emptied-keeps dims level d grid is_empty z y x p q r (h z wz y wy x wx)

  tiles_x : ℕ → ℕ → Pages → Pages
  tiles_x tz ty = for_range (λ tx. seed_tile is_empty grid level tz ty tx) d.x 0

  tiles_y : ℕ → Pages → Pages
  tiles_y tz = for_range (λ ty. tiles_x tz ty) d.y 0

  tiles_z : Pages → Pages
  tiles_z = for_range (λ tz. tiles_y tz) d.z 0

  tiles_x-Seeds :
      (tz ty : ℕ) (p : Pages)
      → tz < d.z
      → ty < d.y
      → IsPaged dims p
      → Rel p (tiles_x tz ty p) × Row tz ty (tiles_x tz ty p)
  unfolding tiles_x
  tiles_x-Seeds tz ty p hz hy v =
      let r =
        for_range_rule (IsPaged dims) Rel (λ tx q. Tile tz ty tx q)
          (λ tx. seed_tile is_empty grid level tz ty tx) (Seeds-same dims level d grid is_empty)
          (Seeds-both dims level d grid is_empty) (λ p q s. s.paged) (Tile-keeps tz ty) d.x 0 p
          (λ tx q low high u.
            seed_tile-Seeds dims level d grid is_empty there small fit tz ty tx
              (hz, hy, omega arith) q u)
          v in
      (r.0, λ tx h. r.1 tx (omega arith) (omega arith))

  tiles_y-Seeds :
      (tz : ℕ) (p : Pages)
      → tz < d.z
      → IsPaged dims p
      → Rel p (tiles_y tz p) × Plane tz (tiles_y tz p)
  unfolding tiles_y
  tiles_y-Seeds tz p hz v =
      let r =
        for_range_rule (IsPaged dims) Rel (λ ty q. Row tz ty q) (λ ty. tiles_x tz ty)
          (Seeds-same dims level d grid is_empty) (Seeds-both dims level d grid is_empty)
          (λ p q s. s.paged) (λ ty p q s h tx k. Tile-keeps tz ty tx p q s (h tx k)) d.y 0 p
          (λ ty q low high u. tiles_x-Seeds tz ty q hz (omega arith) u) v in
      (r.0, λ ty h. r.1 ty (omega arith) (omega arith))

  tiles_z-Seeds :
      (p : Pages)
      → IsPaged dims p
      → Rel p (tiles_z p) × ((tz : ℕ) → tz < d.z → Plane tz (tiles_z p))
  unfolding tiles_z
  tiles_z-Seeds p v =
      let r =
        for_range_rule (IsPaged dims) Rel (λ tz q. Plane tz q) (λ tz. tiles_y tz)
          (Seeds-same dims level d grid is_empty) (Seeds-both dims level d grid is_empty)
          (λ p q s. s.paged) (λ tz p q s h ty g tx k. Tile-keeps tz ty tx p q s (h ty g tx k)) d.z 0
          p (λ tz q low high u. tiles_y-Seeds tz q (omega arith) u) v in
      (r.0, λ tz h. r.1 tz (omega arith) (omega arith))

  key_level : level % 2 ^ 8 ≡ level
  key_level = omega (arith, small)

  -- A brick of the level, after the loops.
  emptied_brick :
      (p : Pages) (j : BrickKey)
      → ((tz : ℕ) → tz < d.z → Plane tz p)
      → IsBrick dims level d grid is_empty j
      → j.level ≡ level
      → is_empty j.z j.y j.x ≡ true
      → (is_empty_entry (read_entry p j) ≡ true) ⊎ (p.tiles_allocated ≡ p.tile_capacity)
  emptied_brick p j h b e f =
      let g = b.placed in
      let same : g.d ≡ d = some_eq (sym g.there ∙ ap (get_elem? dims) e ∙ there) in
      let i = b.inside e in
      let k = seed_key level j.z j.y j.x in
      let coord : k.coord ≡ j.coord =
        ap (λ (n : ℕ). record { level = n; z = j.z; y = j.y; x = j.x }) (key_level ∙ sym e) in
      let r =
        h (j.z / tile_dim) (subst (λ a. j.z / tile_dim < a.z) same g.z_in) (j.y / tile_dim)
          (subst (λ a. j.y / tile_dim < a.y) same g.y_in) (j.x / tile_dim)
          (subst (λ a. j.x / tile_dim < a.x) same g.x_in) j.z (tile_of-Within grid.z j.z i.0 fit.0)
          j.y (tile_of-Within grid.y j.y i.1 fit.1) j.x (tile_of-Within grid.x j.x i.2 fit.2)
          (record {
            placed = record {
              d = g.d;
              there = ap (get_elem? dims) (key_level ∙ sym e) ∙ g.there;
              z_in = g.z_in;
              y_in = g.y_in;
              x_in = g.x_in;
            };
            inside = λ _. i;
          })
          f in
      elim r [
        | inl t ↦ inl (ap is_empty_entry (read_entry-coord p j k (sym coord)) ∙ t)
        | inr full ↦ inr full
      ]

loops-Seeds :
    (dims : List Dims) (level : ℕ) (is_empty : ℕ → ℕ → ℕ → Bool) (p : Pages) (l : Level)
    → IsPaged dims p
    → get_elem? p.levels level ≡ some l
    → level < 2 ^ 8
    → Fits l.grid
    → Seeds dims level l.dir_dim l.grid is_empty p (seed_empties level is_empty p)
      × ((j : BrickKey)
          → IsBrick dims level l.dir_dim l.grid is_empty j
          → j.level ≡ level
          → is_empty j.z j.y j.x ≡ true
          → (is_empty_entry (read_entry (seed_empties level is_empty p) j) ≡ true)
            ⊎ ((seed_empties level is_empty p).tiles_allocated
                ≡ (seed_empties level is_empty p).tile_capacity))
unfolding seed_empties tiles_x tiles_y tiles_z
loops-Seeds dims level is_empty p l v here small fit =
    let there : get_elem? dims level ≡ some l.dir_dim =
      ap (λ ds. get_elem? ds level) (sym v.shape) ∙ get_elem?-map p.levels level l here in
    let r = tiles_z-Seeds dims level l.dir_dim l.grid is_empty there small fit p v in
    rw (seed_empties, here)
      (
        r.0,
        λ j.
            emptied_brick dims level l.dir_dim l.grid is_empty there small fit
              (tiles_z dims level l.dir_dim l.grid is_empty there small fit p) j r.1,
      )

-- The tables after `seedEmpties`, at one brick.
pub record IsSeededAt (dims : List Dims) (level : ℕ) (is_empty : ℕ → ℕ → ℕ → Bool) (p p' : Pages)
    (j : BrickKey) : Type 0 where
  pub paged : IsPaged dims p'
  pub entry :
      (read_entry p' j ≡ read_entry p j)
      ⊎ ((j.level ≡ level)
          × (is_empty j.z j.y j.x ≡ true)
          × (is_empty_entry (read_entry p' j) ≡ true))
  pub entered :
      (j.level ≢ level)
      ⊎ (is_empty j.z j.y j.x ≡ false)
      ⊎ (is_empty_entry (read_entry p' j) ≡ true)
      ⊎ (p'.tiles_allocated ≡ p'.tile_capacity)

-- On a level that the cache has, numbered below 256, whose grid is at most 2^32 - 16 wide on each axis, and
-- for a brick that has a place in the page tables and, if it is of the level, lies in its grid: after
-- `seedEmpties` the tables are well formed; the entry of the brick is as it was, or the brick is an empty
-- one of the level and its entry says so; and if it is an empty one of the level, its entry says so unless
-- the tiles are used up.
pub seed_empties-IsSeededAt :
    (dims : List Dims) (level : ℕ) (is_empty : ℕ → ℕ → ℕ → Bool) (p : Pages) (l : Level)
    (j : BrickKey)
    → IsPaged dims p
    → get_elem? p.levels level ≡ some l
    → level < 2 ^ 8
    → Fits l.grid
    → IsBrick dims level l.dir_dim l.grid is_empty j
    → IsSeededAt dims level is_empty p (seed_empties level is_empty p) j
seed_empties-IsSeededAt dims level is_empty p l j v here small fit b =
    let r = loops-Seeds dims level is_empty p l v here small fit in
    record {
      paged = r.0.paged;
      entry = r.0.entries j b;
      entered = elim (ℕ_discrete j.level level) [
        | no n ↦ inl n
        | yes e ↦ elim (Bool-cases (is_empty j.z j.y j.x)) [
          | inr f ↦ inr (inl f)
          | inl f ↦ inr (inr (r.1 j b e f))
        ]
      ];
    }
