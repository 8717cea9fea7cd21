-- ===== src/Render/GpuBrickCache/Seeding.antt =====
-- src/render/GpuBrickCache.cpp: `seedEmpties`, which enters the bricks of a level that are known to be empty.
use scrollviewer.Base.{
  ℕ, ◌+◌, ◌-◌, ◌*◌, ◌%◌, ◌^◌, Bool, true, false, not, ◌&&◌, ◌||◌, none, some, get_elem?, get_or,
  set, min, ◌==◌, if◌then◌else◌,
}
use scrollviewer.Base.Loops.{for_while, for_range}
use scrollviewer.Data.BrickKey.{BrickKey}
use scrollviewer.Render.GpuBrickCache.{Dims, Level, Pages, tile_dim, mark_empty}

-- `all` and `any`.
pub record Scan : Type 0 where
  pub all : Bool
  pub any : Bool

-- The end of a tile on an axis, in 32 bits.
unfoldable pub tile_end : ℕ → ℕ → ℕ
tile_end extent t = min extent ((t + 1) * tile_dim % 2 ^ 32)

-- The condition of the three loops over the bricks of a tile.
unfoldable pub is_undecided : Scan → Bool
is_undecided s = s.all || not s.any

abbrev pub seed_key : ℕ → ℕ → ℕ → ℕ → BrickKey
seed_key level z y x = record {
  volume_id = 0;
  coord = record { level = level % 2 ^ 8; z = z; y = y; x = x };
}

-- The function `isEmpty`, and the bricks of the level.
module _ (is_empty : ℕ → ℕ → ℕ → Bool) (grid : Dims) where
  unfoldable pub look : ℕ → ℕ → ℕ → Scan → Scan
  look z y x s = if is_empty z y x then record s { any = true } else record s { all = false }

  unfoldable pub scan_row : ℕ → ℕ → ℕ → Scan → Scan
  scan_row tx z y =
      for_while is_undecided (look z y) (tile_end grid.x tx - tx * tile_dim) (tx * tile_dim)

  unfoldable pub scan_plane : ℕ → ℕ → ℕ → Scan → Scan
  scan_plane ty tx z =
      for_while is_undecided (scan_row tx z) (tile_end grid.y ty - ty * tile_dim) (ty * tile_dim)

  unfoldable pub scan_tile : ℕ → ℕ → ℕ → Scan
  scan_tile tz ty tx =
      for_while is_undecided (scan_plane ty tx) (tile_end grid.z tz - tz * tile_dim) (tz * tile_dim)
        (record { all = true; any = false })

  unfoldable pub mark_one : ℕ → ℕ → ℕ → ℕ → Pages → Pages
  mark_one level z y x p = if is_empty z y x then mark_empty (seed_key level z y x) p else p

  unfoldable pub mark_row : ℕ → ℕ → ℕ → ℕ → Pages → Pages
  mark_row level tx z y =
      for_range (mark_one level z y) (tile_end grid.x tx - tx * tile_dim) (tx * tile_dim)

  unfoldable pub mark_plane : ℕ → ℕ → ℕ → ℕ → Pages → Pages
  mark_plane level ty tx z =
      for_range (mark_row level tx z) (tile_end grid.y ty - ty * tile_dim) (ty * tile_dim)

  unfoldable pub mark_tile : ℕ → ℕ → ℕ → ℕ → Pages → Pages
  mark_tile level tz ty tx =
      for_range (mark_plane level ty tx) (tile_end grid.z tz - tz * tile_dim) (tz * tile_dim)

  -- One tile of the directory: a whole tile of empty bricks is one entry.
  unfoldable pub seed_known : ℕ → Level → ℕ → ℕ → ℕ → Pages → Pages
  seed_known level l tz ty tx p =
      let s = scan_tile tz ty tx in
      let di = (tz * l.dir_dim.y + ty) * l.dir_dim.x + tx in
      if s.all && (s.any && get_or l.dir_mirror di 0 == 0)
      then record p {
        levels =
            set p.levels level (record l { dir_mirror = set l.dir_mirror di 1; dir_dirty = true });
      }
      else (if s.any then mark_tile level tz ty tx p else p)

  unfoldable pub seed_tile : ℕ → ℕ → ℕ → ℕ → Pages → Pages
  seed_tile level tz ty tx p = elim (get_elem? p.levels level) [
    | none ↦ p
    | some l ↦ seed_known level l tz ty tx p
  ]

-- The level's directory, tile by tile.
unfoldable pub seed_empties : ℕ → (ℕ → ℕ → ℕ → Bool) → Pages → Pages
seed_empties level is_empty p = elim (get_elem? p.levels level) [
  | none ↦ p
  | some l ↦
      for_range
        (λ tz.
          for_range (λ ty. for_range (λ tx. seed_tile is_empty l.grid level tz ty tx) l.dir_dim.x 0)
            l.dir_dim.y 0)
        l.dir_dim.z 0 p
]
