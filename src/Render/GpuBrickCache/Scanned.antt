-- ===== src/Render/GpuBrickCache/Scanned.antt =====
-- src/render/GpuBrickCache.cpp: what the scan of a tile says of its bricks.
use scrollviewer.Base.{ℕ, ◌+◌, ◌-◌, ◌*◌, ◌<◌, ◌≤◌, ◌≡◌, Bool, true, false, arith}
use scrollviewer.Base.Loops.{for_while_back}
use scrollviewer.Render.GpuBrickCache.{Dims, tile_dim}
use scrollviewer.Render.GpuBrickCache.Seeding.{
  Scan, tile_end, is_undecided, look, scan_row, scan_plane, scan_tile,
}

-- From the start of a tile on, as far as a loop goes.
abbrev pub Within : ℕ → ℕ → ℕ → Type 0
Within extent t i = (t * tile_dim ≤ i) × (i < t * tile_dim + (tile_end extent t - t * tile_dim))

module _ (is_empty : ℕ → ℕ → ℕ → Bool) (grid : Dims) where
  -- Q is a state of the flags that is never left for and entered again, so what it asks of a brick it asks of all.
  module _ (Q : Scan → Type 0) (want : Bool) (on : (s : Scan) → Q s → is_undecided s ≡ true)
      (back : (z y x : ℕ) (s : Scan)
        → Q (look is_empty grid z y x s)
        → Q s × (is_empty z y x ≡ want)) where
    row_back :
        (tx z y : ℕ) (s : Scan)
        → Q (scan_row is_empty grid tx z y s)
        → Q s × ((x : ℕ) → Within grid.x tx x → is_empty z y x ≡ want)
    unfolding scan_row
    row_back tx z y s q =
        let r =
          for_while_back Q (λ x. is_empty z y x ≡ want) is_undecided (look is_empty grid z y) on
            (λ x t. back z y x t) (tile_end grid.x tx - tx * tile_dim) (tx * tile_dim) s q in
        (r.0, λ x w. r.1 x w.0 w.1)

    plane_back :
        (ty tx z : ℕ) (s : Scan)
        → Q (scan_plane is_empty grid ty tx z s)
        → Q s × ((y x : ℕ) → Within grid.y ty y → Within grid.x tx x → is_empty z y x ≡ want)
    unfolding scan_plane
    plane_back ty tx z s q =
        let r =
          for_while_back Q (λ y. (x : ℕ) → Within grid.x tx x → is_empty z y x ≡ want) is_undecided
            (scan_row is_empty grid tx z) on (λ y t. row_back tx z y t)
            (tile_end grid.y ty - ty * tile_dim) (ty * tile_dim) s q in
        (r.0, λ y x w. r.1 y w.0 w.1 x)

    tile_back :
        (tz ty tx : ℕ)
        → Q (scan_tile is_empty grid tz ty tx)
        → (z y x : ℕ) → Within grid.z tz z
        → Within grid.y ty y
        → Within grid.x tx x
        → is_empty z y x ≡ want
    unfolding scan_tile
    tile_back tz ty tx q z y x w =
        let r =
          for_while_back Q
            (λ z. (y x : ℕ) → Within grid.y ty y → Within grid.x tx x → is_empty z y x ≡ want)
            is_undecided (scan_plane is_empty grid ty tx) on (λ z t. plane_back ty tx z t)
            (tile_end grid.z tz - tz * tile_dim) (tz * tile_dim)
            (record { all = true; any = false }) q in
        r.1 z w.0 w.1 y x

  pub scan_tile-all :
      (tz ty tx : ℕ)
      → (scan_tile is_empty grid tz ty tx).all ≡ true
      → (z y x : ℕ) → Within grid.z tz z
      → Within grid.y ty y
      → Within grid.x tx x
      → is_empty z y x ≡ true
  unfolding is_undecided look
  scan_tile-all =
      tile_back (λ s. s.all ≡ true) true (λ s q. ground arith) (λ z y x s q. ground arith)

  pub scan_tile-any :
      (tz ty tx : ℕ)
      → (scan_tile is_empty grid tz ty tx).any ≡ false
      → (z y x : ℕ) → Within grid.z tz z
      → Within grid.y ty y
      → Within grid.x tx x
      → is_empty z y x ≡ false
  unfolding is_undecided look
  scan_tile-any =
      tile_back (λ s. s.any ≡ false) false (λ s q. ground arith) (λ z y x s q. ground arith)
