-- ===== src/Render/Assembler/Rows.antt =====
-- src/render/BrickAssembler.cpp: the rows that are copied, compared with the sampling of each voxel.
use scrollviewer.Base.{
  ℕ, zero, suc, ◌+◌, ◌-◌, ◌*◌, ◌≡◌, ◌≤◌, refl, sym, ap, ◌∙◌, false, ◌&&◌, Option, some, List, [],
  ◌∷◌, ◌++◌, get_elem?, arith, Bool-cases, inl, inr,
}
use scrollviewer.Data.RamCache.{Brick, RamCache}
use scrollviewer.Data.Volume.{Dtype}
use scrollviewer.Render.Assembler.{
  BrickAssembler, is_u8, no_voxels, voxel_at, offsets, is_center, owner, local, copy_n, chunk_dim,
  voxel_from, neighbour, prefetch, neighbour_at, sample, sample_row, is_interior, row, rows, planes,
  assemble,
}

module _ {D : Type 0} (a : BrickAssembler D) where
  abbrev d : ℕ
  d = chunk_dim a

  -- The bordered brick, voxel by voxel.
  module _ (b : Brick) (nb : List (Option Brick)) where
    pub sample_rows : ℕ → ℕ → ℕ → List (Option ℕ)
    sample_rows z y zero = []
    sample_rows z y (suc n) = sample_row a b nb z y 0 (chunk_dim a + 2) ++ sample_rows z (suc y) n

    pub sample_planes : ℕ → ℕ → List (Option ℕ)
    sample_planes z zero = []
    sample_planes z (suc n) = sample_rows z 0 (chunk_dim a + 2) ++ sample_planes (suc z) n

  -- A brick of 8-bit voxels that is not one fill value, in chunks as wide as the assembler's.
  pub record IsPlain (b : Brick) : Type 0 where
    pub cubic_y : (a.levels b.key.coord.level).chunks.y ≡ chunk_dim a
    pub cubic_x : (a.levels b.key.coord.level).chunks.x ≡ chunk_dim a
    pub not_fill : b.is_fill_value ≡ false
    pub not_empty : no_voxels b.voxels ≡ false

  module _ (b : Brick) (nb : List (Option Brick)) (plain : IsPlain b)
      (bytes : (a.levels b.key.coord.level).dtype ≡ Dtype.u8)
      (center : neighbour_at a b nb 1 1 1 ≡ some b) where
    owner_inside : (c : ℕ) → 1 ≤ c → c ≤ d → owner d c ≡ 1
    unfolding owner
    owner_inside c h k = ground arith

    local_inside : (c : ℕ) → 1 ≤ c → c ≤ d → local d c ≡ c - 1
    unfolding local
    local_inside c h k = ground arith

    -- Inside, the sample is the brick's own voxel.
    sample_inside :
        (z y x : ℕ)
        → 1 ≤ z
        → z ≤ d
        → 1 ≤ y
        → y ≤ d
        → 1 ≤ x
        → x ≤ d
        → sample a b nb z y x ≡ get_elem? b.voxels (((z - 1) * d + (y - 1)) * d + (x - 1))
    unfolding sample voxel_from voxel_at
    sample_inside z y x z1 zd y1 yd x1 xd =
        rw
          (
            sample,
            owner_inside z z1 zd,
            owner_inside y y1 yd,
            owner_inside x x1 xd,
            center,
            local_inside z z1 zd,
            local_inside y y1 yd,
            local_inside x x1 xd,
            voxel_from,
            plain.not_fill,
            plain.not_empty,
            bytes,
            plain.cubic_y,
            plain.cubic_x,
          )
          refl

    row_tail :
        (z y j n : ℕ)
        → 1 ≤ z
        → z ≤ d
        → 1 ≤ y
        → y ≤ d
        → j + n ≡ d
        → sample_row a b nb z y (suc j) (suc n)
          ≡ copy_n b.voxels (((z - 1) * d + (y - 1)) * d + j) n ++ sample a b nb z y (d + 1) ∷ []
    unfolding sample_row copy_n
    row_tail z y j zero z1 zd y1 yd e = ap (λ x. sample a b nb z y x ∷ []) (omega arith)
    row_tail z y j (suc n) z1 zd y1 yd e =
        let base : ℕ = ((z - 1) * d + (y - 1)) * d in
        let here : sample a b nb z y (suc j) ≡ get_elem? b.voxels (base + j) =
          sample_inside z y (suc j) z1 zd y1 yd (omega arith) (omega arith)
          ∙ ap (λ i. get_elem? b.voxels (base + i)) (omega arith) in
        ap (λ v. v ∷ sample_row a b nb z y (suc (suc j)) (suc n)) here
        ∙ ap (λ t. get_elem? b.voxels (base + j) ∷ t)
            (row_tail z y (suc j) n z1 zd y1 yd (omega arith)
              ∙ ap (λ i. copy_n b.voxels i n ++ sample a b nb z y (d + 1) ∷ []) (omega arith))

    row-samples : (z y : ℕ) → row a b nb z y ≡ sample_row a b nb z y 0 (d + 2)
    unfolding row is_interior is_u8 sample_row
    row-samples z y = elim (Bool-cases (is_interior a b nb z && is_interior a b nb y)) [
      | inr e ↦ rw (row, e) refl
      | inl e ↦
          let two : d + 2 ≡ suc (suc d) = omega arith in
          rw (row, e, bytes, two)
            (ap (λ t. sample a b nb z y 0 ∷ t)
              (ap (λ i. copy_n b.voxels i d ++ sample a b nb z y (d + 1) ∷ []) (omega arith)
                ∙ sym (
                    row_tail z y 0 d (ground arith) (ground arith) (ground arith) (ground arith)
                      (omega arith))))
    ]

    rows-samples : (z y n : ℕ) → rows a b nb z y n ≡ sample_rows b nb z y n
    unfolding rows sample_rows
    rows-samples z y zero = refl
    rows-samples z y (suc n) =
        ap (λ t. t ++ rows a b nb z (suc y) n) (row-samples z y)
        ∙ ap (λ t. sample_row a b nb z y 0 (d + 2) ++ t) (rows-samples z (suc y) n)

    pub planes-samples : (z n : ℕ) → planes a b nb z n ≡ sample_planes b nb z n
    unfolding planes sample_planes
    planes-samples z zero = refl
    planes-samples z (suc n) =
        ap (λ t. t ++ planes a b nb (suc z) n) (rows-samples z 0 (d + 2))
        ∙ ap (λ t. sample_rows b nb z 0 (d + 2) ++ t) (planes-samples (suc z) n)

  prefetch_center :
      (b : Brick) (ram : RamCache) → neighbour_at a b (prefetch a b offsets ram).1 1 1 1 ≡ some b
  unfolding neighbour_at prefetch neighbour is_center
  prefetch_center b ram = refl

  -- For a brick of 8-bit voxels that is not one fill value, in chunks as wide as the assembler's: the bordered
  -- brick, most of whose rows are copied, is the one in which each voxel is sampled by itself.
  pub assemble-samples :
      (b : Brick) (ram : RamCache)
      → IsPlain b
      → (a.levels b.key.coord.level).dtype ≡ Dtype.u8
      → (assemble a b ram).1 ≡ sample_planes b (prefetch a b offsets ram).1 0 (chunk_dim a + 2)
  unfolding assemble
  assemble-samples b ram plain bytes =
      planes-samples b (prefetch a b offsets ram).1 plain bytes (prefetch_center b ram) 0 (d + 2)
