-- ===== src/Data/Snic3d/Voxels.antt =====
-- src/data/Snic3D.cpp: the voxels of a volume, their indices, the grid of seeds and the neighbours.
use scrollviewer.Base.{
  ℕ, zero, suc, ◌+◌, ◌-◌, ◌*◌, ◌/◌, ◌%◌, ◌^◌, Bool, List, [], ◌∷◌, ◌++◌, map, ltb, if◌then◌else◌,
}

abbrev pub u32 : ℕ → ℕ
u32 n = n % 2 ^ 32

abbrev pub u64 : ℕ → ℕ
u64 n = n % 2 ^ 64

pub record Extent : Type 0 where
  pub dz : ℕ
  pub dy : ℕ
  pub dx : ℕ

pub record Voxel : Type 0 where
  pub z : ℕ
  pub y : ℕ
  pub x : ℕ

-- `n`.
abbrev pub voxel_count : Extent → ℕ
voxel_count d = u64 (u64 (d.dz * d.dy) * d.dx)

-- The lambda `at`.
unfoldable pub index_of : Extent → Voxel → ℕ
index_of d v = u64 ((v.z * d.dy + v.y) * d.dx + v.x)

-- The voxel of an index.
unfoldable pub voxel_of : Extent → ℕ → Voxel
voxel_of d i = record { z = u32 (i / (d.dx * d.dy)); y = i / d.dx % d.dy; x = i % d.dx }

-- One of the three loops of the seeds: `for (i = step / 2; i < d; i += step)`, `left` rounds at most.
unfoldable pub axis : ℕ → ℕ → ℕ → ℕ → List ℕ
axis step d zero i = []
axis step d (suc left) i = if ltb i d then i ∷ axis step d left (u32 (i + step)) else []

abbrev pub along : ℕ → ℕ → List ℕ
along step d = axis step d d (step / 2)

abbrev pub concat_map : {A B : Type 0} → (A → List B) → List A → List B
concat_map f [] = []
concat_map f (a ∷ rest) = f a ++ concat_map f rest

-- The voxels of the grid of seeds, in the order of the loops.
unfoldable pub seed_grid : Extent → ℕ → List Voxel
unfolding axis
seed_grid d step =
    concat_map
      (λ z.
        concat_map (λ y. map (λ x. record { z = z; y = y; x = x }) (along step d.dx))
          (along step d.dy))
      (along step d.dz)

-- The neighbours that are inside, in the order in which they are pushed.
abbrev keep : Bool → Voxel → List Voxel → List Voxel
keep b v rest = if b then v ∷ rest else rest

unfoldable pub neighbours : Extent → Voxel → List Voxel
neighbours d v =
    keep (ltb 0 v.x) (record v { x = v.x - 1 })
      (keep (ltb (v.x + 1) d.dx) (record v { x = v.x + 1 })
        (keep (ltb 0 v.y) (record v { y = v.y - 1 })
          (keep (ltb (v.y + 1) d.dy) (record v { y = v.y + 1 })
            (keep (ltb 0 v.z) (record v { z = v.z - 1 })
              (keep (ltb (v.z + 1) d.dz) (record v { z = v.z + 1 }) [])))))
