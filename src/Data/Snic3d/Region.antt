-- ===== src/Data/Snic3d/Region.antt =====
-- src/data/Snic3D.cpp: the lambda `at` and the voxel of an index are inverse, and the six pushes are
-- the neighbours of a voxel.
use scrollviewer.Base.{
  ℕ, zero, suc, ◌+◌, ◌*◌, ◌/◌, ◌%◌, ◌^◌, ◌≡◌, ◌≤◌, ◌<◌, ◌↔◌, ◌⊎◌, inl, inr, refl, sym, ◌∙◌, length,
  arith,
}
use scrollviewer.Data.Snic3d.{Extent, Voxel, u32, u64, index_of, voxel_of, voxel_count, neighbours}
use native.Mathlib.Nat.{div-div-eq-div-mul, mod-lt}
use scrollviewer.Data.Snic3d.Queue.{◌∈◌}

abbrev pub Inside : Extent → Voxel → Type 0
Inside d v = (v.z < d.dz) × (v.y < d.dy) × (v.x < d.dx)

abbrev pub volume : Extent → ℕ
volume d = d.dz * d.dy * d.dx

-- So many voxels that every index and every label is a positive `int32_t`.
abbrev pub IsSmall : Extent → Type 0
IsSmall d = volume d < 2 ^ 31

abbrev Beside : ℕ → ℕ → Type 0
Beside a b = (a + 1 ≡ b) ⊎ (b + 1 ≡ a)

-- The voxels have a face in common.
unfoldable pub Touches : Voxel → Voxel → Type 0
Touches v w =
    (v.z ≡ w.z) × (v.y ≡ w.y) × Beside v.x w.x
    ⊎ (v.z ≡ w.z) × Beside v.y w.y × (v.x ≡ w.x)
    ⊎ Beside v.z w.z × (v.y ≡ w.y) × (v.x ≡ w.x)

unfoldable pub Adjacent : Extent → ℕ → ℕ → Type 0
Adjacent d i j = Touches (voxel_of d i) (voxel_of d j)

row-lt : (y dy x dx : ℕ) → y < dy → x < dx → y * dx + x < dy * dx
row-lt y dy x dx hy hx = grind arith

row_div : (y x dx : ℕ) → x < dx → (y * dx + x) / dx ≡ y
row_div y x dx h = grind arith

row_mod : (y x dx : ℕ) → x < dx → (y * dx + x) % dx ≡ x
row_mod y x dx h = grind arith

div-lt : (i y x : ℕ) → i < y * x → i / x < y
div-lt i y x h = grind arith

zero-or : (n : ℕ) → (n ≡ 0) ⊎ (1 ≤ n)
zero-or zero = inl refl
zero-or (suc n) = inr (omega arith)

le-mul : (a b : ℕ) → 1 ≤ b → a ≤ a * b
le-mul a b h = grind arith

pos_right : (a b : ℕ) → 0 < a * b → 0 < b
pos_right a b h = grind arith

pos_middle : (a b c : ℕ) → 0 < a * b * c → 0 < b
pos_middle a b c h = grind arith

Voxel_ext :
    {z y x : ℕ} {v : Voxel} → z ≡ v.z → y ≡ v.y → x ≡ v.x → record { z = z; y = y; x = x } ≡ v
Voxel_ext hz hy hx = rw (hz, hy, hx) refl

module _ (d : Extent) (small : IsSmall d) where
  pub voxel_count-volume : voxel_count d ≡ volume d
  voxel_count-volume = elim (zero-or d.dx) [
    | inl e ↦ rw (e) (omega arith)
    | inr pos ↦
        let rows : u64 (d.dz * d.dy) ≡ d.dz * d.dy = omega (arith, le-mul (d.dz * d.dy) d.dx pos) in
        rw (rows) (omega arith)
  ]

  depth_le : (z : ℕ) → z < d.dz → 0 < d.dy → 0 < d.dx → z < 2 ^ 31
  depth_le z h hy hx = omega (arith, le-mul d.dz d.dy hy, le-mul (d.dz * d.dy) d.dx hx)

  -- No product or sum of `at` wraps.
  index_of_plain :
      (v : Voxel)
      → Inside d v
      → (index_of d v ≡ (v.z * d.dy + v.y) * d.dx + v.x) × (index_of d v < volume d)
  unfolding index_of
  index_of_plain v (hz, hy, hx) =
      let row = row-lt v.z d.dz v.y d.dy hz hy in
      let whole = row-lt (v.z * d.dy + v.y) (d.dz * d.dy) v.x d.dx row hx in
      (omega arith, omega arith)

  pub index_of-lt : (v : Voxel) → Inside d v → index_of d v < volume d
  index_of-lt v h = (index_of_plain v h).1

  pub voxel_of-index_of : (v : Voxel) → Inside d v → voxel_of d (index_of d v) ≡ v
  unfolding voxel_of
  voxel_of-index_of v (hz, hy, hx) =
      let e = (index_of_plain v (hz, hy, hx)).0 in
      let row = row_div (v.z * d.dy + v.y) v.x d.dx hx in
      let col = row_mod (v.z * d.dy + v.y) v.x d.dx hx in
      let plane = row-lt v.y d.dy v.x d.dx hy hx in
      let area : d.dx * d.dy ≡ d.dy * d.dx = omega arith in
      let split : (v.z * d.dy + v.y) * d.dx + v.x ≡ v.z * (d.dy * d.dx) + (v.y * d.dx + v.x) =
        grind arith in
      let slab = row_div v.z (v.y * d.dx + v.x) (d.dy * d.dx) plane in
      let z_small : u32 v.z ≡ v.z = omega (arith, depth_le v.z hz (omega arith) (omega arith)) in
      let z_eq : u32 (index_of d v / (d.dx * d.dy)) ≡ v.z = rw (e, area, split, slab) z_small in
      let y_eq : index_of d v / d.dx % d.dy ≡ v.y = rw (e, row) (row_mod v.z v.y d.dy hy) in
      let x_eq : index_of d v % d.dx ≡ v.x = rw (e) col in Voxel_ext z_eq y_eq x_eq

  pub index_of-voxel_of :
      (i : ℕ) → i < volume d → Inside d (voxel_of d i) × (index_of d (voxel_of d i) ≡ i)
  unfolding voxel_of index_of
  index_of-voxel_of i h =
      let q = i / d.dx in
      let area : d.dx * d.dy ≡ d.dy * d.dx = omega arith in
      let positive : 0 < d.dx = pos_right (d.dz * d.dy) d.dx (omega arith) in
      let positive_y : 0 < d.dy = pos_middle d.dz d.dy d.dx (omega arith) in
      let q_range : q < d.dz * d.dy = div-lt i (d.dz * d.dy) d.dx h in
      let slab : i / (d.dx * d.dy) ≡ q / d.dy = rw (sym (div-div-eq-div-mul i d.dx d.dy)) refl in
      let z_range : q / d.dy < d.dz = div-lt q d.dz d.dy q_range in
      let small_z : u32 (i / (d.dx * d.dy)) ≡ q / d.dy =
        rw slab (omega (arith, depth_le (q / d.dy) z_range positive_y positive)) in
      let inside : Inside d (voxel_of d i) =
        (rw small_z z_range, mod-lt _ positive_y, mod-lt _ positive) in
      (inside, (index_of_plain (voxel_of d i) inside).0 ∙ rw (small_z) (grind arith))

module _ (d : Extent) (v w : Voxel) (inside : Inside d v) where
  pub mem-neighbours : (w ∈ neighbours d v) ↔ (Touches v w × Inside d w)
  unfolding neighbours Touches
  mem-neighbours = (ground arith, ground arith)

pub length-neighbours : (d : Extent) (v : Voxel) → length (neighbours d v) ≤ 6
unfolding neighbours
length-neighbours d v = ground arith
