-- ===== src/Zarr/ArrayMeta/Sizes.antt =====
-- src/zarr/ArrayMeta.h: the sizes that are computed from metadata.
use scrollviewer.Base.{
  ℕ, zero, suc, ◌+◌, ◌-◌, ◌*◌, ◌/◌, ◌%◌, ◌^◌, ◌<◌, ◌≤◌, ◌≡◌, u64_mod, add64, arith, dec_le,
}
use scrollviewer.Data.Volume.{Dtype}
use scrollviewer.Zarr.ArrayMeta.{
  ArrayMeta, dtype_size, chunk_voxels, chunk_bytes, grid_dim, chunk_grid_dims,
}
use scrollviewer.Zarr.ArrayMeta.Accepted.{IsUsable, EachAxis}

product_bound : (a b m n : ℕ) → a ≤ m → b ≤ n → a * b ≤ m * n
product_bound zero b m n h k = omega arith
product_bound (suc a) b zero n h k = absurd (omega arith)
product_bound (suc a) b (suc m) n h k = omega (arith, product_bound a b m n (omega arith) k)

product_positive : (a b : ℕ) → 0 < a → 0 < b → 0 < a * b
product_positive a b h k = omega (arith, product_bound 1 1 a b h k)

dtype_size_bound : (d : Dtype) → (0 < dtype_size d) × (dtype_size d ≤ 2)
unfolding dtype_size
dtype_size_bound Dtype.u8 = (omega arith, omega arith)
dtype_size_bound Dtype.u16_le = (omega arith, omega arith)
dtype_size_bound Dtype.u16_be = (omega arith, omega arith)

-- On usable metadata the size of a chunk is computed without wrap-around: it is the product of the
-- dimensions and the size of an element, is positive, and is 2^37 at most.
pub chunk_bytes-IsUsable :
    {D : Type 0} (m : ArrayMeta D)
    → IsUsable m
    → (chunk_bytes m ≡ m.chunks.z * m.chunks.y * m.chunks.x * dtype_size m.dtype)
      × (0 < chunk_bytes m)
      × (chunk_bytes m ≤ 2 ^ 37)
unfolding chunk_bytes chunk_voxels
chunk_bytes-IsUsable m u =
    let (z, y, x) = u.chunks_bounded in
    let (z0, y0, x0) = u.chunks_positive in
    let (s0, s) = dtype_size_bound m.dtype in
    let zy = product_bound m.chunks.z m.chunks.y 4096 4096 z y in
    let zyx = product_bound (m.chunks.z * m.chunks.y) m.chunks.x (4096 * 4096) 4096 zy x in
    let all =
      product_bound (m.chunks.z * m.chunks.y * m.chunks.x) (dtype_size m.dtype) (4096 * 4096 * 4096)
        2 zyx s in
    let zy0 = product_positive m.chunks.z m.chunks.y z0 y0 in
    let zyx0 = product_positive (m.chunks.z * m.chunks.y) m.chunks.x zy0 x0 in
    let all0 =
      product_positive (m.chunks.z * m.chunks.y * m.chunks.x) (dtype_size m.dtype) zyx0 s0 in
    let whole : (m.chunks.z * m.chunks.y * m.chunks.x) % u64_mod
        ≡ m.chunks.z * m.chunks.y * m.chunks.x =
      omega arith in
    rw whole (omega arith, omega arith, omega arith)

div_bounds : (n c : ℕ) → 0 < c → (n / c * c ≤ n) × (n < n / c * c + c)
div_bounds n c h = (omega arith, omega arith)

-- The quotient that rounds up is at most the dividend.
ceil_bound : (s c : ℕ) → 0 < s → 0 < c → (s + c - 1) / c ≤ s
ceil_bound s c h k =
    let (low, _) = div_bounds (s + c - 1) c k in
    let q : ℕ = (s + c - 1) / c in
    elim (dec_le q s) [
      | yes small ↦ small
      | no large ↦ absurd (
          omega (
            arith,
            low,
            product_bound (s + 1) c q c (omega arith) (omega arith),
            product_bound s 1 s c (omega arith) k,
          ))
    ]

grid_dim-covers :
    (s c : ℕ)
    → 0 < s
    → s < 2 ^ 32
    → 0 < c
    → c ≤ 4096
    → (s ≤ grid_dim s c * c) × (grid_dim s c * c < s + c)
unfolding grid_dim
grid_dim-covers s c h small k bound =
    let n : (add64 s c + (u64_mod - 1)) % u64_mod ≡ s + c - 1 = omega arith in
    let fits : ((s + c - 1) / c) % 2 ^ 32 ≡ (s + c - 1) / c = omega (arith, ceil_bound s c h k) in
    let (low, high) = div_bounds (s + c - 1) c k in rw (n, fits) (omega arith, omega arith)

-- What one axis of the chunk grid has to do.
abbrev pub Covers : ℕ → ℕ → ℕ → Type 0
Covers shape chunk grid = (shape ≤ grid * chunk) × (grid * chunk < shape + chunk)

-- On usable metadata with a shape below 2^32 on each axis, the chunk grid covers the shape on each axis,
-- and has no chunk that lies wholly outside it.
pub chunk_grid_dims-Covers :
    {D : Type 0} (m : ArrayMeta D)
    → IsUsable m
    → EachAxis (λ n. n < 2 ^ 32) m.shape
    → Covers m.shape.z m.chunks.z (chunk_grid_dims m).z
      × Covers m.shape.y m.chunks.y (chunk_grid_dims m).y
      × Covers m.shape.x m.chunks.x (chunk_grid_dims m).x
unfolding chunk_grid_dims
chunk_grid_dims-Covers m u (z, y, x) =
    let (z0, y0, x0) = u.shape_positive in
    let (cz0, cy0, cx0) = u.chunks_positive in
    let (cz, cy, cx) = u.chunks_bounded in
    (
      grid_dim-covers m.shape.z m.chunks.z z0 z cz0 cz,
      grid_dim-covers m.shape.y m.chunks.y y0 y cy0 cy,
      grid_dim-covers m.shape.x m.chunks.x x0 x cx0 cx,
    )
