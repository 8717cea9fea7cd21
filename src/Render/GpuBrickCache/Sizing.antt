-- ===== src/Render/GpuBrickCache/Sizing.antt =====
-- src/render/GpuBrickCache.cpp: the sizes that the constructor chooses, and where the slots lie in the pool.
-- `ceil(cbrt(n))`, in floating point, is the argument `root`.
use Prim.Native.Nat.{bit_or}
use native.Mathlib.Nat.{
  div-div-eq-div-mul, mod-lt, div-add-mod', div-lt_iff_lt-mul, le-div_iff_mul-le, div-mul-le_self,
  mul-le-mul_right, mul-le-mul_left, mul-le-mul, mul_assoc, mul_comm,
}
use scrollviewer.Base.{
  ℕ, ◌+◌, ◌-◌, ◌*◌, ◌/◌, ◌%◌, ◌^◌, ◌≡◌, ◌≤◌, ◌<◌, sym, ap, ◌∙◌, subst, false, List, All, map, total,
  replicate, ltb, if◌then◌else◌, min, max, arith,
}
use scrollviewer.Base.Bits.{bit_or_fields, bit_or_above}
use scrollviewer.Render.GpuBrickCache.{
  Dims, Level, Pages, GpuBrickCache, tile_dim, tile_entries, init_pool, slot_entry, resident_bit,
}

-- `std::clamp`, whose bounds are in order.
unfoldable pub clamp : ℕ → ℕ → ℕ → ℕ
clamp v lo hi = if ltb v lo then lo else (if ltb hi v then hi else v)

unfoldable pub dir_axis : ℕ → ℕ
dir_axis extent = (extent + tile_dim - 1) % 2 ^ 32 / tile_dim

abbrev pub box : Dims → ℕ
box d = d.z * d.y * d.x

unfoldable pub dir_dims : Dims → Dims
dir_dims g = record { z = dir_axis g.z; y = dir_axis g.y; x = dir_axis g.x }

unfoldable pub new_level : Dims → Level
new_level g = record {
  grid = g;
  dir_dim = dir_dims g;
  dir_mirror = replicate (box (dir_dims g) % 2 ^ 64) 0;
  dir_dirty = false;
}

-- The bound on the tiles: the sum over the levels is a `std::size_t`.
unfoldable pub most_tiles : List Dims → ℕ
most_tiles levels = min (total (λ g. box (dir_dims g)) levels % 2 ^ 64) 65536

-- In 32 bits. The root of no tiles is 0, and the source then divides by zero.
unfoldable pub tile_pool_dims : (ℕ → ℕ) → List Dims → Dims
tile_pool_dims root levels =
    let tiles = most_tiles levels in
    let axis = root tiles in
    let square = axis * axis % 2 ^ 32 in
    record { z = axis; y = axis; x = (tiles + square + (2 ^ 32 - 1)) % 2 ^ 32 / square }

-- What the constructor needs of its levels and of the root: every directory has a size that does not wrap, there
-- is a tile, and the root of up to 65536 tiles is between 1 and 41.
pub record AreSizable (root : ℕ → ℕ) (levels : List Dims) : Type 0 where
  pub small : All (λ g. box (dir_dims g) < 2 ^ 64) levels
  pub a_tile : 0 < most_tiles levels
  pub root_bounds : (n : ℕ) → 0 < n → n ≤ 65536 → (0 < root n) × (root n ≤ 41)

unfoldable pub new_pages : (ℕ → ℕ) → List Dims → Pages
new_pages root levels =
    let capacity = box (tile_pool_dims root levels) % 2 ^ 32 in
    record {
      levels = map new_level levels;
      tile_capacity = capacity;
      tiles_allocated = 0;
      tile_mirror = replicate (capacity * tile_entries % 2 ^ 64) 0;
      occ_mirror = replicate (capacity * tile_entries * 2 % 2 ^ 64) 0;
      tile_dirty = replicate capacity false;
    }

-- `slotDims_`, of a bordered dimension and a budget in bytes.
unfoldable pub pool_dims : (ℕ → ℕ) → ℕ → ℕ → Dims
pool_dims root bordered budget =
    let wanted = max 8 (budget / (bordered * bordered * bordered)) in
    let most = 2048 / bordered in
    let s = clamp (root wanted) 2 most in
    record { z = s; y = s; x = clamp (wanted / (s * s)) 1 most }

-- The cache as the constructor makes it.
unfoldable pub new_cache : (ℕ → ℕ) → List Dims → ℕ → ℕ → GpuBrickCache
new_cache root levels bordered budget = record {
  pages = new_pages root levels;
  pool = init_pool (box (pool_dims root bordered budget));
  slot_dims = pool_dims root bordered budget;
  ready = false;
  frame = 0;
}

clamp_bounds : (v lo hi : ℕ) → lo ≤ hi → (lo ≤ clamp v lo hi) × (clamp v lo hi ≤ hi)
unfolding clamp
clamp_bounds v lo hi h = (ground arith, ground arith)

-- An entry that leads to the slot at three coordinates, read field by field.
pub record LeadsTo (dims : Dims) (slot entry : ℕ) : Type 0 where
  pub x : ℕ
  pub y : ℕ
  pub z : ℕ
  pub x_field : entry % 2 ^ 10 ≡ x
  pub y_field : entry / 2 ^ 10 % 2 ^ 10 ≡ y
  pub z_field : entry / 2 ^ 20 % 2 ^ 10 ≡ z
  pub is_resident : entry / 2 ^ 30 ≡ 1
  pub is_slot : (z * dims.y + y) * dims.x + x ≡ slot
  pub x_inside : x < dims.x
  pub y_inside : y < dims.y
  pub z_inside : z < dims.z

entry_fields :
    (x y z : ℕ)
    → x < 2 ^ 10
    → y < 2 ^ 10
    → z < 2 ^ 10
    → bit_or (bit_or (bit_or resident_bit x) (y * 2 ^ 10)) (z * 2 ^ 20)
      ≡ 2 ^ 30 + z * 2 ^ 20 + y * 2 ^ 10 + x
entry_fields x y z hx hy hz =
    let first : bit_or resident_bit x ≡ 2 ^ 20 * 2 ^ 10 + x = bit_or_fields 10 (2 ^ 20) x hx in
    let second : bit_or (2 ^ 20 * 2 ^ 10 + x) (y * 2 ^ 10) ≡ (2 ^ 10 * 2 ^ 10 + y) * 2 ^ 10 + x =
      bit_or_above 10 (2 ^ 20) y x hx ∙ ap (λ t. t * 2 ^ 10 + x) (bit_or_fields 10 (2 ^ 10) y hy) in
    let whole : (2 ^ 10 * 2 ^ 10 + y) * 2 ^ 10 + x ≡ 2 ^ 10 * 2 ^ 20 + (y * 2 ^ 10 + x) =
      omega arith in
    let third : bit_or (2 ^ 10 * 2 ^ 20 + (y * 2 ^ 10 + x)) (z * 2 ^ 20)
        ≡ (1 * 2 ^ 10 + z) * 2 ^ 20 + (y * 2 ^ 10 + x) =
      bit_or_above 20 (2 ^ 10) z (y * 2 ^ 10 + x) (omega arith)
      ∙ ap (λ t. t * 2 ^ 20 + (y * 2 ^ 10 + x)) (bit_or_fields 10 1 z hz) in
    ap (λ t. bit_or (bit_or t (y * 2 ^ 10)) (z * 2 ^ 20)) first
    ∙ ap (λ t. bit_or t (z * 2 ^ 20)) (second ∙ whole)
    ∙ third
    ∙ omega arith

fields_of :
    (x y z : ℕ)
    → x < 2 ^ 10
    → y < 2 ^ 10
    → z < 2 ^ 10
    → let e = 2 ^ 30 + z * 2 ^ 20 + y * 2 ^ 10 + x in
      (e % 2 ^ 10 ≡ x) × (e / 2 ^ 10 % 2 ^ 10 ≡ y) × (e / 2 ^ 20 % 2 ^ 10 ≡ z) × (e / 2 ^ 30 ≡ 1)
fields_of x y z hx hy hz = (omega arith, omega arith, omega arith, omega arith)

slot_entry-LeadsTo :
    (dims : Dims) (slot : ℕ)
    → 0 < dims.x
    → 0 < dims.y
    → dims.x ≤ 2 ^ 10
    → dims.y ≤ 2 ^ 10
    → dims.z ≤ 2 ^ 10
    → slot < box dims
    → LeadsTo dims slot (slot_entry dims slot)
unfolding slot_entry
slot_entry-LeadsTo dims slot px py fx fy fz inside =
    let x : ℕ = slot % dims.x in
    let y : ℕ = slot / dims.x % dims.y in
    let z : ℕ = slot / (dims.x * dims.y) in
    let x_in : x < dims.x = mod-lt slot px in
    let y_in : y < dims.y = mod-lt (slot / dims.x) py in
    let volume : dims.z * dims.y * dims.x ≡ dims.z * (dims.x * dims.y) =
      mul_assoc dims.z dims.y dims.x ∙ ap (λ t. dims.z * t) (mul_comm dims.y dims.x) in
    let z_in : z < dims.z =
      (div-lt_iff_lt-mul (mul-le-mul px py)).1 (subst (λ t. slot < t) volume inside) in
    let entry = entry_fields x y z (omega arith) (omega arith) (omega arith) in
    let fields = fields_of x y z (omega arith) (omega arith) (omega arith) in
    record {
      x = x;
      y = y;
      z = z;
      x_field = ap (λ e. e % 2 ^ 10) entry ∙ fields.0;
      y_field = ap (λ e. e / 2 ^ 10 % 2 ^ 10) entry ∙ fields.1;
      z_field = ap (λ e. e / 2 ^ 20 % 2 ^ 10) entry ∙ fields.2;
      is_resident = ap (λ e. e / 2 ^ 30) entry ∙ fields.3;
      is_slot =
          ap (λ t. (t * dims.y + y) * dims.x + x) (sym (div-div-eq-div-mul slot dims.x dims.y))
          ∙ ap (λ t. t * dims.x + x) (div-add-mod' (slot / dims.x) dims.y)
          ∙ div-add-mod' slot dims.x;
      x_inside = x_in;
      y_inside = y_in;
      z_inside = z_in;
    }

-- For a bordered dimension of 2 to 1024: every slot of a new pool has an entry whose three fields of ten bits
-- and whose resident bit lead back to it, and the pool is at most 2048 voxels wide on each axis.
pub new_cache-LeadsTo :
    (root : ℕ → ℕ) (levels : List Dims) (bordered budget slot : ℕ)
    → 2 ≤ bordered
    → bordered ≤ 1024
    → slot < box (new_cache root levels bordered budget).slot_dims
    → LeadsTo
        (new_cache root levels bordered budget).slot_dims
        slot
        (slot_entry (new_cache root levels bordered budget).slot_dims slot)
      × ((new_cache root levels bordered budget).slot_dims.z * bordered ≤ 2048)
      × ((new_cache root levels bordered budget).slot_dims.y * bordered ≤ 2048)
      × ((new_cache root levels bordered budget).slot_dims.x * bordered ≤ 2048)
unfolding new_cache pool_dims
new_cache-LeadsTo root levels bordered budget slot low high inside =
    let most : ℕ = 2048 / bordered in
    let wanted : ℕ = max 8 (budget / (bordered * bordered * bordered)) in
    let wide : 0 < bordered = omega arith in
    let small : 2 * bordered ≤ 2048 = omega arith in
    let two : 2 ≤ most = (le-div_iff_mul-le wide).1 small in
    let one : 1 ≤ most = omega arith in
    let fits : most * bordered ≤ 2048 = div-mul-le_self 2048 bordered in
    let ten : most ≤ 2 ^ 10 = omega (arith, mul-le-mul_left most low, fits) in
    let s : ℕ = clamp (root wanted) 2 most in
    let s_bounds = clamp_bounds (root wanted) 2 most two in
    let x_bounds = clamp_bounds (wanted / (s * s)) 1 most one in
    (
      slot_entry-LeadsTo (pool_dims root bordered budget) slot (omega (arith, x_bounds))
          (omega (arith, s_bounds)) (omega (arith, x_bounds, ten)) (omega (arith, s_bounds, ten))
          (omega (arith, s_bounds, ten)) inside,
      omega (arith, mul-le-mul_right bordered s_bounds.1, fits),
      omega (arith, mul-le-mul_right bordered s_bounds.1, fits),
      omega (arith, mul-le-mul_right bordered x_bounds.1, fits),
    )
