-- ===== src/Render/Assembler/Seams.antt =====
-- src/render/BrickAssembler.cpp: each voxel of the bordered brick is a voxel of the volume.
use native.Mathlib.Nat.{mul-add-div_right, mul-add-mod_self_right, div-eq_of_lt, mod-eq_of_lt}
use scrollviewer.Base.{
  ℕ, zero, suc, ◌+◌, ◌-◌, ◌*◌, ◌/◌, ◌%◌, ◌^◌, ◌≡◌, ◌≤◌, ◌<◌, ◌⊎◌, refl, sym, ap, ◌∙◌, Option, some,
  List, [], ◌∷◌, get_elem?, ltb, ==_iff, arith, true, Bool-cases, inl, inr,
}
use mathlib.Core.Option.{some_inj}
use scrollviewer.Core.LruCache.Coherent.{Coherent}
use scrollviewer.Data.BrickKey.{BrickKey, ChunkCoord, key_dec}
use scrollviewer.Data.RamCache.{Brick, RamCache, get}
use scrollviewer.Data.RamCache.Reads.{get-Coherent, get_again}
use scrollviewer.Zarr.ArrayMeta.{Axes, chunk_grid_dims, grid_dim}
use scrollviewer.Render.Assembler.{
  BrickAssembler, owner, local, chunk_dim, voxel_from, offsets, is_center, in_grid, neighbour_key,
  neighbour, prefetch, neighbour_at, sample,
}

-- Where a coordinate c of the bordered brick of chunk k is in the volume, on one axis: the voxel v, with
-- v + 1 = k * dim + c, is in the chunk before the owner's offset + k.
record IsPlace (dim k c v : ℕ) : Type 0 where
  offset_small : owner dim c < 3
  chunk : k + owner dim c ≡ v / dim + 1
  within : local dim c ≡ v % dim

owner-local :
    (dim k c : ℕ)
    → 0 < dim
    → c ≤ dim + 1
    → ((k + owner dim c) * dim + local dim c + 1 ≡ k * dim + c + dim)
      × (local dim c < dim)
      × (owner dim c < 3)
unfolding owner local
owner-local dim k c pos small = elim (Bool-cases (ltb c 1)) [
  | inl e ↦ rw (owner, local, e) (ground arith, omega arith, omega arith)
  | inr e ↦ elim (Bool-cases (ltb dim c)) [
    | inl h ↦ rw (owner, local, e, h) (ground arith, ground arith, omega arith)
    | inr h ↦ rw (owner, local, e, h) (ground arith, ground arith, omega arith)
  ]
]

split_place :
    (dim q r v : ℕ) → 0 < dim → r < dim → q * dim + r ≡ v + dim → (q ≡ v / dim + 1) × (r ≡ v % dim)
split_place dim zero r v pos small e = absurd (omega (arith, e))
split_place dim (suc m) r v pos small e =
    let same : v ≡ m * dim + r = omega (arith, e) in
    (
      omega (
        arith,
        ap (λ t. t / dim) same ∙ mul-add-div_right pos m r ∙ ap (λ t. m + t) (div-eq_of_lt small),
      ),
      sym (ap (λ t. t % dim) same ∙ mul-add-mod_self_right m dim r ∙ mod-eq_of_lt small),
    )

is_place : (dim k c v : ℕ) → 0 < dim → c ≤ dim + 1 → v + 1 ≡ k * dim + c → IsPlace dim k c v
is_place dim k c v pos small e =
    let (at_chunk, inside, below) = owner-local dim k c pos small in
    let (chunk, within) =
      split_place dim (k + owner dim c) (local dim c) v pos inside (omega (arith, at_chunk, e)) in
    record { offset_small = below; chunk = chunk; within = within }

three : (P : ℕ → Type 0) → P 0 → P 1 → P 2 → (n : ℕ) → n < 3 → P n
three P a b c zero h = a
three P a b c (suc zero) h = b
three P a b c (suc (suc zero)) h = c
three P a b c (suc (suc (suc n))) h = absurd (omega arith)

abbrev offset : ℕ → ℕ → ℕ → Axes
offset z y x = record { z = z; y = y; x = x }

abbrev IsOffset : ℕ → ℕ → ℕ → Type 0
IsOffset z y x = get_elem? offsets ((z * 3 + y) * 3 + x) ≡ some (offset z y x)

three-IsOffset : (z y x : ℕ) → z < 3 → y < 3 → x < 3 → IsOffset z y x
three-IsOffset z y x hz hy hx =
    three (λ z. IsOffset z y x)
      (three (λ y. IsOffset 0 y x) (three (IsOffset 0 0) refl refl refl x hx)
        (three (IsOffset 0 1) refl refl refl x hx) (three (IsOffset 0 2) refl refl refl x hx) y hy)
      (three (λ y. IsOffset 1 y x) (three (IsOffset 1 0) refl refl refl x hx)
        (three (IsOffset 1 1) refl refl refl x hx) (three (IsOffset 1 2) refl refl refl x hx) y hy)
      (three (λ y. IsOffset 2 y x) (three (IsOffset 2 0) refl refl refl x hx)
        (three (IsOffset 2 1) refl refl refl x hx) (three (IsOffset 2 2) refl refl refl x hx) y hy)
      z hz

module _ {D : Type 0} (a : BrickAssembler D) where
  -- The same answers to every get.
  abbrev IsLike : RamCache → RamCache → Type 0
  IsLike r s = (k : BrickKey) → (get r k).1 ≡ (get s k).1

  neighbour-IsLike :
      (b : Brick) (o : Axes) (ram : RamCache)
      → Coherent key_dec ram
      → Coherent key_dec (neighbour a b o ram).0 × IsLike (neighbour a b o ram).0 ram
  unfolding neighbour
  neighbour-IsLike b o ram c = elim (Bool-cases (is_center o)) [
    | inl e ↦ rw (neighbour, e) (c, λ k. refl)
    | inr e ↦
        elim (Bool-cases (in_grid (chunk_grid_dims (a.levels b.key.coord.level)) b.key.coord o)) [
          | inl i ↦
              rw (neighbour, e, i)
                (
                  get-Coherent ram (neighbour_key a b o) c,
                  λ k. get_again ram (neighbour_key a b o) k c,
                )
          | inr i ↦ rw (neighbour, e, i) (c, λ k. refl)
        ]
  ]

  -- Each entry of the neighbourhood is looked up in a cache that answers like the first one.
  prefetch_at :
      (b : Brick) (os : List Axes) (ram : RamCache) (i : ℕ) (o : Axes)
      → Coherent key_dec ram
      → get_elem? os i ≡ some o
      → (r : RamCache) × IsLike r ram
        × (get_elem? (prefetch a b os ram).1 i ≡ some (neighbour a b o r).1)
  unfolding prefetch
  prefetch_at b [] ram i o c e = absurd (cc)
  prefetch_at b (p ∷ os) ram zero o c e =
      (ram, λ k. refl, ap (λ q. some (neighbour a b q ram).1) (some_inj.0 e))
  prefetch_at b (p ∷ os) ram (suc i) o c e =
      let (coherent, like) = neighbour-IsLike b p ram c in
      let (r, same, found) = prefetch_at b os (neighbour a b p ram).0 i o coherent e in
      (r, λ k. same k ∙ like k, found)

  -- The key of a chunk of the volume.
  abbrev pub key_at : ℕ → ℕ → ℕ → ℕ → BrickKey
  key_at level z y x = record {
    volume_id = a.volume_id;
    coord = record { level = level; z = z; y = y; x = x };
  }

  -- The brick of a chunk, as a brick that is rendered finds it: it is the brick itself, or it is another chunk of
  -- the grid and the cache holds a brick under its key.
  abbrev pub IsHeld : Brick → RamCache → ℕ → ℕ → ℕ → Brick → Type 0
  IsHeld b ram z y x src =
      let c = b.key.coord in
      ((z ≡ c.z) × (y ≡ c.y) × (x ≡ c.x) × (src ≡ b))
      ⊎ ((((z ≡ c.z) × (y ≡ c.y) × (x ≡ c.x)) → ⊥)
          × ((get ram (key_at c.level z y x)).1 ≡ some src))

  abbrev pub IsInGrid : ℕ → ℕ → ℕ → ℕ → Type 0
  IsInGrid level z y x =
      let g = chunk_grid_dims (a.levels level) in (z < g.z) × (y < g.y) × (x < g.x)

  grid_small : (level z y x : ℕ) → IsInGrid level z y x → (z < 2 ^ 32) × (y < 2 ^ 32) × (x < 2 ^ 32)
  unfolding chunk_grid_dims grid_dim
  grid_small level z y x h = (omega (arith, h.0), omega (arith, h.1), omega (arith, h.2))

  neighbour_key-key_at :
      (b : Brick) (oz oy ox z y x : ℕ)
      → IsInGrid b.key.coord.level z y x
      → b.key.coord.z + oz ≡ z + 1
      → b.key.coord.y + oy ≡ y + 1
      → b.key.coord.x + ox ≡ x + 1
      → neighbour_key a b (offset oz oy ox) ≡ key_at b.key.coord.level z y x
  unfolding neighbour_key
  neighbour_key-key_at b oz oy ox z y x h ez ey ex =
      let (hz, hy, hx) = grid_small b.key.coord.level z y x h in
      let c = b.key.coord in
      ap (λ t. key_at c.level t ((c.y + oy - 1) % 2 ^ 32) ((c.x + ox - 1) % 2 ^ 32))
        (omega (arith, ez, hz))
      ∙ ap (λ t. key_at c.level z t ((c.x + ox - 1) % 2 ^ 32)) (omega (arith, ey, hy))
      ∙ ap (λ t. key_at c.level z y t) (omega (arith, ex, hx))

  in_grid-true :
      (level oz oy ox z y x : ℕ) (c : ChunkCoord)
      → IsInGrid level z y x
      → c.z + oz ≡ z + 1
      → c.y + oy ≡ y + 1
      → c.x + ox ≡ x + 1
      → in_grid (chunk_grid_dims (a.levels level)) c (offset oz oy ox) ≡ true
  unfolding in_grid
  in_grid-true level oz oy ox z y x c h ez ey ex = ground (arith, h.0, h.1, h.2, ez, ey, ex)

  center_is : (oz oy ox : ℕ) → is_center (offset oz oy ox) ≡ true → (oz ≡ 1) × (oy ≡ 1) × (ox ≡ 1)
  unfolding is_center
  center_is oz oy ox h = ground (arith, h, ==_iff oz 1, ==_iff oy 1, ==_iff ox 1)

  neighbour-IsHeld :
      (b src : Brick) (ram r : RamCache) (oz oy ox z y x : ℕ)
      → IsLike r ram
      → IsInGrid b.key.coord.level z y x
      → b.key.coord.z + oz ≡ z + 1
      → b.key.coord.y + oy ≡ y + 1
      → b.key.coord.x + ox ≡ x + 1
      → IsHeld b ram z y x src
      → (neighbour a b (offset oz oy ox) r).1 ≡ some src
  unfolding neighbour is_center
  neighbour-IsHeld b src ram r oz oy ox z y x like h ez ey ex (inl (sz, sy, sx, same)) =
      let pz : oz ≡ 1 = omega (arith, ez, sz) in
      let py : oy ≡ 1 = omega (arith, ey, sy) in
      let px : ox ≡ 1 = omega (arith, ex, sx) in rw (pz, py, px) (ap some (sym same))
  neighbour-IsHeld b src ram r oz oy ox z y x like h ez ey ex (inr (other, held)) =
      elim (Bool-cases (is_center (offset oz oy ox))) [
        | inl e ↦
            let (pz, py, px) = center_is oz oy ox e in
            absurd (other (omega (arith, ez, pz), omega (arith, ey, py), omega (arith, ex, px)))
        | inr e ↦
            rw (neighbour, e, in_grid-true b.key.coord.level oz oy ox z y x b.key.coord h ez ey ex)
              (ap (λ k. (get r k).1) (neighbour_key-key_at b oz oy ox z y x h ez ey ex)
                ∙ like (key_at b.key.coord.level z y x)
                ∙ held)
      ]

  sample_from :
      (b src : Brick) (nb : List (Option Brick)) (z y x : ℕ)
      → get_elem? nb
          ((owner (chunk_dim a) z * 3 + owner (chunk_dim a) y) * 3 + owner (chunk_dim a) x)
        ≡ some (some src)
      → sample a b nb z y x
        ≡ voxel_from a src (local (chunk_dim a) z) (local (chunk_dim a) y) (local (chunk_dim a) x)
  unfolding sample neighbour_at
  sample_from b src nb z y x e = rw (sample, neighbour_at, e) refl

  -- On a coherent RAM cache, for a voxel of the bordered brick that stands for a voxel of the volume: with d the
  -- chunk dimension, which is positive, the coordinate c of chunk k stands for the voxel v = k * d + c - 1. If the
  -- chunk v / d is in the grid, and is the brick's own or one that the cache holds when the assembly begins, then
  -- the voxel is that chunk's, at v % d.
  pub sample-voxel_from :
      (b src : Brick) (ram : RamCache) (z y x vz vy vx : ℕ)
      → Coherent key_dec ram
      → 0 < chunk_dim a
      → z ≤ chunk_dim a + 1
      → y ≤ chunk_dim a + 1
      → x ≤ chunk_dim a + 1
      → vz + 1 ≡ b.key.coord.z * chunk_dim a + z
      → vy + 1 ≡ b.key.coord.y * chunk_dim a + y
      → vx + 1 ≡ b.key.coord.x * chunk_dim a + x
      → IsInGrid b.key.coord.level (vz / chunk_dim a) (vy / chunk_dim a) (vx / chunk_dim a)
      → IsHeld b ram (vz / chunk_dim a) (vy / chunk_dim a) (vx / chunk_dim a) src
      → sample a b (prefetch a b offsets ram).1 z y x
        ≡ voxel_from a src (vz % chunk_dim a) (vy % chunk_dim a) (vx % chunk_dim a)
  sample-voxel_from b src ram z y x vz vy vx c pos zd yd xd ez ey ex inside held =
      let d = chunk_dim a in
      let pz = is_place d b.key.coord.z z vz pos zd ez in
      let py = is_place d b.key.coord.y y vy pos yd ey in
      let px = is_place d b.key.coord.x x vx pos xd ex in
      let there = three-IsOffset _ _ _ pz.offset_small py.offset_small px.offset_small in
      let (r, like, found) = prefetch_at b offsets ram _ _ c there in
      let same =
        neighbour-IsHeld b src ram r (owner d z) (owner d y) (owner d x) (vz / d) (vy / d) (vx / d)
          like inside pz.chunk py.chunk px.chunk held in
      sample_from b src (prefetch a b offsets ram).1 z y x (found ∙ ap some same)
      ∙ ap (λ t. voxel_from a src t (local d y) (local d x)) pz.within
      ∙ ap (λ t. voxel_from a src (vz % d) t (local d x)) py.within
      ∙ ap (λ t. voxel_from a src (vz % d) (vy % d) t) px.within
