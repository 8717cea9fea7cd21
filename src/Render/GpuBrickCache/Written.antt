-- ===== src/Render/GpuBrickCache/Written.antt =====
-- src/render/GpuBrickCache.cpp: `writeEntry` changes what one place reads, and nothing else.
use scrollviewer.Base.{
  ℕ, ◌+◌, ◌-◌, ◌*◌, ◌<◌, ◌≤◌, ◌≡◌, refl, sym, subst, ap, ◌∙◌, ◌⊎◌, inl, inr, some, List, arith,
  get_elem?, get_or, set, length, length-set, get_or-set_self, get_or-set_ne, dec_le, dec_lt,
}
use scrollviewer.Base.Grid.{row-eq}
use scrollviewer.Data.BrickKey.{BrickKey}
use scrollviewer.Render.GpuBrickCache.{
  Dims, Level, Pages, dir_index, in_tile_index, tile_entry, store_entry, allocate_tile, write_at,
  tile_entries,
}
use scrollviewer.Render.GpuBrickCache.Paging.{allocated, allocate_tile_room, in_tile_index_bound}
use scrollviewer.Render.GpuBrickCache.Tables.{dir_at, read_at, IsPaged, dir_at-there}
use scrollviewer.Render.GpuBrickCache.Taken.{
  allocated-IsPaged, read_at-allocated, tile_entry-high, tile_entry-same, dir_at-allocated,
  new_tile,
}

-- Tables in which one place reads a new value, and every other one what it read before.
pub record IsUpdated (dims : List Dims) (p p' : Pages) (n di i value : ℕ) : Type 0 where
  pub paged : IsPaged dims p'
  pub capacity : p'.tile_capacity ≡ p.tile_capacity
  pub grows : p.tiles_allocated ≤ p'.tiles_allocated
  pub written : read_at p' n di i ≡ value
  pub others :
      (m dj j : ℕ)
      → j < tile_entries
      → ¬ ((n ≡ m) × (di ≡ dj) × (i ≡ j))
      → read_at p' m dj j ≡ read_at p m dj j

module _ (dims : List Dims) (p : Pages) (v : IsPaged dims p) (n di tile i value lo hi : ℕ)
    (owns : dir_at p.levels n di ≡ tile + 2) (small : i < tile_entries) where
  taken : tile < p.tiles_allocated
  taken = omega (arith, v.known n di, owns)

  place_there : tile * tile_entries + i < length p.tile_mirror
  place_there = omega (arith, taken, v.fits, v.whole, small)

  store_entry-IsPaged : IsPaged dims (store_entry tile i value lo hi p)
  unfolding store_entry
  store_entry-IsPaged = record {
    shape = v.shape;
    sized = v.sized;
    whole = omega (arith, v.whole, length-set p.tile_mirror (tile * tile_entries + i) value);
    fits = v.fits;
    known = v.known;
    apart = v.apart;
  }

  store_entry-other :
      (m dj j : ℕ)
      → j < tile_entries
      → ¬ ((n ≡ m) × (di ≡ dj) × (i ≡ j))
      → read_at (store_entry tile i value lo hi p) m dj j ≡ read_at p m dj j
  unfolding store_entry
  store_entry-other m dj j h ne =
      tile_entry-same p (store_entry tile i value lo hi p) (dir_at p.levels m dj) j (λ high.
        get_or-set_ne p.tile_mirror (tile * tile_entries + i)
          ((dir_at p.levels m dj - 2) * tile_entries + j) value 0
          (λ e.
            let same = row-eq tile_entries tile (dir_at p.levels m dj - 2) i j small h e in
            let entry : dir_at p.levels n di ≡ dir_at p.levels m dj =
              omega (arith, owns, high, same) in
            let where_ = v.apart n di m dj (omega (arith, owns)) entry in
            ne (where_.0, where_.1, same.1)))

  store_entry-IsUpdated : IsUpdated dims p (store_entry tile i value lo hi p) n di i value
  unfolding store_entry
  store_entry-IsUpdated = record {
    paged = store_entry-IsPaged;
    capacity = refl;
    grows = omega arith;
    written =
        ap (λ d. tile_entry (store_entry tile i value lo hi p) d i) owns
        ∙ tile_entry-high (store_entry tile i value lo hi p) (tile + 2) i (omega arith)
        ∙ ap
            (λ t.
              get_or (set p.tile_mirror (tile * tile_entries + i) value) (t * tile_entries + i) 0)
            (new_tile tile)
        ∙ get_or-set_self p.tile_mirror (tile * tile_entries + i) value 0 place_there;
    others = store_entry-other;
  }

allocated_capacity :
    (p : Pages) (l : Level) (di n : ℕ) → (allocated n l di p).tile_capacity ≡ p.tile_capacity
unfolding allocated
allocated_capacity p l di n = refl

allocated_grows :
    (p : Pages) (l : Level) (di n : ℕ) → p.tiles_allocated ≤ (allocated n l di p).tiles_allocated
unfolding allocated
allocated_grows p l di n = omega arith

module _ (dims : List Dims) (p : Pages) (v : IsPaged dims p) (k : BrickKey) (l : Level)
    (value lo hi : ℕ) (there : get_elem? p.levels k.level ≡ some l)
    (inside : dir_index l k.z k.y k.x < length l.dir_mirror) where
  abbrev di : ℕ
  di = dir_index l k.z k.y k.x

  abbrev i : ℕ
  i = in_tile_index k.z k.y k.x

  write_known :
      2 ≤ get_or l.dir_mirror di 0
      → IsUpdated dims p (write_at k.level l k value lo hi p) k.level di i value
  unfolding write_at
  write_known high =
      let d : ℕ = get_or l.dir_mirror di 0 in
      let direct : write_at k.level l k value lo hi p ≡ store_entry (d - 2) i value lo hi p =
        ground arith in
      subst (λ q. IsUpdated dims p q k.level di i value) (sym direct)
        (store_entry-IsUpdated dims p v k.level di (d - 2) i value lo hi
          (omega (arith, dir_at-there p.levels k.level di l there))
          (in_tile_index_bound k.z k.y k.x))

  write_taken :
      get_or l.dir_mirror di 0 < 2
      → p.tiles_allocated < p.tile_capacity
      → IsUpdated dims p (write_at k.level l k value lo hi p) k.level di i value
  unfolding write_at
  write_taken low room =
      let tile : ℕ = p.tiles_allocated in
      let p' : Pages = allocated k.level l di p in
      let direct : write_at k.level l k value lo hi p ≡ store_entry tile i value lo hi p' =
        ground (arith, allocate_tile_room k.level l di p room) in
      let owns : dir_at p'.levels k.level di ≡ tile + 2 =
        elim (dir_at-allocated dims p v k.level di l there inside low room k.level di) [
          | inl (q, r, e, f) ↦ e
          | inr (inl n, e) ↦ absurd (n refl)
          | inr (inr n, e) ↦ absurd (n refl)
        ] in
      let w : IsUpdated dims p' (store_entry tile i value lo hi p') k.level di i value =
        store_entry-IsUpdated dims p'
          (allocated-IsPaged dims p v k.level di l there inside low room) k.level di tile i value lo
          hi owns (in_tile_index_bound k.z k.y k.x) in
      subst (λ q. IsUpdated dims p q k.level di i value) (sym direct)
        (record {
          paged = w.paged;
          capacity = w.capacity ∙ allocated_capacity p l di k.level;
          grows = omega (arith, w.grows, allocated_grows p l di k.level);
          written = w.written;
          others = λ m dj j h ne.
              w.others m dj j h ne
              ∙ read_at-allocated dims p v k.level di l there inside low room m dj j h;
        })

  -- The write is done, or nothing changes since there is no tile left.
  pub write_at_cases :
      ((write_at k.level l k value lo hi p ≡ p) × (p.tiles_allocated ≡ p.tile_capacity))
      ⊎ IsUpdated dims p (write_at k.level l k value lo hi p) k.level di i value
  unfolding write_at allocate_tile
  write_at_cases = elim (dec_le 2 (get_or l.dir_mirror di 0)) [
    | yes high ↦ inr (write_known high)
    | no low ↦ elim (dec_lt p.tiles_allocated p.tile_capacity) [
      | yes room ↦ inr (write_taken (omega (arith, low)) room)
      | no full ↦ inl (ground (arith, low, full), omega (arith, v.fits, full))
    ]
  ]
