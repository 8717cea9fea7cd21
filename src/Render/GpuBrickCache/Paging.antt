-- ===== src/Render/GpuBrickCache/Paging.antt =====
-- src/render/GpuBrickCache.cpp: `readEntry` after `writeEntry`.
use scrollviewer.Base.{
  ℕ, zero, suc, ◌+◌, ◌-◌, ◌*◌, ◌<◌, ◌≤◌, ◌≡◌, refl, ap, ◌∙◌, ◌⊎◌, inl, inr, true, some, List, [],
  ◌∷◌, arith, ◌==◌, if◌then◌else◌, get_elem?, get_or, set, length, get_or-set_self, dec_le,
}
use scrollviewer.Data.BrickKey.{BrickKey}
use scrollviewer.Render.GpuBrickCache.{
  Level, Pages, dir_index, in_tile_index, tile_entry, read_entry, fill_n, allocate_tile,
  store_entry, write_at, write_entry, tile_entries, empty_bit,
}
use scrollviewer.Render.GpuBrickCache.Slots.{get_elem?-set_self, get_elem?-bound}

pub in_tile_index_bound : (z y x : ℕ) → in_tile_index z y x < tile_entries
unfolding in_tile_index
in_tile_index_bound z y x = omega arith

pub length-fill_n :
    {A : Type 0} (p n : ℕ) (v : A) (xs : List A) → length (fill_n p n v xs) ≡ length xs
unfolding fill_n
length-fill_n p n v [] = refl
length-fill_n (suc p) n v (x ∷ xs) = ap suc (length-fill_n p n v xs)
length-fill_n zero zero v (x ∷ xs) = refl
length-fill_n zero (suc n) v (x ∷ xs) = ap suc (length-fill_n zero n v xs)

-- The mirror has a place for each entry of each tile, the directory has one for the brick, and its
-- entry names a tile, or there is room for one more.
pub record CanWrite (p : Pages) (l : Level) (k : BrickKey) : Type 0 where
  pub level_there : get_elem? p.levels k.level ≡ some l
  pub dir_there : dir_index l k.z k.y k.x < length l.dir_mirror
  pub mirror_whole : p.tile_capacity * tile_entries ≤ length p.tile_mirror
  pub tile_there : get_or l.dir_mirror (dir_index l k.z k.y k.x) 0 < p.tile_capacity + 2
  pub room :
      (2 ≤ get_or l.dir_mirror (dir_index l k.z k.y k.x) 0) ⊎ (p.tiles_allocated < p.tile_capacity)

store_entry_read :
    (tile i value lo hi : ℕ) (p : Pages)
    → tile * tile_entries + i < length p.tile_mirror
    → tile_entry (store_entry tile i value lo hi p) (tile + 2) i ≡ value
unfolding tile_entry store_entry
store_entry_read tile i value lo hi p h =
    ground (arith, get_or-set_self p.tile_mirror (tile * tile_entries + i) value 0 h)

-- An index into a tile that the mirror holds.
tile_place :
    (tile capacity i : ℕ)
    → tile < capacity
    → i < tile_entries
    → tile * tile_entries + i < capacity * tile_entries
tile_place tile capacity i h k = omega arith

pub read_entry-level :
    (p : Pages) (k : BrickKey) (l : Level) (d : ℕ)
    → get_elem? p.levels k.level ≡ some l
    → get_or l.dir_mirror (dir_index l k.z k.y k.x) 0 ≡ d
    → read_entry p k ≡ tile_entry p d (in_tile_index k.z k.y k.x)
unfolding read_entry
read_entry-level p k l d there e = rw (read_entry, there, e) refl

write_there :
    (k : BrickKey) (value lo hi : ℕ) (p : Pages) (l : Level)
    → CanWrite p l k
    → 2 ≤ get_or l.dir_mirror (dir_index l k.z k.y k.x) 0
    → read_entry (write_at k.level l k value lo hi p) k ≡ value
unfolding write_at store_entry
write_there k value lo hi p l c high =
    let d : ℕ = get_or l.dir_mirror (dir_index l k.z k.y k.x) 0 in
    let i : ℕ = in_tile_index k.z k.y k.x in
    let place =
      tile_place (d - 2) p.tile_capacity i (omega (arith, c.tile_there, high))
        (in_tile_index_bound k.z k.y k.x) in
    let direct : write_at k.level l k value lo hi p ≡ store_entry (d - 2) i value lo hi p =
      ground arith in
    ap (λ q. read_entry q k) direct
    ∙ read_entry-level (store_entry (d - 2) i value lo hi p) k l (d - 2 + 2) c.level_there
        (omega arith)
    ∙ store_entry_read (d - 2) i value lo hi p (omega (arith, place, c.mirror_whole))

-- The page tables after a new tile has been taken for the level.
unfoldable pub allocated : ℕ → Level → ℕ → Pages → Pages
allocated level l di p = record p {
  tiles_allocated = p.tiles_allocated + 1;
  tile_mirror =
      fill_n (p.tiles_allocated * tile_entries) tile_entries
        (if get_or l.dir_mirror di 0 == 1 then empty_bit else 0) p.tile_mirror;
  occ_mirror = fill_n (p.tiles_allocated * tile_entries * 2) (tile_entries * 2) 0 p.occ_mirror;
  levels =
      set p.levels level
        (record l { dir_mirror = set l.dir_mirror di (p.tiles_allocated + 2); dir_dirty = true });
  tile_dirty = set p.tile_dirty p.tiles_allocated true;
}

pub allocate_tile_room :
    (level : ℕ) (l : Level) (di : ℕ) (p : Pages)
    → p.tiles_allocated < p.tile_capacity
    → allocate_tile level l di p ≡ some (p.tiles_allocated, allocated level l di p)
unfolding allocate_tile allocated
allocate_tile_room level l di p h = ground arith

write_new :
    (k : BrickKey) (value lo hi : ℕ) (p : Pages) (l : Level)
    → CanWrite p l k
    → get_or l.dir_mirror (dir_index l k.z k.y k.x) 0 < 2
    → p.tiles_allocated < p.tile_capacity
    → read_entry (write_at k.level l k value lo hi p) k ≡ value
unfolding write_at store_entry allocated dir_index
write_new k value lo hi p l c low room =
    let di : ℕ = dir_index l k.z k.y k.x in
    let tile : ℕ = p.tiles_allocated in
    let i : ℕ = in_tile_index k.z k.y k.x in
    let p' : Pages = allocated k.level l di p in
    let l' : Level = record l { dir_mirror = set l.dir_mirror di (tile + 2); dir_dirty = true } in
    let place = tile_place tile p.tile_capacity i room (in_tile_index_bound k.z k.y k.x) in
    let direct : write_at k.level l k value lo hi p ≡ store_entry tile i value lo hi p' =
      ground (arith, allocate_tile_room k.level l di p room) in
    let there : get_elem? (set p.levels k.level l') k.level ≡ some l' =
      get_elem?-set_self p.levels k.level l' (get_elem?-bound p.levels k.level l c.level_there) in
    ap (λ q. read_entry q k) direct
    ∙ read_entry-level (store_entry tile i value lo hi p') k l' (tile + 2) there
        (get_or-set_self l.dir_mirror di (tile + 2) 0 c.dir_there)
    ∙ store_entry_read tile i value lo hi p' (
        omega (
          arith,
          place,
          c.mirror_whole,
          length-fill_n (tile * tile_entries) tile_entries
              (if get_or l.dir_mirror di 0 == 1 then empty_bit else 0) p.tile_mirror,
        ))

-- A page entry is read back as it was written, whether its tile was there or had to be taken, as long
-- as the level and the directory have a place for the brick and there is a tile for it.
pub read_entry-write_entry :
    (k : BrickKey) (value lo hi : ℕ) (p : Pages) (l : Level)
    → CanWrite p l k
    → read_entry (write_entry k value lo hi p) k ≡ value
unfolding write_entry
read_entry-write_entry k value lo hi p l c =
    rw (write_entry, c.level_there)
      (elim (dec_le 2 (get_or l.dir_mirror (dir_index l k.z k.y k.x) 0)) [
        | yes high ↦ write_there k value lo hi p l c high
        | no low ↦ elim c.room [
          | inl high ↦ write_there k value lo hi p l c high
          | inr room ↦ write_new k value lo hi p l c (omega arith) room
        ]
      ])
