-- ===== src/Render/GpuBrickCache.antt =====
-- src/render/GpuBrickCache.h and GpuBrickCache.cpp: which brick is in which slot of the pool, and the
-- page tables. The render thread alone calls these methods. The OpenGL calls are left out: a texture's
-- content is that of its mirror when the dirty flags are clear.
pub mod Victim
pub mod Slots
pub mod Upload
pub mod Run
pub mod Paging
pub mod Sizing
pub mod Tables
pub mod Taken
pub mod Written
pub mod Refined
pub mod Fresh
pub mod Seeding
pub mod Scanned
pub mod Marks
pub mod OneEntry
pub mod Whole
pub mod Seeded
pub mod Syncing
pub mod Synced
mod PageTests
pub mod Tests
use Prim.Native.Nat.{bit_or}
use scrollviewer.Base.{
  ℕ, zero, suc, ◌+◌, ◌-◌, ◌*◌, ◌/◌, ◌%◌, ◌^◌, Bool, true, false, not, ◌&&◌, ◌||◌, Option, none,
  some, List, [], ◌∷◌, ltb, leb, ◌==◌, if◌then◌else◌, get_elem?, get_or, set, min, replicate,
}
use scrollviewer.Base.Assoc
use scrollviewer.Data.BrickKey.{BrickKey, key_dec}

pub record Dims : Type 0 where
  pub z : ℕ
  pub y : ℕ
  pub x : ℕ

pub record Slot : Type 0 where
  pub key : BrickKey
  pub occupied : Bool
  pub pinned : Bool
  pub last_touched : ℕ

pub record Level : Type 0 where
  pub grid : Dims
  pub dir_dim : Dims
  pub dir_mirror : List ℕ
  pub dir_dirty : Bool

-- The page tables: a directory for each level, and the tiles that the directories point to.
pub record Pages : Type 0 where
  pub levels : List Level
  pub tile_capacity : ℕ
  pub tiles_allocated : ℕ
  pub tile_mirror : List ℕ
  pub occ_mirror : List ℕ
  pub tile_dirty : List Bool

-- The slots of the pool. The head of `free_slots` is the back of the vector.
pub record Pool : Type 0 where
  pub slots : List Slot
  pub free_slots : List ℕ
  pub slot_of : List (BrickKey × ℕ)

-- `ready` tells whether `pool_` is set.
pub record GpuBrickCache : Type 0 where
  pub pages : Pages
  pub pool : Pool
  pub slot_dims : Dims
  pub ready : Bool
  pub frame : ℕ

-- A slot as `resize` makes it, and the free list of the constructor.
abbrev pub blank : Slot
blank = record {
  key = record { volume_id = 0; coord = record { level = 0; z = 0; y = 0; x = 0 } };
  occupied = false;
  pinned = false;
  last_touched = 0;
}

unfoldable pub slots_from : ℕ → ℕ → List ℕ
slots_from i zero = []
slots_from i (suc n) = i ∷ slots_from (suc i) n

-- The pool of a new cache with so many slots.
unfoldable pub init_pool : ℕ → Pool
init_pool total = record {
  slots = replicate total blank;
  free_slots = slots_from 0 total;
  slot_of = [];
}

abbrev pub resident_bit : ℕ
resident_bit = 2 ^ 30

abbrev pub empty_bit : ℕ
empty_bit = 2 ^ 31

abbrev pub tile_dim : ℕ
tile_dim = 16

abbrev pub tile_entries : ℕ
tile_entries = 4096

unfoldable pub dir_index : Level → ℕ → ℕ → ℕ → ℕ
dir_index l z y x = (z / tile_dim * l.dir_dim.y + y / tile_dim) * l.dir_dim.x + x / tile_dim

unfoldable pub in_tile_index : ℕ → ℕ → ℕ → ℕ
in_tile_index z y x = (z % tile_dim * tile_dim + y % tile_dim) * tile_dim + x % tile_dim

-- The entry that a directory entry leads to: 0 is unknown, 1 is a tile of empty bricks.
unfoldable pub tile_entry : Pages → ℕ → ℕ → ℕ
tile_entry p d i =
    if d == 0
    then 0
    else (if d == 1 then empty_bit else get_or p.tile_mirror ((d - 2) * tile_entries + i) 0)

-- A level that does not exist, which would be undefined behaviour, has no entries here.
unfoldable pub read_entry : Pages → BrickKey → ℕ
read_entry p k = elim (get_elem? p.levels k.level) [
  | none ↦ 0
  | some l ↦
      tile_entry p (get_or l.dir_mirror (dir_index l k.z k.y k.x) 0) (in_tile_index k.z k.y k.x)
]

-- `std::fill_n` from a position on.
unfoldable pub fill_n : {A : Type 0} → ℕ → ℕ → A → List A → List A
fill_n p n v [] = []
fill_n (suc p) n v (x ∷ xs) = x ∷ fill_n p n v xs
fill_n zero zero v (x ∷ xs) = x ∷ xs
fill_n zero (suc n) v (x ∷ xs) = v ∷ fill_n zero n v xs

-- `none` stands for UINT32_MAX.
unfoldable pub allocate_tile : ℕ → Level → ℕ → Pages → Option (ℕ × Pages)
allocate_tile level l di p =
    let tile = p.tiles_allocated in
    let fill_entry = if get_or l.dir_mirror di 0 == 1 then empty_bit else 0 in
    if leb p.tile_capacity tile
    then none
    else some (
      tile,
      record p {
        tiles_allocated = tile + 1;
        tile_mirror = fill_n (tile * tile_entries) tile_entries fill_entry p.tile_mirror;
        occ_mirror = fill_n (tile * tile_entries * 2) (tile_entries * 2) 0 p.occ_mirror;
        levels =
            set p.levels level
              (record l { dir_mirror = set l.dir_mirror di (tile + 2); dir_dirty = true });
        tile_dirty = set p.tile_dirty tile true;
      },
    )

-- The four writes at the end of `writeEntry`.
unfoldable pub store_entry : ℕ → ℕ → ℕ → ℕ → ℕ → Pages → Pages
store_entry tile i value occ_min occ_max p =
    let at = tile * tile_entries + i in
    record p {
      tile_mirror = set p.tile_mirror at value;
      occ_mirror = set (set p.occ_mirror (at * 2) occ_min) (at * 2 + 1) occ_max;
      tile_dirty = set p.tile_dirty tile true;
    }

unfoldable pub write_at : ℕ → Level → BrickKey → ℕ → ℕ → ℕ → Pages → Pages
write_at level l k value occ_min occ_max p =
    let di = dir_index l k.z k.y k.x in
    let d = get_or l.dir_mirror di 0 in
    let i = in_tile_index k.z k.y k.x in
    if ltb d 2
    then (elim (allocate_tile level l di p) [
      | none ↦ p
      | some (tile, p') ↦ store_entry tile i value occ_min occ_max p'
    ])
    else store_entry (d - 2) i value occ_min occ_max p

unfoldable pub write_entry : BrickKey → ℕ → ℕ → ℕ → Pages → Pages
write_entry k value occ_min occ_max p = elim (get_elem? p.levels k.level) [
  | none ↦ p
  | some l ↦ write_at k.level l k value occ_min occ_max p
]

-- `entry & kEmptyBit`, of a 32-bit entry.
unfoldable pub is_empty_entry : ℕ → Bool
is_empty_entry e = leb empty_bit e

unfoldable pub frame_begin : ℕ → GpuBrickCache → GpuBrickCache
frame_begin n c = record c { frame = n }

unfoldable pub is_resident : GpuBrickCache → BrickKey → Bool
is_resident c k = elim (Assoc.lookup key_dec k c.pool.slot_of) [
  | some i ↦ true
  | none ↦ is_empty_entry (read_entry c.pages k)
]

unfoldable pub touch_slot : ℕ → ℕ → Pool → Pool
touch_slot frame i p = elim (get_elem? p.slots i) [
  | none ↦ p
  | some s ↦ record p { slots = set p.slots i (record s { last_touched = frame }) }
]

unfoldable pub touch : BrickKey → GpuBrickCache → GpuBrickCache
touch k c = elim (Assoc.lookup key_dec k c.pool.slot_of) [
  | none ↦ c
  | some i ↦ record c { pool = touch_slot c.frame i c.pool }
]

unfoldable pub mark_empty : BrickKey → Pages → Pages
mark_empty k p = if is_empty_entry (read_entry p k) then p else write_entry k empty_bit 0 0 p

-- One round of the search for a victim: the slot found so far, and how long ago it was touched.
unfoldable pub victim_step : Slot → ℕ → Option ℕ × ℕ → Option ℕ × ℕ
victim_step s i (v, oldest) =
    if not s.occupied || s.pinned
    then (v, oldest)
    else (if ltb s.last_touched oldest then (some i, s.last_touched) else (v, oldest))

unfoldable pub find_victim : List Slot → ℕ → Option ℕ × ℕ → Option ℕ
find_victim [] i best = best.0
find_victim (s ∷ ss) i best = find_victim ss (suc i) (victim_step s i best)

-- The slot of a victim is given up.
unfoldable pub evict_slot : ℕ → Slot → Pool → Pool
evict_slot i s p = record p {
  slots = set p.slots i (record s { occupied = false });
  slot_of = Assoc.erase key_dec s.key p.slot_of;
}

-- The slot that an upload gets, if any, and the brick that gives it up.
unfoldable pub acquire_slot : Pool → Option (ℕ × Pool × Option BrickKey)
acquire_slot p = elim p.free_slots [
  | i ∷ is ↦ some (i, record p { free_slots = is }, none)
  | [] ↦ elim (find_victim p.slots 0 (none, 2 ^ 64 - 1)) [
    | none ↦ none
    | some i ↦ elim (get_elem? p.slots i) [
      | none ↦ none
      | some s ↦ some (i, evict_slot i s p, some s.key)
    ]
  ]
]

unfoldable pub fill_slot : ℕ → BrickKey → Bool → ℕ → Pool → Pool
fill_slot i k pinned frame p = record p {
  slots =
      set p.slots i (record { key = k; occupied = true; pinned = pinned; last_touched = frame });
  slot_of = Assoc.insert key_dec k i p.slot_of;
}

-- What an upload does to the pool.
unfoldable pub place : BrickKey → Bool → ℕ → Pool → Pool
place k pinned frame p = elim (Assoc.lookup key_dec k p.slot_of) [
  | some i ↦ touch_slot frame i p
  | none ↦ elim (acquire_slot p) [ none ↦ p | some (i, p', _) ↦ fill_slot i k pinned frame p' ]
]

-- The page entry of a brick in slot i.
unfoldable pub slot_entry : Dims → ℕ → ℕ
slot_entry dims i =
    let cx = i % dims.x in
    let cy = i / dims.x % dims.y in
    let cz = i / (dims.x * dims.y) in
    bit_or (bit_or (bit_or resident_bit cx) (cy * 2 ^ 10)) (cz * 2 ^ 20)

-- What it does to the page tables: the entry of the victim goes back to unknown.
unfoldable pub forget : Option BrickKey → Pages → Pages
forget none p = p
forget (some k) p = write_entry k 0 0 255 p

unfoldable pub page_in : BrickKey → ℕ → ℕ → Dims → Pool → Pages → Pages
page_in k lo hi dims pool p = elim (Assoc.lookup key_dec k pool.slot_of) [
  | some i ↦ p
  | none ↦ elim (acquire_slot pool) [
    | none ↦ p
    | some (i, pool', victim) ↦ write_entry k (slot_entry dims i) lo hi (forget victim p)
  ]
]

-- `uploadFromBoundPbo`, in its two parts.
unfoldable pub upload : BrickKey → Bool → ℕ → ℕ → GpuBrickCache → GpuBrickCache
upload k pinned lo hi c = if not c.ready then c else record c {
  pool = place k pinned c.frame c.pool;
  pages = page_in k lo hi c.slot_dims c.pool c.pages;
}
