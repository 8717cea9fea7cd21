-- ===== src/Render/GpuBrickCache/Tests.antt =====
-- src/render/GpuBrickCache.cpp: a pool of two slots and three bricks.
use scrollviewer.Base.{ℕ, ◌≡◌, refl, true, false, some, none, List, [], ◌∷◌, get_elem?, ℕ_discrete}
use scrollviewer.Base.Assoc
use scrollviewer.Data.BrickKey.{BrickKey, key_dec, coord_dec}
use scrollviewer.Render.GpuBrickCache.{
  GpuBrickCache, Pages, Pool, Dims, init_pool, slots_from, acquire_slot, place, touch_slot,
  fill_slot, find_victim, victim_step, evict_slot, upload, touch, frame_begin,
}
use scrollviewer.Render.GpuBrickCache.Slots.{Agree}
use scrollviewer.Render.GpuBrickCache.Upload.{Acquired, acquire_slot-Acquired, pinned_key}
use scrollviewer.Render.GpuBrickCache.Run.{Op, step, run, start, run-Agree, run-pinned_key}
use scrollviewer.Base.{arith}
use scrollviewer.Render.GpuBrickCache.Sizing.{
  LeadsTo, new_cache, pool_dims, clamp, new_cache-LeadsTo,
}
use scrollviewer.Render.GpuBrickCache.{slot_entry}
use scrollviewer.Base.{◌*◌, ◌≤◌}

abbrev brick : ℕ → BrickKey
brick x = record { volume_id = 1; coord = record { level = 0; z = 0; y = 0; x = x } }

abbrev no_pages : Pages
no_pages = record {
  levels = [];
  tile_capacity = 0;
  tiles_allocated = 0;
  tile_mirror = [];
  occ_mirror = [];
  tile_dirty = [];
}

abbrev dims : Dims
dims = record { z = 1; y = 1; x = 2 }

-- The first brick is pinned, so the third one takes the place of the second one.
abbrev ops : List Op
ops =
    Op.frame_begins 1
    ∷ Op.uploads (brick 0) true 0 9
    ∷ Op.uploads (brick 1) false 0 9
    ∷ Op.frame_begins 2
    ∷ Op.touches (brick 1)
    ∷ Op.uploads (brick 2) false 0 9
    ∷ []

abbrev before : List Op
before = Op.uploads (brick 0) true 0 9 ∷ Op.uploads (brick 1) false 0 9 ∷ []

abbrev full : GpuBrickCache
full = run (start no_pages dims 2) before

program : Unit {0}
unfolding run step start init_pool slots_from frame_begin upload touch place acquire_slot
    find_victim victim_step evict_slot fill_slot touch_slot Assoc.lookup Assoc.insert Assoc.erase
    key_dec coord_dec ℕ_discrete
program = tt

abbrev after : Pool
after = (run (start no_pages dims 2) ops).pool

third_in : Assoc.lookup key_dec (brick 2) after.slot_of ≡ some 1
unfolding program
third_in = refl

second_out : Assoc.lookup key_dec (brick 1) after.slot_of ≡ none
unfolding program
second_out = refl

run-Agree_example : Agree (run (start no_pages dims 2) ops).pool
run-Agree_example = run-Agree no_pages dims 2 ops

acquire_slot-Acquired_example : Acquired full.pool (acquire_slot full.pool)
acquire_slot-Acquired_example = acquire_slot-Acquired full.pool

full-Agree : Agree full.pool
full-Agree = run-Agree no_pages dims 2 before

full_pinned : pinned_key (get_elem? full.pool.slots 0) ≡ some (brick 0)
unfolding program
full_pinned = refl

run-pinned_key_example : pinned_key (get_elem? (run full ops).pool.slots 0) ≡ some (brick 0)
run-pinned_key_example = run-pinned_key full ops 0 (brick 0) full-Agree full_pinned

-- Bricks of 128 with their borders, and room for 27 of them.
abbrev sized : GpuBrickCache
sized = new_cache (λ _. 3) (record { z = 40; y = 20; x = 20 } ∷ []) 130 60000000

new_cache-LeadsTo_example :
    LeadsTo sized.slot_dims 20 (slot_entry sized.slot_dims 20)
    × (sized.slot_dims.z * 130 ≤ 2048)
    × (sized.slot_dims.y * 130 ≤ 2048)
    × (sized.slot_dims.x * 130 ≤ 2048)
unfolding new_cache pool_dims clamp
new_cache-LeadsTo_example =
    new_cache-LeadsTo (λ _. 3) (record { z = 40; y = 20; x = 20 } ∷ []) 130 60000000 20
      (omega arith) (omega arith) (omega arith)
