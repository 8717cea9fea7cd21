-- ===== src/Render/Uploader/Tests.antt =====
-- src/render/GpuUploader.cpp: a ring of one slot and two bricks.
use scrollviewer.Base.{ℕ, ◌≡◌, refl, true, false, List, [], ◌∷◌}
use scrollviewer.Data.BrickKey.{BrickKey}
use scrollviewer.Data.RamCache.{Brick}
use scrollviewer.Render.GpuBrickCache.{GpuBrickCache}
use scrollviewer.Render.Uploader.{
  initialize, kick_workers, enqueue, find_free, worker_take, worker_finish, is_writing, set_state,
  free_all, recycle, launch, add_fence, drain_batch, drain_to_gpu, in_ring, pending_count, Event,
  enqueues, takes, finishes, drains, step, run, start,
}
use scrollviewer.Render.Uploader.Steps.{IsRing}
use scrollviewer.Render.Uploader.Balance.{everywhere, accepted, run-IsRing}
use scrollviewer.Render.Uploader.Progress.{IsServed, run-IsServed}

abbrev no_cache : GpuBrickCache
no_cache = record {
  pages = record {
    levels = [];
    tile_capacity = 0;
    tiles_allocated = 0;
    tile_mirror = [];
    occ_mirror = [];
    tile_dirty = [];
  };
  pool = record { slots = []; free_slots = []; slot_of = [] };
  slot_dims = record { z = 1; y = 1; x = 1 };
  ready = false;
  frame = 0;
}

abbrev key_at : ℕ → BrickKey
key_at x = record { volume_id = 1; coord = record { level = 0; z = 0; y = 0; x = x } }

abbrev brick_at : ℕ → Brick
brick_at x = record { key = key_at x; voxels = []; is_fill_value = true; min_val = 0; max_val = 0 }

abbrev two_bricks : List Event
two_bricks =
    enqueues (brick_at 3) false
    ∷ enqueues (brick_at 5) true
    ∷ takes
    ∷ takes
    ∷ finishes 0
    ∷ drains 4 (λ _. false)
    ∷ takes
    ∷ drains 4 (λ _. true)
    ∷ takes
    ∷ []

abbrev columns : BrickKey → ℕ
columns k = k.coord.x

run-IsRing_example :
    IsRing (run two_bricks (start 1 no_cache)).uploader
    × (everywhere columns (run two_bricks (start 1 no_cache))
        ≡ accepted columns two_bricks (start 1 no_cache))
run-IsRing_example = run-IsRing columns 1 no_cache two_bricks

run-IsServed_example : IsServed (run two_bricks (start 1 no_cache)).uploader
run-IsServed_example = run-IsServed 1 no_cache two_bricks

program : Unit {0}
unfolding run step start initialize enqueue kick_workers worker_take worker_finish find_free
    is_writing set_state free_all recycle launch add_fence drain_batch drain_to_gpu in_ring
    pending_count
program = tt

-- The first brick was uploaded; the second one has the slot.
first_sent : (run two_bricks (start 1 no_cache)).sent ≡ key_at 3 ∷ []
unfolding program
first_sent = refl

second_counts : pending_count (run two_bricks (start 1 no_cache)).uploader ≡ 1
unfolding program
second_counts = refl
