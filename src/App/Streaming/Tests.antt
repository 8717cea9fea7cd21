-- ===== src/App/Streaming/Tests.antt =====
-- src/app/ViewerWindow.cpp: a viewer of two levels that sees nothing, and one of which a ray asks a brick.
use scrollviewer.Base.{ℕ, u64_mod, ◌+◌, ◌<◌, true, false, none, List, [], ◌∷◌, arith}
use scrollviewer.Base.Assoc
use scrollviewer.Core.LruCache
use scrollviewer.Core.LruCache.Coherent.{init-Coherent}
use scrollviewer.Core.LruCache.Invariant.{Op, insert_op, run, run-Coherent}
use scrollviewer.Data.BrickKey.{BrickKey, key_dec}
use scrollviewer.Data.RamCache.{Brick, RamCache}
use scrollviewer.Data.Pipeline.{BrickRequest, init}
use scrollviewer.Data.Pipeline.Tests.{program, numbers, plain, config, ram, brick}
use scrollviewer.Data.Pipeline.Teardown.{stats}
use scrollviewer.Render.Planner.{
  View, grid_axis, grid_dims, roots, desired, stack_weight, plan_loop, plan, push_grid, push_plane,
  push_row, node_weight, push_children, push_octants, push_child, is_inside, is_skipped, is_pruned,
  descend, plan_round, record_node, add_missing,
}
use scrollviewer.Render.Planner.Tests.{planner, empty_cache}
use scrollviewer.Render.Uploader.{initialize, in_ring, pending_count}
use scrollviewer.App.Streaming.{
  Stack, Viewer, Tick, touch_all, at_level, off_level, speculate, is_known_empty, feedback_requests,
  split_hit, split_one, split_all, coarse, is_pending, converge, plan_of, missing_of, pump_main,
  pump_overlay, ask, is_busy, replan, is_replanned, pump_streaming,
}
use scrollviewer.App.Streaming.Asked.{IsAsked, pump_main-IsAsked}
use scrollviewer.App.Streaming.Upload.{Route, is_pinned, route_ready}
use scrollviewer.App.Streaming.Routed.{Routed, route_ready-Routed}

abbrev stack : ℕ → Stack ℕ
stack id = record {
  pipe = init config 0 8;
  uploader = initialize 2;
  cache = empty_cache;
  planner = planner;
  volume_id = id;
}

-- The streak of quiet ticks has one to go.
abbrev viewer : Viewer ℕ
viewer = record {
  main = stack 1;
  overlay = stack 2;
  has_overlay = false;
  ram = ram;
  manifest = none;
  level_count = 2;
  surface_bricks = [];
  upload_queue = [];
  queued_keys = [];
  pump_counter = 7;
  streaming_active = true;
  converged_ticks = 39;
  interacting = false;
}

abbrev nowhere : View ℕ
nowhere = record { wanted = 0; intersects = λ n. false; priority = λ n. 0 }

abbrev still : Tick ℕ
still = record {
  cam_changed = false;
  wheel_burst = false;
  view = nowhere;
  ov_view = nowhere;
  feedback = [];
}

abbrev moved : Tick ℕ
moved = record still { cam_changed = true }

abbrev asking : Tick ℕ
asking = record still { feedback = (record { level = 0; z = 0; y = 0; x = 1 }, 500) ∷ [] }

abbrev as_they_are : List (BrickRequest ℕ) → List (BrickRequest ℕ)
as_they_are rs = rs

no_key : Assoc.Distinct key_dec viewer.main.pipe.tracked
unfolding init
no_key = tt

epoch_small : viewer.main.pipe.current_epoch + 2 < u64_mod
unfolding init
epoch_small = omega arith

pump_main-IsAsked_example : IsAsked plain plain as_they_are asking viewer
pump_main-IsAsked_example =
    pump_main-IsAsked plain plain as_they_are asking viewer (init-Coherent key_dec 100) no_key
      epoch_small

runs : Unit {0}
unfolding program init initialize grid_axis grid_dims roots desired stack_weight plan_loop plan
    push_grid push_plane push_row node_weight push_children push_octants push_child is_inside
    is_skipped is_pruned descend plan_round record_node add_missing stats in_ring pending_count
    touch_all at_level off_level speculate is_known_empty feedback_requests split_hit split_one
    split_all coarse is_pending converge plan_of missing_of pump_main pump_overlay ask is_busy
    replan is_replanned pump_streaming
runs = tt

abbrev fill_brick : Brick
fill_brick = record { key = brick 3; voxels = []; is_fill_value = true; min_val = 0; max_val = 0 }

abbrev real_brick : Brick
real_brick = record fill_brick { key = brick 4; voxels = 7 ∷ []; is_fill_value = false }

-- Two decoded bricks wait for the next frame, each with its pin.
abbrev inserts : List (Op BrickKey Brick)
inserts = insert_op (brick 3) fill_brick 0 1 ∷ insert_op (brick 4) real_brick 1 1 ∷ []

abbrev loaded : RamCache
loaded = run key_dec (LruCache.init 100) inserts

abbrev decoded : Route ℕ
decoded = record {
  stack = record (stack 1) {
    pipe = record (init config 0 8) { ready = fill_brick ∷ real_brick ∷ [] };
  };
  ram = loaded;
  queued_keys = [];
}

route_ready-Routed_example :
    Routed plain
      (is_pinned 2)
      decoded.stack.pipe.ready
      decoded
      (route_ready plain (is_pinned 2) decoded)
route_ready-Routed_example =
    route_ready-Routed plain (is_pinned 2) decoded (run-Coherent key_dec 100 inserts)
