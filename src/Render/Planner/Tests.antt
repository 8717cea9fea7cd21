-- ===== src/Render/Planner/Tests.antt =====
-- src/render/WorkingSetPlanner.cpp: a volume of two levels, of which the left half is in view.
use scrollviewer.Base.{ℕ, ◌≡◌, refl, true, Option, none, some, List, [], ◌∷◌, map, ltb, take}
use scrollviewer.Base.Assoc
use scrollviewer.Data.Pipeline.{BrickRequest}
use scrollviewer.Render.GpuBrickCache.{GpuBrickCache, is_resident, is_empty_entry, read_entry}
use scrollviewer.Render.Planner.{
  WorkingSetPlanner, View, Plan, grid_axis, grid_dims, roots, desired, stack_weight, plan_loop,
  plan, push_grid, push_plane, push_row, node_weight, push_children, push_octants, push_child,
  is_inside, is_skipped, is_pruned, descend, plan_round, record_node, add_missing, key_of,
}
use scrollviewer.Render.Planner.Visits.{visit_all, visits_from}
use scrollviewer.Render.Planner.Collected.{resident_keys, absent_requests, plan-visits}

abbrev pub planner : WorkingSetPlanner
planner = record {
  shape = record { z = 2; y = 4; x = 4 };
  chunk_dim = 2;
  level_count = 2;
  manifest = none;
  vis_threshold = 0;
}

abbrev view : View ℕ
view = record { wanted = 0; intersects = λ n. ltb n.x 1; priority = λ n. n.level }

abbrev pub empty_cache : GpuBrickCache
empty_cache = record {
  pages = record {
    levels = [];
    tile_capacity = 0;
    tiles_allocated = 0;
    tile_mirror = [];
    occ_mirror = [];
    tile_dirty = [];
  };
  pool = record { slots = []; free_slots = []; slot_of = [] };
  slot_dims = record { z = 1; y = 1; x = 1 };
  ready = true;
  frame = 0;
}

abbrev levels_of : Option (Plan ℕ) → List ℕ
levels_of none = []
levels_of (some out) = map (λ (r : BrickRequest ℕ). r.priority) out.missing

plan-visits_example :
    plan planner view 7 empty_cache 2
    ≡ some (record {
      missing = take 2 (
          absent_requests planner view 7 empty_cache 2
            (visit_all (visits_from planner view) (roots planner)));
      visible =
          resident_keys planner view 7 empty_cache 2
            (visit_all (visits_from planner view) (roots planner));
    })
plan-visits_example = plan-visits planner view 7 empty_cache 2

-- The brick of the coarse level first, then the two in view of the fine one, which the limit cuts to one.
levels_planned : levels_of (plan planner view 7 empty_cache 2) ≡ 1 ∷ 0 ∷ []
unfolding plan roots grid_dims grid_axis push_grid push_plane push_row stack_weight node_weight
    desired plan_loop push_children push_octants push_child is_inside is_skipped is_pruned descend
    plan_round record_node add_missing key_of is_resident Assoc.lookup is_empty_entry read_entry
levels_planned = refl
