-- ===== src/Render/Planner.antt =====
-- src/render/WorkingSetPlanner.h and WorkingSetPlanner.cpp. What is computed in floating point from the
-- camera, the level that it wants, the test against the frustum and the priorities, is an argument.
pub mod Visits
pub mod Collected
pub mod Tests
use scrollviewer.Base.{
  ℕ, zero, suc, ◌+◌, ◌-◌, ◌*◌, ◌/◌, ◌%◌, ◌^◌, Bool, true, false, not, ◌&&◌, ◌||◌, Option, none,
  some, List, [], ◌∷◌, ◌++◌, length, ltb, if◌then◌else◌, get_elem?, u64_mod, add64, sub64, min, max,
}
use scrollviewer.Data.BrickKey.{BrickKey}
use scrollviewer.Data.Pipeline.{BrickRequest}
use scrollviewer.Data.Manifest.{VolumeManifest, has_level, invisible}
use scrollviewer.Render.GpuBrickCache.{Dims, GpuBrickCache, is_resident}

pub record WorkingSetPlanner : Type 0 where
  pub shape : Dims
  pub chunk_dim : ℕ
  pub level_count : ℕ
  pub manifest : Option VolumeManifest
  pub vis_threshold : ℕ

pub record Node : Type 0 where
  pub level : ℕ
  pub z : ℕ
  pub y : ℕ
  pub x : ℕ

-- `wanted` is the level that follows from the zoom, before it is clamped.
pub record View (P : Type 0) : Type 0 where
  pub wanted : ℕ
  pub intersects : Node → Bool
  pub priority : Node → P

pub record Plan (P : Type 0) : Type 0 where
  pub missing : List (BrickRequest P)
  pub visible : List BrickKey

-- One axis of `gridDims`, on a positive chunk dimension.
unfoldable pub grid_axis : ℕ → ℕ → ℕ → ℕ
grid_axis chunk_dim level extent =
    let unit = 2 ^ level % u64_mod in
    let dim = max 1 (add64 extent (sub64 unit 1) / 2 ^ level) in
    sub64 (add64 dim chunk_dim) 1 / chunk_dim % 2 ^ 32

unfoldable pub grid_dims : WorkingSetPlanner → ℕ → Dims
grid_dims p level = record {
  z = grid_axis p.chunk_dim level p.shape.z;
  y = grid_axis p.chunk_dim level p.shape.y;
  x = grid_axis p.chunk_dim level p.shape.x;
}

-- The stack at the start; its head is the back of the vector.
unfoldable pub push_row : ℕ → ℕ → ℕ → ℕ → List Node → List Node
push_row level z y zero stack = stack
push_row level z y (suc x) stack =
    record { level = level; z = z; y = y; x = x } ∷ push_row level z y x stack

unfoldable pub push_plane : ℕ → ℕ → ℕ → ℕ → List Node → List Node
push_plane level z zero nx stack = stack
push_plane level z (suc y) nx stack = push_row level z y nx (push_plane level z y nx stack)

unfoldable pub push_grid : ℕ → ℕ → ℕ → ℕ → List Node → List Node
push_grid level zero ny nx stack = stack
push_grid level (suc z) ny nx stack = push_plane level z ny nx (push_grid level z ny nx stack)

unfoldable pub roots : WorkingSetPlanner → List Node
roots p = let g = grid_dims p (p.level_count - 1) in push_grid (p.level_count - 1) g.z g.y g.x []

-- The values of dz, dy and dx in the three loops over the children.
abbrev pub octants : List Dims
octants =
    record { z = 0; y = 0; x = 0 }
    ∷ record { z = 0; y = 0; x = 1 }
    ∷ record { z = 0; y = 1; x = 0 }
    ∷ record { z = 0; y = 1; x = 1 }
    ∷ record { z = 1; y = 0; x = 0 }
    ∷ record { z = 1; y = 0; x = 1 }
    ∷ record { z = 1; y = 1; x = 0 }
    ∷ record { z = 1; y = 1; x = 1 }
    ∷ []

abbrev pub child : Node → Dims → Node
child n o = record {
  level = n.level - 1;
  z = (n.z * 2 + o.z) % 2 ^ 32;
  y = (n.y * 2 + o.y) % 2 ^ 32;
  x = (n.x * 2 + o.x) % 2 ^ 32;
}

unfoldable pub is_inside : Dims → Node → Bool
is_inside g n = ltb n.z g.z && (ltb n.y g.y && ltb n.x g.x)

unfoldable pub push_child : Dims → Node → Dims → List Node → List Node
push_child g n o stack = if is_inside g (child n o) then child n o ∷ stack else stack

unfoldable pub push_octants : Dims → Node → List Dims → List Node → List Node
push_octants g n [] stack = stack
push_octants g n (o ∷ os) stack = push_octants g n os (push_child g n o stack)

unfoldable pub push_children : WorkingSetPlanner → Node → List Node → List Node
push_children p n stack = push_octants (grid_dims p (n.level - 1)) n octants stack

-- The manifest's test. A query outside the manifest's vector has no defined answer, and counts as false.
unfoldable pub is_pruned : WorkingSetPlanner → Node → Bool
is_pruned p n = elim p.manifest [
  | none ↦ false
  | some m ↦ has_level m n.level && (elim (get_elem? m.levels n.level) [
    | none ↦ false
    | some l ↦ elim (invisible l n.z n.y n.x p.vis_threshold) [ none ↦ false | some b ↦ b ]
  ])
]

unfoldable pub key_of : ℕ → Node → BrickKey
key_of volume_id n = record {
  volume_id = volume_id;
  coord = record { level = n.level % 2 ^ 8; z = n.z; y = n.y; x = n.x };
}

-- How many rounds a node can cause, with so many levels below it, and how many the nodes of a stack can.
unfoldable pub node_weight : ℕ → ℕ
node_weight zero = 1
node_weight (suc d) = 1 + 8 * node_weight d

unfoldable pub stack_weight : ℕ → List Node → ℕ
stack_weight desired [] = 0
stack_weight desired (n ∷ stack) = node_weight (n.level - desired) + stack_weight desired stack

module _ {P : Type 0} (p : WorkingSetPlanner) (v : View P) where
  unfoldable pub desired : ℕ
  desired = min v.wanted (p.level_count - 1)

  unfoldable pub is_skipped : Node → Bool
  is_skipped n = not (v.intersects n) || is_pruned p n

  unfoldable pub descend : Node → List Node → List Node
  descend n stack = if ltb desired n.level then push_children p n stack else stack

module _ {P : Type 0} (p : WorkingSetPlanner) (v : View P) (volume_id : ℕ) (cache : GpuBrickCache)
    (max_requests : ℕ) where
  unfoldable pub add_missing : Node → Plan P → Plan P
  add_missing n out =
      if ltb (length out.missing) max_requests
      then record out {
        missing = out.missing ++ record { key = key_of volume_id n; priority = v.priority n } ∷ [];
      }
      else out

  unfoldable pub record_node : Node → Plan P → Plan P
  record_node n out =
      if is_resident cache (key_of volume_id n)
      then record out { visible = out.visible ++ key_of volume_id n ∷ [] }
      else add_missing n out

  -- One round of the loop, after the node has been popped.
  unfoldable pub plan_round : Node → List Node → Plan P → List Node × Plan P
  plan_round n stack out =
      if is_skipped p v n then (stack, out) else (descend p v n stack, record_node n out)

  -- The loop, on fuel; `none` when it runs out.
  unfoldable pub plan_loop : ℕ → List Node → Plan P → Option (Plan P)
  plan_loop fuel [] out = some out
  plan_loop zero (n ∷ stack) out = none
  plan_loop (suc fuel) (n ∷ stack) out =
      let next = plan_round n stack out in plan_loop fuel next.0 next.1

  unfoldable pub plan : Option (Plan P)
  plan =
      plan_loop (stack_weight (desired p v) (roots p)) (roots p)
        (record { missing = []; visible = [] })
