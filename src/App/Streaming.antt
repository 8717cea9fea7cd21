-- ===== src/App/Streaming.antt =====
-- src/app/ViewerWindow.cpp: `pumpStreaming`, which plans and asks for bricks, and `preRenderUpload`, which
-- hands decoded bricks to the uploaders. The camera, what it makes of the planner's view, and the requests
-- of the rays come as arguments; the calls that draw, log or measure time are left out.
pub mod Upload
pub mod Among
pub mod Sorting
pub mod Asked
pub mod Routed
pub mod Idle
mod Tests
use scrollviewer.Base.{
  ℕ, zero, suc, ◌+◌, ◌-◌, ◌*◌, ◌%◌, Bool, true, false, not, ◌&&◌, ◌||◌, Option, none, some, List,
  [], ◌∷◌, ◌++◌, map, length, take, ltb, leb, ◌==◌, if◌then◌else◌, get_elem?,
}
use scrollviewer.Core.LruCache
use scrollviewer.Data.BrickKey.{ChunkCoord, BrickKey, packed}
use scrollviewer.Data.RamCache
use scrollviewer.Data.RamCache.{Brick, RamCache}
use scrollviewer.Data.Volume.{Volume}
use scrollviewer.Data.Manifest.{VolumeManifest, has_level, empty}
use scrollviewer.Data.Pipeline.{FloatOrder, BrickRequest, Pipeline, submit, drain_ready, unpin}
use scrollviewer.Data.Pipeline.Teardown.{PipelineStats, stats}
use scrollviewer.Render.GpuBrickCache.{GpuBrickCache, touch, mark_empty, frame_begin}
use scrollviewer.Render.Planner.{WorkingSetPlanner, View, Plan, plan, desired}
use scrollviewer.Render.Uploader.{GpuUploader, enqueue, drain_to_gpu, pending_count}

-- One volume: its pipeline, its uploader, its GPU cache and its planner.
pub record Stack (P : Type 0) : Type 0 where
  pub pipe : Pipeline P
  pub uploader : GpuUploader
  pub cache : GpuBrickCache
  pub planner : WorkingSetPlanner
  pub volume_id : ℕ

-- The members of `ViewerWindow` that the two functions use; `queued_keys` is a set.
pub record Viewer (P : Type 0) : Type 0 where
  pub main : Stack P
  pub overlay : Stack P
  pub has_overlay : Bool
  pub ram : RamCache
  pub manifest : Option VolumeManifest
  pub level_count : ℕ
  pub surface_bricks : List BrickKey
  pub upload_queue : List Brick
  pub queued_keys : List ℕ
  pub pump_counter : ℕ
  pub streaming_active : Bool
  pub converged_ticks : ℕ
  pub interacting : Bool

-- `unordered_set`.
unfoldable pub has_key : ℕ → List ℕ → Bool
has_key k [] = false
has_key k (j ∷ js) = j == k || has_key k js

unfoldable pub erase_key : ℕ → List ℕ → List ℕ
erase_key k [] = []
erase_key k (j ∷ js) = if j == k then erase_key k js else j ∷ erase_key k js

abbrev pub max_upload_queue : ℕ
max_upload_queue = 256

abbrev pub k_speculative : ℕ
k_speculative = 96

-- What a call of `pumpStreaming` finds: whether the camera moved, whether the wheel did, and the views of
-- the two planners; `feedback` are the requests of the rays, with the priority that each gets.
pub record Tick (P : Type 0) : Type 0 where
  pub cam_changed : Bool
  pub wheel_burst : Bool
  pub view : View P
  pub ov_view : View P
  pub feedback : List (ChunkCoord × P)

unfoldable pub touch_all : List BrickKey → GpuBrickCache → GpuBrickCache
touch_all [] c = c
touch_all (k ∷ ks) c = touch_all ks (touch k c)

-- Both halves of a stable partition by the level: the other levels, and this one.
unfoldable pub at_level : {P : Type 0} → ℕ → List (BrickRequest P) → List (BrickRequest P)
at_level l [] = []
at_level l (r ∷ rs) = if r.key.level == l then r ∷ at_level l rs else at_level l rs

unfoldable pub off_level : {P : Type 0} → ℕ → List (BrickRequest P) → List (BrickRequest P)
off_level l [] = []
off_level l (r ∷ rs) = if r.key.level == l then off_level l rs else r ∷ off_level l rs

-- The bound on the guesses of the planner; `nearest` is `std::nth_element` on the range.
unfoldable pub speculate :
    {P : Type 0}
    → (List (BrickRequest P) → List (BrickRequest P))
    → ℕ
    → ℕ
    → List (BrickRequest P)
    → List (BrickRequest P)
speculate nearest desired_level level_count missing =
    let guesses = at_level desired_level missing in
    let kept =
      if ltb k_speculative (length guesses)
      then take k_speculative (nearest guesses)
      else guesses in
    if ltb (desired_level + 1) level_count then off_level desired_level missing ++ kept else missing

-- The test of the manifest; a read outside of it, `none`, does not happen on one that was read.
unfoldable pub is_known_empty : Option VolumeManifest → ChunkCoord → Bool
is_known_empty none c = false
is_known_empty (some m) c = has_level m c.level && (elim (get_elem? m.levels c.level) [
  | none ↦ false
  | some l ↦ elim (empty m.fill l c.z c.y c.x) [ none ↦ false | some b ↦ b ]
])

unfoldable pub feedback_requests :
    {P : Type 0} → Option VolumeManifest → ℕ → List (ChunkCoord × P) → List (BrickRequest P)
feedback_requests m volume_id [] = []
feedback_requests m volume_id ((c, p) ∷ rest) =
    let others = feedback_requests m volume_id rest in
    if is_known_empty m c
    then others
    else record { key = record { volume_id = volume_id; coord = c }; priority = p } ∷ others

-- What the loops over the missing bricks change: `ramCache_`, `uploadQueue_`, `queuedKeys_` and `wanted`.
pub record Split (P : Type 0) : Type 0 where
  pub ram : RamCache
  pub upload_queue : List Brick
  pub queued_keys : List ℕ
  pub wanted : List (BrickRequest P)

unfoldable pub split_hit : {P : Type 0} → BrickRequest P → Brick → Split P → Split P
split_hit r b s =
    if ltb (length s.upload_queue) max_upload_queue && not (has_key (packed r.key) s.queued_keys)
    then record s {
      upload_queue = s.upload_queue ++ (b ∷ []);
      queued_keys = packed r.key ∷ s.queued_keys;
    }
    else s

unfoldable pub split_one : {P : Type 0} → BrickRequest P → Split P → Split P
split_one r s =
    let (ram, found) = RamCache.get s.ram r.key in
    elim found [
      | some b ↦ split_hit r b (record s { ram = ram })
      | none ↦ record s { ram = ram; wanted = s.wanted ++ (r ∷ []) }
    ]

unfoldable pub split_all : {P : Type 0} → List (BrickRequest P) → Split P → Split P
split_all [] s = s
split_all (r ∷ rs) s = split_all rs (split_one r s)

-- The overlay asks for its coarser levels only.
unfoldable pub coarse : {P : Type 0} → List (BrickRequest P) → List (BrickRequest P)
coarse [] = []
coarse (r ∷ rs) = if ltb r.key.level 2 then coarse rs else r ∷ coarse rs

abbrev pub positive : ℕ → Bool
positive n = ltb 0 n

abbrev pub is_filled : {A : Type 0} → List A → Bool
is_filled l = positive (length l)

-- What is under way in a stack, with the requests that were just made.
unfoldable pub is_pending : {P : Type 0} → List (BrickRequest P) → Stack P → Bool
is_pending wanted st =
    let s = stats st.pipe in
    is_filled wanted
    || (positive s.inflight_fetches
        || (positive s.queued_decodes
            || (positive s.ready || positive (pending_count st.uploader))))

-- The last part of `pumpStreaming`: the streak of quiet ticks.
unfoldable pub converge : {P : Type 0} → Bool → Viewer P → Viewer P
converge busy v =
    let n = v.converged_ticks + 1 in
    if busy
    then record v { converged_ticks = 0 }
    else if ltb n 40
    then record v { converged_ticks = n }
    else record v { converged_ticks = n; streaming_active = false }

-- What the handlers of the camera and of the controls do.
abbrev pub wake : {P : Type 0} → Viewer P → Viewer P
wake v = record v { streaming_active = true }

abbrev pub replan_stride : Bool → Bool → ℕ
replan_stride cam_changed motion = if cam_changed then if motion then 4 else 1 else 8

module _ {P : Type 0} ⦃f : FloatOrder P⦄ (vol ov_vol : Volume)
    (nearest : List (BrickRequest P) → List (BrickRequest P)) where
  -- What the planner of a stack gives, with at most 4096 requests; its loop always ends.
  unfoldable pub plan_of : View P → Stack P → Plan P
  plan_of view st = elim (plan st.planner view st.volume_id st.cache 4096) [
    | none ↦ record { missing = []; visible = [] }
    | some p ↦ p
  ]

  -- All that the main volume misses.
  unfoldable pub missing_of : Tick P → Viewer P → List (BrickRequest P)
  missing_of t v =
      let level = desired v.main.planner t.view in
      speculate nearest level v.level_count (plan_of t.view v.main).missing
      ++ feedback_requests v.manifest v.main.volume_id t.feedback

  -- A part of a tick, and what it says of what is under way.
  unfoldable pub pump_main : Tick P → Viewer P → Viewer P × List (BrickRequest P)
  pump_main t v =
      let touched =
        touch_all v.surface_bricks (touch_all (plan_of t.view v.main).visible v.main.cache) in
      let s = split_all (missing_of t v) (record {
        ram = v.ram;
        upload_queue = v.upload_queue;
        queued_keys = v.queued_keys;
        wanted = [];
      }) in
      (
        record v {
          main = record v.main { cache = touched; pipe = submit vol s.wanted v.main.pipe };
          ram = s.ram;
          upload_queue = s.upload_queue;
          queued_keys = s.queued_keys;
        },
        s.wanted,
      )

  unfoldable pub pump_overlay : Tick P → Viewer P → Viewer P × Bool
  pump_overlay t v =
      let p = plan_of t.ov_view v.overlay in
      let s = split_all (coarse p.missing) (record {
        ram = v.ram;
        upload_queue = v.upload_queue;
        queued_keys = v.queued_keys;
        wanted = [];
      }) in
      let st : Stack P = record v.overlay {
        cache = touch_all p.visible v.overlay.cache;
        pipe = submit ov_vol s.wanted v.overlay.pipe;
      } in
      if v.has_overlay
      then (
        record v {
          overlay = st;
          ram = s.ram;
          upload_queue = s.upload_queue;
          queued_keys = s.queued_keys;
        },
        is_pending s.wanted st,
      )
      else (v, false)

  -- What a tick that plans has touched and asked for.
  unfoldable pub ask : Tick P → Viewer P → Viewer P
  ask t v = (pump_overlay t (pump_main t v).0).0

  -- `anythingPending || !plan.missing.empty()`.
  unfoldable pub is_busy : Tick P → Viewer P → Bool
  is_busy t v =
      let (v1, wanted) = pump_main t v in
      let (v2, ov_pending) = pump_overlay t v1 in
      (is_pending wanted v2.main || (is_filled v2.upload_queue || ov_pending))
      || is_filled (missing_of t v)

  unfoldable pub replan : Tick P → Viewer P → Viewer P
  replan t v = converge (is_busy t v) (ask t v)

  unfoldable pub is_replanned : Tick P → Viewer P → Bool
  is_replanned t v =
      v.pump_counter % replan_stride t.cam_changed (v.interacting || t.wheel_burst) == 0

  abbrev pub count_tick : Viewer P → Viewer P
  count_tick v = record v { pump_counter = v.pump_counter + 1 }

  unfoldable pub pump_streaming : Tick P → Viewer P → Viewer P
  pump_streaming t v =
      if not v.streaming_active
      then v
      else if is_replanned t (count_tick v)
      then replan t (count_tick v)
      else count_tick v
