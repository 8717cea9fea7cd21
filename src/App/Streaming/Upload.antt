-- ===== src/App/Streaming/Upload.antt =====
-- src/app/ViewerWindow.cpp: `preRenderUpload`, with the context of OpenGL current. The fences that have
-- signalled are arguments; the start of the uploaders and the upload of the page tables are left out.
use scrollviewer.Base.{ℕ, ◌-◌, Bool, false, not, ◌&&◌, List, [], ◌∷◌, leb, ◌==◌, if◌then◌else◌}
use scrollviewer.Data.BrickKey.{BrickKey, packed}
use scrollviewer.Data.RamCache
use scrollviewer.Data.RamCache.{Brick, RamCache}
use scrollviewer.Data.Volume.{Volume}
use scrollviewer.Data.Pipeline.{FloatOrder, drain_ready, unpin}
use scrollviewer.Render.GpuBrickCache.{mark_empty, frame_begin}
use scrollviewer.Render.Uploader.{enqueue, drain_to_gpu, pending_count}
use scrollviewer.App.Streaming.{Stack, Viewer, has_key, erase_key}

-- What the routing of a decoded brick changes: its stack, `ramCache_` and `queuedKeys_`.
pub record Route (P : Type 0) : Type 0 where
  pub stack : Stack P
  pub ram : RamCache
  pub queued_keys : List ℕ

abbrev pub mark : {P : Type 0} → BrickKey → Stack P → Stack P
mark k st = record st { cache = record st.cache { pages = mark_empty k st.cache.pages } }

-- Of the coarsest two levels.
abbrev pub is_pinned : ℕ → BrickKey → Bool
is_pinned level_count k = leb (level_count - 2) k.level

-- A brick with voxels goes to the uploader unless its key is in the set; a brick that the uploader does
-- not take leaves the set again.
unfoldable pub hand_over : {P : Type 0} → Bool → Brick → Route P → Route P
hand_over pinned b r =
    let (u, taken) = enqueue b pinned r.stack.uploader in
    let k = packed b.key in
    if has_key k r.queued_keys then r else record r {
      stack = record r.stack { uploader = u };
      queued_keys = if taken then k ∷ r.queued_keys else erase_key k (k ∷ r.queued_keys);
    }

module _ {P : Type 0} ⦃f : FloatOrder P⦄ where
  -- One round of the loop over the decoded bricks; `pinned` tells which bricks get a pinned slot.
  unfoldable pub route_one : Volume → (BrickKey → Bool) → Brick → Route P → Route P
  route_one vol pinned b r =
      let r' =
        (if b.is_fill_value
          then record r { stack = mark b.key r.stack }
          else hand_over (pinned b.key) b r) in
      record r' {
        stack = record r'.stack { pipe = unpin vol b.key r'.stack.pipe };
        ram = RamCache.unpin r'.ram b.key;
      }

  unfoldable pub route_all : Volume → (BrickKey → Bool) → List Brick → Route P → Route P
  route_all vol pinned [] r = r
  route_all vol pinned (b ∷ bs) r = route_all vol pinned bs (route_one vol pinned b r)

  -- The loop over `drainReady`.
  unfoldable pub route_ready : Volume → (BrickKey → Bool) → Route P → Route P
  route_ready vol pinned r =
      let (pipe, bricks) = drain_ready r.stack.pipe in
      route_all vol pinned bricks (record r { stack = record r.stack { pipe = pipe } })

  -- The loop over `uploadQueue_`, which stops when an uploader does not take a brick.
  unfoldable pub feed_queue : List Brick → Viewer P → Viewer P
  feed_queue [] v = record v { upload_queue = [] }
  feed_queue (b ∷ bs) v =
      let k = packed b.key in
      let is_overlay = b.key.volume_id == v.overlay.volume_id in
      let st = (if is_overlay then v.overlay else v.main) in
      let pinned = not is_overlay && is_pinned v.level_count b.key in
      let (u, taken) = enqueue b pinned st.uploader in
      let put : Stack P → Viewer P =
        λ s. if is_overlay then record v { overlay = s } else record v { main = s } in
      let marked = put (mark b.key st) in
      let filled = feed_queue bs (record marked { queued_keys = erase_key k v.queued_keys }) in
      let given = put (record st { uploader = u }) in
      let fed = feed_queue bs given in
      if b.is_fill_value
      then filled
      else if taken
      then fed
      else record given { upload_queue = bs; queued_keys = erase_key k v.queued_keys }

  unfoldable pub feed_main : (ℕ → Bool) → Viewer P → Viewer P
  feed_main signalled v =
      let budget = (if v.interacting then 12 else 96) in
      let (u, c, n) = drain_to_gpu budget signalled v.main.uploader v.main.cache in
      record v { main = record v.main { uploader = u; cache = c } }

  -- The overlay's part of a frame.
  unfoldable pub feed_overlay : Volume → (ℕ → Bool) → Viewer P → Viewer P
  feed_overlay ov_vol signalled v =
      let st : Stack P = record v.overlay { cache = frame_begin v.pump_counter v.overlay.cache } in
      let r =
        route_ready ov_vol (λ k. false)
          (record { stack = st; ram = v.ram; queued_keys = v.queued_keys }) in
      let (u, c, n) = drain_to_gpu 12 signalled r.stack.uploader r.stack.cache in
      if v.has_overlay
      then record v {
        overlay = record r.stack { uploader = u; cache = c };
        ram = r.ram;
        queued_keys = r.queued_keys;
      }
      else v

  unfoldable pub route_main : Volume → Viewer P → Viewer P
  route_main vol v =
      let r =
        route_ready vol (is_pinned v.level_count)
          (record { stack = v.main; ram = v.ram; queued_keys = v.queued_keys }) in
      record v { main = r.stack; ram = r.ram; queued_keys = r.queued_keys }

  unfoldable pub forget_keys : Viewer P → Viewer P
  forget_keys v = if pending_count v.main.uploader == 0 then record v { queued_keys = [] } else v

  unfoldable pub pre_render_upload : Volume → Volume → (ℕ → Bool) → (ℕ → Bool) → Viewer P → Viewer P
  pre_render_upload vol ov_vol signalled ov_signalled v =
      let v1 = route_main vol v in
      let v2 = feed_queue v1.upload_queue v1 in
      forget_keys (feed_overlay ov_vol ov_signalled (feed_main signalled v2))
