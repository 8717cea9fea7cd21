-- ===== src/Render/Uploader.antt =====
-- src/render/GpuUploader.h and GpuUploader.cpp: the ring of staging slots between the assembly workers and
-- the render thread. What `assemble` writes into a slot is not looked at here, and OpenGL is left out but for
-- its fences: whether one has signalled is an argument.
pub mod Ring
pub mod Steps
pub mod Balance
pub mod Progress
pub mod Tests
use scrollviewer.Base.{
  ℕ, zero, suc, ◌+◌, ◌-◌, Bool, true, false, not, ◌&&◌, ◌||◌, Option, none, some, List, [], ◌∷◌,
  ◌++◌, map, length, ltb, leb, ◌==◌, if◌then◌else◌, get_elem?, set, replicate,
}
use scrollviewer.Data.BrickKey.{BrickKey}
use scrollviewer.Data.RamCache.{Brick}
use scrollviewer.Render.GpuBrickCache.{GpuBrickCache, blank, upload}

pub data SlotState : Type 0 where
  free writing ready in_flight : SlotState

pub record RingSlot : Type 0 where
  pub state : SlotState
  pub key : BrickKey
  pub pinned : Bool
  pub min_val : ℕ
  pub max_val : ℕ

pub record FenceBatch : Type 0 where
  pub sync : ℕ
  pub slot_ids : List ℕ

-- `jobs` counts the jobs of the pool that are posted, or running and about to take the mutex for a slot;
-- a job that assembles has a slot in the state `writing`. `next_sync` is what `glFenceSync` returns next.
pub record GpuUploader : Type 0 where
  pub slots : List RingSlot
  pub fences : List FenceBatch
  pub pending : List (Brick × Bool)
  pub jobs : ℕ
  pub next_sync : ℕ

abbrev pub max_pending : ℕ
max_pending = 4096

abbrev pub free_slot : RingSlot
free_slot = record {
  state = SlotState.free;
  key = blank.key;
  pinned = false;
  min_val = 0;
  max_val = 255;
}

-- The uploader after `initialize`, before any brick.
unfoldable pub initialize : ℕ → GpuUploader
initialize slot_count = record {
  slots = replicate slot_count free_slot;
  fences = [];
  pending = [];
  jobs = 0;
  next_sync = 0;
}

unfoldable pub kick_workers : GpuUploader → GpuUploader
kick_workers u = record u { jobs = u.jobs + 1 }

unfoldable pub enqueue : Brick → Bool → GpuUploader → GpuUploader × Bool
enqueue b pinned u =
    if leb max_pending (length u.pending)
    then (u, false)
    else (kick_workers (record u { pending = u.pending ++ (b, pinned) ∷ [] }), true)

-- The first free slot at or after index i, for the slots from i on.
unfoldable pub find_free : ℕ → List RingSlot → Option ℕ
find_free i [] = none
find_free i (s ∷ ss) = elim s.state [ SlotState.free ↦ some i | _ ↦ find_free (suc i) ss ]

abbrev pub writing_slot : Brick → Bool → RingSlot
writing_slot b pinned = record {
  state = SlotState.writing;
  key = b.key;
  pinned = pinned;
  min_val = b.min_val;
  max_val = b.max_val;
}

-- A worker's first critical section: without a brick or a free slot the job ends; otherwise it goes on to
-- assemble.
unfoldable pub worker_take : GpuUploader → GpuUploader
worker_take u = elim u.pending [
  | [] ↦ record u { jobs = u.jobs - 1 }
  | (b, pinned) ∷ rest ↦ elim (find_free 0 u.slots) [
    | none ↦ record u { jobs = u.jobs - 1 }
    | some i ↦ record u {
      slots = set u.slots i (writing_slot b pinned);
      pending = rest;
      jobs = u.jobs - 1;
    }
  ]
]

unfoldable pub set_state : SlotState → ℕ → List RingSlot → List RingSlot
set_state st i [] = []
set_state st zero (s ∷ ss) = record s { state = st } ∷ ss
set_state st (suc i) (s ∷ ss) = s ∷ set_state st i ss

unfoldable pub is_writing : ℕ → List RingSlot → Bool
is_writing i [] = false
is_writing zero (s ∷ ss) = elim s.state [ SlotState.writing ↦ true | _ ↦ false ]
is_writing (suc i) (s ∷ ss) = is_writing i ss

-- Its second one, after the slot has been assembled; the job goes round its loop.
unfoldable pub worker_finish : ℕ → GpuUploader → GpuUploader
worker_finish i u = record u { slots = set_state SlotState.ready i u.slots; jobs = u.jobs + 1 }

unfoldable pub free_all : List ℕ → List RingSlot → List RingSlot
free_all [] ss = ss
free_all (i ∷ is) ss = free_all is (set_state SlotState.free i ss)

-- The loop over the fences: the slots, the fences that are left, and whether any slots were freed.
unfoldable pub recycle :
    (ℕ → Bool) → List FenceBatch → List RingSlot → Bool → List RingSlot × List FenceBatch × Bool
recycle signalled [] ss freed = (ss, [], freed)
recycle signalled (f ∷ fs) ss freed =
    let rest = recycle signalled fs (free_all f.slot_ids ss) true in
    if signalled f.sync then rest else (ss, f ∷ fs, freed)

-- The loops that pick ready slots and mark them, in one: the batch, with what is uploaded of each slot, and
-- the slots.
unfoldable pub launch : ℕ → ℕ → List RingSlot → List (ℕ × RingSlot) × List RingSlot
launch zero i ss = ([], ss)
launch (suc budget) i [] = ([], [])
launch (suc budget) i (s ∷ ss) = elim s.state [
  | SlotState.ready ↦
      let (batch, rest) = launch budget (suc i) ss in
      ((i, s) ∷ batch, record s { state = SlotState.in_flight } ∷ rest)
  | _ ↦ let (batch, rest) = launch (suc budget) (suc i) ss in (batch, s ∷ rest)
]

unfoldable pub upload_batch : List (ℕ × RingSlot) → GpuBrickCache → GpuBrickCache
upload_batch [] c = c
upload_batch ((i, s) ∷ batch) c = upload_batch batch (upload s.key s.pinned s.min_val s.max_val c)

-- A batch that is not empty gets a fence.
unfoldable pub add_fence : List (ℕ × RingSlot) → GpuUploader → GpuUploader
add_fence [] u = u
add_fence ((i, s) ∷ batch) u = record u {
  fences =
      u.fences
      ++ record { sync = u.next_sync; slot_ids = i ∷ map (λ (e : ℕ × RingSlot). e.0) batch } ∷ [];
  next_sync = u.next_sync + 1;
}

-- The batch of a call of `drainToGpu`, and the uploader after it.
unfoldable pub drain_batch : ℕ → (ℕ → Bool) → GpuUploader → List (ℕ × RingSlot) × GpuUploader
drain_batch budget signalled u =
    let (ss, fs, freed) = recycle signalled u.fences u.slots false in
    let (batch, ss') = launch budget 0 ss in
    let v = add_fence batch (record u { slots = ss'; fences = fs }) in
    (batch, if freed || ltb 0 (length batch) then kick_workers v else v)

unfoldable pub drain_to_gpu :
    ℕ → (ℕ → Bool) → GpuUploader → GpuBrickCache → GpuUploader × GpuBrickCache × ℕ
drain_to_gpu budget signalled u c =
    let (batch, v) = drain_batch budget signalled u in (v, upload_batch batch c, length batch)

unfoldable pub in_ring : List RingSlot → ℕ
in_ring [] = 0
in_ring (s ∷ ss) = elim s.state [ SlotState.free ↦ in_ring ss | _ ↦ 1 + in_ring ss ]

unfoldable pub pending_count : GpuUploader → ℕ
pending_count u = length u.pending + in_ring u.slots

-- The uploader with the cache that it fills, and the keys that it has handed to the cache.
pub record System : Type 0 where
  pub uploader : GpuUploader
  pub cache : GpuBrickCache
  pub sent : List BrickKey

-- What the render thread and the workers do. A worker finishes a slot that it is writing, and a job that is
-- not there does nothing.
pub data Event : Type 0 where
  enqueues : Brick → Bool → Event
  takes : Event
  finishes : ℕ → Event
  drains : ℕ → (ℕ → Bool) → Event

unfoldable pub step : Event → System → System
step (enqueues b pinned) s = record s { uploader = (enqueue b pinned s.uploader).0 }
step takes s = if ltb 0 s.uploader.jobs then record s { uploader = worker_take s.uploader } else s
step (finishes i) s =
    if is_writing i s.uploader.slots then record s { uploader = worker_finish i s.uploader } else s
step (drains budget signalled) s = record {
  uploader = (drain_to_gpu budget signalled s.uploader s.cache).0;
  cache = (drain_to_gpu budget signalled s.uploader s.cache).1;
  sent = s.sent ++ map (λ (e : ℕ × RingSlot). e.1.key) (drain_batch budget signalled s.uploader).0;
}

unfoldable pub run : List Event → System → System
run [] s = s
run (e ∷ es) s = run es (step e s)

unfoldable pub start : ℕ → GpuBrickCache → System
start slot_count c = record { uploader = initialize slot_count; cache = c; sent = [] }
