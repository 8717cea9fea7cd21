-- ===== src/Data/Pipeline.antt =====
-- src/data/ChunkFetchPipeline.h and ChunkFetchPipeline.cpp: the state and the methods. A method runs
-- under `mutex_`, so it is one step; `reads` and `jobs` are what it has handed to the store and to
-- the decode pool, which come back later, in any order.
pub mod Invariant
pub mod Pump
pub mod Submit
pub mod System
pub mod Done
pub mod Publish
pub mod Run
pub mod Progress
pub mod Wanted
pub mod Stops
pub mod Teardown
pub mod Tests
use Prim.Native.String.{String}
use scrollviewer.Base.{
  ℕ, suc, ◌+◌, ◌-◌, ◌*◌, ◌≡◌, Bool, true, false, not, ◌&&◌, ◌||◌, Option, none, some, List, [], ◌∷◌,
  ◌++◌, map, ltb, ◌==◌, if◌then◌else◌, add64,
}
use scrollviewer.Base.Assoc
use scrollviewer.Data.BrickKey.{BrickKey, key_dec, packed}
use scrollviewer.Data.RamCache.{Brick}
use scrollviewer.Data.Volume.{Volume}

-- What the pipeline needs of `float` priorities: `<`, `==`, and that none is a NaN.
pub record FloatOrder (P : Type 0) : Type 0 where
  pub lt : P → P → Bool
  pub eq : P → P → Bool
  pub eq_refl : (p : P) → eq p p ≡ true

pub data State : Type 0 where
  queued fetching decoding done : State

-- `StoreError::Kind` and `StoreResult`.
pub data Kind : Type 0 where
  not_found io http cancelled auth : Kind

pub data StoreResult : Type 0 where
  bytes : List ℕ → StoreResult
  error : Kind → StoreResult

pub record BrickRequest (P : Type 0) : Type 0 where
  pub key : BrickKey
  pub priority : P

-- `stop` names the shared `stop_source`.
pub record Tracked (P : Type 0) : Type 0 where
  pub priority : P
  pub epoch : ℕ
  pub state : State
  pub stop : Option ℕ

pub record HeapEntry (P : Type 0) : Type 0 where
  pub priority : P
  pub seq : ℕ
  pub key : BrickKey

-- A read that the store has not called back.
pub record Read : Type 0 where
  pub key : BrickKey
  pub store_key : String
  pub stop : ℕ

-- A decode job that the pool has not run.
pub record Job : Type 0 where
  pub key : BrickKey
  pub compressed : List ℕ
  pub is_missing : Bool

pub record Config : Type 0 where
  pub max_inflight_fetches : ℕ
  pub max_queued_decodes : ℕ
  pub max_ready_pinned_bytes : ℕ

-- `stopped` lists the stop sources on which `request_stop` was called, and `next_stop` is the next one
-- to be made.
pub record Pipeline (P : Type 0) : Type 0 where
  pub config : Config
  pub open config use *
  pub heap : List (HeapEntry P)
  pub tracked : List (BrickKey × Tracked P)
  pub current_epoch : ℕ
  pub seq_counter : ℕ
  pub inflight_fetches : ℕ
  pub queued_decodes : ℕ
  pub pending_store_callbacks : ℕ
  pub ready : List Brick
  pub ready_pinned_bytes : ℕ
  pub next_stop : ℕ
  pub stopped : List ℕ
  pub reads : List Read
  pub jobs : List Job

abbrev pub is_queued : State → Bool
is_queued State.queued = true
is_queued _ = false

abbrev pub is_fetching : State → Bool
is_fetching State.fetching = true
is_fetching _ = false

-- The constructor's choice of `decodeThreads` from the configured number and the number of cores.
unfoldable pub decode_threads : ℕ → ℕ → ℕ
decode_threads configured cores =
    if configured == 0
    then (let hw = (if ltb 2 cores then cores else 2) in
        let n = (if ltb 4 hw then hw - 4 else 2) in if ltb 2 n then n else 2)
    else configured

unfoldable pub init : {P : Type 0} → Config → ℕ → ℕ → Pipeline P
init config configured cores = record {
  config =
      (if config.max_queued_decodes == 0
        then record config { max_queued_decodes = decode_threads configured cores * 2 }
        else config);
  heap = [];
  tracked = [];
  current_epoch = 0;
  seq_counter = 0;
  inflight_fetches = 0;
  queued_decodes = 0;
  pending_store_callbacks = 0;
  ready = [];
  ready_pinned_bytes = 0;
  next_stop = 0;
  stopped = [];
  reads = [];
  jobs = [];
}

-- The set of packed keys that `submit` looks fetches up in.
unfoldable pub contains : ℕ → List ℕ → Bool
contains n [] = false
contains n (m ∷ ms) = m == n || contains n ms

module _ {P : Type 0} ⦃f : FloatOrder P⦄ where
  abbrev pub find : BrickKey → Pipeline P → Option (Tracked P)
  find k s = Assoc.lookup key_dec k s.tracked

  -- `HeapEntry::operator<`.
  unfoldable pub less : HeapEntry P → HeapEntry P → Bool
  less a b = if f.eq a.priority b.priority then ltb b.seq a.seq else f.lt a.priority b.priority

  -- `std::priority_queue`, kept with its top at the head.
  unfoldable pub heap_push : HeapEntry P → List (HeapEntry P) → List (HeapEntry P)
  heap_push e [] = e ∷ []
  heap_push e (h ∷ hs) = if less h e then e ∷ h ∷ hs else h ∷ heap_push e hs

  -- `heap_.push(HeapEntry{r.priority, seqCounter_++, r.key})`.
  unfoldable pub push_request : BrickRequest P → Pipeline P → Pipeline P
  push_request r s = record s {
    heap = heap_push (record { priority = r.priority; seq = s.seq_counter; key = r.key }) s.heap;
    seq_counter = add64 s.seq_counter 1;
  }

  abbrev put : BrickKey → Tracked P → Pipeline P → Pipeline P
  put k t s = record s { tracked = Assoc.insert key_dec k t s.tracked }

  abbrev drop : BrickKey → Pipeline P → Pipeline P
  drop k s = record s { tracked = Assoc.erase key_dec k s.tracked }

  -- One round of the first loop of `submit`.
  unfoldable pub submit_one : BrickRequest P → Pipeline P → Pipeline P
  submit_one r s = elim (find r.key s) [
    | none ↦ push_request r (
        put r.key
          (record {
            priority = r.priority;
            epoch = s.current_epoch;
            state = State.queued;
            stop = none;
          })
          s)
    | some t ↦
        if is_queued t.state && not (f.eq t.priority r.priority)
        then push_request r
            (put r.key (record t { priority = r.priority; epoch = s.current_epoch }) s)
        else put r.key (record t { epoch = s.current_epoch }) s
  ]

  unfoldable pub submit_all : List (BrickRequest P) → Pipeline P → Pipeline P
  submit_all [] s = s
  submit_all (r ∷ rs) s = submit_all rs (submit_one r s)

  -- The second loop: fetches that nobody wants are told to stop.
  unfoldable pub cancel : List ℕ → List (BrickKey × Tracked P) → List ℕ → List ℕ
  cancel wanted [] stopped = stopped
  cancel wanted ((k, t) ∷ m) stopped = elim t.stop [
    | none ↦ cancel wanted m stopped
    | some i ↦
        cancel wanted m
          (if is_fetching t.state && not (contains (packed k) wanted) then i ∷ stopped else stopped)
  ]

  -- The condition of the loop in `pump`, but for the heap.
  unfoldable pub below_caps : Pipeline P → Bool
  below_caps s =
      ltb s.inflight_fetches s.max_inflight_fetches
      && ltb s.queued_decodes s.max_queued_decodes
      && ltb s.ready_pinned_bytes s.max_ready_pinned_bytes

  unfoldable pub drain_ready : Pipeline P → Pipeline P × List Brick
  drain_ready s = (record s { ready = [] }, s.ready)

  module _ (vol : Volume) where
    unfoldable pub issue : BrickKey → Tracked P → Pipeline P → Pipeline P
    issue k t s = record s {
      tracked =
          Assoc.insert key_dec k (record t { state = State.fetching; stop = some s.next_stop })
            s.tracked;
      inflight_fetches = s.inflight_fetches + 1;
      pending_store_callbacks = s.pending_store_callbacks + 1;
      next_stop = s.next_stop + 1;
      reads =
          s.reads
          ++ record { key = k; store_key = vol.chunk_store_key k.coord; stop = s.next_stop } ∷ [];
    }

    -- One round of the loop in `pump`, after `pop`; `kStaleWindow` is 1.
    unfoldable pub pump_one : HeapEntry P → Pipeline P → Pipeline P
    pump_one e s = elim (find e.key s) [
      | none ↦ s
      | some t ↦
          if not (is_queued t.state)
          then s
          else (if not (f.eq e.priority t.priority)
              then s
              else (if ltb (add64 t.epoch 1) s.current_epoch
                  then drop e.key s
                  else issue e.key t s))
    ]

    unfoldable pub pump_loop : List (HeapEntry P) → Pipeline P → Pipeline P
    pump_loop [] s = record s { heap = [] }
    pump_loop (e ∷ h) s =
        let rest = pump_loop h (pump_one e s) in
        if below_caps s then rest else record s { heap = e ∷ h }

    unfoldable pub pump : Pipeline P → Pipeline P
    pump s = pump_loop s.heap s

    unfoldable pub submit : List (BrickRequest P) → Pipeline P → Pipeline P
    submit wanted s =
        let s' = submit_all wanted (record s { current_epoch = add64 s.current_epoch 1 }) in
        pump (record s' {
          stopped =
              cancel (map (λ (r : BrickRequest P). packed r.key) wanted) s'.tracked s'.stopped;
        })

    -- The destructor of `CallbackGuard`.
    abbrev finish : Pipeline P → Pipeline P
    finish s = record s { pending_store_callbacks = s.pending_store_callbacks - 1 }

    start_decode : BrickKey → Tracked P → List ℕ → Bool → Pipeline P → Pipeline P
    start_decode k t compressed is_missing s = record s {
      tracked = Assoc.insert key_dec k (record t { state = State.decoding; stop = none }) s.tracked;
      queued_decodes = s.queued_decodes + 1;
      jobs = s.jobs ++ record { key = k; compressed = compressed; is_missing = is_missing } ∷ [];
    }

    -- The part of `onFetchDone` that is under the guard.
    unfoldable pub fetch_outcome : BrickKey → StoreResult → Pipeline P → Pipeline P
    unfolding start_decode
    fetch_outcome k r s = elim (find k s) [
      | none ↦ pump s
      | some t ↦ elim r [
        | StoreResult.bytes b ↦ start_decode k t b false s
        | StoreResult.error Kind.not_found ↦ start_decode k t [] true s
        | StoreResult.error _ ↦ pump (drop k s)
      ]
    ]

    unfoldable pub on_fetch_done : BrickKey → StoreResult → Pipeline P → Pipeline P
    on_fetch_done k r s =
        finish (fetch_outcome k r (record s { inflight_fetches = s.inflight_fetches - 1 }))

    -- The end of `decodeAndPublish`: on a decode error, and with the brick that `insertPinned` returned.
    unfoldable pub decode_failed : BrickKey → Pipeline P → Pipeline P
    decode_failed k s = pump (drop k (record s { queued_decodes = s.queued_decodes - 1 }))

    unfoldable pub publish : BrickKey → Brick → Pipeline P → Pipeline P
    publish k stored s = pump (record s {
      queued_decodes = s.queued_decodes - 1;
      tracked = Assoc.erase key_dec k s.tracked;
      ready_pinned_bytes = add64 s.ready_pinned_bytes (vol.chunk_bytes k.level);
      ready = s.ready ++ stored ∷ [];
    })

    -- The part of `unpin` that is under the pipeline's mutex.
    unfoldable pub unpin : BrickKey → Pipeline P → Pipeline P
    unpin k s =
        let n = vol.chunk_bytes k.level in
        pump (record s {
          ready_pinned_bytes = (if ltb n s.ready_pinned_bytes then s.ready_pinned_bytes - n else 0);
        })
