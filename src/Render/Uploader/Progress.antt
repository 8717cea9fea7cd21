-- ===== src/Render/Uploader/Progress.antt =====
-- src/render/GpuUploader.cpp: who will take a brick that waits.
use scrollviewer.Base.{
  ℕ, zero, suc, ◌+◌, ◌-◌, ◌≡◌, ◌≤◌, refl, ap, ◌∙◌, ◌⊎◌, Bool, true, false, none, some, List, [],
  ◌∷◌, length, ltb, leb, ◌||◌, set, total, arith, Bool-cases, Option-cases, List-cases, inl, inr,
}
use scrollviewer.Data.RamCache.{Brick}
use scrollviewer.Render.GpuBrickCache.{GpuBrickCache}
use scrollviewer.Render.Uploader.{
  SlotState, RingSlot, FenceBatch, GpuUploader, max_pending, initialize, free_all, kick_workers,
  enqueue, find_free, writing_slot, worker_take, worker_finish, is_writing, recycle, launch,
  add_fence, drain_batch, drain_to_gpu, System, Event, enqueues, takes, finishes, drains, step, run,
  start,
}

abbrev is_writer : RingSlot → ℕ
is_writer s = elim s.state [ SlotState.writing ↦ 1 | _ ↦ 0 ]

-- How many workers assemble.
abbrev pub writers : List RingSlot → ℕ
writers = total is_writer

-- No brick waits, or no slot is free, or a job is posted or running.
abbrev pub IsServed : GpuUploader → Type 0
IsServed u = (u.pending ≡ []) ⊎ ((find_free 0 u.slots ≡ none) ⊎ (1 ≤ u.jobs + writers u.slots))

taken_writes :
    (o i : ℕ) (ss : List RingSlot) (b : Brick) (pinned : Bool)
    → find_free o ss ≡ some i
    → (o ≤ i) × (1 ≤ writers (set ss (i - o) (writing_slot b pinned)))
unfolding find_free
taken_writes o i [] b pinned h = absurd (cc)
taken_writes o i (s ∷ ss) b pinned h =
    elim (Bool-cases (elim s.state [ SlotState.free ↦ true | _ ↦ false ])) [
      | inl e ↦ let here : i - o ≡ 0 = ground arith in rw here (ground arith, omega arith)
      | inr e ↦
          let (later, more) = taken_writes (suc o) i ss b pinned (ground arith) in
          let next : i - o ≡ suc (i - suc o) = omega arith in rw next (omega arith, omega arith)
    ]

recycle_freed :
    (signalled : ℕ → Bool) (fs : List FenceBatch) (ss : List RingSlot)
    → (recycle signalled fs ss true).2 ≡ true
unfolding recycle
recycle_freed signalled [] ss = refl
recycle_freed signalled (f ∷ fs) ss =
    ground (arith, recycle_freed signalled fs (free_all f.slot_ids ss))

-- When nothing is freed, the slots are as they were.
recycle_kept :
    (signalled : ℕ → Bool) (fs : List FenceBatch) (ss : List RingSlot)
    → (recycle signalled fs ss false).2 ≡ false
    → (recycle signalled fs ss false).0 ≡ ss
unfolding recycle
recycle_kept signalled [] ss h = refl
recycle_kept signalled (f ∷ fs) ss h = elim (Bool-cases (signalled f.sync)) [
  | inr e ↦ rw (recycle, e) refl
  | inl e ↦ absurd (ground (arith, recycle_freed signalled fs (free_all f.slot_ids ss)))
]

-- Nor does an empty batch change them.
launch_kept :
    (budget i : ℕ) (ss : List RingSlot)
    → length (launch budget i ss).0 ≡ 0
    → (launch budget i ss).1 ≡ ss
unfolding launch
launch_kept zero i ss h = refl
launch_kept (suc budget) i [] h = refl
launch_kept (suc budget) i (s ∷ ss) h = ground (arith, launch_kept (suc budget) (suc i) ss)

idle :
    (batch : List (ℕ × RingSlot)) (u w : GpuUploader)
    → length batch ≡ 0
    → w.pending ≡ u.pending
    → w.slots ≡ u.slots
    → w.jobs ≡ u.jobs
    → IsServed u
    → IsServed (add_fence batch w)
unfolding add_fence
idle [] u w e queue slots jobs v = rw (queue, slots, jobs) v
idle (i ∷ is) u w e queue slots jobs v = absurd (omega arith)

drain_batch-IsServed :
    (budget : ℕ) (signalled : ℕ → Bool) (u : GpuUploader)
    → IsServed u
    → IsServed (drain_batch budget signalled u).1
unfolding drain_batch kick_workers
drain_batch-IsServed budget signalled u v =
    let out : List RingSlot × List FenceBatch × Bool = recycle signalled u.fences u.slots false in
    let sent : List (ℕ × RingSlot) × List RingSlot = launch budget 0 out.0 in
    elim (Bool-cases (out.2 || ltb 0 (length sent.0))) [
      | inl e ↦ rw (drain_batch, e) (inr (inr (omega arith)))
      | inr e ↦
          let kept : out.0 ≡ u.slots = recycle_kept signalled u.fences u.slots (ground arith) in
          let empty : length sent.0 ≡ 0 = ground arith in
          rw (drain_batch, e)
            (idle sent.0 u (record u { slots = sent.1; fences = out.1 }) empty refl
              (launch_kept budget 0 out.0 empty ∙ kept) refl v)
    ]

worker_take-IsServed : (u : GpuUploader) → IsServed u → IsServed (worker_take u)
unfolding worker_take
worker_take-IsServed u v = elim (List-cases u.pending) [
  | inl e ↦ rw (worker_take, e) (inl e)
  | inr (b, rest, e) ↦ elim (Option-cases (find_free 0 u.slots)) [
    | inl k ↦ rw (worker_take, e, k) (inr (inl k))
    | inr (i, k) ↦
        let (low, writes) = taken_writes 0 i u.slots b.0 b.1 k in
        let whole : i - 0 ≡ i = omega arith in
        rw (worker_take, e, k)
          (inr (
            inr (
              omega
                (arith, writes, ap (λ j. writers (set u.slots j (writing_slot b.0 b.1))) whole))))
  ]
]

enqueue-IsServed :
    (b : Brick) (pinned : Bool) (u : GpuUploader) → IsServed u → IsServed (enqueue b pinned u).0
unfolding enqueue kick_workers
enqueue-IsServed b pinned u v = elim (Bool-cases (leb max_pending (length u.pending))) [
  | inl e ↦ rw (enqueue, e) v
  | inr e ↦ rw (enqueue, e) (inr (inr (omega arith)))
]

step-IsServed : (e : Event) (s : System) → IsServed s.uploader → IsServed (step e s).uploader
unfolding step drain_to_gpu worker_finish
step-IsServed (enqueues b pinned) s v = enqueue-IsServed b pinned s.uploader v
step-IsServed takes s v = elim (Bool-cases (ltb 0 s.uploader.jobs)) [
  | inr e ↦ rw (step, e) v
  | inl e ↦ rw (step, e) (worker_take-IsServed s.uploader v)
]
step-IsServed (finishes i) s v = elim (Bool-cases (is_writing i s.uploader.slots)) [
  | inr e ↦ rw (step, e) v
  | inl e ↦ rw (step, e) (inr (inr (omega arith)))
]
step-IsServed (drains budget signalled) s v = drain_batch-IsServed budget signalled s.uploader v

run_from-IsServed :
    (es : List Event) (s : System) → IsServed s.uploader → IsServed (run es s).uploader
unfolding run
run_from-IsServed [] s v = v
run_from-IsServed (e ∷ es) s v = run_from-IsServed es (step e s) (step-IsServed e s v)

-- Whatever the threads do after `initialize`, in whatever order: while a brick waits and a slot is free, a job
-- of the pool is posted, or a worker assembles, which takes the next brick when it is done.
pub run-IsServed :
    (slot_count : ℕ) (c : GpuBrickCache) (es : List Event)
    → IsServed (run es (start slot_count c)).uploader
unfolding start initialize
run-IsServed slot_count c es = run_from-IsServed es (start slot_count c) (inl refl)
