-- ===== src/Render/Uploader/Balance.antt =====
-- src/render/GpuUploader.cpp: where a brick is, from its enqueueing to its upload.
use scrollviewer.Base.{
  ℕ, zero, suc, ◌+◌, ◌≡◌, refl, ap, sym, List, [], ◌∷◌, map, ltb, if◌then◌else◌, replicate, total,
  total-append, arith, Bool-cases, inl, inr,
}
use scrollviewer.Data.BrickKey.{BrickKey}
use scrollviewer.Render.GpuBrickCache.{GpuBrickCache}
use scrollviewer.Render.Uploader.{
  RingSlot, free_slot, initialize, enqueue, worker_finish, is_writing, drain_batch, drain_to_gpu,
  System, Event, enqueues, takes, finishes, drains, step, run, start,
}
use scrollviewer.Render.Uploader.Ring.{staged, flying, carried}
use scrollviewer.Render.Uploader.Steps.{
  waiting, enqueue-IsRing, worker_take-IsRing, worker_finish-IsRing, drain_batch-IsRing, IsRing,
}

abbrev pub everywhere : (BrickKey → ℕ) → System → ℕ
everywhere f s = waiting f s.uploader.pending + staged f s.uploader.slots + total f s.sent

abbrev by_event : (BrickKey → ℕ) → Event → System → ℕ
by_event f (enqueues b pinned) s = if (enqueue b pinned s.uploader).1 then f b.key else 0
by_event f _ s = 0

-- The measure of the bricks for which `enqueue` says true.
unfoldable pub accepted : (BrickKey → ℕ) → List Event → System → ℕ
accepted f [] s = 0
accepted f (e ∷ es) s = by_event f e s + accepted f es (step e s)

carried-keys :
    (f : BrickKey → ℕ) (batch : List (ℕ × RingSlot))
    → total f (map (λ (e : ℕ × RingSlot). e.1.key) batch) ≡ carried f batch
carried-keys f [] = refl
carried-keys f ((i, s) ∷ batch) = omega (arith, carried-keys f batch)

finish_same :
    (f : BrickKey → ℕ) (i : ℕ) (s : System)
    → staged f (worker_finish i s.uploader).slots ≡ staged f s.uploader.slots
    → everywhere f (record s { uploader = worker_finish i s.uploader }) ≡ everywhere f s + 0
unfolding worker_finish
finish_same f i s same = omega (arith, same)

flying_new : (j n : ℕ) → flying j (replicate n free_slot) ≡ 0
flying_new j zero = refl
flying_new zero (suc n) = refl
flying_new (suc j) (suc n) = flying_new j n

staged_new : (f : BrickKey → ℕ) (n : ℕ) → staged f (replicate n free_slot) ≡ 0
staged_new f zero = refl
staged_new f (suc n) = omega (arith, staged_new f n)

step-IsRing :
    (f : BrickKey → ℕ) (e : Event) (s : System)
    → IsRing s.uploader
    → IsRing (step e s).uploader × (everywhere f (step e s) ≡ everywhere f s + by_event f e s)
unfolding step drain_to_gpu
step-IsRing f (enqueues b pinned) s v =
    let (ring, same) = enqueue-IsRing f b pinned s.uploader v in (ring, omega (arith, same))
step-IsRing f takes s v = elim (Bool-cases (ltb 0 s.uploader.jobs)) [
  | inr e ↦ rw (step, e) (v, omega arith)
  | inl e ↦
      let (ring, same) = worker_take-IsRing f s.uploader v in
      rw (step, e) (ring, omega (arith, same))
]
step-IsRing f (finishes i) s v = elim (Bool-cases (is_writing i s.uploader.slots)) [
  | inr e ↦ rw (step, e) (v, omega arith)
  | inl e ↦
      let (ring, same) = worker_finish-IsRing f i s.uploader e v in
      rw (step, e) (ring, finish_same f i s same)
]
step-IsRing f (drains budget signalled) s v =
    let (ring, queue, bricks) = drain_batch-IsRing f budget signalled s.uploader v in
    let batch : List (ℕ × RingSlot) = (drain_batch budget signalled s.uploader).0 in
    (
      ring,
      omega (
        arith,
        ap (waiting f) queue,
        bricks,
        carried-keys f batch,
        total-append f s.sent (map (λ (e : ℕ × RingSlot). e.1.key) batch),
      ),
    )

run_from-IsRing :
    (f : BrickKey → ℕ) (es : List Event) (s : System)
    → IsRing s.uploader
    → IsRing (run es s).uploader × (everywhere f (run es s) ≡ everywhere f s + accepted f es s)
unfolding run accepted
run_from-IsRing f [] s v = (v, omega arith)
run_from-IsRing f (e ∷ es) s v =
    let (ring, more) = step-IsRing f e s v in
    let (ring', more') = run_from-IsRing f es (step e s) ring in (ring', omega (arith, more, more'))

-- Whatever the threads do after `initialize`, in whatever order: each fence names slots that are in flight,
-- each such slot is named once, and no others are; at most 4096 bricks wait; and, however bricks are counted,
-- those for which `enqueue` said true are those that wait, those that are in a slot and not yet uploaded, and
-- those that were uploaded.
pub run-IsRing :
    (f : BrickKey → ℕ) (slot_count : ℕ) (c : GpuBrickCache) (es : List Event)
    → IsRing (run es (start slot_count c)).uploader
      × (everywhere f (run es (start slot_count c)) ≡ accepted f es (start slot_count c))
unfolding start initialize
run-IsRing f slot_count c es =
    let first : IsRing (initialize slot_count) = record {
      fenced = λ j. sym (flying_new j slot_count);
      few = omega arith;
    } in
    let (ring, all) = run_from-IsRing f es (start slot_count c) first in
    (ring, omega (arith, all, staged_new f slot_count))
