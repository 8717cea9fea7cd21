-- ===== src/Render/Uploader/Steps.antt =====
-- src/render/GpuUploader.cpp: what each operation keeps of the ring, and where it takes bricks.
use scrollviewer.Base.{
  ℕ, ◌+◌, ◌≡◌, ◌≤◌, refl, ap, sym, ◌∙◌, Bool, true, false, List, [], ◌∷◌, ◌++◌, map, length,
  length-append, ltb, leb, ◌==◌, if◌then◌else◌, ◌||◌, total, total-append, arith, Bool-cases,
  Option-cases, List-cases, inl, inr,
}
use scrollviewer.Data.BrickKey.{BrickKey}
use scrollviewer.Data.RamCache.{Brick}
use scrollviewer.Render.Uploader.{
  RingSlot, FenceBatch, GpuUploader, max_pending, kick_workers, enqueue, find_free, worker_take,
  worker_finish, is_writing, recycle, launch, add_fence, drain_batch,
}
use scrollviewer.Render.Uploader.Ring.{
  staged, flying, occurs, ids, carried, recycle-flying, launch-staged, launch_all-flying,
  find_free-taken, is_writing-finished,
}

-- The measure of the bricks that wait for a slot.
abbrev pub waiting : (BrickKey → ℕ) → List (Brick × Bool) → ℕ
waiting f = total (λ (e : Brick × Bool). f e.0.key)

-- The fences name the slots that are in flight, each once, and no others; the queue keeps its limit.
pub record IsRing (u : GpuUploader) : Type 0 where
  pub fenced : (j : ℕ) → occurs j (ids u.fences) ≡ flying j u.slots
  pub few : length u.pending ≤ max_pending

pub occurs-append : (j : ℕ) (xs ys : List ℕ) → occurs j (xs ++ ys) ≡ occurs j xs + occurs j ys
occurs-append j xs ys = total-append (λ i. if j == i then 1 else 0) xs ys

pub ids-append :
    (fs : List FenceBatch) (b : FenceBatch) (j : ℕ)
    → occurs j (ids (fs ++ b ∷ [])) ≡ occurs j (ids fs) + occurs j b.slot_ids
ids-append [] b j = omega (arith, occurs-append j b.slot_ids [])
ids-append (f ∷ fs) b j = omega (
  arith,
  occurs-append j f.slot_ids (ids (fs ++ b ∷ [])),
  occurs-append j f.slot_ids (ids fs),
  ids-append fs b j,
)

pub enqueue-IsRing :
    (f : BrickKey → ℕ) (b : Brick) (pinned : Bool) (u : GpuUploader)
    → IsRing u
    → IsRing (enqueue b pinned u).0
      × (waiting f (enqueue b pinned u).0.pending + staged f (enqueue b pinned u).0.slots
          ≡ waiting f u.pending
            + staged f u.slots
            + (if (enqueue b pinned u).1 then f b.key else 0))
unfolding enqueue kick_workers
enqueue-IsRing f b pinned u v = elim (Bool-cases (leb max_pending (length u.pending))) [
  | inl e ↦ rw (enqueue, e) (v, omega arith)
  | inr e ↦
      rw (enqueue, e)
        (
          record {
            fenced = v.fenced;
            few = ground (arith, length-append u.pending ((b, pinned) ∷ []));
          },
          omega
              (arith, total-append (λ (e : Brick × Bool). f e.0.key) u.pending ((b, pinned) ∷ [])),
        )
]

pub worker_take-IsRing :
    (f : BrickKey → ℕ) (u : GpuUploader)
    → IsRing u
    → IsRing (worker_take u)
      × (waiting f (worker_take u).pending + staged f (worker_take u).slots
          ≡ waiting f u.pending + staged f u.slots)
unfolding worker_take
worker_take-IsRing f u v = elim (List-cases u.pending) [
  | inl e ↦
      rw (worker_take, e)
        (record { fenced = v.fenced; few = v.few }, ap (λ q. waiting f q + staged f u.slots) e)
  | inr (b, rest, e) ↦ elim (Option-cases (find_free 0 u.slots)) [
    | inl k ↦
        rw (worker_take, e, k)
          (record { fenced = v.fenced; few = v.few }, ap (λ q. waiting f q + staged f u.slots) e)
    | inr (i, k) ↦
        let (more, same) = find_free-taken f i u.slots b.0 b.1 k in
        rw (worker_take, e, k)
          (
            record {
              fenced = λ j. v.fenced j ∙ sym (same j);
              few = ground (arith, v.few, ap length e);
            },
            omega (arith, more),
          )
  ]
]

pub worker_finish-IsRing :
    (f : BrickKey → ℕ) (i : ℕ) (u : GpuUploader)
    → is_writing i u.slots ≡ true
    → IsRing u
    → IsRing (worker_finish i u) × (staged f (worker_finish i u).slots ≡ staged f u.slots)
unfolding worker_finish
worker_finish-IsRing f i u h v =
    let (same, still) = is_writing-finished f i u.slots h in
    (record { fenced = λ j. v.fenced j ∙ sym (still j); few = v.few }, same)

pub add_fence-IsRing :
    (batch : List (ℕ × RingSlot)) (u : GpuUploader)
    → ((j : ℕ)
        → flying j u.slots
          ≡ occurs j (ids u.fences) + occurs j (map (λ (e : ℕ × RingSlot). e.0) batch))
    → length u.pending ≤ max_pending
    → IsRing (add_fence batch u)
unfolding add_fence
add_fence-IsRing [] u h few = record { fenced = λ j. omega (arith, h j); few = few }
add_fence-IsRing ((i, s) ∷ batch) u h few = record {
  fenced = λ j. omega (
    arith,
    h j,
    ids-append u.fences
        (record { sync = u.next_sync; slot_ids = i ∷ map (λ (e : ℕ × RingSlot). e.0) batch }) j,
  );
  few = few;
}

pub add_fence_same :
    (batch : List (ℕ × RingSlot)) (u : GpuUploader)
    → ((add_fence batch u).pending ≡ u.pending) × ((add_fence batch u).slots ≡ u.slots)
unfolding add_fence
add_fence_same [] u = (refl, refl)
add_fence_same ((i, s) ∷ batch) u = (refl, refl)

pub drain_batch-IsRing :
    (f : BrickKey → ℕ) (budget : ℕ) (signalled : ℕ → Bool) (u : GpuUploader)
    → IsRing u
    → IsRing (drain_batch budget signalled u).1
      × ((drain_batch budget signalled u).1.pending ≡ u.pending)
      × (staged f (drain_batch budget signalled u).1.slots
            + carried f (drain_batch budget signalled u).0
          ≡ staged f u.slots)
unfolding drain_batch kick_workers
drain_batch-IsRing f budget signalled u v =
    let out : List RingSlot × List FenceBatch × Bool = recycle signalled u.fences u.slots false in
    let sent : List (ℕ × RingSlot) × List RingSlot = launch budget 0 out.0 in
    let w : GpuUploader = record u { slots = sent.1; fences = out.1 } in
    let (same, left) = recycle-flying f signalled u.fences u.slots false v.fenced in
    let ring : IsRing (add_fence sent.0 w) =
      add_fence-IsRing sent.0 w (λ j. omega (arith, left j, launch_all-flying budget j out.0))
        v.few in
    let (queue, slots) = add_fence_same sent.0 w in
    let moved = launch-staged f budget 0 out.0 in
    let bricks : staged f (add_fence sent.0 w).slots + carried f sent.0 ≡ staged f u.slots =
      omega (arith, ap (staged f) slots, moved, same) in
    elim (Bool-cases (out.2 || ltb 0 (length sent.0))) [
      | inl e ↦ rw (drain_batch, e) (record { fenced = ring.fenced; few = ring.few }, queue, bricks)
      | inr e ↦ rw (drain_batch, e) (ring, queue, bricks)
    ]
