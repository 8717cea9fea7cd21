-- ===== src/Render/GpuBrickCache/Run.antt =====
-- src/render/GpuBrickCache.cpp: the pool after any calls.
use scrollviewer.Base.{
  ℕ, zero, suc, ◌+◌, ◌<◌, ◌≤◌, ◌≡◌, refl, inl, inr, Bool, true, none, some, List, [], ◌∷◌, arith,
  get_elem?, replicate, length-replicate, Option-cases,
}
use scrollviewer.Base.Assoc
use scrollviewer.Data.BrickKey.{BrickKey, key_dec}
use scrollviewer.Data.Pipeline.{contains}
use scrollviewer.Render.GpuBrickCache.{
  GpuBrickCache, Pages, Dims, blank, slots_from, init_pool, frame_begin, touch, mark_empty, upload,
}
use scrollviewer.Render.GpuBrickCache.Slots.{Agree, NoRepeat, holder, touch_slot-Agree}
use scrollviewer.Render.GpuBrickCache.Upload.{
  place-Agree, pinned_key, place-pinned_key, touch_slot-pinned_key,
}

-- What the renderer may call in a frame.
pub data Op : Type 0 where
  frame_begins : ℕ → Op
  touches marks_empty : BrickKey → Op
  uploads : BrickKey → Bool → ℕ → ℕ → Op

unfoldable pub step : GpuBrickCache → Op → GpuBrickCache
step c (frame_begins n) = frame_begin n c
step c (touches k) = touch k c
step c (marks_empty k) = record c { pages = mark_empty k c.pages }
step c (uploads k pinned lo hi) = upload k pinned lo hi c

unfoldable pub run : GpuBrickCache → List Op → GpuBrickCache
run c [] = c
run c (op ∷ ops) = run (step c op) ops

unfoldable pub start : Pages → Dims → ℕ → GpuBrickCache
start pages dims total = record {
  pages = pages;
  pool = init_pool total;
  slot_dims = dims;
  ready = true;
  frame = 0;
}

slots_from-below : (j i n : ℕ) → contains j (slots_from i n) ≡ true → (i ≤ j) × (j < i + n)
unfolding slots_from contains
slots_from-below j i zero h = absurd (cc)
slots_from-below j i (suc n) h = ground (arith, slots_from-below j (suc i) n)

slots_from-NoRepeat : (i n : ℕ) → NoRepeat (slots_from i n)
unfolding slots_from
slots_from-NoRepeat i zero = tt
slots_from-NoRepeat i (suc n) =
    (ground (arith, slots_from-below i (suc i) n), slots_from-NoRepeat (suc i) n)

blank_slots : (n i : ℕ) → holder (get_elem? (replicate n blank) i) ≡ none
blank_slots zero i = refl
blank_slots (suc n) zero = refl
blank_slots (suc n) (suc i) = blank_slots n i

init_pool-Agree : (total : ℕ) → Agree (init_pool total)
unfolding init_pool Assoc.lookup
init_pool-Agree total = record {
  distinct = tt;
  mapped = λ k i h. absurd (cc);
  held = λ k i h. ground (arith, blank_slots total i);
  free = λ i h.
      ground (arith, blank_slots total i, slots_from-below i 0 total, length-replicate total blank);
  once = slots_from-NoRepeat 0 total;
}

upload-Agree :
    (k : BrickKey) (pinned : Bool) (lo hi : ℕ) (c : GpuBrickCache)
    → Agree c.pool
    → Agree (upload k pinned lo hi c).pool
unfolding upload
upload-Agree k pinned lo hi c v = ground (arith, v, place-Agree k pinned c.frame c.pool v)

touch-Agree : (k : BrickKey) (c : GpuBrickCache) → Agree c.pool → Agree (touch k c).pool
unfolding touch
touch-Agree k c v = elim (Option-cases (Assoc.lookup key_dec k c.pool.slot_of)) [
  | inl e ↦ rw (e, touch) v
  | inr (i, e) ↦ rw (e, touch) (touch_slot-Agree c.frame i c.pool v)
]

step-Agree : (c : GpuBrickCache) (op : Op) → Agree c.pool → Agree (step c op).pool
unfolding step frame_begin
step-Agree c (frame_begins n) v = v
step-Agree c (touches k) v = touch-Agree k c v
step-Agree c (marks_empty k) v = v
step-Agree c (uploads k pinned lo hi) v = upload-Agree k pinned lo hi c v

run_from-Agree : (c : GpuBrickCache) (ops : List Op) → Agree c.pool → Agree (run c ops).pool
unfolding run
run_from-Agree c [] v = v
run_from-Agree c (op ∷ ops) v = run_from-Agree (step c op) ops (step-Agree c op v)

-- After any calls on a new cache, the map has no key twice and leads from each brick to the slot that
-- holds it and from no other to any, and the free list names slots without a brick, each once.
pub run-Agree :
    (pages : Pages) (dims : Dims) (total : ℕ) (ops : List Op)
    → Agree (run (start pages dims total) ops).pool
unfolding start
run-Agree pages dims total ops = run_from-Agree (start pages dims total) ops (init_pool-Agree total)

step-pinned_key :
    (c : GpuBrickCache) (op : Op) (j : ℕ) (m : BrickKey)
    → Agree c.pool
    → pinned_key (get_elem? c.pool.slots j) ≡ some m
    → pinned_key (get_elem? (step c op).pool.slots j) ≡ some m
unfolding step frame_begin upload touch
step-pinned_key c (frame_begins n) j m v h = h
step-pinned_key c (touches k) j m v h =
    elim (Option-cases (Assoc.lookup key_dec k c.pool.slot_of)) [
      | inl e ↦ rw (e, step, touch) h
      | inr (i, e) ↦ rw (e, step, touch) (touch_slot-pinned_key c.frame i j m c.pool h)
    ]
step-pinned_key c (marks_empty k) j m v h = h
step-pinned_key c (uploads k pinned lo hi) j m v h =
    ground (arith, h, place-pinned_key k m pinned c.frame j c.pool v h)

-- From a cache whose slots and map agree, a pinned brick stays in its slot, whatever is called.
pub run-pinned_key :
    (c : GpuBrickCache) (ops : List Op) (j : ℕ) (m : BrickKey)
    → Agree c.pool
    → pinned_key (get_elem? c.pool.slots j) ≡ some m
    → pinned_key (get_elem? (run c ops).pool.slots j) ≡ some m
unfolding run
run-pinned_key c [] j m v h = h
run-pinned_key c (op ∷ ops) j m v h =
    run-pinned_key (step c op) ops j m (step-Agree c op v) (step-pinned_key c op j m v h)
