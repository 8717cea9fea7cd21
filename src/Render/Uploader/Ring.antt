-- ===== src/Render/Uploader/Ring.antt =====
-- src/render/GpuUploader.cpp: what the operations on the slots change.
use scrollviewer.Base.{
  ℕ, zero, suc, ◌+◌, ◌-◌, ◌≡◌, ◌≤◌, ◌<◌, refl, ap, sym, ◌∙◌, Bool, true, false, some, List, [], ◌∷◌,
  ◌++◌, map, ◌==◌, if◌then◌else◌, set, total, arith, Bool-cases, inl, inr,
}
use scrollviewer.Data.BrickKey.{BrickKey}
use scrollviewer.Data.RamCache.{Brick}
use scrollviewer.Render.Uploader.{
  SlotState, RingSlot, FenceBatch, find_free, set_state, free_all, recycle, launch, writing_slot,
  is_writing,
}

-- The measure of the slots that hold a brick which has not been uploaded.
abbrev pub staged_slot : (BrickKey → ℕ) → RingSlot → ℕ
staged_slot f s = elim s.state [
  | SlotState.writing ↦ f s.key
  | SlotState.ready ↦ f s.key
  | SlotState.free ↦ 0
  | SlotState.in_flight ↦ 0
]

abbrev pub staged : (BrickKey → ℕ) → List RingSlot → ℕ
staged f = total (staged_slot f)

abbrev is_flying : RingSlot → ℕ
is_flying s = elim s.state [
  | SlotState.writing ↦ 0
  | SlotState.ready ↦ 0
  | SlotState.free ↦ 0
  | SlotState.in_flight ↦ 1
]

-- Whether the slot at an index is in flight, 1 or 0.
abbrev pub flying : ℕ → List RingSlot → ℕ
flying i [] = 0
flying zero (s ∷ ss) = is_flying s
flying (suc i) (s ∷ ss) = flying i ss

-- How often an index occurs.
abbrev pub occurs : ℕ → List ℕ → ℕ
occurs i = total (λ j. if i == j then 1 else 0)

abbrev pub ids : List FenceBatch → List ℕ
ids [] = []
ids (f ∷ fs) = f.slot_ids ++ ids fs

pub flying-freed :
    (i j : ℕ) (ss : List RingSlot)
    → flying j (set_state SlotState.free i ss) ≡ (if i == j then 0 else flying j ss)
unfolding set_state
flying-freed i j [] = ground arith
flying-freed zero zero (s ∷ ss) = refl
flying-freed zero (suc j) (s ∷ ss) = ground arith
flying-freed (suc i) zero (s ∷ ss) = ground arith
flying-freed (suc i) (suc j) (s ∷ ss) = ground (arith, flying-freed i j ss)

pub staged-freed :
    (f : BrickKey → ℕ) (i : ℕ) (ss : List RingSlot)
    → flying i ss ≡ 1
    → staged f (set_state SlotState.free i ss) ≡ staged f ss
unfolding set_state
staged-freed f i [] h = refl
staged-freed f zero (s ∷ ss) h = ground arith
staged-freed f (suc i) (s ∷ ss) h = ground (arith, staged-freed f i ss h)

flying_bound : (i : ℕ) (ss : List RingSlot) → flying i ss ≤ 1
flying_bound i [] = omega arith
flying_bound zero (s ∷ ss) = ground arith
flying_bound (suc i) (s ∷ ss) = flying_bound i ss

-- The slots of a fence are in flight, each named once; freeing them changes nothing else.
pub free_all-flying :
    (f : BrickKey → ℕ) (is rest : List ℕ) (ss : List RingSlot)
    → ((j : ℕ) → occurs j (is ++ rest) ≡ flying j ss)
    → (staged f (free_all is ss) ≡ staged f ss)
      × ((j : ℕ) → occurs j rest ≡ flying j (free_all is ss))
unfolding free_all
free_all-flying f [] rest ss h = (refl, h)
free_all-flying f (i ∷ is) rest ss h =
    let one : (flying i ss ≡ 1) × (occurs i (is ++ rest) ≡ 0) =
      ground (arith, h i, flying_bound i ss) in
    let next : (j : ℕ) → occurs j (is ++ rest) ≡ flying j (set_state SlotState.free i ss) =
      λ j. ground (arith, h j, flying-freed i j ss, one) in
    let (same, left) = free_all-flying f is rest (set_state SlotState.free i ss) next in
    (same ∙ staged-freed f i ss one.0, left)

abbrev fired : List (ℕ × RingSlot) → List ℕ
fired = map (λ (e : ℕ × RingSlot). e.0)

abbrev pub carried : (BrickKey → ℕ) → List (ℕ × RingSlot) → ℕ
carried f = total (λ (e : ℕ × RingSlot). f e.1.key)

launch_later :
    (budget i j : ℕ) (ss : List RingSlot) → j < i → occurs j (fired (launch budget i ss).0) ≡ 0
unfolding launch
launch_later zero i j ss h = refl
launch_later (suc budget) i j [] h = refl
launch_later (suc budget) i j (s ∷ ss) h =
    let fewer = launch_later budget (suc i) j ss (omega arith) in
    let others = launch_later (suc budget) (suc i) j ss (omega arith) in
    ground (arith, fewer, others)

pub launch-staged :
    (f : BrickKey → ℕ) (budget i : ℕ) (ss : List RingSlot)
    → staged f ss ≡ staged f (launch budget i ss).1 + carried f (launch budget i ss).0
unfolding launch
launch-staged f zero i ss = omega arith
launch-staged f (suc budget) i [] = omega arith
launch-staged f (suc budget) i (s ∷ ss) =
    ground (arith, launch-staged f budget (suc i) ss, launch-staged f (suc budget) (suc i) ss)

launch-flying :
    (budget i j : ℕ) (ss : List RingSlot)
    → flying j (launch budget i ss).1 ≡ flying j ss + occurs (i + j) (fired (launch budget i ss).0)
unfolding launch
launch-flying zero i j ss = omega arith
launch-flying (suc budget) i j [] = ground arith
launch-flying (suc budget) i zero (s ∷ ss) = ground (
  arith,
  launch_later budget (suc i) (i + 0) ss (omega arith),
  launch_later (suc budget) (suc i) (i + 0) ss (omega arith),
)
launch-flying (suc budget) i (suc j) (s ∷ ss) =
    let shift : i + suc j ≡ suc i + j = omega arith in
    rw shift
      (ground (arith, launch-flying budget (suc i) j ss, launch-flying (suc budget) (suc i) j ss))

-- The slots of the fences, and nothing else, are in flight; the freed ones leave both.
pub recycle-flying :
    (f : BrickKey → ℕ) (signalled : ℕ → Bool) (fs : List FenceBatch) (ss : List RingSlot)
    (freed : Bool)
    → ((j : ℕ) → occurs j (ids fs) ≡ flying j ss)
    → (staged f (recycle signalled fs ss freed).0 ≡ staged f ss)
      × ((j : ℕ)
          → occurs j (ids (recycle signalled fs ss freed).1)
            ≡ flying j (recycle signalled fs ss freed).0)
unfolding recycle
recycle-flying f signalled [] ss freed h = (refl, h)
recycle-flying f signalled (b ∷ fs) ss freed h = elim (Bool-cases (signalled b.sync)) [
  | inr e ↦ rw (e) (refl, h)
  | inl e ↦
      let (same, left) = free_all-flying f b.slot_ids (ids fs) ss h in
      let (same', left') = recycle-flying f signalled fs (free_all b.slot_ids ss) true left in
      rw (e) (same' ∙ same, left')
]

abbrev is_free : RingSlot → Bool
is_free s = elim s.state [ SlotState.free ↦ true | _ ↦ false ]

taken_first :
    (j : ℕ) (s : RingSlot) (ss : List RingSlot) (b : Brick) (pinned : Bool)
    → is_free s ≡ true
    → flying j (writing_slot b pinned ∷ ss) ≡ flying j (s ∷ ss)
taken_first zero s ss b pinned e = ground arith
taken_first (suc j) s ss b pinned e = refl

taken_later :
    (i j : ℕ) (s : RingSlot) (ss : List RingSlot) (b : Brick) (pinned : Bool)
    → ((k : ℕ) → flying k (set ss i (writing_slot b pinned)) ≡ flying k ss)
    → flying j (s ∷ set ss i (writing_slot b pinned)) ≡ flying j (s ∷ ss)
taken_later i zero s ss b pinned same = refl
taken_later i (suc j) s ss b pinned same = same j

-- The slot that a worker takes was free, and holds its brick from now on.
find_free-set :
    (f : BrickKey → ℕ) (o i : ℕ) (ss : List RingSlot) (b : Brick) (pinned : Bool)
    → find_free o ss ≡ some i
    → (o ≤ i)
      × (staged f (set ss (i - o) (writing_slot b pinned)) ≡ staged f ss + f b.key)
      × ((j : ℕ) → flying j (set ss (i - o) (writing_slot b pinned)) ≡ flying j ss)
unfolding find_free
find_free-set f o i [] b pinned h = absurd (cc)
find_free-set f o i (s ∷ ss) b pinned h = elim (Bool-cases (is_free s)) [
  | inl e ↦
      let here : i - o ≡ 0 = ground arith in
      rw here (ground arith, ground arith, λ j. taken_first j s ss b pinned e)
  | inr e ↦
      let (later, more, same) = find_free-set f (suc o) i ss b pinned (ground arith) in
      let next : i - o ≡ suc (i - suc o) = omega arith in
      rw next (omega arith, omega arith, λ j. taken_later (i - suc o) j s ss b pinned same)
]

pub find_free-taken :
    (f : BrickKey → ℕ) (i : ℕ) (ss : List RingSlot) (b : Brick) (pinned : Bool)
    → find_free 0 ss ≡ some i
    → (staged f (set ss i (writing_slot b pinned)) ≡ staged f ss + f b.key)
      × ((j : ℕ) → flying j (set ss i (writing_slot b pinned)) ≡ flying j ss)
find_free-taken f i ss b pinned h =
    let (low, more, same) = find_free-set f 0 i ss b pinned h in
    let whole : i - 0 ≡ i = omega arith in
    (
      ap (λ k. staged f (set ss k (writing_slot b pinned))) (sym whole) ∙ more,
      λ j. ap (λ k. flying j (set ss k (writing_slot b pinned))) (sym whole) ∙ same j,
    )

finished_first :
    (j : ℕ) (s : RingSlot) (ss : List RingSlot)
    → is_writing 0 (s ∷ ss) ≡ true
    → flying j (record s { state = SlotState.ready } ∷ ss) ≡ flying j (s ∷ ss)
unfolding is_writing
finished_first zero s ss e = ground arith
finished_first (suc j) s ss e = refl

finished_later :
    (i j : ℕ) (s : RingSlot) (ss : List RingSlot)
    → ((k : ℕ) → flying k (set_state SlotState.ready i ss) ≡ flying k ss)
    → flying j (s ∷ set_state SlotState.ready i ss) ≡ flying j (s ∷ ss)
finished_later i zero s ss same = refl
finished_later i (suc j) s ss same = same j

pub is_writing-finished :
    (f : BrickKey → ℕ) (i : ℕ) (ss : List RingSlot)
    → is_writing i ss ≡ true
    → (staged f (set_state SlotState.ready i ss) ≡ staged f ss)
      × ((j : ℕ) → flying j (set_state SlotState.ready i ss) ≡ flying j ss)
unfolding is_writing set_state
is_writing-finished f i [] h = (refl, λ j. refl)
is_writing-finished f zero (s ∷ ss) h = (ground arith, λ j. finished_first j s ss h)
is_writing-finished f (suc i) (s ∷ ss) h =
    let (same, still) = is_writing-finished f i ss h in
    (ground (arith, same), λ j. finished_later i j s ss still)

pub launch_all-flying :
    (budget j : ℕ) (ss : List RingSlot)
    → flying j (launch budget 0 ss).1
      ≡ flying j ss + occurs j (map (λ (e : ℕ × RingSlot). e.0) (launch budget 0 ss).0)
launch_all-flying budget j ss =
    let whole : 0 + j ≡ j = omega arith in
    launch-flying budget 0 j ss
    ∙ ap (λ k. flying j ss + occurs k (fired (launch budget 0 ss).0)) whole
