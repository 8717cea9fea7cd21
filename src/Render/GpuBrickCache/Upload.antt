-- ===== src/Render/GpuBrickCache/Upload.antt =====
-- src/render/GpuBrickCache.cpp, `acquireSlot` and `uploadFromBoundPbo`: which slot an upload gets.
use scrollviewer.Base.{
  ℕ, ◌-◌, ◌^◌, ◌≡◌, refl, sym, ◌⊎◌, inl, inr, Bool, true, false, ◌&&◌, Option, none, some, List, [],
  ◌∷◌, arith, get_elem?, All, Option-cases, if◌then◌else◌, subst,
}
use scrollviewer.Base.Assoc
use scrollviewer.Data.BrickKey.{BrickKey, key_dec}
use scrollviewer.Render.GpuBrickCache.{
  Slot, Pool, touch_slot, find_victim, evict_slot, acquire_slot, fill_slot, place,
}
use scrollviewer.Render.GpuBrickCache.Victim.{IsEvictable, NotBefore, Chosen, find_victim-Chosen}
use scrollviewer.Render.GpuBrickCache.Slots.{
  Agree, Vacant, pop-Vacant, evict_slot-Vacant, fill_slot-Agree, touch_slot-Agree, get_elem?-set,
  get_elem?-bound,
}

List-cases : {A : Type 0} (xs : List A) → (xs ≡ []) ⊎ ((x : A) × (ys : List A) × (xs ≡ x ∷ ys))
List-cases [] = inl refl
List-cases (x ∷ xs) = inr (x, xs, refl)

-- What `acquireSlot` may answer.
abbrev pub Acquired : Pool → Option (ℕ × Pool × Option BrickKey) → Type 0
Acquired p none = (p.free_slots ≡ []) × All (NotBefore (2 ^ 64 - 1)) p.slots
Acquired p (some (i, p', none)) =
    (p.free_slots ≡ i ∷ p'.free_slots) × (p' ≡ record p { free_slots = p'.free_slots })
Acquired p (some (i, p', some k)) =
    (p.free_slots ≡ [])
    × ((s : Slot) × (get_elem? p.slots i ≡ some s)
        × (s.key ≡ k)
        × IsEvictable s
        × All (NotBefore s.last_touched) p.slots
        × (p' ≡ evict_slot i s p))

acquire_slot-victim :
    (p : Pool) (v : ℕ) (s : Slot)
    → p.free_slots ≡ []
    → find_victim p.slots 0 (none, 2 ^ 64 - 1) ≡ some v
    → get_elem? p.slots v ≡ some s
    → acquire_slot p ≡ some (v, evict_slot v s p, some s.key)
unfolding acquire_slot
acquire_slot-victim p v s e f here = ground arith

-- `acquireSlot` takes a free slot if there is one; otherwise the slot of the unpinned brick that was
-- touched least recently, which loses its brick; and none only if there is no free slot and every brick
-- is pinned or was touched in the last frame of all, 2^64 - 1.
pub acquire_slot-Acquired : (p : Pool) → Acquired p (acquire_slot p)
unfolding acquire_slot
acquire_slot-Acquired p = elim (List-cases p.free_slots) [
  | inr (i, is, e) ↦ rw (e, acquire_slot) (refl, refl)
  | inl e ↦
      let c =
        find_victim-Chosen (get_elem? p.slots) p.slots 0 (none, 2 ^ 64 - 1)
          (λ n s h. ground (arith, h)) in
      elim (Option-cases (find_victim p.slots 0 (none, 2 ^ 64 - 1))) [
        | inl f ↦
            rw (e, f, acquire_slot)
              (refl, (subst (Chosen (get_elem? p.slots) (none, 2 ^ 64 - 1) p.slots) f c).1)
        | inr (v, f) ↦ elim (subst (Chosen (get_elem? p.slots) (none, 2 ^ 64 - 1) p.slots) f c) [
          | inl (bad, _) ↦ absurd (cc)
          | inr (s, here, free, _, oldest) ↦
              subst (Acquired p) (sym (acquire_slot-victim p v s e f here))
                (e, (s, here, refl, free, oldest, refl))
        ]
      ]
]

-- A slot that is acquired may be filled, and no brick has come in meanwhile.
Acquired-Vacant :
    (p : Pool) (k : BrickKey) (i : ℕ) (p' : Pool) (victim : Option BrickKey)
    → Agree p
    → Assoc.lookup key_dec k p.slot_of ≡ none
    → Acquired p (some (i, p', victim))
    → Vacant i p' × (Assoc.lookup key_dec k p'.slot_of ≡ none)
unfolding evict_slot
Acquired-Vacant p k i p' none v fresh (e, same) = rw same (pop-Vacant i p'.free_slots p v e, fresh)
Acquired-Vacant p k i p' (some j) v fresh (e, (s, here, _, free, _, same)) = rw same (
  evict_slot-Vacant i s p v e here free.0,
  ground (arith, Assoc.lookup-erase key_dec s.key k p.slot_of v.distinct),
)

place_fresh :
    (k : BrickKey) (pinned : Bool) (frame : ℕ) (p : Pool) (r : Option (ℕ × Pool × Option BrickKey))
    → Agree p
    → Assoc.lookup key_dec k p.slot_of ≡ none
    → Acquired p r
    → Agree (elim r [ none ↦ p | some (i, p', _) ↦ fill_slot i k pinned frame p' ])
place_fresh k pinned frame p none v fresh a = v
place_fresh k pinned frame p (some (i, p', victim)) v fresh a =
    let (w, absent) = Acquired-Vacant p k i p' victim v fresh a in
    fill_slot-Agree i k pinned frame p' w.sound w.below w.nobody w.unlisted absent

pub place-Agree :
    (k : BrickKey) (pinned : Bool) (frame : ℕ) (p : Pool) → Agree p → Agree (place k pinned frame p)
unfolding place
place-Agree k pinned frame p v = elim (Option-cases (Assoc.lookup key_dec k p.slot_of)) [
  | inr (i, e) ↦ rw (e, place) (touch_slot-Agree frame i p v)
  | inl e ↦
      rw (e, place) (place_fresh k pinned frame p (acquire_slot p) v e (acquire_slot-Acquired p))
]

-- The brick that a slot holds with a pin.
abbrev pub pinned_key : Option Slot → Option BrickKey
pinned_key none = none
pinned_key (some s) = if s.occupied && s.pinned then some s.key else none

fill_slot-pinned_key :
    (i j : ℕ) (k m : BrickKey) (pinned : Bool) (frame : ℕ) (p : Pool)
    → Vacant i p
    → pinned_key (get_elem? p.slots j) ≡ some m
    → pinned_key (get_elem? (fill_slot i k pinned frame p).slots j) ≡ some m
unfolding fill_slot
fill_slot-pinned_key i j k m pinned frame p w h =
    let s' : Slot = record { key = k; occupied = true; pinned = pinned; last_touched = frame } in
    ground (arith, h, w.nobody, get_elem?-set p.slots i j s' w.below)

Acquired-pinned_key :
    (p : Pool) (i j : ℕ) (m : BrickKey) (p' : Pool) (victim : Option BrickKey)
    → Acquired p (some (i, p', victim))
    → pinned_key (get_elem? p.slots j) ≡ some m
    → pinned_key (get_elem? p'.slots j) ≡ some m
unfolding evict_slot
Acquired-pinned_key p i j m p' none (e, same) h = rw same h
Acquired-pinned_key p i j m p' (some n) (e, (s, here, _, free, _, same)) h =
    let b = get_elem?-bound p.slots i s here in
    rw same
      (ground (arith, h, here, free, get_elem?-set p.slots i j (record s { occupied = false }) b))

pub touch_slot-pinned_key :
    (frame i j : ℕ) (m : BrickKey) (p : Pool)
    → pinned_key (get_elem? p.slots j) ≡ some m
    → pinned_key (get_elem? (touch_slot frame i p).slots j) ≡ some m
unfolding touch_slot
touch_slot-pinned_key frame i j m p h = elim (Option-cases (get_elem? p.slots i)) [
  | inl e ↦ rw (e, touch_slot) h
  | inr (s, e) ↦
      let b = get_elem?-bound p.slots i s e in
      rw (e, touch_slot)
        (ground (arith, h, e, get_elem?-set p.slots i j (record s { last_touched = frame }) b))
]

place_fresh-pinned_key :
    (k m : BrickKey) (pinned : Bool) (frame j : ℕ) (p : Pool)
    (r : Option (ℕ × Pool × Option BrickKey))
    → Agree p
    → Assoc.lookup key_dec k p.slot_of ≡ none
    → Acquired p r
    → pinned_key (get_elem? p.slots j) ≡ some m
    → pinned_key (
        get_elem?
          (elim r as (λ _. Pool) [
            | none ↦ p
            | some (i, p', _) ↦ fill_slot i k pinned frame p'
          ]).slots
          j)
      ≡ some m
place_fresh-pinned_key k m pinned frame j p none v fresh a h = h
place_fresh-pinned_key k m pinned frame j p (some (i, p', victim)) v fresh a h =
    let (w, absent) = Acquired-Vacant p k i p' victim v fresh a in
    fill_slot-pinned_key i j k m pinned frame p' w (Acquired-pinned_key p i j m p' victim a h)

-- An upload leaves a pinned brick in its slot.
pub place-pinned_key :
    (k m : BrickKey) (pinned : Bool) (frame j : ℕ) (p : Pool)
    → Agree p
    → pinned_key (get_elem? p.slots j) ≡ some m
    → pinned_key (get_elem? (place k pinned frame p).slots j) ≡ some m
unfolding place
place-pinned_key k m pinned frame j p v h = elim (Option-cases (Assoc.lookup key_dec k p.slot_of)) [
  | inr (i, e) ↦ rw (e, place) (touch_slot-pinned_key frame i j m p h)
  | inl e ↦
      rw (e, place)
        (place_fresh-pinned_key k m pinned frame j p (acquire_slot p) v e (acquire_slot-Acquired p)
          h)
]
