-- ===== src/Render/GpuBrickCache/Slots.antt =====
-- src/render/GpuBrickCache.cpp: `slots_`, `freeSlots_` and `slotOf_` agree.
use scrollviewer.Base.{
  ℕ, zero, suc, ◌<◌, ◌≡◌, ◌≢◌, refl, ap, ◌⊎◌, inl, inr, Bool, true, false, Option, none, some, List,
  [], ◌∷◌, arith, get_elem?, set, length, Option-cases, length-set, if◌then◌else◌, subst,
}
use scrollviewer.Base.Assoc
use scrollviewer.Data.BrickKey.{BrickKey, key_dec}
use scrollviewer.Data.Pipeline.{contains}
use scrollviewer.Render.GpuBrickCache.{Slot, Pool, touch_slot, evict_slot, fill_slot}

-- The brick in a slot.
abbrev pub holder : Option Slot → Option BrickKey
holder none = none
holder (some s) = if s.occupied then some s.key else none

-- No slot is listed twice.
abbrev pub NoRepeat : List ℕ → Type 0
NoRepeat [] = Unit {0}
NoRepeat (i ∷ is) = (contains i is ≡ false) × NoRepeat is

pub record Agree (p : Pool) : Type 0 where
  pub distinct : Assoc.Distinct key_dec p.slot_of
  pub mapped :
      (k : BrickKey) (i : ℕ)
      → Assoc.lookup key_dec k p.slot_of ≡ some i
      → holder (get_elem? p.slots i) ≡ some k
  pub held :
      (k : BrickKey) (i : ℕ)
      → holder (get_elem? p.slots i) ≡ some k
      → Assoc.lookup key_dec k p.slot_of ≡ some i
  pub free :
      (i : ℕ)
      → contains i p.free_slots ≡ true
      → (holder (get_elem? p.slots i) ≡ none) × (i < length p.slots)
  pub once : NoRepeat p.free_slots

pub get_elem?-set_self :
    {A : Type 0} (xs : List A) (i : ℕ) (x : A) → i < length xs → get_elem? (set xs i x) i ≡ some x
get_elem?-set_self [] i x h = absurd (omega arith)
get_elem?-set_self (y ∷ xs) zero x h = refl
get_elem?-set_self (y ∷ xs) (suc i) x h = get_elem?-set_self xs i x (omega arith)

pub get_elem?-set_ne :
    {A : Type 0} (xs : List A) (i j : ℕ) (x : A) → i ≢ j → get_elem? (set xs i x) j ≡ get_elem? xs j
get_elem?-set_ne [] i j x h = refl
get_elem?-set_ne (y ∷ xs) zero zero x h = absurd (h refl)
get_elem?-set_ne (y ∷ xs) zero (suc j) x h = refl
get_elem?-set_ne (y ∷ xs) (suc i) zero x h = refl
get_elem?-set_ne (y ∷ xs) (suc i) (suc j) x h = get_elem?-set_ne xs i j x (λ e. h (ap suc e))

pub get_elem?-bound :
    {A : Type 0} (xs : List A) (i : ℕ) (x : A) → get_elem? xs i ≡ some x → i < length xs
get_elem?-bound [] i x h = absurd (cc)
get_elem?-bound (y ∷ xs) zero x h = omega arith
get_elem?-bound (y ∷ xs) (suc i) x h = omega (arith, get_elem?-bound xs i x h)

-- A slot read after a write to one.
pub get_elem?-set :
    {A : Type 0} (xs : List A) (i j : ℕ) (x : A)
    → i < length xs
    → ((i ≡ j) × (get_elem? (set xs i x) j ≡ some x))
      ⊎ ((i ≢ j) × (get_elem? (set xs i x) j ≡ get_elem? xs j))
get_elem?-set xs i j x h = ground (arith, get_elem?-set_self xs i x h, get_elem?-set_ne xs i j x)

pub touch_slot-Agree : (frame i : ℕ) (p : Pool) → Agree p → Agree (touch_slot frame i p)
unfolding touch_slot
touch_slot-Agree frame i p v = elim (Option-cases (get_elem? p.slots i)) [
  | inl e ↦ rw (e, touch_slot) v
  | inr (s, e) ↦
      let b = get_elem?-bound p.slots i s e in
      let s' : Slot = record s { last_touched = frame } in
      rw (e, touch_slot)
        (record {
          distinct = v.distinct;
          mapped = λ k j h. ground (arith, v.mapped k j h, get_elem?-set p.slots i j s' b);
          held = λ k j h. ground (arith, v.held k j, get_elem?-set p.slots i j s' b);
          free = λ j h.
              ground (arith, v.free j h, get_elem?-set p.slots i j s' b, length-set p.slots i s');
          once = v.once;
        })
]

-- A slot without a brick, out of the free list, is filled.
pub fill_slot-Agree :
    (i : ℕ) (k : BrickKey) (pinned : Bool) (frame : ℕ) (p : Pool)
    → Agree p
    → i < length p.slots
    → holder (get_elem? p.slots i) ≡ none
    → contains i p.free_slots ≡ false
    → Assoc.lookup key_dec k p.slot_of ≡ none
    → Agree (fill_slot i k pinned frame p)
unfolding fill_slot
fill_slot-Agree i k pinned frame p v b vacant unlisted fresh =
    let s' : Slot = record { key = k; occupied = true; pinned = pinned; last_touched = frame } in
    record {
      distinct = Assoc.insert-Distinct key_dec k i p.slot_of v.distinct;
      mapped = λ j n h. ground (
        arith,
        v.mapped j n,
        get_elem?-set p.slots i n s' b,
        Assoc.lookup-insert key_dec k j i p.slot_of,
      );
      held = λ j n h. ground (
        arith,
        v.held j n,
        get_elem?-set p.slots i n s' b,
        Assoc.lookup-insert key_dec k j i p.slot_of,
      );
      free = λ j h.
          ground (arith, v.free j h, get_elem?-set p.slots i j s' b, length-set p.slots i s');
      once = v.once;
    }

evict_slot-Agree :
    (i : ℕ) (s : Slot) (p : Pool)
    → Agree p
    → get_elem? p.slots i ≡ some s
    → s.occupied ≡ true
    → Agree (evict_slot i s p)
unfolding evict_slot
evict_slot-Agree i s p v here full =
    let b = get_elem?-bound p.slots i s here in
    let s' : Slot = record s { occupied = false } in
    record {
      distinct = Assoc.erase-Distinct key_dec s.key p.slot_of v.distinct;
      mapped = λ j n h. ground (
        arith,
        v.mapped j n,
        v.held s.key i,
        get_elem?-set p.slots i n s' b,
        Assoc.lookup-erase key_dec s.key j p.slot_of v.distinct,
      );
      held = λ j n h. ground (
        arith,
        v.held j n,
        v.held s.key i,
        get_elem?-set p.slots i n s' b,
        Assoc.lookup-erase key_dec s.key j p.slot_of v.distinct,
      );
      free = λ j h.
          ground (arith, v.free j h, get_elem?-set p.slots i j s' b, length-set p.slots i s');
      once = v.once;
    }

-- A slot that may be filled: in range, without a brick, and not in the free list.
pub record Vacant (i : ℕ) (p : Pool) : Type 0 where
  pub sound : Agree p
  pub below : i < length p.slots
  pub nobody : holder (get_elem? p.slots i) ≡ none
  pub unlisted : contains i p.free_slots ≡ false

pub pop-Vacant :
    (i : ℕ) (is : List ℕ) (p : Pool)
    → Agree p
    → p.free_slots ≡ i ∷ is
    → Vacant i (record p { free_slots = is })
unfolding contains
pop-Vacant i is p v e =
    let here : contains i p.free_slots ≡ true = ground arith in
    let (first, rest) : (contains i is ≡ false) × NoRepeat is = subst NoRepeat e v.once in
    record {
      sound = record {
        distinct = v.distinct;
        mapped = v.mapped;
        held = v.held;
        free = λ j h. v.free j (ground arith);
        once = rest;
      };
      below = (v.free i here).1;
      nobody = (v.free i here).0;
      unlisted = first;
    }

pub evict_slot-Vacant :
    (i : ℕ) (s : Slot) (p : Pool)
    → Agree p
    → p.free_slots ≡ []
    → get_elem? p.slots i ≡ some s
    → s.occupied ≡ true
    → Vacant i (evict_slot i s p)
unfolding evict_slot contains
evict_slot-Vacant i s p v e here full =
    let b = get_elem?-bound p.slots i s here in
    let s' : Slot = record s { occupied = false } in
    record {
      sound = evict_slot-Agree i s p v here full;
      below = ground (arith, b, length-set p.slots i s');
      nobody = ground (arith, get_elem?-set_self p.slots i s' b);
      unlisted = ground arith;
    }
