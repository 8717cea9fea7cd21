-- ===== src/Render/GpuBrickCache/Victim.antt =====
-- src/render/GpuBrickCache.cpp, `acquireSlot`: the search for a victim.
use scrollviewer.Base.{
  ℕ, suc, ◌+◌, ◌<◌, ◌≤◌, ◌≡◌, refl, subst, ◌⊎◌, inl, inr, true, false, Option, none, some, List, [],
  ◌∷◌, arith, get_elem?, All,
}
use scrollviewer.Render.GpuBrickCache.{Slot, victim_step, find_victim}

-- A slot that may be evicted.
abbrev pub IsEvictable : Slot → Type 0
IsEvictable s = (s.occupied ≡ true) × (s.pinned ≡ false)

-- A slot that may not be evicted, or was touched at n or later.
abbrev pub NotBefore : ℕ → Slot → Type 0
NotBefore n s = (s.occupied ≡ false) ⊎ ((s.pinned ≡ true) ⊎ (n ≤ s.last_touched))

victim_step_decision :
    (s : Slot) (i : ℕ) (best : Option ℕ × ℕ)
    → (NotBefore best.1 s × (victim_step s i best ≡ best))
      ⊎ (IsEvictable s
          × (s.last_touched < best.1)
          × (victim_step s i best ≡ (some i, s.last_touched)))
unfolding victim_step
victim_step_decision s i (v, oldest) = ground arith

-- What the search says about the slots that it has met, when it started from `best`.
abbrev pub Chosen : (ℕ → Option Slot) → Option ℕ × ℕ → List Slot → Option ℕ → Type 0
Chosen at best ss none = (best.0 ≡ none) × All (NotBefore best.1) ss
Chosen at best ss (some v) =
    ((best.0 ≡ some v) × All (NotBefore best.1) ss)
    ⊎ ((s : Slot) × (at v ≡ some s)
        × IsEvictable s
        × (s.last_touched < best.1)
        × All (NotBefore s.last_touched) ss)

keep-Chosen :
    (at : ℕ → Option Slot) (best : Option ℕ × ℕ) (s : Slot) (ss : List Slot) (r : Option ℕ)
    → NotBefore best.1 s
    → Chosen at best ss r
    → Chosen at best (s ∷ ss) r
keep-Chosen at best s ss none h c = (c.0, (h, c.1))
keep-Chosen at best s ss (some v) h (inl c) = inl (c.0, (h, c.1))
keep-Chosen at best s ss (some v) h (inr (t, here, e, low, all)) =
    inr (t, here, e, low, (ground arith, all))

take-Chosen :
    (at : ℕ → Option Slot) (best : Option ℕ × ℕ) (i : ℕ) (s : Slot) (ss : List Slot) (r : Option ℕ)
    → at i ≡ some s
    → IsEvictable s
    → s.last_touched < best.1
    → Chosen at (some i, s.last_touched) ss r
    → Chosen at best (s ∷ ss) r
take-Chosen at best i s ss none here e low c = absurd (ground arith)
take-Chosen at best i s ss (some v) here e low (inl c) =
    inr (s, ground arith, e, low, (inr (inr (omega arith)), c.1))
take-Chosen at best i s ss (some v) here e low (inr (t, here', e', low', all)) =
    inr (t, here', e', omega arith, (inr (inr (omega arith)), all))

pub find_victim-Chosen :
    (at : ℕ → Option Slot) (ss : List Slot) (i : ℕ) (best : Option ℕ × ℕ)
    → ((n : ℕ) (s : Slot) → get_elem? ss n ≡ some s → at (i + n) ≡ some s)
    → Chosen at best ss (find_victim ss i best)
unfolding find_victim
find_victim-Chosen at [] i (none, oldest) there = (refl, tt)
find_victim-Chosen at [] i (some v, oldest) there = inl (refl, tt)
find_victim-Chosen at (s ∷ ss) i best there =
    let rest =
      find_victim-Chosen at ss (suc i) (victim_step s i best)
        (λ n t h. ground (arith, there (suc n) t h)) in
    elim (victim_step_decision s i best) [
      | inl (h, same) ↦
          keep-Chosen at best s ss _ h
            (subst (λ b. Chosen at b ss (find_victim ss (suc i) (victim_step s i best))) same rest)
      | inr (e, low, same) ↦
          take-Chosen at best i s ss _ (ground (arith, there 0 s refl)) e low
            (subst (λ b. Chosen at b ss (find_victim ss (suc i) (victim_step s i best))) same rest)
    ]
