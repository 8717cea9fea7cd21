-- ===== src/Core/LruCache/Evict.antt =====
-- src/core/LruCache.h: what the walk of `evictLocked` does to the list, the map and the byte count.
use scrollviewer.Base.{
  ℕ, ◌+◌, ◌%◌, ◌<◌, ◌≡◌, refl, ◌⊎◌, inl, inr, none, some, List, [], ◌∷◌, arith, total, length,
  u64_mod, sub64,
}
use scrollviewer.Base.Assoc
use scrollviewer.Core.LruCache.{Entry, Walk, find_node, evict_step, evict_walk}
use scrollviewer.Core.LruCache.Nodes.{bytes_of, pins_of, Below, entry_of, Unique}

abbrev pub start : {K V : Type 0} → ℕ → List (K × ℕ) → Walk K V
start used index = record { kept = []; used = used; index = index }

module _ {K V : Type 0} (dec : Discrete K) where
  -- The map leads to every entry of the list.
  abbrev pub Indexed : List (K × ℕ) → List (Entry K V) → Type 0
  Indexed m [] = Unit {0}
  Indexed m (e ∷ es) = (Assoc.lookup dec e.key m ≡ some e.node) × Indexed m es

  -- A key is untouched, or its entry was unpinned and is gone from the list and from the map.
  abbrev pub Fate : List (K × ℕ) → List (Entry K V) → Walk K V → K → Type 0
  Fate m es w j =
      ((entry_of dec j w.kept ≡ entry_of dec j es)
        × (Assoc.lookup dec j w.index ≡ Assoc.lookup dec j m))
      ⊎ ((pins_of (entry_of dec j es) ≡ some 0)
          × (entry_of dec j w.kept ≡ none)
          × (Assoc.lookup dec j w.index ≡ none))

  pub evict_walk-Distinct :
      (budget used : ℕ) (es : List (Entry K V)) (m : List (K × ℕ))
      → Assoc.Distinct dec m
      → Assoc.Distinct dec (evict_walk dec budget es (start used m)).index
  unfolding evict_walk evict_step
  evict_walk-Distinct budget used [] m d = d
  evict_walk-Distinct budget used (e ∷ es) m d =
      let w = evict_walk dec budget es (start used m) in
      ground (
        arith,
        evict_walk-Distinct budget used es m d,
        Assoc.erase-Distinct dec e.key w.index (evict_walk-Distinct budget used es m d),
      )

  pub evict_step_cases :
      (budget : ℕ) (e : Entry K V) (w : Walk K V)
      → (evict_step dec budget e w ≡ record w { kept = e ∷ w.kept })
        ⊎ ((budget < w.used)
            × (e.pin_count ≡ 0)
            × (evict_step dec budget e w
                ≡ record w { used = sub64 w.used e.bytes; index = Assoc.erase dec e.key w.index }))
  unfolding evict_step
  evict_step_cases budget e w = ground arith

  evict_step-Fate :
      (budget : ℕ) (e : Entry K V) (es : List (Entry K V)) (m : List (K × ℕ)) (w : Walk K V) (j : K)
      → Assoc.Distinct dec w.index
      → entry_of dec e.key es ≡ none
      → Fate m es w j
      → Fate m (e ∷ es) (evict_step dec budget e w) j
  unfolding entry_of
  evict_step-Fate budget e es m w j d u (inl same) =
      ground (arith, evict_step_cases budget e w, Assoc.lookup-erase dec e.key j w.index d)
  evict_step-Fate budget e es m w j d u (inr gone) =
      ground (arith, evict_step_cases budget e w, Assoc.lookup-erase dec e.key j w.index d)

  pub evict_walk-Fate :
      (budget used : ℕ) (es : List (Entry K V)) (m : List (K × ℕ)) (j : K)
      → Assoc.Distinct dec m
      → Unique dec es
      → Fate m es (evict_walk dec budget es (start used m)) j
  unfolding evict_walk entry_of
  evict_walk-Fate budget used [] m j d u = inl (refl, refl)
  evict_walk-Fate budget used (e ∷ es) m j d u =
      evict_step-Fate budget e es m (evict_walk dec budget es (start used m)) j
        (evict_walk-Distinct budget used es m d) u.0 (evict_walk-Fate budget used es m j d u.2)

  pub evict_walk-find_node :
      (budget i : ℕ) (es : List (Entry K V)) (w : Walk K V)
      → w.kept ≡ []
      → find_node i es ≡ none
      → find_node i (evict_walk dec budget es w).kept ≡ none
  unfolding evict_walk evict_step find_node
  evict_walk-find_node budget i [] w k h = ground arith
  evict_walk-find_node budget i (e ∷ es) w k h =
      ground (arith, evict_walk-find_node budget i es w k)

  pub evict_walk-Below :
      (budget n : ℕ) (es : List (Entry K V)) (w : Walk K V)
      → w.kept ≡ []
      → Below n es
      → Below n (evict_walk dec budget es w).kept
  unfolding evict_walk evict_step
  evict_walk-Below budget n [] w k h = ground arith
  evict_walk-Below budget n (e ∷ es) w k h = ground (arith, evict_walk-Below budget n es w k)

  pub evict_walk-Unique :
      (budget used : ℕ) (es : List (Entry K V)) (m : List (K × ℕ))
      → Assoc.Distinct dec m
      → Unique dec es
      → Unique dec (evict_walk dec budget es (start used m)).kept
  unfolding evict_walk evict_step
  evict_walk-Unique budget used [] m d u = tt
  evict_walk-Unique budget used (e ∷ es) m d u = ground (
    arith,
    evict_walk-Unique budget used es m d u.2,
    evict_walk-Fate budget used es m e.key d u.2,
    evict_walk-find_node budget e.node es (start used m) refl u.1,
  )

  -- The byte count falls by what is evicted.
  pub evict_walk-used :
      (budget used : ℕ) (es : List (Entry K V)) (m : List (K × ℕ))
      → let w = evict_walk dec budget es (start used m) in
        (w.used + total bytes_of es) % u64_mod ≡ (used + total bytes_of w.kept) % u64_mod
  unfolding evict_walk evict_step
  evict_walk-used budget used [] m = refl
  evict_walk-used budget used (e ∷ es) m = ground (arith, evict_walk-used budget used es m)

  pub evict_walk_bound :
      (budget used : ℕ) (es : List (Entry K V)) (m : List (K × ℕ))
      → used < u64_mod
      → (evict_walk dec budget es (start used m)).used < u64_mod
  unfolding evict_walk evict_step
  evict_walk_bound budget used [] m h = h
  evict_walk_bound budget used (e ∷ es) m h = ground (arith, evict_walk_bound budget used es m h)

  -- So does the size of the map.
  pub evict_walk-size :
      (budget used : ℕ) (es : List (Entry K V)) (m : List (K × ℕ))
      → Assoc.Distinct dec m
      → Unique dec es
      → Indexed m es
      → let w = evict_walk dec budget es (start used m) in
        Assoc.size dec w.index + length es ≡ Assoc.size dec m + length w.kept
  unfolding evict_walk evict_step
  evict_walk-size budget used [] m d u ix = refl
  evict_walk-size budget used (e ∷ es) m d u ix =
      let w = evict_walk dec budget es (start used m) in
      ground (
        arith,
        evict_walk-size budget used es m d u.2 ix.1,
        evict_walk-Fate budget used es m e.key d u.2,
        Assoc.size-erase dec e.key e.node w.index,
      )
