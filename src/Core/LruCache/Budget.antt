-- ===== src/Core/LruCache/Budget.antt =====
-- src/core/LruCache.h: what `evictLocked` evicts, and when it stops.
use scrollviewer.Base.{
  ℕ, ◌≤◌, ◌<◌, ◌≡◌, ◌⊎◌, inl, inr, refl, ap, sub64, List, [], ◌∷◌, ◌++◌, ltb, if◌then◌else◌, arith,
  All,
}
use scrollviewer.Base.Assoc
use scrollviewer.Core.LruCache.{
  Entry, LruCache, Walk, evict_step, evict_walk, evict_locked, insert, push_entry, drop_existing,
}
use scrollviewer.Core.LruCache.Evict.{start}

module _ {K V : Type 0} where
  abbrev pub IsPinned : Entry K V → Type 0
  IsPinned e = 0 < e.pin_count

  -- The entries that are pinned, in order.
  unfoldable pub pinned : List (Entry K V) → List (Entry K V)
  pinned [] = []
  pinned (e ∷ es) = if ltb 0 e.pin_count then e ∷ pinned es else pinned es

evict_step_decision :
    {K V : Type 0} (dec : Discrete K) (budget : ℕ) (e : Entry K V) (w : Walk K V)
    → ((w.used ≤ budget) × (evict_step dec budget e w ≡ record w { kept = e ∷ w.kept }))
      ⊎ (((budget < w.used)
            × (0 < e.pin_count)
            × (evict_step dec budget e w ≡ record w { kept = e ∷ w.kept }))
          ⊎ ((budget < w.used)
              × (e.pin_count ≡ 0)
              × (evict_step dec budget e w ≡ record w {
                used = sub64 w.used e.bytes;
                index = Assoc.erase dec e.key w.index;
              })))
unfolding evict_step
evict_step_decision dec budget e w = ground arith

module _ {K V : Type 0} (dec : Discrete K) (budget used : ℕ) (m : List (K × ℕ)) where
  abbrev walked : List (Entry K V) → Walk K V
  walked es = evict_walk dec budget es (start used m)

  -- The walk was over budget when it came to the first of these entries.
  abbrev pub Needed : List (Entry K V) → Type 0
  Needed [] = Unit {0}
  Needed (e ∷ es) = budget < (walked es).used

  -- The list splits into a recent part, which is kept whole, and the entries behind it, of which only
  -- the pinned ones are kept. The walk goes on to the front unless it is within budget, and it takes
  -- an entry only while it is over budget.
  pub record Split (es : List (Entry K V)) (w : Walk K V) : Type 0 where
    pub recent : List (Entry K V)
    pub behind : List (Entry K V)
    pub whole : es ≡ recent ++ behind
    pub left : w.kept ≡ recent ++ pinned behind
    pub stopped : (w.used ≤ budget) ⊎ (recent ≡ [])
    pub needed : Needed behind

  keep_Split :
      (e : Entry K V) (es : List (Entry K V)) (w : Walk K V)
      → w.used ≤ budget
      → Split es w
      → Split (e ∷ es) (record w { kept = e ∷ w.kept })
  keep_Split e es w h s = record {
    recent = e ∷ s.recent;
    behind = s.behind;
    whole = ap (◌∷◌ e) s.whole;
    left = ap (◌∷◌ e) s.left;
    stopped = inl h;
    needed = s.needed;
  }

  pass_Split :
      (e : Entry K V) (es : List (Entry K V)) (w : Walk K V)
      → budget < (walked es).used
      → w.kept ≡ pinned (e ∷ es)
      → Split (e ∷ es) w
  pass_Split e es w h k = record {
    recent = [];
    behind = e ∷ es;
    whole = refl;
    left = k;
    stopped = inr refl;
    needed = h;
  }

  over_pinned :
      (es : List (Entry K V))
      → budget < (walked es).used
      → Split es (walked es)
      → (walked es).kept ≡ pinned es
  over_pinned es h s = elim s.stopped [
    | inl low ↦ absurd (omega arith)
    | inr e ↦ rw (s.left, s.whole, e) refl
  ]

  -- The walk splits the list in this way.
  pub evict_walk-Split : (es : List (Entry K V)) → Split es (walked es)
  unfolding evict_walk pinned
  evict_walk-Split [] = record {
    recent = [];
    behind = [];
    whole = refl;
    left = ground arith;
    stopped = inr refl;
    needed = tt;
  }
  evict_walk-Split (e ∷ es) =
      let s = evict_walk-Split es in
      elim (evict_step_decision dec budget e (walked es)) [
        | inl (low, k) ↦ rw k (keep_Split e es (walked es) low s)
        | inr (inl (over, p, k)) ↦
            rw k (pass_Split e es _ over (ground (arith, over_pinned es over s)))
        | inr (inr (over, p, k)) ↦
            rw k (pass_Split e es _ over (ground (arith, over_pinned es over s)))
      ]

module _ {K V : Type 0} where
  pinned-IsPinned : (es : List (Entry K V)) → All IsPinned (pinned es)
  unfolding pinned
  pinned-IsPinned [] = tt
  pinned-IsPinned (e ∷ es) = ground (arith, pinned-IsPinned es)

module _ {K V : Type 0} (dec : Discrete K) where
  -- Whatever the cache, `evictLocked` takes unpinned entries from the least recent end only, each of
  -- them while the byte count is over the budget, and it goes on until the count is within the budget
  -- or no entry is left that it has not met.
  pub evict_locked-Split :
      (c : LruCache K V)
      → Split dec c.budget c.bytes_used c.map c.lru (record {
        kept = (evict_locked dec c).lru;
        used = (evict_locked dec c).bytes_used;
        index = (evict_locked dec c).map;
      })
  unfolding evict_locked
  evict_locked-Split c = evict_walk-Split dec c.budget c.bytes_used c.map c.lru

  evict_locked-budget :
      (c : LruCache K V)
      → ((evict_locked dec c).bytes_used ≤ c.budget) ⊎ All IsPinned (evict_locked dec c).lru
  evict_locked-budget c =
      let s = evict_locked-Split c in
      elim s.stopped [ inl h ↦ inl h | inr e ↦ inr (rw (s.left, e) (pinned-IsPinned s.behind)) ]

  drop_existing-budget : (c : LruCache K V) (k : K) → (drop_existing dec c k).budget ≡ c.budget
  unfolding drop_existing
  drop_existing-budget c k = ground arith

  -- After an insertion the cache is within its budget, or every entry that is left is pinned.
  pub insert-budget :
      (c : LruCache K V) (k : K) (value : V) (bytes pins : ℕ)
      → ((insert dec c k value bytes pins).0.bytes_used ≤ c.budget)
        ⊎ All IsPinned (insert dec c k value bytes pins).0.lru
  unfolding insert push_entry
  insert-budget c k value bytes pins =
      let c' = push_entry dec (drop_existing dec c k) k value bytes pins in
      elim (evict_locked-budget c') [
        | inl h ↦ inl (omega (arith, drop_existing-budget c k))
        | inr h ↦ inr h
      ]
