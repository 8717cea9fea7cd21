-- ===== src/Core/LruCache/Reads.antt =====
-- src/core/LruCache.h: what a client reads from the cache after each call.
use scrollviewer.Base.{
  ℕ, suc, ◌+◌, ◌<◌, ◌≡◌, ◌≢◌, ◌⊎◌, inl, inr, refl, Option, none, some, List, [], ◌∷◌, ite, Bool,
  true, false, add64, ◌-◌, arith, Option-cases, u64_mod,
}
use scrollviewer.Base.Assoc
use scrollviewer.Core.LruCache.{
  Entry, LruCache, Walk, find, get, contains, evict_locked, evict_walk, evict_step, drop_existing,
  push_entry, insert, pin, unpin, front_value, remove_node,
}
use scrollviewer.Core.LruCache.Nodes.{
  pins_of, entry_of, entry_of-remove_node, entry_of-set_pins, entry_of-find_node,
}
use scrollviewer.Core.LruCache.Evict.{start, evict_walk-Fate}
use scrollviewer.Core.LruCache.Coherent.{
  Coherent, find-entry_of, find-find_node, find-key, drop_existing-Coherent, entry_of-drop_existing,
}
use scrollviewer.Core.LruCache.Invariant.{push_entry-Coherent}

abbrev pub is_some : {K V : Type 0} → Option (Entry K V) → Bool
is_some none = false
is_some (some e) = true

abbrev pub with_pins : {K V : Type 0} → (ℕ → ℕ) → Option (Entry K V) → Option (Entry K V)
with_pins f none = none
with_pins f (some e) = some (record e { pin_count = f e.pin_count })

abbrev pub value_of : {K V : Type 0} → Option (Entry K V) → Option V
value_of none = none
value_of (some e) = some e.value

module _ {K V : Type 0} (dec : Discrete K) where
  get-reorder :
      (c : LruCache K V) (k j : K)
      → Coherent dec c
      → entry_of dec j (get dec c k).0.lru ≡ entry_of dec j c.lru
  unfolding get entry_of
  get-reorder c k j v = elim (Option-cases (find dec c k)) [
    | inl e ↦ rw (e, get)
    | inr (x, e) ↦
        let here = find-find_node dec c k v e in
        rw (e, get)
          (ground (
            arith,
            entry_of-remove_node dec j c.lru x v.unique here,
            entry_of-find_node dec c.lru x v.unique here,
          ))
  ]

  -- On a coherent cache `get` returns the value that the list holds under the key, or nothing if it
  -- holds none, and `contains` tells which; a hit puts the entry before the others, and whether it
  -- hits or not the list has the same entry under each key as before.
  pub get-entry_of :
      (c : LruCache K V) (k : K)
      → Coherent dec c
      → ((get dec c k).1 ≡ value_of (entry_of dec k c.lru))
        × (contains dec c k ≡ is_some (entry_of dec k c.lru))
        × ((e : Entry K V)
            → entry_of dec k c.lru ≡ some e
            → (get dec c k).0.lru ≡ e ∷ remove_node e.node c.lru)
        × ((j : K) → entry_of dec j (get dec c k).0.lru ≡ entry_of dec j c.lru)
  unfolding get contains
  get-entry_of c k v = (
    ground (arith, find-entry_of dec c k v),
    ground (arith, v.agree k),
    (λ e h. ground (arith, find-entry_of dec c k v)),
    λ j. get-reorder c k j v,
  )

  entry_of-drop_existing_ne :
      (c : LruCache K V) (k j : K)
      → Coherent dec c
      → j ≢ k
      → entry_of dec j (drop_existing dec c k).lru ≡ entry_of dec j c.lru
  unfolding drop_existing
  entry_of-drop_existing_ne c k j v other = elim (Option-cases (find dec c k)) [
    | inl e ↦ rw (e, drop_existing)
    | inr (x, e) ↦
        rw (e, drop_existing)
          (ground (
            arith,
            entry_of-remove_node dec j c.lru x v.unique (find-find_node dec c k v e),
            find-key dec c k {e = x} v e,
          ))
  ]

  pushed-Coherent :
      (c : LruCache K V) (k : K) (value : V) (bytes pins : ℕ)
      → Coherent dec c
      → Coherent dec (push_entry dec (drop_existing dec c k) k value bytes pins)
  pushed-Coherent c k value bytes pins v =
      push_entry-Coherent dec (drop_existing dec c k) k value bytes pins
        (drop_existing-Coherent dec c k v) (entry_of-drop_existing dec c k v)

  evict_locked-Fate :
      (c : LruCache K V) (j : K)
      → Coherent dec c
      → (entry_of dec j (evict_locked dec c).lru ≡ entry_of dec j c.lru)
        ⊎ ((pins_of (entry_of dec j c.lru) ≡ some 0)
            × (entry_of dec j (evict_locked dec c).lru ≡ none))
  unfolding evict_locked
  evict_locked-Fate c j v =
      ground (arith, evict_walk-Fate dec c.budget c.bytes_used c.lru c.map j v.distinct v.unique)

  -- An insertion leaves the entry of any other key as it was, or evicts it, and it evicts only what
  -- is not pinned.
  pub insert_ne :
      (c : LruCache K V) (k j : K) (value : V) (bytes pins : ℕ)
      → Coherent dec c
      → j ≢ k
      → (entry_of dec j (insert dec c k value bytes pins).0.lru ≡ entry_of dec j c.lru)
        ⊎ ((pins_of (entry_of dec j c.lru) ≡ some 0)
            × (entry_of dec j (insert dec c k value bytes pins).0.lru ≡ none))
  unfolding insert push_entry entry_of
  insert_ne c k j value bytes pins v other = ground (
    arith,
    evict_locked-Fate (push_entry dec (drop_existing dec c k) k value bytes pins) j
        (pushed-Coherent c k value bytes pins v),
    entry_of-drop_existing_ne c k j v,
  )

  front_pinned :
      (budget : ℕ) (e : Entry K V) (es : List (Entry K V)) (w : Walk K V)
      → 0 < e.pin_count
      → (evict_walk dec budget (e ∷ es) w).kept ≡ e ∷ (evict_walk dec budget es w).kept
  unfolding evict_walk evict_step
  front_pinned budget e es w h = ground arith

  reads_front :
      (k : K) (e : Entry K V) (es xs : List (Entry K V))
      → xs ≡ e ∷ es
      → e.key ≡ k
      → (front_value xs ≡ some e.value) × (entry_of dec k xs ≡ some e)
  unfolding front_value entry_of
  reads_front k e es xs h same = ground arith

  -- A value that is inserted with a pin is returned, and it is in the cache afterwards, with its size
  -- and its pins, whatever the cache held and however small its budget is.
  pub insert-entry_of :
      (c : LruCache K V) (k : K) (value : V) (bytes pins : ℕ)
      → 0 < pins
      → let r = insert dec c k value bytes pins in
        let e = entry_of dec k r.0.lru in
        (r.1 ≡ some value)
        × (e
            ≡ some (record {
              key = k;
              value = value;
              bytes = bytes;
              pin_count = pins;
              node = (drop_existing dec c k).next_node;
            }))
  unfolding insert push_entry evict_locked
  insert-entry_of c k value bytes pins h =
      let d = drop_existing dec c k in
      let e : Entry K V = record {
        key = k;
        value = value;
        bytes = bytes;
        pin_count = pins;
        node = d.next_node;
      } in
      let w : Walk K V = start (add64 d.bytes_used bytes) (Assoc.insert dec k d.next_node d.map) in
      let r = reads_front k e _ _ (front_pinned d.budget e d.lru w h) refl in (r.0, r.1)

  -- A value that is inserted into an empty cache without a pin, and that is larger than the budget, is
  -- evicted at once, and `insert` then reads the front of an empty list.
  pub insert_oversized :
      (c : LruCache K V) (k : K) (value : V) (bytes : ℕ)
      → Coherent dec c
      → c.lru ≡ []
      → c.budget < bytes
      → bytes < u64_mod
      → ((insert dec c k value bytes 0).1 ≡ none) × ((insert dec c k value bytes 0).0.lru ≡ [])
  unfolding insert push_entry evict_locked evict_walk evict_step front_value drop_existing entry_of
  insert_oversized c k value bytes v empty over fits =
      ground (arith, find-entry_of dec c k v, v.accounted)

  -- On a coherent cache `pin` adds one pin to the entry under the key, `unpin` takes one from it down
  -- to none, and neither touches the entry of another key or makes one up.
  pub pin-entry_of :
      (c : LruCache K V) (k j : K)
      → Coherent dec c
      → (entry_of dec j (pin dec c k).lru
          ≡ ite (dec k j) (with_pins suc (entry_of dec j c.lru)) (entry_of dec j c.lru))
        × (entry_of dec j (unpin dec c k).lru
            ≡ ite (dec k j) (with_pins (λ p. p - 1) (entry_of dec j c.lru)) (entry_of dec j c.lru))
  unfolding pin unpin
  pin-entry_of c k j v = elim (Option-cases (find dec c k)) [
    | inl e ↦
        rw (e, pin, unpin)
          (ground (arith, find-entry_of dec c k v), ground (arith, find-entry_of dec c k v))
    | inr (x, e) ↦
        let here = find-find_node dec c k v e in
        let key : x.key ≡ k = find-key dec c k v e in
        (
          ground (
            arith,
            entry_of-set_pins dec j c.lru x (x.pin_count + 1) v.unique here,
            find-entry_of dec c k v,
            key,
          ),
          ground (
            arith,
            entry_of-set_pins dec j c.lru x (x.pin_count - 1) v.unique here,
            find-entry_of dec c k v,
            key,
          ),
        )
  ]
