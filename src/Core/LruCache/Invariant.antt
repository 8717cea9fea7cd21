-- ===== src/Core/LruCache/Invariant.antt =====
-- src/core/LruCache.h: the list, the map and the byte count agree, whatever the calls.
use scrollviewer.Base.{ℕ, ◌≡◌, ◌≢◌, refl, none, List, [], ◌∷◌, arith}
use scrollviewer.Base.Assoc
use scrollviewer.Core.LruCache.{
  Entry, LruCache, init, get, evict_locked, drop_existing, push_entry, insert, pin, unpin,
}
use scrollviewer.Core.LruCache.Nodes.{node_of, entry_of, Unique, Below-mono, find_node-Below}
use scrollviewer.Core.LruCache.Evict.{
  Indexed, start, evict_walk-Distinct, evict_walk-Fate, evict_walk-Below, evict_walk-Unique,
  evict_walk-used, evict_walk_bound, evict_walk-size,
}
use scrollviewer.Core.LruCache.Coherent.{
  Coherent, init-Coherent, get-Coherent, drop_existing-Coherent, unpin-Coherent,
  entry_of-drop_existing, pin-Coherent,
}

-- What a client may call.
pub data Op (K V : Type 0) : Type 0 where
  get_op pin_op unpin_op : K → Op K V
  insert_op : K → V → ℕ → ℕ → Op K V

module _ {K V : Type 0} (dec : Discrete K) where
  pub push_entry-Coherent :
      (c : LruCache K V) (k : K) (value : V) (bytes pins : ℕ)
      → Coherent dec c
      → entry_of dec k c.lru ≡ none
      → Coherent dec (push_entry dec c k value bytes pins)
  unfolding push_entry entry_of
  push_entry-Coherent c k value bytes pins v fresh = record {
    unique = (fresh, find_node-Below c.next_node c.lru v.below, v.unique);
    below = (omega arith, Below-mono c.next_node c.lru v.below);
    distinct = Assoc.insert-Distinct dec k c.next_node c.map v.distinct;
    agree = λ j. ground (arith, v.agree j, Assoc.lookup-insert dec k j c.next_node c.map);
    counted =
        ground (arith, v.counted, v.agree k, Assoc.sum-insert dec (λ _. 1) k c.next_node c.map);
    accounted = ground (arith, v.accounted);
  }

  Indexed-agree :
      (m : List (K × ℕ)) (es : List (Entry K V))
      → Unique dec es
      → ((k : K) → entry_of dec k es ≢ none → Assoc.lookup dec k m ≡ node_of (entry_of dec k es))
      → Indexed dec m es
  unfolding entry_of
  Indexed-agree m [] u h = tt
  Indexed-agree m (e ∷ es) u h =
      (ground (arith, h e.key), Indexed-agree m es u.2 (λ k some_k. ground (arith, h k, u.0)))

  pub evict_locked-Coherent :
      (c : LruCache K V) → Coherent dec c → Coherent dec (evict_locked dec c)
  unfolding evict_locked
  evict_locked-Coherent c v = record {
    unique = evict_walk-Unique dec c.budget c.bytes_used c.lru c.map v.distinct v.unique;
    below = evict_walk-Below dec c.budget c.next_node c.lru (start c.bytes_used c.map) refl v.below;
    distinct = evict_walk-Distinct dec c.budget c.bytes_used c.lru c.map v.distinct;
    agree = λ k. ground (
      arith,
      v.agree k,
      evict_walk-Fate dec c.budget c.bytes_used c.lru c.map k v.distinct v.unique,
    );
    counted = ground (
      arith,
      v.counted,
      evict_walk-size dec c.budget c.bytes_used c.lru c.map v.distinct v.unique
          (Indexed-agree c.map c.lru v.unique (λ k _. v.agree k)),
    );
    accounted = ground (
      arith,
      v.accounted,
      evict_walk-used dec c.budget c.bytes_used c.lru c.map,
      evict_walk_bound dec c.budget c.bytes_used c.lru c.map,
    );
  }

  pub insert-Coherent :
      (c : LruCache K V) (k : K) (value : V) (bytes pins : ℕ)
      → Coherent dec c
      → Coherent dec (insert dec c k value bytes pins).0
  unfolding insert
  insert-Coherent c k value bytes pins v = evict_locked-Coherent _ (
      push_entry-Coherent (drop_existing dec c k) k value bytes pins
        (drop_existing-Coherent dec c k v) (entry_of-drop_existing dec c k v))

  unfoldable pub step : LruCache K V → Op K V → LruCache K V
  step c (get_op k) = (get dec c k).0
  step c (pin_op k) = pin dec c k
  step c (unpin_op k) = unpin dec c k
  step c (insert_op k value bytes pins) = (insert dec c k value bytes pins).0

  unfoldable pub run : LruCache K V → List (Op K V) → LruCache K V
  run c [] = c
  run c (op ∷ ops) = run (step c op) ops

  step-Coherent : (c : LruCache K V) (op : Op K V) → Coherent dec c → Coherent dec (step c op)
  unfolding step
  step-Coherent c (get_op k) v = get-Coherent dec c k v
  step-Coherent c (pin_op k) v = pin-Coherent dec c k v
  step-Coherent c (unpin_op k) v = unpin-Coherent dec c k v
  step-Coherent c (insert_op k value bytes pins) v = insert-Coherent c k value bytes pins v

  pub run_from-Coherent :
      (c : LruCache K V) (ops : List (Op K V)) → Coherent dec c → Coherent dec (run c ops)
  unfolding run
  run_from-Coherent c [] v = v
  run_from-Coherent c (op ∷ ops) v = run_from-Coherent (step c op) ops (step-Coherent c op v)

  -- After any calls on a new cache no key occurs twice in the list, the map leads from each key to
  -- its entry and from no other key to any, both have as many entries, and the byte count is the
  -- sum of the sizes of the entries modulo 2^64.
  pub run-Coherent : (budget : ℕ) (ops : List (Op K V)) → Coherent dec (run (init budget) ops)
  run-Coherent budget ops = run_from-Coherent (init budget) ops (init-Coherent dec budget)
