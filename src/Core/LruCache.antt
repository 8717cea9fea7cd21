-- ===== src/Core/LruCache.antt =====
-- src/core/LruCache.h. A `std::list` node has an identity, `node`, which is what the iterators in
-- `map_` hold; an iterator to a node that is gone would be undefined behaviour and finds nothing here.
-- Every method runs under the cache's mutex, so a method is one step.
pub mod Nodes
pub mod Evict
pub mod Coherent
pub mod Invariant
pub mod Budget
pub mod Reads
pub mod Tests
use scrollviewer.Base.{
  ℕ, suc, ◌+◌, ◌-◌, Bool, true, false, Option, none, some, List, [], ◌∷◌, ltb, if◌then◌else◌, ite,
  ℕ_discrete, add64, sub64, length,
}
use scrollviewer.Base.Assoc

-- `Entry`: `value` is the `shared_ptr<const V>`.
pub record Entry (K V : Type 0) : Type 0 where
  pub key : K
  pub value : V
  pub bytes : ℕ
  pub pin_count : ℕ
  pub node : ℕ

-- `lru` runs from the most recent entry to the least recent one.
pub record LruCache (K V : Type 0) : Type 0 where
  pub budget : ℕ
  pub lru : List (Entry K V)
  pub map : List (K × ℕ)
  pub bytes_used : ℕ
  pub next_node : ℕ

-- What the walk of `evictLocked` has left behind its cursor, and the two fields that it changes.
pub record Walk (K V : Type 0) : Type 0 where
  pub kept : List (Entry K V)
  pub used : ℕ
  pub index : List (K × ℕ)

module _ {K V : Type 0} where
  -- `*it`.
  unfoldable pub find_node : ℕ → List (Entry K V) → Option (Entry K V)
  find_node i [] = none
  find_node i (e ∷ es) = ite (ℕ_discrete e.node i) (some e) (find_node i es)

  -- `lru_.erase(it)`.
  unfoldable pub remove_node : ℕ → List (Entry K V) → List (Entry K V)
  remove_node i [] = []
  remove_node i (e ∷ es) = ite (ℕ_discrete e.node i) es (e ∷ remove_node i es)

  -- A write through an iterator.
  unfoldable pub set_pins : ℕ → ℕ → List (Entry K V) → List (Entry K V)
  set_pins i p [] = []
  set_pins i p (e ∷ es) =
      ite (ℕ_discrete e.node i) (record e { pin_count = p } ∷ es) (e ∷ set_pins i p es)

  unfoldable pub init : ℕ → LruCache K V
  init budget = record { budget = budget; lru = []; map = []; bytes_used = 0; next_node = 0 }

  unfoldable pub front_value : List (Entry K V) → Option V
  front_value [] = none
  front_value (e ∷ es) = some e.value

  unfoldable pub entry_count : LruCache K V → ℕ
  entry_count c = length c.map

module _ {K V : Type 0} (dec : Discrete K) where
  -- The entry that `map_.find(key)` leads to.
  unfoldable pub find : LruCache K V → K → Option (Entry K V)
  unfolding find_node
  find c key = elim (Assoc.lookup dec key c.map) [ none ↦ none | some i ↦ find_node i c.lru ]

  unfoldable pub get : LruCache K V → K → LruCache K V × Option V
  get c key = elim (find c key) [
    | none ↦ (c, none)
    | some e ↦ (record c { lru = e ∷ remove_node e.node c.lru }, some e.value)
  ]

  unfoldable pub contains : LruCache K V → K → Bool
  contains c key = elim (Assoc.lookup dec key c.map) [ none ↦ false | some i ↦ true ]

  -- One step of the walk, at the entry `e` that the cursor reaches next.
  unfoldable pub evict_step : ℕ → Entry K V → Walk K V → Walk K V
  evict_step budget e w =
      if ltb budget w.used
      then (if ltb 0 e.pin_count
          then record w { kept = e ∷ w.kept }
          else record w { used = sub64 w.used e.bytes; index = Assoc.erase dec e.key w.index })
      else record w { kept = e ∷ w.kept }

  -- The walk goes from the tail to the front: the entries behind `e` come first. Once the cache is
  -- within its budget, it stays so, and the loop's end is a step that keeps its entry.
  unfoldable pub evict_walk : ℕ → List (Entry K V) → Walk K V → Walk K V
  evict_walk budget [] w = w
  evict_walk budget (e ∷ es) w = evict_step budget e (evict_walk budget es w)

  unfoldable pub evict_locked : LruCache K V → LruCache K V
  evict_locked c =
      let w =
        evict_walk c.budget c.lru (record { kept = []; used = c.bytes_used; index = c.map }) in
      record c { lru = w.kept; map = w.index; bytes_used = w.used }

  -- The first block of `insert`: an entry under the key goes.
  unfoldable pub drop_existing : LruCache K V → K → LruCache K V
  drop_existing c key = elim (find c key) [
    | none ↦ c
    | some e ↦ record c {
      lru = remove_node e.node c.lru;
      map = Assoc.erase dec key c.map;
      bytes_used = sub64 c.bytes_used e.bytes;
    }
  ]

  -- `lru_.push_front(...); map_[key] = lru_.begin(); bytesUsed_ += bytes;`
  unfoldable pub push_entry : LruCache K V → K → V → ℕ → ℕ → LruCache K V
  push_entry c key value bytes pins = record c {
    lru =
        record { key = key; value = value; bytes = bytes; pin_count = pins; node = c.next_node }
        ∷ c.lru;
    map = Assoc.insert dec key c.next_node c.map;
    bytes_used = add64 c.bytes_used bytes;
    next_node = c.next_node + 1;
  }

  -- The result is `lru_.front().value`: `none` stands for `front()` of an empty list.
  unfoldable pub insert : LruCache K V → K → V → ℕ → ℕ → LruCache K V × Option V
  insert c key value bytes pins =
      let c' = evict_locked (push_entry (drop_existing c key) key value bytes pins) in
      (c', front_value c'.lru)

  unfoldable pub pin : LruCache K V → K → LruCache K V
  pin c key = elim (find c key) [
    | none ↦ c
    | some e ↦ record c { lru = set_pins e.node (e.pin_count + 1) c.lru }
  ]

  unfoldable pub unpin : LruCache K V → K → LruCache K V
  unpin c key = elim (find c key) [
    | none ↦ c
    | some e ↦
        if ltb 0 e.pin_count then record c { lru = set_pins e.node (e.pin_count - 1) c.lru } else c
  ]
