-- ===== src/Core/LruCache/Tests.antt =====
-- src/core/LruCache.h: runs on small caches of numbers.
use scrollviewer.Base.{ℕ, ◌≡◌, refl, true, false, List, [], ◌∷◌, ℕ_discrete}
use scrollviewer.Base.Assoc
use scrollviewer.Core.LruCache.{
  LruCache, init, find, get, contains, insert, pin, unpin, evict_locked, evict_walk, evict_step,
  push_entry, drop_existing, remove_node, find_node, set_pins, front_value,
}
use scrollviewer.Core.LruCache.Nodes.{entry_of}
use scrollviewer.Core.LruCache.Coherent.{Coherent}
use scrollviewer.Core.LruCache.Invariant.{Op, step, run, run-Coherent}
use scrollviewer.Core.LruCache.Budget.{Split, evict_locked-Split}

program : Unit {0}
unfolding init Assoc.lookup Assoc.insert Assoc.erase step run find get contains insert pin unpin
    evict_locked evict_walk evict_step push_entry drop_existing remove_node find_node set_pins
    front_value entry_of ℕ_discrete
program = tt

-- Three values of 40 bytes in a cache of 100, the first one pinned; then the third one is read and
-- pinned.
abbrev ops : List (Op ℕ ℕ)
ops =
    Op.insert_op 1 10 40 1
    ∷ Op.insert_op 2 20 40 0
    ∷ Op.insert_op 3 30 40 0
    ∷ Op.get_op 3
    ∷ Op.pin_op 3
    ∷ []

abbrev sample : LruCache ℕ ℕ
sample = run ℕ_discrete (init 100) ops

sample-Coherent : Coherent ℕ_discrete sample
sample-Coherent = run-Coherent ℕ_discrete 100 ops

-- The pinned value outlives the second one.
sample_keys : (contains ℕ_discrete sample 1 ≡ true) × (contains ℕ_discrete sample 2 ≡ false)
unfolding program
sample_keys = (refl, refl)

run-Coherent_example : Coherent ℕ_discrete (run ℕ_discrete (init 100) ops)
run-Coherent_example = run-Coherent ℕ_discrete 100 ops

evict_locked-Split_example :
    Split ℕ_discrete sample.budget sample.bytes_used sample.map sample.lru (record {
      kept = (evict_locked ℕ_discrete sample).lru;
      used = (evict_locked ℕ_discrete sample).bytes_used;
      index = (evict_locked ℕ_discrete sample).map;
    })
evict_locked-Split_example = evict_locked-Split ℕ_discrete sample
