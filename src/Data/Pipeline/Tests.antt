-- ===== src/Data/Pipeline/Tests.antt =====
-- src/data/ChunkFetchPipeline.cpp: runs with room for one fetch, and with numbers for priorities.

use scrollviewer.Base.{
  ℕ, ◌+◌, ◌^◌, ◌<◌, ◌≡◌, ◌⊎◌, refl, false, none, some, List, [], ◌∷◌, ltb, ◌==◌, arith, All,
  ℕ_discrete, u64_mod,
}
use scrollviewer.Base.Assoc
use scrollviewer.Core.LruCache
use scrollviewer.Data.BrickKey.{BrickKey, key_dec, coord_dec, packed, InRange, packed-injective}
use scrollviewer.Data.RamCache.{RamCache}
use scrollviewer.Data.Volume.{Volume, Dtype}
use scrollviewer.Data.Pipeline.{
  FloatOrder, State, StoreResult, Kind, BrickRequest, Tracked, Config, Pipeline, find, init, submit,
  submit_all, submit_one, cancel, pump, pump_loop, pump_one, issue, push_request, heap_push, less,
  below_caps, contains,
}
use scrollviewer.Data.Pipeline.System.{Event, run, step}
use scrollviewer.Data.Pipeline.Run.{start, IsSound, run-IsSound}
use scrollviewer.Data.Pipeline.Progress.{run_progress}
use scrollviewer.Data.Pipeline.Wanted.{epoch_of, submit-IsWanted}
use scrollviewer.Data.Pipeline.Stops.{Others}
use scrollviewer.Base.{length}
use scrollviewer.Data.Pipeline.{on_fetch_done, fetch_outcome}
use scrollviewer.Data.Pipeline.Teardown.{begin_teardown, stop_all}

instance pub numbers : FloatOrder ℕ
numbers = record { lt = ltb; eq = λ m n. m == n; eq_refl = λ p. ground arith }

-- A volume of 8-bit chunks of 4 bytes that are stored as they are.
abbrev pub plain : Volume
plain = record {
  chunk_bytes = λ l. 4;
  dtype = λ l. Dtype.u8;
  fill_byte = λ l. 0;
  decode = λ l bytes n. some bytes;
  chunk_store_key = λ c. "0/0/0";
}

abbrev pub brick : ℕ → BrickKey
brick x = record { volume_id = 1; coord = record { level = 0; z = 0; y = 0; x = x } }

abbrev pub config : Config
config = record { max_inflight_fetches = 1; max_queued_decodes = 2; max_ready_pinned_bytes = 100 }

abbrev wanted : List (BrickRequest ℕ)
wanted = record { key = brick 0; priority = 5 } ∷ record { key = brick 1; priority = 3 } ∷ []

abbrev pub ram : RamCache
ram = LruCache.init 100

-- Two requests, of which the second one waits.
abbrev asked : List (Event ℕ)
asked = Event.submits wanted ∷ []

-- The first one is fetched, decoded and published; the second one takes its place, and is not found.
abbrev served : List (Event ℕ)
served =
    Event.submits wanted
    ∷ Event.calls_back 0 (StoreResult.bytes (1 ∷ 2 ∷ 3 ∷ 4 ∷ []))
    ∷ Event.decodes 0
    ∷ Event.publishes 0
    ∷ Event.calls_back 0 (StoreResult.error Kind.not_found)
    ∷ Event.drains
    ∷ Event.unpins (brick 0)
    ∷ []

unfoldable pub program : Unit {0}
unfolding init start run step submit submit_all submit_one cancel pump pump_loop pump_one issue
    push_request heap_push less below_caps contains Assoc.lookup Assoc.insert Assoc.erase key_dec
    coord_dec ℕ_discrete packed
program = tt

abbrev asked_pipe : Pipeline ℕ
asked_pipe = (run plain (start config 0 8 ram) asked).pipe

asked_counts : asked_pipe.inflight_fetches ≡ 1
unfolding program numbers
asked_counts = refl

run-IsSound_example : IsSound (run plain (start {P = ℕ} config 0 8 ram) served)
run-IsSound_example = run-IsSound plain config 0 8 ram served

abbrev waiting : Tracked ℕ
waiting = record { priority = 3; epoch = 1; state = State.queued; stop = none }

found_waiting : find (brick 1) asked_pipe ≡ some waiting
unfolding program numbers
found_waiting = refl

run_progress_example : (below_caps asked_pipe ≡ false) ⊎ (0 < asked_pipe.queued_decodes)
run_progress_example = run_progress plain config 0 8 ram asked (brick 1) waiting found_waiting refl

abbrev fresh : Pipeline ℕ
fresh = init config 0 8

fresh-Distinct : Assoc.Distinct key_dec fresh.tracked
unfolding init
fresh-Distinct = tt

fresh_small : fresh.current_epoch + 2 < u64_mod
unfolding init
fresh_small = omega arith

submit-IsWanted_example :
    All
      (λ (r : BrickRequest ℕ).
        epoch_of (find r.key (submit plain wanted fresh)) ≡ some (fresh.current_epoch + 1))
      wanted
submit-IsWanted_example = submit-IsWanted plain wanted fresh fresh-Distinct fresh_small

abbrev under_way : Tracked ℕ
under_way = record { priority = 5; epoch = 1; state = State.fetching; stop = some 0 }

found_under_way : find (brick 0) asked_pipe ≡ some under_way
unfolding program numbers
found_under_way = refl

brick-InRange : (x : ℕ) → x < 2 ^ 17 → InRange (brick x)
brick-InRange x h = record {
  volume_fits = omega arith;
  level_fits = omega arith;
  z_fits = omega arith;
  y_fits = omega arith;
  x_fits = h;
}

abbrev later : List (BrickRequest ℕ)
later = record { key = brick 1; priority = 3 } ∷ []

later-Others : Others (brick 0) later
later-Others = ((brick-InRange 1 (omega arith), ground arith), tt)

packed-injective_example : brick 3 ≡ brick 3
packed-injective_example =
    packed-injective (brick 3) (brick 3) (brick-InRange 3 (omega arith))
      (brick-InRange 3 (omega arith)) refl

-- The destructor has begun, and the fetch that it cancelled comes back.
abbrev torn_down : Pipeline ℕ
torn_down =
    on_fetch_done plain (brick 0) (StoreResult.error Kind.cancelled)
      (record (begin_teardown asked_pipe) { reads = [] })

-- Then the request that waited is fetched, and nothing tells this fetch to stop.
fetched_late : length torn_down.reads ≡ 1
unfolding program numbers begin_teardown stop_all on_fetch_done fetch_outcome
fetched_late = refl

not_stopped : contains 1 torn_down.stopped ≡ false
unfolding program numbers begin_teardown stop_all on_fetch_done fetch_outcome
not_stopped = refl
