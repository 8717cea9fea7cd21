-- ===== src/Store/Http.antt =====
-- src/store/HttpStore.h and HttpStore.cpp. One thread runs `loop`; `submit` comes from other threads, under
-- the mutex. What curl does with a transfer is an event: it delivers bytes, or reports the end.
pub mod Balance
pub mod Caps
pub mod Shutdown
pub mod Finish
pub mod Tests
use Prim.Native.String.{String}
use scrollviewer.Base.{
  ℕ, zero, suc, ◌+◌, ◌-◌, ◌%◌, Bool, true, false, not, ◌&&◌, ◌||◌, Option, none, some, List, [],
  ◌∷◌, ◌++◌, ltb, leb, ◌==◌, if◌then◌else◌, length, u64_mod, add64, sub64,
}
use scrollviewer.Data.Pipeline.{Kind, StoreResult, contains}

pub record HttpConfig : Type 0 where
  pub max_concurrent_streams : ℕ
  pub max_retries : ℕ

-- `callback` names the `StoreCallback`, and `stop` the stop source behind the token. `range` is the first
-- and the last byte that are asked for.
pub record Request : Type 0 where
  pub key : String
  pub range : Option (ℕ × ℕ)
  pub stop : ℕ
  pub callback : ℕ
  pub attempt : ℕ

-- `handle` names the `CURL*`.
pub record Transfer : Type 0 where
  pub handle : ℕ
  pub request : Request
  pub received : List ℕ

pub record Call : Type 0 where
  pub callback : ℕ
  pub result : StoreResult

-- `calls` lists the callbacks that were called, the last one first; `stopped` the stop sources that were
-- asked to stop; `next_handle` is what `curl_easy_init` returns next.
pub record HttpStore : Type 0 where
  pub config : HttpConfig
  pub open config use *
  pub pending : List Request
  pub active : List Transfer
  pub retry_queue : List Request
  pub calls : List Call
  pub stopped : List ℕ
  pub next_handle : ℕ

unfoldable pub init : HttpConfig → HttpStore
init config = record {
  config = config;
  pending = [];
  active = [];
  retry_queue = [];
  calls = [];
  stopped = [];
  next_handle = 0;
}

unfoldable pub submit : String → Option (ℕ × ℕ) → ℕ → ℕ → HttpStore → HttpStore
submit key range stop callback s = record s {
  pending =
      s.pending
      ++ record { key = key; range = range; stop = stop; callback = callback; attempt = 0 } ∷ [];
}

unfoldable pub read : String → ℕ → ℕ → HttpStore → HttpStore
read key stop callback s = submit key none stop callback s

-- Both ends of the range are included; the subtraction is in 64 bits.
unfoldable pub read_range : String → ℕ → ℕ → ℕ → ℕ → HttpStore → HttpStore
read_range key offset count stop callback s =
    submit key (some (offset, sub64 (add64 offset count) 1)) stop callback s

unfoldable pub answer : Request → StoreResult → HttpStore → HttpStore
answer r result s = record s { calls = record { callback = r.callback; result = result } ∷ s.calls }

unfoldable pub is_stopped : Request → HttpStore → Bool
is_stopped r s = contains r.stop s.stopped

unfoldable pub start_transfer : Request → HttpStore → HttpStore
start_transfer r s =
    if is_stopped r s then answer r (StoreResult.error Kind.cancelled) s else record s {
      active = record { handle = s.next_handle; request = r; received = [] } ∷ s.active;
      next_handle = s.next_handle + 1;
    }

unfoldable pub has_room : HttpStore → Bool
has_room s = ltb (length s.active) s.max_concurrent_streams

-- The loop over `pending_`, and the one over `retryQueue`.
unfoldable pub admit_loop : List Request → HttpStore → HttpStore
admit_loop [] s = record s { pending = [] }
admit_loop (r ∷ rs) s =
    let rest = admit_loop rs (start_transfer r s) in
    if has_room s then rest else record s { pending = r ∷ rs }

unfoldable pub retry_loop : List Request → HttpStore → HttpStore
retry_loop [] s = record s { retry_queue = [] }
retry_loop (r ∷ rs) s =
    let rest = retry_loop rs (start_transfer r s) in
    if has_room s then rest else record s { retry_queue = r ∷ rs }

-- The loop that drops cancelled transfers.
unfoldable pub drop_loop : List Transfer → HttpStore → HttpStore
drop_loop [] s = record s { active = [] }
drop_loop (t ∷ ts) s =
    let rest = drop_loop ts (
      if is_stopped t.request s
      then answer t.request (StoreResult.error Kind.cancelled) s
      else s) in
    if is_stopped t.request s then rest else record rest { active = t ∷ rest.active }

-- `writeCallback`, on the transfer with the handle.
unfoldable pub append_received : ℕ → List ℕ → List Transfer → List Transfer
append_received h bytes [] = []
append_received h bytes (t ∷ ts) =
    if t.handle == h
    then record t { received = t.received ++ bytes } ∷ ts
    else t ∷ append_received h bytes ts

-- `active.find`, and the transfers without it.
unfoldable pub take_transfer : ℕ → List Transfer → Option (Transfer × List Transfer)
take_transfer h [] = none
take_transfer h (t ∷ ts) =
    let rest = take_transfer h ts in
    if t.handle == h
    then some (t, ts)
    else (elim rest [ none ↦ none | some (u, us) ↦ some (u, t ∷ us) ])

-- The result with which `finishTransfer` ends a transfer that is not retried; a transport error is
-- a `CURLcode` other than 0.
unfoldable pub final_result : ℕ → ℕ → List ℕ → StoreResult
final_result rc status received =
    if not (rc == 0)
    then StoreResult.error Kind.http
    else (if status == 404 || status == 403
        then StoreResult.error Kind.not_found
        else (if status == 401
            then StoreResult.error Kind.auth
            else (if ltb status 200 || leb 300 status
                then StoreResult.error Kind.http
                else StoreResult.bytes received)))

unfoldable pub should_retry : Request → ℕ → ℕ → HttpStore → Bool
should_retry r rc status s =
    (not (rc == 0) || (leb 500 status || status == 429))
    && (ltb (r.attempt + 1) s.max_retries && not (is_stopped r s))

unfoldable pub finish_transfer : Transfer → ℕ → ℕ → HttpStore → HttpStore
finish_transfer t rc status s =
    if should_retry t.request rc status s
    then record s {
      retry_queue = s.retry_queue ++ record t.request { attempt = t.request.attempt + 1 } ∷ [];
    }
    else answer t.request (final_result rc status t.received) s

-- One message of `curl_multi_info_read`: the handle, its result code and its status.
unfoldable pub reap : ℕ → ℕ → ℕ → HttpStore → HttpStore
reap h rc status s = elim (take_transfer h s.active) [
  | none ↦ s
  | some (t, rest) ↦ finish_transfer t rc status (record s { active = rest })
]

-- What happens next. A round of `loop` is an `admits`, a `retries` and a `drops`, and then what
-- `curl_multi_perform` delivers and `curl_multi_info_read` reports; the other threads submit and stop in
-- between.
pub data Event : Type 0 where
  submits : String → Option (ℕ × ℕ) → ℕ → ℕ → Event
  stops : ℕ → Event
  admits retries drops : Event
  delivers : ℕ → List ℕ → Event
  reports : ℕ → ℕ → ℕ → Event

unfoldable pub step : HttpStore → Event → HttpStore
step s (submits key range stop callback) = submit key range stop callback s
step s (stops i) = record s { stopped = i ∷ s.stopped }
step s admits = admit_loop s.pending s
step s retries = retry_loop s.retry_queue s
step s drops = drop_loop s.active s
step s (delivers h bytes) = record s { active = append_received h bytes s.active }
step s (reports h rc status) = reap h rc status s

unfoldable pub run : HttpStore → List Event → HttpStore
run s [] = s
run s (e ∷ es) = run (step s e) es

-- One round of `loop`, given what curl does in it.
unfoldable pub loop_round : List Event → HttpStore → HttpStore
loop_round performed s = run s (admits ∷ retries ∷ drops ∷ performed)

-- After the loop: what is active and what is pending is failed.
unfoldable pub fail_transfers : List Transfer → HttpStore → HttpStore
fail_transfers [] s = s
fail_transfers (t ∷ ts) s =
    fail_transfers ts (answer t.request (StoreResult.error Kind.cancelled) s)

unfoldable pub fail_requests : List Request → HttpStore → HttpStore
fail_requests [] s = s
fail_requests (r ∷ rs) s = fail_requests rs (answer r (StoreResult.error Kind.cancelled) s)

unfoldable pub shutdown : HttpStore → HttpStore
shutdown s =
    let s' = fail_requests s.pending (fail_transfers s.active s) in
    record s' { pending = []; active = [] }
