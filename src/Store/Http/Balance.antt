-- ===== src/Store/Http/Balance.antt =====
-- src/store/HttpStore.cpp: where a request is, from its submission to its callback.

use scrollviewer.Base.{
  ℕ, ◌+◌, ◌≡◌, refl, some, List, [], ◌∷◌, ◌==◌, if◌then◌else◌, arith, total, total-append,
  Option-cases, inl, inr,
}
use scrollviewer.Data.Pipeline.{Kind, StoreResult}
use scrollviewer.Store.Http.{
  HttpConfig, Request, Transfer, Call, HttpStore, init, submit, answer, is_stopped, start_transfer,
  admit_loop, retry_loop, drop_loop, append_received, take_transfer, finish_transfer, reap, Event,
  step, run,
}

abbrev pub one_if : ℕ → ℕ → ℕ
one_if i j = if i == j then 1 else 0

abbrev pub in_requests : ℕ → List Request → ℕ
in_requests i = total (λ (r : Request). one_if i r.callback)

abbrev pub in_transfers : ℕ → List Transfer → ℕ
in_transfers i = total (λ (t : Transfer). one_if i t.request.callback)

-- How often a callback waits in one of the three places, and how often it was called.
abbrev pub waiting : ℕ → HttpStore → ℕ
waiting i s = in_requests i s.pending + in_transfers i s.active + in_requests i s.retry_queue

abbrev pub called : ℕ → HttpStore → ℕ
called i s = total (λ (c : Call). one_if i c.callback) s.calls

abbrev pub balance : ℕ → HttpStore → ℕ
balance i s = waiting i s + called i s

abbrev pub by_event : ℕ → Event → ℕ
by_event i (Event.submits key range stop callback) = one_if i callback
by_event i _ = 0

-- How often the events submit a callback.
abbrev pub submitted : ℕ → List Event → ℕ
submitted i = total (by_event i)

-- A started request is under way or answered; its two queues are as they were.
start_transfer-balance :
    (i : ℕ) (r : Request) (s : HttpStore)
    → balance i (start_transfer r s) ≡ balance i s + one_if i r.callback
unfolding start_transfer answer
start_transfer-balance i r s = ground arith

admit_loop-balance :
    (i : ℕ) (rs : List Request) (s : HttpStore)
    → balance i (admit_loop rs s) + in_requests i s.pending ≡ balance i s + in_requests i rs
unfolding admit_loop start_transfer answer
admit_loop-balance i [] s = omega arith
admit_loop-balance i (r ∷ rs) s =
    ground (arith, start_transfer-balance i r s, admit_loop-balance i rs (start_transfer r s))

retry_loop-balance :
    (i : ℕ) (rs : List Request) (s : HttpStore)
    → balance i (retry_loop rs s) + in_requests i s.retry_queue ≡ balance i s + in_requests i rs
unfolding retry_loop start_transfer answer
retry_loop-balance i [] s = omega arith
retry_loop-balance i (r ∷ rs) s =
    ground (arith, start_transfer-balance i r s, retry_loop-balance i rs (start_transfer r s))

drop_loop-balance :
    (i : ℕ) (ts : List Transfer) (s : HttpStore)
    → balance i (drop_loop ts s) + in_transfers i s.active ≡ balance i s + in_transfers i ts
unfolding drop_loop answer is_stopped
drop_loop-balance i [] s = omega arith
drop_loop-balance i (t ∷ ts) s = ground (
  arith,
  drop_loop-balance i ts s,
  drop_loop-balance i ts (answer t.request (StoreResult.error Kind.cancelled) s),
)

append_received_transfers :
    (i h : ℕ) (bytes : List ℕ) (ts : List Transfer)
    → in_transfers i (append_received h bytes ts) ≡ in_transfers i ts
unfolding append_received
append_received_transfers i h bytes [] = refl
append_received_transfers i h bytes (t ∷ ts) =
    ground (arith, append_received_transfers i h bytes ts)

take_transfer_total :
    (i h : ℕ) (ts us : List Transfer) (t : Transfer)
    → take_transfer h ts ≡ some (t, us)
    → in_transfers i ts ≡ one_if i t.request.callback + in_transfers i us
unfolding take_transfer
take_transfer_total i h [] us t e = absurd (cc)
take_transfer_total i h (v ∷ ts) us t e = elim (Option-cases (take_transfer h ts)) [
  | inl f ↦ ground (arith, f)
  | inr ((u, rest), f) ↦ ground (arith, f, take_transfer_total i h ts rest u f)
]

finish_transfer-balance :
    (i : ℕ) (t : Transfer) (rc status : ℕ) (s : HttpStore)
    → balance i (finish_transfer t rc status s) ≡ balance i s + one_if i t.request.callback
unfolding finish_transfer answer
finish_transfer-balance i t rc status s =
    let again : Request = record t.request { attempt = t.request.attempt + 1 } in
    ground (arith, total-append (λ (r : Request). one_if i r.callback) s.retry_queue (again ∷ []))

reap-balance : (i h rc status : ℕ) (s : HttpStore) → balance i (reap h rc status s) ≡ balance i s
unfolding reap
reap-balance i h rc status s = elim (Option-cases (take_transfer h s.active)) [
  | inl e ↦ rw (e, reap) refl
  | inr ((t, rest), e) ↦
      rw (e, reap)
        (omega (
          arith,
          finish_transfer-balance i t rc status (record s { active = rest }),
          take_transfer_total i h s.active rest t e,
        ))
]

step-balance :
    (i : ℕ) (s : HttpStore) (e : Event) → balance i (step s e) ≡ balance i s + by_event i e
unfolding step submit
step-balance i s (Event.submits key range stop callback) =
    let r : Request = record {
      key = key;
      range = range;
      stop = stop;
      callback = callback;
      attempt = 0;
    } in
    omega (arith, total-append (λ (r : Request). one_if i r.callback) s.pending (r ∷ []))
step-balance i s (Event.stops n) = omega arith
step-balance i s Event.admits = omega (arith, admit_loop-balance i s.pending s)
step-balance i s Event.retries = omega (arith, retry_loop-balance i s.retry_queue s)
step-balance i s Event.drops = omega (arith, drop_loop-balance i s.active s)
step-balance i s (Event.delivers h bytes) =
    omega (arith, append_received_transfers i h bytes s.active)
step-balance i s (Event.reports h rc status) = omega (arith, reap-balance i h rc status s)

pub run_from-balance :
    (i : ℕ) (s : HttpStore) (es : List Event) → balance i (run s es) ≡ balance i s + submitted i es
unfolding run
run_from-balance i s [] = omega arith
run_from-balance i s (e ∷ es) = omega (arith, step-balance i s e, run_from-balance i (step s e) es)

-- Whatever happens, in whatever order, each submission of a callback is accounted for: it waits once, as
-- pending, active or to be retried, or it has been called once.
pub run-balance :
    (config : HttpConfig) (i : ℕ) (es : List Event)
    → waiting i (run (init config) es) + called i (run (init config) es) ≡ submitted i es
unfolding init
run-balance config i es = omega (arith, run_from-balance i (init config) es)
