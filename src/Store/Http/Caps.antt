-- ===== src/Store/Http/Caps.antt =====
-- src/store/HttpStore.cpp: how many transfers there are at a time, and how often a request is tried.

use scrollviewer.Base.{
  ℕ, ◌+◌, ◌<◌, ◌≤◌, ◌≡◌, refl, ◌⊎◌, inl, inr, true, some, List, [], ◌∷◌, ◌++◌, arith, length, All,
  Option-cases, Bool-cases,
}
use scrollviewer.Data.Pipeline.{Kind, StoreResult}
use scrollviewer.Store.Http.{
  HttpConfig, Request, Transfer, HttpStore, init, submit, answer, is_stopped, start_transfer,
  has_room, admit_loop, retry_loop, drop_loop, append_received, take_transfer, should_retry,
  finish_transfer, reap, Event, step, run,
}

-- The first try of a request, or one below the limit.
abbrev pub Allowed : ℕ → Request → Type 0
Allowed n r = (r.attempt ≡ 0) ⊎ (r.attempt < n)

pub record Capped (config : HttpConfig) (s : HttpStore) : Type 0 where
  pub same_config : s.config ≡ config
  pub few : length s.active ≤ config.max_concurrent_streams
  pub pending_allowed : All (Allowed config.max_retries) s.pending
  pub active_allowed : All (λ (t : Transfer). Allowed config.max_retries t.request) s.active
  pub retry_allowed : All (Allowed config.max_retries) s.retry_queue

All-append : {A : Type 0} (P : A → Type 0) (xs ys : List A) → All P xs → All P ys → All P (xs ++ ys)
All-append P [] ys p q = q
All-append P (x ∷ xs) ys p q = (p.0, All-append P xs ys p.1 q)

module _ (config : HttpConfig) where
  start_transfer-Capped :
      (r : Request) (s : HttpStore)
      → Capped config s
      → Allowed config.max_retries r
      → has_room s ≡ true
      → Capped config (start_transfer r s)
  unfolding start_transfer answer has_room
  start_transfer-Capped r s v h room = ground (arith, v)

  admit_loop-Capped :
      (rs : List Request) (s : HttpStore)
      → Capped config s
      → All (Allowed config.max_retries) rs
      → Capped config (admit_loop rs s)
  unfolding admit_loop
  admit_loop-Capped [] s v h = ground (arith, v)
  admit_loop-Capped (r ∷ rs) s v h = elim (Bool-cases (has_room s)) [
    | inl room ↦
        rw (admit_loop, room)
          (admit_loop-Capped rs (start_transfer r s) (start_transfer-Capped r s v h.0 room) h.1)
    | inr full ↦ rw (admit_loop, full) (ground (arith, v, h))
  ]

  retry_loop-Capped :
      (rs : List Request) (s : HttpStore)
      → Capped config s
      → All (Allowed config.max_retries) rs
      → Capped config (retry_loop rs s)
  unfolding retry_loop
  retry_loop-Capped [] s v h = ground (arith, v)
  retry_loop-Capped (r ∷ rs) s v h = elim (Bool-cases (has_room s)) [
    | inl room ↦
        rw (retry_loop, room)
          (retry_loop-Capped rs (start_transfer r s) (start_transfer-Capped r s v h.0 room) h.1)
    | inr full ↦ rw (retry_loop, full) (ground (arith, v, h))
  ]

  -- `drop_loop` keeps some of the transfers that it is given.
  drop_loop-Capped :
      (ts : List Transfer) (s : HttpStore)
      → Capped config s
      → length ts ≤ config.max_concurrent_streams
      → All (λ (t : Transfer). Allowed config.max_retries t.request) ts
      → Capped config (drop_loop ts s) × (length (drop_loop ts s).active ≤ length ts)
  unfolding drop_loop answer
  drop_loop-Capped [] s v few h = (ground (arith, v), omega arith)
  drop_loop-Capped (t ∷ ts) s v few h = elim (Bool-cases (is_stopped t.request s)) [
    | inl gone ↦
        let (w, shorter) =
          drop_loop-Capped ts (answer t.request (StoreResult.error Kind.cancelled) s)
            (ground (arith, v)) (omega arith) h.1 in
        rw (drop_loop, gone) (ground (arith, w), omega (arith, shorter))
    | inr stays ↦
        let (w, shorter) = drop_loop-Capped ts s v (omega arith) h.1 in
        rw (drop_loop, stays) (ground (arith, w, shorter, h), omega (arith, shorter))
  ]

  append_received-Allowed :
      (n h : ℕ) (bytes : List ℕ) (ts : List Transfer)
      → All (λ (t : Transfer). Allowed n t.request) ts
      → All (λ (t : Transfer). Allowed n t.request) (append_received h bytes ts)
        × (length (append_received h bytes ts) ≡ length ts)
  unfolding append_received
  append_received-Allowed n h bytes [] a = (tt, refl)
  append_received-Allowed n h bytes (t ∷ ts) a =
      ground (arith, a, append_received-Allowed n h bytes ts a.1)

  take_transfer-Allowed :
      (n h : ℕ) (ts us : List Transfer) (t : Transfer)
      → take_transfer h ts ≡ some (t, us)
      → All (λ (t : Transfer). Allowed n t.request) ts
      → Allowed n t.request
        × All (λ (t : Transfer). Allowed n t.request) us
        × (length ts ≡ length us + 1)
  unfolding take_transfer
  take_transfer-Allowed n h [] us t e a = absurd (cc)
  take_transfer-Allowed n h (v ∷ ts) us t e a = elim (Option-cases (take_transfer h ts)) [
    | inl f ↦ ground (arith, f, a)
    | inr ((u, rest), f) ↦ ground (arith, f, a, take_transfer-Allowed n h ts rest u f a.1)
  ]

  finish_transfer-Capped :
      (t : Transfer) (rc status : ℕ) (s : HttpStore)
      → Capped config s
      → Allowed config.max_retries t.request
      → Capped config (finish_transfer t rc status s)
  unfolding finish_transfer should_retry answer
  finish_transfer-Capped t rc status s v a =
      let again : Request = record t.request { attempt = t.request.attempt + 1 } in
      ground (
        arith,
        v,
        All-append (Allowed config.max_retries) s.retry_queue (again ∷ []) v.retry_allowed,
      )

  reap-Capped :
      (h rc status : ℕ) (s : HttpStore) → Capped config s → Capped config (reap h rc status s)
  unfolding reap
  reap-Capped h rc status s v = elim (Option-cases (take_transfer h s.active)) [
    | inl e ↦ rw (e, reap) v
    | inr ((t, rest), e) ↦
        let (a, b, c) =
          take_transfer-Allowed config.max_retries h s.active rest t e v.active_allowed in
        rw (e, reap)
          (finish_transfer-Capped t rc status (record s { active = rest }) (ground (arith, v, b, c))
            a)
  ]

  step-Capped : (s : HttpStore) (e : Event) → Capped config s → Capped config (step s e)
  unfolding step submit
  step-Capped s (Event.submits key range stop callback) v =
      let r : Request = record {
        key = key;
        range = range;
        stop = stop;
        callback = callback;
        attempt = 0;
      } in
      ground
        (arith, v, All-append (Allowed config.max_retries) s.pending (r ∷ []) v.pending_allowed)
  step-Capped s (Event.stops n) v = ground (arith, v)
  step-Capped s Event.admits v = admit_loop-Capped s.pending s v v.pending_allowed
  step-Capped s Event.retries v = retry_loop-Capped s.retry_queue s v v.retry_allowed
  step-Capped s Event.drops v = (drop_loop-Capped s.active s v v.few v.active_allowed).0
  step-Capped s (Event.delivers h bytes) v =
      ground
        (arith, v, append_received-Allowed config.max_retries h bytes s.active v.active_allowed)
  step-Capped s (Event.reports h rc status) v = reap-Capped h rc status s v

  run_from-Capped : (s : HttpStore) (es : List Event) → Capped config s → Capped config (run s es)
  unfolding run
  run_from-Capped s [] v = v
  run_from-Capped s (e ∷ es) v = run_from-Capped (step s e) es (step-Capped s e v)

  -- Whatever happens, there are never more transfers than the configured streams, and every request that
  -- waits or is under way is at its first try or below the configured number of tries.
  pub run-Capped : (es : List Event) → Capped config (run (init config) es)
  unfolding init
  run-Capped es = run_from-Capped (init config) es (record {
    same_config = refl;
    few = omega arith;
    pending_allowed = tt;
    active_allowed = tt;
    retry_allowed = tt;
  })
