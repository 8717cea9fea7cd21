-- ===== src/Store/Http/Finish.antt =====
-- src/store/HttpStore.cpp, `finishTransfer`: what a callback is called with.
use scrollviewer.Base.{
  ℕ, ◌+◌, ◌<◌, ◌≤◌, ◌≡◌, ◌≢◌, ◌↔◌, ◌⊎◌, inl, inr, true, false, List, [], ◌∷◌, ◌++◌, arith,
  Bool-cases,
}
use scrollviewer.Data.Pipeline.{Kind, StoreResult}
use scrollviewer.Store.Http.{
  Transfer, HttpStore, final_result, should_retry, is_stopped, finish_transfer, answer,
}

-- What the end of a transfer means to the reader of a volume.
pub record Meaning (rc status : ℕ) (received : List ℕ) (r : StoreResult) : Type 0 where
  pub bytes_mean :
      (bs : List ℕ)
      → (r ≡ StoreResult.bytes bs) ↔ ((rc ≡ 0) × (200 ≤ status) × (status < 300) × (bs ≡ received))
  pub missing_means :
      (r ≡ StoreResult.error Kind.not_found) ↔ ((rc ≡ 0) × ((status ≡ 404) ⊎ (status ≡ 403)))
  pub auth_means : (r ≡ StoreResult.error Kind.auth) ↔ ((rc ≡ 0) × (status ≡ 401))

final_result-Meaning :
    (rc status : ℕ) (received : List ℕ)
    → Meaning rc status received (final_result rc status received)
unfolding final_result
final_result-Meaning rc status received = record {
  bytes_mean = λ bs. ground arith;
  missing_means = ground arith;
  auth_means = ground arith;
}

-- The request goes to the retry queue, for one more try, and nothing is called.
abbrev pub Retried : Transfer → ℕ → ℕ → HttpStore → Type 0
Retried t rc status s =
    ((rc ≢ 0) ⊎ ((500 ≤ status) ⊎ (status ≡ 429)))
    × (t.request.attempt + 1 < s.max_retries)
    × (is_stopped t.request s ≡ false)
    × ((finish_transfer t rc status s).calls ≡ s.calls)
    × ((finish_transfer t rc status s).retry_queue
        ≡ s.retry_queue ++ record t.request { attempt = t.request.attempt + 1 } ∷ [])

-- The callback is called, once, and the retry queue is as it was.
abbrev pub Ended : Transfer → ℕ → ℕ → HttpStore → Type 0
Ended t rc status s =
    (((rc ≡ 0) × (status < 500) × (status ≢ 429))
      ⊎ ((s.max_retries ≤ t.request.attempt + 1) ⊎ (is_stopped t.request s ≡ true)))
    × ((finish_transfer t rc status s).retry_queue ≡ s.retry_queue)
    × ((result : StoreResult) × ((finish_transfer t rc status s).calls
          ≡ record { callback = t.request.callback; result = result } ∷ s.calls)
        × Meaning rc status t.received result)

-- A transfer that ends is tried again exactly when it failed on the way or the server was too busy, tries are
-- left, and it was not asked to stop; then no callback is called. Otherwise its callback is called once, with
-- the bytes exactly when the transfer succeeded with a status from 200 to 299, with "not found" exactly on
-- 404 and 403, and with "authentication" exactly on 401.
pub finish_transfer_cases :
    (t : Transfer) (rc status : ℕ) (s : HttpStore) → Retried t rc status s ⊎ Ended t rc status s
unfolding finish_transfer should_retry answer
finish_transfer_cases t rc status s = elim (Bool-cases (should_retry t.request rc status s)) [
  | inl again ↦ inl (ground arith, ground arith, ground arith, ground arith, ground arith)
  | inr over ↦ inr (
    ground arith,
    ground arith,
    (final_result rc status t.received, ground arith, final_result-Meaning rc status t.received),
  )
]
