-- ===== src/Store/Http/Shutdown.antt =====
-- src/store/HttpStore.cpp: what is called when the loop has ended.
use scrollviewer.Base.{ℕ, ◌+◌, ◌≡◌, refl, ap, ◌∙◌, List, [], ◌∷◌, arith}
use scrollviewer.Data.Pipeline.{Kind, StoreResult}
use scrollviewer.Store.Http.{
  HttpConfig, Request, Transfer, HttpStore, init, answer, Event, run, fail_transfers, fail_requests,
  shutdown,
}
use scrollviewer.Store.Http.Balance.{
  in_requests, in_transfers, waiting, called, submitted, run_from-balance,
}

fail_transfers-called :
    (i : ℕ) (ts : List Transfer) (s : HttpStore)
    → (called i (fail_transfers ts s) ≡ called i s + in_transfers i ts)
      × ((fail_transfers ts s).retry_queue ≡ s.retry_queue)
unfolding fail_transfers answer
fail_transfers-called i [] s = (omega arith, refl)
fail_transfers-called i (t ∷ ts) s =
    let (rest, same) =
      fail_transfers-called i ts (answer t.request (StoreResult.error Kind.cancelled) s) in
    (omega (arith, rest), same)

fail_requests-called :
    (i : ℕ) (rs : List Request) (s : HttpStore)
    → (called i (fail_requests rs s) ≡ called i s + in_requests i rs)
      × ((fail_requests rs s).retry_queue ≡ s.retry_queue)
unfolding fail_requests answer
fail_requests-called i [] s = (omega arith, refl)
fail_requests-called i (r ∷ rs) s =
    let (rest, same) = fail_requests-called i rs (answer r (StoreResult.error Kind.cancelled) s) in
    (omega (arith, rest), same)

-- When the loop has ended, each callback has been called as often as it was submitted, but for the requests
-- that were waiting for a retry: these are left in their queue, and their callbacks are not called.
pub shutdown-called :
    (config : HttpConfig) (i : ℕ) (es : List Event)
    → let s = run (init config) es in
      (called i (shutdown s) + in_requests i s.retry_queue ≡ submitted i es)
      × (waiting i (shutdown s) ≡ in_requests i s.retry_queue)
unfolding shutdown init
shutdown-called config i es =
    let s = run (init config) es in
    let (told, same) = fail_transfers-called i s.active s in
    let (told', same') = fail_requests-called i s.pending (fail_transfers s.active s) in
    (
      omega (arith, told, told', run_from-balance i (init config) es),
      omega (arith, ap (in_requests i) (same' ∙ same)),
    )
