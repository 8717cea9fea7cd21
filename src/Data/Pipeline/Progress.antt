-- ===== src/Data/Pipeline/Progress.antt =====
-- src/data/ChunkFetchPipeline.cpp: the pipeline never stops while there is something to fetch.
use scrollviewer.Base.{
  ℕ, ◌-◌, ◌<◌, ◌≡◌, ◌⊎◌, inl, inr, refl, true, false, some, List, [], ◌∷◌, arith, take_at,
  Option-cases,
}
use scrollviewer.Data.BrickKey.{BrickKey}
use scrollviewer.Data.RamCache.{RamCache}
use scrollviewer.Data.Volume.{Volume}
use scrollviewer.Data.Pipeline.{
  FloatOrder, Config, State, Tracked, Pipeline, StoreResult, Kind, find, drop, below_caps, pump,
  submit, start_decode, fetch_outcome, on_fetch_done, decode_failed, publish, drain_ready, unpin,
  init,
}
use scrollviewer.Data.Pipeline.Invariant.{has_entry}
use scrollviewer.Data.Pipeline.Pump.{pump_ends}
use scrollviewer.Data.Pipeline.Run.{start, run-IsSound}
use scrollviewer.Data.Pipeline.System.{
  System, Event, Publishing, call_back, decode, publish_one, publish_at, step, run,
}

module _ {P : Type 0} ⦃f : FloatOrder P⦄ (vol : Volume) where
  -- The heap is empty, a cap is reached, or a decode is under way, which will pump.
  abbrev IsBusy : Pipeline P → Type 0
  IsBusy s = (s.heap ≡ []) ⊎ ((below_caps s ≡ false) ⊎ (0 < s.queued_decodes))

  pump-IsBusy : (s : Pipeline P) → IsBusy (pump vol s)
  pump-IsBusy s = elim (pump_ends vol s) [
    | inl full ↦ inr (inl full)
    | inr none_left ↦ inl none_left
  ]

  fetch_outcome-IsBusy :
      (k : BrickKey) (r : StoreResult) (s : Pipeline P) → IsBusy (fetch_outcome vol k r s)
  unfolding fetch_outcome
  fetch_outcome-IsBusy k r s = elim (Option-cases (find k s)) [
    | inl e ↦ rw (e, fetch_outcome) (pump-IsBusy s)
    | inr (t, e) ↦ rw (e, fetch_outcome) (answered t r)
  ]
    where
      answered :
          (t : Tracked P) (r : StoreResult)
          → IsBusy (elim r as (λ _. Pipeline P) [
            | StoreResult.bytes b ↦ start_decode vol k t b false s
            | StoreResult.error Kind.not_found ↦ start_decode vol k t [] true s
            | StoreResult.error _ ↦ pump vol (drop k s)
          ])
      answered t (StoreResult.bytes b) = inr (inr (omega arith))
      answered t (StoreResult.error Kind.not_found) = inr (inr (omega arith))
      answered t (StoreResult.error _) = pump-IsBusy _

  on_fetch_done-IsBusy :
      (k : BrickKey) (r : StoreResult) (s : Pipeline P) → IsBusy (on_fetch_done vol k r s)
  unfolding on_fetch_done below_caps
  on_fetch_done-IsBusy k r s =
      fetch_outcome-IsBusy k r (record s { inflight_fetches = s.inflight_fetches - 1 })

  publish_one-IsBusy : (p : Publishing) (s : Pipeline P) → IsBusy (publish_one vol p s)
  unfolding publish_one decode_failed publish
  publish_one-IsBusy p s = elim (Option-cases p.brick) [
    | inl e ↦ rw (e, publish_one) (pump-IsBusy _)
    | inr (b, e) ↦ rw (e, publish_one) (pump-IsBusy _)
  ]

  call_back-IsBusy :
      (i : ℕ) (r : StoreResult) (s : System P) → IsBusy s.pipe → IsBusy (call_back vol i r s).pipe
  unfolding call_back
  call_back-IsBusy i r s b = elim (Option-cases (take_at i s.pipe.reads)) [
    | inl e ↦ rw (e, call_back) b
    | inr ((read, rest), e) ↦ rw (e, call_back) (on_fetch_done-IsBusy read.key r _)
  ]

  decode-IsBusy : (i : ℕ) (s : System P) → IsBusy s.pipe → IsBusy (decode vol i s).pipe
  unfolding decode below_caps
  decode-IsBusy i s b = elim (Option-cases (take_at i s.pipe.jobs)) [
    | inl e ↦ rw (e, decode) b
    | inr ((job, rest), e) ↦ rw (e, decode) b
  ]

  publish_at-IsBusy : (i : ℕ) (s : System P) → IsBusy s.pipe → IsBusy (publish_at vol i s).pipe
  unfolding publish_at
  publish_at-IsBusy i s b = elim (Option-cases (take_at i s.publishing)) [
    | inl e ↦ rw (e, publish_at) b
    | inr ((p, rest), e) ↦ rw (e, publish_at) (publish_one-IsBusy p s.pipe)
  ]

  step-IsBusy : (s : System P) (e : Event P) → IsBusy s.pipe → IsBusy (step vol s e).pipe
  unfolding step submit unpin drain_ready below_caps
  step-IsBusy s (Event.submits wanted) b = pump-IsBusy _
  step-IsBusy s (Event.calls_back i r) b = call_back-IsBusy i r s b
  step-IsBusy s (Event.decodes i) b = decode-IsBusy i s b
  step-IsBusy s (Event.publishes i) b = publish_at-IsBusy i s b
  step-IsBusy s Event.drains b = b
  step-IsBusy s (Event.unpins k) b = pump-IsBusy _

  run-IsBusy : (s : System P) (es : List (Event P)) → IsBusy s.pipe → IsBusy (run vol s es).pipe
  unfolding run
  run-IsBusy s [] b = b
  run-IsBusy s (e ∷ es) b = run-IsBusy (step vol s e) es (step-IsBusy s e b)

  start-IsBusy :
      (config : Config) (configured cores : ℕ) (ram : RamCache)
      → IsBusy (start config configured cores ram).pipe
  unfolding start init
  start-IsBusy config configured cores ram = inl refl

  -- Whatever happened since the construction, in whatever order: while a request waits for its fetch,
  -- one of the three caps is reached, or a decode job is under way, whose end calls `pump` again.
  pub run_progress :
      (config : Config) (configured cores : ℕ) (ram : RamCache) (es : List (Event P)) (k : BrickKey)
      → let s = (run vol (start config configured cores ram) es).pipe in
        (t : Tracked P)
        → find k s ≡ some t
        → t.state ≡ State.queued
        → (below_caps s ≡ false) ⊎ (0 < s.queued_decodes)
  unfolding has_entry
  run_progress config configured cores ram es k t found waits =
      let s = run vol (start config configured cores ram) es in
      let v = run-IsSound vol config configured cores ram es in
      elim (run-IsBusy (start config configured cores ram) es
        (start-IsBusy config configured cores ram)) [
          | inl nothing ↦ absurd (ground (arith, v.waiting k))
          | inr busy ↦ busy
        ]
