-- ===== src/Data/Pipeline/Run.antt =====
-- src/data/ChunkFetchPipeline.cpp: what holds after any events, in any order.
use scrollviewer.Base.{
  ℕ, ◌+◌, ◌≡◌, refl, inl, inr, List, [], ◌∷◌, map, arith, total, take_at, total-take_at,
  Option-cases,
}
use scrollviewer.Base.Assoc
use scrollviewer.Data.BrickKey.{BrickKey}
use scrollviewer.Data.RamCache.{RamCache}
use scrollviewer.Data.Volume.{Volume}
use scrollviewer.Data.Pipeline.{FloatOrder, Config, Pipeline, StoreResult, init, drain_ready}
use scrollviewer.Data.Pipeline.Invariant.{Inv, at_key, count_keys}
use scrollviewer.Data.Pipeline.Submit.{submit-Inv}
use scrollviewer.Data.Pipeline.Done.{held, on_fetch_done-Inv}
use scrollviewer.Data.Pipeline.Publish.{
  decode_Inv, ready_Inv, decode_failed-Inv, publish-Inv, unpin-Inv,
}
use scrollviewer.Data.Pipeline.System.{
  System, Event, Publishing, call_back, decode, publish_one, publish_at, step, run,
}

abbrev pub keys_of : List Publishing → List BrickKey
keys_of = map (λ p. p.key)

count-keys_of :
    (k : BrickKey) (ps : List Publishing)
    → count_keys k (keys_of ps) ≡ total (λ (p : Publishing). at_key k p.key) ps
count-keys_of k [] = refl
count-keys_of k (p ∷ ps) = ground (arith, count-keys_of k ps)

module _ {P : Type 0} ⦃f : FloatOrder P⦄ where
  abbrev pub IsSound : System P → Type 0
  IsSound s = Inv s.pipe.heap (held (keys_of s.publishing) 0) s.pipe

  unfoldable pub start : Config → ℕ → ℕ → RamCache → System P
  start config configured cores ram = record {
    pipe = init config configured cores;
    ram = ram;
    publishing = [];
  }

  pub start-IsSound :
      (config : Config) (configured cores : ℕ) (ram : RamCache)
      → IsSound (start config configured cores ram)
  unfolding start init Assoc.lookup
  start-IsSound config configured cores ram = record {
    distinct = tt;
    fetching = refl;
    decoding = refl;
    callbacks = refl;
    issued = refl;
    reads_tracked = λ k. refl;
    jobs_tracked = λ k. refl;
    waiting = λ k. refl;
    capped = omega arith;
    both_capped = omega arith;
  }

  module _ (vol : Volume) where
    call_back-IsSound :
        (i : ℕ) (r : StoreResult) (s : System P) → IsSound s → IsSound (call_back vol i r s)
    unfolding call_back
    call_back-IsSound i r s v = elim (Option-cases (take_at i s.pipe.reads)) [
      | inl e ↦ rw (e, call_back) v
      | inr ((read, rest), e) ↦
          rw (e, call_back) (on_fetch_done-Inv vol i (keys_of s.publishing) s.pipe read rest r v e)
    ]

    decode-IsSound : (i : ℕ) (s : System P) → IsSound s → IsSound (decode vol i s)
    unfolding decode
    decode-IsSound i s v = elim (Option-cases (take_at i s.pipe.jobs)) [
      | inl e ↦ rw (e, decode) v
      | inr ((j, rest), e) ↦
          rw (e, decode) (decode_Inv vol i (keys_of s.publishing) s.pipe j rest v e)
    ]

    publish_one-Inv :
        (keys rest : List BrickKey) (p : Publishing) (s : Pipeline P)
        → Inv s.heap (held keys 0) s
        → ((j : BrickKey) → count_keys j keys ≡ at_key j p.key + count_keys j rest)
        → Inv (publish_one vol p s).heap (held rest 0) (publish_one vol p s)
    unfolding publish_one
    publish_one-Inv keys rest p s v taken = elim (Option-cases p.brick) [
      | inl e ↦ rw (e, publish_one) (decode_failed-Inv vol keys rest p.key s v taken)
      | inr (b, e) ↦ rw (e, publish_one) (publish-Inv vol keys rest p.key s v taken b)
    ]

    publish_at-IsSound : (i : ℕ) (s : System P) → IsSound s → IsSound (publish_at vol i s)
    unfolding publish_at
    publish_at-IsSound i s v = elim (Option-cases (take_at i s.publishing)) [
      | inl e ↦ rw (e, publish_at) v
      | inr ((p, rest), e) ↦
          rw (e, publish_at)
            (publish_one-Inv (keys_of s.publishing) (keys_of rest) p s.pipe v (λ k. omega (
              arith,
              count-keys_of k s.publishing,
              count-keys_of k rest,
              total-take_at (λ (x : Publishing). at_key k x.key) i s.publishing rest p e,
            )))
    ]

    step-IsSound : (s : System P) (e : Event P) → IsSound s → IsSound (step vol s e)
    unfolding step drain_ready
    step-IsSound s (Event.submits wanted) v =
        submit-Inv vol wanted (held (keys_of s.publishing) 0) s.pipe v
    step-IsSound s (Event.calls_back i r) v = call_back-IsSound i r s v
    step-IsSound s (Event.decodes i) v = decode-IsSound i s v
    step-IsSound s (Event.publishes i) v = publish_at-IsSound i s v
    step-IsSound s Event.drains v =
        ready_Inv vol (held (keys_of s.publishing) 0) s.pipe [] s.pipe.ready_pinned_bytes v
    step-IsSound s (Event.unpins k) v = unpin-Inv vol (held (keys_of s.publishing) 0) k s.pipe v

    pub run_from-IsSound : (s : System P) (es : List (Event P)) → IsSound s → IsSound (run vol s es)
    unfolding run
    run_from-IsSound s [] v = v
    run_from-IsSound s (e ∷ es) v = run_from-IsSound (step vol s e) es (step-IsSound s e v)

    -- After any events, in any order, from the pipeline's construction: no key is tracked twice; the
    -- counts of fetches and of decodes are those of the entries in these states; each outstanding
    -- read belongs to one entry that is fetched, and each decode job to one that is decoded, and the
    -- other way round; the callbacks that the destructor waits for are the outstanding reads; a
    -- request that waits is in the heap with its present priority; the fetches stay within their cap,
    -- and fetches and decodes together stay below the sum of both caps.
    pub run-IsSound :
        (config : Config) (configured cores : ℕ) (ram : RamCache) (es : List (Event P))
        → IsSound (run vol (start config configured cores ram) es)
    run-IsSound config configured cores ram es =
        run_from-IsSound _ es (start-IsSound config configured cores ram)
