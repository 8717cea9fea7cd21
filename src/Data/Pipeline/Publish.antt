-- ===== src/Data/Pipeline/Publish.antt =====
-- src/data/ChunkFetchPipeline.cpp, the end of `decodeAndPublish`, `drainReady` and `unpin`: they keep
-- the invariant.
use scrollviewer.Base.{
  ℕ, ◌+◌, ◌-◌, ◌≡◌, inl, inr, some, List, ◌∷◌, arith, take_at, total-take_at, Option-cases,
}
use scrollviewer.Base.Assoc
use scrollviewer.Data.BrickKey.{BrickKey, key_dec}
use scrollviewer.Data.RamCache.{Brick}
use scrollviewer.Data.Volume.{Volume}
use scrollviewer.Data.Pipeline.{
  FloatOrder, State, Tracked, Job, Pipeline, find, drop, decode_failed, publish, unpin,
}
use scrollviewer.Data.Pipeline.Invariant.{Inv, Held, at_key, count_keys, fetching_one, decoding_one}
use scrollviewer.Data.Pipeline.Pump.{pump-Inv}
use scrollviewer.Data.Pipeline.Done.{held}

module _ {P : Type 0} ⦃f : FloatOrder P⦄ (vol : Volume) where
  -- A job goes from the pool's queue to those that publish.
  pub decode_Inv :
      (i : ℕ) (keys : List BrickKey) (s : Pipeline P) (j : Job) (rest : List Job)
      → Inv s.heap (held keys 0) s
      → take_at i s.jobs ≡ some (j, rest)
      → Inv s.heap (held (j.key ∷ keys) 0) (record s { jobs = rest })
  decode_Inv i keys s j rest v e = record {
    distinct = v.distinct;
    fetching = v.fetching;
    decoding = v.decoding;
    callbacks = v.callbacks;
    issued = v.issued;
    reads_tracked = v.reads_tracked;
    jobs_tracked = λ k.
        ground
          (arith, v.jobs_tracked k, total-take_at (λ (x : Job). at_key k x.key) i s.jobs rest j e);
    waiting = v.waiting;
    capped = v.capped;
    both_capped = v.both_capped;
  }

  -- The fields that the invariant does not read.
  pub ready_Inv :
      (h : Held) (s : Pipeline P) (bricks : List Brick) (n : ℕ)
      → Inv s.heap h s
      → Inv s.heap h (record s { ready = bricks; ready_pinned_bytes = n })
  ready_Inv h s bricks n v = record {
    distinct = v.distinct;
    fetching = v.fetching;
    decoding = v.decoding;
    callbacks = v.callbacks;
    issued = v.issued;
    reads_tracked = v.reads_tracked;
    jobs_tracked = v.jobs_tracked;
    waiting = v.waiting;
    capped = v.capped;
    both_capped = v.both_capped;
  }

  -- The end of a decode job, with or without a brick.
  module _ (keys rest : List BrickKey) (k : BrickKey) (s : Pipeline P)
      (v : Inv s.heap (held keys 0) s)
      (taken : (j : BrickKey) → count_keys j keys ≡ at_key j k + count_keys j rest) where
    publishing-is_decoding : (t : Tracked P) × (find k s ≡ some t) × (t.state ≡ State.decoding)
    unfolding at_key
    publishing-is_decoding = elim (Option-cases (find k s)) [
      | inl missing ↦ absurd (ground (arith, v.jobs_tracked k, taken k))
      | inr (t, found) ↦ (t, found, ground (arith, v.jobs_tracked k, taken k))
    ]

    finished_Inv :
        (t : Tracked P)
        → find k s ≡ some t
        → t.state ≡ State.decoding
        → Inv s.heap (held rest 0) (drop k (record s { queued_decodes = s.queued_decodes - 1 }))
    unfolding at_key
    finished_Inv t found decoded = record {
      distinct = Assoc.erase-Distinct key_dec k s.tracked v.distinct;
      fetching = ground (arith, v.fetching, Assoc.sum-erase key_dec fetching_one k s.tracked);
      decoding = ground (arith, v.decoding, Assoc.sum-erase key_dec decoding_one k s.tracked);
      callbacks = v.callbacks;
      issued = v.issued;
      reads_tracked = λ j.
          ground (arith, v.reads_tracked j, Assoc.lookup-erase key_dec k j s.tracked v.distinct);
      jobs_tracked = λ j.
          ground
            (arith, v.jobs_tracked j, taken j, Assoc.lookup-erase key_dec k j s.tracked v.distinct);
      waiting =
          λ j. ground (arith, v.waiting j, Assoc.lookup-erase key_dec k j s.tracked v.distinct);
      capped = v.capped;
      both_capped = ground (arith, v.both_capped);
    }

    finished :
        Inv s.heap (held rest 0) (drop k (record s { queued_decodes = s.queued_decodes - 1 }))
    finished = let (t, found, decoded) = publishing-is_decoding in finished_Inv t found decoded

    pub decode_failed-Inv : Inv (decode_failed vol k s).heap (held rest 0) (decode_failed vol k s)
    unfolding decode_failed
    decode_failed-Inv = pump-Inv vol (held rest 0) _ finished

    pub publish-Inv : (b : Brick) → Inv (publish vol k b s).heap (held rest 0) (publish vol k b s)
    unfolding publish
    publish-Inv b = pump-Inv vol (held rest 0) _ (ready_Inv (held rest 0) _ _ _ finished)

  pub unpin-Inv :
      (h : Held) (k : BrickKey) (s : Pipeline P)
      → Inv s.heap h s
      → Inv (unpin vol k s).heap h (unpin vol k s)
  unfolding unpin
  unpin-Inv h k s v = pump-Inv vol h _ (ready_Inv h s s.ready _ v)
