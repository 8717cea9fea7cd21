-- ===== src/Data/Pipeline/Done.antt =====
-- src/data/ChunkFetchPipeline.cpp, `onFetchDone`, `decodeAndPublish`, `drainReady` and `unpin`: they
-- keep the invariant.
use scrollviewer.Base.{
  ℕ, ◌+◌, ◌-◌, ◌≡◌, inl, inr, Bool, true, false, none, some, List, [], ◌∷◌, arith, length,
  total-append, take_at, total-take_at, length-total, Option-cases,
}
use scrollviewer.Base.Assoc
use scrollviewer.Data.BrickKey.{BrickKey, key_dec}
use scrollviewer.Data.Volume.{Volume}
use scrollviewer.Data.Pipeline.{
  FloatOrder, State, Tracked, Read, Job, Pipeline, StoreResult, Kind, find, drop, start_decode,
  fetch_outcome, on_fetch_done, finish,
}
use scrollviewer.Data.Pipeline.Invariant.{
  Inv, Held, at_key, count_reads, fetching_one, decoding_one,
}
use scrollviewer.Data.Pipeline.Pump.{pump-Inv}

abbrev pub held : List BrickKey → ℕ → Held
held keys n = record { publishing = keys; returning = n }

module _ {P : Type 0} ⦃f : FloatOrder P⦄ (vol : Volume) where
  -- The read that comes back was for a key that is being fetched.
  returning-is_fetching :
      (i : ℕ) (h : Held) (s : Pipeline P) (r : Read) (rest : List Read)
      → Inv s.heap h s
      → take_at i s.reads ≡ some (r, rest)
      → (t : Tracked P) × (find r.key s ≡ some t) × (t.state ≡ State.fetching)
  unfolding at_key
  returning-is_fetching i h s r rest v e = elim (Option-cases (find r.key s)) [
    | inl missing ↦ absurd (
        ground (
          arith,
          v.reads_tracked r.key,
          total-take_at (λ (x : Read). at_key r.key x.key) i s.reads rest r e,
        ))
    | inr (t, found) ↦ (
      t,
      found,
      ground (
        arith,
        v.reads_tracked r.key,
        total-take_at (λ (x : Read). at_key r.key x.key) i s.reads rest r e,
      ),
    )
  ]

  -- What is known when `onFetchDone` has found its entry: the read is gone, the callback is running,
  -- and the entry still says that it is fetched.
  module _ (i : ℕ) (keys : List BrickKey) (s : Pipeline P) (r : Read) (rest : List Read)
      (t : Tracked P) (v : Inv s.heap (held keys 0) s) (e : take_at i s.reads ≡ some (r, rest))
      (found : find r.key s ≡ some t) (fetched : t.state ≡ State.fetching) where
    abbrev back : Pipeline P
    back = record s { reads = rest; inflight_fetches = s.inflight_fetches - 1 }

    taken : (k : BrickKey) → count_reads k s.reads ≡ at_key k r.key + count_reads k rest
    taken k = total-take_at (λ (x : Read). at_key k x.key) i s.reads rest r e

    shorter : length s.reads ≡ length rest + 1
    shorter = ground (
      arith,
      total-take_at (λ (x : Read). 1) i s.reads rest r e,
      length-total s.reads,
      length-total rest,
    )

    give_up_Inv : Inv s.heap (held keys 1) (drop r.key back)
    unfolding at_key
    give_up_Inv = record {
      distinct = Assoc.erase-Distinct key_dec r.key s.tracked v.distinct;
      fetching = ground (arith, v.fetching, Assoc.sum-erase key_dec fetching_one r.key s.tracked);
      decoding = ground (arith, v.decoding, Assoc.sum-erase key_dec decoding_one r.key s.tracked);
      callbacks = ground (arith, v.callbacks, shorter);
      issued = ground (arith, v.issued, shorter);
      reads_tracked = λ k. ground (
        arith,
        v.reads_tracked k,
        taken k,
        Assoc.lookup-erase key_dec r.key k s.tracked v.distinct,
      );
      jobs_tracked = λ k.
          ground (arith, v.jobs_tracked k, Assoc.lookup-erase key_dec r.key k s.tracked v.distinct);
      waiting =
          λ k. ground (arith, v.waiting k, Assoc.lookup-erase key_dec r.key k s.tracked v.distinct);
      capped = ground (arith, v.capped);
      both_capped = ground (arith, v.both_capped);
    }

    start_decode-Inv :
        (b : List ℕ) (missing : Bool)
        → Inv s.heap (held keys 1) (start_decode vol r.key t b missing back)
    unfolding at_key start_decode
    start_decode-Inv b missing =
        let t' : Tracked P = record t { state = State.decoding; stop = none } in
        let j : Job = record { key = r.key; compressed = b; is_missing = missing } in
        record {
          distinct = Assoc.insert-Distinct key_dec r.key t' s.tracked v.distinct;
          fetching =
              ground (arith, v.fetching, Assoc.sum-insert key_dec fetching_one r.key t' s.tracked);
          decoding =
              ground (arith, v.decoding, Assoc.sum-insert key_dec decoding_one r.key t' s.tracked);
          callbacks = ground (arith, v.callbacks, shorter);
          issued = ground (arith, v.issued, shorter);
          reads_tracked = λ k.
              ground (
                arith,
                v.reads_tracked k,
                taken k,
                Assoc.lookup-insert key_dec r.key k t' s.tracked,
              );
          jobs_tracked = λ k. ground (
            arith,
            v.jobs_tracked k,
            total-append (λ (x : Job). at_key k x.key) s.jobs (j ∷ []),
            Assoc.lookup-insert key_dec r.key k t' s.tracked,
          );
          waiting =
              λ k. ground (arith, v.waiting k, Assoc.lookup-insert key_dec r.key k t' s.tracked);
          capped = ground (arith, v.capped);
          both_capped = ground (arith, v.both_capped, shorter, v.issued);
        }

    fetch_outcome-Inv :
        (res : StoreResult)
        → Inv
            (fetch_outcome vol r.key res back).heap
            (held keys 1)
            (fetch_outcome vol r.key res back)
    unfolding fetch_outcome
    fetch_outcome-Inv (StoreResult.bytes b) = rw (found, fetch_outcome) (start_decode-Inv b false)
    fetch_outcome-Inv (StoreResult.error Kind.not_found) =
        rw (found, fetch_outcome) (start_decode-Inv [] true)
    fetch_outcome-Inv (StoreResult.error Kind.io) =
        rw (found, fetch_outcome) (pump-Inv vol (held keys 1) _ give_up_Inv)
    fetch_outcome-Inv (StoreResult.error Kind.http) =
        rw (found, fetch_outcome) (pump-Inv vol (held keys 1) _ give_up_Inv)
    fetch_outcome-Inv (StoreResult.error Kind.cancelled) =
        rw (found, fetch_outcome) (pump-Inv vol (held keys 1) _ give_up_Inv)
    fetch_outcome-Inv (StoreResult.error Kind.auth) =
        rw (found, fetch_outcome) (pump-Inv vol (held keys 1) _ give_up_Inv)

  finish-Inv :
      (keys : List BrickKey) (s : Pipeline P)
      → Inv s.heap (held keys 1) s
      → Inv s.heap (held keys 0) (finish vol s)
  finish-Inv keys s v = record {
    distinct = v.distinct;
    fetching = v.fetching;
    decoding = v.decoding;
    callbacks = ground (arith, v.callbacks);
    issued = v.issued;
    reads_tracked = v.reads_tracked;
    jobs_tracked = v.jobs_tracked;
    waiting = v.waiting;
    capped = v.capped;
    both_capped = v.both_capped;
  }

  pub on_fetch_done-Inv :
      (i : ℕ) (keys : List BrickKey) (s : Pipeline P) (r : Read) (rest : List Read)
      (res : StoreResult)
      → Inv s.heap (held keys 0) s
      → take_at i s.reads ≡ some (r, rest)
      → let s' = on_fetch_done vol r.key res (record s { reads = rest }) in
        Inv s'.heap (held keys 0) s'
  unfolding on_fetch_done
  on_fetch_done-Inv i keys s r rest res v e =
      let (t, found, fetched) = returning-is_fetching i (held keys 0) s r rest v e in
      finish-Inv keys _ (fetch_outcome-Inv i keys s r rest t v e found fetched res)
