-- ===== src/Data/Pipeline/Pump.antt =====
-- src/data/ChunkFetchPipeline.cpp, `pump`: it keeps the invariant, and it stops only at a cap or when
-- no request is left.
use scrollviewer.Base.{
  ◌≡◌, refl, ◌⊎◌, inl, inr, true, false, some, List, [], ◌∷◌, arith, total-append, length-append,
  Bool-cases,
}
use scrollviewer.Base.Assoc
use scrollviewer.Data.BrickKey.{key_dec}
use scrollviewer.Data.Volume.{Volume}
use scrollviewer.Data.Pipeline.{
  FloatOrder, State, Tracked, HeapEntry, Read, Pipeline, find, below_caps, issue, pump_one,
  pump_loop, pump,
}
use scrollviewer.Data.Pipeline.Invariant.{
  Inv, Held, at_key, has_entry, fetching_one, decoding_one, pump_one_cases, skip_Inv, drop-Inv,
}

module _ {P : Type 0} ⦃f : FloatOrder P⦄ (vol : Volume) where
  issue-Inv :
      (e : HeapEntry P) (h : List (HeapEntry P)) (held : Held) (s : Pipeline P) (t : Tracked P)
      → Inv (e ∷ h) held s
      → find e.key s ≡ some t
      → t.state ≡ State.queued
      → below_caps s ≡ true
      → Inv h held (issue vol e.key t s)
  unfolding issue has_entry below_caps at_key
  issue-Inv e h held s t v found waits free =
      let t' : Tracked P = record t { state = State.fetching; stop = some s.next_stop } in
      let r : Read = record {
        key = e.key;
        store_key = vol.chunk_store_key e.key.coord;
        stop = s.next_stop;
      } in
      record {
        distinct = Assoc.insert-Distinct key_dec e.key t' s.tracked v.distinct;
        fetching =
            ground (arith, v.fetching, Assoc.sum-insert key_dec fetching_one e.key t' s.tracked);
        decoding =
            ground (arith, v.decoding, Assoc.sum-insert key_dec decoding_one e.key t' s.tracked);
        callbacks = ground (arith, v.callbacks, length-append s.reads (r ∷ []));
        issued = ground (arith, v.issued, length-append s.reads (r ∷ []));
        reads_tracked = λ k. ground (
          arith,
          v.reads_tracked k,
          total-append (λ (x : Read). at_key k x.key) s.reads (r ∷ []),
          Assoc.lookup-insert key_dec e.key k t' s.tracked,
        );
        jobs_tracked =
            λ k. ground (arith, v.jobs_tracked k, Assoc.lookup-insert key_dec e.key k t' s.tracked);
        waiting =
            λ k. ground (arith, v.waiting k, Assoc.lookup-insert key_dec e.key k t' s.tracked);
        capped = ground (arith, v.capped);
        both_capped = ground (arith, v.both_capped);
      }

  pump_one-Inv :
      (e : HeapEntry P) (h : List (HeapEntry P)) (held : Held) (s : Pipeline P)
      → Inv (e ∷ h) held s
      → below_caps s ≡ true
      → Inv h held (pump_one vol e s)
  pump_one-Inv e h held s v free = elim (pump_one_cases vol e s) [
    | inl (same, stale) ↦ rw same (skip_Inv e h held s v stale)
    | inr (t, found, waits, inl dropped) ↦ rw dropped (drop-Inv e h held s t v found waits)
    | inr (t, found, waits, inr issued) ↦ rw issued (issue-Inv e h held s t v found waits free)
  ]

  with_heap :
      (h g : List (HeapEntry P)) (held : Held) (s : Pipeline P)
      → Inv h held s
      → Inv h held (record s { heap = g })
  with_heap h g held s v = record {
    distinct = v.distinct;
    fetching = v.fetching;
    decoding = v.decoding;
    callbacks = v.callbacks;
    issued = v.issued;
    reads_tracked = v.reads_tracked;
    jobs_tracked = v.jobs_tracked;
    waiting = v.waiting;
    capped = v.capped;
    both_capped = v.both_capped;
  }

  pump_loop-Inv :
      (h : List (HeapEntry P)) (held : Held) (s : Pipeline P)
      → Inv h held s
      → Inv (pump_loop vol h s).heap held (pump_loop vol h s)
  unfolding pump_loop
  pump_loop-Inv [] held s v = with_heap [] [] held s v
  pump_loop-Inv (e ∷ h) held s v = elim (Bool-cases (below_caps s)) [
    | inl free ↦ rw free (pump_loop-Inv h held (pump_one vol e s) (pump_one-Inv e h held s v free))
    | inr full ↦ rw full (with_heap (e ∷ h) (e ∷ h) held s v)
  ]

  pub pump-Inv :
      (held : Held) (s : Pipeline P) → Inv s.heap held s → Inv (pump vol s).heap held (pump vol s)
  unfolding pump
  pump-Inv held s v = pump_loop-Inv s.heap held s v

  below_caps-heap :
      (h : List (HeapEntry P)) (s : Pipeline P) → below_caps (record s { heap = h }) ≡ below_caps s
  unfolding below_caps
  below_caps-heap h s = refl

  -- The loop ends at a cap or with an empty heap.
  pump_loop_ends :
      (h : List (HeapEntry P)) (s : Pipeline P)
      → (below_caps (pump_loop vol h s) ≡ false) ⊎ ((pump_loop vol h s).heap ≡ [])
  unfolding pump_loop
  pump_loop_ends [] s = inr refl
  pump_loop_ends (e ∷ h) s = elim (Bool-cases (below_caps s)) [
    | inl free ↦ rw free (pump_loop_ends h (pump_one vol e s))
    | inr full ↦ rw full (inl (rw (below_caps-heap (e ∷ h) s) full))
  ]

  pub pump_ends : (s : Pipeline P) → (below_caps (pump vol s) ≡ false) ⊎ ((pump vol s).heap ≡ [])
  unfolding pump
  pump_ends s = pump_loop_ends s.heap s
