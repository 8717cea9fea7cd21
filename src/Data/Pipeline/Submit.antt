-- ===== src/Data/Pipeline/Submit.antt =====
-- src/data/ChunkFetchPipeline.cpp, `submit`: it keeps the invariant, and what it cancels.
use scrollviewer.Base.{
  ℕ, ◌≡◌, refl, inl, inr, true, not, ◌&&◌, some, List, [], ◌∷◌, arith, add64, Bool-cases,
  Option-cases,
}
use scrollviewer.Base.Assoc
use scrollviewer.Data.BrickKey.{BrickKey, key_dec}
use scrollviewer.Data.Volume.{Volume}
use scrollviewer.Data.Pipeline.{
  FloatOrder, Tracked, HeapEntry, BrickRequest, Pipeline, is_queued, find, put, heap_push,
  push_request, submit_one, submit_all, submit,
}
use scrollviewer.Data.Pipeline.Invariant.{Inv, Held, has_entry, covered, fetching_one, decoding_one}
use scrollviewer.Data.Pipeline.Pump.{pump-Inv}

module _ {P : Type 0} ⦃f : FloatOrder P⦄ where
  -- A push adds one entry, wherever it lands.
  has_entry-heap_push :
      (e : HeapEntry P) (h : List (HeapEntry P)) (k : BrickKey) (p : P)
      → has_entry (heap_push e h) k p ≡ has_entry (e ∷ h) k p
  unfolding has_entry heap_push
  has_entry-heap_push e [] k p = refl
  has_entry-heap_push e (g ∷ h) k p = ground (arith, has_entry-heap_push e h k p)

  -- An entry of the map that is written anew, in the same state but perhaps with another priority
  -- that the heap knows of.
  module _ (held : Held) (s : Pipeline P) (k : BrickKey) (t' : Tracked P) (g : List (HeapEntry P))
      (n : ℕ) (v : Inv s.heap held s) where
    put-Inv :
        Assoc.weight fetching_one (find k s) ≡ fetching_one t'
        → Assoc.weight decoding_one (find k s) ≡ decoding_one t'
        → covered g k (some t') ≡ true
        → ((j : BrickKey) (p : P) → has_entry s.heap j p ≡ true → has_entry g j p ≡ true)
        → Inv g held (record (put k t' s) { heap = g; seq_counter = n })
    put-Inv same_f same_d here more = record {
      distinct = Assoc.insert-Distinct key_dec k t' s.tracked v.distinct;
      fetching = ground (arith, v.fetching, Assoc.sum-insert key_dec fetching_one k t' s.tracked);
      decoding = ground (arith, v.decoding, Assoc.sum-insert key_dec decoding_one k t' s.tracked);
      callbacks = v.callbacks;
      issued = v.issued;
      reads_tracked =
          λ j. ground (arith, v.reads_tracked j, Assoc.lookup-insert key_dec k j t' s.tracked);
      jobs_tracked =
          λ j. ground (arith, v.jobs_tracked j, Assoc.lookup-insert key_dec k j t' s.tracked);
      waiting = λ j. elim (Option-cases (find j s)) [
        | inl missing ↦ ground (arith, Assoc.lookup-insert key_dec k j t' s.tracked)
        | inr (t, found) ↦
            ground
              (arith, v.waiting j, Assoc.lookup-insert key_dec k j t' s.tracked, more j t.priority)
      ];
      capped = v.capped;
      both_capped = v.both_capped;
    }

  push_more :
      (e : HeapEntry P) (h : List (HeapEntry P)) (j : BrickKey) (p : P)
      → has_entry h j p ≡ true
      → has_entry (heap_push e h) j p ≡ true
  unfolding has_entry
  push_more e h j p there = ground (arith, has_entry-heap_push e h j p)

  push_self :
      (e : HeapEntry P) (h : List (HeapEntry P)) → has_entry (heap_push e h) e.key e.priority ≡ true
  unfolding has_entry
  push_self e h = ground (arith, has_entry-heap_push e h e.key e.priority, f.eq_refl e.priority)

  submit_one-Inv :
      (r : BrickRequest P) (held : Held) (s : Pipeline P)
      → Inv s.heap held s
      → Inv (submit_one r s).heap held (submit_one r s)
  unfolding submit_one push_request
  submit_one-Inv r held s v =
      let e : HeapEntry P = record { priority = r.priority; seq = s.seq_counter; key = r.key } in
      elim (Option-cases (find r.key s)) [
        | inl missing ↦
            rw (missing, submit_one)
              (put-Inv held s r.key _ (heap_push e s.heap) (add64 s.seq_counter 1) v (ground arith)
                (ground arith) (push_self e s.heap) (push_more e s.heap))
        | inr (t, found) ↦
            elim (Bool-cases (is_queued t.state && not (f.eq t.priority r.priority))) [
              | inl again ↦
                  rw (found, submit_one, again)
                    (put-Inv held s r.key _ (heap_push e s.heap) (add64 s.seq_counter 1) v
                      (ground arith) (ground arith) (ground (arith, push_self e s.heap))
                      (push_more e s.heap))
              | inr known ↦
                  rw (found, submit_one, known)
                    (put-Inv held s r.key _ s.heap s.seq_counter v (ground arith) (ground arith)
                      (ground (arith, v.waiting r.key)) (λ j p there. there))
            ]
      ]

  submit_all-Inv :
      (rs : List (BrickRequest P)) (held : Held) (s : Pipeline P)
      → Inv s.heap held s
      → Inv (submit_all rs s).heap held (submit_all rs s)
  unfolding submit_all
  submit_all-Inv [] held s v = v
  submit_all-Inv (r ∷ rs) held s v =
      submit_all-Inv rs held (submit_one r s) (submit_one-Inv r held s v)

  marks_Inv :
      (held : Held) (s : Pipeline P) (epoch : ℕ) (stopped : List ℕ)
      → Inv s.heap held s
      → Inv s.heap held (record s { current_epoch = epoch; stopped = stopped })
  marks_Inv held s epoch stopped v = record {
    distinct = v.distinct;
    fetching = v.fetching;
    decoding = v.decoding;
    callbacks = v.callbacks;
    issued = v.issued;
    reads_tracked = v.reads_tracked;
    jobs_tracked = v.jobs_tracked;
    waiting = v.waiting;
    capped = v.capped;
    both_capped = v.both_capped;
  }

  pub submit-Inv :
      (vol : Volume) (wanted : List (BrickRequest P)) (held : Held) (s : Pipeline P)
      → Inv s.heap held s
      → Inv (submit vol wanted s).heap held (submit vol wanted s)
  unfolding submit
  submit-Inv vol wanted held s v =
      pump-Inv vol held _
        (marks_Inv held _ _ _ (submit_all-Inv wanted held _ (marks_Inv held s _ s.stopped v)))
