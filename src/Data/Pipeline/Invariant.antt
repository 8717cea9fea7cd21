-- ===== src/Data/Pipeline/Invariant.antt =====
-- src/data/ChunkFetchPipeline.cpp: the invariant of the pipeline, and that `pump` keeps it.
use scrollviewer.Base.{
  ℕ, ◌+◌, ◌-◌, ◌≤◌, ◌≡◌, ◌⊎◌, inl, inr, Bool, true, false, not, ◌&&◌, ◌||◌, Option, none, some,
  List, [], ◌∷◌, ite, arith, length, total, if◌then◌else◌, Bool-cases, Option-cases,
}
use scrollviewer.Base.Assoc
use scrollviewer.Data.BrickKey.{BrickKey, key_dec}
use scrollviewer.Data.Volume.{Volume}
use scrollviewer.Data.Pipeline.{
  FloatOrder, State, Tracked, HeapEntry, Read, Job, Pipeline, is_queued, is_fetching, find, drop,
  issue, pump_one,
}

abbrev pub one : Bool → ℕ
one true = 1
one false = 0

abbrev pub is_decoding : State → Bool
is_decoding State.decoding = true
is_decoding _ = false

abbrev pub fetching_one : {P : Type 0} → Tracked P → ℕ
fetching_one t = one (is_fetching t.state)

abbrev pub decoding_one : {P : Type 0} → Tracked P → ℕ
decoding_one t = one (is_decoding t.state)

-- How often a key occurs.
unfoldable pub at_key : BrickKey → BrickKey → ℕ
at_key k j = ite (key_dec j k) 1 0

abbrev pub count_reads : BrickKey → List Read → ℕ
count_reads k = total (λ r. at_key k r.key)

abbrev pub count_jobs : BrickKey → List Job → ℕ
count_jobs k = total (λ j. at_key k j.key)

abbrev pub count_keys : BrickKey → List BrickKey → ℕ
count_keys k = total (at_key k)

-- What is under way outside the pipeline's state: the keys of the decode jobs that have yet to
-- publish, and how many callbacks are running under their guard.
pub record Held : Type 0 where
  pub publishing : List BrickKey
  pub returning : ℕ

module _ {P : Type 0} ⦃f : FloatOrder P⦄ where
  -- The heap has an entry for the key with this priority.
  unfoldable pub has_entry : List (HeapEntry P) → BrickKey → P → Bool
  has_entry [] k p = false
  has_entry (e ∷ h) k p = ite (key_dec e.key k) (f.eq e.priority p) false || has_entry h k p

  -- A request that waits is in the heap with the priority that it has now.
  abbrev pub covered : List (HeapEntry P) → BrickKey → Option (Tracked P) → Bool
  covered h k none = true
  covered h k (some t) = if is_queued t.state then has_entry h k t.priority else true

  -- `h` is the heap.
  pub record Inv (h : List (HeapEntry P)) (held : Held) (s : Pipeline P) : Type 0 where
    pub distinct : Assoc.Distinct key_dec s.tracked
    pub fetching : s.inflight_fetches ≡ Assoc.sum key_dec fetching_one s.tracked
    pub decoding : s.queued_decodes ≡ Assoc.sum key_dec decoding_one s.tracked
    pub callbacks : s.pending_store_callbacks ≡ length s.reads + held.returning
    pub issued : s.inflight_fetches ≡ length s.reads
    pub reads_tracked :
        (k : BrickKey) → count_reads k s.reads ≡ Assoc.weight fetching_one (find k s)
    pub jobs_tracked :
        (k : BrickKey)
        → count_jobs k s.jobs + count_keys k held.publishing ≡ Assoc.weight decoding_one (find k s)
    pub waiting : (k : BrickKey) → covered h k (find k s) ≡ true
    pub capped : s.inflight_fetches ≤ s.max_inflight_fetches
    pub both_capped :
        s.inflight_fetches + s.queued_decodes ≤ s.max_inflight_fetches + s.max_queued_decodes - 1

  -- The entry `e` is of no use to the request.
  abbrev pub is_stale : HeapEntry P → Option (Tracked P) → Bool
  is_stale e none = true
  is_stale e (some t) = not (is_queued t.state) || not (f.eq e.priority t.priority)

  module _ (vol : Volume) where
    pub pump_one_cases :
        (e : HeapEntry P) (s : Pipeline P)
        → ((pump_one vol e s ≡ s) × (is_stale e (find e.key s) ≡ true))
          ⊎ ((t : Tracked P) × (find e.key s ≡ some t)
              × (t.state ≡ State.queued)
              × ((pump_one vol e s ≡ drop e.key s) ⊎ (pump_one vol e s ≡ issue vol e.key t s)))
    unfolding pump_one
    pump_one_cases e s = elim (Option-cases (find e.key s)) [
      | inl missing ↦ inl (ground arith, ground arith)
      | inr (t, found) ↦ elim (Bool-cases (is_queued t.state && f.eq e.priority t.priority)) [
        | inl live ↦ inr (t, found, ground arith, ground arith)
        | inr dead ↦ inl (ground arith, ground arith)
      ]
    ]

  pub skip_Inv :
      (e : HeapEntry P) (h : List (HeapEntry P)) (held : Held) (s : Pipeline P)
      → Inv (e ∷ h) held s
      → is_stale e (find e.key s) ≡ true
      → Inv h held s
  unfolding has_entry
  skip_Inv e h held s v stale = record {
    distinct = v.distinct;
    fetching = v.fetching;
    decoding = v.decoding;
    callbacks = v.callbacks;
    issued = v.issued;
    reads_tracked = v.reads_tracked;
    jobs_tracked = v.jobs_tracked;
    waiting = λ k. ground (arith, v.waiting k);
    capped = v.capped;
    both_capped = v.both_capped;
  }

  -- A request that waits is forgotten.
  pub drop-Inv :
      (e : HeapEntry P) (h : List (HeapEntry P)) (held : Held) (s : Pipeline P) (t : Tracked P)
      → Inv (e ∷ h) held s
      → find e.key s ≡ some t
      → t.state ≡ State.queued
      → Inv h held (drop e.key s)
  unfolding has_entry
  drop-Inv e h held s t v found waits = record {
    distinct = Assoc.erase-Distinct key_dec e.key s.tracked v.distinct;
    fetching = ground (arith, v.fetching, Assoc.sum-erase key_dec fetching_one e.key s.tracked);
    decoding = ground (arith, v.decoding, Assoc.sum-erase key_dec decoding_one e.key s.tracked);
    callbacks = v.callbacks;
    issued = v.issued;
    reads_tracked = λ k.
        ground (arith, v.reads_tracked k, Assoc.lookup-erase key_dec e.key k s.tracked v.distinct);
    jobs_tracked = λ k.
        ground (arith, v.jobs_tracked k, Assoc.lookup-erase key_dec e.key k s.tracked v.distinct);
    waiting =
        λ k. ground (arith, v.waiting k, Assoc.lookup-erase key_dec e.key k s.tracked v.distinct);
    capped = v.capped;
    both_capped = v.both_capped;
  }
