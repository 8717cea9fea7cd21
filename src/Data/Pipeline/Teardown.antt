-- ===== src/Data/Pipeline/Teardown.antt =====
-- src/data/ChunkFetchPipeline.cpp: the destructor, up to its wait, and `stats`.
use scrollviewer.Base.{
  ℕ, ◌≡◌, inl, inr, Bool, true, ◌==◌, none, some, List, [], ◌∷◌, arith, length, Option-cases,
}
use scrollviewer.Base.Assoc
use scrollviewer.Data.BrickKey.{BrickKey, key_dec}
use scrollviewer.Data.Pipeline.{FloatOrder, Tracked, Pipeline, contains, find}

pub record PipelineStats : Type 0 where
  pub queued : ℕ
  pub inflight_fetches : ℕ
  pub queued_decodes : ℕ
  pub ready : ℕ
  pub ready_pinned_bytes : ℕ

unfoldable pub stop_all : {P : Type 0} → List (BrickKey × Tracked P) → List ℕ → List ℕ
stop_all [] stopped = stopped
stop_all ((k, t) ∷ m) stopped = elim t.stop [
  | none ↦ stop_all m stopped
  | some i ↦ stop_all m (i ∷ stopped)
]

-- The first block of the destructor, before it waits.
unfoldable pub begin_teardown : {P : Type 0} → Pipeline P → Pipeline P
begin_teardown s = record s { stopped = stop_all s.tracked s.stopped }

-- What the destructor waits for.
unfoldable pub callbacks_done : {P : Type 0} → Pipeline P → Bool
callbacks_done s = s.pending_store_callbacks == 0

unfoldable pub stats : {P : Type 0} → Pipeline P → PipelineStats
stats s = record {
  queued = length s.heap;
  inflight_fetches = s.inflight_fetches;
  queued_decodes = s.queued_decodes;
  ready = length s.ready;
  ready_pinned_bytes = s.ready_pinned_bytes;
}

stop_all-keeps :
    {P : Type 0} (m : List (BrickKey × Tracked P)) (stopped : List ℕ) (i : ℕ)
    → contains i stopped ≡ true
    → contains i (stop_all m stopped) ≡ true
unfolding stop_all contains
stop_all-keeps [] stopped i h = h
stop_all-keeps ((k, t) ∷ m) stopped i h = elim (Option-cases t.stop) [
  | inl e ↦ rw (e, stop_all) (stop_all-keeps m stopped i h)
  | inr (n, e) ↦ rw (e, stop_all) (stop_all-keeps m (n ∷ stopped) i (ground arith))
]

stop_all-stops :
    {P : Type 0} (m : List (BrickKey × Tracked P)) (stopped : List ℕ) (k : BrickKey) (t : Tracked P)
    (i : ℕ)
    → Assoc.lookup key_dec k m ≡ some t
    → t.stop ≡ some i
    → contains i (stop_all m stopped) ≡ true
unfolding stop_all contains Assoc.lookup
stop_all-stops [] stopped k t i found stop = absurd (cc)
stop_all-stops ((j, u) ∷ m) stopped k t i found stop = elim (key_dec j k) [
  | yes same ↦ elim (Option-cases u.stop) [
    | inl e ↦ absurd (ground arith)
    | inr (n, e) ↦ rw (e, stop_all) (stop_all-keeps m (n ∷ stopped) i (ground arith))
  ]
  | no other ↦ elim (Option-cases u.stop) [
    | inl e ↦ rw (e, stop_all) (stop_all-stops m stopped k t i (ground arith) stop)
    | inr (n, e) ↦ rw (e, stop_all) (stop_all-stops m (n ∷ stopped) k t i (ground arith) stop)
  ]
]

module _ {P : Type 0} ⦃f : FloatOrder P⦄ where
  -- The destructor tells every fetch that is under way to stop.
  pub begin_teardown-stops :
      (s : Pipeline P) (k : BrickKey) (t : Tracked P) (i : ℕ)
      → find k s ≡ some t
      → t.stop ≡ some i
      → contains i (begin_teardown s).stopped ≡ true
  unfolding begin_teardown
  begin_teardown-stops s k t i found stop = stop_all-stops s.tracked s.stopped k t i found stop
