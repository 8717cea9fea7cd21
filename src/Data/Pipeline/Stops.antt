-- ===== src/Data/Pipeline/Stops.antt =====
-- src/data/ChunkFetchPipeline.cpp, `submit`: what becomes of the fetches that are not wanted.
use scrollviewer.Base.{
  ℕ, ◌≡◌, ◌≢◌, refl, ◌∙◌, ap, inl, inr, true, false, some, List, [], ◌∷◌, map, arith, add64,
  Option-cases, All,
}
use scrollviewer.Base.Assoc
use scrollviewer.Data.BrickKey.{BrickKey, key_dec, packed, InRange, packed-injective}
use scrollviewer.Data.Volume.{Volume}
use scrollviewer.Data.Pipeline.{
  FloatOrder, State, Tracked, HeapEntry, BrickRequest, Pipeline, find, contains, cancel, submit_one,
  submit_all, submit, issue, pump_one, pump_loop, pump,
}
use scrollviewer.Data.Pipeline.Wanted.{submit_one_tracked}

module _ {P : Type 0} ⦃f : FloatOrder P⦄ where
  -- What `pump` leaves alone.
  module _ (vol : Volume) where
    pump_one-stopped : (e : HeapEntry P) (s : Pipeline P) → (pump_one vol e s).stopped ≡ s.stopped
    unfolding pump_one issue
    pump_one-stopped e s = ground arith

    pump_loop-stopped :
        (h : List (HeapEntry P)) (s : Pipeline P) → (pump_loop vol h s).stopped ≡ s.stopped
    unfolding pump_loop
    pump_loop-stopped [] s = refl
    pump_loop-stopped (e ∷ h) s =
        ground (arith, pump_one-stopped e s, pump_loop-stopped h (pump_one vol e s))

  cancel-keeps :
      (wanted : List ℕ) (m : List (BrickKey × Tracked P)) (stopped : List ℕ) (i : ℕ)
      → contains i stopped ≡ true
      → contains i (cancel wanted m stopped) ≡ true
  unfolding cancel contains
  cancel-keeps wanted [] stopped i h = h
  cancel-keeps wanted ((k, t) ∷ m) stopped i h = elim (Option-cases t.stop) [
    | inl e ↦ rw (e, cancel) (cancel-keeps wanted m stopped i h)
    | inr (n, e) ↦ rw (e, cancel) (cancel-keeps wanted m _ i (ground arith))
  ]

  cancel-stops :
      (wanted : List ℕ) (m : List (BrickKey × Tracked P)) (stopped : List ℕ) (k : BrickKey)
      (t : Tracked P) (i : ℕ)
      → Assoc.lookup key_dec k m ≡ some t
      → t.state ≡ State.fetching
      → t.stop ≡ some i
      → contains (packed k) wanted ≡ false
      → contains i (cancel wanted m stopped) ≡ true
  unfolding cancel contains Assoc.lookup
  cancel-stops wanted [] stopped k t i found fetched stop unwanted = absurd (cc)
  cancel-stops wanted ((j, u) ∷ m) stopped k t i found fetched stop unwanted = elim (key_dec j k) [
    | yes same ↦ elim (Option-cases u.stop) [
      | inl e ↦ absurd (ground arith)
      | inr (n, e) ↦ rw (e, cancel) (cancel-keeps wanted m _ i (ground arith))
    ]
    | no other ↦ elim (Option-cases u.stop) [
      | inl e ↦
          rw (e, cancel) (cancel-stops wanted m stopped k t i (ground arith) fetched stop unwanted)
      | inr (n, e) ↦
          rw (e, cancel) (cancel-stops wanted m _ k t i (ground arith) fetched stop unwanted)
    ]
  ]

  -- Keys that the packing can tell from `k`.
  abbrev pub Others : BrickKey → List (BrickRequest P) → Type 0
  Others k = All (λ (r : BrickRequest P). InRange r.key × (r.key ≢ k))

  packed-not_contains :
      (k : BrickKey) (wanted : List (BrickRequest P))
      → InRange k
      → Others k wanted
      → contains (packed k) (map (λ (r : BrickRequest P). packed r.key) wanted) ≡ false
  unfolding contains
  packed-not_contains k [] h o = refl
  packed-not_contains k (r ∷ rs) h o =
      ground (arith, packed-not_contains k rs h o.1, o.0.1, packed-injective r.key k o.0.0 h)

  submit_all_other :
      (rs : List (BrickRequest P)) (s : Pipeline P) (k : BrickKey)
      → Others k rs
      → find k (submit_all rs s) ≡ find k s
  unfolding submit_all
  submit_all_other [] s k o = refl
  submit_all_other (r ∷ rs) s k o =
      let (t, e, _, _, _) = submit_one_tracked r s in
      ground (
        arith,
        e,
        o.0.1,
        Assoc.lookup-insert key_dec r.key k t s.tracked,
        submit_all_other rs (submit_one r s) k o.1,
      )

  -- A fetch under way whose key is not wanted any more is told to stop, provided that its key and
  -- the wanted ones fit the packing.
  pub submit-stops :
      (vol : Volume) (wanted : List (BrickRequest P)) (s : Pipeline P) (k : BrickKey)
      (t : Tracked P) (i : ℕ)
      → InRange k
      → Others k wanted
      → find k s ≡ some t
      → t.state ≡ State.fetching
      → t.stop ≡ some i
      → contains i (submit vol wanted s).stopped ≡ true
  unfolding submit pump
  submit-stops vol wanted s k t i h o found fetched stop =
      let s' : Pipeline P =
        submit_all wanted (record s { current_epoch = add64 s.current_epoch 1 }) in
      let told =
        cancel-stops (map (λ (r : BrickRequest P). packed r.key) wanted) s'.tracked s'.stopped k t i
          (submit_all_other wanted _ k o ∙ found) fetched stop (packed-not_contains k wanted h o) in
      ap (contains i) (pump_loop-stopped vol _ _) ∙ told
