-- ===== src/Data/Pipeline/Wanted.antt =====
-- src/data/ChunkFetchPipeline.cpp, `submit`: what becomes of the keys that are wanted.
use scrollviewer.Base.{
  ℕ, ◌+◌, ◌<◌, ◌≡◌, refl, ◌∙◌, ap, ◌⊎◌, inl, inr, not, ◌&&◌, Option, none, some, List, [], ◌∷◌,
  arith, add64, u64_mod, Option-cases, Bool-cases, All,
}
use scrollviewer.Base.Assoc
use scrollviewer.Data.BrickKey.{BrickKey, key_dec}
use scrollviewer.Data.Volume.{Volume}
use scrollviewer.Data.Pipeline.{
  FloatOrder, State, Tracked, HeapEntry, BrickRequest, Pipeline, find, is_queued, submit_one,
  submit_all, submit, push_request, issue, pump_one, pump_loop, pump,
}

abbrev pub epoch_of : {P : Type 0} → Option (Tracked P) → Option ℕ
epoch_of none = none
epoch_of (some t) = some t.epoch

module _ {P : Type 0} ⦃f : FloatOrder P⦄ where
  -- A key that the current epoch wants.
  abbrev pub IsWanted : Pipeline P → BrickKey → Type 0
  IsWanted s k = epoch_of (find k s) ≡ some s.current_epoch

  -- A round of `submit` writes one entry, with the current epoch and in the state that it had.
  pub submit_one_tracked :
      (r : BrickRequest P) (s : Pipeline P)
      → (t : Tracked P) × ((submit_one r s).tracked ≡ Assoc.insert key_dec r.key t s.tracked)
        × (t.epoch ≡ s.current_epoch)
        × ((submit_one r s).current_epoch ≡ s.current_epoch)
        × ((submit_one r s).stopped ≡ s.stopped)
  unfolding submit_one push_request
  submit_one_tracked r s = elim (Option-cases (find r.key s)) [
    | inl e ↦ rw (e, submit_one) (_, refl, refl, refl, refl)
    | inr (t, e) ↦ elim (Bool-cases (is_queued t.state && not (f.eq t.priority r.priority))) [
      | inl c ↦
          rw (e, submit_one, c)
            (record t { priority = r.priority; epoch = s.current_epoch }, refl, refl, refl, refl)
      | inr c ↦ rw (e, submit_one, c) (record t { epoch = s.current_epoch }, refl, refl, refl, refl)
    ]
  ]

  submit_one-IsWanted :
      (r : BrickRequest P) (s : Pipeline P) (k : BrickKey)
      → (r.key ≡ k) ⊎ IsWanted s k
      → IsWanted (submit_one r s) k
  submit_one-IsWanted r s k w =
      let (t, e, epoch, current, stopped) = submit_one_tracked r s in
      ground (arith, e, epoch, current, w, Assoc.lookup-insert key_dec r.key k t s.tracked)

  submit_one-Distinct :
      (r : BrickRequest P) (s : Pipeline P)
      → Assoc.Distinct key_dec s.tracked
      → Assoc.Distinct key_dec (submit_one r s).tracked
  submit_one-Distinct r s d =
      let (t, e, _, _, _) = submit_one_tracked r s in
      rw e (Assoc.insert-Distinct key_dec r.key t s.tracked d)

  submit_all-keeps :
      (rs : List (BrickRequest P)) (s : Pipeline P) (k : BrickKey)
      → IsWanted s k
      → IsWanted (submit_all rs s) k
  unfolding submit_all
  submit_all-keeps [] s k w = w
  submit_all-keeps (r ∷ rs) s k w =
      submit_all-keeps rs (submit_one r s) k (submit_one-IsWanted r s k (inr w))

  submit_all-IsWanted :
      (rs : List (BrickRequest P)) (s : Pipeline P)
      → All (λ (r : BrickRequest P). IsWanted (submit_all rs s) r.key) rs
  unfolding submit_all
  submit_all-IsWanted [] s = tt
  submit_all-IsWanted (r ∷ rs) s = (
    submit_all-keeps rs (submit_one r s) r.key (submit_one-IsWanted r s r.key (inl refl)),
    submit_all-IsWanted rs (submit_one r s),
  )

  submit_all-epoch :
      (rs : List (BrickRequest P)) (s : Pipeline P)
      → (submit_all rs s).current_epoch ≡ s.current_epoch
  unfolding submit_all
  submit_all-epoch [] s = refl
  submit_all-epoch (r ∷ rs) s =
      let (_, _, _, current, _) = submit_one_tracked r s in
      submit_all-epoch rs (submit_one r s) ∙ current

  submit_all-Distinct :
      (rs : List (BrickRequest P)) (s : Pipeline P)
      → Assoc.Distinct key_dec s.tracked
      → Assoc.Distinct key_dec (submit_all rs s).tracked
  unfolding submit_all
  submit_all-Distinct [] s d = d
  submit_all-Distinct (r ∷ rs) s d =
      submit_all-Distinct rs (submit_one r s) (submit_one-Distinct r s d)

  module _ (vol : Volume) where
    -- `pump` never drops a key of the current epoch.
    pump_one-IsWanted :
        (e : HeapEntry P) (s : Pipeline P) (k : BrickKey)
        → Assoc.Distinct key_dec s.tracked
        → s.current_epoch + 1 < u64_mod
        → IsWanted s k
        → IsWanted (pump_one vol e s) k
    unfolding pump_one issue
    pump_one-IsWanted e s k d small w = elim (Option-cases (find e.key s)) [
      | inl missing ↦ rw (missing, pump_one) w
      | inr (t, found) ↦
          let t' : Tracked P = record t { state = State.fetching; stop = some s.next_stop } in
          ground (
            arith,
            found,
            Assoc.lookup-erase key_dec e.key k s.tracked d,
            Assoc.lookup-insert key_dec e.key k t' s.tracked,
          )
    ]

    pump_one-epoch :
        (e : HeapEntry P) (s : Pipeline P) → (pump_one vol e s).current_epoch ≡ s.current_epoch
    unfolding pump_one issue
    pump_one-epoch e s = ground arith

    pump_one-Distinct :
        (e : HeapEntry P) (s : Pipeline P)
        → Assoc.Distinct key_dec s.tracked
        → Assoc.Distinct key_dec (pump_one vol e s).tracked
    unfolding pump_one issue
    pump_one-Distinct e s d = elim (Option-cases (find e.key s)) [
      | inl missing ↦ rw (missing, pump_one) d
      | inr (t, found) ↦
          let t' : Tracked P = record t { state = State.fetching; stop = some s.next_stop } in
          ground (
            arith,
            found,
            Assoc.erase-Distinct key_dec e.key s.tracked d,
            Assoc.insert-Distinct key_dec e.key t' s.tracked d,
          )
    ]

    pump_loop-IsWanted :
        (h : List (HeapEntry P)) (s : Pipeline P) (k : BrickKey)
        → Assoc.Distinct key_dec s.tracked
        → s.current_epoch + 1 < u64_mod
        → IsWanted s k
        → epoch_of (find k (pump_loop vol h s)) ≡ some s.current_epoch
    unfolding pump_loop
    pump_loop-IsWanted [] s k d small w = w
    pump_loop-IsWanted (e ∷ h) s k d small w = ground (
      arith,
      w,
      pump_one-epoch e s,
      pump_loop-IsWanted h (pump_one vol e s) k (pump_one-Distinct e s d)
          (rw (pump_one-epoch e s) small) (pump_one-IsWanted e s k d small w),
    )

    All-pump :
        (rs : List (BrickRequest P)) (s : Pipeline P) (n : ℕ)
        → Assoc.Distinct key_dec s.tracked
        → s.current_epoch ≡ n
        → n + 1 < u64_mod
        → All (λ (r : BrickRequest P). IsWanted s r.key) rs
        → All (λ (r : BrickRequest P). epoch_of (find r.key (pump vol s)) ≡ some n) rs
    unfolding pump
    All-pump [] s n d e small ws = tt
    All-pump (r ∷ rs) s n d e small ws = (
      pump_loop-IsWanted s.heap s r.key d (rw e small) ws.0 ∙ ap some e,
      All-pump rs s n d e small ws.1,
    )

    -- After `submit` every key that is wanted is tracked, as wanted by the new epoch, whether it was
    -- known before or not, as long as the epoch counter does not reach its last value.
    pub submit-IsWanted :
        (wanted : List (BrickRequest P)) (s : Pipeline P)
        → Assoc.Distinct key_dec s.tracked
        → s.current_epoch + 2 < u64_mod
        → All
            (λ (r : BrickRequest P).
              epoch_of (find r.key (submit vol wanted s)) ≡ some (s.current_epoch + 1))
            wanted
    unfolding submit
    submit-IsWanted wanted s d small =
        let s' : Pipeline P = record s { current_epoch = add64 s.current_epoch 1 } in
        All-pump wanted _ (s.current_epoch + 1) (submit_all-Distinct wanted s' d)
          (ground (arith, submit_all-epoch wanted s')) (omega arith) (submit_all-IsWanted wanted s')
