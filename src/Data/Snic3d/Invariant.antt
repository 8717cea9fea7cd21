-- ===== src/Data/Snic3d/Invariant.antt =====
-- src/data/Snic3D.cpp: what holds between two rounds of the flood, and that a round keeps it.
use scrollviewer.Base.{
  ℕ, ◌+◌, ◌≡◌, ◌≤◌, ◌<◌, ◌⊎◌, inl, inr, sym, ap, subst, ◌∙◌, true, Option, none, some, List, length,
  get_elem?, get_or, set, arith, Option-cases, ℕ_discrete, length-set, get_or-set_self,
  get_or-set_ne,
}
use scrollviewer.Data.Snic3d.{
  Floats, Extent, Voxel, QEl, BucketQueue, Accum, Flooding, u32, index_of, voxel_of, bright,
  new_accum, add_voxel, neighbours, push_all,
}
use scrollviewer.Data.Snic3d.Queue.{Waits, IsValid, Popped}
use scrollviewer.Data.Snic3d.Region.{
  Inside, volume, IsSmall, Adjacent, Touches, index_of-lt, voxel_of-index_of, index_of-voxel_of,
  mem-neighbours, length-neighbours,
}
use scrollviewer.Data.Snic3d.Labels.{
  count, unlabelled, label_of, count-le, count-set, count-set_self, unlabelled-set, label_of-set,
  Region, start, grow, Region-set,
}
use scrollviewer.Data.Snic3d.Pushes.{Pushes, push_all-Pushes}

module _ {F D : Type 0} (fl : Floats F D) (d : Extent) (vol : List ℕ) (min_intensity : ℕ)
    (seeds : List ℕ) where
  abbrev pub IsLight : ℕ → Type 0
  IsLight i = bright vol min_intensity i ≡ true

  abbrev pub n_of : List (Accum F D) → ℕ → ℕ
  n_of acc k = (get_or acc k (new_accum fl)).n

  -- The voxel has a label, or waits for one.
  abbrev pub IsSeen : List (Option ℕ) → BucketQueue → ℕ → Type 0
  IsSeen label q i =
      ((k : ℕ) × (label_of label i ≡ some k)) ⊎ (k : ℕ) × Waits (record { idx = i; k = k }) q

  -- An element may take its cluster's label: it is the seed, or next to the region.
  abbrev pub IsDue : List (Option ℕ) → QEl → Type 0
  IsDue label e =
      (e.idx < volume d)
      × (e.k < length seeds)
      × IsLight e.idx
      × ((get_elem? seeds e.k ≡ some e.idx)
          ⊎ (i : ℕ) × Region d seeds label e.k i × Adjacent d i e.idx)

  -- `waiting` and `labelled` are what is safe, `begun` and `closed` that nothing is left out.
  pub record Inv (s : Flooding F D) : Type 0 where
    pub labels : length s.label ≡ volume d
    pub accs : length s.acc ≡ length seeds
    pub queue : IsValid s.pq
    pub waiting : (e : QEl) → Waits e s.pq → IsDue s.label e
    pub labelled : (i k : ℕ) → label_of s.label i ≡ some k → IsLight i × Region d seeds s.label k i
    pub counted : (k : ℕ) → k < length seeds → n_of s.acc k ≡ count k s.label
    pub begun : (k i : ℕ) → get_elem? seeds k ≡ some i → IsSeen s.label s.pq i
    pub closed :
        (i j k : ℕ)
        → label_of s.label i ≡ some k
        → i < volume d
        → Adjacent d i j
        → (j < volume d) × IsLight j
        → IsSeen s.label s.pq j

  module _ (inv_s2 inv_m2 : F) (small : IsSmall d) (s : Flooding F D) (inv : Inv s)
      (p : Popped s.pq) where
    abbrev e : QEl
    e = p.el

    due : IsDue s.label e
    due = inv.waiting e p.was

    -- The voxel had a label: the element is dropped.
    pub Inv-skip : (m : ℕ) → label_of s.label e.idx ≡ some m → Inv (record s { pq = p.rest })
    Inv-skip m taken = record {
      labels = inv.labels;
      accs = inv.accs;
      queue = p.valid;
      waiting = λ o w. inv.waiting o (p.from o w);
      labelled = inv.labelled;
      counted = inv.counted;
      begun = λ k i h. seen i (inv.begun k i h);
      closed = λ i j k h r near ok. seen j (inv.closed i j k h r near ok);
    }
      where
        seen : (i : ℕ) → IsSeen s.label s.pq i → IsSeen s.label p.rest i
        seen i (inl has) = inl has
        seen i (inr (k, w)) = elim (p.kept (record { idx = i; k = k }) w) [
          | inr later ↦ inr (k, later)
          | inl this ↦ inl (m, rw (ap (λ o. label_of s.label (QEl.idx o)) this) taken)
        ]

    abbrev pub new_label : List (Option ℕ)
    new_label = set s.label e.idx (some e.k)

    abbrev pub new_acc : Accum F D
    new_acc = add_voxel fl d vol min_intensity inv_s2 inv_m2 (get_or s.acc e.k (new_accum fl)) e.idx

    abbrev pub committed : Flooding F D
    committed = record {
      label = new_label;
      acc = set s.acc e.k new_acc;
      pq =
          push_all fl d vol min_intensity inv_s2 inv_m2 new_label new_acc e.k
            (neighbours d (voxel_of d e.idx)) p.rest;
    }

    module _ (free : label_of s.label e.idx ≡ none) where
      idx-lt : e.idx < length s.label
      idx-lt = omega (arith, inv.labels, due.0)

      pushes :
          Pushes fl d vol min_intensity inv_s2 inv_m2 new_label new_acc e.k
            (neighbours d (voxel_of d e.idx))
            p.rest
            committed.pq
      pushes =
          push_all-Pushes fl d vol min_intensity inv_s2 inv_m2 new_label new_acc e.k _ p.rest
            p.valid

      now : label_of new_label e.idx ≡ some e.k
      now = get_or-set_self s.label e.idx (some e.k) none idx-lt

      old_label : (j m : ℕ) → label_of s.label j ≡ some m → label_of new_label j ≡ some m
      old_label j m f = label_of-set s.label e.idx e.k j m idx-lt free f

      old_region : (k i : ℕ) → Region d seeds s.label k i → Region d seeds new_label k i
      old_region k i r = Region-set e.idx e.k idx-lt free r

      here : Region d seeds new_label e.k e.idx
      here = elim due.3 [
        | inl first ↦ start first now
        | inr (i, r, near) ↦ grow (old_region e.k i r) near now
      ]

      seen : (i : ℕ) → IsSeen s.label s.pq i → IsSeen new_label committed.pq i
      seen i (inl (k, has)) = inl (k, old_label i k has)
      seen i (inr (k, w)) = elim (p.kept (record { idx = i; k = k }) w) [
        | inr later ↦ inr (k, pushes.kept _ later)
        | inl this ↦ inl (e.k, rw (ap (λ o. label_of new_label (QEl.idx o)) this) now)
      ]

      still_due : (o : QEl) → IsDue s.label o → IsDue new_label o
      still_due o (range, cluster, lit, inl first) = (range, cluster, lit, inl first)
      still_due o (range, cluster, lit, inr (i, r, near)) =
          (range, cluster, lit, inr (i, old_region o.k i r, near))

      index_eq : (v : Voxel) → Inside d v → u32 (index_of d v) ≡ index_of d v
      index_eq v ok = omega (arith, index_of-lt d small v ok)

      new_due :
          (v : Voxel)
          → Touches (voxel_of d e.idx) v
          → Inside d v
          → IsLight (index_of d v)
          → IsDue new_label (record { idx = u32 (index_of d v); k = e.k })
      unfolding Adjacent
      new_due v near ok lit = rw (index_eq v ok) (
        index_of-lt d small v ok,
        due.1,
        lit,
        inr (e.idx, here, rw (voxel_of-index_of d small v ok) near),
      )

      reached :
          (j : ℕ) → Adjacent d e.idx j → j < volume d → IsLight j → IsSeen new_label committed.pq j
      unfolding Adjacent
      reached j near range lit = elim (Option-cases (label_of new_label j)) [
        | inr (k, has) ↦ inl (k, has)
        | inl free_j ↦
            let v = voxel_of d j in
            let (ok, back) = index_of-voxel_of d small j range in
            let m =
              (mem-neighbours d (voxel_of d e.idx) v (index_of-voxel_of d small e.idx due.0).0).1
                (near, ok) in
            let index : u32 (index_of d v) ≡ j = index_eq v ok ∙ back in
            let w = pushes.pushed v m (rw (back) (free_j, lit)) in
            inr (e.k, subst (λ i. Waits (record { idx = i; k = e.k }) committed.pq) index w)
      ]

      waiting : (o : QEl) → Waits o committed.pq → IsDue new_label o
      waiting o w = elim (pushes.from o w) [
        | inl earlier ↦ still_due o (inv.waiting o (p.from o earlier))
        | inr (v, m, (_, lit), same) ↦
            let (near, ok) =
              (mem-neighbours d (voxel_of d e.idx) v (index_of-voxel_of d small e.idx due.0).0).0
                m in
            subst (IsDue new_label) (sym same) (new_due v near ok lit)
      ]

      labelled :
          (i k : ℕ) → label_of new_label i ≡ some k → IsLight i × Region d seeds new_label k i
      labelled i k h = elim (ℕ_discrete e.idx i) [
        | yes same ↦
            let k_eq : some e.k ≡ some k = sym now ∙ ap (label_of new_label) same ∙ h in
            let cluster : e.k ≡ k = cc in
            subst (λ j. IsLight j × Region d seeds new_label k j) same
              (due.2, subst (λ m. Region d seeds new_label m e.idx) cluster here)
        | no ne ↦
            let (lit, r) = inv.labelled i k (sym (get_or-set_ne s.label e.idx i _ none ne) ∙ h) in
            (lit, old_region k i r)
      ]

      counted : (k : ℕ) → k < length seeds → n_of committed.acc k ≡ count k new_label
      unfolding add_voxel
      counted k h = elim (ℕ_discrete e.k k) [
        | yes same ↦ rw (← same) (
            let a =
              get_or-set_self s.acc e.k new_acc (new_accum fl) (omega (arith, inv.accs, due.1)) in
            ap Accum.n a
            ∙ omega (
              arith,
              inv.counted e.k due.1,
              count-set_self s.label e.idx e.k idx-lt free,
              count-le e.k new_label,
              length-set s.label e.idx (some e.k),
              inv.labels,
              small,
            ))
        | no ne ↦
            ap Accum.n (get_or-set_ne s.acc e.k k new_acc (new_accum fl) ne)
            ∙ ground (arith, inv.counted k h, count-set s.label e.idx e.k k idx-lt free)
      ]

      closed :
          (i j k : ℕ)
          → label_of new_label i ≡ some k
          → i < volume d
          → Adjacent d i j
          → (j < volume d) × IsLight j
          → IsSeen new_label committed.pq j
      closed i j k h r near (range, lit) = elim (ℕ_discrete e.idx i) [
        | yes same ↦ reached j (rw same near) range lit
        | no ne ↦ seen j (
            inv.closed i j k (sym (get_or-set_ne s.label e.idx i _ none ne) ∙ h) r near
              (range, lit))
      ]

      pub Inv-commit : Inv committed
      Inv-commit = record {
        labels = length-set s.label e.idx _ ∙ inv.labels;
        accs = length-set s.acc e.k _ ∙ inv.accs;
        queue = pushes.valid;
        waiting = waiting;
        labelled = labelled;
        counted = counted;
        begun = λ k i h. seen i (inv.begun k i h);
        closed = closed;
      }

      -- The voxel leaves those that wait for a label, and pushes its neighbours.
      pub size-committed :
          (unlabelled new_label + 1 ≡ unlabelled s.label) × (committed.pq.size + 1 ≤ s.pq.size + 6)
      size-committed = (
        unlabelled-set s.label e.idx e.k idx-lt free,
        omega (arith, pushes.size, p.size, length-neighbours d (voxel_of d e.idx)),
      )
