-- ===== src/Data/Snic3d/Segments.antt =====
-- src/data/Snic3D.cpp: what `snic3d` returns.
use scrollviewer.Base.{
  ℕ, zero, suc, ◌+◌, ◌*◌, ◌≡◌, ◌≤◌, ◌<◌, inl, inr, refl, sym, ap, ◌∙◌, true, false, Option, none,
  some, List, [], ◌∷◌, All, total, length, get_or, length-replicate, ◌==◌, if◌then◌else◌, get_elem?,
  arith, Bool-cases,
}
use scrollviewer.Data.Snic3d.{
  Floats, Extent, BucketQueue, Accum, Flooding, bright, new_accum, seed_grid, grid_step, seeded,
  flooded, clusters, is_refused, snic3d, voxel_count,
}
use scrollviewer.Data.Snic3d.Queue.{IsValid, Waits-none}
use scrollviewer.Data.Snic3d.Region.{volume, IsSmall, Adjacent, voxel_count-volume}
use scrollviewer.Data.Snic3d.Labels.{
  count, unlabelled, label_of, unlabelled-replicate, count-replicate, label_of-replicate, Region,
  start, grow,
}
use scrollviewer.Data.Snic3d.Grid.{seed_grid-Inside, length-seed_grid}
use scrollviewer.Data.Snic3d.Seeds.{
  get_elem?-lt, seeds_of, IsSeeded, IsSeeded-empty, seed_all-IsSeeded,
}
use scrollviewer.Data.Snic3d.Invariant.{Inv, IsSeen}
use scrollviewer.Data.Snic3d.Flood.{flood-Ends}

some-none : {k : ℕ} → some k ≡ none → ⊥
some-none h = cc

-- The sum of `f` below a bound.
unfoldable sum_to : ℕ → (ℕ → ℕ) → ℕ
sum_to zero f = 0
sum_to (suc m) f = f 0 + sum_to m (λ k. f (suc k))

sum_to_eq : (m : ℕ) (f g : ℕ → ℕ) → ((k : ℕ) → k < m → f k ≡ g k) → sum_to m f ≡ sum_to m g
unfolding sum_to
sum_to_eq zero f g h = refl
sum_to_eq (suc m) f g h =
    omega (arith, h 0 (omega arith), sum_to_eq m _ _ (λ k b. h (suc k) (omega arith)))

-- One more at one place.
sum_to_more :
    (m j : ℕ) (f g : ℕ → ℕ)
    → j < m
    → ((k : ℕ) → f k ≡ (if j == k then 1 else 0) + g k)
    → sum_to m f ≡ 1 + sum_to m g
unfolding sum_to
sum_to_more zero j f g b h = absurd (omega arith)
sum_to_more (suc m) zero f g b h =
    omega
      (arith, h 0, sum_to_eq m (λ k. f (suc k)) (λ k. g (suc k)) (λ k c. ground (arith, h (suc k))))
sum_to_more (suc m) (suc j) f g b h =
    let first : f 0 ≡ g 0 = ground (arith, h 0) in
    omega (
      arith,
      first,
      sum_to_more m j (λ k. f (suc k)) (λ k. g (suc k)) (omega arith)
          (λ k. ground (arith, h (suc k))),
    )

sum_to_zero : (m : ℕ) → sum_to m (λ k. 0) ≡ 0
unfolding sum_to
sum_to_zero zero = refl
sum_to_zero (suc m) = omega (arith, sum_to_zero m)

-- The labels below a bound are counted by the sum of their counts.
sum_to-count :
    (m : ℕ) (l : List (Option ℕ))
    → ((i k : ℕ) → label_of l i ≡ some k → k < m)
    → sum_to m (λ k. count k l) + unlabelled l ≡ length l
unfolding count unlabelled
sum_to-count m [] h = omega (arith, sum_to_zero m)
sum_to-count m (none ∷ l) h = omega (arith, sum_to-count m l (λ i k e. h (suc i) k e))
sum_to-count m (some j ∷ l) h = omega (
  arith,
  sum_to_more m j (λ k. count k (some j ∷ l)) (λ k. count k l) (h 0 j refl) (λ k. refl),
  sum_to-count m l (λ i k e. h (suc i) k e),
)

module _ {F D : Type 0} (fl : Floats F D) where
  total-clusters :
      (acc : List (Accum F D)) → total (λ c. c.count) (clusters fl acc) ≡ total (λ a. a.n) acc
  unfolding clusters
  total-clusters [] = refl
  total-clusters (a ∷ acc) = ground (arith, total-clusters acc)

  clusters_positive : (acc : List (Accum F D)) → All (λ c. 1 ≤ c.count) (clusters fl acc)
  unfolding clusters
  clusters_positive [] = tt
  clusters_positive (a ∷ acc) = ground (arith, clusters_positive acc)

  clusters_nil : (acc : List (Accum F D)) → length acc ≡ 0 → clusters fl acc ≡ []
  unfolding clusters
  clusters_nil [] h = refl
  clusters_nil (a ∷ acc) h = absurd (omega arith)

  total-acc :
      (acc : List (Accum F D))
      → total (λ a. a.n) acc ≡ sum_to (length acc) (λ k. (get_or acc k (new_accum fl)).n)
  unfolding sum_to
  total-acc [] = refl
  total-acc (a ∷ acc) = omega (arith, total-acc acc)

  module _ (d : Extent) (vol : List ℕ) (min_intensity : ℕ) (seed_fraction : D)
      (compactness : F) where
    -- The voxels of the grid that are above the intensity of air, in the order of the loops.
    abbrev pub seeds : List ℕ
    seeds = seeds_of fl d vol min_intensity (seed_grid d (grid_step fl seed_fraction))

    abbrev pub IsLight : ℕ → Type 0
    IsLight i = bright vol min_intensity i ≡ true

    abbrev pub IsLabelled : List (Option ℕ) → ℕ → Type 0
    IsLabelled label i = (k : ℕ) × (label_of label i ≡ some k)

    pub record Segments : Type 0 where
      pub out : Flooding F D
      pub floods : flooded fl d vol min_intensity seed_fraction compactness ≡ some out
      pub returns :
          snic3d fl d vol seed_fraction compactness min_intensity ≡ some (clusters fl out.acc)
      pub regions :
          (i k : ℕ) → label_of out.label i ≡ some k → IsLight i × Region d seeds out.label k i
      pub begun : (k i : ℕ) → get_elem? seeds k ≡ some i → IsLabelled out.label i
      pub closed :
          (i j : ℕ)
          → IsLabelled out.label i
          → i < volume d
          → Adjacent d i j
          → (j < volume d) × IsLight j
          → IsLabelled out.label j
      pub counted :
          (k : ℕ) → k < length seeds → (get_or out.acc k (new_accum fl)).n ≡ count k out.label
      pub whole : total (λ c. c.count) (clusters fl out.acc) + unlabelled out.label ≡ volume d
      pub positive : All (λ c. 1 ≤ c.count) (clusters fl out.acc)

    module _ (small : IsSmall d) where
      abbrev s0 : Flooding F D
      s0 = seeded fl d vol min_intensity seed_fraction

      seeded-IsSeeded :
          IsSeeded fl d vol min_intensity seeds (seeded fl d vol min_intensity seed_fraction)
      unfolding seeded
      seeded-IsSeeded = rw (voxel_count-volume d small) (
          seed_all-IsSeeded fl d vol min_intensity small (seed_grid d (grid_step fl seed_fraction))
            [] _ (seed_grid-Inside d _)
            (omega (arith, length-seed_grid d (grid_step fl seed_fraction)))
            (IsSeeded-empty fl d vol min_intensity))

      Inv-seeded : Inv fl d vol min_intensity seeds (seeded fl d vol min_intensity seed_fraction)
      Inv-seeded =
          let i = seeded-IsSeeded in
          let unlabelled_all : (j : ℕ) → label_of s0.label j ≡ none =
            λ j. ap (λ l. label_of l j) i.none_yet ∙ label_of-replicate (volume d) j in
          record {
            labels = ap length i.none_yet ∙ length-replicate (volume d) none;
            accs = i.accs;
            queue = i.queue;
            waiting = λ e w.
                let first = i.sound e w in
                let (range, lit) = i.lit e.k e.idx first in
                (range, get_elem?-lt seeds e.idx e.k first, lit, inl first);
            labelled = λ j k h. absurd (some-none (sym h ∙ unlabelled_all j));
            counted =
                λ k h. i.fresh k ∙ sym (ap (count k) i.none_yet ∙ count-replicate k (volume d));
            begun = λ k j h. inr (k, i.complete k j h);
            closed = λ j m k h r near ok. absurd (some-none (sym h ∙ unlabelled_all j));
          }

      enough : 7 * unlabelled s0.label + s0.pq.size < 7 * voxel_count d + length s0.acc + 1
      enough =
          let i = seeded-IsSeeded in
          omega (
            arith,
            ap unlabelled i.none_yet,
            unlabelled-replicate (volume d),
            i.sized,
            i.accs,
            voxel_count-volume d small,
          )

      seen-IsLabelled :
          (label : List (Option ℕ)) (q : BucketQueue) (i : ℕ)
          → IsValid q
          → q.size ≡ 0
          → IsSeen fl d vol min_intensity seeds label q i
          → IsLabelled label i
      seen-IsLabelled label q i v e (inl has) = has
      seen-IsLabelled label q i v e (inr (k, w)) = absurd (Waits-none v e _ w)

      region_cluster :
          {label : List (Option ℕ)} {k i : ℕ} → Region d seeds label k i → k < length seeds
      region_cluster {k} (start {i} first h) = get_elem?-lt seeds i k first
      region_cluster (grow r near h) = region_cluster r

      -- For a volume of fewer than 2^31 voxels that is not refused, the flood ends within its
      -- fuel. A voxel that has a label is above the intensity of air and is reached from the seed
      -- of its cluster through voxels of the cluster that touch; every seed has a label, and so
      -- has each voxel above that intensity that touches a labelled one; each cluster counts its
      -- voxels; the clusters that are returned are not empty and have all labelled voxels between
      -- them.
      pub snic3d-Segments : is_refused fl d vol seed_fraction ≡ false → Segments
      unfolding snic3d flooded
      snic3d-Segments accepted =
          let step = fl.float_of (grid_step fl seed_fraction) in
          let inv_s2 = fl.div_f (fl.float_of 1) (fl.mul_f step step) in
          let inv_m2 = fl.div_f (fl.float_of 1) (fl.mul_f compactness compactness) in
          let ends =
            flood-Ends fl d vol min_intensity seeds inv_s2 inv_m2 small _ s0 Inv-seeded enough in
          let inv = ends.inv in
          record {
            out = ends.out;
            floods = ends.returns;
            returns = elim (Bool-cases (length s0.acc == 0)) [
              | inr some_seed ↦ rw (snic3d, accepted, some_seed, ends.returns) refl
              | inl no_seed ↦
                  rw (snic3d, accepted, no_seed)
                    (sym (
                      ap some (
                        clusters_nil ends.out.acc
                          (ground (arith, inv.accs, seeded-IsSeeded.accs)))))
            ];
            regions = inv.labelled;
            begun = λ k i h. seen-IsLabelled _ _ i inv.queue ends.done (inv.begun k i h);
            closed = λ i j (k, h) r near ok.
                seen-IsLabelled _ _ j inv.queue ends.done (inv.closed i j k h r near ok);
            counted = inv.counted;
            whole = omega (
              arith,
              total-clusters ends.out.acc,
              total-acc ends.out.acc,
              sum_to_eq (length ends.out.acc) _ (λ k. count k ends.out.label)
                  (λ k b. inv.counted k (omega (arith, inv.accs))),
              sum_to-count (length ends.out.acc) ends.out.label
                  (λ i k h. omega (arith, inv.accs, region_cluster (inv.labelled i k h).1)),
              inv.labels,
            );
            positive = clusters_positive ends.out.acc;
          }
