-- ===== src/Data/Snic3d.antt =====
-- src/data/Snic3D.cpp: the bucket queue, the flood that grows supervoxels from a grid of seeds, and
-- the list of clusters that it leaves. `float` and `double` are arguments with their operations.
-- A label of -1 is `none`.
mod Buckets
mod Voxels
pub mod Queue
pub mod Region
pub mod Labels
pub mod Pushes
pub mod Invariant
pub mod Grid
pub mod Seeds
pub mod Flood
pub mod Segments
pub mod Otsu
mod Tests
unfoldable pub use Buckets.*
unfoldable pub use Voxels.*
use scrollviewer.Base.{
  ℕ, zero, suc, ◌+◌, ◌-◌, ◌*◌, ◌/◌, ◌%◌, ◌^◌, max, min, Bool, true, false, ◌||◌, Option, none, some,
  List, [], ◌∷◌, ◌++◌, map, length, get_or, set, replicate, ltb, leb, ◌==◌, if◌then◌else◌,
}

-- The arithmetic on `float` (F) and `double` (D) that the file uses. `to_int` is the conversion to
-- `int`, with 0 for what is negative; `seed_step` is `lround(cbrt(1.0 / f))` as a `uint32_t`.
pub record Floats (F D : Type 0) : Type 0 where
  pub float_of : ℕ → F
  pub narrow : D → F
  pub add_f : F → F → F
  pub sub_f : F → F → F
  pub mul_f : F → F → F
  pub div_f : F → F → F
  pub cbrt_f : F → F
  pub decimal : ℕ → ℕ → F
  pub to_int : F → ℕ
  pub double_of : ℕ → D
  pub widen : F → D
  pub add_d : D → D → D
  pub sub_d : D → D → D
  pub mul_d : D → D → D
  pub div_d : D → D → D
  pub is_above : D → D → Bool
  pub is_zero : D → Bool
  pub is_not_positive : D → Bool
  pub seed_step : D → ℕ

pub record Accum (F D : Type 0) : Type 0 where
  pub z : D
  pub y : D
  pub x : D
  pub sum : D
  pub n : ℕ

pub record SnicCluster (F : Type 0) : Type 0 where
  pub z : F
  pub y : F
  pub x : F
  pub mean : F
  pub count : ℕ

pub record WorldSphere (F : Type 0) : Type 0 where
  pub x : F
  pub y : F
  pub z : F
  pub radius : F
  pub value : F

abbrev pub is_labelled : Option ℕ → Bool
is_labelled none = false
is_labelled (some k) = true

-- The voxel is above the intensity of air.
abbrev pub bright : List ℕ → ℕ → ℕ → Bool
bright vol min_intensity i = ltb min_intensity (get_or vol i 0)

-- What the loops of `snic3d` change: `label`, `acc` and `pq`.
pub record Flooding (F D : Type 0) : Type 0 where
  pub label : List (Option ℕ)
  pub acc : List (Accum F D)
  pub pq : BucketQueue

module _ {F D : Type 0} (fl : Floats F D) where
  open fl use {float_of, narrow, add_f, sub_f, mul_f, div_f, to_int, decimal, double_of, widen}
  open fl use {add_d, is_not_positive, seed_step}

  abbrev pub push : F → QEl → BucketQueue → BucketQueue
  push dist e q = push_at (to_int (mul_f dist (float_of 128))) e q

  abbrev pub new_accum : Accum F D
  new_accum = let o = double_of 0 in record { z = o; y = o; x = o; sum = o; n = 0 }

  -- `float(v) * (1.f / 255.f)`.
  abbrev intensity : ℕ → F
  intensity v = mul_f (float_of v) (div_f (float_of 1) (float_of 255))

  module _ (d : Extent) (vol : List ℕ) (min_intensity : ℕ) where
    -- The body of the loop over the seeds.
    unfoldable pub seed : Voxel → Flooding F D → Flooding F D
    seed v s =
        let i = index_of d v in
        if leb (get_or vol i 0) min_intensity then s else record s {
          pq = push (float_of 0) (record { idx = u32 i; k = u32 (length s.acc) }) s.pq;
          acc = s.acc ++ (new_accum ∷ []);
        }

    unfoldable pub seed_all : List Voxel → Flooding F D → Flooding F D
    seed_all [] s = s
    seed_all (v ∷ vs) s = seed_all vs (seed v s)

    module _ (inv_s2 inv_m2 : F) where
      -- `a` with the voxel added to it.
      unfoldable pub add_voxel : Accum F D → ℕ → Accum F D
      add_voxel a i =
          let v = voxel_of d i in
          record {
            z = add_d a.z (double_of v.z);
            y = add_d a.y (double_of v.y);
            x = add_d a.x (double_of v.x);
            sum = add_d a.sum (widen (intensity (get_or vol i 0)));
            n = u32 (a.n + 1);
          }

      -- The distance of a neighbour to the cluster.
      unfoldable pub distance : Accum F D → Voxel → ℕ → F
      distance a v ni =
          let inv = div_f (float_of 1) (float_of a.n) in
          let ddz = sub_f (float_of v.z) (mul_f (narrow a.z) inv) in
          let ddy = sub_f (float_of v.y) (mul_f (narrow a.y) inv) in
          let ddx = sub_f (float_of v.x) (mul_f (narrow a.x) inv) in
          let di = sub_f (intensity (get_or vol ni 0)) (mul_f (narrow a.sum) inv) in
          let space = add_f (add_f (mul_f ddz ddz) (mul_f ddy ddy)) (mul_f ddx ddx) in
          add_f (mul_f space inv_s2) (mul_f (mul_f di di) inv_m2)

      -- The lambda `push`.
      unfoldable pub push_neighbour :
          List (Option ℕ) → Accum F D → ℕ → Voxel → BucketQueue → BucketQueue
      push_neighbour label a k v q =
          let ni = index_of d v in
          if is_labelled (get_or label ni none) || leb (get_or vol ni 0) min_intensity
          then q
          else push (distance a v ni) (record { idx = u32 ni; k = k }) q

      unfoldable pub push_all :
          List (Option ℕ) → Accum F D → ℕ → List Voxel → BucketQueue → BucketQueue
      push_all label a k [] q = q
      push_all label a k (v ∷ vs) q = push_all label a k vs (push_neighbour label a k v q)

      -- The body of the loop, after the `pop`.
      unfoldable pub visit : QEl → Flooding F D → Flooding F D
      visit e s =
          let label = set s.label e.idx (some e.k) in
          let a = add_voxel (get_or s.acc e.k new_accum) e.idx in
          if is_labelled (get_or s.label e.idx none) then s else record {
            label = label;
            acc = set s.acc e.k a;
            pq = push_all label a e.k (neighbours d (voxel_of d e.idx)) s.pq;
          }

      -- `while (!pq.empty())`; `none` when the fuel runs out, or a `pop` finds nothing.
      unfoldable pub flood : ℕ → Flooding F D → Option (Flooding F D)
      flood zero s = none
      flood (suc fuel) s = elim (s.pq.size == 0) [
        | true ↦ some s
        | false ↦ elim (pop s.pq) [
          | none ↦ none
          | some (e, q) ↦ flood fuel (visit e (record s { pq = q }))
        ]
      ]

  -- The list of the clusters that have a voxel.
  unfoldable pub clusters : List (Accum F D) → List (SnicCluster F)
  clusters [] = []
  clusters (a ∷ rest) =
      let inv = div_f (float_of 1) (float_of a.n) in
      if a.n == 0
      then clusters rest
      else record {
        z = mul_f (narrow a.z) inv;
        y = mul_f (narrow a.y) inv;
        x = mul_f (narrow a.x) inv;
        mean = mul_f (narrow a.sum) inv;
        count = a.n;
      }
        ∷ clusters rest

  abbrev pub grid_step : D → ℕ
  grid_step seed_fraction = max 2 (seed_step seed_fraction)

  -- The state before the flood.
  unfoldable pub seeded : Extent → List ℕ → ℕ → D → Flooding F D
  seeded d vol min_intensity seed_fraction =
      seed_all d vol min_intensity (seed_grid d (grid_step seed_fraction))
        (record { label = replicate (voxel_count d) none; acc = []; pq = empty_queue })

  -- The state after it. The fuel is seven rounds for each voxel, one for each seed and one more.
  unfoldable pub flooded : Extent → List ℕ → ℕ → D → F → Option (Flooding F D)
  flooded d vol min_intensity seed_fraction compactness =
      let step = float_of (grid_step seed_fraction) in
      let inv_s2 = div_f (float_of 1) (mul_f step step) in
      let inv_m2 = div_f (float_of 1) (mul_f compactness compactness) in
      let s = seeded d vol min_intensity seed_fraction in
      flood d vol min_intensity inv_s2 inv_m2 (7 * voxel_count d + length s.acc + 1) s

  abbrev is_refused : Extent → List ℕ → D → Bool
  is_refused d vol seed_fraction =
      voxel_count d == 0 || ltb (length vol) (voxel_count d) || is_not_positive seed_fraction

  unfoldable pub snic3d : Extent → List ℕ → D → F → ℕ → Option (List (SnicCluster F))
  snic3d d vol seed_fraction compactness min_intensity =
      if is_refused d vol seed_fraction
        || length (seeded d vol min_intensity seed_fraction).acc == 0
      then some []
      else elim (flooded d vol min_intensity seed_fraction compactness) [
        | none ↦ none
        | some s ↦ some (clusters s.acc)
      ]

  -- `clustersToWorldSpheres`.
  unfoldable pub clusters_to_world_spheres : List (SnicCluster F) → F → ℕ → List (WorldSphere F)
  clusters_to_world_spheres [] voxel_scale min_count = []
  clusters_to_world_spheres (c ∷ cs) voxel_scale min_count =
      let half = decimal 5 1 in
      let rest = clusters_to_world_spheres cs voxel_scale min_count in
      let pi = decimal 314159265 8 in
      let volume = div_f (mul_f (float_of 3) (float_of c.count)) (mul_f (float_of 4) pi) in
      if ltb c.count min_count
      then rest
      else record {
        x = mul_f (add_f c.x half) voxel_scale;
        y = mul_f (add_f c.y half) voxel_scale;
        z = mul_f (add_f c.z half) voxel_scale;
        radius = mul_f (fl.cbrt_f volume) voxel_scale;
        value = c.mean;
      }
        ∷ rest
