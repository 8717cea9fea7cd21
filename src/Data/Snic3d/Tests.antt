-- ===== src/Data/Snic3d/Tests.antt =====
-- src/data/Snic3D.cpp: runs on a small volume, with whole numbers, and their
-- distances, in place of `float` and `double`.
use scrollviewer.Base.{ℕ, ◌+◌, ◌-◌, ◌*◌, ◌/◌, ◌≡◌, refl, some, List, [], ◌∷◌, ltb, ◌==◌, arith}
use scrollviewer.Data.Snic3d.{
  Floats, Extent, axis, seed_grid, seek, pop, push_at, index_of, voxel_of, neighbours, seed,
  seed_all, add_voxel, distance, push_neighbour, push_all, visit, flood, clusters, seeded, flooded,
  snic3d,
}
use scrollviewer.Data.Snic3d.Segments.{Segments, snic3d-Segments}
use scrollviewer.Data.Snic3d.Otsu.{
  otsu_threshold, otsu_loop, sum_all, histogram, IsOrder, IsBestSplit, otsu_threshold-IsBestSplit,
}

abbrev whole : Floats ℕ ℕ
whole = record {
  float_of = λ n. n;
  narrow = λ n. n;
  add_f = ◌+◌;
  sub_f = ◌-◌;
  mul_f = ◌*◌;
  div_f = ◌/◌;
  cbrt_f = λ n. n;
  decimal = λ n k. n;
  to_int = λ n. n;
  double_of = λ n. n;
  widen = λ n. n;
  add_d = ◌+◌;
  sub_d = λ a b. a - b + (b - a);
  mul_d = ◌*◌;
  div_d = ◌/◌;
  is_above = λ a b. ltb b a;
  is_zero = λ n. n == 0;
  is_not_positive = λ n. n == 0;
  seed_step = λ n. n;
}

-- Two slices of two rows of three voxels; the seed is (1, 1, 1), and air is around its region.
abbrev dims : Extent
dims = record { dz = 2; dy = 2; dx = 3 }

abbrev voxel_data : List ℕ
voxel_data = 0 ∷ 0 ∷ 0 ∷ 0 ∷ 0 ∷ 0 ∷ 9 ∷ 0 ∷ 5 ∷ 7 ∷ 8 ∷ 0 ∷ []

one_cluster :
    snic3d whole dims voxel_data 2 1 3
    ≡ some (record { z = 0; y = 0; x = 0; mean = 0; count = 3 } ∷ [])
unfolding snic3d axis seed_grid seek pop push_at index_of voxel_of neighbours seed seed_all
    add_voxel distance push_neighbour push_all visit flood clusters seeded flooded
one_cluster = refl

snic3d-Segments_example : Segments whole dims voxel_data 3 2 1
snic3d-Segments_example = snic3d-Segments whole dims voxel_data 3 2 1 (omega arith) refl

whole-IsOrder : IsOrder whole
whole-IsOrder = record {
  irrefl = λ x. ground arith;
  asym = λ x y h. ground arith;
  trans = λ x y z h k. ground arith;
}

threshold : otsu_threshold whole (1 ∷ 1 ∷ 9 ∷ 9 ∷ []) ≡ 1
unfolding otsu_threshold otsu_loop sum_all histogram
threshold = refl

otsu_threshold-IsBestSplit_example : IsBestSplit whole (1 ∷ 1 ∷ 9 ∷ 9 ∷ [])
otsu_threshold-IsBestSplit_example =
    otsu_threshold-IsBestSplit whole whole-IsOrder (1 ∷ 1 ∷ 9 ∷ 9 ∷ []) refl
