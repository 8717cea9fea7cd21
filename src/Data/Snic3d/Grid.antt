-- ===== src/Data/Snic3d/Grid.antt =====
-- src/data/Snic3D.cpp: the grid of seeds is inside the volume.
use scrollviewer.Base.{
  ℕ, zero, suc, ◌+◌, ◌*◌, ◌≡◌, ◌≤◌, ◌<◌, refl, ap, List, [], ◌∷◌, ◌++◌, map, All, length,
  length-append, arith,
}
use scrollviewer.Data.Snic3d.{Extent, Voxel, u32, axis, along, concat_map, seed_grid}
use scrollviewer.Data.Snic3d.Queue.{}
use scrollviewer.Data.Snic3d.Region.{Inside, volume}
use native.Mathlib.Nat.{mul_assoc}

All-append : {A : Type 0} (P : A → Type 0) (xs ys : List A) → All P xs → All P ys → All P (xs ++ ys)
All-append P [] ys hx hy = hy
All-append P (x ∷ xs) ys hx hy = (hx.0, All-append P xs ys hx.1 hy)

All-concat_map :
    {A B : Type 0} (P : A → Type 0) (Q : B → Type 0) (f : A → List B) (xs : List A)
    → ((x : A) → P x → All Q (f x))
    → All P xs
    → All Q (concat_map f xs)
All-concat_map P Q f [] each h = tt
All-concat_map P Q f (x ∷ xs) each h =
    All-append Q (f x) (concat_map f xs) (each x h.0) (All-concat_map P Q f xs each h.1)

All-map :
    {A B : Type 0} (P : A → Type 0) (Q : B → Type 0) (f : A → B) (xs : List A)
    → ((x : A) → P x → Q (f x))
    → All P xs
    → All Q (map f xs)
All-map P Q f [] each h = tt
All-map P Q f (x ∷ xs) each h = (each x h.0, All-map P Q f xs each h.1)

length-map : {A B : Type 0} (f : A → B) (xs : List A) → length (map f xs) ≡ length xs
length-map f [] = refl
length-map f (x ∷ xs) = ap suc (length-map f xs)

length-concat_map :
    {A B : Type 0} (f : A → List B) (m : ℕ) (xs : List A)
    → ((x : A) → length (f x) ≤ m)
    → length (concat_map f xs) ≤ length xs * m
length-concat_map f m [] h = omega arith
length-concat_map f m (x ∷ xs) h =
    grind (arith, length-append (f x) (concat_map f xs), h x, length-concat_map f m xs h)

length-axis : (step d left i : ℕ) → length (axis step d left i) ≤ left
unfolding axis
length-axis step d zero i = omega arith
length-axis step d (suc left) i = ground (arith, length-axis step d left (u32 (i + step)))

axis-lt : (step d left i : ℕ) → All (λ j. j < d) (axis step d left i)
unfolding axis
axis-lt step d zero i = tt
axis-lt step d (suc left) i = ground (arith, axis-lt step d left (u32 (i + step)))

mul_mono : (a b c e : ℕ) → a ≤ b → c ≤ e → a * c ≤ b * e
mul_mono a b c e h k = grind arith

pub seed_grid-Inside : (d : Extent) (step : ℕ) → All (Inside d) (seed_grid d step)
unfolding seed_grid
seed_grid-Inside d step =
    All-concat_map (λ z. z < d.dz) (Inside d) _ (along step d.dz)
      (λ z hz.
        All-concat_map (λ y. y < d.dy) (Inside d) _ (along step d.dy)
          (λ y hy.
            All-map (λ x. x < d.dx) (Inside d) _ (along step d.dx) (λ x hx. (hz, hy, hx))
              (axis-lt step d.dx d.dx _))
          (axis-lt step d.dy d.dy _))
      (axis-lt step d.dz d.dz _)

pub length-seed_grid : (d : Extent) (step : ℕ) → length (seed_grid d step) ≤ volume d
unfolding seed_grid
length-seed_grid d step =
    let row : ℕ → ℕ → List Voxel =
      λ z y. map (λ x. record { z = z; y = y; x = x }) (along step d.dx) in
    let plane : ℕ → List Voxel = λ z. concat_map (row z) (along step d.dy) in
    let row-le : (z y : ℕ) → length (row z y) ≤ d.dx =
      λ z y. rw (length-map _ (along step d.dx)) (length-axis step d.dx d.dx _) in
    let plane-le : (z : ℕ) → length (plane z) ≤ d.dy * d.dx = λ z. omega (
      arith,
      length-concat_map (row z) d.dx (along step d.dy) (row-le z),
      mul_mono (length (along step d.dy)) d.dy d.dx d.dx (length-axis step d.dy d.dy _)
          (omega arith),
    ) in
    omega (
      arith,
      length-concat_map plane (d.dy * d.dx) (along step d.dz) plane-le,
      mul_mono (length (along step d.dz)) d.dz (d.dy * d.dx) (d.dy * d.dx)
          (length-axis step d.dz d.dz _) (omega arith),
      mul_assoc d.dz d.dy d.dx,
    )
