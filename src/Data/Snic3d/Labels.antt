-- ===== src/Data/Snic3d/Labels.antt =====
-- src/data/Snic3D.cpp, `label`: how many voxels have a label, and the region of a label.
use scrollviewer.Base.{
  ℕ, zero, suc, ◌+◌, ◌≡◌, ◌≤◌, ◌<◌, refl, ap, ◌∙◌, Option, none, some, List, [], ◌∷◌, get_elem?,
  get_or, set, length, replicate, ◌==◌, if◌then◌else◌, arith, ℕ_discrete, get_or-set_ne,
}
use scrollviewer.Data.Snic3d.{Extent}
use scrollviewer.Data.Snic3d.Region.{Adjacent}

-- How many voxels have the label.
unfoldable pub count : ℕ → List (Option ℕ) → ℕ
count k [] = 0
count k (none ∷ l) = count k l
count k (some j ∷ l) = (if j == k then 1 else 0) + count k l

unfoldable pub unlabelled : List (Option ℕ) → ℕ
unlabelled [] = 0
unlabelled (none ∷ l) = 1 + unlabelled l
unlabelled (some j ∷ l) = unlabelled l

abbrev pub label_of : List (Option ℕ) → ℕ → Option ℕ
label_of l i = get_or l i none

pub count-le : (k : ℕ) (l : List (Option ℕ)) → count k l ≤ length l
unfolding count
count-le k [] = omega arith
count-le k (none ∷ l) = omega (arith, count-le k l)
count-le k (some j ∷ l) = ground (arith, count-le k l)

pub count-set :
    (l : List (Option ℕ)) (i k j : ℕ)
    → i < length l
    → label_of l i ≡ none
    → count j (set l i (some k)) ≡ (if k == j then 1 else 0) + count j l
unfolding count
count-set [] i k j h e = absurd (omega arith)
count-set (none ∷ l) zero k j h e = refl
count-set (some m ∷ l) zero k j h e = absurd (cc)
count-set (none ∷ l) (suc i) k j h e = count-set l i k j (omega arith) e
count-set (some m ∷ l) (suc i) k j h e = omega (arith, count-set l i k j (omega arith) e)

pub count-set_self :
    (l : List (Option ℕ)) (i k : ℕ)
    → i < length l
    → label_of l i ≡ none
    → count k (set l i (some k)) ≡ 1 + count k l
count-set_self l i k h e = ground (arith, count-set l i k k h e)

pub unlabelled-set :
    (l : List (Option ℕ)) (i k : ℕ)
    → i < length l
    → label_of l i ≡ none
    → unlabelled (set l i (some k)) + 1 ≡ unlabelled l
unfolding unlabelled
unlabelled-set [] i k h e = absurd (omega arith)
unlabelled-set (none ∷ l) zero k h e = omega arith
unlabelled-set (some m ∷ l) zero k h e = absurd (cc)
unlabelled-set (none ∷ l) (suc i) k h e = omega (arith, unlabelled-set l i k (omega arith) e)
unlabelled-set (some m ∷ l) (suc i) k h e = unlabelled-set l i k (omega arith) e

pub unlabelled-replicate : (n : ℕ) → unlabelled (replicate n none) ≡ n
unfolding unlabelled
unlabelled-replicate zero = refl
unlabelled-replicate (suc n) = omega (arith, unlabelled-replicate n)

pub count-replicate : (k n : ℕ) → count k (replicate n none) ≡ 0
unfolding count
count-replicate k zero = refl
count-replicate k (suc n) = omega (arith, count-replicate k n)

pub label_of-replicate : (n i : ℕ) → label_of (replicate n none) i ≡ none
label_of-replicate zero i = refl
label_of-replicate (suc n) zero = refl
label_of-replicate (suc n) (suc i) = label_of-replicate n i

-- A voxel that has no label gets one, and no other voxel changes.
pub label_of-set :
    (l : List (Option ℕ)) (i k j m : ℕ)
    → i < length l
    → label_of l i ≡ none
    → label_of l j ≡ some m
    → label_of (set l i (some k)) j ≡ some m
label_of-set l i k j m h e f = elim (ℕ_discrete i j) [
  | yes same ↦ absurd (ground (arith, ap (label_of l) same))
  | no ne ↦ get_or-set_ne l i j (some k) none ne ∙ f
]

-- The voxels that are reached from the seed of a label through voxels of the label.
pub data Region (d : Extent) (seeds : List ℕ) (label : List (Option ℕ)) (k : ℕ) : ℕ → Type 0 where
  start :
      {i : ℕ} → get_elem? seeds k ≡ some i → label_of label i ≡ some k → Region d seeds label k i
  grow :
      {i j : ℕ}
      → Region d seeds label k i
      → Adjacent d i j
      → label_of label j ≡ some k
      → Region d seeds label k j

pub Region-set :
    {d : Extent} {seeds : List ℕ} {label : List (Option ℕ)} {k j : ℕ} (i m : ℕ)
    → i < length label
    → label_of label i ≡ none
    → Region d seeds label k j
    → Region d seeds (set label i (some m)) k j
Region-set {label} {k} i m h e (start {i = j} s f) = start s (label_of-set label i m j k h e f)
Region-set {label} {k} i m h e (grow {j} r near f) =
    grow (Region-set i m h e r) near (label_of-set label i m j k h e f)
