-- ===== src/Data/Manifest/Scan.antt =====
-- src/tools/svmanifest_main.cpp and src/data/VolumeManifest.h: what `empty` and `invisible` say of the
-- chunks that the manifest was made from.
use scrollviewer.Base.{
  ℕ, ◌<◌, ◌≤◌, ◌≡◌, Option, none, some, List, [], ◌∷◌, arith, ltb, not, Bool, true, false,
  if◌then◌else◌, All, Bool-cases, inl, inr,
}
use scrollviewer.Data.Volume.{Dtype}
use scrollviewer.Data.Decode.{eight_bit, min_max}
use scrollviewer.Data.Manifest.{Grid, MinMax, at, empty, invisible, scan_chunk, make_level}
use scrollviewer.Data.Manifest.Read.{at-make_level}

-- The two modes of the tool, on chunks given by functions.
abbrev pub quick_cells : ℕ → Dtype → (ℕ → ℕ → ℕ → Bool) → ℕ → ℕ → ℕ → MinMax
quick_cells fill dtype exists z y x = scan_chunk false fill dtype (exists z y x) none

abbrev pub scan_cells :
    ℕ → Dtype → (ℕ → ℕ → ℕ → Bool) → (ℕ → ℕ → ℕ → Option (List ℕ)) → ℕ → ℕ → ℕ → MinMax
scan_cells fill dtype exists decoded z y x =
    scan_chunk true fill dtype (exists z y x) (decoded z y x)

-- Without `--scan`, the manifest calls exactly the absent chunks empty.
pub empty-quick_cells :
    (g : Grid) (fill : ℕ) (dtype : Dtype) (exists : ℕ → ℕ → ℕ → Bool) (z y x : ℕ)
    → z < g.z
    → y < g.y
    → x < g.x
    → empty fill (make_level g (quick_cells fill dtype exists)) z y x ≡ some (not (exists z y x))
unfolding empty scan_chunk
empty-quick_cells g fill dtype exists z y x hz hy hx = elim (Bool-cases (exists z y x)) [
  | inl e ↦ ground (arith, at-make_level g (quick_cells fill dtype exists) z y x hz hy hx)
  | inr e ↦ ground (arith, at-make_level g (quick_cells fill dtype exists) z y x hz hy hx)
]

-- The range that the loop ends with holds the one it began with and every value.
min_max-bounds :
    (lo hi : ℕ) (vs : List ℕ)
    → ((min_max lo hi vs).0 ≤ lo)
      × (hi ≤ (min_max lo hi vs).1)
      × All (λ v. ((min_max lo hi vs).0 ≤ v) × (v ≤ (min_max lo hi vs).1)) vs
unfolding min_max
min_max-bounds lo hi [] = (omega arith, omega arith, tt)
min_max-bounds lo hi (v ∷ vs) =
    let lo' = if ltb v lo then v else lo in
    let hi' = if ltb hi v then v else hi in
    let (low, high, rest) = min_max-bounds lo' hi' vs in
    (ground arith, ground arith, ((ground arith, ground arith), rest))

All-within :
    (lo hi a b : ℕ) (vs : List ℕ)
    → a ≤ lo
    → hi ≤ b
    → All (λ v. (lo ≤ v) × (v ≤ hi)) vs
    → All (λ v. (a ≤ v) × (v ≤ b)) vs
All-within lo hi a b [] h k ps = tt
All-within lo hi a b (v ∷ vs) h k ps =
    ((omega (arith, ps.0.0), omega (arith, ps.0.1)), All-within lo hi a b vs h k ps.1)

-- The range that the manifest holds of a chunk that was scanned.
at-scan_cells :
    (g : Grid) (fill : ℕ) (dtype : Dtype) (exists : ℕ → ℕ → ℕ → Bool)
    (decoded : ℕ → ℕ → ℕ → Option (List ℕ)) (z y x : ℕ) (bytes : List ℕ)
    → z < g.z
    → y < g.y
    → x < g.x
    → exists z y x ≡ true
    → decoded z y x ≡ some bytes
    → at (make_level g (scan_cells fill dtype exists decoded)) z y x
      ≡ some (record {
        min_val = (min_max 255 0 (eight_bit dtype bytes)).0;
        max_val = (min_max 255 0 (eight_bit dtype bytes)).1;
      })
unfolding scan_chunk
at-scan_cells g fill dtype exists decoded z y x bytes hz hy hx e d =
    ground (arith, at-make_level g (scan_cells fill dtype exists decoded) z y x hz hy hx)

-- With `--scan`, a chunk that the manifest calls invisible under a threshold has no voxel above it, in
-- the 8-bit domain.
pub invisible-scan_cells :
    (g : Grid) (fill : ℕ) (dtype : Dtype) (exists : ℕ → ℕ → ℕ → Bool)
    (decoded : ℕ → ℕ → ℕ → Option (List ℕ)) (z y x threshold : ℕ) (bytes : List ℕ)
    → z < g.z
    → y < g.y
    → x < g.x
    → exists z y x ≡ true
    → decoded z y x ≡ some bytes
    → invisible (make_level g (scan_cells fill dtype exists decoded)) z y x threshold ≡ some true
    → All (λ v. (0 ≤ v) × (v ≤ threshold)) (eight_bit dtype bytes)
unfolding invisible
invisible-scan_cells g fill dtype exists decoded z y x threshold bytes hz hy hx e d h =
    let (low, high, all) = min_max-bounds 255 0 (eight_bit dtype bytes) in
    All-within _ _ 0 threshold (eight_bit dtype bytes) (omega arith)
      (ground (arith, at-scan_cells g fill dtype exists decoded z y x bytes hz hy hx e d)) all

-- With `--scan`, every voxel of a chunk that the manifest calls empty has the fill value, in the 8-bit
-- domain.
pub empty-scan_cells :
    (g : Grid) (fill : ℕ) (dtype : Dtype) (exists : ℕ → ℕ → ℕ → Bool)
    (decoded : ℕ → ℕ → ℕ → Option (List ℕ)) (z y x : ℕ) (bytes : List ℕ)
    → z < g.z
    → y < g.y
    → x < g.x
    → exists z y x ≡ true
    → decoded z y x ≡ some bytes
    → empty fill (make_level g (scan_cells fill dtype exists decoded)) z y x ≡ some true
    → All (λ v. (fill ≤ v) × (v ≤ fill)) (eight_bit dtype bytes)
unfolding empty
empty-scan_cells g fill dtype exists decoded z y x bytes hz hy hx e d h =
    let (low, high, all) = min_max-bounds 255 0 (eight_bit dtype bytes) in
    let stored = at-scan_cells g fill dtype exists decoded z y x bytes hz hy hx e d in
    All-within _ _ fill fill (eight_bit dtype bytes) (ground (arith, stored))
      (ground (arith, stored)) all
