-- ===== src/Data/Manifest/Read.antt =====
-- src/data/VolumeManifest.h, `at`: it stays inside the vector, and it reads the bytes of the brick.
use scrollviewer.Base.{
  ℕ, zero, suc, ◌+◌, ◌*◌, ◌<◌, ◌≡◌, refl, ap, ◌∙◌, sym, some, List, [], ◌∷◌, ◌++◌, arith, length,
  leb, ◌||◌, true, length-append, u64_mod, get_elem?, Bool-cases, inl, inr, All,
}
use scrollviewer.Data.Manifest.{
  Grid, Level, MinMax, VolumeManifest, ok, parse, data_size, cell_index, read_cell, at, scan_row,
  scan_plane, scan_level, make_level,
}
use scrollviewer.Data.Manifest.Parse.{IsFilled, parse-IsFilled}

level-IsFilled :
    (ls : List Level) (i : ℕ) (l : Level) → All IsFilled ls → get_elem? ls i ≡ some l → IsFilled l
level-IsFilled [] i l fs h = absurd (cc)
level-IsFilled (k ∷ ks) zero l fs h = ground (arith, fs.0)
level-IsFilled (k ∷ ks) (suc i) l fs h = level-IsFilled ks i l fs.1 h

get_elem?-below :
    {A : Type 0} (xs : List A) (i : ℕ) → i < length xs → (x : A) × (get_elem? xs i ≡ some x)
get_elem?-below [] i h = absurd (omega arith)
get_elem?-below (x ∷ xs) zero h = (x, refl)
get_elem?-below (x ∷ xs) (suc i) h = get_elem?-below xs i (omega arith)

read_cell-below :
    (bs : List ℕ) (i : ℕ) → i + 1 < length bs → (mm : MinMax) × (read_cell bs i ≡ some mm)
unfolding read_cell
read_cell-below bs i h =
    let (lo, e) = get_elem?-below bs i (omega arith) in
    let (hi, e') = get_elem?-below bs (i + 1) h in
    (record { min_val = lo; max_val = hi }, rw (read_cell, e, e') refl)

-- A place in a row-major box lies below its volume.
place_below : (a b i j : ℕ) → i < a → j < b → i * b + j < a * b
place_below zero b i j h k = absurd (omega arith)
place_below (suc a) b zero j h k = omega arith
place_below (suc a) b (suc i) j h k = omega (arith, place_below a b i j (omega arith) k)

pub cell_index_below :
    (g : Grid) (z y x : ℕ)
    → z < g.z
    → y < g.y
    → x < g.x
    → cell_index g z y x + 1 < g.z * g.y * g.x * 2
unfolding cell_index
cell_index_below g z y x hz hy hx =
    let h = place_below g.z g.y z y hz hy in
    let k = place_below (g.z * g.y) g.x (z * g.y + y) x h hx in omega arith

get_elem?-append_left :
    {A : Type 0} (xs ys : List A) (i : ℕ) → i < length xs → get_elem? (xs ++ ys) i ≡ get_elem? xs i
get_elem?-append_left [] ys i h = absurd (omega arith)
get_elem?-append_left (x ∷ xs) ys zero h = refl
get_elem?-append_left (x ∷ xs) ys (suc i) h = get_elem?-append_left xs ys i (omega arith)

get_elem?-append_right :
    {A : Type 0} (xs ys : List A) (i j : ℕ)
    → j ≡ length xs + i
    → get_elem? (xs ++ ys) j ≡ get_elem? ys i
get_elem?-append_right [] ys i j e = ground arith
get_elem?-append_right (x ∷ xs) ys i zero e = absurd (omega arith)
get_elem?-append_right (x ∷ xs) ys i (suc j) e = get_elem?-append_right xs ys i j (omega arith)

read_cell-left :
    (xs ys : List ℕ) (i : ℕ) → i + 1 < length xs → read_cell (xs ++ ys) i ≡ read_cell xs i
unfolding read_cell
read_cell-left xs ys i h =
    ground
      (arith, get_elem?-append_left xs ys i (omega arith), get_elem?-append_left xs ys (i + 1) h)

read_cell-right :
    (xs ys : List ℕ) (i j : ℕ) → j ≡ length xs + i → read_cell (xs ++ ys) j ≡ read_cell ys i
unfolding read_cell
read_cell-right xs ys i j e = ground (
  arith,
  get_elem?-append_right xs ys i j e,
  get_elem?-append_right xs ys (i + 1) (j + 1) (omega arith),
)

length-scan_row : (cell : ℕ → MinMax) (x n : ℕ) → length (scan_row cell x n) ≡ n * 2
unfolding scan_row
length-scan_row cell x zero = refl
length-scan_row cell x (suc n) = omega (arith, length-scan_row cell (suc x) n)

length-scan_plane :
    (cell : ℕ → ℕ → MinMax) (nx y n : ℕ) → length (scan_plane cell nx y n) ≡ n * nx * 2
unfolding scan_plane
length-scan_plane cell nx y zero = omega arith
length-scan_plane cell nx y (suc n) = omega (
  arith,
  length-scan_plane cell nx (suc y) n,
  length-scan_row (cell y) 0 nx,
  length-append (scan_row (cell y) 0 nx) (scan_plane cell nx (suc y) n),
)

length-scan_level :
    (cell : ℕ → ℕ → ℕ → MinMax) (ny nx z n : ℕ)
    → length (scan_level cell ny nx z n) ≡ n * ny * nx * 2
unfolding scan_level
length-scan_level cell ny nx z zero = omega arith
length-scan_level cell ny nx z (suc n) = omega (
  arith,
  length-scan_level cell ny nx (suc z) n,
  length-scan_plane (cell z) nx 0 ny,
  length-append (scan_plane (cell z) nx 0 ny) (scan_level cell ny nx (suc z) n),
)

-- The three lemmas that follow name the place and the brick that is there.
read_cell-scan_row :
    (cell : ℕ → MinMax) (x n k i p : ℕ)
    → k < n
    → i ≡ x + k
    → p ≡ k * 2
    → read_cell (scan_row cell x n) p ≡ some (cell i)
unfolding read_cell scan_row
read_cell-scan_row cell x zero k i p h e q = absurd (omega arith)
read_cell-scan_row cell x (suc n) zero i p h e q =
    let same : i ≡ x = omega arith in
    let first : p ≡ 0 = omega arith in
    ap (read_cell (scan_row cell x (suc n))) first ∙ ap (λ j. some (cell j)) (sym same)
read_cell-scan_row cell x (suc n) (suc k) i p h e q =
    read_cell-right ((cell x).min_val ∷ (cell x).max_val ∷ []) (scan_row cell (suc x) n) (k * 2) p
      (omega arith)
    ∙ read_cell-scan_row cell (suc x) n k i (k * 2) (omega arith) (omega arith) refl

read_cell-scan_plane :
    (cell : ℕ → ℕ → MinMax) (nx y n j x i p : ℕ)
    → j < n
    → x < nx
    → i ≡ y + j
    → p ≡ (j * nx + x) * 2
    → read_cell (scan_plane cell nx y n) p ≡ some (cell i x)
unfolding scan_plane
read_cell-scan_plane cell nx y zero j x i p h k e q = absurd (omega arith)
read_cell-scan_plane cell nx y (suc n) zero x i p h k e q =
    let same : i ≡ y = omega arith in
    read_cell-left (scan_row (cell y) 0 nx) (scan_plane cell nx (suc y) n) p
      (omega (arith, length-scan_row (cell y) 0 nx))
    ∙ read_cell-scan_row (cell y) 0 nx x x p k (omega arith) (omega arith)
    ∙ ap (λ j. some (cell j x)) (sym same)
read_cell-scan_plane cell nx y (suc n) (suc j) x i p h k e q =
    read_cell-right (scan_row (cell y) 0 nx) (scan_plane cell nx (suc y) n) ((j * nx + x) * 2) p
      (omega (arith, length-scan_row (cell y) 0 nx))
    ∙ read_cell-scan_plane cell nx (suc y) n j x i _ (omega arith) k (omega arith) refl

read_cell-scan_level :
    (cell : ℕ → ℕ → ℕ → MinMax) (ny nx z n j y x i p : ℕ)
    → j < n
    → y < ny
    → x < nx
    → i ≡ z + j
    → p ≡ ((j * ny + y) * nx + x) * 2
    → read_cell (scan_level cell ny nx z n) p ≡ some (cell i y x)
unfolding scan_level
read_cell-scan_level cell ny nx z zero j y x i p h k l e q = absurd (omega arith)
read_cell-scan_level cell ny nx z (suc n) zero y x i p h k l e q =
    let same : i ≡ z = omega arith in
    read_cell-left (scan_plane (cell z) nx 0 ny) (scan_level cell ny nx (suc z) n) p
      (omega (arith, length-scan_plane (cell z) nx 0 ny, place_below ny nx y x k l))
    ∙ read_cell-scan_plane (cell z) nx 0 ny y x y p k l (omega arith) (omega arith)
    ∙ ap (λ j. some (cell j y x)) (sym same)
read_cell-scan_level cell ny nx z (suc n) (suc j) y x i p h k l e q =
    read_cell-right (scan_plane (cell z) nx 0 ny) (scan_level cell ny nx (suc z) n)
      (((j * ny + y) * nx + x) * 2) p (omega (arith, length-scan_plane (cell z) nx 0 ny))
    ∙ read_cell-scan_level cell ny nx (suc z) n j y x i _ (omega arith) k l (omega arith) refl

-- Inside the grid, `at` reads the bytes that the writer has put in for that brick.
pub at-make_level :
    (g : Grid) (cell : ℕ → ℕ → ℕ → MinMax) (z y x : ℕ)
    → z < g.z
    → y < g.y
    → x < g.x
    → at (make_level g cell) z y x ≡ some (cell z y x)
unfolding at make_level cell_index
at-make_level g cell z y x hz hy hx =
    ground (arith, read_cell-scan_level cell g.y g.x 0 g.z z y x z _ hz hy hx (omega arith) refl)

at_in_grid :
    (l : Level) (z y x : ℕ)
    → z < l.grid.z
    → y < l.grid.y
    → x < l.grid.x
    → at l z y x ≡ read_cell l.data_bytes (cell_index l.grid z y x)
unfolding at
at_in_grid l z y x hz hy hx = ground arith

at_outside :
    (l : Level) (z y x : ℕ)
    → leb l.grid.z z || (leb l.grid.y y || leb l.grid.x x) ≡ true
    → at l z y x ≡ some (record { min_val = 0; max_val = 255 })
unfolding at
at_outside l z y x h = ground arith

-- On a level that the reader has accepted, `at` never reads outside the vector, whatever the
-- coordinates, provided that the size of the level's data did not wrap.
pub at_total :
    (input : List ℕ) (m : VolumeManifest) (level : ℕ) (l : Level) (z y x : ℕ)
    → parse input ≡ ok m
    → get_elem? m.levels level ≡ some l
    → l.grid.z * l.grid.y * l.grid.x * 2 < u64_mod
    → (mm : MinMax) × (at l z y x ≡ some mm)
unfolding data_size
at_total input m level l z y x accepted there fits =
    elim (Bool-cases (leb l.grid.z z || (leb l.grid.y y || leb l.grid.x x))) [
      | inl out ↦ (record { min_val = 0; max_val = 255 }, at_outside l z y x out)
      | inr inside ↦
          let filled : IsFilled l =
            level-IsFilled m.levels level l (parse-IsFilled input m accepted) there in
          let hz : z < l.grid.z = ground arith in
          let hy : y < l.grid.y = ground arith in
          let hx : x < l.grid.x = ground arith in
          let (mm, e) =
            read_cell-below l.data_bytes (cell_index l.grid z y x)
              (omega (arith, cell_index_below l.grid z y x hz hy hx, filled)) in
          (mm, at_in_grid l z y x hz hy hx ∙ e)
    ]
