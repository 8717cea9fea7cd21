-- ===== src/Data/Manifest.antt =====
-- src/data/VolumeManifest.h and VolumeManifest.cpp, the reader of a manifest, and the part of
-- src/tools/svmanifest_main.cpp that writes one. A byte is a number below 256.
pub mod Bytes
pub mod Parse
pub mod Read
pub mod Scan
pub mod Tests
use scrollviewer.Base.{
  ℕ, zero, suc, ◌+◌, ◌*◌, ◌/◌, ◌%◌, Bool, true, false, not, ◌&&◌, ◌||◌, Option, none, some, List,
  [], ◌∷◌, ◌++◌, ltb, leb, ◌==◌, if◌then◌else◌, length, take, drop, get_elem?, u64_mod,
}
use scrollviewer.Data.Volume.{Dtype}
use scrollviewer.Data.Decode.{eight_bit, min_max}

-- `Error`: its messages.
pub data Error : Type 0 where
  too_short bad_magic header_truncated : Error
  unsupported_version level_header_truncated level_data_truncated : ℕ → Error

pub data Result {ℓ} (A : Type ℓ) : Type ℓ where
  ok : A → Result A
  error : Error → Result A

pub record Grid : Type 0 where
  pub z : ℕ
  pub y : ℕ
  pub x : ℕ

pub record Level : Type 0 where
  pub grid : Grid
  pub data_bytes : List ℕ

pub record VolumeManifest : Type 0 where
  pub levels : List Level
  pub fill : ℕ

pub record MinMax : Type 0 where
  pub min_val : ℕ
  pub max_val : ℕ

-- A little-endian word and its bytes.
unfoldable pub word_of : List ℕ → ℕ
word_of [] = 0
word_of (b ∷ bs) = b + 256 * word_of bs

unfoldable pub word_bytes : ℕ → ℕ → List ℕ
word_bytes zero n = []
word_bytes (suc w) n = (n % 256) ∷ word_bytes w (n / 256)

-- `readPod` for a type of w bytes.
unfoldable pub read_pod : ℕ → List ℕ → Option (ℕ × List ℕ)
read_pod w input =
    if ltb (length input) w then none else some (word_of (take w input), drop w input)

unfoldable pub read_grid : List ℕ → Option (Grid × List ℕ)
read_grid input = elim (read_pod 4 input) [
  | none ↦ none
  | some (z, input1) ↦ elim (read_pod 4 input1) [
    | none ↦ none
    | some (y, input2) ↦ elim (read_pod 4 input2) [
      | none ↦ none
      | some (x, input3) ↦ some (record { z = z; y = y; x = x }, input3)
    ]
  ]
]

-- `std::size_t{grid[0]} * grid[1] * grid[2] * 2`, which wraps.
unfoldable pub data_size : Grid → ℕ
data_size g = (g.z * g.y * g.x * 2) % u64_mod

unfoldable pub add_level : Level → Result (List Level) → Result (List Level)
add_level l (error e) = error e
add_level l (ok ls) = ok (l ∷ ls)

-- The loop over the levels: how many are left, and the number of the next one.
unfoldable pub parse_levels : ℕ → ℕ → List ℕ → Result (List Level)
parse_levels zero i input = ok []
parse_levels (suc k) i input = elim (read_grid input) [
  | none ↦ error (level_header_truncated i)
  | some (g, rest) ↦
      let n = data_size g in
      let more = parse_levels k (suc i) (drop n rest) in
      if ltb (length rest) n
      then error (level_data_truncated i)
      else add_level (record { grid = g; data_bytes = take n rest }) more
]

-- "SVMF".
abbrev pub magic : List ℕ
magic = 83 ∷ 86 ∷ 77 ∷ 70 ∷ []

abbrev pub same : List ℕ → List ℕ → Bool
same [] [] = true
same (x ∷ xs) (y ∷ ys) = x == y && same xs ys
same _ _ = false

unfoldable pub with_levels : ℕ → Result (List Level) → Result VolumeManifest
with_levels fill (error e) = error e
with_levels fill (ok ls) = ok (record { levels = ls; fill = fill })

-- After the header's four fields.
unfoldable pub parse_body : ℕ → ℕ → ℕ → List ℕ → Result VolumeManifest
parse_body version fill level_count input =
    if not (version == 1)
    then error (unsupported_version version)
    else with_levels fill (parse_levels level_count 0 input)

unfoldable pub parse_header : List ℕ → Result VolumeManifest
parse_header input = elim (read_pod 4 input) [
  | none ↦ error header_truncated
  | some (version, input1) ↦ elim (read_pod 1 input1) [
    | none ↦ error header_truncated
    | some (fill, input2) ↦ elim (read_pod 1 input2) [
      | none ↦ error header_truncated
      | some (level_count, input3) ↦ elim (read_pod 2 input3) [
        | none ↦ error header_truncated
        | some (reserved, input4) ↦ parse_body version fill level_count input4
      ]
    ]
  ]
]

unfoldable pub parse : List ℕ → Result VolumeManifest
parse input =
    if ltb (length input) 4
    then error too_short
    else (if not (same (take 4 input) magic) then error bad_magic else parse_header (drop 4 input))

unfoldable pub level_count : VolumeManifest → ℕ
level_count m = length m.levels

unfoldable pub is_empty : List ℕ → Bool
is_empty [] = true
is_empty (b ∷ bs) = false

-- A level number that is not negative.
unfoldable pub has_level : VolumeManifest → ℕ → Bool
has_level m level = elim (get_elem? m.levels level) [
  | none ↦ false
  | some l ↦ not (is_empty l.data_bytes)
]

unfoldable pub cell_index : Grid → ℕ → ℕ → ℕ → ℕ
cell_index g z y x = ((z * g.y + y) * g.x + x) * 2

unfoldable pub read_cell : List ℕ → ℕ → Option MinMax
read_cell bs i = elim (get_elem? bs i) [
  | none ↦ none
  | some lo ↦ elim (get_elem? bs (i + 1)) [
    | none ↦ none
    | some hi ↦ some (record { min_val = lo; max_val = hi })
  ]
]

-- `at` on a level; `none` stands for a read outside the vector.
unfoldable pub at : Level → ℕ → ℕ → ℕ → Option MinMax
at l z y x =
    if leb l.grid.z z || (leb l.grid.y y || leb l.grid.x x)
    then some (record { min_val = 0; max_val = 255 })
    else read_cell l.data_bytes (cell_index l.grid z y x)

unfoldable pub empty : ℕ → Level → ℕ → ℕ → ℕ → Option Bool
empty fill l z y x = elim (at l z y x) [
  | none ↦ none
  | some mm ↦ some (mm.min_val == mm.max_val && mm.min_val == fill)
]

unfoldable pub invisible : Level → ℕ → ℕ → ℕ → ℕ → Option Bool
invisible l z y x threshold = elim (at l z y x) [
  | none ↦ none
  | some mm ↦ some (leb mm.max_val threshold)
]

-- The writer's bytes for a chunk: `exists` and `decoded` are what the file system and the codec say of
-- it, `decoded` being `none` when the file could not be read or decoded.
unfoldable pub scan_chunk : Bool → ℕ → Dtype → Bool → Option (List ℕ) → MinMax
scan_chunk scan fill dtype false decoded = record { min_val = fill; max_val = fill }
scan_chunk false fill dtype true decoded = record { min_val = 0; max_val = 255 }
scan_chunk true fill dtype true none = record { min_val = 0; max_val = 255 }
scan_chunk true fill dtype true (some bytes) =
    let (lo, hi) = min_max 255 0 (eight_bit dtype bytes) in record { min_val = lo; max_val = hi }

-- The bytes of the cells whose last coordinate is n or more below the bound, in order: the three nested
-- loops of the workers fill these places, each its own.
unfoldable pub scan_row : (ℕ → MinMax) → ℕ → ℕ → List ℕ
scan_row cell x zero = []
scan_row cell x (suc k) = (cell x).min_val ∷ (cell x).max_val ∷ scan_row cell (suc x) k

unfoldable pub scan_plane : (ℕ → ℕ → MinMax) → ℕ → ℕ → ℕ → List ℕ
scan_plane cell nx y zero = []
scan_plane cell nx y (suc k) = scan_row (cell y) 0 nx ++ scan_plane cell nx (suc y) k

unfoldable pub scan_level : (ℕ → ℕ → ℕ → MinMax) → ℕ → ℕ → ℕ → ℕ → List ℕ
scan_level cell ny nx z zero = []
scan_level cell ny nx z (suc k) = scan_plane (cell z) nx 0 ny ++ scan_level cell ny nx (suc z) k

unfoldable pub make_level : Grid → (ℕ → ℕ → ℕ → MinMax) → Level
make_level g cell = record { grid = g; data_bytes = scan_level cell g.y g.x 0 g.z }

-- What `main` writes to the file.
unfoldable pub write_level : Level → List ℕ
write_level l =
    word_bytes 4 l.grid.z ++ (word_bytes 4 l.grid.y ++ (word_bytes 4 l.grid.x ++ l.data_bytes))

unfoldable pub write_levels : List Level → List ℕ
write_levels [] = []
write_levels (l ∷ ls) = write_level l ++ write_levels ls

unfoldable pub write_manifest : ℕ → List Level → List ℕ
write_manifest fill ls =
    magic
    ++ (word_bytes 4 1
        ++ (word_bytes 1 fill ++ (word_bytes 1 (length ls) ++ (word_bytes 2 0 ++ write_levels ls))))
