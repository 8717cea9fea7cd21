-- ===== src/Data/Manifest/Tests.antt =====
-- src/data/VolumeManifest.cpp: a manifest of one level with two bricks, the second one absent.
use scrollviewer.Base.{
  ℕ, ◌≡◌, ◌<◌, ◌≤◌, ◌*◌, refl, true, Bool, Option, some, List, [], ◌∷◌, arith, All, u64_mod, ◌==◌,
}
use scrollviewer.Data.Volume.{Dtype}
use scrollviewer.Data.Decode.{eight_bit, min_max}
use scrollviewer.Data.Manifest.{
  Grid, Level, MinMax, VolumeManifest, ok, parse, write_manifest, make_level, scan_level,
  scan_plane, scan_row, scan_chunk, data_size, at, empty, invisible, cell_index, read_cell,
}
use scrollviewer.Data.Manifest.Parse.{IsWritable, parse-write_manifest}
use scrollviewer.Data.Manifest.Read.{at_total}
use scrollviewer.Data.Manifest.Scan.{
  quick_cells, scan_cells, invisible-scan_cells, empty-scan_cells,
}

abbrev grid : Grid
grid = record { z = 1; y = 1; x = 2 }

abbrev first_only : ℕ → ℕ → ℕ → Bool
first_only z y x = x == 0

abbrev chunk : List ℕ
chunk = 3 ∷ 9 ∷ 4 ∷ []

abbrev chunks : ℕ → ℕ → ℕ → Option (List ℕ)
chunks z y x = some chunk

abbrev flat_chunks : ℕ → ℕ → ℕ → Option (List ℕ)
flat_chunks z y x = some (7 ∷ 7 ∷ [])

abbrev level : Level
level = make_level grid (quick_cells 7 Dtype.u8 first_only)

program : Unit {0}
unfolding make_level scan_level scan_plane scan_row scan_chunk data_size at empty invisible
    cell_index read_cell eight_bit min_max
program = tt

level-IsWritable : IsWritable level
unfolding program
level-IsWritable = record {
  z_fits = omega arith;
  y_fits = omega arith;
  x_fits = omega arith;
  filled = refl;
  size_fits = omega arith;
}

abbrev levels : List Level
levels = level ∷ []

abbrev manifest : VolumeManifest
manifest = record { levels = levels; fill = 7 }

-- The manifest is read back.
accepted : parse (write_manifest 7 levels) ≡ ok manifest
accepted = parse-write_manifest 7 levels (omega arith) (omega arith) (level-IsWritable, tt)

parse-write_manifest_example : parse (write_manifest 7 levels) ≡ ok manifest
parse-write_manifest_example =
    parse-write_manifest 7 levels (omega arith) (omega arith) (level-IsWritable, tt)

size_fits : 1 * 1 * 2 * 2 < u64_mod
size_fits = omega arith

at_total_example : (mm : MinMax) × (at level 0 0 1 ≡ some mm)
unfolding make_level
at_total_example = at_total (write_manifest 7 levels) manifest 0 level 0 0 1 accepted refl size_fits

seen : invisible (make_level grid (scan_cells 7 Dtype.u8 first_only chunks)) 0 0 0 9 ≡ some true
unfolding program
seen = refl

invisible-scan_cells_example : All (λ v. (0 ≤ v) × (v ≤ 9)) (eight_bit Dtype.u8 chunk)
invisible-scan_cells_example =
    invisible-scan_cells grid 7 Dtype.u8 first_only chunks 0 0 0 9 chunk (omega arith) (omega arith)
      (omega arith) refl refl seen

flat : empty 7 (make_level grid (scan_cells 7 Dtype.u8 first_only flat_chunks)) 0 0 0 ≡ some true
unfolding program
flat = refl

empty-scan_cells_example : All (λ v. (7 ≤ v) × (v ≤ 7)) (eight_bit Dtype.u8 (7 ∷ 7 ∷ []))
empty-scan_cells_example =
    empty-scan_cells grid 7 Dtype.u8 first_only flat_chunks 0 0 0 (7 ∷ 7 ∷ []) (omega arith)
      (omega arith) (omega arith) refl refl flat
