-- ===== src/Zarr/OmeZarrVolume/Tests.antt =====
-- src/zarr/OmeZarrVolume.cpp: a volume of three levels, over the JSON values of the tests of `.zarray`.
use Prim.Native.String.{String}
use text.Mathlib.Text.{◌==◌}
use scrollviewer.Base.{
  ℕ, ◌≡◌, ◌↔◌, refl, Bool, true, false, not, List, [], ◌∷◌, some, if◌then◌else◌,
}
use scrollviewer.Base
use scrollviewer.Zarr.Json.{JsonLibrary, Parsed, parsed}
use scrollviewer.Zarr.Codec.{raw, make_codec}
use scrollviewer.Zarr.ArrayMeta.Tests.{
  Value, root, number, triple, word, member, number_of, library, meta, program,
}
use scrollviewer.Zarr.Multiscale.{
  has_array, has_entries, axis_names_from, names_of, parse_dataset, datasets_from, parse_multiscale,
  parse_ome_attrs,
}
use scrollviewer.Zarr.OmeZarrVolume.{
  Level, map_error, read_text, open_level, open_levels, open_volume, chunk_key, chunk_store_key,
}
use scrollviewer.Zarr.OmeZarrVolume.Opened.{IsOpened, open_volume_iff}

-- The members of `.zattrs`, which has three datasets, and those of `.zarray`.
abbrev ome_member : String → Value
ome_member name =
    if name == "multiscales"
    then triple 0
    else if name == "datasets"
    then triple 0
    else if name == "path"
    then word "0"
    else member name

abbrev ome_library : JsonLibrary Value ℕ
ome_library = record library {
  item = λ v i. if Base.◌==◌ (number_of v) 0 then root else number (number_of v);
  field = λ v name. ome_member name;
}

abbrev reader : String → Parsed String String
reader path = parsed ""

abbrev apart : ℕ → ℕ → Bool
apart a b = not (Base.◌==◌ a b)

abbrev level : Level ℕ
level = record { path = "0"; meta = meta; scale = 1; codec = raw }

abbrev three_levels : List (Level ℕ)
three_levels = level ∷ level ∷ level ∷ []

opens : open_volume ome_library reader apart ≡ parsed three_levels
unfolding program has_array has_entries axis_names_from names_of parse_dataset datasets_from
    parse_multiscale parse_ome_attrs map_error read_text open_level open_levels open_volume
    make_codec
opens = refl

open_volume_iff_example :
    (open_volume ome_library reader apart ≡ parsed three_levels)
    ↔ IsOpened ome_library reader apart three_levels
open_volume_iff_example = open_volume_iff ome_library reader apart three_levels

abbrev digit : ℕ → String
digit n = if Base.◌==◌ n 1 then "1" else "2"

store_key : chunk_store_key digit three_levels 1 1 2 1 ≡ some "0/1.2.1"
unfolding chunk_key chunk_store_key
store_key = refl
