-- ===== src/Zarr/OmeZarrVolume.antt =====
-- src/zarr/OmeZarrVolume.h and OmeZarrVolume.cpp, with `chunkKey` of src/zarr/ArrayMeta.cpp.
pub mod Opened
mod Tests
use Prim.Native.String.{String, ◌++◌}
use scrollviewer.Base.{
  ℕ, zero, suc, Bool, true, false, ◌||◌, Option, none, some, List, [], ◌∷◌, length, get_elem?,
  if◌then◌else◌,
}
use scrollviewer.Zarr.Json.{JsonLibrary, Parsed, parsed, failed, and_then}
use scrollviewer.Zarr.ArrayMeta.{ArrayMeta, MetaError, parse_zarray}
use scrollviewer.Zarr.Multiscale.{OmeError, MultiscaleDataset, OmeMultiscale, parse_ome_attrs}
use scrollviewer.Zarr.Codec.{Codec, CodecError, make_codec}

-- The messages of the errors, each with the path that it names.
pub data VolumeError : Type 0 where
  unreadable : String → String → VolumeError
  bad_attrs : OmeError → VolumeError
  bad_zarray : String → MetaError → VolumeError
  anisotropic : String → VolumeError
  no_codec : String → CodecError → VolumeError

pub record Level (D : Type 0) : Type 0 where
  pub path : String
  pub meta : ArrayMeta D
  pub scale : D
  pub codec : Codec

-- An error under the message that names where it arose.
unfoldable pub map_error : {E E' A : Type 0} → (E → E') → Parsed E A → Parsed E' A
map_error f (parsed a) = parsed a
map_error f (failed e) = failed (f e)

-- `chunkKey`; `show` is `std::to_string`.
unfoldable pub chunk_key : {D : Type 0} → (ℕ → String) → ArrayMeta D → ℕ → ℕ → ℕ → String
chunk_key show m z y x = let s = m.dimension_separator in show z ++ s ++ show y ++ s ++ show x

-- `chunkStoreKey`, `none` for a level that the volume does not have.
unfoldable pub chunk_store_key :
    {D : Type 0} → (ℕ → String) → List (Level D) → ℕ → ℕ → ℕ → ℕ → Option String
chunk_store_key show levels level z y x = elim (get_elem? levels level) [
  | none ↦ none
  | some l ↦ some (l.path ++ "/" ++ chunk_key show l.meta z y x)
]

-- `read` is the reader of metadata files, which gives a text or the message of an error, and
-- `differs` is `!=` on `double`.
module _ {J D : Type 0} (js : JsonLibrary J D) (read : String → Parsed String String)
    (differs : D → D → Bool) where
  unfoldable pub read_text : String → Parsed VolumeError String
  read_text path = map_error (unreadable path) (read path)

  -- One round of the loop over the datasets.
  unfoldable pub open_level : MultiscaleDataset D → Parsed VolumeError (Level D)
  open_level ds = and_then (read_text (ds.path ++ "/.zarray")) (λ text.
      and_then (map_error (bad_zarray ds.path) (parse_zarray js text)) (λ meta.
        if differs ds.scale_z ds.scale_y || differs ds.scale_y ds.scale_x
        then failed (anisotropic ds.path)
        else and_then (map_error (no_codec ds.path) (make_codec meta.compressor)) (λ codec.
          parsed (record { path = ds.path; meta = meta; scale = ds.scale_z; codec = codec }))))

  unfoldable pub open_levels : List (MultiscaleDataset D) → Parsed VolumeError (List (Level D))
  open_levels [] = parsed []
  open_levels (ds ∷ rest) =
      and_then (open_level ds) (λ l. and_then (open_levels rest) (λ ls. parsed (l ∷ ls)))

  unfoldable pub open_volume : Parsed VolumeError (List (Level D))
  open_volume = and_then (read_text ".zattrs") (λ text.
      and_then (map_error bad_attrs (parse_ome_attrs js text)) (λ ms. open_levels ms.datasets))
