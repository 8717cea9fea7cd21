-- ===== src/Zarr/Multiscale.antt =====
-- src/zarr/OmeMultiscale.h and OmeMultiscale.cpp: the parser of `.zattrs`.
pub mod Datasets
use Prim.Native.String.{String}
use scrollviewer.Base.{
  ℕ, zero, suc, ◌+◌, Bool, true, false, not, ◌&&◌, ◌||◌, Option, none, some, List, [], ◌∷◌, ◌++◌,
  ◌==◌, if◌then◌else◌,
}
use scrollviewer.Zarr.Json.{JsonLibrary, Parsed, parsed, failed, and_then, same_text}

-- The messages of the errors; `thrown` is an exception of the JSON library, which is not caught.
pub data OmeError : Type 0 where
  not_json no_multiscales bad_axes no_datasets no_path thrown : OmeError

pub record MultiscaleDataset (D : Type 0) : Type 0 where
  pub path : String
  pub scale_z : D
  pub scale_y : D
  pub scale_x : D

pub record OmeMultiscale (D : Type 0) : Type 0 where
  pub axis_names : List String
  pub datasets : List (MultiscaleDataset D)

abbrev pub zyx : List String
zyx = "z" ∷ "y" ∷ "x" ∷ []

abbrev pub same_texts : List String → List String → Bool
same_texts [] [] = true
same_texts [] (b ∷ bs) = false
same_texts (a ∷ as') [] = false
same_texts (a ∷ as') (b ∷ bs) = same_text a b && same_texts as' bs

module _ {J D : Type 0} (js : JsonLibrary J D) where
  unfoldable pub has_array : J → String → Bool
  has_array v name = js.contains v name && js.is_array (js.field v name)

  -- The loop over the axes, from the entry `i` on with `left` to go.
  unfoldable pub axis_names_from : J → ℕ → ℕ → List String
  axis_names_from axes zero i = []
  axis_names_from axes (suc left) i =
      let ax = js.item axes i in
      let rest = axis_names_from axes left (i + 1) in
      if js.is_object ax && (js.contains ax "name" && js.is_string (js.field ax "name"))
      then js.get_string (js.field ax "name") ∷ rest
      else rest

  unfoldable pub names_of : J → List String
  names_of ms =
      let axes = js.field ms "axes" in
      elim (if has_array ms "axes" then axis_names_from axes (js.size axes) 0 else []) [
        | [] ↦ zyx
        | n ∷ ns ↦ n ∷ ns
      ]

  -- `get<double>()` throws on what is not a number.
  unfoldable pub read_double : J → Parsed OmeError D
  read_double v = if js.is_number v then parsed (js.get_double v) else failed thrown

  unfoldable pub read_scale : J → MultiscaleDataset D → Parsed OmeError (MultiscaleDataset D)
  read_scale a e = and_then (read_double (js.item a 0)) (λ z.
      and_then (read_double (js.item a 1)) (λ y.
        and_then (read_double (js.item a 2))
          (λ x. parsed (record e { scale_z = z; scale_y = y; scale_x = x }))))

  -- One coordinate transformation.
  unfoldable pub transform : J → MultiscaleDataset D → Parsed OmeError (MultiscaleDataset D)
  transform t e = if not (js.is_object t) then parsed e else elim (js.value t "type" "") [
    | none ↦ failed thrown
    | some kind ↦
        let a = js.field t "scale" in
        if same_text kind "scale" && (has_array t "scale" && js.size a == 3)
        then read_scale a e
        else parsed e
  ]

  unfoldable pub transforms_from :
      J → ℕ → ℕ → MultiscaleDataset D → Parsed OmeError (MultiscaleDataset D)
  transforms_from ts zero i e = parsed e
  transforms_from ts (suc left) i e =
      and_then (transform (js.item ts i) e) (transforms_from ts left (i + 1))

  unfoldable pub parse_dataset : J → Parsed OmeError (MultiscaleDataset D)
  parse_dataset d =
      let one = js.one_double in
      let e : MultiscaleDataset D = record {
        path = js.get_string (js.field d "path");
        scale_z = one;
        scale_y = one;
        scale_x = one;
      } in
      let ts = js.field d "coordinateTransformations" in
      if not (js.is_object d)
        || (not (js.contains d "path") || not (js.is_string (js.field d "path")))
      then failed no_path
      else if has_array d "coordinateTransformations"
      then transforms_from ts (js.size ts) 0 e
      else parsed e

  unfoldable pub datasets_from : J → ℕ → ℕ → Parsed OmeError (List (MultiscaleDataset D))
  datasets_from ds zero i = parsed []
  datasets_from ds (suc left) i =
      and_then (parse_dataset (js.item ds i))
        (λ e. and_then (datasets_from ds left (i + 1)) (λ rest. parsed (e ∷ rest)))

  -- An array that is there and not empty.
  unfoldable pub has_entries : J → String → Bool
  has_entries v name = has_array v name && not (js.size (js.field v name) == 0)

  unfoldable pub parse_multiscale : J → Parsed OmeError (OmeMultiscale D)
  parse_multiscale ms =
      let ds = js.field ms "datasets" in
      if not (same_texts (names_of ms) zyx)
      then failed bad_axes
      else if not (has_entries ms "datasets")
      then failed no_datasets
      else and_then (datasets_from ds (js.size ds) 0)
          (λ all. parsed (record { axis_names = names_of ms; datasets = all }))

  unfoldable pub parse_ome_attrs : String → Parsed OmeError (OmeMultiscale D)
  parse_ome_attrs text = elim (js.parse text) [
    | none ↦ failed not_json
    | some j ↦
        if not (has_entries j "multiscales")
        then failed no_multiscales
        else parse_multiscale (js.item (js.field j "multiscales") 0)
  ]
