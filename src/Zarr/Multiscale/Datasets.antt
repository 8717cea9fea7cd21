-- ===== src/Zarr/Multiscale/Datasets.antt =====
-- src/zarr/OmeMultiscale.cpp: what holds of the metadata that `parseOmeAttrs` accepts.
use Prim.Native.String.{String}
use scrollviewer.Base.{
  ℕ, zero, suc, ◌+◌, ◌≡◌, ◌≤◌, inl, inr, true, not, List, length, ◌==◌, arith, Bool-cases,
  Option-cases,
}
use scrollviewer.Zarr.Json.{JsonLibrary, Parsed, parsed, and_then, and_then-parsed}
use scrollviewer.Zarr.Multiscale.{
  OmeError, MultiscaleDataset, OmeMultiscale, datasets_from, has_entries, parse_multiscale,
  parse_ome_attrs, names_of, same_texts, zyx,
}

module _ {J D : Type 0} (js : JsonLibrary J D) where
  length-datasets_from :
      (ds : J) (left i : ℕ) (all : List (MultiscaleDataset D))
      → datasets_from js ds left i ≡ parsed all
      → length all ≡ left
  unfolding datasets_from
  length-datasets_from ds zero i all h = ground (arith)
  length-datasets_from ds (suc left) i all h =
      let (e, _, h1) = and_then-parsed _ _ all h in
      let (rest, hr, h2) = and_then-parsed _ _ all h1 in
      ground (arith, h2, length-datasets_from ds left (i + 1) rest hr)

  positive : (n : ℕ) → not (n == 0) ≡ true → 1 ≤ n
  positive n h = ground arith

  has_entries-size :
      (v : J) (name : String) → has_entries js v name ≡ true → 1 ≤ js.size (js.field v name)
  unfolding has_entries
  has_entries-size v name h = ground (arith, positive (js.size (js.field v name)))

  parse_multiscale-datasets :
      (v : J) (ms : OmeMultiscale D) → parse_multiscale js v ≡ parsed ms → 1 ≤ length ms.datasets
  unfolding parse_multiscale
  parse_multiscale-datasets v ms h = elim (Bool-cases (same_texts (names_of js v) zyx)) [
    | inr e ↦ absurd (ground arith)
    | inl e ↦ elim (Bool-cases (has_entries js v "datasets")) [
      | inr f ↦ absurd (ground arith)
      | inl f ↦
          let ds = js.field v "datasets" in
          let finish : List (MultiscaleDataset D) → Parsed OmeError (OmeMultiscale D) =
            λ all. parsed (record { axis_names = names_of js v; datasets = all }) in
          let accepted : and_then (datasets_from js ds (js.size ds) 0) finish ≡ parsed ms =
            ground arith in
          let (all, ha, hr) = and_then-parsed _ finish ms accepted in
          ground
            (arith, length-datasets_from ds (js.size ds) 0 all ha, has_entries-size v "datasets" f)
    ]
  ]

  pub parse_ome_attrs-datasets :
      (text : String) (ms : OmeMultiscale D)
      → parse_ome_attrs js text ≡ parsed ms
      → 1 ≤ length ms.datasets
  unfolding parse_ome_attrs
  parse_ome_attrs-datasets text ms h = elim (Option-cases (js.parse text)) [
    | inl e ↦ absurd (ground arith)
    | inr (j, e) ↦ elim (Bool-cases (has_entries js j "multiscales")) [
      | inr f ↦ absurd (ground arith)
      | inl f ↦ parse_multiscale-datasets (js.item (js.field j "multiscales") 0) ms (ground arith)
    ]
  ]
