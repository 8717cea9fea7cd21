-- ===== src/Zarr/OmeZarrVolume/Opened.antt =====
-- src/zarr/OmeZarrVolume.cpp, `open`: what a volume has that was opened, and when one is.
use Prim.Native.String.{String, ◌++◌}
use scrollviewer.Base.{
  ◌≡◌, ◌↔◌, ◌≢◌, ◌≤◌, refl, ap, subst, inl, inr, Bool, false, ◌||◌, List, [], ◌∷◌, All, length,
  arith, Bool-cases,
}
use scrollviewer.Zarr.Json.{JsonLibrary, Parsed, parsed, failed, and_then, and_then-parsed}
use scrollviewer.Zarr.ArrayMeta.{CompressorId, no_compressor, blosc, zstd, gzip, parse_zarray}
use scrollviewer.Zarr.ArrayMeta.Accepted.{IsUsable, parse_zarray-IsUsable}
use scrollviewer.Zarr.Multiscale.{MultiscaleDataset, OmeMultiscale, parse_ome_attrs}
use scrollviewer.Zarr.Multiscale.Datasets.{parse_ome_attrs-datasets}
use scrollviewer.Zarr.Codec.{Codec, make_codec}
use scrollviewer.Zarr.OmeZarrVolume.{
  VolumeError, unreadable, bad_attrs, bad_zarray, no_codec, Level, map_error, read_text, open_level,
  open_levels, open_volume,
}

map_error-parsed :
    {E E' A : Type 0} (f : E → E') (r : Parsed E A) (a : A)
    → map_error f r ≡ parsed a
    → r ≡ parsed a
unfolding map_error
map_error-parsed f (parsed b) a h = cc
map_error-parsed f (failed e) a h = absurd (cc)

parsed_inj :
    (E : Type 0) {A : Type 0} {a b : A} → ◌≡◌ {A = Parsed E A} (parsed a) (parsed b) → a ≡ b
parsed_inj E h = cc

Level_ext :
    {D : Type 0} {path : String} {scale : D} (l : Level D)
    → l.path ≡ path
    → l.scale ≡ scale
    → record { path = path; meta = l.meta; scale = scale; codec = l.codec } ≡ l
Level_ext l hp hs = rw (← hp, ← hs) refl

module _ {J D : Type 0} (js : JsonLibrary J D) (read : String → Parsed String String)
    (differs : D → D → Bool) where
  -- The level that a dataset gives.
  pub record IsLevel (ds : MultiscaleDataset D) (l : Level D) : Type 0 where
    pub text : String
    pub reads : read (ds.path ++ "/.zarray") ≡ parsed text
    pub parses : parse_zarray js text ≡ parsed l.meta
    pub isotropic :
        (differs ds.scale_z ds.scale_y ≡ false) × (differs ds.scale_y ds.scale_x ≡ false)
    pub codes : make_codec l.meta.compressor ≡ parsed l.codec
    pub path : l.path ≡ ds.path
    pub scale : l.scale ≡ ds.scale_z

  abbrev pub AreLevels : List (MultiscaleDataset D) → List (Level D) → Type 0
  AreLevels [] [] = Unit
  AreLevels [] (l ∷ ls) = ⊥
  AreLevels (ds ∷ rest) [] = ⊥
  AreLevels (ds ∷ rest) (l ∷ ls) = IsLevel ds l × AreLevels rest ls

  open_level-IsLevel :
      (ds : MultiscaleDataset D) (l : Level D)
      → open_level js read differs ds ≡ parsed l
      → IsLevel ds l
  unfolding open_level read_text
  open_level-IsLevel ds l h =
      let (text, ht, h1) = and_then-parsed _ _ l h in
      let (meta, hm, h2) = and_then-parsed _ _ l h1 in
      elim (Bool-cases (differs ds.scale_z ds.scale_y || differs ds.scale_y ds.scale_x)) [
        | inl e ↦ absurd (ground arith)
        | inr e ↦
            let finish : Codec → Parsed VolumeError (Level D) = λ codec.
              parsed (record { path = ds.path; meta = meta; scale = ds.scale_z; codec = codec }) in
            let last : and_then (map_error (no_codec ds.path) (make_codec meta.compressor)) finish
                ≡ parsed l =
              ground arith in
            let (codec, hc, made) = and_then-parsed _ finish l last in
            subst (IsLevel ds) (parsed_inj VolumeError made) (record {
              text = text;
              reads = map_error-parsed (unreadable (ds.path ++ "/.zarray")) _ text ht;
              parses = map_error-parsed (bad_zarray ds.path) _ meta hm;
              isotropic = ground arith;
              codes = map_error-parsed (no_codec ds.path) _ codec hc;
              path = refl;
              scale = refl;
            })
      ]

  IsLevel-open_level :
      (ds : MultiscaleDataset D) (l : Level D)
      → IsLevel ds l
      → open_level js read differs ds ≡ parsed l
  unfolding open_level read_text map_error and_then
  IsLevel-open_level ds l i =
      rw (open_level, i.reads, i.parses, i.isotropic.0, i.isotropic.1, i.codes)
        (ap parsed (Level_ext l i.path i.scale))

  pub open_levels_iff :
      (all : List (MultiscaleDataset D)) (levels : List (Level D))
      → (open_levels js read differs all ≡ parsed levels) ↔ AreLevels all levels
  unfolding open_levels and_then
  open_levels_iff all levels = (to all levels, back all levels)
    where
      to :
          (all : List (MultiscaleDataset D)) (levels : List (Level D))
          → open_levels js read differs all ≡ parsed levels
          → AreLevels all levels
      to [] [] h = tt
      to [] (l ∷ ls) h = absurd (cc)
      to (ds ∷ rest) levels h =
          let (l, hl, h1) = and_then-parsed (open_level js read differs ds) _ levels h in
          let (ls, hls, h2) = and_then-parsed (open_levels js read differs rest) _ levels h1 in
          subst (AreLevels (ds ∷ rest)) (parsed_inj VolumeError h2)
            (open_level-IsLevel ds l hl, to rest ls hls)

      back :
          (all : List (MultiscaleDataset D)) (levels : List (Level D))
          → AreLevels all levels
          → open_levels js read differs all ≡ parsed levels
      back [] [] h = refl
      back [] (l ∷ ls) h = absurd h
      back (ds ∷ rest) [] h = absurd h
      back (ds ∷ rest) (l ∷ ls) h =
          rw (open_levels, IsLevel-open_level ds l h.0, back rest ls h.1) refl

  -- What a volume has that was opened.
  pub record IsOpened (levels : List (Level D)) : Type 0 where
    pub text : String
    pub reads : read ".zattrs" ≡ parsed text
    pub attrs : OmeMultiscale D
    pub parses : parse_ome_attrs js text ≡ parsed attrs
    pub levels_of : AreLevels attrs.datasets levels
    pub some_level : 1 ≤ length levels
    pub usable : All (λ l. IsUsable l.meta × (l.meta.compressor ≢ gzip)) levels

  AreLevels-length :
      (all : List (MultiscaleDataset D)) (levels : List (Level D))
      → AreLevels all levels
      → length all ≡ length levels
  AreLevels-length [] [] h = refl
  AreLevels-length [] (l ∷ ls) h = absurd h
  AreLevels-length (ds ∷ rest) [] h = absurd h
  AreLevels-length (ds ∷ rest) (l ∷ ls) h = omega (arith, AreLevels-length rest ls h.1)

  gzip_none : (c : CompressorId) (codec : Codec) → make_codec c ≡ parsed codec → c ≢ gzip
  unfolding make_codec
  gzip_none gzip codec h e = absurd (cc)
  gzip_none no_compressor codec h e = absurd (cc)
  gzip_none blosc codec h e = absurd (cc)
  gzip_none zstd codec h e = absurd (cc)

  AreLevels-IsUsable :
      (all : List (MultiscaleDataset D)) (levels : List (Level D))
      → AreLevels all levels
      → All (λ l. IsUsable l.meta × (l.meta.compressor ≢ gzip)) levels
  AreLevels-IsUsable [] [] h = tt
  AreLevels-IsUsable [] (l ∷ ls) h = absurd h
  AreLevels-IsUsable (ds ∷ rest) [] h = absurd h
  AreLevels-IsUsable (ds ∷ rest) (l ∷ ls) (i, is_rest) = (
    (parse_zarray-IsUsable js i.text l.meta i.parses, gzip_none l.meta.compressor l.codec i.codes),
    AreLevels-IsUsable rest ls is_rest,
  )

  -- `open` returns some levels exactly when `.zattrs` is read and accepted and these are the
  -- levels of its datasets, in their order: for each the `.zarray` is read and accepted, the scale
  -- is the same on the three axes, and a codec is made. Then there is at least one level, and each
  -- has usable metadata and a compressor other than gzip.
  pub open_volume_iff :
      (levels : List (Level D)) → (open_volume js read differs ≡ parsed levels) ↔ IsOpened levels
  unfolding open_volume read_text map_error and_then
  open_volume_iff levels = (to, back)
    where
      to : open_volume js read differs ≡ parsed levels → IsOpened levels
      to h =
          let (text, ht, h1) = and_then-parsed _ _ levels h in
          let (attrs, ha, h2) = and_then-parsed _ _ levels h1 in
          let parses = map_error-parsed bad_attrs (parse_ome_attrs js text) attrs ha in
          let are = (open_levels_iff attrs.datasets levels).0 h2 in
          record {
            text = text;
            reads = map_error-parsed (unreadable ".zattrs") (read ".zattrs") text ht;
            attrs = attrs;
            parses = parses;
            levels_of = are;
            some_level = omega (
              arith,
              AreLevels-length attrs.datasets levels are,
              parse_ome_attrs-datasets js text attrs parses,
            );
            usable = AreLevels-IsUsable attrs.datasets levels are;
          }

      back : IsOpened levels → open_volume js read differs ≡ parsed levels
      back o =
          rw (open_volume, o.reads, o.parses)
            ((open_levels_iff o.attrs.datasets levels).1 o.levels_of)
