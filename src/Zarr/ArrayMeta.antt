-- ===== src/Zarr/ArrayMeta.antt =====
-- src/zarr/ArrayMeta.h and ArrayMeta.cpp.
pub mod Accepted
pub mod Sizes
pub mod Tests
use Prim.Native.String.{String}
use scrollviewer.Base.{
  ℕ, ◌+◌, ◌-◌, ◌*◌, ◌/◌, ◌%◌, ◌^◌, Bool, true, false, not, ◌&&◌, ◌||◌, Option, none, some, ltb,
  ◌==◌, if◌then◌else◌, u64_mod, add64,
}
use scrollviewer.Data.Volume.{Dtype}
use scrollviewer.Zarr.Json.{JsonLibrary, Parsed, parsed, failed, and_then, same_text}

pub data CompressorId : Type 0 where
  no_compressor blosc zstd gzip : CompressorId

-- The messages of the errors.
pub data MetaError : Type 0 where
  not_json not_object bad_format compressor_shape bad_order filters_given bad_separator : MetaError
  missing bad_array : String → MetaError
  not_positive : String → ℕ → MetaError
  chunk_too_large : ℕ → ℕ → MetaError
  unsupported_dtype unsupported_compressor : String → MetaError

-- The three numbers of a shape.
pub record Axes : Type 0 where
  pub z : ℕ
  pub y : ℕ
  pub x : ℕ

pub record ArrayMeta (D : Type 0) : Type 0 where
  pub shape : Axes
  pub chunks : Axes
  pub dtype : Dtype
  pub dimension_separator : String
  pub fill_value : D
  pub compressor : CompressorId
  pub zarr_format : ℕ

unfoldable pub dtype_size : Dtype → ℕ
dtype_size Dtype.u8 = 1
dtype_size _ = 2

-- `(shape + chunk - 1) / chunk` in 64 bits, cast to 32.
unfoldable pub grid_dim : ℕ → ℕ → ℕ
grid_dim shape chunk = ((add64 shape chunk + (u64_mod - 1)) % u64_mod / chunk) % 2 ^ 32

unfoldable pub chunk_grid_dims : {D : Type 0} → ArrayMeta D → Axes
chunk_grid_dims m = record {
  z = grid_dim m.shape.z m.chunks.z;
  y = grid_dim m.shape.y m.chunks.y;
  x = grid_dim m.shape.x m.chunks.x;
}

unfoldable pub chunk_voxels : {D : Type 0} → ArrayMeta D → ℕ
chunk_voxels m = (m.chunks.z * m.chunks.y * m.chunks.x) % u64_mod

unfoldable pub chunk_bytes : {D : Type 0} → ArrayMeta D → ℕ
chunk_bytes m = (chunk_voxels m * dtype_size m.dtype) % u64_mod

unfoldable pub parse_dtype : String → Parsed MetaError Dtype
parse_dtype s =
    if same_text s "|u1"
    then parsed Dtype.u8
    else (if same_text s "<u2"
        then parsed Dtype.u16_le
        else (if same_text s ">u2" then parsed Dtype.u16_be else failed (unsupported_dtype s)))

-- A check that returns early.
unfoldable pub ensure : Bool → MetaError → Parsed MetaError Unit
ensure true e = parsed tt
ensure false e = failed e

module _ {J D : Type 0} (js : JsonLibrary J D) where
  unfoldable pub parse_dim : J → String → ℕ → Parsed MetaError ℕ
  parse_dim arr name i =
      let v = js.item arr i in
      if not (js.is_number_unsigned v) || js.get_u64 v == 0
      then failed (not_positive name i)
      else parsed (js.get_u64 v)

  unfoldable pub parse_dims3 : J → String → Parsed MetaError Axes
  parse_dims3 arr name =
      and_then (ensure (js.is_array arr && js.size arr == 3) (bad_array name)) (λ _.
        and_then (parse_dim arr name 0) (λ z.
          and_then (parse_dim arr name 1)
            (λ y. and_then (parse_dim arr name 2) (λ x. parsed (record { z = z; y = y; x = x })))))

  unfoldable pub parse_compressor : J → Parsed MetaError CompressorId
  parse_compressor c =
      if js.is_null c
      then parsed no_compressor
      else and_then
          (ensure (js.is_object c && (js.contains c "id" && js.is_string (js.field c "id")))
            compressor_shape)
          (λ _.
            let id = js.get_string (js.field c "id") in
            if same_text id "blosc"
            then parsed blosc
            else (if same_text id "zstd"
                then parsed zstd
                else (if same_text id "gzip"
                    then parsed gzip
                    else failed (unsupported_compressor id))))

  -- One round of the loop over the chunk's dimensions, which casts to 32 bits.
  unfoldable pub check_chunk : ℕ → ℕ → Parsed MetaError ℕ
  check_chunk i n = if ltb 4096 n then failed (chunk_too_large i n) else parsed (n % 2 ^ 32)

  unfoldable pub check_chunks : Axes → Parsed MetaError Axes
  check_chunks c = and_then (check_chunk 0 c.z) (λ z.
      and_then (check_chunk 1 c.y)
        (λ y. and_then (check_chunk 2 c.x) (λ x. parsed (record { z = z; y = y; x = x }))))

  -- A member that has to be there.
  unfoldable pub require : J → String → Parsed MetaError J
  require j name = if js.contains j name then parsed (js.field j name) else failed (missing name)

  unfoldable pub parse_shape : J → String → Parsed MetaError Axes
  parse_shape j name = and_then (require j name) (λ v. parse_dims3 v name)

  unfoldable pub parse_dtype_member : J → Parsed MetaError Dtype
  parse_dtype_member j =
      if not (js.contains j "dtype") || not (js.is_string (js.field j "dtype"))
      then failed (missing "dtype")
      else parse_dtype (js.get_string (js.field j "dtype"))

  unfoldable pub has_c_order : J → Bool
  has_c_order j =
      let v = js.field j "order" in
      js.contains j "order" && (js.is_string v && same_text (js.get_string v) "C")

  unfoldable pub has_no_filters : J → Bool
  has_no_filters j =
      let v = js.field j "filters" in
      not (js.contains j "filters" && not (js.is_null v)) || (js.is_array v && js.size v == 0)

  unfoldable pub fill_of : J → D
  fill_of j =
      let v = js.field j "fill_value" in
      if js.contains j "fill_value" && js.is_number v then js.get_double v else js.zero_double

  unfoldable pub parse_separator : J → Parsed MetaError String
  parse_separator j =
      let v = js.field j "dimension_separator" in
      let s = js.get_string v in
      if not (js.contains j "dimension_separator")
      then parsed "."
      else (if not (js.is_string v) || (not (same_text s ".") && not (same_text s "/"))
          then failed bad_separator
          else parsed s)

  unfoldable pub is_format_2 : J → Bool
  is_format_2 j =
      let v = js.field j "zarr_format" in
      js.contains j "zarr_format" && (js.is_number_integer v && js.get_int_is v 2)

  -- The members in the order in which they are checked.
  unfoldable pub parse_object : J → Parsed MetaError (ArrayMeta D)
  parse_object j = and_then (ensure (js.is_object j) not_object) (λ _.
      and_then (ensure (is_format_2 j) bad_format) (λ _. and_then (parse_shape j "shape") (λ shape.
        and_then (parse_shape j "chunks") (λ sizes. and_then (check_chunks sizes) (λ chunks.
          and_then (parse_dtype_member j) (λ dtype.
            and_then (ensure (has_c_order j) bad_order) (λ _.
              and_then (ensure (has_no_filters j) filters_given) (λ _.
                and_then (require j "compressor") (λ c. and_then (parse_compressor c) (λ compressor.
                  and_then (parse_separator j) (λ separator. parsed (record {
                    shape = shape;
                    chunks = chunks;
                    dtype = dtype;
                    dimension_separator = separator;
                    fill_value = fill_of j;
                    compressor = compressor;
                    zarr_format = 2;
                  }))))))))))))

  unfoldable pub parse_zarray : String → Parsed MetaError (ArrayMeta D)
  parse_zarray text = elim (js.parse text) [ none ↦ failed not_json | some j ↦ parse_object j ]
