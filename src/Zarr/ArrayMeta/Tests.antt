-- ===== src/Zarr/ArrayMeta/Tests.antt =====
-- src/zarr/ArrayMeta.cpp: a library of JSON values with one object, which it reads from any text.
use Prim.Native.String.{String}
use text.Mathlib.Text.{◌==◌}
use scrollviewer.Base.{ℕ, ◌≡◌, refl, Bool, true, false, some, if◌then◌else◌}
use scrollviewer.Data.Volume.{Dtype}
use scrollviewer.Zarr.Json.{JsonLibrary, parsed, and_then, same_text}
use scrollviewer.Zarr.ArrayMeta.{
  ArrayMeta, no_compressor, parse_zarray, parse_object, parse_shape, parse_dims3, parse_dim,
  parse_compressor, parse_dtype, parse_dtype_member, check_chunks, check_chunk, require, ensure,
  has_c_order, has_no_filters, fill_of, parse_separator, is_format_2,
}

pub data Value : Type 0 where
  null_value root : Value
  number : ℕ → Value
  triple : ℕ → Value
  word : String → Value

abbrev is_text : Value → Bool
is_text (word s) = true
is_text _ = false

abbrev is_unsigned : Value → Bool
is_unsigned (number n) = true
is_unsigned _ = false

abbrev is_triple : Value → Bool
is_triple (triple n) = true
is_triple _ = false

abbrev is_root : Value → Bool
is_root root = true
is_root _ = false

abbrev is_nothing : Value → Bool
is_nothing null_value = true
is_nothing _ = false

abbrev pub number_of : Value → ℕ
number_of (number n) = n
number_of (triple n) = n
number_of _ = 0

abbrev text_of : Value → String
text_of (word s) = s
text_of _ = ""

-- The members of the one object.
abbrev pub member : String → Value
member name =
    if name == "zarr_format"
    then number 2
    else (if name == "shape"
        then triple 300
        else (if name == "chunks"
            then triple 128
            else (if name == "dtype"
                then word "|u1"
                else (if name == "order" then word "C" else null_value))))

abbrev pub library : JsonLibrary Value ℕ
library = record {
  parse = λ s. some root;
  is_null = is_nothing;
  is_object = is_root;
  is_array = is_triple;
  is_string = is_text;
  is_number = is_unsigned;
  is_number_integer = is_unsigned;
  is_number_unsigned = is_unsigned;
  size = λ v. 3;
  item = λ v i. number (number_of v);
  contains = λ v name. if name == "dimension_separator" then false else true;
  field = λ v name. member name;
  get_int_is = λ v n. true;
  get_u64 = number_of;
  get_double = number_of;
  get_string = text_of;
  zero_double = 0;
  one_double = 1;
  value = λ v name other. some other;
}

abbrev pub meta : ArrayMeta ℕ
meta = record {
  shape = record { z = 300; y = 300; x = 300 };
  chunks = record { z = 128; y = 128; x = 128 };
  dtype = Dtype.u8;
  dimension_separator = ".";
  fill_value = 0;
  compressor = no_compressor;
  zarr_format = 2;
}

unfoldable pub program : Unit {0}
unfolding parse_zarray parse_object parse_shape parse_dims3 parse_dim parse_compressor parse_dtype
    parse_dtype_member check_chunks check_chunk require ensure has_c_order has_no_filters fill_of
    parse_separator is_format_2 and_then same_text
program = tt

accepted : parse_zarray library "" ≡ parsed meta
unfolding program
accepted = refl
