-- ===== src/Zarr/Json.antt =====
-- The values of the JSON library that src/zarr/ArrayMeta.cpp uses, and the results of its parsers.
use Prim.Native.String.{String}
use text.Mathlib.Text.{◌==◌}
use scrollviewer.Base.{ℕ, ◌≡◌, Bool, Option, refl}

-- nlohmann::json: its predicates and readers, on a value type J and a type D of doubles. `parse` is
-- `none` for a discarded value, `get_int_is v n` tells whether `v.get<int>()` is n, and `get_u64` reads
-- a number that `is_number_unsigned`. `value v k d` is `v.value(k, d)` for strings, `none` when that throws.
pub record JsonLibrary (J D : Type 0) : Type 0 where
  pub parse : String → Option J
  pub is_null : J → Bool
  pub is_object : J → Bool
  pub is_array : J → Bool
  pub is_string : J → Bool
  pub is_number : J → Bool
  pub is_number_integer : J → Bool
  pub is_number_unsigned : J → Bool
  pub size : J → ℕ
  pub item : J → ℕ → J
  pub contains : J → String → Bool
  pub field : J → String → J
  pub get_int_is : J → ℕ → Bool
  pub get_u64 : J → ℕ
  pub get_double : J → D
  pub get_string : J → String
  pub zero_double : D
  pub one_double : D
  pub value : J → String → String → Option String

unfoldable pub same_text : String → String → Bool
same_text a b = a == b

-- `std::expected<T, E>`.
pub data Parsed (E A : Type 0) : Type 0 where
  parsed : A → Parsed E A
  failed : E → Parsed E A

-- The rest of a function after a check that returns early with an error.
unfoldable pub and_then : {E A B : Type 0} → Parsed E A → (A → Parsed E B) → Parsed E B
and_then (parsed a) f = f a
and_then (failed e) f = failed e

-- A result that went through a check had it pass.
pub and_then-parsed :
    {E A B : Type 0} (r : Parsed E A) (f : A → Parsed E B) (b : B)
    → and_then r f ≡ parsed b
    → (a : A) × (r ≡ parsed a) × (f a ≡ parsed b)
unfolding and_then
and_then-parsed (parsed a) f b h = (a, refl, h)
and_then-parsed (failed e) f b h = absurd (cc)
