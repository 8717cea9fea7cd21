-- ===== src/Zarr/ArrayMeta/Accepted.antt =====
-- src/zarr/ArrayMeta.cpp: what holds of the metadata that `parseZarrayV2` accepts.
use Prim.Native.String.{String}
use scrollviewer.Base.{ℕ, ◌<◌, ◌≤◌, ◌≡◌, ◌⊎◌, inl, inr, true, false, arith, Option-cases, ==_iff}
use scrollviewer.Zarr.Json.{JsonLibrary, parsed, and_then-parsed, same_text}
use scrollviewer.Zarr.ArrayMeta.{
  Axes, ArrayMeta, parse_dim, parse_dims3, check_chunk, check_chunks, parse_shape, parse_object,
  parse_zarray,
}

abbrev pub EachAxis : (ℕ → Type 0) → Axes → Type 0
EachAxis P a = P a.z × P a.y × P a.x

pub record IsUsable {D : Type 0} (m : ArrayMeta D) : Type 0 where
  pub format : m.zarr_format ≡ 2
  pub shape_positive : EachAxis (λ n. 0 < n) m.shape
  pub chunks_positive : EachAxis (λ n. 0 < n) m.chunks
  pub chunks_bounded : EachAxis (λ n. n ≤ 4096) m.chunks

module _ {J D : Type 0} (js : JsonLibrary J D) where
  parse_dim-positive :
      (arr : J) (name : String) (i n : ℕ) → parse_dim js arr name i ≡ parsed n → 0 < n
  unfolding parse_dim
  parse_dim-positive arr name i n h = ground (arith, ==_iff (js.get_u64 (js.item arr i)) 0)

  parse_dims3-positive :
      (arr : J) (name : String) (a : Axes)
      → parse_dims3 js arr name ≡ parsed a
      → EachAxis (λ n. 0 < n) a
  unfolding parse_dims3
  parse_dims3-positive arr name a h =
      let (_, _, h1) = and_then-parsed _ _ a h in
      let (z, hz, h2) = and_then-parsed _ _ a h1 in
      let (y, hy, h3) = and_then-parsed _ _ a h2 in
      let (x, hx, h4) = and_then-parsed _ _ a h3 in
      ground (
        arith,
        h4,
        parse_dim-positive arr name 0 z hz,
        parse_dim-positive arr name 1 y hy,
        parse_dim-positive arr name 2 x hx,
      )

  parse_shape-positive :
      (j : J) (name : String) (a : Axes)
      → parse_shape js j name ≡ parsed a
      → EachAxis (λ n. 0 < n) a
  unfolding parse_shape
  parse_shape-positive j name a h =
      let (v, _, h1) = and_then-parsed _ _ a h in parse_dims3-positive v name a h1

  check_chunk-bounded : (i n m : ℕ) → check_chunk js i n ≡ parsed m → (m ≡ n) × (n ≤ 4096)
  unfolding check_chunk
  check_chunk-bounded i n m h = ground arith

  check_chunks-bounded :
      (c a : Axes) → check_chunks js c ≡ parsed a → (a ≡ c) × EachAxis (λ n. n ≤ 4096) c
  unfolding check_chunks
  check_chunks-bounded c a h =
      let (z, hz, h1) = and_then-parsed _ _ a h in
      let (y, hy, h2) = and_then-parsed _ _ a h1 in
      let (x, hx, h3) = and_then-parsed _ _ a h2 in
      ground (
        arith,
        h3,
        check_chunk-bounded 0 c.z z hz,
        check_chunk-bounded 1 c.y y hy,
        check_chunk-bounded 2 c.x x hx,
      )

  -- What the object and the metadata made of it are: the object asks for format 2, for C order and for no filters.
  pub record IsTaken (j : J) (m : ArrayMeta D) : Type 0 where
    pub object : js.is_object j ≡ true
    pub has_format : js.contains j "zarr_format" ≡ true
    pub format_integral : js.is_number_integer (js.field j "zarr_format") ≡ true
    pub format_2 : js.get_int_is (js.field j "zarr_format") 2 ≡ true
    pub has_order : js.contains j "order" ≡ true
    pub order_string : js.is_string (js.field j "order") ≡ true
    pub order_c : same_text (js.get_string (js.field j "order")) "C" ≡ true
    pub filters :
        (js.contains j "filters" ≡ false)
        ⊎ ((js.is_null (js.field j "filters") ≡ true)
            ⊎ ((js.is_array (js.field j "filters") ≡ true) × (js.size (js.field j "filters") ≡ 0)))
    pub usable : IsUsable m

  parse_object-IsUsable : (j : J) (m : ArrayMeta D) → parse_object js j ≡ parsed m → IsUsable m
  unfolding parse_object
  parse_object-IsUsable j m h =
      let (_, _, h1) = and_then-parsed _ _ m h in
      let (_, _, h2) = and_then-parsed _ _ m h1 in
      let (shape, hs, h3) = and_then-parsed _ _ m h2 in
      let (sizes, hz, h4) = and_then-parsed _ _ m h3 in
      let (chunks, hc, h5) = and_then-parsed _ _ m h4 in
      let (_, _, h6) = and_then-parsed _ _ m h5 in
      let (_, _, h7) = and_then-parsed _ _ m h6 in
      let (_, _, h8) = and_then-parsed _ _ m h7 in
      let (_, _, h9) = and_then-parsed _ _ m h8 in
      let (_, _, h10) = and_then-parsed _ _ m h9 in
      let (_, _, h11) = and_then-parsed _ _ m h10 in
      let shape_ok = parse_shape-positive j "shape" shape hs in
      let sizes_ok = parse_shape-positive j "chunks" sizes hz in
      let (same, bounded) = check_chunks-bounded sizes chunks hc in
      record {
        format = ground (arith, h11);
        shape_positive = ground (arith, h11, shape_ok);
        chunks_positive = ground (arith, h11, same, sizes_ok);
        chunks_bounded = ground (arith, h11, same, bounded);
      }

  pub parse_zarray-IsUsable :
      (text : String) (m : ArrayMeta D) → parse_zarray js text ≡ parsed m → IsUsable m
  unfolding parse_zarray
  parse_zarray-IsUsable text m h = elim (Option-cases (js.parse text)) [
    | inl e ↦ absurd (ground arith)
    | inr (j, e) ↦ parse_object-IsUsable j m (ground arith)
  ]
