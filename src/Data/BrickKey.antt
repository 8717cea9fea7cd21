-- ===== src/Data/BrickKey.antt =====
-- src/data/BrickKey.h.
use Prim.Native.Nat.{bit_or}
use scrollviewer.Base.{ℕ, ◌+◌, ◌*◌, ◌%◌, ◌^◌, ◌<◌, ◌≡◌, refl, arith, ℕ_discrete}
use scrollviewer.Base.Bits.{bit_or_fields}

pub record ChunkCoord : Type 0 where
  pub level : ℕ
  pub z : ℕ
  pub y : ℕ
  pub x : ℕ

pub record BrickKey : Type 0 where
  pub volume_id : ℕ
  pub coord : ChunkCoord
  pub open coord use *

-- The defaulted `operator==`.
unfoldable pub coord_dec : Discrete ChunkCoord
coord_dec = hlevel ℕ_discrete

unfoldable pub key_dec : Discrete BrickKey
key_dec = hlevel (ℕ_discrete, coord_dec)

-- The five fields, masked, shifted and joined; `x & (2^n - 1)` is `x % 2 ^ n`, and `x << n` is
-- `x * 2 ^ n`, which does not reach bit 64 here.
unfoldable pub packed : BrickKey → ℕ
packed k =
    bit_or
      (bit_or
        (bit_or (bit_or ((k.volume_id % 2 ^ 8) * 2 ^ 55) ((k.level % 2 ^ 4) * 2 ^ 51))
          ((k.z % 2 ^ 17) * 2 ^ 34))
        ((k.y % 2 ^ 17) * 2 ^ 17))
      (k.x % 2 ^ 17)

-- The ranges that the packing leaves room for.
pub record InRange (k : BrickKey) : Type 0 where
  pub volume_fits : k.volume_id < 2 ^ 8
  pub level_fits : k.level < 2 ^ 4
  pub z_fits : k.z < 2 ^ 17
  pub y_fits : k.y < 2 ^ 17
  pub x_fits : k.x < 2 ^ 17

-- `bit_or_fields` at a field that is written as a sum of shifted fields.
or_at : (n m a b : ℕ) → m ≡ a * 2 ^ n → b < 2 ^ n → bit_or m b ≡ m + b
or_at n m a b e h = rw e (bit_or_fields n a b h)

fields_sum :
    (v l z y x : ℕ)
    → l < 2 ^ 4
    → z < 2 ^ 17
    → y < 2 ^ 17
    → x < 2 ^ 17
    → bit_or (bit_or (bit_or (bit_or (v * 2 ^ 55) (l * 2 ^ 51)) (z * 2 ^ 34)) (y * 2 ^ 17)) x
      ≡ v * 2 ^ 55 + l * 2 ^ 51 + z * 2 ^ 34 + y * 2 ^ 17 + x
fields_sum v l z y x hl hz hy hx =
    let p : ℕ = v * 2 ^ 55 in
    let q : ℕ = p + l * 2 ^ 51 in
    let r : ℕ = q + z * 2 ^ 34 in
    let a = or_at 55 p v (l * 2 ^ 51) refl (omega arith) in
    let b = or_at 51 q (v * 2 ^ 4 + l) (z * 2 ^ 34) (omega arith) (omega arith) in
    let c = or_at 34 r (v * 2 ^ 21 + l * 2 ^ 17 + z) (y * 2 ^ 17) (omega arith) (omega arith) in
    let d =
      or_at 17 (r + y * 2 ^ 17) (v * 2 ^ 38 + l * 2 ^ 34 + z * 2 ^ 17 + y) x (omega arith)
        (omega arith) in
    rw (a, b, c) d

-- `packed` is the mixed-radix number of the five fields.
packed_sum :
    (k : BrickKey)
    → packed k
      ≡ (k.volume_id % 2 ^ 8) * 2 ^ 55
        + (k.level % 2 ^ 4) * 2 ^ 51
        + (k.z % 2 ^ 17) * 2 ^ 34
        + (k.y % 2 ^ 17) * 2 ^ 17
        + k.x % 2 ^ 17
unfolding packed
packed_sum k =
    fields_sum (k.volume_id % 2 ^ 8) (k.level % 2 ^ 4) (k.z % 2 ^ 17) (k.y % 2 ^ 17) (k.x % 2 ^ 17)
      (omega arith) (omega arith) (omega arith) (omega arith)

pub packed_bound : (k : BrickKey) → packed k < 2 ^ 63
packed_bound k = omega (arith, packed_sum k)

-- Keys whose fields fit the packing have different packed words, unless they are equal.
pub packed-injective : (j k : BrickKey) → InRange j → InRange k → packed j ≡ packed k → j ≡ k
packed-injective j k hj hk e = ground (arith, packed_sum j, packed_sum k)
