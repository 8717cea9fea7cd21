-- ===== src/Base/Grid.antt =====
-- Places in a grid of rows that are kept one after the other.
use Prim.Native.Nat.{ℕ, suc, ◌+◌, ◌*◌, ◌≤◌, ◌<◌}
use mathlib.Core.Path.{◌≡◌, ap}
use native.Mathlib.Nat.{mul-le-mul_right}
use native.Mathlib.Decide.{dec_lt}
use native.Mathlib.Omega.{arith}

-- A place in n rows of d.
pub row-lt : (n d q r : ℕ) → q < n → r < d → q * d + r < n * d
row-lt n d q r hq hr =
    let whole : suc q * d ≤ n * d = mul-le-mul_right d hq in ground (arith, whole)

pub flat-lt : (a b d z y x : ℕ) → z < a → y < b → x < d → (z * b + y) * d + x < a * b * d
flat-lt a b d z y x hz hy hx = row-lt (a * b) d (z * b + y) x (row-lt a b z y hz hy) hx

-- A later row is further on than any place of an earlier one.
row-apart : (d q q' r r' : ℕ) → q < q' → r < d → q * d + r < q' * d + r'
row-apart d q q' r r' h k = omega (arith, row-lt q' d q r h k)

pub row-eq : (d q q' r r' : ℕ) → r < d → r' < d → q * d + r ≡ q' * d + r' → (q ≡ q') × (r ≡ r')
row-eq d q q' r r' h h' e = elim (dec_lt q q') [
  | yes p ↦ absurd (omega (arith, row-apart d q q' r r' p h))
  | no p ↦ elim (dec_lt q' q) [
    | yes p' ↦ absurd (omega (arith, row-apart d q' q r' r p' h'))
    | no p' ↦
        let same : q ≡ q' = omega (arith, p, p') in (same, omega (arith, ap (λ t. t * d) same))
  ]
]

pub flat-eq :
    (b d z z' y y' x x' : ℕ)
    → y < b
    → y' < b
    → x < d
    → x' < d
    → (z * b + y) * d + x ≡ (z' * b + y') * d + x'
    → (z ≡ z') × (y ≡ y') × (x ≡ x')
flat-eq b d z z' y y' x x' hy hy' hx hx' e =
    let outer = row-eq d (z * b + y) (z' * b + y') x x' hx hx' e in
    let inner = row-eq b z z' y y' hy hy' outer.0 in (inner.0, inner.1, outer.1)
