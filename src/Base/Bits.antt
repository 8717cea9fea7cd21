-- ===== src/Base/Bits.antt =====
-- `|` on words whose set bits do not meet.
use Prim.Native.Nat.{
  ℕ, zero, suc, ◌+◌, ◌*◌, ◌/◌, ◌%◌, ◌^◌, ◌≤◌, ◌<◌, max, bit_or, digits, bit_or-bitwise,
}
use mathlib.Core.Path.{◌≡◌, refl, ap, ◌∙◌}
use native.Mathlib.Nat.{pow-suc}
use native.Mathlib.Omega.{arith}

abbrev or_digits : ℕ → ℕ → ℕ → ℕ
or_digits n a b = digits (λ b. b) max n a b

or_digits_fuel : (n m a b : ℕ) → a ≤ n → a ≤ m → or_digits n a b ≡ or_digits m a b
or_digits_fuel zero zero a b p q = refl
or_digits_fuel zero (suc m) zero b p q = refl
or_digits_fuel zero (suc m) (suc a) b p q = absurd (omega arith)
or_digits_fuel (suc n) zero zero b p q = refl
or_digits_fuel (suc n) zero (suc a) b p q = absurd (omega arith)
or_digits_fuel (suc n) (suc m) zero b p q = refl
or_digits_fuel (suc n) (suc m) (suc a) b p q =
    omega (arith, or_digits_fuel n m (suc a / 2) (b / 2) (omega arith) (omega arith))

zero-bit_or : (b : ℕ) → bit_or 0 b ≡ b
zero-bit_or b = bit_or-bitwise 0 b

-- The law for the lowest digit, from the definition that the native operation stands for.
bit_or_step : (a b : ℕ) → bit_or a b ≡ bit_or (a / 2) (b / 2) * 2 + max (a % 2) (b % 2)
bit_or_step zero b = omega (arith, zero-bit_or b, zero-bit_or (b / 2))
bit_or_step (suc a) b = omega (
  arith,
  bit_or-bitwise (suc a) b,
  bit_or-bitwise (suc a / 2) (b / 2),
  or_digits_fuel a (suc a / 2) (suc a / 2) (b / 2) (omega arith) (omega arith),
)

bit_or-zero_fuel : (n a : ℕ) → a ≤ n → bit_or a 0 ≡ a
bit_or-zero_fuel n zero h = refl
bit_or-zero_fuel zero (suc a) h = absurd (omega arith)
bit_or-zero_fuel (suc n) (suc a) h =
    omega (arith, bit_or_step (suc a) 0, bit_or-zero_fuel n (suc a / 2) (omega arith))

-- A high field and a low field that do not overlap.
pub bit_or_fields : (n a b : ℕ) → b < 2 ^ n → bit_or (a * 2 ^ n) b ≡ a * 2 ^ n + b
bit_or_fields zero a zero h = omega (arith, bit_or-zero_fuel (a * 1) (a * 1) (omega arith))
bit_or_fields zero a (suc b) h = absurd (omega arith)
bit_or_fields (suc n) a b h =
    let twice : a * 2 ^ suc n ≡ a * (2 ^ n * 2) = ap (λ (t : ℕ). a * t) (pow-suc 2 n) in
    let half : a * 2 ^ suc n / 2 ≡ a * 2 ^ n = omega (arith, twice) in
    let even : a * 2 ^ suc n % 2 ≡ 0 = omega (arith, twice) in
    omega (
      arith,
      pow-suc 2 n,
      twice,
      half,
      even,
      ap (λ (t : ℕ). bit_or t (b / 2)) half,
      bit_or_step (a * 2 ^ suc n) b,
      bit_or_fields n a (b / 2) (omega (arith, pow-suc 2 n)),
    )

-- Nor do a low field and what is above it.
pub bit_or_above :
    (n a b r : ℕ) → r < 2 ^ n → bit_or (a * 2 ^ n + r) (b * 2 ^ n) ≡ bit_or a b * 2 ^ n + r
bit_or_above zero a b zero h =
    let low : a * 1 + 0 ≡ a = omega arith in
    let high : b * 1 ≡ b = omega arith in
    ap (λ (t : ℕ). bit_or t (b * 1)) low ∙ ap (bit_or a) high ∙ omega arith
bit_or_above zero a b (suc r) h = absurd (omega arith)
bit_or_above (suc n) a b r h =
    let twice : (c : ℕ) → c * 2 ^ suc n ≡ c * 2 ^ n * 2 =
      λ c. ap (λ (t : ℕ). c * t) (pow-suc 2 n) ∙ omega arith in
    let half : (a * 2 ^ suc n + r) / 2 ≡ a * 2 ^ n + r / 2 = omega (arith, twice a) in
    let half' : b * 2 ^ suc n / 2 ≡ b * 2 ^ n = omega (arith, twice b) in
    omega (
      arith,
      pow-suc 2 n,
      twice a,
      twice b,
      twice (bit_or a b),
      bit_or_step (a * 2 ^ suc n + r) (b * 2 ^ suc n),
      ap (λ (t : ℕ). bit_or t (b * 2 ^ suc n / 2)) half,
      ap (bit_or (a * 2 ^ n + r / 2)) half',
      bit_or_above n a b (r / 2) (omega (arith, pow-suc 2 n)),
    )
