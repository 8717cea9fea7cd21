-- ===== src/Base/Assoc.antt =====
-- `std::unordered_map` as an association list with distinct keys. The iteration order of the real
-- map is unspecified; here it is the order of insertion.
use Prim.Native.Nat.{ℕ, ◌+◌}
use mathlib.Core.Path.{◌≡◌, refl}
use mathlib.Core.Logic.{ite}
use mathlib.Core.List.{List, [], ◌∷◌}
use mathlib.Core.Option.{Option, none, some}
use native.Mathlib.Omega.{arith}

abbrev pub weight {ℓ} : {V : Type ℓ} → (V → ℕ) → Option V → ℕ
weight f none = 0
weight f (some v) = f v

module _ {ℓ} {K V : Type ℓ} (dec : Discrete K) where
  -- `find`.
  unfoldable pub lookup : K → List (K × V) → Option V
  lookup k [] = none
  lookup k ((j, v) ∷ m) = ite (dec j k) (some v) (lookup k m)

  -- `m[k] = v`.
  unfoldable pub insert : K → V → List (K × V) → List (K × V)
  insert k v [] = (k, v) ∷ []
  insert k v ((j, w) ∷ m) = ite (dec j k) ((j, v) ∷ m) ((j, w) ∷ insert k v m)

  -- `erase(k)`.
  unfoldable pub erase : K → List (K × V) → List (K × V)
  erase k [] = []
  erase k ((j, w) ∷ m) = ite (dec j k) m ((j, w) ∷ erase k m)

  -- No key twice.
  abbrev pub Distinct : List (K × V) → Type ℓ
  Distinct [] = Unit
  Distinct ((k, v) ∷ m) = (lookup k m ≡ none) × Distinct m

  -- The sum of a measure over the values.
  abbrev pub sum : (V → ℕ) → List (K × V) → ℕ
  sum f [] = 0
  sum f ((k, v) ∷ m) = f v + sum f m

  pub lookup-insert :
      (k j : K) (v : V) (m : List (K × V))
      → lookup j (insert k v m) ≡ ite (dec k j) (some v) (lookup j m)
  unfolding lookup insert
  lookup-insert k j v [] = refl
  lookup-insert k j v ((i, w) ∷ m) = ground (arith, lookup-insert k j v m)

  pub lookup-erase :
      (k j : K) (m : List (K × V))
      → Distinct m
      → lookup j (erase k m) ≡ ite (dec k j) none (lookup j m)
  unfolding lookup erase
  lookup-erase k j [] d = ground arith
  lookup-erase k j ((i, w) ∷ m) d = ground (arith, lookup-erase k j m d.1)

  pub insert-Distinct : (k : K) (v : V) (m : List (K × V)) → Distinct m → Distinct (insert k v m)
  unfolding lookup insert
  insert-Distinct k v [] d = (refl, tt)
  insert-Distinct k v ((i, w) ∷ m) d =
      ground (arith, insert-Distinct k v m d.1, lookup-insert k i v m)

  pub erase-Distinct : (k : K) (m : List (K × V)) → Distinct m → Distinct (erase k m)
  unfolding lookup erase
  erase-Distinct k [] d = tt
  erase-Distinct k ((i, w) ∷ m) d = ground (arith, erase-Distinct k m d.1, lookup-erase k i m d.1)

  pub sum-insert :
      (f : V → ℕ) (k : K) (v : V) (m : List (K × V))
      → sum f (insert k v m) + weight f (lookup k m) ≡ sum f m + f v
  unfolding lookup insert
  sum-insert f k v [] = omega arith
  sum-insert f k v ((i, w) ∷ m) = ground (arith, sum-insert f k v m)

  pub sum-erase :
      (f : V → ℕ) (k : K) (m : List (K × V)) → sum f (erase k m) + weight f (lookup k m) ≡ sum f m
  unfolding lookup erase
  sum-erase f k [] = omega arith
  sum-erase f k ((i, w) ∷ m) = ground (arith, sum-erase f k m)

  -- How many entries a map has.
  abbrev pub size : List (K × V) → ℕ
  size = sum (λ _. 1)

  pub size-erase :
      (k : K) (v : V) (m : List (K × V)) → lookup k m ≡ some v → size (erase k m) + 1 ≡ size m
  size-erase k v m h = ground (arith, sum-erase (λ _. 1) k m)
