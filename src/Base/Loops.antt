-- ===== src/Base/Loops.antt =====
-- Counted loops, `for (i = from; i < from + left && test; ++i) body`, with their rules.
use Prim.Native.Nat.{ℕ, zero, suc, ◌+◌, ◌≤◌, ◌<◌}
use mathlib.Core.Path.{◌≡◌, sym, ◌∙◌, subst}
use mathlib.Core.Bool.{Bool, true, false}
use mathlib.Core.Logic.{inl, inr}
use native.Mathlib.Decide.{ℕ_discrete}
use native.Mathlib.Omega.{arith}
use scrollviewer.Base.Tests.{Bool-cases}

pub true_ne_false : ¬ (true ≡ false)
true_ne_false e = cc

module _ {ℓ} {S : Type ℓ} where
  -- The test is made before each round.
  unfoldable pub for_while : (S → Bool) → (ℕ → S → S) → ℕ → ℕ → S → S
  for_while test body zero i s = s
  for_while test body (suc left) i s =
      let rest = for_while test body left (suc i) (body i s) in
      elim (test s) [ true ↦ rest | false ↦ s ]

  unfoldable pub for_range : (ℕ → S → S) → ℕ → ℕ → S → S
  for_range body zero i s = s
  for_range body (suc left) i s = for_range body left (suc i) (body i s)

  -- What still holds after a loop held before each round, which therefore was made, and left a fact.
  pub for_while_back {κ} :
      (Q : S → Type κ) (C : ℕ → Type κ) (test : S → Bool) (body : ℕ → S → S)
      → ((s : S) → Q s → test s ≡ true)
      → ((i : ℕ) (s : S) → Q (body i s) → Q s × C i)
      → (left i : ℕ) (s : S) → Q (for_while test body left i s)
      → Q s × ((j : ℕ) → i ≤ j → j < i + left → C j)
  unfolding for_while
  for_while_back Q C test body on back zero i s q = (q, λ j low high. absurd (omega arith))
  for_while_back Q C test body on back (suc left) i s q = elim (Bool-cases (test s)) [
    | inl e ↦
        let rest = for_while test body left (suc i) (body i s) in
        let ih =
          for_while_back Q C test body on back left (suc i) (body i s)
            (subst (λ b. Q (elim b as (λ _. S) [ true ↦ rest | false ↦ s ])) e q) in
        let here = back i s ih.0 in
        (
          here.0,
          λ j low high. elim (ℕ_discrete i j) [
            | yes f ↦ subst C f here.1
            | no n ↦ ih.1 j (omega (arith, n)) (omega arith)
          ],
        )
    | inr e ↦
        let rest = for_while test body left (suc i) (body i s) in
        let stopped : Q s = subst (λ b. Q (elim b as (λ _. S) [ true ↦ rest | false ↦ s ])) e q in
        absurd (true_ne_false (sym (on s stopped) ∙ e))
  ]

  -- A relation that each round keeps, and a fact that each round leaves and that stays.
  pub for_range_rule {κ} :
      (I : S → Type κ) (R : S → S → Type κ) (C : ℕ → S → Type κ) (body : ℕ → S → S)
      → ((s : S) → I s → R s s)
      → ((s t u : S) → R s t → R t u → R s u)
      → ((s t : S) → R s t → I t)
      → ((j : ℕ) (s t : S) → R s t → C j s → C j t)
      → (left i : ℕ) (s : S)
      → ((j : ℕ) (t : S) → i ≤ j → j < i + left → I t → R t (body j t) × C j (body j t))
      → I s
      → R s (for_range body left i s)
        × ((j : ℕ) → i ≤ j → j < i + left → C j (for_range body left i s))
  unfolding for_range
  for_range_rule I R C body same both still keeps zero i s step h =
      (same s h, λ j low high. absurd (omega arith))
  for_range_rule I R C body same both still keeps (suc left) i s step h =
      let here = step i s (omega arith) (omega arith) h in
      let rest =
        for_range_rule I R C body same both still keeps left (suc i) (body i s)
          (λ j t low high. step j t (omega arith) (omega arith)) (still s (body i s) here.0) in
      (
        both s (body i s) (for_range body left (suc i) (body i s)) here.0 rest.0,
        λ j low high. elim (ℕ_discrete i j) [
          | yes e ↦
              subst (λ t. C t (for_range body left (suc i) (body i s))) e
                (keeps i (body i s) (for_range body left (suc i) (body i s)) rest.0 here.1)
          | no n ↦ rest.1 j (omega (arith, n)) (omega arith)
        ],
      )
