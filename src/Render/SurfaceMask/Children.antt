-- ===== src/Render/SurfaceMask/Children.antt =====
-- src/render/SurfaceMask.cpp: a brick that is set on a coarser level has a child that is set.
use scrollviewer.Base.{
  ℕ, zero, suc, ◌+◌, ◌≡◌, ◌≢◌, ◌≤◌, ◌<◌, ◌∙◌, ◌⊎◌, inl, inr, some, List, [], ◌∷◌, get_or, set,
  if_pos, if_neg, ◌==◌, get_or-set_ne, arith, ℕ_discrete, Bool-cases,
}
use scrollviewer.Base.Assoc
use scrollviewer.Render.SurfaceMask.{
  Triple, Block, Blocks, set_bricks, flat, parent, lift_one, lift_row, lift_plane, lift_level,
}

-- A brick of a grid that is set in the presence and lies below a place of the next grid.
pub record Child (cg g : Triple) (c : List ℕ) (j : ℕ) : Type 0 where
  pub z : ℕ
  pub y : ℕ
  pub x : ℕ
  pub z_inside : z < cg.z
  pub y_inside : y < cg.y
  pub x_inside : x < cg.x
  pub is_set : get_or c (flat cg z y x) 0 ≢ 0
  pub below : parent g z y x ≡ j

module _ (cg g : Triple) (c : List ℕ) where
  -- What is set has a child that is set.
  abbrev pub AreRaised : List ℕ → Type 0
  AreRaised p = (j : ℕ) → get_or p j 0 ≢ 0 → Child cg g c j

  lift_one-AreRaised :
      (z y x : ℕ) (p : List ℕ)
      → z < cg.z
      → y < cg.y
      → x < cg.x
      → AreRaised p
      → AreRaised (lift_one cg g c z y x p)
  lift_one-AreRaised z y x p hz hy hx h = elim (Bool-cases (get_or c (flat cg z y x) 0 == 0)) [
    | inl e ↦ rw e h
    | inr e ↦ rw e (λ j n. elim (ℕ_discrete (parent g z y x) j) [
      | yes same ↦ record {
        z = z;
        y = y;
        x = x;
        z_inside = hz;
        y_inside = hy;
        x_inside = hx;
        is_set = ground (arith, e);
        below = same;
      }
      | no other ↦ h j (λ q. n (get_or-set_ne p (parent g z y x) j 255 0 other ∙ q))
    ])
  ]

  lift_row-AreRaised :
      (z y left x : ℕ) (p : List ℕ)
      → z < cg.z
      → y < cg.y
      → x + left ≤ cg.x
      → AreRaised p
      → AreRaised (lift_row cg g c z y left x p)
  unfolding lift_row
  lift_row-AreRaised z y zero x p hz hy hx h = h
  lift_row-AreRaised z y (suc left) x p hz hy hx h =
      lift_row-AreRaised z y left (x + 1) (lift_one cg g c z y x p) hz hy (omega arith)
        (lift_one-AreRaised z y x p hz hy (omega arith) h)

  lift_plane-AreRaised :
      (z left y : ℕ) (p : List ℕ)
      → z < cg.z
      → y + left ≤ cg.y
      → AreRaised p
      → AreRaised (lift_plane cg g c z left y p)
  unfolding lift_plane
  lift_plane-AreRaised z zero y p hz hy h = h
  lift_plane-AreRaised z (suc left) y p hz hy h =
      lift_plane-AreRaised z left (y + 1) (lift_row cg g c z y cg.x 0 p) hz (omega arith)
        (lift_row-AreRaised z y cg.x 0 p hz (omega arith) (omega arith) h)

  pub lift_level-AreRaised :
      (left z : ℕ) (p : List ℕ)
      → z + left ≤ cg.z
      → AreRaised p
      → AreRaised (lift_level cg g c left z p)
  unfolding lift_level
  lift_level-AreRaised zero z p hz h = h
  lift_level-AreRaised (suc left) z p hz h =
      lift_level-AreRaised left (z + 1) (lift_plane cg g c z cg.y 0 p) (omega arith)
        (lift_plane-AreRaised z cg.y 0 p (omega arith) (omega arith) h)

-- What the first level adds comes from the blocks.
pub set_bricks-lookup :
    (m : Blocks) (p : List ℕ) (j : ℕ)
    → get_or (set_bricks m p) j 0 ≢ 0
    → ((b : Block) × (Assoc.lookup ℕ_discrete j m ≡ some b)) ⊎ (get_or p j 0 ≢ 0)
unfolding set_bricks Assoc.lookup
set_bricks-lookup [] p j n = inr n
set_bricks-lookup ((k, a) ∷ m) p j n = elim (ℕ_discrete k j) [
  | yes e ↦ inl (a, if_pos (ℕ_discrete k j) e (some a) (Assoc.lookup ℕ_discrete j m))
  | no ne ↦ elim (set_bricks-lookup m (set p k 255) j n) [
    | inl (b, found) ↦
        inl (b, if_neg (ℕ_discrete k j) ne (some a) (Assoc.lookup ℕ_discrete j m) ∙ found)
    | inr old ↦ inr (λ q. old (get_or-set_ne p k j 255 0 ne ∙ q))
  ]
]
