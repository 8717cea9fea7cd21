-- ===== src/Render/SurfaceMask/Present.antt =====
-- src/render/SurfaceMask.cpp: the presence of bricks on the coarser levels.
use scrollviewer.Base.{
  ℕ, zero, suc, ◌+◌, ◌≡◌, ◌≢◌, ◌≤◌, ◌<◌, refl, sym, subst, ◌∙◌, List, length, get_or, set,
  length-set, get_or-set_self, get_or-set_ne, arith, ℕ_discrete,
}
use scrollviewer.Render.SurfaceMask.{
  Triple, flat, parent, lift_one, lift_row, lift_plane, lift_level,
}

-- A write of 255 keeps what is 255.
pub set-keeps :
    (p : List ℕ) (i j : ℕ) → get_or p j 0 ≡ 255 → j < length p → get_or (set p i 255) j 0 ≡ 255
set-keeps p i j e h = elim (ℕ_discrete i j) [
  | yes q ↦ subst (λ t. get_or (set p t 255) j 0 ≡ 255) (sym q) (get_or-set_self p j 255 0 h)
  | no n ↦ get_or-set_ne p i j 255 0 n ∙ e
]

module _ (cg g : Triple) (c : List ℕ) where
  length-lift_one : (z y x : ℕ) (p : List ℕ) → length (lift_one cg g c z y x p) ≡ length p
  length-lift_one z y x p = ground (arith, length-set p (parent g z y x) 255)

  lift_one-keeps :
      (z y x : ℕ) (p : List ℕ) (j : ℕ)
      → get_or p j 0 ≡ 255
      → j < length p
      → get_or (lift_one cg g c z y x p) j 0 ≡ 255
  lift_one-keeps z y x p j e h = ground (arith, set-keeps p (parent g z y x) j e h)

  length-lift_row : (z y left x : ℕ) (p : List ℕ) → length (lift_row cg g c z y left x p) ≡ length p
  unfolding lift_row
  length-lift_row z y zero x p = refl
  length-lift_row z y (suc left) x p =
      length-lift_row z y left (x + 1) (lift_one cg g c z y x p) ∙ length-lift_one z y x p

  lift_row-keeps :
      (z y left x : ℕ) (p : List ℕ) (j : ℕ)
      → get_or p j 0 ≡ 255
      → j < length p
      → get_or (lift_row cg g c z y left x p) j 0 ≡ 255
  unfolding lift_row
  lift_row-keeps z y zero x p j e h = e
  lift_row-keeps z y (suc left) x p j e h =
      lift_row-keeps z y left (x + 1) (lift_one cg g c z y x p) j (lift_one-keeps z y x p j e h)
        (omega (arith, length-lift_one z y x p))

  lift_one-sets :
      (z y x : ℕ) (p : List ℕ)
      → get_or c (flat cg z y x) 0 ≢ 0
      → parent g z y x < length p
      → get_or (lift_one cg g c z y x p) (parent g z y x) 0 ≡ 255
  lift_one-sets z y x p n h = ground (arith, get_or-set_self p (parent g z y x) 255 0 h)

  lift_row-sets :
      (z y left x0 : ℕ) (p : List ℕ) (x : ℕ)
      → x0 ≤ x
      → x < x0 + left
      → get_or c (flat cg z y x) 0 ≢ 0
      → parent g z y x < length p
      → get_or (lift_row cg g c z y left x0 p) (parent g z y x) 0 ≡ 255
  unfolding lift_row
  lift_row-sets z y zero x0 p x low high n h = absurd (omega arith)
  lift_row-sets z y (suc left) x0 p x low high n h =
      let p' = lift_one cg g c z y x0 p in
      let room : parent g z y x < length p' = omega (arith, length-lift_one z y x0 p) in
      elim (ℕ_discrete x0 x) [
        | yes e ↦
            lift_row-keeps z y left (x0 + 1) p' (parent g z y x)
              (subst (λ t. get_or (lift_one cg g c z y t p) (parent g z y x) 0 ≡ 255) (sym e)
                (lift_one-sets z y x p n h))
              room
        | no m ↦ lift_row-sets z y left (x0 + 1) p' x (omega (arith, m)) (omega arith) n room
      ]

  length-lift_plane : (z left y : ℕ) (p : List ℕ) → length (lift_plane cg g c z left y p) ≡ length p
  unfolding lift_plane
  length-lift_plane z zero y p = refl
  length-lift_plane z (suc left) y p =
      length-lift_plane z left (y + 1) (lift_row cg g c z y cg.x 0 p) ∙ length-lift_row z y cg.x 0 p

  lift_plane-keeps :
      (z left y : ℕ) (p : List ℕ) (j : ℕ)
      → get_or p j 0 ≡ 255
      → j < length p
      → get_or (lift_plane cg g c z left y p) j 0 ≡ 255
  unfolding lift_plane
  lift_plane-keeps z zero y p j e h = e
  lift_plane-keeps z (suc left) y p j e h =
      lift_plane-keeps z left (y + 1) (lift_row cg g c z y cg.x 0 p) j
        (lift_row-keeps z y cg.x 0 p j e h) (omega (arith, length-lift_row z y cg.x 0 p))

  lift_plane-sets :
      (z left y0 : ℕ) (p : List ℕ) (y x : ℕ)
      → y0 ≤ y
      → y < y0 + left
      → x < cg.x
      → get_or c (flat cg z y x) 0 ≢ 0
      → parent g z y x < length p
      → get_or (lift_plane cg g c z left y0 p) (parent g z y x) 0 ≡ 255
  unfolding lift_plane
  lift_plane-sets z zero y0 p y x low high b n h = absurd (omega arith)
  lift_plane-sets z (suc left) y0 p y x low high b n h =
      let p' = lift_row cg g c z y0 cg.x 0 p in
      let room : parent g z y x < length p' = omega (arith, length-lift_row z y0 cg.x 0 p) in
      elim (ℕ_discrete y0 y) [
        | yes e ↦
            lift_plane-keeps z left (y0 + 1) p' (parent g z y x)
              (subst (λ t. get_or (lift_row cg g c z t cg.x 0 p) (parent g z y x) 0 ≡ 255) (sym e)
                (lift_row-sets z y cg.x 0 p x (omega arith) (omega arith) n h))
              room
        | no m ↦ lift_plane-sets z left (y0 + 1) p' y x (omega (arith, m)) (omega arith) b n room
      ]

  lift_level-keeps :
      (left z : ℕ) (p : List ℕ) (j : ℕ)
      → get_or p j 0 ≡ 255
      → j < length p
      → get_or (lift_level cg g c left z p) j 0 ≡ 255
  unfolding lift_level
  lift_level-keeps zero z p j e h = e
  lift_level-keeps (suc left) z p j e h =
      lift_level-keeps left (z + 1) (lift_plane cg g c z cg.y 0 p) j
        (lift_plane-keeps z cg.y 0 p j e h) (omega (arith, length-lift_plane z cg.y 0 p))

  -- The parent of a brick that is set.
  pub lift_level-sets :
      (left z0 : ℕ) (p : List ℕ) (z y x : ℕ)
      → z0 ≤ z
      → z < z0 + left
      → y < cg.y
      → x < cg.x
      → get_or c (flat cg z y x) 0 ≢ 0
      → parent g z y x < length p
      → get_or (lift_level cg g c left z0 p) (parent g z y x) 0 ≡ 255
  unfolding lift_level
  lift_level-sets zero z0 p z y x low high by bx n h = absurd (omega arith)
  lift_level-sets (suc left) z0 p z y x low high by bx n h =
      let p' = lift_plane cg g c z0 cg.y 0 p in
      let room : parent g z y x < length p' = omega (arith, length-lift_plane z0 cg.y 0 p) in
      elim (ℕ_discrete z0 z) [
        | yes e ↦
            lift_level-keeps left (z0 + 1) p' (parent g z y x)
              (subst (λ t. get_or (lift_plane cg g c t cg.y 0 p) (parent g z y x) 0 ≡ 255) (sym e)
                (lift_plane-sets z cg.y 0 p y x (omega arith) (omega arith) bx n h))
              room
        | no m ↦
            lift_level-sets left (z0 + 1) p' z y x (omega (arith, m)) (omega arith) by bx n room
      ]
