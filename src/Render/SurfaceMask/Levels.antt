-- ===== src/Render/SurfaceMask/Levels.antt =====
-- src/render/SurfaceMask.cpp: which bricks are set on each level.
use scrollviewer.Base.{
  All, ℕ, ◌+◌, ◌-◌, ◌*◌, ◌/◌, ◌%◌, ◌^◌, inl, inr, ◌≡◌, ◌≢◌, ◌<◌, min, sym, subst, ◌∙◌, some, List,
  [], ◌∷◌, length, get_or, set, if_neg, replicate, length-replicate, length-set, get_or-set_self,
  get_or-replicate, arith, ℕ_discrete,
}
use scrollviewer.Base.Grid.{flat-lt}
use scrollviewer.Base.Assoc
use scrollviewer.Render.SurfaceMask.{
  Triple, Block, Blocks, cells, set_bricks, presence_0, parent, lift_level, presence_from, presence,
}
use scrollviewer.Render.SurfaceMask.Children.{lift_level-AreRaised, set_bricks-lookup}
use scrollviewer.Render.SurfaceMask.Present.{set-keeps, lift_level-sets}

-- A grid with a brick, whose number of bricks is a `std::size_t`.
abbrev pub IsBox : Triple → Type 0
IsBox g = (0 < g.z) × (0 < g.y) × (0 < g.x) × (cells g < 2 ^ 64)

abbrev pub AllBoxes : List Triple → Type 0
AllBoxes [] = Unit
AllBoxes (g ∷ gs) = IsBox g × AllBoxes gs

-- Where the brick with half the coordinates, within the grid, is stored.
abbrev pub half : Triple → ℕ → ℕ → ℕ → ℕ
half g z y x = (min (z / 2) (g.z - 1) * g.y + min (y / 2) (g.y - 1)) * g.x + min (x / 2) (g.x - 1)

-- A brick of a grid is set, and a place of the next grid is that of half its coordinates.
abbrev pub IsChild : Triple → Triple → List ℕ → ℕ → ℕ → ℕ → ℕ → Type 0
IsChild cg g c j z y x =
    (z < cg.z)
    × (y < cg.y)
    × (x < cg.x)
    × (get_or c ((z * cg.y + y) * cg.x + x) 0 ≢ 0)
    × (half g z y x ≡ j)

-- On each level after a first one, the bricks at half the coordinates of a brick that is set are set, and no
-- others.
abbrev pub IsCovered : Triple → List ℕ → List Triple → List (List ℕ) → Type 0
IsCovered cg c [] ps = Unit
IsCovered cg c (g ∷ gs) [] = ⊥
IsCovered cg c (g ∷ gs) (p ∷ ps) =
    ((j z y x : ℕ) → IsChild cg g c j z y x → get_or p j 0 ≡ 255)
    × ((j : ℕ) → get_or p j 0 ≢ 0 → (z : ℕ) × (y : ℕ) × (x : ℕ) × IsChild cg g c j z y x)
    × IsCovered g p gs ps

-- On the first level the bricks with a block are set and no others.
abbrev pub IsPresent : Blocks → List Triple → List (List ℕ) → Type 0
IsPresent m [] ps = Unit
IsPresent m (g ∷ gs) [] = ⊥
IsPresent m (g ∷ gs) (p ∷ ps) =
    ((brick : ℕ) (b : Block) → Assoc.lookup ℕ_discrete brick m ≡ some b → get_or p brick 0 ≡ 255)
    × ((brick : ℕ)
        → get_or p brick 0 ≢ 0
        → (b : Block) × (Assoc.lookup ℕ_discrete brick m ≡ some b))
    × IsCovered g p gs ps

parent-lt : (g : Triple) (z y x : ℕ) → IsBox g → parent g z y x < cells g
unfolding parent
parent-lt g z y x h =
    flat-lt g.z g.y g.x (min (z / 2) (g.z - 1)) (min (y / 2) (g.y - 1)) (min (x / 2) (g.x - 1))
      (omega (arith, h.0)) (omega (arith, h.1)) (omega (arith, h.2))

length-none : (n : ℕ) → n < 2 ^ 64 → length (replicate {A = ℕ} (n % 2 ^ 64) 0) ≡ n
length-none n h = length-replicate {A = ℕ} (n % 2 ^ 64) 0 ∙ omega arith

presence_from-IsCovered :
    (cg : Triple) (c : List ℕ) (gs : List Triple)
    → AllBoxes gs
    → IsCovered cg c gs (presence_from cg c gs)
unfolding presence_from parent
presence_from-IsCovered cg c [] h = tt
presence_from-IsCovered cg c (g ∷ gs) h =
    let none_set = replicate {A = ℕ} (cells g % 2 ^ 64) 0 in
    (
      λ j z y x (hz, hy, hx, n, e).
          subst (λ t. get_or (lift_level cg g c cg.z 0 none_set) t 0 ≡ 255) e
            (lift_level-sets cg g c cg.z 0 none_set z y x (omega arith) (omega arith) hy hx n (
              subst (λ t. parent g z y x < t) (sym (length-none (cells g) h.0.3))
                (parent-lt g z y x h.0))),
      λ j n.
          let r =
            lift_level-AreRaised cg g c cg.z 0 none_set (omega arith)
              (λ i m. absurd (m (get_or-replicate (cells g % 2 ^ 64) i 0))) j n in
          (r.z, r.y, r.x, (r.z_inside, r.y_inside, r.x_inside, r.is_set, r.below)),
      presence_from-IsCovered g (lift_level cg g c cg.z 0 none_set) gs h.1,
    )

set_bricks-keeps :
    (m : Blocks) (p : List ℕ) (j : ℕ)
    → get_or p j 0 ≡ 255
    → j < length p
    → get_or (set_bricks m p) j 0 ≡ 255
unfolding set_bricks
set_bricks-keeps [] p j e h = e
set_bricks-keeps ((k, b) ∷ m) p j e h =
    set_bricks-keeps m (set p k 255) j (set-keeps p k j e h) (omega (arith, length-set p k 255))

set_bricks-sets :
    (m : Blocks) (p : List ℕ) (j : ℕ) (b : Block)
    → Assoc.lookup ℕ_discrete j m ≡ some b
    → j < length p
    → get_or (set_bricks m p) j 0 ≡ 255
unfolding set_bricks Assoc.lookup
set_bricks-sets [] p j b e h = absurd (cc)
set_bricks-sets ((k, a) ∷ m) p j b e h =
    let room : j < length (set p k 255) = omega (arith, length-set p k 255) in
    elim (ℕ_discrete k j) [
      | yes q ↦
          set_bricks-keeps m (set p k 255) j
            (subst (λ t. get_or (set p t 255) j 0 ≡ 255) (sym q) (get_or-set_self p j 255 0 h)) room
      | no n ↦
          set_bricks-sets m (set p k 255) j b
            (sym (if_neg (ℕ_discrete k j) n (some a) (Assoc.lookup ℕ_discrete j m)) ∙ e) room
    ]

-- Each block belongs to a brick of the grid.
abbrev pub AreInside : Triple → Blocks → Type 0
AreInside grid m = All (λ (e : ℕ × Block). e.0 < cells grid) m

lookup-AreInside :
    (grid : Triple) (m : Blocks) (j : ℕ) (b : Block)
    → Assoc.lookup ℕ_discrete j m ≡ some b
    → AreInside grid m
    → j < cells grid
unfolding Assoc.lookup
lookup-AreInside grid [] j b e h = absurd (cc)
lookup-AreInside grid ((k, a) ∷ m) j b e h = elim (ℕ_discrete k j) [
  | yes q ↦ subst (λ t. t < cells grid) q h.0
  | no n ↦
      lookup-AreInside grid m j b
        (sym (if_neg (ℕ_discrete k j) n (some a) (Assoc.lookup ℕ_discrete j m)) ∙ e) h.1
]

-- When the first grid is that of the mask, each block belongs to a brick of it, each grid after it has a brick and
-- their sizes do not wrap: on the first level a brick is set exactly if it has a block; and on every later level a
-- brick is set exactly if it is at half the coordinates, kept within the grid, of a brick that is set on the level
-- before.
pub presence-IsPresent :
    (grid : Triple) (gs : List Triple) (m : Blocks)
    → cells grid < 2 ^ 64
    → AreInside grid m
    → AllBoxes gs
    → IsPresent m (grid ∷ gs) (presence grid (grid ∷ gs) m)
unfolding presence presence_0
presence-IsPresent grid gs m small inside h =
    let none_set = replicate {A = ℕ} (cells grid % 2 ^ 64) 0 in
    (
      λ brick b e. set_bricks-sets m none_set brick b e (
          subst (λ t. brick < t) (sym (length-none (cells grid) small))
            (lookup-AreInside grid m brick b e inside)),
      λ brick n. elim (set_bricks-lookup m none_set brick n) [
        | inl found ↦ found
        | inr old ↦ absurd (old (get_or-replicate (cells grid % 2 ^ 64) brick 0))
      ],
      presence_from-IsCovered grid (set_bricks m none_set) gs h,
    )
