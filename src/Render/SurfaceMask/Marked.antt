-- ===== src/Render/SurfaceMask/Marked.antt =====
-- src/render/SurfaceMask.cpp: the cells that are set are those of the samples, however these are split.
use scrollviewer.Base.{
  ℕ, ◌≡◌, ◌≢◌, ◌<◌, refl, ap, ◌∙◌, Bool, true, false, ◌&&◌, ◌||◌, Option, none, some, List, [], ◌∷◌,
  ite, if_pos, if_neg, length, get_or, set, length-replicate, length-set, get_or-replicate,
  get_or-set_self, get_or-set_ne, ◌==◌, if◌then◌else◌, arith, ℕ_discrete,
}
use scrollviewer.Base.Assoc
use scrollviewer.Render.SurfaceMask.{
  Triple, Block, Blocks, block_cells, brick_index, cell_index, block_of, block_or, mark_sample,
  mark_samples,
}

abbrev pub value_in : Option Block → ℕ → ℕ
value_in none c = 0
value_in (some b) c = get_or b c 0

-- The cell of a brick: 0 if the brick has no block.
unfoldable pub cell_at : Blocks → ℕ → ℕ → ℕ
cell_at m brick c = value_in (Assoc.lookup ℕ_discrete brick m) c

-- Each block has all its cells, and no brick is there twice.
abbrev pub IsFull : Blocks → Type 0
IsFull m = (k : ℕ) (b : Block) → Assoc.lookup ℕ_discrete k m ≡ some b → length b ≡ block_cells

pub record IsWhole (m : Blocks) : Type 0 where
  pub distinct : Assoc.Distinct ℕ_discrete m
  pub full : IsFull m

-- The voxel lies in the cell of the brick.
abbrev pub is_in : Triple → ℕ → ℕ → Triple → Bool
is_in grid brick c v = brick_index grid v == brick && cell_index v == c

abbrev pub any_in : Triple → ℕ → ℕ → List Triple → Bool
any_in grid brick c [] = false
any_in grid brick c (v ∷ vs) = is_in grid brick c v || any_in grid brick c vs

cell_index-lt : (v : Triple) → cell_index v < block_cells
unfolding cell_index block_cells
cell_index-lt v = omega arith

insert-IsFull :
    (m : Blocks) (k : ℕ) (b : Block)
    → IsFull m
    → length b ≡ block_cells
    → IsFull (Assoc.insert ℕ_discrete k b m)
insert-IsFull m k b w h j b' e =
    ground (arith, w j b', h, e, Assoc.lookup-insert ℕ_discrete k j b m)

pub insert-IsWhole :
    (m : Blocks) (k : ℕ) (b : Block)
    → IsWhole m
    → length b ≡ block_cells
    → IsWhole (Assoc.insert ℕ_discrete k b m)
insert-IsWhole m k b w h = record {
  distinct = Assoc.insert-Distinct ℕ_discrete k b m w.distinct;
  full = insert-IsFull m k b w.full h;
}

block_or-length :
    (o : Option Block)
    → ((b : Block) → o ≡ some b → length b ≡ block_cells)
    → length (block_or o) ≡ block_cells
unfolding block_or
block_or-length none h = length-replicate {A = ℕ} block_cells 0
block_or-length (some b) h = h b refl

block_of-length : (k : ℕ) (m : Blocks) → IsWhole m → length (block_of k m) ≡ block_cells
block_of-length k m w = block_or-length (Assoc.lookup ℕ_discrete k m) (w.full k)

block_or-cell : (o : Option Block) (c : ℕ) → get_or (block_or o) c 0 ≡ value_in o c
unfolding block_or
block_or-cell none c = get_or-replicate {A = ℕ} block_cells c 0
block_or-cell (some b) c = refl

block_of-cell : (k c : ℕ) (m : Blocks) → get_or (block_of k m) c 0 ≡ cell_at m k c
unfolding cell_at
block_of-cell k c m = block_or-cell (Assoc.lookup ℕ_discrete k m) c

value_in-ite :
    {P : Type 0} (d : Dec P) (b : Block) (o : Option Block) (c : ℕ)
    → value_in (ite d (some b) o) c ≡ ite d (get_or b c 0) (value_in o c)
value_in-ite (yes p) b o c = refl
value_in-ite (no n) b o c = refl

cell_at-insert :
    (m : Blocks) (k j c : ℕ) (b : Block)
    → cell_at (Assoc.insert ℕ_discrete k b m) j c
      ≡ ite (ℕ_discrete k j) (get_or b c 0) (cell_at m j c)
unfolding cell_at
cell_at-insert m k j c b =
    ap (λ o. value_in o c) (Assoc.lookup-insert ℕ_discrete k j b m)
    ∙ value_in-ite (ℕ_discrete k j) b (Assoc.lookup ℕ_discrete j m) c

-- The cell of the brick that is written, and of any other.
pub cell_at-insert_same :
    (m : Blocks) (k c : ℕ) (b : Block) → cell_at (Assoc.insert ℕ_discrete k b m) k c ≡ get_or b c 0
cell_at-insert_same m k c b =
    cell_at-insert m k k c b ∙ if_pos (ℕ_discrete k k) refl (get_or b c 0) (cell_at m k c)

pub cell_at-insert_ne :
    (m : Blocks) (k j c : ℕ) (b : Block)
    → k ≢ j
    → cell_at (Assoc.insert ℕ_discrete k b m) j c ≡ cell_at m j c
cell_at-insert_ne m k j c b n =
    cell_at-insert m k j c b ∙ if_neg (ℕ_discrete k j) n (get_or b c 0) (cell_at m j c)

mark_sample-IsWhole : (grid v : Triple) (m : Blocks) → IsWhole m → IsWhole (mark_sample grid v m)
unfolding mark_sample
mark_sample-IsWhole grid v m w =
    let k = brick_index grid v in
    insert-IsWhole m k (set (block_of k m) (cell_index v) 255) w
      (length-set (block_of k m) (cell_index v) 255 ∙ block_of-length k m w)

cell_at-mark_same :
    (grid v : Triple) (m : Blocks)
    → IsWhole m
    → cell_at (mark_sample grid v m) (brick_index grid v) (cell_index v) ≡ 255
unfolding mark_sample
cell_at-mark_same grid v m w =
    let k = brick_index grid v in
    let c = cell_index v in
    let b = block_of k m in
    cell_at-insert_same m k c (set b c 255)
    ∙ get_or-set_self b c 255 0 (omega (arith, block_of-length k m w, cell_index-lt v))

cell_at-mark_brick :
    (grid v : Triple) (m : Blocks) (c : ℕ)
    → cell_index v ≢ c
    → cell_at (mark_sample grid v m) (brick_index grid v) c ≡ cell_at m (brick_index grid v) c
unfolding mark_sample
cell_at-mark_brick grid v m c n =
    let k = brick_index grid v in
    let b = block_of k m in
    cell_at-insert_same m k c (set b (cell_index v) 255)
    ∙ get_or-set_ne b (cell_index v) c 255 0 n
    ∙ block_of-cell k c m

cell_at-mark_ne :
    (grid v : Triple) (m : Blocks) (j c : ℕ)
    → brick_index grid v ≢ j
    → cell_at (mark_sample grid v m) j c ≡ cell_at m j c
unfolding mark_sample
cell_at-mark_ne grid v m j c n =
    let k = brick_index grid v in
    cell_at-insert_ne m k j c (set (block_of k m) (cell_index v) 255) n

-- What a cell holds after a sample, and after many.
abbrev pub mark_or : Bool → ℕ → ℕ
mark_or hit x = if hit then 255 else x

cell_at-mark :
    (grid v : Triple) (m : Blocks) (j c : ℕ)
    → IsWhole m
    → cell_at (mark_sample grid v m) j c ≡ mark_or (is_in grid j c v) (cell_at m j c)
cell_at-mark grid v m j c w = elim (ℕ_discrete (brick_index grid v) j) [
  | yes p ↦ elim (ℕ_discrete (cell_index v) c) [
    | yes q ↦ ground (arith, cell_at-mark_same grid v m w)
    | no n ↦ ground (arith, cell_at-mark_brick grid v m c n)
  ]
  | no n ↦ ground (arith, cell_at-mark_ne grid v m j c n)
]

mark_or-or : (p q : Bool) (x : ℕ) → mark_or q (mark_or p x) ≡ mark_or (p || q) x
mark_or-or true true x = refl
mark_or-or true false x = refl
mark_or-or false q x = refl

pub mark_samples-IsWhole :
    (grid : Triple) (vs : List Triple) (m : Blocks) → IsWhole m → IsWhole (mark_samples grid vs m)
unfolding mark_samples
mark_samples-IsWhole grid [] m w = w
mark_samples-IsWhole grid (v ∷ vs) m w =
    mark_samples-IsWhole grid vs (mark_sample grid v m) (mark_sample-IsWhole grid v m w)

pub cell_at-mark_samples :
    (grid : Triple) (vs : List Triple) (m : Blocks) (j c : ℕ)
    → IsWhole m
    → cell_at (mark_samples grid vs m) j c ≡ mark_or (any_in grid j c vs) (cell_at m j c)
unfolding mark_samples
cell_at-mark_samples grid [] m j c w = refl
cell_at-mark_samples grid (v ∷ vs) m j c w =
    cell_at-mark_samples grid vs (mark_sample grid v m) j c (mark_sample-IsWhole grid v m w)
    ∙ ap (mark_or (any_in grid j c vs)) (cell_at-mark grid v m j c w)
    ∙ mark_or-or (is_in grid j c v) (any_in grid j c vs) (cell_at m j c)
