-- ===== src/Render/SurfaceMask/Merged.antt =====
-- src/render/SurfaceMask.cpp: the merge of the tasks' blocks.
use scrollviewer.Base.{
  ℕ, zero, suc, ◌≡◌, ◌≢◌, max, refl, sym, ap, ◌∙◌, Bool, true, false, ◌||◌, Option, none, some,
  List, [], ◌∷◌, if_pos, subst, if_neg, length, get_or, if◌then◌else◌, arith, ℕ_discrete,
}
use scrollviewer.Base.Assoc
use scrollviewer.Render.SurfaceMask.{
  Triple, Block, Blocks, block_cells, mark_samples, zip_max, merge_into, merge_one, merge_part,
  merge_parts, build_blocks,
}
use scrollviewer.Render.SurfaceMask.Marked.{
  cell_at, value_in, any_in, mark_or, IsFull, IsWhole, insert-IsWhole, cell_at-insert_same,
  cell_at-insert_ne, cell_at-mark_samples, mark_samples-IsWhole,
}

length-zip_max : (xs ys : Block) → length (zip_max xs ys) ≡ length xs
unfolding zip_max
length-zip_max [] ys = refl
length-zip_max (x ∷ xs) [] = refl
length-zip_max (x ∷ xs) (y ∷ ys) = ap suc (length-zip_max xs ys)

get_or-zip_max :
    (xs ys : Block) (i : ℕ)
    → length xs ≡ length ys
    → get_or (zip_max xs ys) i 0 ≡ max (get_or xs i 0) (get_or ys i 0)
unfolding zip_max
get_or-zip_max [] [] i h = refl
get_or-zip_max [] (y ∷ ys) i h = absurd (omega arith)
get_or-zip_max (x ∷ xs) [] i h = absurd (omega arith)
get_or-zip_max (x ∷ xs) (y ∷ ys) zero h = refl
get_or-zip_max (x ∷ xs) (y ∷ ys) (suc i) h = get_or-zip_max xs ys i (omega arith)

merge_into-length :
    (o : Option Block) (b : Block)
    → ((d : Block) → o ≡ some d → length d ≡ block_cells)
    → length b ≡ block_cells
    → length (merge_into o b) ≡ block_cells
unfolding merge_into
merge_into-length none b w h = h
merge_into-length (some d) b w h = length-zip_max d b ∙ w d refl

get_or-merge_into :
    (o : Option Block) (b : Block) (c : ℕ)
    → ((d : Block) → o ≡ some d → length d ≡ block_cells)
    → length b ≡ block_cells
    → get_or (merge_into o b) c 0 ≡ max (get_or b c 0) (value_in o c)
unfolding merge_into
get_or-merge_into none b c w h = omega arith
get_or-merge_into (some d) b c w h = omega (arith, get_or-zip_max d b c (w d refl ∙ sym h))

merge_one-IsWhole :
    (k : ℕ) (b : Block) (m : Blocks)
    → IsWhole m
    → length b ≡ block_cells
    → IsWhole (merge_one k b m)
merge_one-IsWhole k b m w h =
    let o = Assoc.lookup ℕ_discrete k m in
    insert-IsWhole m k (merge_into o b) w (merge_into-length o b (w.full k) h)

cell_at-merge_one_same :
    (k c : ℕ) (b : Block) (m : Blocks)
    → IsWhole m
    → length b ≡ block_cells
    → cell_at (merge_one k b m) k c ≡ max (get_or b c 0) (cell_at m k c)
unfolding cell_at
cell_at-merge_one_same k c b m w h =
    let o = Assoc.lookup ℕ_discrete k m in
    cell_at-insert_same m k c (merge_into o b) ∙ get_or-merge_into o b c (w.full k) h

-- The first entry of a part and the rest of it.
cell_at-first : (k c : ℕ) (b : Block) (part : Blocks) → cell_at ((k, b) ∷ part) k c ≡ get_or b c 0
unfolding cell_at Assoc.lookup
cell_at-first k c b part =
    ap (λ o. value_in o c) (if_pos (ℕ_discrete k k) refl (some b) (Assoc.lookup ℕ_discrete k part))

cell_at-rest :
    (k j c : ℕ) (b : Block) (part : Blocks) → k ≢ j → cell_at ((k, b) ∷ part) j c ≡ cell_at part j c
unfolding cell_at Assoc.lookup
cell_at-rest k j c b part n =
    ap (λ o. value_in o c) (if_neg (ℕ_discrete k j) n (some b) (Assoc.lookup ℕ_discrete j part))

first-full : (k : ℕ) (b : Block) (part : Blocks) → IsFull ((k, b) ∷ part) → length b ≡ block_cells
unfolding Assoc.lookup
first-full k b part f =
    f k b (if_pos (ℕ_discrete k k) refl (some b) (Assoc.lookup ℕ_discrete k part))

rest-IsWhole : (k : ℕ) (b : Block) (part : Blocks) → IsWhole ((k, b) ∷ part) → IsWhole part
unfolding Assoc.lookup
rest-IsWhole k b part w = record {
  distinct = w.distinct.1;
  full = λ j b' e. elim (ℕ_discrete k j) [
    | yes p ↦ absurd (cc (p, e, w.distinct.0))
    | no n ↦ w.full j b' (if_neg (ℕ_discrete k j) n (some b) (Assoc.lookup ℕ_discrete j part) ∙ e)
  ];
}

merge_part-IsWhole : (part m : Blocks) → IsWhole part → IsWhole m → IsWhole (merge_part part m)
unfolding merge_part
merge_part-IsWhole [] m u w = w
merge_part-IsWhole ((k, b) ∷ part) m u w =
    merge_part-IsWhole part (merge_one k b m) (rest-IsWhole k b part u)
      (merge_one-IsWhole k b m w (first-full k b part u.full))

cell_at-none : (m : Blocks) (k c : ℕ) → Assoc.lookup ℕ_discrete k m ≡ none → cell_at m k c ≡ 0
unfolding cell_at
cell_at-none m k c e = ap (λ o. value_in o c) e

merged_first :
    (k j c : ℕ) (b : Block) (part m : Blocks)
    → k ≡ j
    → IsWhole ((k, b) ∷ part)
    → IsWhole m
    → max (cell_at part j c) (cell_at (merge_one k b m) j c)
      ≡ max (cell_at ((k, b) ∷ part) j c) (cell_at m j c)
merged_first k j c b part m p u w =
    subst
      (λ t.
        max (cell_at part t c) (cell_at (merge_one k b m) t c)
        ≡ max (cell_at ((k, b) ∷ part) t c) (cell_at m t c))
      p
      (omega (
        arith,
        cell_at-none part k c u.distinct.0,
        cell_at-merge_one_same k c b m w (first-full k b part u.full),
        cell_at-first k c b part,
      ))

-- No block at all.
empty-IsWhole : IsWhole []
unfolding Assoc.lookup
empty-IsWhole = record { distinct = tt; full = λ k b e. absurd (cc) }

abbrev pub any_part : Triple → ℕ → ℕ → List (List Triple) → Bool
any_part grid brick c [] = false
any_part grid brick c (vs ∷ parts) = any_in grid brick c vs || any_part grid brick c parts

-- A cell of the merge is the larger of the two.
cell_at-merge_part :
    (part m : Blocks) (j c : ℕ)
    → IsWhole part
    → IsWhole m
    → cell_at (merge_part part m) j c ≡ max (cell_at part j c) (cell_at m j c)
unfolding merge_part Assoc.lookup
cell_at-merge_part [] m j c u w = omega (arith, cell_at-none [] j c refl)
cell_at-merge_part ((k, b) ∷ part) m j c u w =
    let f = first-full k b part u.full in
    let ih =
      cell_at-merge_part part (merge_one k b m) j c (rest-IsWhole k b part u)
        (merge_one-IsWhole k b m w f) in
    elim (ℕ_discrete k j) [
      | yes p ↦ ih ∙ merged_first k j c b part m p u w
      | no n ↦ omega (
        arith,
        ih,
        cell_at-insert_ne m k j c (merge_into (Assoc.lookup ℕ_discrete k m) b) n,
        cell_at-rest k j c b part n,
      )
    ]

-- `blocks_` is whole, and a cell is set where a task has set it.
merge_parts-IsWhole :
    (grid : Triple) (parts : List (List Triple)) (m : Blocks)
    → IsWhole m
    → IsWhole (merge_parts grid parts m)
unfolding merge_parts
merge_parts-IsWhole grid [] m w = w
merge_parts-IsWhole grid (vs ∷ parts) m w =
    merge_parts-IsWhole grid parts (merge_part (mark_samples grid vs []) m) (
      merge_part-IsWhole (mark_samples grid vs []) m (mark_samples-IsWhole grid vs [] empty-IsWhole)
        w)

max-mark_or :
    (p q : Bool) (x : ℕ) → max (mark_or q 0) (max (mark_or p 0) x) ≡ max (mark_or (p || q) 0) x
max-mark_or true true x = omega arith
max-mark_or true false x = omega arith
max-mark_or false q x = omega arith

max-none : (p : Bool) → max (mark_or p 0) 0 ≡ mark_or p 0
max-none p = omega arith

cell_at-merge_parts :
    (grid : Triple) (parts : List (List Triple)) (m : Blocks) (j c : ℕ)
    → IsWhole m
    → cell_at (merge_parts grid parts m) j c
      ≡ max (mark_or (any_part grid j c parts) 0) (cell_at m j c)
unfolding merge_parts cell_at Assoc.lookup
cell_at-merge_parts grid [] m j c w = omega arith
cell_at-merge_parts grid (vs ∷ parts) m j c w =
    let part = mark_samples grid vs [] in
    let u = mark_samples-IsWhole grid vs [] empty-IsWhole in
    let ih =
      cell_at-merge_parts grid parts (merge_part part m) j c (merge_part-IsWhole part m u w) in
    let step = cell_at-merge_part part m j c u w in
    let here = cell_at-mark_samples grid vs [] j c empty-IsWhole in
    ih
    ∙ ap (max (mark_or (any_part grid j c parts) 0)) step
    ∙ ap (λ x. max (mark_or (any_part grid j c parts) 0) (max x (cell_at m j c))) here
    ∙ max-mark_or (any_in grid j c vs) (any_part grid j c parts) (cell_at m j c)

-- After the merge, a cell of a brick is 255 where one of the tasks marks a voxel in that cell of that
-- brick, and 0 elsewhere: what the tasks mark is merged whole, however the voxels are split among them.
pub build_blocks-any_part :
    (grid : Triple) (parts : List (List Triple)) (brick c : ℕ)
    → cell_at (build_blocks grid parts) brick c ≡ (if any_part grid brick c parts then 255 else 0)
unfolding build_blocks cell_at Assoc.lookup
build_blocks-any_part grid parts brick c =
    cell_at-merge_parts grid parts [] brick c empty-IsWhole ∙ max-none (any_part grid brick c parts)
