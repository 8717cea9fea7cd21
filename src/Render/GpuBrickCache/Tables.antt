-- ===== src/Render/GpuBrickCache/Tables.antt =====
-- src/render/GpuBrickCache.cpp: the page tables as a map. Each directory entry has a tile of its own.
use scrollviewer.Base.{
  ℕ, zero, suc, ◌+◌, ◌*◌, ◌<◌, ◌≤◌, ◌≡◌, ◌≢◌, refl, sym, subst, ap, ◌∙◌, ◌⊎◌, inl, inr, true, none,
  some, List, [], ◌∷◌, map, arith, get_elem?, get_or, set, length, length-set, get_or-set_self,
  get_or-set_ne, ℕ_discrete,
}
use scrollviewer.Render.GpuBrickCache.{Dims, Level, Pages, tile_entry, fill_n, tile_entries}
use scrollviewer.Render.GpuBrickCache.Slots.{get_elem?-set_self, get_elem?-set_ne, get_elem?-bound}

-- An entry of the directory of a level: 0 where there is none.
abbrev pub dir_at : List Level → ℕ → ℕ → ℕ
dir_at [] n i = 0
dir_at (l ∷ ls) zero i = get_or l.dir_mirror i 0
dir_at (l ∷ ls) (suc n) i = dir_at ls n i

-- The entry at a place of the tile that a directory entry leads to.
abbrev pub read_at : Pages → ℕ → ℕ → ℕ → ℕ
read_at p n di i = tile_entry p (dir_at p.levels n di) i

-- The directory has an entry for each tile of the level.
abbrev pub IsSized : Level → Type 0
IsSized l = length l.dir_mirror ≡ l.dir_dim.z * l.dir_dim.y * l.dir_dim.x

-- Directories of the given dimensions, whose entries lead to tiles that have been taken, each to another.
pub record IsPaged (dims : List Dims) (p : Pages) : Type 0 where
  pub shape : map (λ (l : Level). l.dir_dim) p.levels ≡ dims
  pub sized : (n : ℕ) (l : Level) → get_elem? p.levels n ≡ some l → IsSized l
  pub whole : p.tile_capacity * tile_entries ≤ length p.tile_mirror
  pub fits : p.tiles_allocated ≤ p.tile_capacity
  pub known : (n i : ℕ) → dir_at p.levels n i < p.tiles_allocated + 2
  pub apart :
      (n i m j : ℕ)
      → 2 ≤ dir_at p.levels n i
      → dir_at p.levels n i ≡ dir_at p.levels m j
      → (n ≡ m) × (i ≡ j)

pub dir_at-there :
    (ls : List Level) (n i : ℕ) (l : Level)
    → get_elem? ls n ≡ some l
    → dir_at ls n i ≡ get_or l.dir_mirror i 0
dir_at-there [] n i l e = absurd (cc)
dir_at-there (k ∷ ls) zero i l e = cc
dir_at-there (k ∷ ls) (suc n) i l e = dir_at-there ls n i l e

-- A directory with one entry changed.
abbrev pub with_entry : Level → ℕ → ℕ → Level
with_entry l di v = record l { dir_mirror = set l.dir_mirror di v; dir_dirty = true }

pub dir_at-set_self :
    (ls : List Level) (n di v : ℕ) (l : Level)
    → get_elem? ls n ≡ some l
    → di < length l.dir_mirror
    → dir_at (set ls n (with_entry l di v)) n di ≡ v
dir_at-set_self [] n di v l e h = absurd (cc)
dir_at-set_self (k ∷ ls) zero di v l e h = get_or-set_self l.dir_mirror di v 0 h
dir_at-set_self (k ∷ ls) (suc n) di v l e h = dir_at-set_self ls n di v l e h

pub dir_at-set_ne :
    (ls : List Level) (n di v : ℕ) (l : Level) (m i : ℕ)
    → get_elem? ls n ≡ some l
    → ((n ≢ m) ⊎ (di ≢ i))
    → dir_at (set ls n (with_entry l di v)) m i ≡ dir_at ls m i
dir_at-set_ne [] n di v l m i e h = refl
dir_at-set_ne (k ∷ ls) zero di v l zero i e (inl h) = absurd (h refl)
dir_at-set_ne (k ∷ ls) zero di v l zero i e (inr h) =
    get_or-set_ne l.dir_mirror di i v 0 h ∙ sym (dir_at-there (k ∷ ls) zero i l e)
dir_at-set_ne (k ∷ ls) zero di v l (suc m) i e h = refl
dir_at-set_ne (k ∷ ls) (suc n) di v l zero i e h = refl
dir_at-set_ne (k ∷ ls) (suc n) di v l (suc m) i e (inl h) =
    dir_at-set_ne ls n di v l m i e (inl (λ q. h (ap suc q)))
dir_at-set_ne (k ∷ ls) (suc n) di v l (suc m) i e (inr h) = dir_at-set_ne ls n di v l m i e (inr h)

-- Both cases: the entry itself, or another one.
pub is_entry : (n di m i : ℕ) → ((n ≡ m) × (di ≡ i)) ⊎ ((n ≢ m) ⊎ (di ≢ i))
is_entry n di m i = elim (ℕ_discrete n m) [
  | yes p ↦ elim (ℕ_discrete di i) [ yes q ↦ inl (p, q) | no q ↦ inr (inr q) ]
  | no p ↦ inr (inl p)
]

pub map-set :
    (ls : List Level) (n di v : ℕ) (l : Level)
    → get_elem? ls n ≡ some l
    → map (λ (t : Level). t.dir_dim) (set ls n (with_entry l di v))
      ≡ map (λ (t : Level). t.dir_dim) ls
map-set [] n di v l e = refl
map-set (k ∷ ls) zero di v l e = cc
map-set (k ∷ ls) (suc n) di v l e = ap (λ t. k.dir_dim ∷ t) (map-set ls n di v l e)

pub set-sized :
    (ls : List Level) (n di v : ℕ) (l : Level)
    → get_elem? ls n ≡ some l
    → ((m : ℕ) (t : Level) → get_elem? ls m ≡ some t → IsSized t)
    → (m : ℕ) (t : Level) → get_elem? (set ls n (with_entry l di v)) m ≡ some t
    → IsSized t
set-sized ls n di v l e h m t q = elim (ℕ_discrete n m) [
  | yes p ↦
      let here : get_elem? (set ls n (with_entry l di v)) n ≡ some (with_entry l di v) =
        get_elem?-set_self ls n (with_entry l di v) (get_elem?-bound ls n l e) in
      let same : some (with_entry l di v) ≡ some t =
        sym here ∙ ap (λ a. get_elem? (set ls n (with_entry l di v)) a) p ∙ q in
      subst (λ o. elim o as (λ _. Type 0) [ none ↦ Unit | some a ↦ IsSized a ]) same
        (length-set l.dir_mirror di v ∙ h n l e)
  | no p ↦ h m t (sym (get_elem?-set_ne ls n m (with_entry l di v) p) ∙ q)
]

pub get_or-fill_n :
    (p n v : ℕ) (xs : List ℕ) (j : ℕ)
    → p ≤ j
    → j < p + n
    → p + n ≤ length xs
    → get_or (fill_n p n v xs) j 0 ≡ v
unfolding fill_n
get_or-fill_n p n v [] j low high h = absurd (omega arith)
get_or-fill_n (suc p) n v (x ∷ xs) zero low high h = absurd (omega arith)
get_or-fill_n (suc p) n v (x ∷ xs) (suc j) low high h =
    get_or-fill_n p n v xs j (omega arith) (omega arith) (omega arith)
get_or-fill_n zero zero v (x ∷ xs) j low high h = absurd (omega arith)
get_or-fill_n zero (suc n) v (x ∷ xs) zero low high h = refl
get_or-fill_n zero (suc n) v (x ∷ xs) (suc j) low high h =
    get_or-fill_n zero n v xs j (omega arith) (omega arith) (omega arith)

pub get_or-fill_n_before :
    (p n v : ℕ) (xs : List ℕ) (j : ℕ) → j < p → get_or (fill_n p n v xs) j 0 ≡ get_or xs j 0
unfolding fill_n
get_or-fill_n_before p n v [] j h = refl
get_or-fill_n_before (suc p) n v (x ∷ xs) zero h = refl
get_or-fill_n_before (suc p) n v (x ∷ xs) (suc j) h = get_or-fill_n_before p n v xs j (omega arith)
get_or-fill_n_before zero n v (x ∷ xs) j h = absurd (omega arith)
