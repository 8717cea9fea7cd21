-- ===== src/Render/GpuBrickCache/Refined.antt =====
-- src/render/GpuBrickCache.cpp: the page tables refine a map from the coordinates of a brick to its entry.
use scrollviewer.Base.{
  ℕ, zero, suc, ◌+◌, ◌*◌, ◌/◌, ◌<◌, ◌≤◌, ◌≡◌, refl, sym, subst, ap, ◌∙◌, ◌⊎◌, inl, inr, some, List,
  [], ◌∷◌, map, ite, if_pos, if_neg, arith, get_elem?, get_or, length,
}
use scrollviewer.Base.Grid.{flat-lt, flat-eq}
use scrollviewer.Data.BrickKey.{BrickKey, coord_dec}
use scrollviewer.Render.GpuBrickCache.{
  Dims, Level, Pages, tile_dim, dir_index, in_tile_index, read_entry, write_at, write_entry,
  tile_entry,
}
use scrollviewer.Render.GpuBrickCache.Paging.{in_tile_index_bound, read_entry-level}
use scrollviewer.Render.GpuBrickCache.Tables.{read_at, IsPaged, dir_at-there}
use scrollviewer.Render.GpuBrickCache.Written.{IsUpdated, write_at_cases}

-- The brick has a place in the directory of its level.
pub record InGrid (dims : List Dims) (k : BrickKey) : Type 0 where
  pub d : Dims
  pub there : get_elem? dims k.level ≡ some d
  pub z_in : k.z / tile_dim < d.z
  pub y_in : k.y / tile_dim < d.y
  pub x_in : k.x / tile_dim < d.x

pub level_of :
    (ls : List Level) (n : ℕ) (d : Dims)
    → get_elem? (map (λ (l : Level). l.dir_dim) ls) n ≡ some d
    → (l : Level) × (get_elem? ls n ≡ some l) × (l.dir_dim ≡ d)
level_of [] n d e = absurd (cc)
level_of (l ∷ ls) zero d e = (l, refl, (cc))
level_of (l ∷ ls) (suc n) d e = level_of ls n d e

-- The index of a brick in a directory of the given dimensions.
abbrev pub index_in : Dims → BrickKey → ℕ
index_in d k = (k.z / tile_dim * d.y + k.y / tile_dim) * d.x + k.x / tile_dim

pub dir_index-in :
    (l : Level) (k : BrickKey) (d : Dims) → l.dir_dim ≡ d → dir_index l k.z k.y k.x ≡ index_in d k
unfolding dir_index
dir_index-in l k d e = ap (λ t. index_in t k) e

module _ (dims : List Dims) (p : Pages) (v : IsPaged dims p) (k : BrickKey)
    (g : InGrid dims k) where
  pub its_level : (l : Level) × (get_elem? p.levels k.level ≡ some l) × (l.dir_dim ≡ g.d)
  its_level = level_of p.levels k.level g.d (ap (λ ds. get_elem? ds k.level) v.shape ∙ g.there)

  pub read_entry-read_at :
      read_entry p k ≡ read_at p k.level (index_in g.d k) (in_tile_index k.z k.y k.x)
  read_entry-read_at =
      let l = its_level.0 in
      let di = dir_index-in l k g.d its_level.2 in
      read_entry-level p k l (get_or l.dir_mirror (dir_index l k.z k.y k.x) 0) its_level.1 refl
      ∙ ap (λ t. tile_entry p (get_or l.dir_mirror t 0) (in_tile_index k.z k.y k.x)) di
      ∙ ap (λ t. tile_entry p t (in_tile_index k.z k.y k.x))
          (sym (dir_at-there p.levels k.level (index_in g.d k) l its_level.1))

pub some_eq : {a b : Dims} → some a ≡ some b → a ≡ b
some_eq e = cc

-- Two bricks at one place are one.
same_coord :
    (dims : List Dims) (k j : BrickKey) (g : InGrid dims k) (h : InGrid dims j)
    → k.level ≡ j.level
    → index_in g.d k ≡ index_in h.d j
    → in_tile_index k.z k.y k.x ≡ in_tile_index j.z j.y j.x
    → k.coord ≡ j.coord
unfolding in_tile_index
same_coord dims k j g h e f t =
    let same : g.d ≡ h.d = some_eq (sym g.there ∙ ap (λ n. get_elem? dims n) e ∙ h.there) in
    let outer =
      flat-eq g.d.y g.d.x (k.z / tile_dim) (j.z / tile_dim) (k.y / tile_dim) (j.y / tile_dim)
        (k.x / tile_dim) (j.x / tile_dim) g.y_in
        (subst (λ d. j.y / tile_dim < d.y) (sym same) h.y_in) g.x_in
        (subst (λ d. j.x / tile_dim < d.x) (sym same) h.x_in)
        (f ∙ ap (λ d. index_in d j) (sym same)) in
    let z : k.z ≡ j.z = omega (arith, outer, t) in
    let y : k.y ≡ j.y = omega (arith, outer, t) in
    let x : k.x ≡ j.x = omega (arith, outer, t) in ground (arith, e, x, y, z)

-- After a write of an entry every brick reads as in a map: this one the new value, the others as before.
pub record IsWritten (dims : List Dims) (p p' : Pages) (k : BrickKey) (value : ℕ) : Type 0 where
  pub paged : IsPaged dims p'
  pub capacity : p'.tile_capacity ≡ p.tile_capacity
  pub grows : p.tiles_allocated ≤ p'.tiles_allocated
  pub reads :
      (j : BrickKey)
      → InGrid dims j
      → read_entry p' j ≡ ite (coord_dec k.coord j.coord) value (read_entry p j)

-- The volume's number plays no part.
pub read_entry-coord :
    (p : Pages) (j k : BrickKey) → j.coord ≡ k.coord → read_entry p j ≡ read_entry p k
unfolding read_entry
read_entry-coord p j k e = ap (λ c. read_entry p (record j { coord = c })) e

updated-IsWritten :
    (dims : List Dims) (p p' : Pages)
    → IsPaged dims p
    → (k : BrickKey) (value : ℕ) (g : InGrid dims k)
    → IsUpdated dims p p' k.level (index_in g.d k) (in_tile_index k.z k.y k.x) value
    → IsWritten dims p p' k value
updated-IsWritten dims p p' v k value g w = record {
  paged = w.paged;
  capacity = w.capacity;
  grows = w.grows;
  reads = λ j h. elim (coord_dec k.coord j.coord) [
    | yes e ↦
        read_entry-coord p' j k (sym e)
        ∙ read_entry-read_at dims p' w.paged k g
        ∙ w.written
        ∙ sym (if_pos (coord_dec k.coord j.coord) e value (read_entry p j))
    | no n ↦
        read_entry-read_at dims p' w.paged j h
        ∙ w.others j.level (index_in h.d j) (in_tile_index j.z j.y j.x)
            (in_tile_index_bound j.z j.y j.x) (λ q. n (same_coord dims k j g h q.0 q.1 q.2))
        ∙ sym (read_entry-read_at dims p v j h)
        ∙ sym (if_neg (coord_dec k.coord j.coord) n value (read_entry p j))
  ];
}

pub write_entry_cases :
    (dims : List Dims) (p : Pages) (k : BrickKey) (value lo hi : ℕ)
    → IsPaged dims p
    → InGrid dims k
    → ((write_entry k value lo hi p ≡ p) × (p.tiles_allocated ≡ p.tile_capacity))
      ⊎ IsWritten dims p (write_entry k value lo hi p) k value
unfolding write_entry
write_entry_cases dims p k value lo hi v g =
    let (l, there, shape) = its_level dims p v k g in
    let inside : dir_index l k.z k.y k.x < length l.dir_mirror =
      subst (λ n. n < length l.dir_mirror) (sym (dir_index-in l k g.d shape))
        (subst (λ n. index_in g.d k < n) (sym (v.sized k.level l there))
          (subst (λ d. index_in g.d k < d.z * d.y * d.x) (sym shape)
            (flat-lt g.d.z g.d.y g.d.x (k.z / tile_dim) (k.y / tile_dim) (k.x / tile_dim) g.z_in
              g.y_in g.x_in))) in
    rw (write_entry, there)
      (elim (write_at_cases dims p v k l value lo hi there inside) [
        | inl same ↦ inl same
        | inr w ↦ inr (
            updated-IsWritten dims p (write_at k.level l k value lo hi p) v k value g (
              subst
                (λ n.
                  IsUpdated dims p (write_at k.level l k value lo hi p) k.level n
                    (in_tile_index k.z k.y k.x) value)
                (dir_index-in l k g.d shape) w))
      ])

-- Writes one after the other, and what a map would hold after them.
pub record Write : Type 0 where
  pub key : BrickKey
  pub value : ℕ
  pub lo : ℕ
  pub hi : ℕ

unfoldable pub write_all : List Write → Pages → Pages
write_all [] p = p
write_all (w ∷ ws) p = write_all ws (write_entry w.key w.value w.lo w.hi p)

unfoldable pub latest : List Write → BrickKey → ℕ → ℕ
latest [] j old = old
latest (w ∷ ws) j old = latest ws j (ite (coord_dec w.key.coord j.coord) w.value old)

abbrev pub AllInGrid : List Dims → List Write → Type 0
AllInGrid dims [] = Unit
AllInGrid dims (w ∷ ws) = InGrid dims w.key × AllInGrid dims ws

write_all-grows :
    (dims : List Dims) (ws : List Write) (p : Pages)
    → IsPaged dims p
    → AllInGrid dims ws
    → (p.tiles_allocated ≤ (write_all ws p).tiles_allocated)
      × ((write_all ws p).tile_capacity ≡ p.tile_capacity)
unfolding write_all
write_all-grows dims [] p v gs = (omega arith, refl)
write_all-grows dims (w ∷ ws) p v gs =
    elim (write_entry_cases dims p w.key w.value w.lo w.hi v gs.0) [
      | inl (same, full) ↦
          subst
            (λ q.
              (p.tiles_allocated ≤ (write_all ws q).tiles_allocated)
              × ((write_all ws q).tile_capacity ≡ p.tile_capacity))
            (sym same) (write_all-grows dims ws p v gs.1)
      | inr u ↦
          let rest = write_all-grows dims ws (write_entry w.key w.value w.lo w.hi p) u.paged gs.1 in
          (omega (arith, rest, u.grows), rest.1 ∙ u.capacity)
    ]

pub write_all-latest :
    (dims : List Dims) (ws : List Write) (p : Pages) (j : BrickKey)
    → IsPaged dims p
    → AllInGrid dims ws
    → InGrid dims j
    → (write_all ws p).tiles_allocated < p.tile_capacity
    → read_entry (write_all ws p) j ≡ latest ws j (read_entry p j)
unfolding write_all latest
write_all-latest dims [] p j v gs h room = refl
write_all-latest dims (w ∷ ws) p j v gs h room =
    let p' = write_entry w.key w.value w.lo w.hi p in
    elim (write_entry_cases dims p w.key w.value w.lo w.hi v gs.0) [
      | inl (same, full) ↦ absurd (
          omega (
            arith,
            room,
            full,
            write_all-grows dims ws p v gs.1,
            ap (λ q. (write_all ws q).tiles_allocated) same,
          ))
      | inr u ↦
          write_all-latest dims ws p' j u.paged gs.1 h (omega (arith, room, u.capacity))
          ∙ ap (latest ws j) (u.reads j h)
    ]
