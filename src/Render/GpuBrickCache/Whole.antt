-- ===== src/Render/GpuBrickCache/Whole.antt =====
-- src/render/GpuBrickCache.cpp: `seedEmpties` on one tile of the directory.
use scrollviewer.Base.{
  ℕ, ◌+◌, ◌*◌, ◌/◌, ◌%◌, ◌^◌, ◌<◌, ◌≤◌, ◌≡◌, refl, sym, subst, ap, ◌∙◌, ◌⊎◌, inl, inr, Bool, true,
  false, some, List, arith, get_elem?, get_or, length, Bool-cases, ℕ_discrete,
}
use scrollviewer.Base.Grid.{flat-lt, flat-eq}
use scrollviewer.Base.Loops.{true_ne_false}
use scrollviewer.Data.BrickKey.{BrickKey}
use scrollviewer.Render.GpuBrickCache.{Dims, Level, Pages, tile_dim, in_tile_index, is_empty_entry}
use scrollviewer.Render.GpuBrickCache.Tables.{IsPaged}
use scrollviewer.Render.GpuBrickCache.Refined.{
  InGrid, read_entry-read_at, index_in, some_eq, level_of,
}
use scrollviewer.Render.GpuBrickCache.Seeding.{
  tile_end, scan_tile, seed_key, seed_known, seed_tile, mark_tile,
}
use scrollviewer.Render.GpuBrickCache.Scanned.{Within, scan_tile-all, scan_tile-any}
use scrollviewer.Render.GpuBrickCache.Marks.{IsBrick, Seeds, Seeds-same, Emptied, mark_tile-Seeds}
use scrollviewer.Render.GpuBrickCache.OneEntry.{
  tile_of-Within, emptied_tile, emptied-IsPaged, emptied_reads,
}

module _ (dims : List Dims) (level : ℕ) (d grid : Dims) (is_empty : ℕ → ℕ → ℕ → Bool)
    (there : get_elem? dims level ≡ some d) (small : level < 2 ^ 8)
    (fit : (grid.z + 16 ≤ 2 ^ 32) × (grid.y + 16 ≤ 2 ^ 32) × (grid.x + 16 ≤ 2 ^ 32)) (tz ty tx : ℕ)
    (t : (tz < d.z) × (ty < d.y) × (tx < d.x)) where
  -- Every empty brick of the tile is entered as such.
  abbrev pub IsSeeded : Pages → Type 0
  IsSeeded p =
      (z : ℕ)
      → Within grid.z tz z
      → (y : ℕ) → Within grid.y ty y
      → (x : ℕ) → Within grid.x tx x
      → Emptied dims level d grid is_empty z y x p

  abbrev its_place : ℕ
  its_place = (tz * d.y + ty) * d.x + tx

  same_dims : (j : BrickKey) (h : InGrid dims j) → level ≡ j.level → h.d ≡ d
  same_dims j h e = some_eq (sym h.there ∙ sym (ap (get_elem? dims) e) ∙ there)

  tile_of_brick :
      (j : BrickKey) (b : IsBrick dims level d grid is_empty j)
      → level ≡ j.level
      → its_place ≡ index_in b.placed.d j
      → Within grid.z tz j.z × Within grid.y ty j.y × Within grid.x tx j.x
  tile_of_brick j b e f =
      let h = b.placed in
      let same = same_dims j h e in
      let g =
        flat-eq d.y d.x tz (j.z / tile_dim) ty (j.y / tile_dim) tx (j.x / tile_dim) t.1
          (subst (λ a. j.y / tile_dim < a.y) same h.y_in) t.2
          (subst (λ a. j.x / tile_dim < a.x) same h.x_in) (f ∙ ap (λ a. index_in a j) same) in
      let i = b.inside (sym e) in
      (
        subst (λ a. Within grid.z a j.z) (sym g.0) (tile_of-Within grid.z j.z i.0 fit.0),
        subst (λ a. Within grid.y a j.y) (sym g.1) (tile_of-Within grid.y j.y i.1 fit.1),
        subst (λ a. Within grid.x a j.x) (sym g.2) (tile_of-Within grid.x j.x i.2 fit.2),
      )

  tile_lem : (extent a i : ℕ) → Within extent a i → a ≡ i / tile_dim
  unfolding tile_end
  tile_lem extent a i w = omega (arith, w)

  key_level : level ≡ level % 2 ^ 8
  key_level = omega (arith, small)

  place_of_key :
      (z y x : ℕ) (b : IsBrick dims level d grid is_empty (seed_key level z y x))
      → Within grid.z tz z
      → Within grid.y ty y
      → Within grid.x tx x
      → its_place ≡ index_in b.placed.d (seed_key level z y x)
  place_of_key z y x b wz wy wx =
      let k = seed_key level z y x in
      ap (λ a. (a * d.y + ty) * d.x + tx) (tile_lem grid.z tz z wz)
      ∙ ap (λ a. (z / tile_dim * d.y + a) * d.x + tx) (tile_lem grid.y ty y wy)
      ∙ ap (λ a. (z / tile_dim * d.y + y / tile_dim) * d.x + a) (tile_lem grid.x tx x wx)
      ∙ ap (λ a. index_in a k) (sym (same_dims k b.placed key_level))

  whole-Seeds :
      (p : Pages) (l : Level)
      → IsPaged dims p
      → get_elem? p.levels level ≡ some l
      → l.dir_dim ≡ d
      → (scan_tile is_empty grid tz ty tx).all ≡ true
      → get_or l.dir_mirror its_place 0 ≡ 0
      → Seeds dims level d grid is_empty p (emptied_tile p level l its_place)
        × IsSeeded (emptied_tile p level l its_place)
  whole-Seeds p l v here shape all unknown =
      let q = emptied_tile p level l its_place in
      let room : its_place < length l.dir_mirror =
        subst (λ n. its_place < n) (sym (v.sized level l here))
          (subst (λ a. its_place < a.z * a.y * a.x) (sym shape)
            (flat-lt d.z d.y d.x tz ty tx t.0 t.1 t.2)) in
      let paged : IsPaged dims q = emptied-IsPaged dims p v level its_place l here room unknown in
      let reads = emptied_reads dims p v level its_place l here room unknown in
      (
        record {
          paged = paged;
          capacity = refl;
          grows = omega arith;
          entries = λ j b.
              elim (reads j.level (index_in b.placed.d j) (in_tile_index j.z j.y j.x)) [
                | inl (e, f, g) ↦
                    let w = tile_of_brick j b e f in
                    inr (
                      sym e,
                      scan_tile-all is_empty grid tz ty tx all j.z j.y j.x w.0 w.1 w.2,
                      ap is_empty_entry (read_entry-read_at dims q paged j b.placed) ∙ g,
                    )
                | inr (n, g) ↦ inl (
                    read_entry-read_at dims q paged j b.placed
                    ∙ g
                    ∙ sym (read_entry-read_at dims p v j b.placed))
              ];
        },
        λ z wz y wy x wx b e.
            let k = seed_key level z y x in
            elim (reads k.level (index_in b.placed.d k) (in_tile_index k.z k.y k.x)) [
              | inl (_, _, g) ↦
                  inl (ap is_empty_entry (read_entry-read_at dims q paged k b.placed) ∙ g)
              | inr (inl n, g) ↦ absurd (n key_level)
              | inr (inr n, g) ↦ absurd (n (place_of_key z y x b wz wy wx))
            ],
      )

  abbrev place_in : Dims → ℕ
  place_in a = (tz * a.y + ty) * a.x + tx

  -- The three branches.
  seed_known_cases :
      (p : Pages) (l : Level)
      → ((scan_tile is_empty grid tz ty tx).all ≡ true)
          × (get_or l.dir_mirror (place_in l.dir_dim) 0 ≡ 0)
          × (seed_known is_empty grid level l tz ty tx p
              ≡ emptied_tile p level l (place_in l.dir_dim))
        ⊎ (seed_known is_empty grid level l tz ty tx p ≡ mark_tile is_empty grid level tz ty tx p)
        ⊎ ((scan_tile is_empty grid tz ty tx).any ≡ false)
          × (seed_known is_empty grid level l tz ty tx p ≡ p)
  unfolding seed_known
  seed_known_cases p l = elim (Bool-cases (scan_tile is_empty grid tz ty tx).any) [
    | inr none_empty ↦ inr (inr (none_empty, ground arith))
    | inl some_empty ↦ elim (Bool-cases (scan_tile is_empty grid tz ty tx).all) [
      | inr mixed ↦ inr (inl (ground arith))
      | inl every ↦ elim (ℕ_discrete (get_or l.dir_mirror (place_in l.dir_dim) 0) 0) [
        | yes z ↦ inl (every, z, ground arith)
        | no n ↦ inr (inl ground arith)
      ]
    ]
  ]

  pub seed_tile-Seeds :
      (p : Pages)
      → IsPaged dims p
      → Seeds dims level d grid is_empty p (seed_tile is_empty grid level tz ty tx p)
        × IsSeeded (seed_tile is_empty grid level tz ty tx p)
  unfolding seed_tile
  seed_tile-Seeds p v =
      let Done : Pages → Type 0 = λ q. Seeds dims level d grid is_empty p q × IsSeeded q in
      let (l, here, shape) =
        level_of p.levels level d (ap (λ ds. get_elem? ds level) v.shape ∙ there) in
      rw (seed_tile, here)
        (elim (seed_known_cases p l) [
          | inl (every, unknown, e) ↦
              let at : place_in l.dir_dim ≡ its_place = ap place_in shape in
              subst Done (sym (e ∙ ap (emptied_tile p level l) at)) (
                whole-Seeds p l v here shape every
                  (ap (λ a. get_or l.dir_mirror a 0) (sym at) ∙ unknown))
          | inr (inl e) ↦
              subst Done (sym e)
                (mark_tile-Seeds dims level d grid is_empty small there tz ty tx t p v)
          | inr (inr (none_empty, e)) ↦ subst Done (sym e) (
            Seeds-same dims level d grid is_empty p v,
            λ z wz y wy x wx b f. absurd (
                true_ne_false
                  (sym f ∙ scan_tile-any is_empty grid tz ty tx none_empty z y x wz wy wx)),
          )
        ])
