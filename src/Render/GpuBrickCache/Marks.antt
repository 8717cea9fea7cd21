-- ===== src/Render/GpuBrickCache/Marks.antt =====
-- src/render/GpuBrickCache.cpp: what a part of `seedEmpties` does to the entries, and the loops over one tile.
use scrollviewer.Base.{
  ℕ, ◌-◌, ◌*◌, ◌^◌, ◌<◌, ◌≤◌, ◌≡◌, refl, sym, subst, ap, ◌∙◌, ◌⊎◌, inl, inr, Bool, true, some, List,
  if_pos, if_neg, arith, get_elem?, Bool-cases,
}
use scrollviewer.Base.Loops.{for_range_rule, true_ne_false}
use scrollviewer.Data.BrickKey.{BrickKey, ChunkCoord, coord_dec}
use scrollviewer.Render.GpuBrickCache.{
  Dims, Pages, tile_dim, empty_bit, is_empty_entry, read_entry, write_entry, mark_empty,
}
use scrollviewer.Render.GpuBrickCache.Tables.{IsPaged}
use scrollviewer.Render.GpuBrickCache.Refined.{InGrid, IsWritten, write_entry_cases}
use scrollviewer.Render.GpuBrickCache.Seeding.{
  tile_end, seed_key, mark_one, mark_row, mark_plane, mark_tile,
}
use scrollviewer.Render.GpuBrickCache.Scanned.{Within}

module _ (dims : List Dims) (level : ℕ) (d grid : Dims) (is_empty : ℕ → ℕ → ℕ → Bool) where
  -- A brick of the cache; if it is of the level, it lies in the grid of the level.
  pub record IsBrick (j : BrickKey) : Type 0 where
    pub placed : InGrid dims j
    pub inside : j.level ≡ level → (j.z < grid.z) × (j.y < grid.y) × (j.x < grid.x)

  -- Each entry is as before, or it is that of an empty brick of the level and says so.
  pub record Seeds (p p' : Pages) : Type 0 where
    pub paged : IsPaged dims p'
    pub capacity : p'.tile_capacity ≡ p.tile_capacity
    pub grows : p.tiles_allocated ≤ p'.tiles_allocated
    pub entries :
        (j : BrickKey)
        → IsBrick j
        → (read_entry p' j ≡ read_entry p j)
          ⊎ ((j.level ≡ level)
              × (is_empty j.z j.y j.x ≡ true)
              × (is_empty_entry (read_entry p' j) ≡ true))

  -- The entry of a brick that is empty says so, or the tiles are used up.
  abbrev pub Emptied : ℕ → ℕ → ℕ → Pages → Type 0
  Emptied z y x p =
      IsBrick (seed_key level z y x)
      → is_empty z y x ≡ true
      → (is_empty_entry (read_entry p (seed_key level z y x)) ≡ true)
        ⊎ (p.tiles_allocated ≡ p.tile_capacity)

  pub Seeds-same : (p : Pages) → IsPaged dims p → Seeds p p
  Seeds-same p v = record {
    paged = v;
    capacity = refl;
    grows = omega arith;
    entries = λ j b. inl refl;
  }

  pub Seeds-both : (p q r : Pages) → Seeds p q → Seeds q r → Seeds p r
  Seeds-both p q r a b = record {
    paged = b.paged;
    capacity = b.capacity ∙ a.capacity;
    grows = omega (arith, a.grows, b.grows);
    entries = λ j h. elim (b.entries j h) [
      | inl e ↦ elim (a.entries j h) [
        | inl f ↦ inl (e ∙ f)
        | inr (l, t, f) ↦ inr (l, t, ap is_empty_entry e ∙ f)
      ]
      | inr t ↦ inr t
    ];
  }

  pub Emptied-keeps : (z y x : ℕ) (p q : Pages) → Seeds p q → Emptied z y x p → Emptied z y x q
  Emptied-keeps z y x p q s h b e = elim (h b e) [
    | inl f ↦ elim (s.entries (seed_key level z y x) b) [
      | inl g ↦ inl (ap is_empty_entry g ∙ f)
      | inr (l, t, g) ↦ inl g
    ]
    | inr full ↦ inr (omega (arith, full, s.grows, s.capacity, s.paged.fits))
  ]

  module _ (small : level < 2 ^ 8) where
    written-Seeds :
        (z y x : ℕ) (p p' : Pages)
        → is_empty z y x ≡ true
        → IsWritten dims p p' (seed_key level z y x) empty_bit
        → Seeds p p'
    unfolding is_empty_entry
    written-Seeds z y x p p' e w = record {
      paged = w.paged;
      capacity = w.capacity;
      grows = w.grows;
      entries = λ j h. elim (coord_dec (seed_key level z y x).coord j.coord) [
        | yes q ↦ inr (
          sym (ap (λ (c : ChunkCoord). c.level) q) ∙ omega (arith, small),
          subst (λ (c : ChunkCoord). is_empty c.z c.y c.x ≡ true) q e,
          ap is_empty_entry (
              w.reads j h.placed
              ∙ if_pos (coord_dec (seed_key level z y x).coord j.coord) q empty_bit
                  (read_entry p j)),
        )
        | no n ↦ inl (
            w.reads j h.placed
            ∙ if_neg (coord_dec (seed_key level z y x).coord j.coord) n empty_bit (read_entry p j))
      ];
    }

    written-empty :
        (z y x : ℕ) (p p' : Pages)
        → IsBrick (seed_key level z y x)
        → IsWritten dims p p' (seed_key level z y x) empty_bit
        → is_empty_entry (read_entry p' (seed_key level z y x)) ≡ true
    unfolding is_empty_entry
    written-empty z y x p p' b w =
        let k = seed_key level z y x in
        ap is_empty_entry
          (w.reads k b.placed ∙ if_pos (coord_dec k.coord k.coord) refl empty_bit (read_entry p k))

    -- Nothing is written for a brick that is not empty or is known to be, and else its entry is.
    mark_one_cases :
        (z y x : ℕ) (p : Pages)
        → ((mark_one is_empty grid level z y x p ≡ p)
            × (is_empty z y x ≡ true
                → (is_empty_entry (read_entry p (seed_key level z y x)) ≡ true)
                  ⊎ (p.tiles_allocated ≡ p.tile_capacity)))
          ⊎ ((is_empty z y x ≡ true)
              × (mark_one is_empty grid level z y x p
                  ≡ write_entry (seed_key level z y x) empty_bit 0 0 p))
    unfolding mark_one mark_empty
    mark_one_cases z y x p = elim (Bool-cases (is_empty z y x)) [
      | inl e ↦ elim (Bool-cases (is_empty_entry (read_entry p (seed_key level z y x)))) [
        | inl f ↦ inl (rw (e, f) refl, λ _. inl f)
        | inr f ↦ inr (e, rw (e, f) refl)
      ]
      | inr e ↦ inl (rw e refl, λ f. absurd (true_ne_false (sym f ∙ e)))
    ]

    pub mark_one-Seeds :
        (z y x : ℕ) (p : Pages)
        → IsPaged dims p
        → IsBrick (seed_key level z y x)
        → Seeds p (mark_one is_empty grid level z y x p)
          × Emptied z y x (mark_one is_empty grid level z y x p)
    mark_one-Seeds z y x p v b =
        let Marked : Pages → Type 0 = λ q. Seeds p q × Emptied z y x q in
        let k = seed_key level z y x in
        let p' = write_entry k empty_bit 0 0 p in
        elim (mark_one_cases z y x p) [
          | inl (e, known) ↦ subst Marked (sym e) (Seeds-same p v, λ _. known)
          | inr (empty, e) ↦
              subst Marked (sym e) (elim (write_entry_cases dims p k empty_bit 0 0 v b.placed) [
                | inl (same, full) ↦ subst Marked (sym same) (Seeds-same p v, λ _ _. inr full)
                | inr w ↦
                    (written-Seeds z y x p p' empty w, λ _ _. inl (written-empty z y x p p' b w))
              ])
        ]

    -- The bricks of a tile of the directory lie in the grid and have a place there.
    module _ (there : get_elem? dims level ≡ some d) where
      pub in_tile-IsBrick :
          (tz ty tx z y x : ℕ)
          → (tz < d.z) × (ty < d.y) × (tx < d.x)
          → Within grid.z tz z
          → Within grid.y ty y
          → Within grid.x tx x
          → IsBrick (seed_key level z y x)
      unfolding tile_end
      in_tile-IsBrick tz ty tx z y x t wz wy wx = record {
        placed = record {
          d = d;
          there = ap (get_elem? dims) (omega (arith, small)) ∙ there;
          z_in = omega (arith, wz, t);
          y_in = omega (arith, wy, t);
          x_in = omega (arith, wx, t);
        };
        inside = λ _. (omega (arith, wz), omega (arith, wy), omega (arith, wx));
      }

      module _ (tz ty tx : ℕ) (t : (tz < d.z) × (ty < d.y) × (tx < d.x)) where
        row-Seeds :
            (z y : ℕ) (p : Pages)
            → Within grid.z tz z
            → Within grid.y ty y
            → IsPaged dims p
            → Seeds p (mark_row is_empty grid level tx z y p)
              × ((x : ℕ)
                  → Within grid.x tx x
                  → Emptied z y x (mark_row is_empty grid level tx z y p))
        unfolding mark_row
        row-Seeds z y p wz wy v =
            let r =
              for_range_rule (IsPaged dims) Seeds (Emptied z y) (mark_one is_empty grid level z y)
                Seeds-same Seeds-both (λ p q s. s.paged) (Emptied-keeps z y)
                (tile_end grid.x tx - tx * tile_dim) (tx * tile_dim) p
                (λ x q low high u.
                  mark_one-Seeds z y x q u (in_tile-IsBrick tz ty tx z y x t wz wy (low, high)))
                v in
            (r.0, λ x w. r.1 x w.0 w.1)

        plane-Seeds :
            (z : ℕ) (p : Pages)
            → Within grid.z tz z
            → IsPaged dims p
            → Seeds p (mark_plane is_empty grid level ty tx z p)
              × ((y : ℕ)
                  → Within grid.y ty y
                  → (x : ℕ) → Within grid.x tx x
                  → Emptied z y x (mark_plane is_empty grid level ty tx z p))
        unfolding mark_plane
        plane-Seeds z p wz v =
            let r =
              for_range_rule (IsPaged dims) Seeds
                (λ y q. (x : ℕ) → Within grid.x tx x → Emptied z y x q)
                (mark_row is_empty grid level tx z) Seeds-same Seeds-both (λ p q s. s.paged)
                (λ y p q s h x w. Emptied-keeps z y x p q s (h x w))
                (tile_end grid.y ty - ty * tile_dim) (ty * tile_dim) p
                (λ y q low high u. row-Seeds z y q wz (low, high) u) v in
            (r.0, λ y w. r.1 y w.0 w.1)

        pub mark_tile-Seeds :
            (p : Pages)
            → IsPaged dims p
            → Seeds p (mark_tile is_empty grid level tz ty tx p)
              × ((z : ℕ)
                  → Within grid.z tz z
                  → (y : ℕ) → Within grid.y ty y
                  → (x : ℕ) → Within grid.x tx x
                  → Emptied z y x (mark_tile is_empty grid level tz ty tx p))
        unfolding mark_tile
        mark_tile-Seeds p v =
            let r =
              for_range_rule (IsPaged dims) Seeds
                (λ z q.
                  (y : ℕ) → Within grid.y ty y → (x : ℕ) → Within grid.x tx x → Emptied z y x q)
                (mark_plane is_empty grid level ty tx) Seeds-same Seeds-both (λ p q s. s.paged)
                (λ z p q s h y wy x w. Emptied-keeps z y x p q s (h y wy x w))
                (tile_end grid.z tz - tz * tile_dim) (tz * tile_dim) p
                (λ z q low high u. plane-Seeds z q (low, high) u) v in
            (r.0, λ z w. r.1 z w.0 w.1)
