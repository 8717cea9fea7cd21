-- ===== src/Render/GpuBrickCache/OneEntry.antt =====
-- src/render/GpuBrickCache.cpp: one directory entry for a whole tile of empty bricks.
use scrollviewer.Base.{
  ℕ, ◌+◌, ◌/◌, ◌^◌, ◌<◌, ◌≤◌, ◌≡◌, ◌≢◌, refl, sym, subst, ap, ◌∙◌, ◌⊎◌, inl, inr, true, some, List,
  arith, get_elem?, get_or, set, length,
}
use scrollviewer.Render.GpuBrickCache.{Dims, Level, Pages, tile_dim, is_empty_entry, tile_entry}
use scrollviewer.Render.GpuBrickCache.Tables.{
  IsPaged, dir_at, read_at, with_entry, dir_at-set_self, dir_at-set_ne, is_entry, map-set,
  set-sized,
}
use scrollviewer.Render.GpuBrickCache.Refined.{}
use scrollviewer.Render.GpuBrickCache.Seeding.{tile_end}
use scrollviewer.Render.GpuBrickCache.Scanned.{Within}

-- A brick of the grid lies in the tile that its place names.
pub tile_of-Within :
    (extent i : ℕ) → i < extent → extent + 16 ≤ 2 ^ 32 → Within extent (i / tile_dim) i
unfolding tile_end
tile_of-Within extent i h fit = (omega arith, omega arith)

-- The tables with one entry of a directory that stands for a tile of empty bricks.
abbrev pub emptied_tile : Pages → ℕ → Level → ℕ → Pages
emptied_tile p level l di = record p { levels = set p.levels level (with_entry l di 1) }

module _ (dims : List Dims) (p : Pages) (v : IsPaged dims p) (level di : ℕ) (l : Level)
    (there : get_elem? p.levels level ≡ some l) (room : di < length l.dir_mirror)
    (unknown : get_or l.dir_mirror di 0 ≡ 0) where
  dir_at-emptied :
      (m i : ℕ)
      → ((level ≡ m) × (di ≡ i) × (dir_at (emptied_tile p level l di).levels m i ≡ 1))
        ⊎ (((level ≢ m) ⊎ (di ≢ i))
            × (dir_at (emptied_tile p level l di).levels m i ≡ dir_at p.levels m i))
  dir_at-emptied m i = elim (is_entry level di m i) [
    | inl (q, r) ↦ inl (
      q,
      r,
      subst (λ a. dir_at (set p.levels level (with_entry l di 1)) m a ≡ 1) r
          (subst (λ a. dir_at (set p.levels level (with_entry l di 1)) a di ≡ 1) q
            (dir_at-set_self p.levels level di 1 l there room)),
    )
    | inr h ↦ inr (h, dir_at-set_ne p.levels level di 1 l m i there h)
  ]

  pub emptied-IsPaged : IsPaged dims (emptied_tile p level l di)
  emptied-IsPaged = record {
    shape = map-set p.levels level di 1 l there ∙ v.shape;
    sized = set-sized p.levels level di 1 l there v.sized;
    whole = v.whole;
    fits = v.fits;
    known = λ m i. elim (dir_at-emptied m i) [
      | inl (q, r, e) ↦ omega (arith, e)
      | inr (h, e) ↦ omega (arith, e, v.known m i)
    ];
    apart = λ m i m' i' h e. elim (dir_at-emptied m i) [
      | inl (q, r, f) ↦ absurd (omega (arith, f, h))
      | inr (k, f) ↦ elim (dir_at-emptied m' i') [
        | inl (q, r, g) ↦ absurd (omega (arith, g, h, e))
        | inr (k', g) ↦ v.apart m i m' i' (omega (arith, f, h)) (sym f ∙ e ∙ g)
      ]
    ];
  }

  pub emptied_reads :
      (m dj i : ℕ)
      → ((level ≡ m)
          × (di ≡ dj)
          × (is_empty_entry (read_at (emptied_tile p level l di) m dj i) ≡ true))
        ⊎ (((level ≢ m) ⊎ (di ≢ dj))
            × (read_at (emptied_tile p level l di) m dj i ≡ read_at p m dj i))
  unfolding tile_entry is_empty_entry
  emptied_reads m dj i = elim (dir_at-emptied m dj) [
    | inl (q, r, e) ↦ inl (q, r, rw e refl)
    | inr (h, e) ↦ inr (h, ap (λ t. tile_entry p t i) e)
  ]
