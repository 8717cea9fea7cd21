-- ===== src/Render/GpuBrickCache/Taken.antt =====
-- src/render/GpuBrickCache.cpp: `allocateTile` changes what no entry reads.
use scrollviewer.Base.{
  ℕ, ◌+◌, ◌-◌, ◌*◌, ◌<◌, ◌≤◌, ◌≡◌, ◌≢◌, sym, subst, ap, ◌∙◌, ◌⊎◌, inl, inr, some, List, arith, ◌==◌,
  if◌then◌else◌, get_elem?, get_or, set, length, dec_le,
}
use scrollviewer.Render.GpuBrickCache.{Dims, Level, Pages, tile_entry, tile_entries, empty_bit}
use scrollviewer.Render.GpuBrickCache.Paging.{allocated, length-fill_n}
use scrollviewer.Render.GpuBrickCache.Tables.{
  dir_at, read_at, IsPaged, with_entry, dir_at-there, dir_at-set_self, dir_at-set_ne, is_entry,
  map-set, set-sized, get_or-fill_n, get_or-fill_n_before,
}

tile_entry-low :
    (p : Pages) (d i : ℕ) → d < 2 → tile_entry p d i ≡ (if d == 1 then empty_bit else 0)
unfolding tile_entry
tile_entry-low p d i h = ground arith

pub tile_entry-high :
    (p : Pages) (d i : ℕ)
    → 2 ≤ d
    → tile_entry p d i ≡ get_or p.tile_mirror ((d - 2) * tile_entries + i) 0
unfolding tile_entry
tile_entry-high p d i h = ground arith

pub new_tile : (t : ℕ) → t + 2 - 2 ≡ t
new_tile t = omega arith

-- Of two tables that have a directory entry in common only the tile matters.
pub tile_entry-same :
    (p p' : Pages) (d i : ℕ)
    → (2 ≤ d
        → get_or p'.tile_mirror ((d - 2) * tile_entries + i) 0
          ≡ get_or p.tile_mirror ((d - 2) * tile_entries + i) 0)
    → tile_entry p' d i ≡ tile_entry p d i
tile_entry-same p p' d i h = elim (dec_le 2 d) [
  | yes high ↦ tile_entry-high p' d i high ∙ h high ∙ sym (tile_entry-high p d i high)
  | no small ↦
      tile_entry-low p' d i (omega (arith, small))
      ∙ sym (tile_entry-low p d i (omega (arith, small)))
]

-- A new tile reads as the directory entry did.
module _ (dims : List Dims) (p : Pages) (v : IsPaged dims p) (n di : ℕ) (l : Level)
    (there : get_elem? p.levels n ≡ some l) (inside : di < length l.dir_mirror)
    (low : get_or l.dir_mirror di 0 < 2) (room : p.tiles_allocated < p.tile_capacity) where
  pub new : ℕ
  new = p.tiles_allocated + 2

  pub dir_at-allocated :
      (m i : ℕ)
      → ((n ≡ m)
          × (di ≡ i)
          × (dir_at (allocated n l di p).levels m i ≡ p.tiles_allocated + 2)
          × (dir_at p.levels m i ≡ get_or l.dir_mirror di 0))
        ⊎ (((n ≢ m) ⊎ (di ≢ i)) × (dir_at (allocated n l di p).levels m i ≡ dir_at p.levels m i))
  unfolding allocated new
  dir_at-allocated m i = elim (is_entry n di m i) [
    | inl (q, r) ↦ inl (
      q,
      r,
      subst (λ a. dir_at (set p.levels n (with_entry l di new)) m a ≡ new) r
          (subst (λ a. dir_at (set p.levels n (with_entry l di new)) a di ≡ new) q
            (dir_at-set_self p.levels n di new l there inside)),
      subst (λ a. dir_at p.levels m a ≡ get_or l.dir_mirror di 0) r
          (subst (λ a. dir_at p.levels a di ≡ get_or l.dir_mirror di 0) q
            (dir_at-there p.levels n di l there)),
    )
    | inr h ↦ inr (h, dir_at-set_ne p.levels n di new l m i there h)
  ]

  pub allocated-IsPaged : IsPaged dims (allocated n l di p)
  unfolding allocated
  allocated-IsPaged = record {
    shape = map-set p.levels n di (p.tiles_allocated + 2) l there ∙ v.shape;
    sized = set-sized p.levels n di (p.tiles_allocated + 2) l there v.sized;
    whole = omega (
      arith,
      v.whole,
      length-fill_n (p.tiles_allocated * tile_entries) tile_entries
          (if get_or l.dir_mirror di 0 == 1 then empty_bit else 0) p.tile_mirror,
    );
    fits = omega (arith, room);
    known = λ m i. elim (dir_at-allocated m i) [
      | inl (q, r, e, f) ↦ omega (arith, e)
      | inr (h, e) ↦ omega (arith, e, v.known m i)
    ];
    apart = λ m i m' i' h e. elim (dir_at-allocated m i) [
      | inl (q, r, f, f') ↦ elim (dir_at-allocated m' i') [
        | inl (q', r', g, g') ↦ (sym q ∙ q', sym r ∙ r')
        | inr (k, g) ↦ absurd (omega (arith, f, g, e, v.known m' i'))
      ]
      | inr (k, f) ↦ elim (dir_at-allocated m' i') [
        | inl (q', r', g, g') ↦ absurd (omega (arith, f, g, e, v.known m i))
        | inr (k', g) ↦ v.apart m i m' i' (omega (arith, f, h)) (sym f ∙ e ∙ g)
      ]
    ];
  }

  -- The mirror at a tile that was there, and at the new one.
  mirror_before :
      (t i : ℕ)
      → t < p.tiles_allocated
      → i < tile_entries
      → get_or (allocated n l di p).tile_mirror (t * tile_entries + i) 0
        ≡ get_or p.tile_mirror (t * tile_entries + i) 0
  unfolding allocated
  mirror_before t i h k =
      get_or-fill_n_before (p.tiles_allocated * tile_entries) tile_entries
        (if get_or l.dir_mirror di 0 == 1 then empty_bit else 0) p.tile_mirror
        (t * tile_entries + i) (omega arith)

  mirror_new :
      (i : ℕ)
      → i < tile_entries
      → get_or (allocated n l di p).tile_mirror (p.tiles_allocated * tile_entries + i) 0
        ≡ (if get_or l.dir_mirror di 0 == 1 then empty_bit else 0)
  unfolding allocated
  mirror_new i h =
      get_or-fill_n (p.tiles_allocated * tile_entries) tile_entries
        (if get_or l.dir_mirror di 0 == 1 then empty_bit else 0) p.tile_mirror
        (p.tiles_allocated * tile_entries + i) (omega arith) (omega arith)
        (omega (arith, v.whole, room))

  pub read_at-allocated :
      (m dj i : ℕ) → i < tile_entries → read_at (allocated n l di p) m dj i ≡ read_at p m dj i
  read_at-allocated m dj i h = elim (dir_at-allocated m dj) [
    | inl (q, r, e, f) ↦
        ap (λ d. tile_entry (allocated n l di p) d i) e
        ∙ tile_entry-high (allocated n l di p) (p.tiles_allocated + 2) i (omega arith)
        ∙ ap (λ t. get_or (allocated n l di p).tile_mirror (t * tile_entries + i) 0)
            (new_tile p.tiles_allocated)
        ∙ mirror_new i h
        ∙ sym (tile_entry-low p (get_or l.dir_mirror di 0) i low)
        ∙ ap (λ d. tile_entry p d i) (sym f)
    | inr (k, e) ↦
        ap (λ d. tile_entry (allocated n l di p) d i) e
        ∙ tile_entry-same p (allocated n l di p) (dir_at p.levels m dj) i (λ high.
          mirror_before (dir_at p.levels m dj - 2) i (omega (arith, high, v.known m dj)) h)
  ]
