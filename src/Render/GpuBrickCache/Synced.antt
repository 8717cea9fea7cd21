-- ===== src/Render/GpuBrickCache/Synced.antt =====
-- src/render/GpuBrickCache.cpp: the textures after `syncPageTables`.
use native.Mathlib.Nat.{
  div-div-eq-div-mul, div-add-mod', div-lt_iff_lt-mul, mod-lt, mul-le-mul, mul_assoc, mul_comm,
  mul-zero, zero-mul,
}
use scrollviewer.Base.{
  ℕ, zero, suc, ◌+◌, ◌*◌, ◌/◌, ◌%◌, ◌<◌, ◌≤◌, ◌≡◌, ◌≢◌, refl, sym, subst, ap, ◌∙◌, ◌⊎◌, inl, inr,
  Bool, true, false, List, [], ◌∷◌, ◌++◌, ite, if_pos, if_neg, get_or, set, get_or-set_ne, take,
  drop, arith, if◌then◌else◌, ℕ_discrete, Bool-cases,
}
use scrollviewer.Base.Loops.{true_ne_false}
use scrollviewer.Render.GpuBrickCache.{Dims, Level, Pages}
use scrollviewer.Render.GpuBrickCache.Syncing.{
  Copy, sync_levels, tile_box, tile_slice, sync_tiles, sync_occupancy, sync_page_tables,
}

unfoldable pub dims_dec : Discrete Dims
dims_dec = hlevel ℕ_discrete

-- What the texture of the entries holds in a box after some copies.
unfoldable pub held : Dims → List Copy → List ℕ → List ℕ
held b [] old = old
held b (Copy.dir n ds ∷ cs) old = held b cs old
held b (Copy.entries c ds ∷ cs) old = held b cs (ite (dims_dec c b) ds old)
held b (Copy.occupancy c ds ∷ cs) old = held b cs old

held-append :
    (b : Dims) (cs ds : List Copy) (old : List ℕ)
    → held b (cs ++ ds) old ≡ held b ds (held b cs old)
unfolding held
held-append b [] ds old = refl
held-append b (Copy.dir n d ∷ cs) ds old = held-append b cs ds old
held-append b (Copy.entries c d ∷ cs) ds old = held-append b cs ds (ite (dims_dec c b) d old)
held-append b (Copy.occupancy c d ∷ cs) ds old = held-append b cs ds old

held-sync_levels :
    (b : Dims) (has : ℕ → Bool) (n : ℕ) (ls : List Level) (old : List ℕ)
    → held b (sync_levels has n ls).0 old ≡ old
unfolding held sync_levels
held-sync_levels b has n [] old = refl
held-sync_levels b has n (l ∷ ls) old = ground (arith, held-sync_levels b has (suc n) ls old)

held-sync_occupancy :
    (b dims : Dims) (p : Pages) (left t : ℕ) (dirty : List Bool) (old : List ℕ)
    → held b (sync_occupancy dims p left t dirty).0 old ≡ old
unfolding held sync_occupancy
held-sync_occupancy b dims p zero t dirty old = refl
held-sync_occupancy b dims p (suc left) t dirty old = ground (
  arith,
  held-sync_occupancy b dims p left (suc t) dirty old,
  held-sync_occupancy b dims p left (suc t) (set dirty t false) old,
)

tile_box_flat :
    (dims : Dims) (n : ℕ)
    → ((tile_box dims n).z * dims.y + (tile_box dims n).y) * dims.x + (tile_box dims n).x ≡ n
unfolding tile_box
tile_box_flat dims n =
    ap (λ a. (a * dims.y + n / dims.x % dims.y) * dims.x + n % dims.x)
      (sym (div-div-eq-div-mul n dims.x dims.y))
    ∙ ap (λ a. a * dims.x + n % dims.x) (div-add-mod' (n / dims.x) dims.y)
    ∙ div-add-mod' n dims.x

tile_box-injective : (dims : Dims) (s t : ℕ) → tile_box dims s ≡ tile_box dims t → s ≡ t
tile_box-injective dims s t e =
    sym (tile_box_flat dims s)
    ∙ ap (λ (b : Dims). (b.z * dims.y + b.y) * dims.x + b.x) e
    ∙ tile_box_flat dims t

-- A box is inside the texture, at the place of a tile.
abbrev pub IsBoxOf : Dims → ℕ → Dims → Type 0
IsBoxOf dims t b =
    (b.z < dims.z) × (b.y < dims.y) × (b.x < dims.x) × ((b.z * dims.y + b.y) * dims.x + b.x ≡ t)

factors_positive : (z y x t : ℕ) → t < z * y * x → (0 < y) × (0 < x)
factors_positive z zero x t h =
    absurd (omega (arith, mul-zero z, ap (λ n. n * x) (mul-zero z), zero-mul x, h))
factors_positive z (suc y) zero t h = absurd (omega (arith, mul-zero (z * suc y), h))
factors_positive z (suc y) (suc x) t h = (omega arith, omega arith)

tile_box-IsBoxOf :
    (dims : Dims) (t : ℕ) → t < dims.z * dims.y * dims.x → IsBoxOf dims t (tile_box dims t)
unfolding tile_box
tile_box-IsBoxOf dims t h =
    let (py, px) = factors_positive dims.z dims.y dims.x t h in
    let volume : dims.z * dims.y * dims.x ≡ dims.z * (dims.x * dims.y) =
      mul_assoc dims.z dims.y dims.x ∙ ap (λ s. dims.z * s) (mul_comm dims.y dims.x) in
    (
      (div-lt_iff_lt-mul (mul-le-mul px py)).1 (subst (λ s. t < s) volume h),
      mod-lt (t / dims.x) py,
      mod-lt t px,
      tile_box_flat dims t,
    )

get_or-take : (n i : ℕ) (xs : List ℕ) → i < n → get_or (take n xs) i 0 ≡ get_or xs i 0
get_or-take zero i xs h = absurd (omega arith)
get_or-take (suc n) i [] h = refl
get_or-take (suc n) zero (x ∷ xs) h = refl
get_or-take (suc n) (suc i) (x ∷ xs) h = get_or-take n i xs (omega arith)

next : (k i : ℕ) → suc (k + i) ≡ suc k + i
next k i = omega arith

get_or-take-drop :
    (n k i : ℕ) (xs : List ℕ) → i < n → get_or (take n (drop k xs)) i 0 ≡ get_or xs (k + i) 0
get_or-take-drop n zero i xs h = get_or-take n i xs h ∙ ap (λ j. get_or xs j 0) (sym (omega arith))
get_or-take-drop zero (suc k) i xs h = absurd (omega arith)
get_or-take-drop (suc n) (suc k) i [] h = refl
get_or-take-drop (suc n) (suc k) i (x ∷ xs) h =
    get_or-take-drop (suc n) k i xs h ∙ ap (λ j. get_or (x ∷ xs) j 0) (next k i)

-- One round of the loop.
sync_tiles_round :
    (dims : Dims) (p : Pages) (left t : ℕ) (b : Dims) (old : List ℕ)
    → held b (sync_tiles dims p (suc left) t) old
      ≡ held b (sync_tiles dims p left (suc t)) (
          if get_or p.tile_dirty t false
          then ite (dims_dec (tile_box dims t) b) (tile_slice t p) old
          else old)
unfolding held sync_tiles
sync_tiles_round dims p left t b old = elim (Bool-cases (get_or p.tile_dirty t false)) [
  | inl e ↦ rw e refl
  | inr e ↦ rw e refl
]

other_box :
    (dims : Dims) (p : Pages) (t s : ℕ) (old : List ℕ)
    → t ≢ s
    → (if get_or p.tile_dirty t false
        then ite (dims_dec (tile_box dims t) (tile_box dims s)) (tile_slice t p) old
        else old)
      ≡ old
other_box dims p t s old n =
    let apart =
      if_neg (dims_dec (tile_box dims t) (tile_box dims s)) (λ e. n (tile_box-injective dims t s e))
        (tile_slice t p) old in
    elim (Bool-cases (get_or p.tile_dirty t false)) [ inl e ↦ rw e apart | inr e ↦ rw e refl ]

-- What the loop over the tiles leaves in the box of a tile.
abbrev latest : Pages → ℕ → List ℕ → List ℕ
latest p s old = if get_or p.tile_dirty s false then tile_slice s p else old

own_box :
    (dims : Dims) (p : Pages) (s : ℕ) (old : List ℕ)
    → (if get_or p.tile_dirty s false
        then ite (dims_dec (tile_box dims s) (tile_box dims s)) (tile_slice s p) old
        else old)
      ≡ latest p s old
own_box dims p s old =
    let own = if_pos (dims_dec (tile_box dims s) (tile_box dims s)) refl (tile_slice s p) old in
    elim (Bool-cases (get_or p.tile_dirty s false)) [ inl e ↦ rw e own | inr e ↦ rw e refl ]

past_none :
    (dims : Dims) (p : Pages) (t s : ℕ) (old : List ℕ)
    → held (tile_box dims s) (sync_tiles dims p 0 t) old ≡ old
unfolding held sync_tiles
past_none dims p t s old = refl

-- Tiles further on leave the box alone.
held-sync_tiles_past :
    (dims : Dims) (p : Pages) (left t s : ℕ) (old : List ℕ)
    → s < t
    → held (tile_box dims s) (sync_tiles dims p left t) old ≡ old
unfolding held
held-sync_tiles_past dims p zero t s old h = past_none dims p t s old
held-sync_tiles_past dims p (suc left) t s old h =
    let b = tile_box dims s in
    let here : (if get_or p.tile_dirty t false
          then ite (dims_dec (tile_box dims t) b) (tile_slice t p) old
          else old)
        ≡ old =
      other_box dims p t s old (omega arith) in
    sync_tiles_round dims p left t b old
    ∙ ap (held b (sync_tiles dims p left (suc t))) here
    ∙ held-sync_tiles_past dims p left (suc t) s old (omega arith)

held-sync_tiles :
    (dims : Dims) (p : Pages) (left t s : ℕ) (old : List ℕ)
    → t ≤ s
    → s < t + left
    → held (tile_box dims s) (sync_tiles dims p left t) old ≡ latest p s old
held-sync_tiles dims p zero t s old low high = absurd (omega arith)
held-sync_tiles dims p (suc left) t s old low high =
    let b = tile_box dims s in
    elim (ℕ_discrete t s) [
      | yes e ↦
          sync_tiles_round dims p left t b old
          ∙ ap (held b (sync_tiles dims p left (suc t))) (
              subst
                (λ n.
                  (if get_or p.tile_dirty n false
                    then ite (dims_dec (tile_box dims n) b) (tile_slice n p) old
                    else old)
                  ≡ latest p s old)
                (sym e) (own_box dims p s old))
          ∙ held-sync_tiles_past dims p left (suc t) s (latest p s old) (omega arith)
      | no n ↦
          sync_tiles_round dims p left t b old
          ∙ ap (held b (sync_tiles dims p left (suc t))) (other_box dims p t s old n)
          ∙ held-sync_tiles dims p left (suc t) s old (omega (arith, n)) (omega arith)
    ]

-- The flags of the tiles that the loop has passed are clear, and the loop goes on to the last.
sync_occupancy-flags_past :
    (dims : Dims) (p : Pages) (left t s : ℕ) (dirty : List Bool)
    → s < t
    → get_or (sync_occupancy dims p left t dirty).1 s false ≡ get_or dirty s false
unfolding sync_occupancy
sync_occupancy-flags_past dims p zero t s dirty h = refl
sync_occupancy-flags_past dims p (suc left) t s dirty h = ground (
  arith,
  sync_occupancy-flags_past dims p left (suc t) s dirty,
  sync_occupancy-flags_past dims p left (suc t) s (set dirty t false),
  get_or-set_ne dirty t s false false,
)

get_or-set-false : (dirty : List Bool) (t : ℕ) → get_or (set dirty t false) t false ≡ false
get_or-set-false [] t = refl
get_or-set-false (b ∷ bs) zero = refl
get_or-set-false (b ∷ bs) (suc t) = get_or-set-false bs t

sync_occupancy-flags :
    (dims : Dims) (p : Pages) (left t s : ℕ) (dirty : List Bool)
    → t ≤ s
    → s < t + left
    → get_or (sync_occupancy dims p left t dirty).1 s false ≡ false
unfolding sync_occupancy
sync_occupancy-flags dims p zero t s dirty low high = absurd (omega arith)
sync_occupancy-flags dims p (suc left) t s dirty low high = elim (ℕ_discrete t s) [
  | yes e ↦
      subst (λ n. get_or (sync_occupancy dims p (suc left) t dirty).1 n false ≡ false) e
        (ground (
          arith,
          sync_occupancy-flags_past dims p left (suc t) t dirty,
          sync_occupancy-flags_past dims p left (suc t) t (set dirty t false),
          get_or-set-false dirty t,
        ))
  | no n ↦ ground (
    arith,
    n,
    sync_occupancy-flags dims p left (suc t) s dirty,
    sync_occupancy-flags dims p left (suc t) s (set dirty t false),
  )
]

-- The entries that a box of the texture has are those of a tile in the mirror.
abbrev pub IsMirrored : Pages → ℕ → List ℕ → Type 0
IsMirrored p t entries =
    (i : ℕ) → i < 4096 → get_or entries i 0 ≡ get_or p.tile_mirror (t * 4096 + i) 0

latest-IsMirrored :
    (p : Pages) (t : ℕ) (old : List ℕ)
    → (get_or p.tile_dirty t false ≡ true) ⊎ IsMirrored p t old
    → IsMirrored p t (latest p t old)
unfolding tile_slice
latest-IsMirrored p t old h i small = elim (Bool-cases (get_or p.tile_dirty t false)) [
  | inl e ↦ rw e (get_or-take-drop 4096 (t * 4096) i p.tile_mirror small)
  | inr e ↦ elim h [ inl f ↦ absurd (true_ne_false (sym f ∙ e)) | inr same ↦ rw e (same i small) ]
]

-- A tile that has been taken and has a place in the texture, and whose box there is up to date or whose flag is
-- set: its box is inside the texture and numbered like the tile, and once the textures are there,
-- `syncPageTables` leaves in it the mirror's 4096 entries from 4096 times the tile on, whatever is copied to the
-- other boxes, and the tile's flag is clear.
pub sync_page_tables-held :
    (has : ℕ → Bool) (dims : Dims) (p : Pages) (t : ℕ) (old : List ℕ)
    → t < p.tiles_allocated
    → t < dims.z * dims.y * dims.x
    → (get_or p.tile_dirty t false ≡ true) ⊎ IsMirrored p t old
    → IsBoxOf dims t (tile_box dims t)
      × IsMirrored p t (held (tile_box dims t) (sync_page_tables has true dims p).0 old)
      × (get_or (sync_page_tables has true dims p).1.tile_dirty t false ≡ false)
unfolding sync_page_tables
sync_page_tables-held has dims p t old h inside fresh =
    let b = tile_box dims t in
    let occupancy = sync_occupancy dims p p.tiles_allocated 0 p.tile_dirty in
    let tiles = sync_tiles dims p p.tiles_allocated 0 in
    let same =
      held-append b (sync_levels has 0 p.levels).0 (tiles ++ occupancy.0) old
      ∙ ap (held b (tiles ++ occupancy.0)) (held-sync_levels b has 0 p.levels old)
      ∙ held-append b tiles occupancy.0 old
      ∙ held-sync_occupancy b dims p p.tiles_allocated 0 p.tile_dirty (held b tiles old)
      ∙ held-sync_tiles dims p p.tiles_allocated 0 t old (omega arith) (omega arith) in
    (
      tile_box-IsBoxOf dims t inside,
      λ i small. ap (λ ds. get_or ds i 0) same ∙ latest-IsMirrored p t old fresh i small,
      sync_occupancy-flags dims p p.tiles_allocated 0 t p.tile_dirty (omega arith) (omega arith),
    )
