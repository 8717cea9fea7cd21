-- ===== src/Data/Snic3d/Seeds.antt =====
-- src/data/Snic3D.cpp: the seeds, and the invariant of the flood at its start.
use scrollviewer.Base.{
  ℕ, zero, suc, ◌+◌, ◌^◌, ◌≡◌, ◌<◌, ◌⊎◌, inl, inr, refl, sym, subst, ◌∙◌, true, false, none, some,
  List, [], ◌∷◌, ◌++◌, append_assoc, All, length, length-append, get_elem?, get_or, replicate, leb,
  if◌then◌else◌, arith, Bool-cases,
}
use scrollviewer.Data.Snic3d.{
  Floats, Extent, Voxel, QEl, Accum, Flooding, u32, index_of, bright, new_accum, empty_queue,
  push_at, seed, seed_all,
}
use scrollviewer.Data.Snic3d.Queue.{
  Waits, IsValid, empty_queue-IsValid, empty_queue_none, push_at-IsValid, push_at_from,
  size-push_at, push_at_new, push_at_kept,
}
use scrollviewer.Data.Snic3d.Region.{Inside, volume, IsSmall, index_of-lt}
use scrollviewer.Data.Snic3d.Invariant.{n_of}
use mathlib.Core.List.{append-nil}

get_elem?-snoc :
    {A : Type 0} (xs : List A) (x y : A) (k : ℕ)
    → get_elem? (xs ++ (x ∷ [])) k ≡ some y
    → (get_elem? xs k ≡ some y) ⊎ (k ≡ length xs) × (x ≡ y)
get_elem?-snoc [] x y zero h = inr (refl, cc)
get_elem?-snoc [] x y (suc k) h = absurd (cc)
get_elem?-snoc (z ∷ xs) x y zero h = inl h
get_elem?-snoc (z ∷ xs) x y (suc k) h = ground (arith, get_elem?-snoc xs x y k h)

get_elem?-snoc_last :
    {A : Type 0} (xs : List A) (x : A) → get_elem? (xs ++ (x ∷ [])) (length xs) ≡ some x
get_elem?-snoc_last [] x = refl
get_elem?-snoc_last (z ∷ xs) x = get_elem?-snoc_last xs x

get_elem?-snoc_old :
    {A : Type 0} (xs : List A) (x y : A) (k : ℕ)
    → get_elem? xs k ≡ some y
    → get_elem? (xs ++ (x ∷ [])) k ≡ some y
get_elem?-snoc_old [] x y k h = absurd (cc)
get_elem?-snoc_old (z ∷ xs) x y zero h = h
get_elem?-snoc_old (z ∷ xs) x y (suc k) h = get_elem?-snoc_old xs x y k h

pub get_elem?-lt :
    {A : Type 0} (xs : List A) (y : A) (k : ℕ) → get_elem? xs k ≡ some y → k < length xs
get_elem?-lt [] y k h = absurd (cc)
get_elem?-lt (x ∷ xs) y zero h = omega arith
get_elem?-lt (x ∷ xs) y (suc k) h = omega (arith, get_elem?-lt xs y k h)

module _ {F D : Type 0} (fl : Floats F D) (d : Extent) (vol : List ℕ) (min_intensity : ℕ) where
  -- The voxels of the list that are seeds.
  unfoldable pub seeds_of : List Voxel → List ℕ
  seeds_of [] = []
  seeds_of (v ∷ vs) =
      if bright vol min_intensity (index_of d v) then index_of d v ∷ seeds_of vs else seeds_of vs

  pub record IsSeeded (seeds : List ℕ) (s : Flooding F D) : Type 0 where
    pub none_yet : s.label ≡ replicate (volume d) none
    pub accs : length s.acc ≡ length seeds
    pub fresh : (k : ℕ) → n_of fl d vol min_intensity seeds s.acc k ≡ 0
    pub queue : IsValid s.pq
    pub sized : s.pq.size ≡ length seeds
    pub sound : (e : QEl) → Waits e s.pq → get_elem? seeds e.k ≡ some e.idx
    pub complete : (k i : ℕ) → get_elem? seeds k ≡ some i → Waits (record { idx = i; k = k }) s.pq
    pub lit :
        (k i : ℕ)
        → get_elem? seeds k ≡ some i
        → (i < volume d) × (bright vol min_intensity i ≡ true)

  pub IsSeeded-empty :
      IsSeeded [] (record { label = replicate (volume d) none; acc = []; pq = empty_queue })
  IsSeeded-empty = record {
    none_yet = refl;
    accs = refl;
    fresh = λ k. refl;
    queue = empty_queue-IsValid;
    sized = refl;
    sound = λ e w. absurd (empty_queue_none e w);
    complete = λ k i h. absurd (cc);
    lit = λ k i h. absurd (cc);
  }

  n_of-snoc :
      (acc : List (Accum F D))
      → ((k : ℕ) → (get_or acc k (new_accum fl)).n ≡ 0)
      → (k : ℕ) → (get_or (acc ++ (new_accum fl ∷ [])) k (new_accum fl)).n ≡ 0
  n_of-snoc [] h zero = refl
  n_of-snoc [] h (suc k) = refl
  n_of-snoc (a ∷ acc) h zero = h 0
  n_of-snoc (a ∷ acc) h (suc k) = n_of-snoc acc (λ j. h (suc j)) k

  module _ (small : IsSmall d) where
    IsSeeded-seed :
        (v : Voxel) (seeds : List ℕ) (s : Flooding F D)
        → Inside d v
        → length seeds < 2 ^ 31
        → bright vol min_intensity (index_of d v) ≡ true
        → IsSeeded seeds s
        → IsSeeded (seeds ++ (index_of d v ∷ [])) (seed fl d vol min_intensity v s)
    unfolding seed
    IsSeeded-seed v seeds s inside few lit i =
        let range = index_of-lt d small v inside in
        let el : QEl = record { idx = index_of d v; k = length seeds } in
        let pushed : QEl = record { idx = u32 (index_of d v); k = u32 (length s.acc) } in
        let idx_eq : u32 (index_of d v) ≡ index_of d v = omega arith in
        let k_eq : u32 (length s.acc) ≡ length seeds = omega (arith, i.accs) in
        let same : pushed ≡ el = rw (idx_eq, k_eq) refl in
        let place = fl.to_int (fl.mul_f (fl.float_of 0) (fl.float_of 128)) in
        let shown : leb (get_or vol (index_of d v) 0) min_intensity ≡ false = ground arith in
        rw (seed, shown)
          (record {
            none_yet = i.none_yet;
            accs = omega (
              arith,
              length-append s.acc (new_accum fl ∷ []),
              length-append seeds (index_of d v ∷ []),
              i.accs,
            );
            fresh = λ k. n_of-snoc s.acc i.fresh k;
            queue = push_at-IsValid place pushed s.pq i.queue;
            sized = omega (
              arith,
              size-push_at place pushed s.pq i.queue,
              i.sized,
              length-append seeds (index_of d v ∷ []),
            );
            sound = λ e w. elim (push_at_from place pushed s.pq i.queue e w) [
              | inl new ↦ rw (new ∙ same) (get_elem?-snoc_last seeds (index_of d v))
              | inr old ↦ get_elem?-snoc_old seeds (index_of d v) e.idx e.k (i.sound e old)
            ];
            complete = λ k j h. elim (get_elem?-snoc seeds (index_of d v) j k h) [
              | inl old ↦ push_at_kept place pushed s.pq i.queue _ (i.complete k j old)
              | inr (last, this) ↦
                  subst (λ o. Waits o (push_at place pushed s.pq)) (same ∙ rw (last, this) refl)
                    (push_at_new place pushed s.pq i.queue)
            ];
            lit = λ k j h. elim (get_elem?-snoc seeds (index_of d v) j k h) [
              | inl old ↦ i.lit k j old
              | inr (last, this) ↦ rw (← this) (range, lit)
            ];
          })

    pub seed_all-IsSeeded :
        (vs : List Voxel) (seeds : List ℕ) (s : Flooding F D)
        → All (Inside d) vs
        → length seeds + length vs < 2 ^ 31
        → IsSeeded seeds s
        → IsSeeded (seeds ++ seeds_of vs) (seed_all fl d vol min_intensity vs s)
    unfolding seed_all seed seeds_of
    seed_all-IsSeeded [] seeds s inside few i = subst (λ l. IsSeeded l s) (sym (append-nil seeds)) i
    seed_all-IsSeeded (v ∷ vs) seeds s inside few i =
        elim (Bool-cases (bright vol min_intensity (index_of d v))) [
          | inl lit ↦ rw (lit) (
              subst (λ l. IsSeeded l (seed_all fl d vol min_intensity (v ∷ vs) s))
                (append_assoc seeds (index_of d v ∷ []) (seeds_of vs))
                (seed_all-IsSeeded vs (seeds ++ (index_of d v ∷ [])) _ inside.1
                  (omega (arith, length-append seeds (index_of d v ∷ [])))
                  (IsSeeded-seed v seeds s inside.0 (omega arith) lit i)))
          | inr dark ↦
              let hidden : leb (get_or vol (index_of d v) 0) min_intensity ≡ true = ground arith in
              rw (dark, seed, hidden) (seed_all-IsSeeded vs seeds s inside.1 (omega arith) i)
        ]
