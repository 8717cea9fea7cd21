-- ===== src/Store/DiskCache/Eviction.antt =====
-- src/store/DiskCacheStore.cpp: `runEviction`, which files it removes and when it stops.
use scrollviewer.Base.{
  ℕ, ◌≡◌, ◌≤◌, ◌<◌, ◌+◌, ◌*◌, ◌/◌, ◌%◌, refl, ap, ◌⊎◌, inl, inr, true, List, [], ◌∷◌, ◌++◌, arith,
  subst, sym, ◌∙◌, Bool-cases, leb, add64, sub64, u64_mod,
}
use scrollviewer.Store.Files.{Files}
use scrollviewer.Store.DiskCache.{
  FileInfo, total_size, insert_by_mtime, sort_by_mtime, evict_loop, run_eviction,
}

-- The bytes of the files, without a bound.
unfoldable pub sizes : List FileInfo → ℕ
sizes [] = 0
sizes (i ∷ is) = i.size + sizes is

total_size-sizes : (is : List FileInfo) → sizes is < u64_mod → total_size is ≡ sizes is
unfolding total_size sizes
total_size-sizes [] h = refl
total_size-sizes (i ∷ is) h =
    let rest : total_size is ≡ sizes is = total_size-sizes is (omega arith) in ground (arith, rest)

insert-sizes :
    (i : FileInfo) (is : List FileInfo) → sizes (insert_by_mtime i is) ≡ i.size + sizes is
unfolding insert_by_mtime sizes
insert-sizes i [] = refl
insert-sizes i (j ∷ js) = ground (arith, insert-sizes i js)

sort-sizes : (is : List FileInfo) → sizes (sort_by_mtime is) ≡ sizes is
unfolding sort_by_mtime sizes
sort-sizes [] = refl
sort-sizes (i ∷ is) = ground (arith, insert-sizes i (sort_by_mtime is), sort-sizes is)

-- No file is older than one before it.
abbrev pub AreOrdered : List FileInfo → Type 0
AreOrdered [] = Unit {0}
AreOrdered (i ∷ []) = Unit {0}
AreOrdered (i ∷ j ∷ js) = (i.mtime ≤ j.mtime) × AreOrdered (j ∷ js)

-- Before each of the files, taken in order, what is left of the total is still above the target.
abbrev pub AreNeeded : ℕ → ℕ → ℕ → List FileInfo → Type 0
AreNeeded total target freed [] = Unit {0}
AreNeeded total target freed (i ∷ is) =
    (target + freed < total) × AreNeeded total target (freed + i.size) is

module _ {F : Type 0} (fs : Files F) where
  -- The file system after the removal of the files, in order.
  pub remove_all : List FileInfo → F → F
  remove_all [] f = f
  remove_all (i ∷ is) f = remove_all is (fs.remove i.path f).0

  -- Every removal that comes to be tried does its work.
  abbrev pub AllRemoved : List FileInfo → F → Type 0
  AllRemoved [] f = Unit {0}
  AllRemoved (i ∷ is) f = ((fs.remove i.path f).1 ≡ true) × AllRemoved is (fs.remove i.path f).0

  -- What the loop leaves: the files that it removed come first, each was removed while what was freed before it
  -- did not reach the target, and either what stays is within the target or nothing stays.
  pub record Evicted (total target : ℕ) (is : List FileInfo) (freed : ℕ) (f : F) (out : F × ℕ)
      : Type 0 where
    pub removed : List FileInfo
    pub stays : List FileInfo
    pub split : is ≡ removed ++ stays
    pub files_after : out.0 ≡ remove_all removed f
    pub freed_after : out.1 ≡ freed + sizes removed
    pub needed : AreNeeded total target freed removed
    pub enough : (total ≤ target + out.1) ⊎ (stays ≡ [])

  evict_loop-Evicted :
      (total target : ℕ) (is : List FileInfo) (freed : ℕ) (f : F)
      → total < u64_mod
      → freed + sizes is ≤ total
      → AllRemoved is f
      → Evicted total target is freed f (evict_loop fs total target is freed f)
  unfolding evict_loop sizes remove_all
  evict_loop-Evicted total target [] freed f h k r = record {
    removed = [];
    stays = [];
    split = refl;
    files_after = refl;
    freed_after = ground arith;
    needed = tt;
    enough = inr refl;
  }
  evict_loop-Evicted total target (i ∷ is) freed f h k (r, rs) =
      let next : add64 freed i.size ≡ freed + i.size = omega arith in
      let e =
        evict_loop-Evicted total target is (freed + i.size) (fs.remove i.path f).0 h (omega arith)
          rs in
      elim (Bool-cases (leb (sub64 total freed) target)) [
        | inl stop ↦
            rw (evict_loop, stop)
              (record {
                removed = [];
                stays = i ∷ is;
                split = refl;
                files_after = refl;
                freed_after = ground arith;
                needed = tt;
                enough = inl (ground arith);
              })
        | inr go ↦
            rw (evict_loop, go, r, next)
              (record {
                removed = i ∷ e.removed;
                stays = e.stays;
                split = ap (λ xs. i ∷ xs) e.split;
                files_after = e.files_after;
                freed_after = ground (arith, e.freed_after);
                needed = (ground arith, e.needed);
                enough = e.enough;
              })
      ]

insert-AreOrdered :
    (i j : FileInfo) (js : List FileInfo)
    → j.mtime ≤ i.mtime
    → AreOrdered (j ∷ js)
    → AreOrdered (j ∷ insert_by_mtime i js)
unfolding insert_by_mtime
insert-AreOrdered i j [] h o = (h, tt)
insert-AreOrdered i j (k ∷ ks) h o = elim (Bool-cases (leb i.mtime k.mtime)) [
  | inl e ↦ rw (insert_by_mtime, e) (h, (ground arith, o.1))
  | inr e ↦ rw (insert_by_mtime, e) (o.0, insert-AreOrdered i k ks (ground arith) o.1)
]

insert_first-AreOrdered :
    (i : FileInfo) (is : List FileInfo) → AreOrdered is → AreOrdered (insert_by_mtime i is)
unfolding insert_by_mtime
insert_first-AreOrdered i [] o = tt
insert_first-AreOrdered i (j ∷ js) o = elim (Bool-cases (leb i.mtime j.mtime)) [
  | inl e ↦ rw (insert_by_mtime, e) (ground arith, o)
  | inr e ↦ rw (insert_by_mtime, e) (insert-AreOrdered i j js (ground arith) o)
]

sort-AreOrdered : (is : List FileInfo) → AreOrdered (sort_by_mtime is)
unfolding sort_by_mtime
sort-AreOrdered [] = tt
sort-AreOrdered (i ∷ is) = insert_first-AreOrdered i (sort_by_mtime is) (sort-AreOrdered is)

sizes_append : (xs ys : List FileInfo) → sizes (xs ++ ys) ≡ sizes xs + sizes ys
unfolding sizes
sizes_append [] ys = ground arith
sizes_append (x ∷ xs) ys = ground (arith, sizes_append xs ys)

module _ {F : Type 0} (fs : Files F) where
  -- The result of the loop in terms of the budget.
  Evicted-run_eviction :
      (budget : ℕ) (is : List FileInfo) (f : F)
      → budget * 9 < u64_mod
      → (out : F × ℕ) → Evicted fs (sizes is) (budget * 9 % u64_mod / 10) (sort_by_mtime is) 0 f out
      → (removed : List FileInfo) × (stays : List FileInfo) × (sort_by_mtime is ≡ removed ++ stays)
        × AreOrdered (removed ++ stays)
        × (out ≡ (remove_all fs removed f, sizes removed))
        × AreNeeded (sizes is) (budget * 9 / 10) 0 removed
        × (sizes stays ≤ budget * 9 / 10)
  unfolding sizes
  Evicted-run_eviction budget is f fits out e =
      let parts : sizes is ≡ sizes e.removed + sizes e.stays =
        sym (sort-sizes is) ∙ ap sizes e.split ∙ sizes_append e.removed e.stays in
      let target : budget * 9 % u64_mod ≡ budget * 9 = omega arith in
      let freed : out.1 ≡ sizes e.removed = ground (arith, e.freed_after) in
      let within : sizes e.stays ≤ budget * 9 / 10 = elim e.enough [
        | inl h ↦ ground (arith, h, freed, parts, target)
        | inr h ↦ let gone : sizes e.stays ≡ 0 = ap sizes h in ground arith
      ] in
      (
        e.removed,
        e.stays,
        e.split,
        subst AreOrdered e.split (sort-AreOrdered is),
        ap (λ g. (g, out.1)) e.files_after ∙ ap (λ n. (remove_all fs e.removed f, n)) freed,
        subst (λ t. AreNeeded (sizes is) (t / 10) 0 e.removed) target e.needed,
        within,
      )

  -- When the files that the scan found come to less than 2^64 bytes, nine times the budget too, and every
  -- removal works: a cache within the budget is left alone, and otherwise the eviction removes files from the
  -- oldest on and frees their bytes, each while more than nine tenths of the budget are left, and nine tenths of
  -- the budget hold what stays.
  pub run_eviction_cases :
      (budget : ℕ) (is : List FileInfo) (f : F)
      → sizes is < u64_mod
      → budget * 9 < u64_mod
      → AllRemoved fs (sort_by_mtime is) f
      → ((sizes is ≤ budget) × (run_eviction fs budget is f ≡ (f, 0)))
        ⊎ ((budget < sizes is)
            × (removed : List FileInfo) × (stays : List FileInfo) × (sort_by_mtime is
                ≡ removed ++ stays)
            × AreOrdered (removed ++ stays)
            × (run_eviction fs budget is f ≡ (remove_all fs removed f, sizes removed))
            × AreNeeded (sizes is) (budget * 9 / 10) 0 removed
            × (sizes stays ≤ budget * 9 / 10))
  unfolding run_eviction
  run_eviction_cases budget is f small fits gone =
      let total : total_size is ≡ sizes is = total_size-sizes is small in
      elim (Bool-cases (leb (total_size is) budget)) [
        | inl within ↦ inl (ground arith, rw (run_eviction, within) refl)
        | inr over ↦
            let out : F × ℕ =
              evict_loop fs (sizes is) (budget * 9 % u64_mod / 10) (sort_by_mtime is) 0 f in
            let same : run_eviction fs budget is f ≡ out = rw (run_eviction, over, total) refl in
            let r = Evicted-run_eviction budget is f fits out (
              evict_loop-Evicted fs (sizes is) (budget * 9 % u64_mod / 10) (sort_by_mtime is) 0 f
                small (omega (arith, sort-sizes is)) gone) in
            inr (ground arith, r.0, r.1, r.2, r.3, same ∙ r.4, r.5, r.6)
      ]
