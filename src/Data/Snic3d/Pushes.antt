-- ===== src/Data/Snic3d/Pushes.antt =====
-- src/data/Snic3D.cpp: the six pushes of a visit.
use scrollviewer.Base.{
  ℕ, ◌+◌, ◌≡◌, ◌≤◌, ◌⊎◌, inl, inr, refl, ap, true, false, ◌||◌, Option, none, List, [], ◌∷◌, length,
  get_or, leb, arith, Bool, Bool-cases, Option-cases, subst,
}
use scrollviewer.Data.Snic3d.{
  Floats, Extent, Voxel, QEl, BucketQueue, Accum, u32, is_labelled, index_of, bright, distance,
  push_at, push_neighbour, push_all,
}
use scrollviewer.Data.Snic3d.Queue.{
  ◌∈◌, Waits, IsValid, push_at-IsValid, size-push_at, push_at_from, push_at_new, push_at_kept,
}
use scrollviewer.Data.Snic3d.Labels.{label_of}

module _ {F D : Type 0} (fl : Floats F D) (d : Extent) (vol : List ℕ) (min_intensity : ℕ)
    (inv_s2 inv_m2 : F) (label : List (Option ℕ)) (a : Accum F D) (k : ℕ) where
  abbrev pub el_of : Voxel → QEl
  el_of v = record { idx = u32 (index_of d v); k = k }

  -- The neighbour passes the test of the lambda.
  abbrev pub IsOpen : Voxel → Type 0
  IsOpen v =
      (label_of label (index_of d v) ≡ none) × (bright vol min_intensity (index_of d v) ≡ true)

  pub record Pushes (vs : List Voxel) (q r : BucketQueue) : Type 0 where
    pub valid : IsValid r
    pub size : r.size ≤ q.size + length vs
    pub from : (o : QEl) → Waits o r → Waits o q ⊎ (v : Voxel) × (v ∈ vs) × IsOpen v × (o ≡ el_of v)
    pub kept : (o : QEl) → Waits o q → Waits o r
    pub pushed : (v : Voxel) → v ∈ vs → IsOpen v → Waits (el_of v) r

  abbrev is_shut : Voxel → Bool
  is_shut v =
      is_labelled (label_of label (index_of d v)) || leb (get_or vol (index_of d v) 0) min_intensity

  is_shut-false : (v : Voxel) → is_shut v ≡ false → IsOpen v
  is_shut-false v e = elim (Option-cases (label_of label (index_of d v))) [
    | inl none_yet ↦ (none_yet, ground (arith, ap is_labelled none_yet))
    | inr (j, taken) ↦ absurd (ground (arith, ap is_labelled taken))
  ]

  is_shut-true : (v : Voxel) → is_shut v ≡ true → ¬ IsOpen v
  is_shut-true v e (none_yet, IsLight) = ground (arith, ap is_labelled none_yet)

  pub push_all-Pushes :
      (vs : List Voxel) (q : BucketQueue)
      → IsValid q
      → Pushes vs q (push_all fl d vol min_intensity inv_s2 inv_m2 label a k vs q)
  unfolding push_all push_neighbour
  push_all-Pushes [] q v = record {
    valid = v;
    size = omega arith;
    from = λ o w. inl w;
    kept = λ o w. w;
    pushed = λ u m op. absurd m;
  }
  push_all-Pushes (u ∷ us) q v = elim (Bool-cases (is_shut u)) [
    | inl e ↦
        let r = push_all-Pushes us q v in
        rw (push_neighbour, e)
          (record {
            valid = r.valid;
            size = omega (arith, r.size);
            from = λ o w. elim (r.from o w) [
              | inl old ↦ inl old
              | inr (x, m, op, same) ↦ inr (x, inr m, op, same)
            ];
            kept = r.kept;
            pushed = λ x m op. elim m [
              | inl same ↦ absurd (is_shut-true u e (subst IsOpen same op))
              | inr later ↦ r.pushed x later op
            ];
          })
    | inr e ↦
        let i = fl.to_int (
          fl.mul_f (distance fl d vol min_intensity inv_s2 inv_m2 a u (index_of d u))
            (fl.float_of 128)) in
        let q' = push_at i (el_of u) q in
        let r = push_all-Pushes us q' (push_at-IsValid i (el_of u) q v) in
        rw (push_neighbour, e)
          (record {
            valid = r.valid;
            size = omega (arith, r.size, size-push_at i (el_of u) q v);
            from = λ o w. elim (r.from o w) [
              | inr (x, m, op, same) ↦ inr (x, inr m, op, same)
              | inl old ↦ elim (push_at_from i (el_of u) q v o old) [
                | inl new ↦ inr (u, inl refl, is_shut-false u e, new)
                | inr older ↦ inl older
              ]
            ];
            kept = λ o w. r.kept o (push_at_kept i (el_of u) q v o w);
            pushed = λ x m op. elim m [
              | inl same ↦ r.kept (el_of x) (rw same (push_at_new i (el_of u) q v))
              | inr later ↦ r.pushed x later op
            ];
          })
  ]
