-- ===== src/Data/Snic3d/Flood.antt =====
-- src/data/Snic3D.cpp, the loop `while (!pq.empty())`: it ends, and keeps the invariant.
use scrollviewer.Base.{
  ℕ, zero, suc, ◌+◌, ◌*◌, ◌≡◌, ◌<◌, inl, inr, refl, Option, some, List, ◌==◌, arith, Bool-cases,
  Option-cases,
}
use scrollviewer.Data.Snic3d.{Floats, Extent, Flooding, visit, flood}
use scrollviewer.Data.Snic3d.Queue.{Popped, pop-Popped}
use scrollviewer.Data.Snic3d.Region.{IsSmall}
use scrollviewer.Data.Snic3d.Labels.{unlabelled, label_of}
use scrollviewer.Data.Snic3d.Invariant.{Inv, Inv-skip, Inv-commit, committed, size-committed}

module _ {F D : Type 0} (fl : Floats F D) (d : Extent) (vol : List ℕ) (min_intensity : ℕ)
    (seeds : List ℕ) (inv_s2 inv_m2 : F) (small : IsSmall d) where
  abbrev IsInv : Flooding F D → Type 0
  IsInv = Inv fl d vol min_intensity seeds

  -- What the loop leaves for the work that is still to be done.
  abbrev pub measure : Flooding F D → ℕ
  measure s = 7 * unlabelled s.label + s.pq.size

  record Round (s : Flooding F D) (p : Popped s.pq) : Type 0 where
    next : Flooding F D
    is : visit fl d vol min_intensity inv_s2 inv_m2 p.el (record s { pq = p.rest }) ≡ next
    inv : IsInv next
    less : measure next < measure s

  visit-Round : (s : Flooding F D) → IsInv s → (p : Popped s.pq) → Round s p
  unfolding visit
  visit-Round s i p = elim (Option-cases (label_of s.label p.el.idx)) [
    | inr (m, taken) ↦ record {
      next = record s { pq = p.rest };
      is = rw (visit, taken) refl;
      inv = Inv-skip fl d vol min_intensity seeds inv_s2 inv_m2 small s i p m taken;
      less = omega (arith, p.size);
    }
    | inl free ↦ record {
      next = committed fl d vol min_intensity seeds inv_s2 inv_m2 small s i p;
      is = rw (visit, free) refl;
      inv = Inv-commit fl d vol min_intensity seeds inv_s2 inv_m2 small s i p free;
      less =
          omega (arith, size-committed fl d vol min_intensity seeds inv_s2 inv_m2 small s i p free);
    }
  ]

  pub record Ends (r : Option (Flooding F D)) : Type 0 where
    pub out : Flooding F D
    pub returns : r ≡ some out
    pub inv : IsInv out
    pub done : out.pq.size ≡ 0

  -- Each round takes an element, and pushes six for the voxel that it labels.
  pub flood-Ends :
      (fuel : ℕ) (s : Flooding F D)
      → IsInv s
      → measure s < fuel
      → Ends (flood fl d vol min_intensity inv_s2 inv_m2 fuel s)
  unfolding flood
  flood-Ends zero s i h = absurd (omega arith)
  flood-Ends (suc fuel) s i h = elim (Bool-cases (s.pq.size == 0)) [
    | inl e ↦ record { out = s; returns = rw (flood, e) refl; inv = i; done = ground arith }
    | inr e ↦
        let p = pop-Popped s.pq i.queue (ground arith) in
        let r = visit-Round s i p in
        let rest = flood-Ends fuel r.next r.inv (omega (arith, r.less)) in
        record {
          out = rest.out;
          returns = rw (flood, e, p.returns, r.is) rest.returns;
          inv = rest.inv;
          done = rest.done;
        }
  ]
