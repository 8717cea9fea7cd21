-- ===== src/Render/Planner/Collected.antt =====
-- src/render/WorkingSetPlanner.cpp: what a plan holds.
use scrollviewer.Base.{
  ℕ, zero, suc, ◌≡◌, ◌≤◌, refl, sym, ap, ◌∙◌, some, List, [], ◌∷◌, ◌++◌, length, length-append,
  append_assoc, take, ltb, if◌then◌else◌, arith, Bool-cases, inl, inr,
}
use scrollviewer.Data.BrickKey.{BrickKey}
use scrollviewer.Data.Pipeline.{BrickRequest}
use scrollviewer.Render.GpuBrickCache.{GpuBrickCache, is_resident}
use scrollviewer.Render.Planner.{
  WorkingSetPlanner, Node, View, Plan, roots, key_of, desired, add_missing, record_node,
  stack_weight, plan,
}
use scrollviewer.Render.Planner.Visits.{visit_all, visits_from, record_all, plan_loop-visits}

append_nil {ℓ} : {A : Type ℓ} (xs : List A) → xs ++ [] ≡ xs
append_nil [] = refl
append_nil (x ∷ xs) = ap (λ t. x ∷ t) (append_nil xs)

take_full {ℓ} : {A : Type ℓ} (n : ℕ) (xs ys : List A) → length xs ≡ n → take n (xs ++ ys) ≡ xs
take_full zero [] [] h = refl
take_full zero [] (y ∷ ys) h = refl
take_full zero (x ∷ xs) ys h = absurd (omega arith)
take_full (suc n) [] ys h = absurd (omega arith)
take_full (suc n) (x ∷ xs) ys h = ap (λ t. x ∷ t) (take_full n xs ys (omega arith))

take_short {ℓ} : {A : Type ℓ} (n : ℕ) (xs : List A) → length xs ≤ n → take n xs ≡ xs
take_short zero [] h = refl
take_short zero (x ∷ xs) h = absurd (omega arith)
take_short (suc n) [] h = refl
take_short (suc n) (x ∷ xs) h = ap (λ t. x ∷ t) (take_short n xs (omega arith))

module _ {P : Type 0} (p : WorkingSetPlanner) (v : View P) (volume_id : ℕ) (cache : GpuBrickCache)
    (max_requests : ℕ) where
  -- The keys of the nodes that are resident, and the requests for the others.
  unfoldable pub resident_keys : List Node → List BrickKey
  resident_keys [] = []
  resident_keys (n ∷ ns) =
      let rest = resident_keys ns in
      if is_resident cache (key_of volume_id n) then key_of volume_id n ∷ rest else rest

  unfoldable pub absent_requests : List Node → List (BrickRequest P)
  absent_requests [] = []
  absent_requests (n ∷ ns) =
      let rest = absent_requests ns in
      if is_resident cache (key_of volume_id n)
      then rest
      else record { key = key_of volume_id n; priority = v.priority n } ∷ rest

  abbrev all_of : List Node → Plan P → Plan P
  all_of = record_all p v volume_id cache max_requests

  noted_visible :
      (ns : List Node) (out : Plan P) → (all_of ns out).visible ≡ out.visible ++ resident_keys ns
  unfolding record_all record_node add_missing resident_keys
  noted_visible [] out = sym (append_nil out.visible)
  noted_visible (n ∷ ns) out = elim (Bool-cases (is_resident cache (key_of volume_id n))) [
    | inl e ↦
        rw (record_all, record_node, e)
          (noted_visible ns (record out { visible = out.visible ++ key_of volume_id n ∷ [] })
            ∙ append_assoc out.visible (key_of volume_id n ∷ []) (resident_keys ns))
    | inr e ↦ elim (Bool-cases (ltb (length out.missing) max_requests)) [
      | inl k ↦
          rw (record_all, record_node, add_missing, e, k)
            (noted_visible ns (record out {
              missing =
                  out.missing ++ record { key = key_of volume_id n; priority = v.priority n } ∷ [];
            }))
      | inr k ↦ rw (record_all, record_node, add_missing, e, k) (noted_visible ns out)
    ]
  ]

  noted_missing :
      (ns : List Node) (out : Plan P)
      → length out.missing ≤ max_requests
      → (all_of ns out).missing ≡ take max_requests (out.missing ++ absent_requests ns)
  unfolding record_all record_node add_missing absent_requests
  noted_missing [] out h =
      sym (take_short max_requests out.missing h)
      ∙ ap (take max_requests) (sym (append_nil out.missing))
  noted_missing (n ∷ ns) out h = elim (Bool-cases (is_resident cache (key_of volume_id n))) [
    | inl e ↦
        rw (record_all, record_node, e)
          (noted_missing ns (record out { visible = out.visible ++ key_of volume_id n ∷ [] }) h)
    | inr e ↦
        let r : BrickRequest P = record { key = key_of volume_id n; priority = v.priority n } in
        elim (Bool-cases (ltb (length out.missing) max_requests)) [
          | inl k ↦
              rw (record_all, record_node, add_missing, e, k)
                (noted_missing ns (record out { missing = out.missing ++ r ∷ [] })
                    (ground (arith, length-append out.missing (r ∷ [])))
                  ∙ ap (take max_requests) (append_assoc out.missing (r ∷ []) (absent_requests ns)))
          | inr k ↦
              let full : length out.missing ≡ max_requests = ground arith in
              rw (record_all, record_node, add_missing, e, k)
                (noted_missing ns out h
                  ∙ take_full max_requests out.missing (absent_requests ns) full
                  ∙ sym (take_full max_requests out.missing (r ∷ absent_requests ns) full))
        ]
  ]

  -- The loop of `plan` comes to its end. The bricks of its plan are those that a recursion from the coarsest
  -- grid down to the level of the zoom meets, without what is out of view or known to be invisible, in that
  -- order: all that are resident, as visible, and of the others the first that fit the number of requests.
  pub plan-visits :
      plan p v volume_id cache max_requests
      ≡ some (record {
        missing = take max_requests (absent_requests (visit_all (visits_from p v) (roots p)));
        visible = resident_keys (visit_all (visits_from p v) (roots p));
      })
  unfolding plan
  plan-visits =
      let none_yet : Plan P = record { missing = []; visible = [] } in
      let met : List Node = visit_all (visits_from p v) (roots p) in
      plan_loop-visits p v volume_id cache max_requests (stack_weight (desired p v) (roots p))
        (roots p) none_yet (omega arith)
      ∙ ap (λ m. some (record { missing = m; visible = (all_of met none_yet).visible }))
          (noted_missing met none_yet (omega arith))
      ∙ ap (λ k. some (record { missing = take max_requests (absent_requests met); visible = k }))
          (noted_visible met none_yet)
