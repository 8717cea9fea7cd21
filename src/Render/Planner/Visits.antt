-- ===== src/Render/Planner/Visits.antt =====
-- src/render/WorkingSetPlanner.cpp: the loop over the stack, compared with a recursion over the octree.
use scrollviewer.Base.{
  ℕ, zero, suc, ◌+◌, ◌-◌, ◌*◌, ◌≡◌, ◌≤◌, ◌<◌, refl, sym, ap, ◌∙◌, true, false, Option, some, List,
  [], ◌∷◌, ◌++◌, length, append_assoc, ltb, if◌then◌else◌, arith, ltb→lt, Bool-cases, inl, inr,
}
use scrollviewer.Render.GpuBrickCache.{Dims, GpuBrickCache}
use scrollviewer.Render.Planner.{
  WorkingSetPlanner, Node, View, Plan, grid_dims, octants, child, is_inside, push_child,
  push_octants, push_children, desired, is_skipped, record_node, descend, plan_round, plan_loop,
  node_weight, stack_weight,
}

unfoldable pub visit_all : (Node → List Node) → List Node → List Node
visit_all f [] = []
visit_all f (n ∷ ns) = f n ++ visit_all f ns

visit_all-append :
    (f : Node → List Node) (ms ns : List Node)
    → visit_all f (ms ++ ns) ≡ visit_all f ms ++ visit_all f ns
unfolding visit_all
visit_all-append f [] ns = refl
visit_all-append f (m ∷ ms) ns =
    ap (λ t. f m ++ t) (visit_all-append f ms ns)
    ∙ sym (append_assoc (f m) (visit_all f ms) (visit_all f ns))

push_octants-append :
    (g : Dims) (n : Node) (os : List Dims) (stack : List Node)
    → push_octants g n os stack ≡ push_octants g n os [] ++ stack
unfolding push_octants push_child
push_octants-append g n [] stack = refl
push_octants-append g n (o ∷ os) stack = elim (Bool-cases (is_inside g (child n o))) [
  | inr e ↦ rw (e) (push_octants-append g n os stack)
  | inl e ↦ rw (e) (
      push_octants-append g n os (child n o ∷ stack)
      ∙ sym (append_assoc (push_octants g n os []) (child n o ∷ []) stack)
      ∙ ap (λ t. t ++ stack) (sym (push_octants-append g n os (child n o ∷ []))))
]

stack_weight-append :
    (d : ℕ) (ms ns : List Node) → stack_weight d (ms ++ ns) ≡ stack_weight d ms + stack_weight d ns
unfolding stack_weight
stack_weight-append d [] ns = ground arith
stack_weight-append d (m ∷ ms) ns = ground (arith, stack_weight-append d ms ns)

weight_pos : (d : ℕ) → 1 ≤ node_weight d
unfolding node_weight
weight_pos zero = omega arith
weight_pos (suc d) = omega arith

-- The children weigh at most eight times what one of them does.
stack_weight-push_octants :
    (d : ℕ) (g : Dims) (n : Node) (os : List Dims) (stack : List Node)
    → stack_weight d (push_octants g n os stack)
      ≤ length os * node_weight (n.level - 1 - d) + stack_weight d stack
unfolding push_octants push_child stack_weight
stack_weight-push_octants d g n [] stack = omega arith
stack_weight-push_octants d g n (o ∷ os) stack = elim (Bool-cases (is_inside g (child n o))) [
  | inr e ↦ rw (e) (omega (arith, stack_weight-push_octants d g n os stack))
  | inl e ↦ rw (e) (omega (arith, stack_weight-push_octants d g n os (child n o ∷ stack)))
]

module _ {P : Type 0} (p : WorkingSetPlanner) (v : View P) where
  -- The children that a node pushes, the last one first.
  abbrev pub children : Node → List Node
  children n = push_children p n []

  -- The nodes at and below a node that are looked at and not skipped, with so many levels below it.
  unfoldable pub visits : ℕ → Node → List Node
  visits zero n = if is_skipped p v n then [] else n ∷ []
  visits (suc d) n =
      let below = visit_all (visits d) (children n) in if is_skipped p v n then [] else n ∷ below

  abbrev pub visits_from : Node → List Node
  visits_from n = visits (n.level - desired p v) n

  stack_weight-children :
      (n : Node) (stack : List Node)
      → desired p v < n.level
      → stack_weight (desired p v) (push_children p n stack)
        < node_weight (n.level - desired p v) + stack_weight (desired p v) stack
  unfolding push_children node_weight
  stack_weight-children n stack h =
      let d = desired p v in
      let one_less : n.level - d ≡ suc (n.level - 1 - d) = omega arith in
      rw one_less
        (omega (arith, stack_weight-push_octants d (grid_dims p (n.level - 1)) n octants stack))

  visits_skipped : (d : ℕ) (n : Node) → is_skipped p v n ≡ true → visits d n ≡ []
  unfolding visits
  visits_skipped zero n h = rw h refl
  visits_skipped (suc d) n h = rw h refl

  visits_leaf :
      (n : Node) → is_skipped p v n ≡ false → n.level ≤ desired p v → visits_from n ≡ n ∷ []
  unfolding visits
  visits_leaf n h k =
      let none_below : n.level - desired p v ≡ 0 = omega arith in rw (none_below, h) refl

  visit_all-push_octants :
      (f h : Node → List Node) (g : Dims) (n : Node) (os : List Dims) (stack : List Node)
      → ((o : Dims) → f (child n o) ≡ h (child n o))
      → visit_all f stack ≡ visit_all h stack
      → visit_all f (push_octants g n os stack) ≡ visit_all h (push_octants g n os stack)
  unfolding push_octants push_child visit_all
  visit_all-push_octants f h g n [] stack same rest = rest
  visit_all-push_octants f h g n (o ∷ os) stack same rest =
      elim (Bool-cases (is_inside g (child n o))) [
        | inr e ↦ rw (e) (visit_all-push_octants f h g n os stack same rest)
        | inl e ↦ rw (e) (
            visit_all-push_octants f h g n os (child n o ∷ stack) same
              (ap (λ t. t ++ visit_all f stack) (same o) ∙ ap (λ t. h (child n o) ++ t) rest))
      ]

  visits_inner :
      (n : Node)
      → is_skipped p v n ≡ false
      → desired p v < n.level
      → visits_from n ≡ n ∷ visit_all visits_from (children n)
  unfolding visits push_children visit_all
  visits_inner n h k =
      let d = desired p v in
      let one_less : n.level - d ≡ suc (n.level - 1 - d) = omega arith in
      rw (one_less, h)
        (ap (λ t. n ∷ t)
          (visit_all-push_octants (visits (n.level - 1 - d)) visits_from (grid_dims p (n.level - 1))
            n octants [] (λ o. refl) refl))

  visit_all-children :
      (n : Node) (stack : List Node)
      → visit_all visits_from (push_children p n stack)
        ≡ visit_all visits_from (children n) ++ visit_all visits_from stack
  unfolding push_children
  visit_all-children n stack =
      ap (visit_all visits_from) (push_octants-append (grid_dims p (n.level - 1)) n octants stack)
      ∙ visit_all-append visits_from (children n) stack

module _ {P : Type 0} (p : WorkingSetPlanner) (v : View P) (volume_id : ℕ) (cache : GpuBrickCache)
    (max_requests : ℕ) where
  -- The plan after the nodes have been recorded, in order.
  unfoldable pub record_all : List Node → Plan P → Plan P
  record_all [] out = out
  record_all (n ∷ ns) out = record_all ns (record_node p v volume_id cache max_requests n out)

  record_all-append :
      (ms ns : List Node) (out : Plan P)
      → record_all (ms ++ ns) out ≡ record_all ns (record_all ms out)
  unfolding record_all
  record_all-append [] ns out = refl
  record_all-append (m ∷ ms) ns out =
      record_all-append ms ns (record_node p v volume_id cache max_requests m out)

  abbrev round : Node → List Node → Plan P → List Node × Plan P
  round = plan_round p v volume_id cache max_requests

  abbrev noted : Node → Plan P → Plan P
  noted = record_node p v volume_id cache max_requests

  round_skipped :
      (n : Node) (stack : List Node) (out : Plan P)
      → is_skipped p v n ≡ true
      → round n stack out ≡ (stack, out)
  unfolding plan_round
  round_skipped n stack out e = rw e refl

  round_leaf :
      (n : Node) (stack : List Node) (out : Plan P)
      → is_skipped p v n ≡ false
      → ltb (desired p v) n.level ≡ false
      → round n stack out ≡ (stack, noted n out)
  unfolding plan_round descend
  round_leaf n stack out e k = rw (e, k) refl

  round_inner :
      (n : Node) (stack : List Node) (out : Plan P)
      → is_skipped p v n ≡ false
      → ltb (desired p v) n.level ≡ true
      → round n stack out ≡ (push_children p n stack, noted n out)
  unfolding plan_round descend
  round_inner n stack out e k = rw (e, k) refl

  -- With enough fuel the loop ends, and it has recorded the nodes that the recursion visits, in its order.
  pub plan_loop-visits :
      (fuel : ℕ) (stack : List Node) (out : Plan P)
      → stack_weight (desired p v) stack ≤ fuel
      → plan_loop p v volume_id cache max_requests fuel stack out
        ≡ some (record_all (visit_all (visits_from p v) stack) out)
  unfolding plan_loop record_all visit_all stack_weight
  plan_loop-visits fuel [] out h = refl
  plan_loop-visits zero (n ∷ stack) out h =
      absurd (omega (arith, weight_pos (n.level - desired p v)))
  plan_loop-visits (suc fuel) (n ∷ stack) out h =
      let d : ℕ = n.level - desired p v in
      let others : List Node = visit_all (visits_from p v) stack in
      let loop : List Node × Plan P → Option (Plan P) =
        λ r. plan_loop p v volume_id cache max_requests fuel r.0 r.1 in
      let small : stack_weight (desired p v) stack ≤ fuel = omega (arith, weight_pos d) in
      elim (Bool-cases (is_skipped p v n)) [
        | inl e ↦
            ap loop (round_skipped n stack out e)
            ∙ plan_loop-visits fuel stack out small
            ∙ ap (λ t. some (record_all (t ++ others) out)) (sym (visits_skipped p v d n e))
        | inr e ↦ elim (Bool-cases (ltb (desired p v) n.level)) [
          | inl k ↦
              let below = ltb→lt (desired p v) n.level k in
              ap loop (round_inner n stack out e k)
              ∙ plan_loop-visits fuel (push_children p n stack) (noted n out)
                  (omega (arith, stack_weight-children p v n stack below))
              ∙ ap (λ t. some (record_all t (noted n out))) (visit_all-children p v n stack)
              ∙ ap (λ t. some (record_all (t ++ others) out)) (sym (visits_inner p v n e below))
          | inr k ↦
              ap loop (round_leaf n stack out e k)
              ∙ plan_loop-visits fuel stack (noted n out) small
              ∙ ap (λ t. some (record_all (t ++ others) out))
                  (sym (visits_leaf p v n e (ground arith)))
        ]
      ]
