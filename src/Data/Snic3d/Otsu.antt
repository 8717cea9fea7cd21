-- ===== src/Data/Snic3d/Otsu.antt =====
-- src/data/Snic3D.cpp, `otsuThreshold`: the threshold is the best of the splits that are tried.
use scrollviewer.Base.{
  ℕ, ◌+◌, ◌%◌, ◌^◌, ◌≡◌, ◌<◌, ◌⊎◌, inl, inr, refl, sym, subst, ◌∙◌, true, false, List, [], ◌∷◌, All,
  length, get_or, set, replicate, length-set, length-replicate, add64, if◌then◌else◌, arith,
  Bool-cases,
}
use scrollviewer.Data.Snic3d.{Floats}
use scrollviewer.Data.Snic3d.Queue.{◌∈◌}

-- `++h[b]` for each byte.
unfoldable pub histogram : List ℕ → List ℕ → List ℕ
histogram [] h = h
histogram (b ∷ bs) h = histogram bs (set h b (add64 (get_or h b 0) 1))

module _ {F D : Type 0} (fl : Floats F D) where
  open fl use {double_of, add_d, sub_d, mul_d, div_d, is_above, is_zero}

  -- `sumAll`, from the bin `i` on.
  unfoldable pub sum_all : List ℕ → ℕ → D → D
  sum_all [] i s = s
  sum_all (c ∷ cs) i s = sum_all cs (i + 1) (add_d s (mul_d (double_of i) (double_of c)))

  pub record Otsu : Type 0 where
    pub sum_b : D
    pub w_b : D
    pub best : D
    pub thr : ℕ

  -- `between`, for the weight and the sum below a split.
  abbrev pub between : D → D → D → D → D
  between sum_all total w_b sum_b =
      let w_f = sub_d total w_b in
      let m_b = div_d sum_b w_b in
      let m_f = div_d (sub_d sum_all sum_b) w_f in
      let m = sub_d m_b m_f in mul_d (mul_d (mul_d w_b w_f) m) m

  abbrev try_split : D → ℕ → Otsu → Otsu
  try_split v t s =
      let better = is_above v s.best in
      record s { best = if better then v else s.best; thr = if better then t else s.thr }

  -- The loop over `t`, with its `continue` and its `break`.
  unfoldable pub otsu_loop : D → D → List ℕ → ℕ → Otsu → Otsu
  otsu_loop sum total [] t s = s
  otsu_loop sum total (c ∷ cs) t s =
      let w_b = add_d s.w_b (double_of c) in
      let sum_b = add_d s.sum_b (mul_d (double_of t) (double_of c)) in
      let v = between sum total w_b sum_b in
      let passed = otsu_loop sum total cs (t + 1) (record s { w_b = w_b }) in
      let tried =
        otsu_loop sum total cs (t + 1) (try_split v t (record s { w_b = w_b; sum_b = sum_b })) in
      if is_zero w_b
      then passed
      else if is_zero (sub_d total w_b)
      then record s { w_b = w_b }
      else tried

  abbrev start : Otsu
  start =
      let o = double_of 0 in record { sum_b = o; w_b = o; best = sub_d o (double_of 1); thr = 0 }

  unfoldable pub otsu_threshold : List ℕ → ℕ
  otsu_threshold vol =
      let h = histogram vol (replicate 256 0) in
      let total = double_of (length vol) in
      if is_zero total
      then 0
      else (otsu_loop (sum_all h 0 (double_of 0)) total h 0 start).thr % 2 ^ 8

  -- The splits that the loop tries, with the value of each.
  unfoldable pub splits : D → D → List ℕ → ℕ → D → D → List (ℕ × D)
  splits sum total [] t w s = []
  splits sum total (c ∷ cs) t w s =
      let w' = add_d w (double_of c) in
      let s' = add_d s (mul_d (double_of t) (double_of c)) in
      let passed = splits sum total cs (t + 1) w' s in
      let tried = splits sum total cs (t + 1) w' s' in
      if is_zero w'
      then passed
      else if is_zero (sub_d total w')
      then []
      else (t, between sum total w' s') ∷ tried

  -- No two values are each above the other, and what is not above may be chained.
  pub record IsOrder : Type 0 where
    pub irrefl : (x : D) → is_above x x ≡ false
    pub asym : (x y : D) → is_above x y ≡ true → is_above y x ≡ false
    pub trans : (x y z : D) → is_above x y ≡ false → is_above y z ≡ false → is_above x z ≡ false

  record IsBest (ps : List (ℕ × D)) (s r : Otsu) : Type 0 where
    chosen : (r.best ≡ s.best) × (r.thr ≡ s.thr) ⊎ ((r.thr, r.best) ∈ ps)
    above : All (λ p. is_above p.1 r.best ≡ false) ps
    grows : is_above s.best r.best ≡ false

  try_split_lem :
      (ord : IsOrder) (v : D) (t : ℕ) (s : Otsu)
      → (is_above v (try_split v t s).best ≡ false)
        × (is_above s.best (try_split v t s).best ≡ false)
  try_split_lem ord v t s = elim (Bool-cases (is_above v s.best)) [
    | inl e ↦ rw (e) (ord.irrefl v, ord.asym v s.best e)
    | inr e ↦ rw (e) (e, ord.irrefl s.best)
  ]

  try_split_chosen :
      (v : D) (t : ℕ) (s : Otsu)
      → ((try_split v t s).best ≡ s.best) × ((try_split v t s).thr ≡ s.thr)
        ⊎ ((try_split v t s).best ≡ v) × ((try_split v t s).thr ≡ t)
  try_split_chosen v t s = elim (Bool-cases (is_above v s.best)) [
    | inl e ↦ rw (e) (inr (refl, refl))
    | inr e ↦ rw (e) (inl (refl, refl))
  ]

  otsu_loop-IsBest :
      (ord : IsOrder) (sum total : D) (cs : List ℕ) (t : ℕ) (s : Otsu)
      → IsBest (splits sum total cs t s.w_b s.sum_b) s (otsu_loop sum total cs t s)
  unfolding otsu_loop splits
  otsu_loop-IsBest ord sum total [] t s = record {
    chosen = inl (refl, refl);
    above = tt;
    grows = ord.irrefl s.best;
  }
  otsu_loop-IsBest ord sum total (c ∷ cs) t s =
      let w = add_d s.w_b (double_of c) in
      let b = add_d s.sum_b (mul_d (double_of t) (double_of c)) in
      let v = between sum total w b in
      let moved : Otsu = record s { w_b = w; sum_b = b } in
      let at_split = try_split_lem ord v t moved in
      elim (Bool-cases (is_zero w)) [
        | inl e ↦
            let r = otsu_loop-IsBest ord sum total cs (t + 1) (record s { w_b = w }) in
            rw (otsu_loop, splits, e)
              (record { chosen = r.chosen; above = r.above; grows = r.grows })
        | inr e ↦ elim (Bool-cases (is_zero (sub_d total w))) [
          | inl stop ↦
              rw (otsu_loop, splits, e, stop)
                (record { chosen = inl (refl, refl); above = tt; grows = ord.irrefl s.best })
          | inr on ↦
              let r = otsu_loop-IsBest ord sum total cs (t + 1) (try_split v t moved) in
              let next = try_split v t moved in
              rw (otsu_loop, splits, e, on)
                (record {
                  chosen = elim r.chosen [
                    | inr later ↦ inr (inr later)
                    | inl (same, at_t) ↦ elim (try_split_chosen v t moved) [
                      | inl (old, old_t) ↦ inl (same ∙ old, at_t ∙ old_t)
                      | inr (new, new_t) ↦ inr (inl (rw (same ∙ new, at_t ∙ new_t) refl))
                    ]
                  ];
                  above = (ord.trans v next.best _ at_split.0 r.grows, r.above);
                  grows = ord.trans s.best next.best _ at_split.1 r.grows;
                })
        ]
      ]

  splits-lt :
      (sum total : D) (cs : List ℕ) (t : ℕ) (w b : D) (p : ℕ × D)
      → p ∈ splits sum total cs t w b
      → p.0 < t + length cs
  unfolding splits
  splits-lt sum total [] t w b p m = absurd m
  splits-lt sum total (c ∷ cs) t w b p m =
      let w' = add_d w (double_of c) in
      let b' = add_d b (mul_d (double_of t) (double_of c)) in
      ground (arith, splits-lt sum total cs (t + 1) w' b p, splits-lt sum total cs (t + 1) w' b' p)

  length-histogram : (vol h : List ℕ) → length (histogram vol h) ≡ length h
  unfolding histogram
  length-histogram [] h = refl
  length-histogram (b ∷ bs) h =
      length-histogram bs (set h b (add64 (get_or h b 0) 1)) ∙ length-set h b _

  -- The counts of the bytes, and the sum of all of them.
  abbrev pub counts : List ℕ → List ℕ
  counts vol = histogram vol (replicate 256 0)

  abbrev pub all_splits : List ℕ → List (ℕ × D)
  all_splits vol =
      let o = double_of 0 in
      splits (sum_all (counts vol) 0 o) (double_of (length vol)) (counts vol) 0 o o

  -- The threshold of `vol` is a split whose value no other exceeds, or 0 if none is above -1.
  pub record IsBestSplit (vol : List ℕ) : Type 0 where
    pub best : D
    pub range : otsu_threshold vol < 256
    pub chosen :
        ((otsu_threshold vol, best) ∈ all_splits vol)
        ⊎ (otsu_threshold vol ≡ 0) × (best ≡ sub_d (double_of 0) (double_of 1))
    pub above : All (λ p. is_above p.1 best ≡ false) (all_splits vol)

  -- For an order on double without NaN and a volume that is not empty: the threshold is below 256,
  -- it is a split that the loop tries, or 0 if none is better than -1, and no split that is tried
  -- has a greater variance between the classes.
  pub otsu_threshold-IsBestSplit :
      IsOrder → (vol : List ℕ) → is_zero (double_of (length vol)) ≡ false → IsBestSplit vol
  unfolding otsu_threshold
  otsu_threshold-IsBestSplit ord vol some_total =
      let h = counts vol in
      let o = double_of 0 in
      let r = otsu_loop (sum_all h 0 o) (double_of (length vol)) h 0 start in
      let b = otsu_loop-IsBest ord (sum_all h 0 o) (double_of (length vol)) h 0 start in
      let size : length h ≡ 256 =
        length-histogram vol (replicate 256 0) ∙ length-replicate {A = ℕ} 256 0 in
      let range : r.thr < 256 = elim b.chosen [
        | inl (_, zero_thr) ↦ omega arith
        | inr m ↦ omega (arith, splits-lt _ _ h 0 o o (r.thr, r.best) m)
      ] in
      let same : otsu_threshold vol ≡ r.thr = rw (otsu_threshold, some_total) (omega arith) in
      record {
        best = r.best;
        range = rw same range;
        chosen = elim b.chosen [
          | inl (best_eq, zero_thr) ↦ inr (same ∙ zero_thr, best_eq)
          | inr m ↦ inl (subst (λ t. (t, r.best) ∈ all_splits vol) (sym same) m)
        ];
        above = b.above;
      }
