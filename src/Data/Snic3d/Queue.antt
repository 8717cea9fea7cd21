-- ===== src/Data/Snic3d/Queue.antt =====
-- src/data/Snic3D.cpp, `BucketQueue`: what is pushed is popped, and a `pop` finds it.
use scrollviewer.Base.{
  ℕ, zero, suc, ◌+◌, ◌-◌, ◌≡◌, ◌≢◌, ◌≤◌, ◌<◌, ◌⊎◌, inl, inr, refl, sym, ap, subst, ◌∙◌, some, List,
  [], ◌∷◌, length, get_or, set, total, replicate, length-set, length-replicate, get_or-set_self,
  get_or-set_ne, arith, ℕ_discrete, List-cases,
}
use scrollviewer.Data.Snic3d.{
  QEl, BucketQueue, k_buckets, bucket, empty_queue, clamp_to, push_at, seek, pop,
}

infix 40 ◌∈◌
abbrev pub ◌∈◌ : {A : Type 0} → A → List A → Type 0
e ∈ [] = ⊥
e ∈ x ∷ xs = (e ≡ x) ⊎ (e ∈ xs)

-- An element waits in some bucket.
unfoldable pub Waits : QEl → BucketQueue → Type 0
Waits e q = (b : ℕ) × (e ∈ bucket q b)

pub record IsValid (q : BucketQueue) : Type 0 where
  pub count : length q.buckets ≡ k_buckets
  pub range : q.cur < k_buckets
  pub sum : q.size ≡ total length q.buckets
  pub before : (b : ℕ) → b < q.cur → bucket q b ≡ []

get_or-replicate : (n b : ℕ) → get_or {A = List QEl} (replicate n []) b [] ≡ []
get_or-replicate zero b = refl
get_or-replicate (suc n) zero = refl
get_or-replicate (suc n) (suc b) = get_or-replicate n b

total-replicate : (n : ℕ) → total {A = List QEl} length (replicate n []) ≡ 0
total-replicate zero = refl
total-replicate (suc n) = omega (arith, total-replicate n)

total-set :
    (bs : List (List QEl)) (b : ℕ) (l : List QEl)
    → b < length bs
    → total length (set bs b l) + length (get_or bs b []) ≡ total length bs + length l
total-set [] b l h = absurd (omega arith)
total-set (x ∷ bs) zero l h = omega arith
total-set (x ∷ bs) (suc b) l h = omega (arith, total-set bs b l (omega arith))

total_empty :
    (bs : List (List QEl)) → ((b : ℕ) → b < length bs → get_or bs b [] ≡ []) → total length bs ≡ 0
total_empty [] h = refl
total_empty (x ∷ bs) h =
    omega (arith, ap length (h 0 (omega arith)), total_empty bs (λ b k. h (suc b) (omega arith)))

get_or_out : (bs : List (List QEl)) (b : ℕ) → length bs ≤ b → get_or bs b [] ≡ []
get_or_out [] b h = refl
get_or_out (x ∷ bs) zero h = absurd (omega arith)
get_or_out (x ∷ bs) (suc b) h = get_or_out bs b (omega arith)

pub empty_queue-IsValid : IsValid empty_queue
empty_queue-IsValid = record {
  count = length-replicate {A = List QEl} 2048 [];
  range = omega arith;
  sum = sym (total-replicate 2048);
  before = λ b h. absurd (omega arith);
}

mem_nil : (e : QEl) {l : List QEl} → l ≡ [] → e ∈ l → ⊥
mem_nil e h m = subst (λ l. e ∈ l) h m

mem_eq : (e : QEl) {l r : List QEl} → l ≡ r → e ∈ l → e ∈ r
mem_eq e h m = subst (λ l. e ∈ l) h m

pub empty_queue_none : (e : QEl) → ¬ Waits e empty_queue
unfolding Waits
empty_queue_none e (b, m) = mem_nil e (get_or-replicate 2048 b) m

-- An empty queue has nothing waiting.
length_zero : (l : List QEl) → length l ≡ 0 → l ≡ []
length_zero [] h = refl
length_zero (x ∷ l) h = absurd (omega arith)

bucket_zero : (bs : List (List QEl)) (b : ℕ) → total length bs ≡ 0 → get_or bs b [] ≡ []
bucket_zero [] b h = refl
bucket_zero (x ∷ bs) zero h = length_zero x (omega arith)
bucket_zero (x ∷ bs) (suc b) h = bucket_zero bs b (omega arith)

pub Waits-none : {q : BucketQueue} → IsValid q → q.size ≡ 0 → (e : QEl) → ¬ Waits e q
unfolding Waits
Waits-none {q} v h e (b, m) = mem_nil e (bucket_zero q.buckets b (omega (arith, v.sum))) m

-- The bucket that a write leaves at an index.
bucket-set :
    (bs : List (List QEl)) (b j : ℕ) (l : List QEl)
    → b < length bs
    → ((b ≡ j) × (get_or (set bs b l) j [] ≡ l))
      ⊎ (b ≢ j) × (get_or (set bs b l) j [] ≡ get_or bs j [])
bucket-set bs b j l h = elim (ℕ_discrete b j) [
  | yes e ↦ inl (e, ap (λ i. get_or (set bs b l) i []) (sym e) ∙ get_or-set_self bs b l [] h)
  | no ne ↦ inr (ne, get_or-set_ne bs b j l [] ne)
]

module _ (i : ℕ) (e : QEl) (q : BucketQueue) (v : IsValid q) where
  abbrev place : ℕ
  place = clamp_to i q.cur (k_buckets - 1)

  place-le : q.cur ≤ place
  place-le = ground (arith, v.range)

  place-lt : place < length q.buckets
  place-lt = ground (arith, v.range, v.count)

  pub push_at-IsValid : IsValid (push_at i e q)
  unfolding push_at
  push_at-IsValid = record {
    count = length-set q.buckets place _ ∙ v.count;
    range = v.range;
    sum = omega (arith, v.sum, total-set q.buckets place (e ∷ bucket q place) place-lt);
    before = λ b h.
        get_or-set_ne q.buckets place b _ [] (λ same. omega (arith, place-le)) ∙ v.before b h;
  }

  pub size-push_at : (push_at i e q).size ≡ q.size + 1
  unfolding push_at
  size-push_at = refl

  -- What waits after a push waited before, or is what was pushed.
  pub push_at_from : (o : QEl) → Waits o (push_at i e q) → (o ≡ e) ⊎ Waits o q
  unfolding push_at Waits
  push_at_from o (b, m) = elim (bucket-set q.buckets place b (e ∷ bucket q place) place-lt) [
    | inl (_, same) ↦ elim (mem_eq o same m) [ inl new ↦ inl new | inr old ↦ inr (place, old) ]
    | inr (_, same) ↦ inr (b, mem_eq o same m)
  ]

  pub push_at_new : Waits e (push_at i e q)
  unfolding push_at Waits
  push_at_new = (place, mem_eq e (sym (get_or-set_self q.buckets place _ [] place-lt)) (inl refl))

  pub push_at_kept : (o : QEl) → Waits o q → Waits o (push_at i e q)
  unfolding push_at Waits
  push_at_kept o (b, m) = (
    b,
    elim (bucket-set q.buckets place b (e ∷ bucket q place) place-lt) [
      | inl (at_place, same) ↦ mem_eq o (sym same) (inr (mem_eq o (ap (bucket q) (sym at_place)) m))
      | inr (_, same) ↦ mem_eq o (sym same) m
    ],
  )

-- The scan stops at a bucket that is not empty.
record Found (bs : List (List QEl)) (c : ℕ) : Type 0 where
  range : c < length bs
  before : (b : ℕ) → b < c → get_or bs b [] ≡ []
  head : QEl
  tail : List QEl
  here : get_or bs c [] ≡ head ∷ tail

seek-Found :
    (bs : List (List QEl)) (left cur : ℕ)
    → left + cur ≡ length bs
    → 0 < total length bs
    → ((b : ℕ) → b < cur → get_or bs b [] ≡ [])
    → Found bs (seek bs left cur)
unfolding seek
seek-Found bs zero cur len some_left before =
    absurd (omega (arith, total_empty bs (λ b h. before b (omega arith))))
seek-Found bs (suc left) cur len some_left before = elim (List-cases (get_or bs cur [])) [
  | inl e ↦
      rw (seek, e)
        (seek-Found bs left (cur + 1) (omega arith) some_left λ b h. elim (ℕ_discrete b cur) [
          | yes same ↦ ap (λ j. get_or bs j []) same ∙ e
          | no ne ↦ before b (omega arith)
        ])
  | inr (x, xs, e) ↦
      rw (seek, e) (record { range = omega arith; before = before; head = x; tail = xs; here = e })
]

-- What a `pop` of a queue that is not empty does.
pub record Popped (q : BucketQueue) : Type 0 where
  pub el : QEl
  pub rest : BucketQueue
  pub returns : pop q ≡ some (el, rest)
  pub valid : IsValid rest
  pub size : rest.size + 1 ≡ q.size
  pub was : Waits el q
  pub kept : (o : QEl) → Waits o q → (o ≡ el) ⊎ Waits o rest
  pub from : (o : QEl) → Waits o rest → Waits o q
  pub monotone : q.cur ≤ rest.cur

seek-le : (bs : List (List QEl)) (left cur : ℕ) → cur ≤ seek bs left cur
unfolding seek
seek-le bs zero cur = omega arith
seek-le bs (suc left) cur = elim (List-cases (get_or bs cur [])) [
  | inl e ↦ rw (seek, e) (omega (arith, seek-le bs left (cur + 1)))
  | inr (x, xs, e) ↦ rw (seek, e) (omega arith)
]

module _ (q : BucketQueue) (v : IsValid q) (h : 0 < q.size) where
  abbrev c : ℕ
  c = seek q.buckets (k_buckets - q.cur) q.cur

  f : Found q.buckets c
  f =
      seek-Found q.buckets (k_buckets - q.cur) q.cur (omega (arith, v.count, v.range))
        (omega (arith, v.sum)) v.before

  pub pop-Popped : Popped q
  unfolding pop Waits
  pop-Popped = record {
    el = f.head;
    rest = record { buckets = set q.buckets c f.tail; cur = c; size = q.size - 1 };
    returns = rw (pop, f.here) refl;
    valid = record {
      count = length-set q.buckets c f.tail ∙ v.count;
      range = omega (arith, f.range, v.count);
      sum = omega (arith, total-set q.buckets c f.tail f.range, ap length f.here, v.sum);
      before = λ b k. get_or-set_ne q.buckets c b f.tail [] (λ same. omega arith) ∙ f.before b k;
    };
    size = omega arith;
    was = (c, mem_eq f.head (sym f.here) (inl refl));
    kept = λ o (b, m). elim (bucket-set q.buckets c b f.tail f.range) [
      | inl (e, same) ↦ elim (mem_eq o (ap (bucket q) (sym e) ∙ f.here) m) [
        | inl new ↦ inl new
        | inr old ↦ inr (b, mem_eq o (sym same) old)
      ]
      | inr (_, same) ↦ inr (b, mem_eq o (sym same) m)
    ];
    from = λ o (b, m). elim (bucket-set q.buckets c b f.tail f.range) [
      | inl (e, same) ↦ (c, mem_eq o (sym f.here) (inr (mem_eq o same m)))
      | inr (_, same) ↦ (b, mem_eq o same m)
    ];
    monotone = seek-le q.buckets (k_buckets - q.cur) q.cur;
  }
