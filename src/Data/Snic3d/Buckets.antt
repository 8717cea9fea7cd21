-- ===== src/Data/Snic3d/Buckets.antt =====
-- src/data/Snic3D.cpp: `BucketQueue`.
use scrollviewer.Base.{
  ℕ, zero, suc, ◌+◌, ◌-◌, Option, none, some, List, [], ◌∷◌, get_or, set, replicate, ltb,
  if◌then◌else◌,
}

-- A cluster whose voxel is to be visited: `idx` is the voxel, `k` the cluster.
pub record QEl : Type 0 where
  pub idx : ℕ
  pub k : ℕ

abbrev pub k_buckets : ℕ
k_buckets = 2048

-- The back of a bucket is its head.
pub record BucketQueue : Type 0 where
  pub buckets : List (List QEl)
  pub cur : ℕ
  pub size : ℕ

abbrev pub bucket : BucketQueue → ℕ → List QEl
bucket q b = get_or q.buckets b []

abbrev pub empty_queue : BucketQueue
empty_queue = record { buckets = replicate k_buckets []; cur = 0; size = 0 }

abbrev pub clamp_to : ℕ → ℕ → ℕ → ℕ
clamp_to v lo hi = if ltb v lo then lo else if ltb hi v then hi else v

-- `push`, at the place `int(d * kScale)`.
unfoldable pub push_at : ℕ → QEl → BucketQueue → BucketQueue
push_at i e q =
    let b = clamp_to i q.cur (k_buckets - 1) in
    record q { buckets = set q.buckets b (e ∷ bucket q b); size = q.size + 1 }

-- The loop of `pop`, which looks at no more buckets than there are from `cur` on.
unfoldable pub seek : List (List QEl) → ℕ → ℕ → ℕ
seek bs zero cur = cur
seek bs (suc left) cur = elim (get_or bs cur []) [ [] ↦ seek bs left (cur + 1) | e ∷ es ↦ cur ]

-- `pop`; `none` is the loop running past the last bucket.
unfoldable pub pop : BucketQueue → Option (QEl × BucketQueue)
unfolding seek
pop q =
    let cur = seek q.buckets (k_buckets - q.cur) q.cur in
    elim (bucket q cur) [
      | [] ↦ none
      | e ∷ es ↦ some (e, record { buckets = set q.buckets cur es; cur = cur; size = q.size - 1 })
    ]
