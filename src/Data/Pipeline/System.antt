-- ===== src/Data/Pipeline/System.antt =====
-- src/data/ChunkFetchPipeline.cpp with all its threads: the render thread, which submits, drains and
-- unpins, the store's threads, which call reads back, and the decode threads. A decode job runs in
-- three parts: it decodes, inserts the brick into the RAM cache under the cache's mutex, and then
-- takes the pipeline's mutex; `publishing` holds the jobs between the last two.
use scrollviewer.Base.{ℕ, Option, none, some, List, [], ◌∷◌, take_at}
use scrollviewer.Data.BrickKey.{BrickKey}
use scrollviewer.Data.RamCache
use scrollviewer.Data.RamCache.{Brick, RamCache}
use scrollviewer.Data.Volume.{Volume}
use scrollviewer.Data.Decode.{build_brick}
use scrollviewer.Data.Pipeline.{
  FloatOrder, BrickRequest, StoreResult, Job, Pipeline, submit, on_fetch_done, decode_failed,
  publish, drain_ready, unpin,
}

-- The brick is `none` after a decode error.
pub record Publishing : Type 0 where
  pub key : BrickKey
  pub brick : Option Brick

pub record System (P : Type 0) : Type 0 where
  pub pipe : Pipeline P
  pub ram : RamCache
  pub publishing : List Publishing

-- What happens next. A number chooses one of the reads, jobs or publishing jobs that are under way.
pub data Event (P : Type 0) : Type 0 where
  submits : List (BrickRequest P) → Event P
  calls_back : ℕ → StoreResult → Event P
  decodes : ℕ → Event P
  publishes : ℕ → Event P
  drains : Event P
  unpins : BrickKey → Event P

-- The decode job up to the insertion.
unfoldable pub run_job : Volume → Job → RamCache → RamCache × Option Brick
run_job vol job ram = elim (build_brick vol job.key job.compressed job.is_missing) [
  | none ↦ (ram, none)
  | some b ↦ RamCache.insert_pinned ram b
]

module _ {P : Type 0} ⦃f : FloatOrder P⦄ (vol : Volume) where
  unfoldable pub call_back : ℕ → StoreResult → System P → System P
  call_back i r s = elim (take_at i s.pipe.reads) [
    | none ↦ s
    | some (read, rest) ↦ record s {
      pipe = on_fetch_done vol read.key r (record s.pipe { reads = rest });
    }
  ]

  unfoldable pub decode : ℕ → System P → System P
  decode i s = elim (take_at i s.pipe.jobs) [
    | none ↦ s
    | some (job, rest) ↦
        let (ram, brick) = run_job vol job s.ram in
        record s {
          pipe = record s.pipe { jobs = rest };
          ram = ram;
          publishing = record { key = job.key; brick = brick } ∷ s.publishing;
        }
  ]

  unfoldable pub publish_one : Publishing → Pipeline P → Pipeline P
  publish_one p s = elim p.brick [
    | none ↦ decode_failed vol p.key s
    | some b ↦ publish vol p.key b s
  ]

  unfoldable pub publish_at : ℕ → System P → System P
  publish_at i s = elim (take_at i s.publishing) [
    | none ↦ s
    | some (p, rest) ↦ record s { pipe = publish_one p s.pipe; publishing = rest }
  ]

  unfoldable pub step : System P → Event P → System P
  step s (submits wanted) = record s { pipe = submit vol wanted s.pipe }
  step s (calls_back i r) = call_back i r s
  step s (decodes i) = decode i s
  step s (publishes i) = publish_at i s
  step s drains = record s { pipe = (drain_ready s.pipe).0 }
  step s (unpins k) = record s { pipe = unpin vol k s.pipe; ram = RamCache.unpin s.ram k }

  unfoldable pub run : System P → List (Event P) → System P
  run s [] = s
  run s (e ∷ es) = run (step s e) es
