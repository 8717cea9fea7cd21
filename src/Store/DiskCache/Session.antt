-- ===== src/Store/DiskCache/Session.antt =====
-- src/store/DiskCacheStore.cpp: the jobs and callbacks of several reads, in the order in which they run, each
-- without another job on the same key at the same time.
pub mod Jobs
pub mod Right
use Prim.Native.String.{String}
use scrollviewer.Base.{
  ℕ, ◌≡◌, ◌≢◌, refl, sym, ap, ◌∙◌, ◌⊎◌, inl, inr, Bool, true, false, not, Option, none, some, List,
  [], ◌∷◌, ◌++◌, length, if◌then◌else◌, arith, Option-cases, Bool-cases,
}
use scrollviewer.Data.Pipeline.{Kind, StoreResult}
use scrollviewer.Store.Files.{FilePath, entry, miss, coded, temp, Files, AreLawful}
use scrollviewer.Store.DiskCache.{
  Transcoder, FileInfo, write_file_atomic, look_up, keep_result, encode_job, invalidate,
  run_eviction, evict_loop, total_size, sort_by_mtime,
}
use scrollviewer.Store.DiskCache.Coherent.{write_file_atomic-Wrote}
use scrollviewer.Store.DiskCache.Refines.{
  IsFaithful, Serves, Coherent, Answers, MayAnswer, Installed, look_up-Answers, remove-Coherent,
  entry-Coherent, miss-Coherent, coded-Coherent,
}

-- The files, the jobs that wait to encode, oldest first, and the answers that the callers got, newest first.
pub record Session (F : Type 0) : Type 0 where
  pub files : F
  pub jobs : List (String × List ℕ)
  pub answers : List (String × StoreResult)

-- A job of `read` runs; the inner store calls back; a job that encodes runs; `invalidate`; `runEviction`.
pub data Event : Type 0 where
  reads : String → Bool → Event
  calls_back : String → StoreResult → Event
  encodes : Event
  invalidates : String → Event
  evicts : ℕ → List FileInfo → Event

unfoldable pub log :
    String → Option StoreResult → List (String × StoreResult) → List (String × StoreResult)
log k none rs = rs
log k (some r) rs = (k, r) ∷ rs

unfoldable pub add_job : String → Option (List ℕ) → List (String × List ℕ) → List (String × List ℕ)
add_job k none js = js
add_job k (some b) js = js ++ ((k, b) ∷ [])

module _ {F : Type 0} (fs : Files F) where
  unfoldable pub encode_next : Option Transcoder → Session F → Session F
  encode_next none s = s
  encode_next (some t) s = elim s.jobs [
    | [] ↦ s
    | (k, b) ∷ js ↦ record { files = encode_job fs t k b s.files; jobs = js; answers = s.answers }
  ]

  unfoldable pub step : Option Transcoder → Event → Session F → Session F
  step tp (reads k stopped) s =
      let (g, r) = look_up fs tp k stopped s.files in
      record { files = g; jobs = s.jobs; answers = log k r s.answers }
  step tp (calls_back k r) s =
      let (g, j) = keep_result fs tp k r s.files in
      record { files = g; jobs = add_job k j s.jobs; answers = (k, r) ∷ s.answers }
  step tp encodes s = encode_next tp s
  step tp (invalidates k) s = record {
    files = invalidate fs tp k s.files;
    jobs = s.jobs;
    answers = s.answers;
  }
  step tp (evicts budget found) s = record {
    files = (run_eviction fs budget found s.files).0;
    jobs = s.jobs;
    answers = s.answers;
  }

  unfoldable pub run : Option Transcoder → List Event → Session F → Session F
  run tp [] s = s
  run tp (e ∷ es) s = run tp es (step tp e s)

-- An error that the inner store may give at any time.
abbrev pub IsTransient : StoreResult → Type 0
IsTransient (StoreResult.bytes b) = ⊥
IsTransient (StoreResult.error e) = e ≢ Kind.not_found

module _ {F : Type 0} (fs : Files F) (laws : AreLawful fs) (t : Transcoder)
    (Close : List ℕ → List ℕ → Type 0) (faithful : IsFaithful t Close)
    (remote : String → StoreResult) where
  -- The inner store answers a read with its object, or fails.
  abbrev pub Offered : String → StoreResult → Type 0
  Offered k r = (remote k ≡ r) ⊎ IsTransient r

  abbrev pub IsHonest : Event → Type 0
  IsHonest (calls_back k r) = Offered k r
  IsHonest _ = Unit {0}

  abbrev pub AreHonest : List Event → Type 0
  AreHonest [] = Unit {0}
  AreHonest (e ∷ es) = IsHonest e × AreHonest es

  -- An answer may stand for the inner store's, or is such an error.
  abbrev pub AreRight : List (String × StoreResult) → Type 0
  AreRight [] = Unit {0}
  AreRight (a ∷ rs) = (Answers fs laws t Close remote a.0 a.1 ⊎ IsTransient a.1) × AreRight rs

  abbrev pub AreOwed : List (String × List ℕ) → Type 0
  AreOwed [] = Unit {0}
  AreOwed (j ∷ js) = (remote j.0 ≡ StoreResult.bytes j.1) × AreOwed js

  pub record IsRight (s : Session F) : Type 0 where
    pub files_coherent : Coherent fs laws t Close remote s.files
    pub jobs_owed : AreOwed s.jobs
    pub answers_right : AreRight s.answers
