-- ===== src/Store/DiskCache/Session/Right.antt =====
-- src/store/DiskCacheStore.cpp: what a session of jobs and callbacks keeps, and what it answers.
use Prim.Native.String.{String}
use scrollviewer.Base.{
  ℕ, ◌≡◌, ◌⊎◌, inl, inr, Bool, true, false, Option, none, some, List, [], ◌∷◌, arith, List-cases,
  subst,
}
use scrollviewer.Data.Pipeline.{StoreResult}
use scrollviewer.Store.Files.{Files, AreLawful, DoAllClose}
use scrollviewer.Store.DiskCache.{Transcoder, look_up}
use scrollviewer.Store.DiskCache.Refines.{
  IsFaithful, Coherent, Answers, MayAnswer, Installed, look_up-Answers,
}
use scrollviewer.Store.DiskCache.Session.{
  Session, Event, reads, calls_back, encodes, invalidates, evicts, log, encode_next, step, run,
  IsTransient, Offered, IsHonest, AreHonest, AreRight, AreOwed, IsRight,
}
use scrollviewer.Store.DiskCache.Session.Jobs.{
  exact-Serves, encode_job-Coherent, invalidate-Coherent, run_eviction-Coherent,
  keep_result-Coherent,
}

module _ {F : Type 0} (fs : Files F) (laws : AreLawful fs) (t : Transcoder)
    (Close : List ℕ → List ℕ → Type 0) (faithful : IsFaithful t Close)
    (remote : String → StoreResult) (closes : DoAllClose fs) where
  -- The definitions of the session at these parameters.
  abbrev Good : F → Type 0
  Good = Coherent fs laws t Close remote

  abbrev Owed : List (String × List ℕ) → Type 0
  Owed = AreOwed fs laws t Close faithful remote

  abbrev RightSession : Session F → Type 0
  RightSession = IsRight fs laws t Close faithful remote

  look_up-log :
      (k : String) (a : Option StoreResult) (rs : List (String × StoreResult))
      → MayAnswer fs laws t Close remote k a
      → AreRight fs laws t Close faithful remote rs
      → AreRight fs laws t Close faithful remote (log k a rs)
  unfolding log
  look_up-log k none rs h right = right
  look_up-log k (some r) rs h right = (inl h, right)

  look_up_step :
      (tp : Option Transcoder) (k : String) (stopped : Bool) (s : Session F)
      → Installed fs laws t Close remote tp
      → RightSession s
      → RightSession (step fs tp (reads k stopped) s)
  unfolding step look_up log
  look_up_step tp k true s i v = record {
    files_coherent = v.files_coherent;
    jobs_owed = v.jobs_owed;
    answers_right = (inr (λ h. cc), v.answers_right);
  }
  look_up_step tp k false s i v =
      let found = look_up-Answers fs laws t Close remote tp k s.files i v.files_coherent in
      record {
        files_coherent = found.0;
        jobs_owed = v.jobs_owed;
        answers_right =
            look_up-log k (look_up fs tp k false s.files).1 s.answers found.1 v.answers_right;
      }

  answer_right :
      (k : String) (r : StoreResult)
      → Offered fs laws t Close faithful remote k r
      → Answers fs laws t Close remote k r ⊎ IsTransient r
  answer_right k (StoreResult.bytes b) (inl h) =
      inl (exact-Serves fs laws t Close faithful remote closes k b h)
  answer_right k (StoreResult.error e) (inl h) = inl h
  answer_right k r (inr h) = inr h

  encode_next-IsRight :
      (tp : Option Transcoder) (s : Session F)
      → Installed fs laws t Close remote tp
      → RightSession s
      → RightSession (encode_next fs tp s)
  unfolding encode_next
  encode_next-IsRight none s i v = v
  encode_next-IsRight (some u) s i v =
      let same : u ≡ t = ground arith in
      elim (List-cases s.jobs) [
        | inl e ↦ rw (encode_next, e) v
        | inr (j, js, e) ↦
            let owed : Owed (j ∷ js) = subst Owed e v.jobs_owed in
            rw (encode_next, e, same)
              (record {
                files_coherent =
                    encode_job-Coherent fs laws t Close faithful remote closes j.0 j.1 s.files
                      v.files_coherent owed.0;
                jobs_owed = owed.1;
                answers_right = v.answers_right;
              })
      ]

  step-IsRight :
      (tp : Option Transcoder) (e : Event) (s : Session F)
      → Installed fs laws t Close remote tp
      → IsHonest fs laws t Close faithful remote e
      → RightSession s
      → RightSession (step fs tp e s)
  unfolding step
  step-IsRight tp (reads k stopped) s i h v = look_up_step tp k stopped s i v
  step-IsRight tp (calls_back k r) s i h v =
      let kept =
        keep_result-Coherent fs laws t Close faithful remote closes tp k r s.files s.jobs
          v.files_coherent v.jobs_owed h in
      record {
        files_coherent = kept.0;
        jobs_owed = kept.1;
        answers_right = (answer_right k r h, v.answers_right);
      }
  step-IsRight tp encodes s i h v = encode_next-IsRight tp s i v
  step-IsRight tp (invalidates k) s i h v = record {
    files_coherent =
        invalidate-Coherent fs laws t Close faithful remote closes tp k s.files v.files_coherent;
    jobs_owed = v.jobs_owed;
    answers_right = v.answers_right;
  }
  step-IsRight tp (evicts budget is) s i h v = record {
    files_coherent =
        run_eviction-Coherent fs laws t Close faithful remote closes budget is s.files
          v.files_coherent;
    jobs_owed = v.jobs_owed;
    answers_right = v.answers_right;
  }

  -- On a file system that keeps its laws and whose `fclose` never fails after a whole `fwrite`, and with or
  -- without the transcoder, whose encoding and decoding give bytes that may stand for the ones that went in:
  -- from a coherent cache, whatever reads, callbacks of an honest inner store, encoding jobs, invalidations
  -- and evictions run, each on its own, in any order, every file of the cache stays in agreement with the
  -- inner store, every job that waits has the object's bytes, and every answer stands for the inner store's,
  -- or is an error other than a missing object.
  pub run-IsRight :
      (tp : Option Transcoder) (es : List Event) (s : Session F)
      → Installed fs laws t Close remote tp
      → AreHonest fs laws t Close faithful remote es
      → RightSession s
      → RightSession (run fs tp es s)
  unfolding run
  run-IsRight tp [] s i h v = v
  run-IsRight tp (e ∷ es) s i h v =
      run-IsRight tp es (step fs tp e s) i h.1 (step-IsRight tp e s i h.0 v)
