-- ===== src/Store/DiskCache/Session/Jobs.antt =====
-- src/store/DiskCacheStore.cpp: what the jobs, the callbacks and the eviction keep of the cache.
use Prim.Native.String.{String}
use scrollviewer.Base.{
  ℕ, ◌≡◌, refl, inl, inr, Option, none, some, List, [], ◌∷◌, ◌++◌, leb, add64, sub64, u64_mod, ◌*◌,
  ◌/◌, ◌%◌, if◌then◌else◌, Option-cases, Bool-cases,
}
use scrollviewer.Data.Pipeline.{Kind, StoreResult}
use scrollviewer.Store.Files.{entry, miss, coded, Files, AreLawful, DoAllClose}
use scrollviewer.Store.DiskCache.{
  Transcoder, FileInfo, write_file_atomic, keep_result, encode_job, invalidate, run_eviction,
  evict_loop, total_size, sort_by_mtime,
}
use scrollviewer.Store.DiskCache.Coherent.{write_file_atomic-Wrote}
use scrollviewer.Store.DiskCache.Refines.{
  IsFaithful, Serves, Coherent, remove-Coherent, entry-Coherent, miss-Coherent, coded-Coherent,
}
use scrollviewer.Store.DiskCache.Session.{add_job, Offered, AreOwed}

module _ {F : Type 0} (fs : Files F) (laws : AreLawful fs) (t : Transcoder)
    (Close : List ℕ → List ℕ → Type 0) (faithful : IsFaithful t Close)
    (remote : String → StoreResult) (closes : DoAllClose fs) where
  -- The definitions of the session at these parameters.
  abbrev Good : F → Type 0
  Good = Coherent fs laws t Close remote

  abbrev Owed : List (String × List ℕ) → Type 0
  Owed = AreOwed fs laws t Close faithful remote

  pub exact-Serves :
      (k : String) (b : List ℕ) → remote k ≡ StoreResult.bytes b → Serves fs laws t Close remote k b
  exact-Serves k b h = (b, h, faithful.close_refl b)

  pub append-AreOwed :
      (js : List (String × List ℕ)) (k : String) (b : List ℕ)
      → Owed js
      → remote k ≡ StoreResult.bytes b
      → Owed (js ++ ((k, b) ∷ []))
  append-AreOwed [] k b o h = (h, tt)
  append-AreOwed (j ∷ js) k b o h = (o.0, append-AreOwed js k b o.1 h)

  pub entry_write-Coherent :
      (k : String) (b : List ℕ) (f : F)
      → Good f
      → remote k ≡ StoreResult.bytes b
      → Good (write_file_atomic fs (entry k) b f).0
  entry_write-Coherent k b f v h =
      entry-Coherent fs laws t Close remote k b f (write_file_atomic fs (entry k) b f).0 v
        (write_file_atomic-Wrote fs laws closes (entry k) b f) (exact-Serves k b h)

  pub coded_write-Coherent :
      (k : String) (b e : List ℕ) (f : F)
      → Good f
      → remote k ≡ StoreResult.bytes b
      → t.encode b ≡ some e
      → Good (write_file_atomic fs (coded k) e f).0
  coded_write-Coherent k b e f v h enc =
      coded-Coherent fs laws t Close remote k e f (write_file_atomic fs (coded k) e f).0 v
        (write_file_atomic-Wrote fs laws closes (coded k) e f)
        (λ c dec. (b, h, faithful.close_encode b e c enc dec))

  -- A job that encodes keeps the cache coherent.
  pub encode_job-Coherent :
      (k : String) (b : List ℕ) (f : F)
      → Good f
      → remote k ≡ StoreResult.bytes b
      → Good (encode_job fs t k b f)
  unfolding encode_job
  encode_job-Coherent k b f v h = elim (Option-cases (t.encode b)) [
    | inl enc ↦ rw (encode_job, enc) (entry_write-Coherent k b f v h)
    | inr (e, enc) ↦ elim (Bool-cases (write_file_atomic fs (coded k) e f).1) [
      | inl wrote ↦ rw (encode_job, enc, wrote) (coded_write-Coherent k b e f v h enc)
      | inr lost ↦
          rw (encode_job, enc, lost)
            (entry_write-Coherent k b (write_file_atomic fs (coded k) e f).0
              (coded_write-Coherent k b e f v h enc) h)
    ]
  ]

  pub drop_two-Coherent :
      (k : String) (f : F) → Good f → Good (fs.remove (miss k) (fs.remove (entry k) f).0).0
  drop_two-Coherent k f v =
      remove-Coherent fs laws t Close remote (miss k) (fs.remove (entry k) f).0
        (remove-Coherent fs laws t Close remote (entry k) f v)

  pub invalidate-Coherent :
      (tp : Option Transcoder) (k : String) (f : F) → Good f → Good (invalidate fs tp k f)
  unfolding invalidate
  invalidate-Coherent none k f v = drop_two-Coherent k f v
  invalidate-Coherent (some u) k f v =
      remove-Coherent fs laws t Close remote (coded k)
        (fs.remove (miss k) (fs.remove (entry k) f).0).0 (drop_two-Coherent k f v)

  pub evict_loop-Coherent :
      (total target : ℕ) (is : List FileInfo) (freed : ℕ) (f : F)
      → Good f
      → Good (evict_loop fs total target is freed f).0
  unfolding evict_loop
  evict_loop-Coherent total target [] freed f v = v
  evict_loop-Coherent total target (i ∷ is) freed f v =
      let rest : Good
          (evict_loop fs total target is
            (if (fs.remove i.path f).1 then add64 freed i.size else freed)
            (fs.remove i.path f).0).0 =
        evict_loop-Coherent total target is
          (if (fs.remove i.path f).1 then add64 freed i.size else freed) (fs.remove i.path f).0
          (remove-Coherent fs laws t Close remote i.path f v) in
      elim (Bool-cases (leb (sub64 total freed) target)) [
        | inl e ↦ rw (evict_loop, e) v
        | inr e ↦ rw (evict_loop, e) rest
      ]

  pub run_eviction-Coherent :
      (budget : ℕ) (is : List FileInfo) (f : F) → Good f → Good (run_eviction fs budget is f).0
  unfolding run_eviction
  run_eviction-Coherent budget is f v = elim (Bool-cases (leb (total_size is) budget)) [
    | inl e ↦ rw (run_eviction, e) v
    | inr e ↦
        rw (run_eviction, e)
          (evict_loop-Coherent (total_size is) (budget * 9 % u64_mod / 10) (sort_by_mtime is) 0 f v)
  ]

  -- The callback of the inner read keeps the cache coherent, and the job that it posts is owed.
  pub keep_result-Coherent :
      (tp : Option Transcoder) (k : String) (r : StoreResult) (f : F) (js : List (String × List ℕ))
      → Good f
      → Owed js
      → Offered fs laws t Close faithful remote k r
      → Good (keep_result fs tp k r f).0 × Owed (add_job k (keep_result fs tp k r f).1 js)
  unfolding keep_result add_job
  keep_result-Coherent tp k (StoreResult.error Kind.not_found) f js v o (inl h) = (
    miss-Coherent fs laws t Close remote k f (write_file_atomic fs (miss k) [] f).0 v
        (write_file_atomic-Wrote fs laws closes (miss k) [] f) h,
    o,
  )
  keep_result-Coherent tp k (StoreResult.error Kind.not_found) f js v o (inr h) = absurd (h refl)
  keep_result-Coherent tp k (StoreResult.error Kind.io) f js v o h = (v, o)
  keep_result-Coherent tp k (StoreResult.error Kind.http) f js v o h = (v, o)
  keep_result-Coherent tp k (StoreResult.error Kind.cancelled) f js v o h = (v, o)
  keep_result-Coherent tp k (StoreResult.error Kind.auth) f js v o h = (v, o)
  keep_result-Coherent none k (StoreResult.bytes b) f js v o (inl h) =
      (entry_write-Coherent k b f v h, o)
  keep_result-Coherent (some u) k (StoreResult.bytes b) f js v o (inl h) =
      (v, append-AreOwed js k b o h)
  keep_result-Coherent tp k (StoreResult.bytes b) f js v o (inr h) = absurd h
