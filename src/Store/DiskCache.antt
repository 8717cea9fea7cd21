-- ===== src/Store/DiskCache.antt =====
-- src/store/DiskCacheStore.h and DiskCacheStore.cpp. A read is a job on the pool up to the request to the
-- inner store, and the callback of that request; with a transcoder, the encoding is one more job.
pub mod Coherent
pub mod Refines
pub mod Session
pub mod Eviction
pub mod Tests
use Prim.Native.String.{String}
use scrollviewer.Base.{
  ℕ, ◌+◌, ◌-◌, ◌*◌, ◌/◌, ◌%◌, Bool, true, false, not, Option, none, some, List, [], ◌∷◌, length,
  ltb, leb, ◌==◌, if◌then◌else◌, u64_mod, add64, sub64,
}
use scrollviewer.Data.Pipeline.{Kind, StoreResult}
use scrollviewer.Store.Files.{FilePath, entry, miss, coded, temp, Files}

-- `CacheTranscoder`.
pub record Transcoder : Type 0 where
  pub encode : List ℕ → Option (List ℕ)
  pub decode : List ℕ → Option (List ℕ)

-- A file that the scan for the eviction has found.
pub record FileInfo : Type 0 where
  pub path : FilePath
  pub mtime : ℕ
  pub size : ℕ

-- The sum that the scan makes.
unfoldable pub total_size : List FileInfo → ℕ
total_size [] = 0
total_size (i ∷ is) = add64 i.size (total_size is)

-- `std::ranges::sort` by the time of the last write.
unfoldable pub insert_by_mtime : FileInfo → List FileInfo → List FileInfo
insert_by_mtime i [] = i ∷ []
insert_by_mtime i (j ∷ js) = if leb i.mtime j.mtime then i ∷ j ∷ js else j ∷ insert_by_mtime i js

unfoldable pub sort_by_mtime : List FileInfo → List FileInfo
sort_by_mtime [] = []
sort_by_mtime (i ∷ is) = insert_by_mtime i (sort_by_mtime is)

module _ {F : Type 0} (fs : Files F) where
  -- After the temporary file is closed: a short write is removed, and a whole one takes the target's place.
  unfoldable pub replace_target : FilePath → Bool → F → F × Bool
  replace_target target whole f =
      if not whole
      then ((fs.remove (temp target) f).0, false)
      else (let (g, moved) = fs.rename (temp target) target f in
          let h = (fs.remove (temp target) g).0 in
          if moved then (g, true) else (h, fs.exists h target))

  unfoldable pub write_file_atomic : FilePath → List ℕ → F → F × Bool
  write_file_atomic target bytes f =
      let f1 = fs.create_parents target f in
      elim (fs.open_write (temp target) f1) [
        | none ↦ (f1, false)
        | some f2 ↦
            let (f3, wrote) = fs.fwrite (temp target) bytes f2 in
            replace_target target (wrote == length bytes) (fs.close (temp target) f3).0
      ]

  unfoldable pub read_opened : FilePath → ℕ → F → Option (List ℕ)
  read_opened p n f =
      if not (fs.open_read f p)
      then none
      else (if not (length (fs.fread f p n) == n) then none else some (fs.fread f p n))

  unfoldable pub read_whole_file : FilePath → F → Option (List ℕ)
  read_whole_file p f = elim (fs.size f p) [ none ↦ none | some n ↦ read_opened p n f ]

  -- The verbatim entry, or else a recorded miss. `none` goes on to the inner store.
  unfoldable pub look_up_plain : String → F → F × Option StoreResult
  look_up_plain key f = elim (read_whole_file (entry key) f) [
    | some bytes ↦ (f, some (StoreResult.bytes bytes))
    | none ↦
        let g = (fs.remove (entry key) f).0 in
        (g, if fs.exists g (miss key) then some (StoreResult.error Kind.not_found) else none)
  ]

  -- A transcoded entry; one that does not decode is removed.
  unfoldable pub look_up_coded : Transcoder → String → F → F × Option StoreResult
  look_up_coded t key f = elim (read_whole_file (coded key) f) [
    | none ↦ look_up_plain key f
    | some stored ↦ elim (t.decode stored) [
      | some raw ↦ (f, some (StoreResult.bytes raw))
      | none ↦ look_up_plain key (fs.remove (coded key) f).0
    ]
  ]

  -- The job that `read` posts, up to the request to the inner store.
  unfoldable pub look_up : Option Transcoder → String → Bool → F → F × Option StoreResult
  look_up tp key true f = (f, some (StoreResult.error Kind.cancelled))
  look_up none key false f = look_up_plain key f
  look_up (some t) key false f = look_up_coded t key f

  -- What the callback of the inner read keeps, and the bytes of the job that encodes, if it posts one.
  unfoldable pub keep_result : Option Transcoder → String → StoreResult → F → F × Option (List ℕ)
  keep_result tp key (StoreResult.error Kind.not_found) f =
      ((write_file_atomic (miss key) [] f).0, none)
  keep_result tp key (StoreResult.error _) f = (f, none)
  keep_result none key (StoreResult.bytes bytes) f =
      ((write_file_atomic (entry key) bytes f).0, none)
  keep_result (some t) key (StoreResult.bytes bytes) f = (f, some bytes)

  -- The job that encodes: what cannot be encoded, or written so, is kept verbatim.
  unfoldable pub encode_job : Transcoder → String → List ℕ → F → F
  encode_job t key bytes f = elim (t.encode bytes) [
    | none ↦ (write_file_atomic (entry key) bytes f).0
    | some enc ↦
        let (g, wrote) = write_file_atomic (coded key) enc f in
        if wrote then g else (write_file_atomic (entry key) bytes g).0
  ]

  unfoldable pub invalidate : Option Transcoder → String → F → F
  invalidate none key f = (fs.remove (miss key) (fs.remove (entry key) f).0).0
  invalidate (some t) key f =
      (fs.remove (coded key) (fs.remove (miss key) (fs.remove (entry key) f).0).0).0

  -- The loop that removes, oldest first: the bytes that were freed so far, and the file system.
  unfoldable pub evict_loop : ℕ → ℕ → List FileInfo → ℕ → F → F × ℕ
  evict_loop total target [] freed f = (f, freed)
  evict_loop total target (i ∷ is) freed f =
      let (g, removed) = fs.remove i.path f in
      let rest = evict_loop total target is (if removed then add64 freed i.size else freed) g in
      if leb (sub64 total freed) target then (f, freed) else rest

  -- `runEviction` on the files that the scan has found.
  unfoldable pub run_eviction : ℕ → List FileInfo → F → F × ℕ
  run_eviction budget files f =
      let total = total_size files in
      if leb total budget
      then (f, 0)
      else evict_loop total (budget * 9 % u64_mod / 10) (sort_by_mtime files) 0 f
